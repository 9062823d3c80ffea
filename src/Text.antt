-- ===== src/Text.antt =====
-- The methods of Python's `str` that the services use, over code points.
use Prim.Native.Char.{Char, code}
use Prim.Native.String.{◌++◌}
use hojo_memory_engine.Prelude.{
  ℕ, zero, suc, String, Bool, true, false, ◌||◌, ◌&&◌, leb, ◌==◌, nat_eq, string_eq, if◌then◌else◌,
}

-- ASCII white space.
abbrev pub is_space : Char → Bool
is_space c = let n = code c in (leb 9 n && leb n 13) || (leb 28 n && leb n 32)

-- `s.endswith(t)`.
unfoldable pub ends_with : String → String → Bool
ends_with String.[] t = "" == t
ends_with (String.◌∷◌ c s) t = (String.◌∷◌ c s == t) || ends_with s t

-- `s.startswith(t)`.
unfoldable pub starts_with : String → String → Bool
starts_with s String.[] = true
starts_with String.[] (String.◌∷◌ d t) = false
starts_with (String.◌∷◌ c s) (String.◌∷◌ d t) = (code c == code d) && starts_with s t

-- `s[:-1]`.
unfoldable pub drop_last : String → String
drop_last String.[] = ""
drop_last (String.◌∷◌ c String.[]) = ""
drop_last (String.◌∷◌ c (String.◌∷◌ d s)) = String.◌∷◌ c (drop_last (String.◌∷◌ d s))

-- `s.rstrip(…)` and `s.lstrip(…)` for the characters that pass the test.
unfoldable pub rstrip : (Char → Bool) → String → String
rstrip p String.[] = ""
rstrip p (String.◌∷◌ c s) = let r = rstrip p s in if (r == "") && p c then "" else String.◌∷◌ c r

unfoldable pub lstrip : (Char → Bool) → String → String
lstrip p String.[] = ""
lstrip p (String.◌∷◌ c s) = let r = lstrip p s in if p c then r else String.◌∷◌ c s

-- `s.strip()`.
unfoldable pub strip : String → String
unfolding lstrip rstrip
strip s = lstrip is_space (rstrip is_space s)

-- `s.replace("Z", "+00:00")`.
unfoldable pub replace_z : String → String
replace_z String.[] = ""
replace_z (String.◌∷◌ c s) =
    if code c == b'Z' then "+00:00" ++ replace_z s else String.◌∷◌ c (replace_z s)

-- `s[:n]`.
unfoldable pub clip : ℕ → String → String
clip zero s = ""
clip (suc n) String.[] = ""
clip (suc n) (String.◌∷◌ c s) = String.◌∷◌ c (clip n s)

-- `t in s`.
unfoldable pub includes : String → String → Bool
unfolding starts_with
includes String.[] t = "" == t
includes (String.◌∷◌ c s) t = starts_with (String.◌∷◌ c s) t || includes s t

-- `re.sub(r"\s+", "", s)`, for the white space of ASCII.
unfoldable pub without_spaces : String → String
without_spaces String.[] = ""
without_spaces (String.◌∷◌ c s) =
    let rest = without_spaces s in if is_space c then rest else String.◌∷◌ c rest
