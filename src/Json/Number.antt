-- ===== src/Json/Number.antt =====
-- `float(x)` and `int(x)` of a JSON value; a double is counted in units of the smallest one.
use Prim.Native.Nat.{◌*◌, ◌/◌, ◌^◌}
use hojo_memory_engine.Prelude.{
  ℕ, zero, suc, ◌-◌, String, Bool, true, false, Option, none, some, leb, ◌&&◌,
}
use hojo_memory_engine.Json.{ℤ, pos, negsuc, Json, bool, int, float, str}

-- 1.0.
unfoldable pub one : ℕ
one = 2 ^ 1074

-- An integer as a double. (Rounding moves none past a bound that the services test.)
unfoldable pub of_int : ℤ → ℤ
unfolding one
of_int (pos n) = pos (n * one)
of_int (negsuc n) = negsuc (suc n * one - 1)

-- `none` is a `TypeError` or a `ValueError`.
unfoldable pub to_float : (String → Option ℤ) → Json → Option ℤ
unfolding of_int
to_float parse (bool true) = some (pos one)
to_float parse (bool false) = some (pos 0)
to_float parse (int z) = some (of_int z)
to_float parse (float z) = some z
to_float parse (str s) = parse s
to_float parse _ = none

abbrev negate : ℕ → ℤ
negate zero = pos 0
negate (suc n) = negsuc n

-- A double, rounded towards zero.
unfoldable pub truncate : ℤ → ℤ
unfolding one
truncate (pos n) = pos (n / one)
truncate (negsuc n) = negate (suc n / one)

unfoldable pub to_int : (String → Option ℤ) → Json → Option ℤ
unfolding truncate
to_int parse (bool true) = some (pos 1)
to_int parse (bool false) = some (pos 0)
to_int parse (int z) = some z
to_int parse (float z) = some (truncate z)
to_int parse (str s) = parse s
to_int parse _ = none

-- `lo <= z <= hi` for natural bounds.
abbrev pub between : ℕ → ℕ → ℤ → Bool
between lo hi (pos n) = leb lo n && leb n hi
between lo hi (negsuc n) = false

-- The natural number that a valid bound is.
abbrev pub to_ℕ : ℤ → ℕ
to_ℕ (pos n) = n
to_ℕ (negsuc n) = 0
