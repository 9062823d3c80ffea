-- ===== src/Json/Object.antt =====
-- Laws of the object operations of Json.antt, for lookups at every key.
use hojo_memory_engine.Prelude.{
  ◌≡◌, refl, String, Option, none, some, ◌==◌, string_eq, eq_iff, arith, if◌then◌else◌,
}
use hojo_memory_engine.Json.{Json, Fields, end, field, get, put, merge}

pub get-put :
    (k j : String) (v : Json) (fs : Fields)
    → get j (put k v fs) ≡ (if k == j then some v else get j fs)
unfolding get put
get-put k j v end = refl
get-put k j v (field i w fs) = ground (arith, eq_iff k j, eq_iff i k, eq_iff i j, get-put k j v fs)

-- The later of two lookups, when it finds something.
abbrev pub or_else : Option Json → Option Json → Option Json
or_else (some v) o = some v
or_else none o = o

-- The keys of an object are distinct, as those of a Python `dict` are.
abbrev pub IsDict : Fields → Type 0
IsDict end = Unit
IsDict (field k v fs) = (get k fs ≡ none) × IsDict fs

pub get-merge :
    (k : String) (old new : Fields)
    → IsDict new
    → get k (merge old new) ≡ or_else (get k new) (get k old)
unfolding get merge
get-merge k old end h = refl
get-merge k old (field j v new) h =
    ground (arith, eq_iff j k, get-merge k (put j v old) new h.1, get-put j k v old, h.0)
