-- ===== src/Json.antt =====
-- JSON values, as they reach the services from request bodies and from JSON columns, and the
-- operations of Python's `dict` and `json` that the services apply to them. A float is a finite
-- double: `float k` is `k / 2 ^ 1074`, which every finite double is for exactly one `k`.
pub mod Object
pub mod Number
use Prim.Native.Nat.{Ordering}
use Prim.Native.String
use mathlib.Core.Bool.{decide, decide_iff}
use native.Mathlib.Decide.{ℕ_discrete}
use hojo_memory_engine.Prelude.{
  ℕ, ◌≡◌, ◌↔◌, String, Bool, true, Option, none, some, ◌==◌, string_eq, String-discrete,
  if◌then◌else◌,
}

-- `negsuc n` is -(n + 1).
pub data ℤ : Type 0 where
  pos : ℕ → ℤ
  negsuc : ℕ → ℤ

mutual
  pub data Json : Type 0 where
    null : Json
    bool : Bool → Json
    int : ℤ → Json
    float : ℤ → Json
    str : String → Json
    arr : Items → Json
    obj : Fields → Json

  pub data Items : Type 0 where
    nil : Items
    cons : Json → Items → Items

  -- The keys of a `dict` in insertion order.
  pub data Fields : Type 0 where
    end : Fields
    field : String → Json → Fields → Fields

-- `d.get(k)`.
unfoldable pub get : String → Fields → Option Json
get k end = none
get k (field j v fs) = if j == k then some v else get k fs

-- `d[k] = v`: in place, or at the end.
unfoldable pub put : String → Json → Fields → Fields
put k v end = field k v end
put k v (field j w fs) = if j == k then field j v fs else field j w (put k v fs)

-- `{**old, **new}`.
unfoldable pub merge : Fields → Fields → Fields
unfolding put
merge old end = old
merge old (field k v new) = merge (put k v old) new

-- The place of a key in a sorted object.
insert_sorted : String → Json → Fields → Fields
insert_sorted k v end = field k v end
insert_sorted k v (field j w fs) = elim (String.compare k j) [
  | Ordering.gt ↦ field j w (insert_sorted k v fs)
  | _ ↦ field k v (field j w fs)
]

-- What `json.dumps(v, sort_keys=True)` renders: the value with the keys of every object sorted.
unfoldable mutual
  unfolding insert_sorted

  pub canonical : Json → Json
  canonical (arr xs) = arr (canonical_items xs)
  canonical (obj fs) = obj (canonical_fields fs)
  canonical v = v

  pub canonical_items : Items → Items
  canonical_items nil = nil
  canonical_items (cons v xs) = cons (canonical v) (canonical_items xs)

  pub canonical_fields : Fields → Fields
  canonical_fields end = end
  canonical_fields (field k v fs) = insert_sorted k (canonical v) (canonical_fields fs)

unfoldable pub Json-discrete : Discrete Json
unfolding String-discrete
Json-discrete = hlevel (ℕ_discrete, String-discrete)

-- `values_equal` of memory_claim_store.py: the two dumps are the same text.
unfoldable pub values_equal : Json → Json → Bool
unfolding canonical Json-discrete
values_equal left right = decide (Json-discrete (canonical left) (canonical right))

pub values_equal_iff :
    (left right : Json) → (values_equal left right ≡ true) ↔ (canonical left ≡ canonical right)
unfolding values_equal
values_equal_iff left right = decide_iff (Json-discrete (canonical left) (canonical right))
