-- ===== src/Claim/View/Fill.antt =====
-- `_non_conflicting_object_update` of services/memory_claim.py: what filling an object keeps.
use hojo_memory_engine.Prelude.{
  ◌≡◌, refl, sym, String, true, Option, none, some, ◌⊎◌, inl, inr, Bool-cases, Option-cases,
  string_eq, eq_iff, arith, if◌then◌else◌,
}
use hojo_memory_engine.Json.{
  Json, obj, Fields, end, field, get, merge, values_equal, values_equal_iff,
}
use hojo_memory_engine.Json.Object.{IsDict, or_else, get-merge}
use hojo_memory_engine.Claim.Engine.{agrees, covers, non_conflicting_object_update}

values_equal_refl : (v : Json) → values_equal v v ≡ true
values_equal_refl v = (values_equal_iff v v).1 refl

values_equal_sym : (v w : Json) → values_equal v w ≡ true → values_equal w v ≡ true
values_equal_sym v w e = (values_equal_iff w v).1 (sym ((values_equal_iff v w).0 e))

agrees_at :
    (k : String) (old new : Fields) {v w : Json}
    → agrees old new ≡ true
    → get k old ≡ some w
    → get k new ≡ some v
    → values_equal w v ≡ true
unfolding agrees get
agrees_at k old end a e f = cc
agrees_at k old (field j u new) {v} {w} a e f =
    ground (arith, eq_iff j k, agrees_at k old new {v = v} {w = w})

covers-none :
    (k : String) (old new : Fields) → covers old new ≡ true → get k old ≡ none → get k new ≡ none
unfolding covers get
covers-none k old end c e = refl
covers-none k old (field j u new) c e = ground (arith, eq_iff j k, covers-none k old new)

-- A key of an object in an object that has an equal value there.
abbrev pub Has : String → Json → Fields → Type 0
Has k v fs = (w : Json) × (get k fs ≡ some w) × (values_equal w v ≡ true)

module _ (old new : Fields) (dict : IsDict new) (agree : agrees old new ≡ true) (k : String) where
  abbrev filled : Fields
  filled = if covers old new then old else merge old new

  filled_cases :
      {o n : Option Json}
      → get k old ≡ o
      → get k new ≡ n
      → (get k filled ≡ or_else n o) ⊎ ((get k filled ≡ o) × (covers old new ≡ true))
  filled_cases {o} {n} e f = elim (Bool-cases (covers old new)) [
    | inl c ↦ inr (rw c e, c)
    | inr c ↦ inl (rw c (rw (← e, ← f) (get-merge k old new dict)))
  ]

  filled_old : (v : Json) → get k old ≡ some v → Has k v filled
  filled_old v e = elim (Option-cases (get k new)) [
    | inl f ↦ elim (filled_cases e f) [
      | inl g ↦ (v, g, values_equal_refl v)
      | inr (g, c) ↦ (v, g, values_equal_refl v)
    ]
    | inr (w, f) ↦ elim (filled_cases e f) [
      | inl g ↦ (w, g, values_equal_sym v w (agrees_at k old new {v = w} {w = v} agree e f))
      | inr (g, c) ↦ (v, g, values_equal_refl v)
    ]
  ]

  filled-new : (v : Json) → get k new ≡ some v → Has k v filled
  filled-new v f = elim (Option-cases (get k old)) [
    | inl e ↦ elim (filled_cases e f) [
      | inl g ↦ (v, g, values_equal_refl v)
      | inr (g, c) ↦ absurd (cc (covers-none k old new c e, f))
    ]
    | inr (w, e) ↦ elim (filled_cases e f) [
      | inl g ↦ (v, g, values_equal_refl v)
      | inr (g, c) ↦ (w, g, agrees_at k old new {v = v} {w = w} agree e f)
    ]
  ]

-- When filling an object gives a value, that value is an object that has every key of the old
-- object and every key of the new one, each with an equal value.
pub non_conflicting_object_update-keeps :
    (old new : Fields) (merged : Json)
    → IsDict new
    → non_conflicting_object_update (obj old) (obj new) ≡ some merged
    → (fs : Fields) × (merged ≡ obj fs)
      × ((k : String) (v : Json) → (get k old ≡ some v) ⊎ (get k new ≡ some v) → Has k v fs)
unfolding non_conflicting_object_update
non_conflicting_object_update-keeps old new merged dict e = elim (Bool-cases (agrees old new)) [
  | inr n ↦ absurd (ground arith)
  | inl a ↦ (
    if covers old new then old else merge old new,
    ground arith,
    λ k v has. elim has [
      | inl o ↦ filled_old old new dict a k v o
      | inr o ↦ filled-new old new dict a k v o
    ],
  )
]
