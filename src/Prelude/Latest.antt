-- ===== src/Prelude/Latest.antt =====
-- How `latest` answers after the updates of Prelude/Rows.antt.
use hojo_memory_engine.Prelude.Tests.{Bool-cases}
use hojo_memory_engine.Prelude.Lists.{find, count}
use hojo_memory_engine.Prelude.Rows.{update_one, update_many, latest, count-pos, find-eq-some}
use Prim.Native.Nat.{ℕ, ◌≤◌}
use mathlib.Core.Path.{◌≡◌, refl}
use mathlib.Core.Logic.{inl, inr}
use mathlib.Core.Bool.{Bool, true, false}
use mathlib.Core.Option.{none, some}
use mathlib.Core.List.{List, [], ◌∷◌, ◌++◌}
use native.Mathlib.Omega.{arith}

module _ {A : Type 0} (rank : A → ℕ) (p : A → Bool) where
  pub latest_of_none : (xs : List A) → count p xs ≡ 0 → latest rank p xs ≡ none
  latest_of_none [] h = refl
  latest_of_none (y ∷ ys) h = ground (arith, latest_of_none ys)

  -- A row is added that the search does not see.
  pub latest-snoc_other :
      (xs : List A) (x : A) → p x ≡ false → latest rank p (xs ++ x ∷ []) ≡ latest rank p xs
  latest-snoc_other [] x e = ground arith
  latest-snoc_other (y ∷ ys) x e = ground (arith, latest-snoc_other ys x e)

  -- The only row that the search sees.
  pub latest-snoc_only :
      (xs : List A) (x : A) → count p xs ≡ 0 → p x ≡ true → latest rank p (xs ++ x ∷ []) ≡ some x
  latest-snoc_only [] x h e = ground arith
  latest-snoc_only (y ∷ ys) x h e = ground (arith, latest-snoc_only ys x)

  module _ (q : A → Bool) (f : A → A) where
    -- The updated row is not seen, before and after.
    pub latest-update_one_other :
        (xs : List A) {x : A}
        → find q xs ≡ some x
        → p x ≡ false
        → p (f x) ≡ false
        → latest rank p (update_one q f xs) ≡ latest rank p xs
    latest-update_one_other [] h e e' = refl
    latest-update_one_other (y ∷ ys) {x} h e e' = elim (Bool-cases (q y)) [
      | inl t ↦ ground arith
      | inr t ↦ ground (arith, latest-update_one_other ys {x = x})
    ]

    pub latest-update_many_other :
        ((x : A) → q x ≡ true → (p x ≡ false) × (p (f x) ≡ false))
        → (xs : List A) → latest rank p (update_many q f xs) ≡ latest rank p xs
    latest-update_many_other apart [] = refl
    latest-update_many_other apart (y ∷ ys) = elim (Bool-cases (q y)) [
      | inl t ↦ ground (arith, apart y, latest-update_many_other apart ys)
      | inr t ↦ ground (arith, latest-update_many_other apart ys)
    ]

    -- The updated row is the only one seen, and stays so.
    pub latest-update_one_only :
        (xs : List A) {x : A}
        → count p xs ≤ 1
        → find q xs ≡ some x
        → p x ≡ true
        → p (f x) ≡ true
        → latest rank p (update_one q f xs) ≡ some (f x)
    latest-update_one_only [] c h e e' = cc
    latest-update_one_only (y ∷ ys) {x} c h e e' = elim (Bool-cases (q y)) [
      | inl t ↦ ground (arith, latest_of_none ys)
      | inr t ↦
          let later : find q ys ≡ some x = ground arith in
          ground (
            arith,
            count-pos p ys {x = x} (find-eq-some q ys {x = x} later).1 e,
            latest-update_one_only ys {x = x},
          )
    ]
