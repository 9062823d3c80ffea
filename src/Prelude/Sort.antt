-- ===== src/Prelude/Sort.antt =====
-- `.sort(key, DESCENDING)`: rows with equal keys stay in their order.
use Prim.Native.Nat.{ℕ, ◌≤◌, suc, zero}
use mathlib.Core.Logic.{inl, inr}
use mathlib.Core.List.{List, [], ◌∷◌}
use native.Mathlib.Omega.{arith}
use hojo_memory_engine.Prelude.Tests.{ltb, if◌then◌else◌, Bool-cases}
use hojo_memory_engine.Prelude.Lists.{All, All-take, take}

module _ {A : Type 0} (rank : A → ℕ) where
  abbrev pub place : A → List A → List A
  place x [] = x ∷ []
  place x (y ∷ ys) = let rest = place x ys in if ltb (rank x) (rank y) then y ∷ rest else x ∷ y ∷ ys

  abbrev pub sort_desc : List A → List A
  sort_desc [] = []
  sort_desc (x ∷ xs) = place x (sort_desc xs)

  -- No later row ranks higher.
  abbrev pub IsDescending : List A → Type 0
  IsDescending [] = Unit
  IsDescending (x ∷ xs) = All (λ y. rank y ≤ rank x) xs × IsDescending xs

  All-place : (P : A → Type 0) (x : A) (xs : List A) → P x → All P xs → All P (place x xs)
  All-place P x [] p h = (p, tt)
  All-place P x (y ∷ ys) p h = elim (Bool-cases (ltb (rank x) (rank y))) [
    | inl t ↦ rw t (h.0, All-place P x ys p h.1)
    | inr t ↦ rw t (p, h)
  ]

  pub All-sort_desc : (P : A → Type 0) (xs : List A) → All P xs → All P (sort_desc xs)
  All-sort_desc P [] h = tt
  All-sort_desc P (x ∷ xs) h = All-place P x (sort_desc xs) h.0 (All-sort_desc P xs h.1)

  All-lower : {n m : ℕ} (xs : List A) → n ≤ m → All (λ y. rank y ≤ n) xs → All (λ y. rank y ≤ m) xs
  All-lower [] le h = tt
  All-lower {n} {m} (x ∷ xs) le h = (omega (arith, h.0), All-lower {n = n} {m = m} xs le h.1)

  place-IsDescending : (x : A) (xs : List A) → IsDescending xs → IsDescending (place x xs)
  place-IsDescending x [] h = (tt, tt)
  place-IsDescending x (y ∷ ys) h = elim (Bool-cases (ltb (rank x) (rank y))) [
    | inl t ↦
        rw t (All-place (λ z. rank z ≤ rank y) x ys (ground arith) h.0, place-IsDescending x ys h.1)
    | inr t ↦
        let le : rank y ≤ rank x = ground arith in
        rw t ((le, All-lower {n = rank y} {m = rank x} ys le h.0), h)
  ]

  pub sort_desc-IsDescending : (xs : List A) → IsDescending (sort_desc xs)
  sort_desc-IsDescending [] = tt
  sort_desc-IsDescending (x ∷ xs) = place-IsDescending x (sort_desc xs) (sort_desc-IsDescending xs)

  pub take-IsDescending : (n : ℕ) (xs : List A) → IsDescending xs → IsDescending (take n xs)
  take-IsDescending zero xs h = tt
  take-IsDescending (suc n) [] h = tt
  take-IsDescending (suc n) (x ∷ xs) h =
      (All-take (λ y. rank y ≤ rank x) n xs h.0, take-IsDescending n xs h.1)
