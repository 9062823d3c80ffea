-- ===== src/Prelude/Series.antt =====
-- Numbered series of rows in a table: the next number is free, and a row that takes it is the
-- latest one.
use hojo_memory_engine.Prelude.Tests.{◌==◌, nat_eq, Bool-cases}
use hojo_memory_engine.Prelude.Lists.{count, any, All}
use hojo_memory_engine.Prelude.Rows.{update_many, latest, Holds, max_rank, count-above-max_rank}
use Prim.Native.Nat.{ℕ, ◌+◌, ◌<◌}
use mathlib.Core.Path.{◌≡◌, refl}
use mathlib.Core.Logic.{inl, inr}
use mathlib.Core.Bool.{Bool, true, false, ◌&&◌}
use mathlib.Core.Option.{some}
use mathlib.Core.List.{List, [], ◌∷◌, ◌++◌}
use native.Mathlib.Omega.{arith}

module _ {A : Type 0} where
  pub any_of_count : (p : A → Bool) (xs : List A) → count p xs ≡ 0 → any p xs ≡ false
  any_of_count p [] h = refl
  any_of_count p (x ∷ xs) h = ground (arith, any_of_count p xs)

  pub any_of_Holds :
      (p : A → Bool) (xs : List A) {x : A} → Holds xs x → p x ≡ true → any p xs ≡ true
  any_of_Holds p [] h e = absurd h
  any_of_Holds p (y ∷ ys) {x} (inl h) e = ground arith
  any_of_Holds p (y ∷ ys) {x} (inr h) e = ground (arith, any_of_Holds p ys {x = x} h e)

  pub any-update_many_same :
      (p : A → Bool) (f : A → A) (q : A → Bool)
      → ((x : A) → q (f x) ≡ q x)
      → (xs : List A) → any q (update_many p f xs) ≡ any q xs
  any-update_many_same p f q same [] = refl
  any-update_many_same p f q same (x ∷ xs) =
      ground (arith, same x, any-update_many_same p f q same xs)

  pub Holds-append : (xs ys : List A) (x : A) → Holds xs x → Holds (xs ++ ys) x
  Holds-append [] ys x h = absurd h
  Holds-append (z ∷ xs) ys x (inl e) = inl e
  Holds-append (z ∷ xs) ys x (inr h) = inr (Holds-append xs ys x h)

  pub update_many-append :
      (p : A → Bool) (f : A → A) (xs ys : List A)
      → update_many p f (xs ++ ys) ≡ update_many p f xs ++ update_many p f ys
  update_many-append p f [] ys = refl
  update_many-append p f (x ∷ xs) ys = rw (update_many-append p f xs ys) refl

  -- A row that the table does not hold.
  pub update_many_fresh :
      (key : A → ℕ) (f : A → A) (n : ℕ) (xs : List A)
      → All (λ r. key r < n) xs
      → update_many (λ r. key r == n) f xs ≡ xs
  update_many_fresh key f n [] h = refl
  update_many_fresh key f n (x ∷ xs) h = ground (arith, update_many_fresh key f n xs h.1)

  module _ (rank : A → ℕ) (p : A → Bool) where
    pub next_free : (xs : List A) → any (λ r. p r && (rank r == max_rank rank p xs + 1)) xs ≡ false
    next_free xs =
        let n = max_rank rank p xs + 1 in
        any_of_count (λ r. p r && (rank r == n)) xs
          (count-above-max_rank rank p (λ r. p r && (rank r == n)) xs n (λ r e. ground arith)
            (omega arith))

    -- The row ranks above every row that the search sees.
    pub latest-snoc_top :
        (q : A → Bool) (xs : List A) (x : A)
        → ((r : A) → q r ≡ true → p r ≡ true)
        → max_rank rank p xs < rank x
        → q x ≡ true
        → latest rank q (xs ++ x ∷ []) ≡ some x
    latest-snoc_top q [] x sub h e = ground arith
    latest-snoc_top q (y ∷ ys) x sub h e = elim (Bool-cases (q y)) [
      | inl t ↦ ground (arith, sub y t, latest-snoc_top q ys x sub)
      | inr t ↦ ground (arith, latest-snoc_top q ys x sub)
    ]
