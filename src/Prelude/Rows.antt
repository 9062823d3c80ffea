-- ===== src/Prelude/Rows.antt =====
-- Tables as lists of rows in insertion order: the updates and lookups that the database calls of
-- the services make, and how they change counts of rows.
use Prim.Native.Nat.{ℕ, ◌+◌, ◌≤◌, ◌<◌}
use mathlib.Core.Path.{◌≡◌, refl}
use mathlib.Core.Logic.{◌⊎◌, inl, inr}
use mathlib.Core.Bool.{Bool, true, false}
use mathlib.Core.Option
use mathlib.Core.Option.{Option, none, some}
use mathlib.Core.List.{List, [], ◌∷◌, ◌++◌}
use native.Mathlib.Omega.{arith}
use hojo_memory_engine.Prelude.Tests.{ltb, if◌then◌else◌, Bool-cases, Option-cases}
use hojo_memory_engine.Prelude.Lists.{bit, find, count, All}

module _ {A : Type 0} where
  -- `UPDATE … WHERE p` and Mongo's `update_many`.
  abbrev pub update_many : (A → Bool) → (A → A) → List A → List A
  update_many p f [] = []
  update_many p f (x ∷ xs) = (if p x then f x else x) ∷ update_many p f xs

  -- Mongo's `update_one`: the first match alone.
  abbrev pub update_one : (A → Bool) → (A → A) → List A → List A
  update_one p f [] = []
  update_one p f (x ∷ xs) = if p x then f x ∷ xs else x ∷ update_one p f xs

  abbrev pub keep_larger : (A → ℕ) → A → Option A → Option A
  keep_larger rank x none = some x
  keep_larger rank x (some y) = if ltb (rank x) (rank y) then some y else some x

  -- `ORDER BY rank DESC LIMIT 1` over the rows that pass `p`.
  abbrev pub latest : (A → ℕ) → (A → Bool) → List A → Option A
  latest rank p [] = none
  latest rank p (x ∷ xs) = if p x then keep_larger rank x (latest rank p xs) else latest rank p xs

  -- `x` is a row of the table.
  abbrev pub Holds : List A → A → Type 0
  Holds [] x = ⊥
  Holds (y ∷ ys) x = (y ≡ x) ⊎ Holds ys x

module _ {A : Type 0} (p : A → Bool) where
  pub count-pos : (xs : List A) {x : A} → Holds xs x → p x ≡ true → 0 < count p xs
  count-pos [] h e = absurd h
  count-pos (y ∷ ys) {x} (inl h) e = ground arith
  count-pos (y ∷ ys) {x} (inr h) e = omega (arith, count-pos ys {x = x} h e)

module _ {A : Type 0} (rank : A → ℕ) (p : A → Bool) where
  pub latest-eq-some : (xs : List A) {x : A} → latest rank p xs ≡ some x → (p x ≡ true) × Holds xs x
  latest-eq-some [] h = cc
  latest-eq-some (y ∷ ys) {x} h = elim (Option-cases (latest rank p ys)) [
    | inl e ↦ ground arith
    | inr (z, e) ↦ ground (arith, latest-eq-some ys {x = z} e)
  ]

  pub latest-eq-none : (xs : List A) → latest rank p xs ≡ none → count p xs ≡ 0
  latest-eq-none [] h = refl
  latest-eq-none (y ∷ ys) h = ground (arith, latest-eq-none ys)

  pub latest_of_count : (xs : List A) → 0 < count p xs → (x : A) × (latest rank p xs ≡ some x)
  latest_of_count xs h = elim (Option-cases (latest rank p xs)) [
    | inl e ↦ absurd (omega (arith, latest-eq-none xs e))
    | inr found ↦ found
  ]

  -- No row that passes the test ranks higher.
  pub latest-max :
      (xs : List A) {x y : A}
      → latest rank p xs ≡ some x
      → Holds xs y
      → p y ≡ true
      → rank y ≤ rank x
  latest-max [] e h t = absurd h
  latest-max (z ∷ zs) {x} {y} e (inl h) t = elim (Option-cases (latest rank p zs)) [
    | inl n ↦ ground arith
    | inr (w, n) ↦ ground arith
  ]
  latest-max (z ∷ zs) {x} {y} e (inr h) t = elim (Option-cases (latest rank p zs)) [
    | inl n ↦ absurd (omega (arith, latest-eq-none zs n, count-pos p zs {x = y} h t))
    | inr (w, n) ↦ ground (arith, latest-max zs {x = w} {y = y} n h t)
  ]

module _ {A : Type 0} (p : A → Bool) (f : A → A) (q : A → Bool) where
  pub count-update_one :
      (xs : List A) {x : A}
      → find p xs ≡ some x
      → count q (update_one p f xs) + bit (q x) ≡ count q xs + bit (q (f x))
  count-update_one [] h = cc
  count-update_one (y ∷ ys) {x} h = elim (Bool-cases (p y)) [
    | inl e ↦ ground arith
    | inr e ↦ ground (arith, count-update_one ys {x = x})
  ]

  pub update_one_absent : (xs : List A) → find p xs ≡ none → update_one p f xs ≡ xs
  update_one_absent [] h = refl
  update_one_absent (y ∷ ys) h = ground (arith, update_one_absent ys)

  -- An update that does not touch what `q` reads.
  pub count-update_many_same :
      ((x : A) → q (f x) ≡ q x) → (xs : List A) → count q (update_many p f xs) ≡ count q xs
  count-update_many_same same [] = refl
  count-update_many_same same (y ∷ ys) = ground (arith, same y, count-update_many_same same ys)

  -- An update that clears `q` from every row that had it.
  pub count-update_many_cleared :
      ((x : A) → q (f x) ≡ false)
      → ((x : A) → q x ≡ true → p x ≡ true)
      → (xs : List A) → count q (update_many p f xs) ≡ 0
  count-update_many_cleared clears covers [] = refl
  count-update_many_cleared clears covers (y ∷ ys) =
      ground (arith, clears y, covers y, count-update_many_cleared clears covers ys)

  pub find-update_many :
      ((x : A) → q (f x) ≡ q x)
      → (xs : List A)
      → find q (update_many p f xs) ≡ Option.map (λ x. if p x then f x else x) (find q xs)
  find-update_many same [] = refl
  find-update_many same (y ∷ ys) = ground (arith, same y, find-update_many same ys)

module _ {A : Type 0} (p : A → Bool) where
  pub find_of_unique :
      (xs : List A) {x : A} → count p xs ≤ 1 → Holds xs x → p x ≡ true → find p xs ≡ some x
  find_of_unique [] c h e = absurd h
  find_of_unique (y ∷ ys) {x} c (inl h) e = ground arith
  find_of_unique (y ∷ ys) {x} c (inr h) e =
      ground (arith, count-pos p ys {x = x} h e, find_of_unique ys {x = x})

  pub find-eq-some : (xs : List A) {x : A} → find p xs ≡ some x → (p x ≡ true) × Holds xs x
  find-eq-some [] h = cc
  find-eq-some (y ∷ ys) {x} h = ground (arith, find-eq-some ys {x = x})

module _ {A : Type 0} (P : A → Type 0) (p : A → Bool) (f : A → A) where
  pub All-update_many :
      ((x : A) → P x → P (f x)) → (xs : List A) → All P xs → All P (update_many p f xs)
  All-update_many keep [] h = tt
  All-update_many keep (y ∷ ys) h = elim (Bool-cases (p y)) [
    | inl e ↦ rw e (keep y h.0, All-update_many keep ys h.1)
    | inr e ↦ rw e (h.0, All-update_many keep ys h.1)
  ]

  pub All-update_one :
      ((x : A) → P x → P (f x)) → (xs : List A) → All P xs → All P (update_one p f xs)
  All-update_one keep [] h = tt
  All-update_one keep (y ∷ ys) h = elim (Bool-cases (p y)) [
    | inl e ↦ rw e (keep y h.0, h.1)
    | inr e ↦ rw e (h.0, All-update_one keep ys h.1)
  ]

module _ {A : Type 0} (P : A → Type 0) where
  pub All-holds : (xs : List A) {x : A} → All P xs → Holds xs x → P x
  All-holds [] a h = absurd h
  All-holds (y ∷ ys) a (inl e) = rw (← e) a.0
  All-holds (y ∷ ys) a (inr h) = All-holds ys a.1 h

module _ {A : Type 0} (rank : A → ℕ) (p : A → Bool) where
  -- `SELECT coalesce(max(rank), 0) WHERE p`.
  abbrev pub max_rank : List A → ℕ
  max_rank [] = 0
  max_rank (x ∷ xs) =
      let m = max_rank xs in if p x then (if ltb m (rank x) then rank x else m) else m

  pub rank-le-max_rank : (xs : List A) {x : A} → Holds xs x → p x ≡ true → rank x ≤ max_rank xs
  rank-le-max_rank [] h t = absurd h
  rank-le-max_rank (y ∷ ys) {x} (inl h) t = ground arith
  rank-le-max_rank (y ∷ ys) {x} (inr h) t = ground (arith, rank-le-max_rank ys {x = x} h t)

  -- The rank after the greatest is not taken.
  pub count-above-max_rank :
      (q : A → Bool) (xs : List A) (n : ℕ)
      → ((x : A) → q x ≡ true → (p x ≡ true) × (rank x ≡ n))
      → max_rank xs < n
      → count q xs ≡ 0
  count-above-max_rank q [] n fits h = refl
  count-above-max_rank q (y ∷ ys) n fits h =
      ground (arith, fits y, count-above-max_rank q ys n fits)

-- Counts and searches under updates that keep, or only clear, what a test reads.
module _ {A : Type 0} (p : A → Bool) (f : A → A) (q : A → Bool) where
  pub count-update_one_le :
      ((x : A) → q (f x) ≡ true → q x ≡ true)
      → (xs : List A) → count q (update_one p f xs) ≤ count q xs
  count-update_one_le keeps [] = omega arith
  count-update_one_le keeps (y ∷ ys) = ground (arith, keeps y, count-update_one_le keeps ys)

  pub count-update_many_le :
      ((x : A) → q (f x) ≡ true → q x ≡ true)
      → (xs : List A) → count q (update_many p f xs) ≤ count q xs
  count-update_many_le keeps [] = omega arith
  count-update_many_le keeps (y ∷ ys) = ground (arith, keeps y, count-update_many_le keeps ys)

  -- The search for a row that the update does not make, lose or meet.
  pub find-update_one_other :
      ((x : A) → p x ≡ true → (q x ≡ false) × (q (f x) ≡ false))
      → (xs : List A) → find q (update_one p f xs) ≡ find q xs
  find-update_one_other apart [] = refl
  find-update_one_other apart (y ∷ ys) = ground (arith, apart y, find-update_one_other apart ys)

module _ {A : Type 0} (p : A → Bool) where
  pub update_many_absent : (f : A → A) (xs : List A) → count p xs ≡ 0 → update_many p f xs ≡ xs
  update_many_absent f [] h = refl
  update_many_absent f (y ∷ ys) h = ground (arith, update_many_absent f ys)

  pub find-append : (xs ys : List A) {x : A} → find p xs ≡ some x → find p (xs ++ ys) ≡ some x
  find-append [] ys h = cc
  find-append (z ∷ xs) ys {x} h = ground (arith, find-append xs ys {x = x})

  pub count-le :
      (q : A → Bool) → ((x : A) → q x ≡ true → p x ≡ true) → (xs : List A) → count q xs ≤ count p xs
  count-le q sub [] = omega arith
  count-le q sub (y ∷ ys) = ground (arith, sub y, count-le q sub ys)

module _ {A : Type 0} (P Q : A → Type 0) where
  pub All-map : ((x : A) → P x → Q x) → (xs : List A) → All P xs → All Q xs
  All-map f [] h = tt
  All-map f (y ∷ ys) h = (f y h.0, All-map f ys h.1)

module _ {A : Type 0} (p : A → Bool) (f : A → A) (q : A → Bool) where
  -- An update that clears `q` of a row that had it.
  pub count-update_many_loses :
      ((x : A) → q (f x) ≡ false)
      → (xs : List A) {x : A} → Holds xs x
      → p x ≡ true
      → q x ≡ true
      → count q (update_many p f xs) < count q xs
  count-update_many_loses clears [] h s t = absurd h
  count-update_many_loses clears (y ∷ ys) {x} (inl h) s t =
      let le = count-update_many_le p f q (λ z e. ground (arith, clears z)) ys in
      ground (arith, le, clears y)
  count-update_many_loses clears (y ∷ ys) {x} (inr h) s t =
      ground (arith, clears y, count-update_many_loses clears ys {x = x} h s t)

module _ {A : Type 0} (q : A → Bool) (f : A → A) (rank : A → ℕ) (p : A → Bool) where
  pub max_rank-update_many :
      ((x : A) → rank (f x) ≡ rank x)
      → ((x : A) → p (f x) ≡ p x)
      → (xs : List A) → max_rank rank p (update_many q f xs) ≡ max_rank rank p xs
  max_rank-update_many same keeps [] = refl
  max_rank-update_many same keeps (y ∷ ys) = elim (Bool-cases (q y)) [
    | inl t ↦ rw (t, same y, keeps y, max_rank-update_many same keeps ys) refl
    | inr t ↦ rw (t, max_rank-update_many same keeps ys) refl
  ]
