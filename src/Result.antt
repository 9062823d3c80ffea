-- ===== src/Result.antt =====
-- The exceptions of core/exceptions.py, as values. A service returns the state that its database
-- calls left beside its outcome, since a raise does not undo what was committed.
use hojo_memory_engine.Prelude.{◌≡◌, refl, Bool, true, false}

-- `type_error` is an exception that no handler of the service catches (HTTP 500).
pub data HttpError : Type 0 where
  not_found conflict forbidden validation type_error : HttpError

pub data Result {ℓ} (A : Type ℓ) : Type ℓ where
  err : HttpError → Result A
  ok : A → Result A

-- `if not test: raise e`.
abbrev pub guard : Bool → HttpError → Result (Unit {0})
guard false e = err e
guard true e = ok tt

infixl 5 ◌>>=◌ ◌>>◌
abbrev pub ◌>>=◌ {ℓ κ} : {A : Type ℓ} {B : Type κ} → Result A → (A → Result B) → Result B
err e >>= next = err e
ok a >>= next = next a

abbrev pub ◌>>◌ {ℓ} : {B : Type ℓ} → Result (Unit {0}) → Result B → Result B
err e >> rest = err e
ok done >> rest = rest

-- A step on a state of type `S`: what was written before a raise stays written.
unfoldable pub on_ok {ℓ κ μ} :
    {A : Type ℓ} {B : Type κ} {S : Type μ} → Result A → S → (A → Result B × S) → Result B × S
on_ok (ok a) s k = k a
on_ok (err e) s k = (err e, s)

pub on_ok-intro {ℓ κ μ ν} :
    {A : Type ℓ} {B : Type κ} {S : Type μ} (P : Result B × S → Type ν) (r : Result A) (s : S)
    (k : A → Result B × S)
    → ((e : HttpError) → P (err e, s))
    → ((a : A) → r ≡ ok a → P (k a))
    → P (on_ok r s k)
unfolding on_ok
on_ok-intro P (ok a) s k pe pk = pk a refl
on_ok-intro P (err e) s k pe pk = pe e

-- The result is known.
pub on_ok-known {ℓ κ μ ν} :
    {A : Type ℓ} {B : Type κ} {S : Type μ} (P : Result B × S → Type ν) (r : Result A) (s : S)
    (k : A → Result B × S) (a : A)
    → r ≡ ok a
    → P (k a)
    → P (on_ok r s k)
unfolding on_ok
on_ok-known P r s k a e p = rw e p

-- To prove something of a chain, error or not.
pub bind-intro {ℓ κ μ} :
    {A : Type ℓ} {B : Type κ} (P : Result B → Type μ) (r : Result A) (next : A → Result B)
    → ((e : HttpError) → P (err e))
    → ((a : A) → r ≡ ok a → P (next a))
    → P (r >>= next)
bind-intro P (err e) next pe pn = pe e
bind-intro P (ok a) next pe pn = pn a refl

pub guard-intro {ℓ κ} :
    {B : Type ℓ} (P : Result B → Type κ) (test : Bool) (e : HttpError) (rest : Result B)
    → P (err e)
    → (test ≡ true → P rest)
    → P (guard test e >> rest)
guard-intro P true e rest pe pr = pr refl
guard-intro P false e rest pe pr = pe
