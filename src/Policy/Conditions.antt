-- ===== src/Policy/Conditions.antt =====
-- The conditions of services/memory_policy.py on a claim, each beside the test that the code runs.

use hojo_memory_engine.Prelude.{
  ℕ, ◌<◌, ◌≡◌, ◌≢◌, ◌↔◌, refl, sym, ap, ◌∙◌, ◌⊎◌, inl, inr, String, Bool, true, false, not, ◌&&◌,
  Option, none, some, List, [], ◌∷◌, any, contains, Holds, arith, ◌==◌, string_eq, eq_iff,
  Bool-cases, Option-cases,
}
use hojo_memory_engine.Text.{replace_z}
use hojo_memory_engine.Services.{Services}
use hojo_memory_engine.Claim.Types.{
  LifecycleStatus, MemoryScope, self, cross, all, Sensitivity, Claim, is_active, is_historical,
}
use hojo_memory_engine.Policy.{
  is_sensitive, Caller, instant, same_scope, scopes_or_self, matches, has_expired, in_namespace,
  is_usable,
}

-- The list names the value or all values.
abbrev pub Names : List String → String → Type 0
Names values value = Holds values "*" ⊎ Holds values value

-- A text that is empty or left out says nothing.
abbrev pub Given : Option String → String → Type 0
Given o s = (o ≡ some s) × (s ≢ "")

-- The readable time of an expiry is still to come.
abbrev pub IsAhead : Services → ℕ → Option String → Type 0
IsAhead sv now o =
    (s : String)
    → Given o s
    → (t : _) × (sv.fromisoformat (replace_z s) ≡ some t) × (now < instant t)

-- A condition of the policy, and the test that the code runs for it.
abbrev pub Decides : Bool → Type 0 → Type 0
Decides b P = (b ≡ true) ↔ P

pub both : {a b : Bool} {P Q : Type 0} → Decides a P → Decides b Q → Decides (a && b) (P × Q)
both {a} {b} (f, g) (h, i) = (
  λ e. (f (ground arith), h (ground arith)),
  λ pq. let ea = g pq.0 in let eb = i pq.1 in ground (arith, ea, eb),
)

pub contains-Holds : (s : String) (xs : List String) → Decides (contains s xs) (Holds xs s)
contains-Holds s [] = (λ e. cc, λ h. absurd h)
contains-Holds s (x ∷ xs) = elim (Bool-cases (x == s)) [
  | inl t ↦ (λ e. inl ((eq_iff x s).0 t), λ h. ground (arith, t))
  | inr t ↦ (
    λ e. inr ((contains-Holds s xs).0 (ground (arith, t))),
    λ h. elim h [
      | inl e ↦ ground (arith, t, (eq_iff x s).1 e)
      | inr h ↦ let rest = (contains-Holds s xs).1 h in ground (arith, rest)
    ],
  )
]

pub matches-Names :
    (values : List String) (v : String) → Decides (matches values v) (Names values v)
unfolding matches
matches-Names values v = elim (Bool-cases (contains "*" values)) [
  | inl t ↦ (λ e. inl ((contains-Holds "*" values).0 t), λ n. ground (arith, t))
  | inr t ↦ (
    λ e. inr ((contains-Holds v values).0 (ground (arith, t))),
    λ n. elim n [
      | inl h ↦ let c = (contains-Holds "*" values).1 h in ground (arith, t, c)
      | inr h ↦ let c = (contains-Holds v values).1 h in ground (arith, c)
    ],
  )
]

pub same_scope_iff : (s t : MemoryScope) → Decides (same_scope s t) (t ≡ s)
same_scope_iff self self = (λ _. refl, λ _. refl)
same_scope_iff self cross = (λ e. cc, λ e. cc)
same_scope_iff self all = (λ e. cc, λ e. cc)
same_scope_iff cross self = (λ e. cc, λ e. cc)
same_scope_iff cross cross = (λ _. refl, λ _. refl)
same_scope_iff cross all = (λ e. cc, λ e. cc)
same_scope_iff all self = (λ e. cc, λ e. cc)
same_scope_iff all cross = (λ e. cc, λ e. cc)
same_scope_iff all all = (λ _. refl, λ _. refl)

pub any-same_scope :
    (s : MemoryScope) (xs : List MemoryScope) → Decides (any (same_scope s) xs) (Holds xs s)
any-same_scope s [] = (λ e. cc, λ h. absurd h)
any-same_scope s (x ∷ xs) = elim (Bool-cases (same_scope s x)) [
  | inl t ↦ (λ e. inl ((same_scope_iff s x).0 t), λ h. ground (arith, t))
  | inr t ↦ (
    λ e. inr ((any-same_scope s xs).0 (ground (arith, t))),
    λ h. elim h [
      | inl e ↦ let c = (same_scope_iff s x).1 e in ground (arith, t, c)
      | inr h ↦ let rest = (any-same_scope s xs).1 h in ground (arith, rest)
    ],
  )
]

-- The scopes list names the scope; an empty list means `self`.
abbrev pub Scoped : List MemoryScope → MemoryScope → Type 0
Scoped [] s = self ≡ s
Scoped (x ∷ xs) s = Holds (x ∷ xs) s

pub scopes-Scoped :
    (xs : List MemoryScope) (s : MemoryScope)
    → Decides (any (same_scope s) (scopes_or_self xs)) (Scoped xs s)
scopes-Scoped [] s = (
  λ e. (same_scope_iff s self).0 (ground arith),
  λ e. let c = (same_scope_iff s self).1 e in ground (arith, c),
)
scopes-Scoped (x ∷ xs) s = any-same_scope s (x ∷ xs)

pub expiry-IsAhead :
    (sv : Services) (now : ℕ) (o : Option String)
    → Decides (not (has_expired sv now o)) (IsAhead sv now o)
unfolding has_expired
expiry-IsAhead sv now none = (λ e s g. cc, λ h. refl)
expiry-IsAhead sv now (some s) = elim (Bool-cases (s == "")) [
  | inl t ↦ (
    λ e r g. let same : s ≡ r = cc in absurd (g.1 (sym same ∙ (eq_iff s "").0 t)),
    λ h. ground (arith, t),
  )
  | inr t ↦
      let given : Given (some s) s = (refl, λ e. cc (t, (eq_iff s "").1 e)) in
      elim (Option-cases (sv.fromisoformat (replace_z s))) [
        | inl n ↦ (λ e. cc (e, t, n), λ h. let (d, f, l) = h s given in cc)
        | inr (d, f) ↦ (
          λ e r g.
              let same : s ≡ r = cc in
              let later = rw (t, f) at e in
              let ahead : now < instant d = ground (arith, later) in rw (← same) (d, f, ahead),
          λ h.
              let (c, f2, l) = h s given in
              let same : c ≡ d = cc in
              let times = ap instant same in rw (t, f) (ground (arith, l, times)),
        )
      ]
]

pub namespace-Same :
    (k : Caller) (c : Claim)
    → Decides
        (in_namespace k.usage c)
        ((c.namespace.type ≡ k.usage.namespace.type) × (c.namespace.id ≡ k.usage.namespace.id))
unfolding in_namespace
namespace-Same k c =
    both (eq_iff c.namespace.type k.usage.namespace.type)
      (eq_iff c.namespace.id k.usage.namespace.id)

-- The active current claim, or any past one where history is allowed.
abbrev pub IsLive : Bool → Claim → Type 0
IsLive history c =
    ((c.lifecycle_status ≡ LifecycleStatus.active) × (c.is_current ≡ true))
    ⊎ ((history ≡ true) × (is_historical c.lifecycle_status ≡ true))

pub active_iff : (s : LifecycleStatus) → Decides (is_active s) (s ≡ LifecycleStatus.active)
active_iff LifecycleStatus.active = (λ _. refl, λ _. refl)
active_iff LifecycleStatus.pending = (λ e. cc, λ e. cc)
active_iff LifecycleStatus.conflicted = (λ e. cc, λ e. cc)
active_iff LifecycleStatus.superseded = (λ e. cc, λ e. cc)
active_iff LifecycleStatus.revoked = (λ e. cc, λ e. cc)

pub usable-IsLive : (history : Bool) (c : Claim) → Decides (is_usable history c) (IsLive history c)
unfolding is_usable
usable-IsLive history c = elim (Bool-cases (is_active c.lifecycle_status && c.is_current)) [
  | inl t ↦ (
    λ e. inl ((active_iff c.lifecycle_status).0 (ground arith), ground arith),
    λ l. ground (arith, t),
  )
  | inr t ↦ (
    λ e. inr (ground (arith, t, e), ground (arith, t, e)),
    λ l. elim l [
      | inl (a, b) ↦ let u = (active_iff c.lifecycle_status).1 a in ground (arith, t, u, b)
      | inr (a, b) ↦ ground (arith, t, a, b)
    ],
  )
]

-- An implication, as `not (a and not b)`.
pub implies : (a b : Bool) → Decides (not (a && not b)) (a ≡ true → b ≡ true)
implies true true = (λ _ _. refl, λ _. refl)
implies true false = (λ e _. cc, λ h. h refl)
implies false b = (λ _ e. cc, λ _. refl)

pub sensitive_iff : (s : Sensitivity) → Decides (is_sensitive s) (s ≡ Sensitivity.sensitive)
sensitive_iff Sensitivity.public = (λ e. cc, λ e. cc)
sensitive_iff Sensitivity.internal = (λ e. cc, λ e. cc)
sensitive_iff Sensitivity.sensitive = (λ _. refl, λ _. refl)
