-- ===== src/Policy/Filter.antt =====
-- `filter_claims` of services/memory_policy.py: what passes, and that nothing is lost.
use hojo_memory_engine.Prelude.{
  ℕ, ◌+◌, ◌≡◌, ◌⊎◌, inl, inr, refl, String, Bool, true, false, not, ◌&&◌, ◌||◌, none, some, List,
  [], ◌∷◌, ◌++◌, length, any, filter, arith, ◌==◌, string_eq, Option-cases,
}
use hojo_memory_engine.Services.{Services}
use hojo_memory_engine.Claim.Types.{Claim, is_active}
use hojo_memory_engine.Policy.{
  Caller, Exclusion, Excluded, exclusion_of, filter_claims, tally, in_namespace, is_usable,
  has_expired, is_permitted, fits_scope, permission_granted, covers_permission, is_sensitive,
  matches,
}

abbrev pub total : Excluded → ℕ
total e = e.n_namespace + e.n_denied + e.n_scope + e.n_expired + e.n_inactive

-- The tests as one condition.
abbrev pub may_use : Services → Caller → Claim → Bool
may_use sv k c =
    in_namespace k.usage c
    && (is_usable k.allow_historical c
        && (not (has_expired sv k.now c.expires_at) && (is_permitted k c && fits_scope k.usage c)))

exclusion_of-may_use :
    (sv : Services) (k : Caller) (c : Claim)
    → ((exclusion_of sv k c ≡ none) × (may_use sv k c ≡ true))
      ⊎ ((x : Exclusion) × (exclusion_of sv k c ≡ some x) × (may_use sv k c ≡ false))
unfolding exclusion_of
exclusion_of-may_use sv k c = elim (Option-cases (exclusion_of sv k c)) [
  | inl e ↦ inl (e, ground arith)
  | inr (x, e) ↦ inr (x, e, ground arith)
]

total-tally : (x : Exclusion) (e : Excluded) → total (tally x e) ≡ total e + 1
total-tally Exclusion.different_namespace e = omega arith
total-tally Exclusion.permission_denied e = omega arith
total-tally Exclusion.scope_mismatch e = omega arith
total-tally Exclusion.expired e = omega arith
total-tally Exclusion.conflicted_or_inactive e = omega arith

module _ (sv : Services) (k : Caller) where
  -- `filter_claims` returns, in their order, exactly the claims that pass all its tests.
  pub filter_claims-exact : (cs : List Claim) → (filter_claims sv k cs).0 ≡ filter (may_use sv k) cs
  unfolding filter_claims
  filter_claims-exact [] = refl
  filter_claims-exact (c ∷ cs) = elim (exclusion_of-may_use sv k c) [
    | inl (e, m) ↦ rw (e, m, filter_claims-exact cs) refl
    | inr (x, e, m) ↦ rw (e, m, filter_claims-exact cs) refl
  ]

  -- Every claim is either returned or counted under exactly one exclusion.
  pub filter_claims-total :
      (cs : List Claim)
      → length (filter_claims sv k cs).0 + total (filter_claims sv k cs).1 ≡ length cs
  unfolding filter_claims
  filter_claims-total [] = refl
  filter_claims-total (c ∷ cs) = elim (exclusion_of-may_use sv k c) [
    | inl (e, m) ↦ rw e (omega (arith, filter_claims-total cs))
    | inr (x, e, m) ↦
        rw e (omega (arith, filter_claims-total cs, total-tally x (filter_claims sv k cs).1))
  ]

  -- What a returned claim guarantees to its owner.
  pub record IsCleared (c : Claim) : Type 0 where
    pub live :
        k.allow_historical ≡ false → (is_active c.lifecycle_status ≡ true) × (c.is_current ≡ true)
    pub llm : k.llm_requested ≡ true → c.access_policy.allow_llm ≡ true
    pub guarded :
        k.disable_auth ≡ false
        → is_sensitive c.access_policy.sensitivity ≡ true
        → permission_granted k.ctx.permissions "memory:retrieve:sensitive" ≡ true
    pub listed : matches c.access_policy.allowed_modules k.usage.module_id ≡ true

any-append {ℓ} :
    {A : Type ℓ} (p : A → Bool) (xs ys : List A) → any p (xs ++ ys) ≡ (any p xs || any p ys)
any-append p [] ys = refl
any-append p (x ∷ xs) ys = ground (arith, any-append p xs ys)

-- Two sets of permissions grant together what either of them grants, and nothing else.
pub permission_granted-append :
    (xs ys : List String) (required : String)
    → permission_granted (xs ++ ys) required
      ≡ (permission_granted xs required || permission_granted ys required)
unfolding permission_granted
permission_granted-append xs ys required =
    let a = any-append (λ x. x == required) xs ys in
    let b = any-append (covers_permission required) xs ys in ground (arith, a, b)
