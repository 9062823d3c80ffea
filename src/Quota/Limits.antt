-- ===== src/Quota/Limits.antt =====
-- What the quota of services/billing_quota.py keeps, and what it lets through.
use hojo_memory_engine.Prelude.{
  ℕ, ◌+◌, ◌≤◌, ◌≡◌, refl, String, Bool, false, List, [], ◌∷◌, filter, All, update_many, ltb, nat_eq,
  string_eq, arith, Bool-cases, if-intro, All-update_many, ◌⊎◌, inl, inr,
}
use hojo_memory_engine.Result.{Result, ok, err, forbidden}
use hojo_memory_engine.Context.{RequestContext}
use hojo_memory_engine.Quota.{
  UsageQuota, QuotaDb, applies, exceeded, consumed, settle, check_and_consume_quota,
}

-- No quota is used beyond its limit.
abbrev pub IsWithin : QuotaDb → Type 0
IsWithin db = All (λ q. q.quota_used ≤ q.quota_limit) db

filter-update_many :
    (p : UsageQuota → Bool) (f : UsageQuota → UsageQuota)
    → ((q : UsageQuota) → p (f q) ≡ false)
    → (db : QuotaDb) → filter p (update_many p f db) ≡ []
filter-update_many p f hidden [] = refl
filter-update_many p f hidden (q ∷ qs) = ground (arith, hidden q, filter-update_many p f hidden qs)

applies-exceeded :
    (now : ℕ) (ctx : RequestContext) (type : String) (q : UsageQuota)
    → applies now ctx type (exceeded q) ≡ false
unfolding applies
applies-exceeded now ctx type q = ground arith

-- The query depends on the tenant alone.
same_quotas :
    (now : ℕ) (other ctx : RequestContext) (type : String)
    → other.tenant_id ≡ ctx.tenant_id
    → applies now other type ≡ applies now ctx type
unfolding applies
same_quotas now other ctx type t = rw t refl

module _ (p : UsageQuota → Bool) (amount : ℕ) where
  -- The rows that the query gives are those that the commit writes.
  consumed-IsWithin :
      (db : QuotaDb)
      → IsWithin db
      → All (λ q. q.quota_used + amount ≤ q.quota_limit) (filter p db)
      → IsWithin (update_many p (consumed amount) db)
  consumed-IsWithin [] h a = tt
  consumed-IsWithin (q ∷ qs) h a = elim (Bool-cases (p q)) [
    | inl t ↦ rw t ((rw t at a).0, consumed-IsWithin qs h.1 (rw t at a).1)
    | inr t ↦ rw t (h.0, consumed-IsWithin qs h.1 (rw t at a))
  ]

  exceeded-IsWithin : (db : QuotaDb) → IsWithin db → IsWithin (update_many p exceeded db)
  exceeded-IsWithin db h =
      All-update_many (λ q. q.quota_used ≤ q.quota_limit) p exceeded (λ q le. le) db h

  settle-IsWithin :
      (selected : List UsageQuota) (db : QuotaDb)
      → selected ≡ filter p db
      → IsWithin db
      → IsWithin (settle amount p selected db).1
  settle-IsWithin [] db e h = h
  settle-IsWithin (q ∷ []) db e h =
      if-intro (λ (s : Result (Unit {0}) × QuotaDb). IsWithin s.1)
        (ltb q.quota_limit (q.quota_used + amount)) _ _ (λ _. exceeded-IsWithin db h)
        (λ t. consumed-IsWithin db h (rw (← e) (ground arith, tt)))
  settle-IsWithin (q ∷ r ∷ rs) db e h = h

  -- After a refusal the query selects nothing more.
  settle-refused :
      (selected : List UsageQuota) (db : QuotaDb)
      → ((q : UsageQuota) → p (exceeded q) ≡ false)
      → (settle amount p selected db).0 ≡ err forbidden
      → filter p (settle amount p selected db).1 ≡ []
  settle-refused [] db hidden e = cc
  settle-refused (q ∷ []) db hidden e =
      if-intro (λ (s : Result (Unit {0}) × QuotaDb). s.0 ≡ err forbidden → filter p s.1 ≡ [])
        (ltb q.quota_limit (q.quota_used + amount)) _ _
        (λ _ _. filter-update_many p exceeded hidden db) (λ _ t. cc) e
  settle-refused (q ∷ r ∷ rs) db hidden e = cc

-- The use of all quotas.
abbrev pub used : QuotaDb → ℕ
used [] = 0
used (q ∷ qs) = q.quota_used + used qs

module _ (p : UsageQuota → Bool) (amount : ℕ) where
  used-none :
      (db : QuotaDb) → filter p db ≡ [] → used (update_many p (consumed amount) db) ≡ used db
  used-none [] e = refl
  used-none (q ∷ qs) e = ground (arith, used-none qs)

  used-one :
      (db : QuotaDb) (q : UsageQuota)
      → filter p db ≡ q ∷ []
      → used (update_many p (consumed amount) db) ≡ used db + amount
  used-one [] q e = cc
  used-one (r ∷ rs) q e = ground (arith, used-none rs, used-one rs q)

  abbrev IsMetered : QuotaDb → Result (Unit {0}) × QuotaDb → Type 0
  IsMetered db s = (used s.1 ≡ used db + amount) ⊎ ((s.1 ≡ db) × (filter p db ≡ []))

  settle-IsMetered :
      (selected : List UsageQuota) (db : QuotaDb)
      → filter p db ≡ selected
      → (settle amount p selected db).0 ≡ ok tt
      → IsMetered db (settle amount p selected db)
  settle-IsMetered [] db e t = inr (refl, e)
  settle-IsMetered (q ∷ []) db e t =
      if-intro (λ (s : Result (Unit {0}) × QuotaDb). s.0 ≡ ok tt → IsMetered db s)
        (ltb q.quota_limit (q.quota_used + amount)) _ _ (λ _ u. cc) (λ _ _. inl (used-one db q e)) t
  settle-IsMetered (q ∷ r ∷ rs) db e t = cc

module _ (now : ℕ) (ctx : RequestContext) (type : String) (db : QuotaDb) where
  -- Consuming never takes a quota beyond its limit.
  pub check_and_consume_quota-IsWithin :
      (amount : ℕ) → IsWithin db → IsWithin (check_and_consume_quota now ctx amount type db).1
  unfolding check_and_consume_quota
  check_and_consume_quota-IsWithin amount h =
      settle-IsWithin (applies now ctx type) amount (filter (applies now ctx type) db) db refl h

  -- A consumption that is let through adds its amount to the quotas' use, unless no active quota
  -- of the tenant, type and period applies: then it changes nothing.
  pub check_and_consume_quota-IsMetered :
      (amount : ℕ)
      → (check_and_consume_quota now ctx amount type db).0 ≡ ok tt
      → (used (check_and_consume_quota now ctx amount type db).1 ≡ used db + amount)
        ⊎ ((check_and_consume_quota now ctx amount type db).1 ≡ db)
          × (filter (applies now ctx type) db ≡ [])
  unfolding check_and_consume_quota
  check_and_consume_quota-IsMetered amount e =
      settle-IsMetered (applies now ctx type) amount (filter (applies now ctx type) db) db refl e

  -- Once a consumption has been refused, each further one of the type at the same time, by
  -- whichever caller of the tenant and of whatever amount, is let through and changes nothing.
  pub check_and_consume_quota-unmetered :
      (amount : ℕ)
      → (check_and_consume_quota now ctx amount type db).0 ≡ err forbidden
      → (other : RequestContext) → other.tenant_id ≡ ctx.tenant_id
      → (more : ℕ)
      → check_and_consume_quota now other more type
          (check_and_consume_quota now ctx amount type db).1
        ≡ (ok tt, (check_and_consume_quota now ctx amount type db).1)
  unfolding check_and_consume_quota
  check_and_consume_quota-unmetered amount e other t more =
      let p = applies now ctx type in
      rw
        (
          same_quotas now other ctx type t,
          settle-refused p amount (filter p db) db (applies-exceeded now ctx type) e,
        )
        refl
