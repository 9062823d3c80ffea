-- ===== src/Claim/Listing/Visible.antt =====
-- What the listings of integrations/memory_claim_store.py return.
use hojo_memory_engine.Prelude.{
  ℕ, ◌≤◌, ◌≡◌, refl, ap, ◌∙◌, String, Bool, true, not, ◌&&◌, ◌||◌, none, some, List, [], ◌∷◌, any,
  contains, filter, length, count, All, ◌==◌, nat_eq, string_eq, eq_iff, arith, maybe-intro,
  count-or, count-none, sort_desc, IsDescending, All-sort_desc, All-take, All-map, take-all,
  filter-All, length-filter, length-take-le, sort_desc-IsDescending, take-IsDescending,
}
use hojo_memory_engine.Services.{Services}
use hojo_memory_engine.Claim.Types.{Claim}
use hojo_memory_engine.Claim.Store.{ClaimDb, get_claim}
use hojo_memory_engine.Claim.Invariant.{IsSound, called}
use hojo_memory_engine.Claim.Listing.{
  Scope, in_view, newest, list_current_claims, distinct_keys, list_current_claims_by_ids, matching,
  list_current_claims_matching_phrases, list_current_claims_matching_terms,
  list_current_claim_evidence_neighbors, revisions, list_history,
}

-- Claims that a scope may see, no more than the limit, the last updated ones first.
pub record IsListing (q : Scope) (limit : ℕ) (cs : List Claim) : Type 0 where
  pub seen : All (λ c. in_view q c ≡ true) cs
  pub bounded : length cs ≤ limit
  pub ordered : IsDescending (λ c. c.updated_at) cs

module _ (q : Scope) (limit : ℕ) (db : ClaimDb) where
  newest-IsListing :
      (p : Claim → Bool)
      → ((c : Claim) → p c ≡ true → in_view q c ≡ true)
      → IsListing q limit (newest limit (filter p db.claims))
  newest-IsListing p sub =
      let found = filter p db.claims in
      let P = λ (c : Claim). in_view q c ≡ true in
      let sorted = sort_desc (λ c. c.updated_at) found in
      record {
        seen = All-take P limit sorted (
            All-sort_desc (λ c. c.updated_at) P found
              (All-map (λ c. p c ≡ true) P sub found (filter-All p db.claims)));
        bounded = length-take-le limit sorted;
        ordered =
            take-IsDescending (λ c. c.updated_at) limit sorted
              (sort_desc-IsDescending (λ c. c.updated_at) found);
      }

  -- `list_current_claims` returns at most `limit` claims, the last updated ones first, each of
  -- them in the scope of the query.
  pub list_current_claims-IsListing : IsListing q limit (list_current_claims q limit db)
  unfolding list_current_claims
  list_current_claims-IsListing = newest-IsListing (in_view q) (λ c e. e)

  matching-IsListing :
      (sv : Services) (pattern : String → String) (ts : List String)
      → IsListing q limit (matching sv q pattern ts limit db)
  matching-IsListing sv pattern [] = record { seen = tt; bounded = omega arith; ordered = tt }
  matching-IsListing sv pattern (t ∷ ts) =
      newest-IsListing (λ c. in_view q c && any (λ u. sv.regex_matches (pattern u) c.text) (t ∷ ts))
        (λ c e. ground arith)

  -- The lexical listings return at most `limit` claims, the last updated ones first, each of them
  -- in the scope of the query, whatever the phrases or terms are.
  pub lexical-IsListing :
      (sv : Services) (ts : List String)
      → IsListing q limit (list_current_claims_matching_phrases sv q ts limit db)
        × IsListing q limit (list_current_claims_matching_terms sv q ts limit db)
  unfolding list_current_claims_matching_phrases list_current_claims_matching_terms
  lexical-IsListing sv ts = (matching-IsListing sv _ _, matching-IsListing sv _ _)

  -- The evidence neighbours are at most `limit` claims in the scope of the query, the last updated
  -- ones first.
  pub neighbors-IsListing :
      (seeds : List Claim)
      → IsListing q limit (list_current_claim_evidence_neighbors q seeds limit db)
  unfolding list_current_claim_evidence_neighbors
  neighbors-IsListing seeds = newest-IsListing _ (λ c e. ground arith)

length-filter-le : (p : String → Bool) (ks : List String) → length (filter p ks) ≤ length ks
length-filter-le p [] = omega arith
length-filter-le p (k ∷ ks) = ground (arith, length-filter-le p ks)

distinct_keys-length : (ks : List String) → length (distinct_keys ks) ≤ length ks
unfolding distinct_keys
distinct_keys-length [] = omega arith
distinct_keys-length (k ∷ ks) =
    omega (arith, distinct_keys-length ks, length-filter-le (λ j. not (j == k)) (distinct_keys ks))

-- As many rows as ids, where no two rows share an id.
count-called :
    (cs : List Claim) (p : Claim → Bool) (ids : List String)
    → ((i : String) → count (called i) cs ≤ 1)
    → count (λ c. p c && contains c.claim_id ids) cs ≤ length ids
count-called cs p [] one =
    let zero = count-none (λ c. p c && contains c.claim_id []) (λ c. ground arith) cs in
    omega (arith, zero)
count-called cs p (i ∷ ids) one =
    let split =
      count-or (λ c. p c && contains c.claim_id (i ∷ ids)) (called i)
        (λ c. p c && contains c.claim_id ids)
        (λ c. ground (arith, eq_iff i c.claim_id, eq_iff c.claim_id i)) cs in
    omega (arith, split, one i, count-called cs p ids one)

contains-filter :
    (i k : String) (xs : List String)
    → ((k == i) || contains i (filter (λ j. not (j == k)) xs)) ≡ ((k == i) || contains i xs)
contains-filter i k [] = refl
contains-filter i k (x ∷ xs) =
    ground (arith, contains-filter i k xs, eq_iff x k, eq_iff x i, eq_iff k i)

contains-distinct_keys :
    (i : String) (ks : List String) → contains i (distinct_keys ks) ≡ contains i ks
unfolding distinct_keys
contains-distinct_keys i [] = refl
contains-distinct_keys i (k ∷ ks) =
    contains-filter i k (distinct_keys ks) ∙ ap (λ b. (k == i) || b) (contains-distinct_keys i ks)

filter-ext :
    (p q : Claim → Bool) → ((c : Claim) → p c ≡ q c) → (cs : List Claim) → filter p cs ≡ filter q cs
filter-ext p q same [] = refl
filter-ext p q same (c ∷ cs) = ground (arith, same c, filter-ext p q same cs)

-- Over sound collections the bound of `list_current_claims_by_ids` cuts nothing off: it returns,
-- in their order, exactly the claims of the scope whose ids are asked for.
pub list_current_claims_by_ids-exact :
    (q : Scope) (ids : List String) (db : ClaimDb)
    → IsSound db
    → list_current_claims_by_ids q ids db
      ≡ filter (λ c. in_view q c && contains c.claim_id ids) db.claims
unfolding list_current_claims_by_ids
list_current_claims_by_ids-exact q ids db h =
    let p = λ (c : Claim). in_view q c && contains c.claim_id (distinct_keys ids) in
    take-all (length ids) (filter p db.claims) (
      omega (
        arith,
        length-filter p db.claims,
        count-called db.claims (in_view q) (distinct_keys ids) h.distinct,
        distinct_keys-length ids,
      ))
    ∙ filter-ext p (λ c. in_view q c && contains c.claim_id ids)
        (λ c. ap (λ b. in_view q c && b) (contains-distinct_keys c.claim_id ids)) db.claims

-- A claim and the revisions of its identity, the last one first.
pub record IsHistory (tenant org : ℕ) (identity : String) (cs : List Claim) : Type 0 where
  pub own : All (λ c. (c.tenant_id ≡ tenant) × (c.org_id ≡ org) × (c.identity_id ≡ identity)) cs
  pub ordered : IsDescending (λ c. c.revision) cs
  pub bounded : length cs ≤ 500

revisions-IsHistory :
    (tenant org : ℕ) (identity : String) (db : ClaimDb)
    → IsHistory tenant org identity (revisions tenant org identity db)
revisions-IsHistory tenant org identity db =
    let p = λ (c : Claim).
      (c.tenant_id == tenant) && ((c.org_id == org) && (c.identity_id == identity)) in
    let P = λ (c : Claim). (c.tenant_id ≡ tenant) × (c.org_id ≡ org) × (c.identity_id ≡ identity) in
    let found = filter p db.claims in
    let sorted = sort_desc (λ c. c.revision) found in
    record {
      own = All-take P 500 sorted (
          All-sort_desc (λ c. c.revision) P found
            (All-map (λ c. p c ≡ true) P
              (λ c e. (ground arith, ground arith, ground (arith, eq_iff c.identity_id identity)))
              found (filter-All p db.claims)));
      ordered =
          take-IsDescending (λ c. c.revision) 500 sorted
            (sort_desc-IsDescending (λ c. c.revision) found);
      bounded = length-take-le 500 sorted;
    }

-- A history that `list_history` returns is that of the claim's own identity: its revisions in the
-- tenant and organisation, no more than 500, the last one first.
pub list_history-IsHistory :
    (tenant org : ℕ) (claim_id identity : String) (cs : List Claim) (db : ClaimDb)
    → list_history tenant org claim_id db ≡ some (identity, cs)
    → IsHistory tenant org identity cs
unfolding list_history
list_history-IsHistory tenant org claim_id identity cs db =
    maybe-intro (λ o. o ≡ some (identity, cs) → IsHistory tenant org identity cs)
      (get_claim tenant org claim_id db) none _ (λ _ e. cc)
      λ c _ e.
        let same : c.identity_id ≡ identity = cc in
        let list : revisions tenant org c.identity_id db ≡ cs = cc in
        rw (← list, ← same) (revisions-IsHistory tenant org c.identity_id db)
