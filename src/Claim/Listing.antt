-- ===== src/Claim/Listing.antt =====
-- integrations/memory_claim_store.py: the queries that list claims for the retrieval service.
-- Every limit is positive, as the callers give it (MongoDB reads 0 as no limit).
pub mod Visible
use hojo_memory_engine.Prelude.{
  ℕ, String, Bool, true, false, not, ◌&&◌, ◌||◌, Option, none, some, List, [], ◌∷◌, ◌++◌, any,
  contains, filter, length, take, map, maybe, ◌==◌, nat_eq, string_eq, if◌then◌else◌, sort_desc,
}
use hojo_memory_engine.Text.{strip}
use hojo_memory_engine.Result.{Result, ok, err, not_found}
use hojo_memory_engine.Context.{RequestContext}
use hojo_memory_engine.Services.{Services}
use hojo_memory_engine.Claim.Types.{
  MemoryNamespace, MemoryProvenance, Claim, is_active, is_historical,
}
use hojo_memory_engine.Claim.Store.{ClaimDb, get_claim, ◌⊕◌}

-- What all the queries take: whose claims, and which of them.
pub record Scope : Type 0 where
  pub tenant_id : ℕ
  pub org_id : ℕ
  pub user_id : String
  pub namespace : MemoryNamespace
  pub dimensions : List String
  pub include_history : Bool

-- The part of the filter that all the queries share.
unfoldable pub in_view : Scope → Claim → Bool
in_view q c =
    (c.tenant_id == q.tenant_id)
    && ((c.org_id == q.org_id)
        && ((c.user_id == q.user_id)
            && ((c.namespace.type == q.namespace.type)
                && ((c.namespace.id == q.namespace.id)
                    && ((c.deleted == 0)
                        && ((if q.include_history
                              then is_historical c.lifecycle_status
                              else c.is_current && is_active c.lifecycle_status)
                            && (elim q.dimensions [
                              | [] ↦ true
                              | d ∷ ds ↦ contains c.dimension (d ∷ ds)
                            ])))))))

-- `.sort("updated_at", DESCENDING).limit(limit)`.
abbrev pub newest : ℕ → List Claim → List Claim
newest limit cs = take limit (sort_desc (λ c. c.updated_at) cs)

unfoldable pub list_current_claims : Scope → ℕ → ClaimDb → List Claim
list_current_claims q limit db = newest limit (filter (in_view q) db.claims)

-- `dict.fromkeys`: the first of equal keys.
unfoldable pub distinct_keys : List String → List String
distinct_keys [] = []
distinct_keys (k ∷ ks) = k ∷ filter (λ j. not (j == k)) (distinct_keys ks)

unfoldable pub list_current_claims_by_ids : Scope → List String → ClaimDb → List Claim
list_current_claims_by_ids q ids db =
    take (length ids)
      (filter (λ c. in_view q c && contains c.claim_id (distinct_keys ids)) db.claims)

-- The texts that are not blank, stripped, each once.
abbrev blank : String → Bool
blank s = strip s == ""

unfoldable pub normalized : (String → String) → List String → List String
unfolding strip distinct_keys
normalized f ts = distinct_keys (map f (filter (λ t. not (blank t)) ts))

-- The queries with a pattern for each text.
abbrev pub matching : Services → Scope → (String → String) → List String → ℕ → ClaimDb → List Claim
matching sv q pattern [] limit db = []
matching sv q pattern (t ∷ ts) limit db =
    newest limit (
      filter (λ c. in_view q c && any (λ u. sv.regex_matches (pattern u) c.text) (t ∷ ts))
        db.claims)

unfoldable pub list_current_claims_matching_phrases :
    Services → Scope → List String → ℕ → ClaimDb → List Claim
unfolding normalized
list_current_claims_matching_phrases sv q phrases limit db =
    matching sv q sv.escape (normalized strip phrases) limit db

unfoldable pub list_current_claims_matching_terms :
    Services → Scope → List String → ℕ → ClaimDb → List Claim
unfolding normalized
list_current_claims_matching_terms sv q terms limit db =
    matching sv q (λ t. "\\b" ⊕ sv.escape t ⊕ "\\w*\\b")
      (normalized (λ t. sv.lower (strip t)) terms) limit db

-- The truthy ids of some provenance entries.
abbrev given : Option String → List String → List String
given none rest = rest
given (some s) rest = if s == "" then rest else s ∷ rest

abbrev ids_of : (MemoryProvenance → Option String) → List MemoryProvenance → List String
ids_of f [] = []
ids_of f (p ∷ ps) = given (f p) (ids_of f ps)

abbrev seeds_of : (MemoryProvenance → Option String) → List Claim → List String
seeds_of f [] = []
seeds_of f (c ∷ cs) = ids_of f c.provenance ++ seeds_of f cs

abbrev shares : (MemoryProvenance → Option String) → List String → Claim → Bool
shares f ids c = any (λ i. contains i ids) (ids_of f c.provenance)

abbrev pub is_seed : List Claim → Claim → Bool
is_seed seeds c = any (λ s. s.claim_id == c.claim_id) seeds

-- Evidence of the sources and meetings of the seeds. An empty list of ids matches nothing, so
-- that the clause which the code then leaves out, and its early return, need no case of their own.
unfoldable pub list_current_claim_evidence_neighbors : Scope → List Claim → ℕ → ClaimDb → List Claim
list_current_claim_evidence_neighbors q seeds limit db = newest limit (
    filter
      (λ c.
        in_view q c
        && (not (is_seed seeds c)
            && (shares (λ p. p.source_id) (seeds_of (λ p. p.source_id) seeds) c
                || shares (λ p. p.meeting_id) (seeds_of (λ p. p.meeting_id) seeds) c)))
      db.claims)

-- The revisions of the claim's identity, deleted ones too, the last one first.
abbrev pub revisions : ℕ → ℕ → String → ClaimDb → List Claim
revisions tenant org identity db = take 500 (
    sort_desc (λ c. c.revision)
      (filter (λ c. (c.tenant_id == tenant) && ((c.org_id == org) && (c.identity_id == identity)))
        db.claims))

unfoldable pub list_history : ℕ → ℕ → String → ClaimDb → Option (String × List Claim)
list_history tenant org claim_id db =
    maybe (get_claim tenant org claim_id db) none
      λ c. some (c.identity_id, revisions tenant org c.identity_id db)

-- `history` of services/memory_claim.py.
unfoldable pub history : RequestContext → String → ClaimDb → Result (String × List Claim)
history ctx claim_id db =
    maybe (list_history ctx.tenant_id ctx.org_id claim_id db) (err not_found) ok
