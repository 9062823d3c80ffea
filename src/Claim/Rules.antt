-- ===== src/Claim/Rules.antt =====
-- To prove something of `_ingest_one`, prove it of the branches in which it ends.
use hojo_memory_engine.Prelude.{
  ◌≡◌, refl, String, Bool, true, ◌&&◌, Option, none, some, List, string_eq, arith, if◌then◌else◌,
  if-intro, maybe-intro,
}
use hojo_memory_engine.Json.{Fields, Json, values_equal}
use hojo_memory_engine.Result.{HttpError, ok, err, on_ok-intro}
use hojo_memory_engine.Context.{RequestContext}
use hojo_memory_engine.Services.{Services}
use hojo_memory_engine.Field.{MemoryField}
use hojo_memory_engine.Claim.Types.{
  Claim, ClaimDoc, Reason, MemoryProvenance, MemoryClaimInput, MemoryIngestRequest,
  MemoryAccessPolicy, supersede, update, newer_same_authority, higher_authority, below_threshold,
  schema_failed, fills_missing, is_active,
}
use hojo_memory_engine.Claim.Store.{ClaimDb, claim_identity_id, get_latest_claim}
use hojo_memory_engine.Claim.Engine.{
  rejected, contest_among, wins, Step, Draw, Settings, filled_value, claim_doc, provenance_of,
  update_policy_of, field_allows, min_confidence, below, resolve_access_policy, add_claim,
  confirm_current, replace_current, record_conflict, contest, revise, store_claim, ingest_claim,
}
use hojo_memory_engine.Claim.Time.{auto_supersede_statuses, flag, is_newer_same_authority_fact}

-- The document that a claim is stored as, up to the links that a branch adds.
pub record IsDocOf (identity : String) (claim : MemoryClaimInput) (doc : ClaimDoc) : Type 0 where
  pub identity_id : doc.identity_id ≡ identity
  pub active : is_active doc.lifecycle_status ≡ true
  pub value : doc.value ≡ claim.value
  pub fact_status : doc.fact_status ≡ claim.fact_status
  pub confidence : doc.confidence ≡ claim.confidence

-- What is shown of the branches: `P` holds of a step that stores nothing, and of each branch that
-- stores something, given the tests that led to it.
pub record Rules (sv : Services) (d : Draw) (identity : String) (claim : MemoryClaimInput)
    (policy : Fields) (db : ClaimDb) (P : Step → Type 0) : Type 0 where
  pub raises : (e : HttpError) → P (err e, db)
  pub rejects : (reason : Reason) → P (ok (rejected reason), db)
  pub adds :
      (doc : ClaimDoc)
      → IsDocOf identity claim doc
      → get_latest_claim identity db ≡ none
      → P (add_claim d doc db)
  pub confirms :
      (p : MemoryProvenance) (current : Claim)
      → get_latest_claim identity db ≡ some current
      → values_equal current.value claim.value ≡ true
      → P (confirm_current d p claim current db)
  pub updates :
      (doc : ClaimDoc) (current : Claim) (merged : Json)
      → IsDocOf identity claim doc
      → get_latest_claim identity db ≡ some current
      → filled_value policy current.value claim.value ≡ some merged
      → P (replace_current sv d update fills_missing (record doc { value = merged }) current db)
  pub supersedes :
      (newer : Bool) (statuses : List String) (doc : ClaimDoc) (current : Claim)
      → IsDocOf identity claim doc
      → get_latest_claim identity db ≡ some current
      → auto_supersede_statuses policy ≡ ok statuses
      → (newer ≡ true → is_newer_same_authority_fact sv doc current.doc ≡ true)
      → wins newer statuses doc current ≡ true
      → P (
          replace_current sv d supersede
            (if newer then newer_same_authority else higher_authority)
            doc
            current
            db)
  pub conflicts :
      (doc : ClaimDoc) (current : Claim)
      → IsDocOf identity claim doc
      → get_latest_claim identity db ≡ some current
      → P (record_conflict d doc current db)

-- The identity of the claims that a request's claim belongs to.
abbrev pub identity_of : Services → RequestContext → MemoryIngestRequest → MemoryClaimInput → String
identity_of sv ctx body claim =
    claim_identity_id sv ctx.tenant_id ctx.org_id body.user_id body.namespace claim.dimension
      claim.claim_key

claim_doc-IsDocOf :
    (sv : Services) (ctx : RequestContext) (body : MemoryIngestRequest) (claim : MemoryClaimInput)
    (event_id : String) (policy : MemoryAccessPolicy) (f : Option MemoryField)
    → IsDocOf (identity_of sv ctx body claim) claim (claim_doc sv ctx body claim event_id policy f)
unfolding claim_doc
claim_doc-IsDocOf sv ctx body claim event_id policy f = record {
  identity_id = refl;
  active = refl;
  value = refl;
  fact_status = refl;
  confidence = refl;
}

module _ (P : Step → Type 0) (sv : Services) (d : Draw) (identity : String)
    (claim : MemoryClaimInput) (policy : Fields) (db : ClaimDb)
    (rules : Rules sv d identity claim policy db P) where
  module _ (doc : ClaimDoc) (i : IsDocOf identity claim doc) (current : Claim)
      (e : get_latest_claim identity db ≡ some current) where
    contest_among_rule :
        (statuses : List String)
        → auto_supersede_statuses policy ≡ ok statuses
        → P (contest_among sv d policy doc current db statuses)
    unfolding contest_among
    contest_among_rule statuses s =
        let newer =
          flag "allow_chronological_supersede" policy
          && is_newer_same_authority_fact sv doc current.doc in
        if-intro P (wins newer statuses doc current) _ _
          (rules.supersedes newer statuses doc current i e s (λ t. ground arith))
          (λ _. rules.conflicts doc current i e)

    contest_rule : P (contest sv d policy doc current db)
    unfolding contest
    contest_rule =
        on_ok-intro P (auto_supersede_statuses policy) db (contest_among sv d policy doc current db)
          rules.raises contest_among_rule

    revise_rule : (p : MemoryProvenance) → P (revise sv d policy p claim doc current db)
    unfolding revise
    revise_rule p =
        if-intro P (values_equal current.value claim.value) _ _ (rules.confirms p current e) λ _.
          maybe-intro P (filled_value policy current.value claim.value) _ _ (λ _. contest_rule)
            λ v t. rules.updates doc current v i e t

module _ (P : Step → Type 0) (sv : Services) (st : Settings) (d : Draw) (ctx : RequestContext)
    (body : MemoryIngestRequest) (claim : MemoryClaimInput) (event_id : String)
    (f : Option MemoryField) (db : ClaimDb)
    (rules : Rules sv d (identity_of sv ctx body claim) claim (update_policy_of f) db P) where
  store_claim_rule :
      (policy : MemoryAccessPolicy) → P (store_claim sv d ctx body claim event_id f policy db)
  unfolding store_claim claim_doc
  store_claim_rule policy =
      let identity = identity_of sv ctx body claim in
      let doc = claim_doc sv ctx body claim event_id policy f in
      let i = claim_doc-IsDocOf sv ctx body claim event_id policy f in
      maybe-intro P (get_latest_claim identity db) (add_claim d doc db) _ (rules.adds doc i)
        λ current e.
          revise_rule P sv d identity claim (update_policy_of f) db rules doc i current e
            (provenance_of body.source_event event_id)

  -- The whole of `_ingest_one`.
  pub ingest_claim_rule : P (ingest_claim sv st d ctx body claim event_id f db)
  unfolding ingest_claim
  ingest_claim_rule = on_ok-intro P (field_allows sv f claim.value) db _ rules.raises λ allowed _.
      if-intro P allowed _ _
        (λ _.
          on_ok-intro P (min_confidence sv st (update_policy_of f)) db _ rules.raises λ threshold _.
            if-intro P (below claim.confidence threshold) _ _ (λ _. rules.rejects below_threshold)
              λ _.
                on_ok-intro P (resolve_access_policy sv claim f) db _ rules.raises
                  λ policy _. store_claim_rule policy)
        (λ _. rules.rejects schema_failed)
