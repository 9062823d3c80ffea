-- ===== src/Claim/Engine.antt =====
-- services/memory_claim.py: the deterministic update engine, `_ingest_one` and `ingest`.
mod Documents
mod Branches
unfoldable pub use Documents.*
unfoldable pub use Branches.*
use hojo_memory_engine.Prelude.{
  maybe, ℕ, suc, String, Bool, true, false, ◌&&◌, ◌||◌, Option, none, some, List, [], ◌∷◌, contains,
  ltb, leb, ◌==◌, string_eq, if◌then◌else◌,
}
use hojo_memory_engine.Text.{clip}
use hojo_memory_engine.Json.{
  ℤ, pos, negsuc, Json, obj, Fields, end, field, get, merge, values_equal,
}
use hojo_memory_engine.Json.Number.{to_float}
use hojo_memory_engine.Result.{Result, ok, err, ◌>>=◌, on_ok, type_error}
use hojo_memory_engine.Context.{RequestContext}
use hojo_memory_engine.Services.{Services}
use hojo_memory_engine.Field.{MemoryField, FieldDb, get_active_by_name}
use hojo_memory_engine.Claim.Types.{
  LifecycleStatus, active, pending, conflicted, superseded, self, internal, MemoryProvenance,
  MemoryAccessPolicy, MemoryClaimInput, MemorySourceEventInput, MemoryIngestRequest, Action, add,
  confirm, update, supersede, conflict, reject, Reason, schema_failed, below_threshold,
  no_active_claim, confirms_current, fills_missing, newer_same_authority, higher_authority,
  lacks_authority, MemoryUpdateDecision, MemoryIngestResult, ClaimDoc, Claim,
}
use hojo_memory_engine.Claim.Store.{
  VectorOp, upsert, delete, ClaimDb, or_text, claim_identity_id, save_source_event,
  get_latest_claim, insert_claim, confirm_claim, mark_claim_status,
}
use hojo_memory_engine.Claim.Time.{
  fact_time, is_newer_same_authority_fact, fact_authority, fact_name, flag, auto_supersede_statuses,
}

-- The test of the SUPERSEDE branch.
unfoldable pub wins : Bool → List String → ClaimDoc → Claim → Bool
unfolding fact_authority
wins newer statuses doc current =
    ltb (fact_authority current.fact_status) (fact_authority doc.fact_status)
    || (newer
        || (contains (fact_name doc.fact_status) statuses && leb current.confidence doc.confidence))

-- A value that neither confirms nor fills the current one, with the statuses that win by rule.
unfoldable pub contest_among :
    Services → Draw → Fields → ClaimDoc → Claim → ClaimDb → List String → Step
contest_among sv d policy doc current db statuses =
    let newer =
      flag "allow_chronological_supersede" policy
      && is_newer_same_authority_fact sv doc current.doc in
    if wins newer statuses doc current
    then replace_current sv d supersede (if newer then newer_same_authority else higher_authority)
        doc current db
    else record_conflict d doc current db

unfoldable pub contest : Services → Draw → Fields → ClaimDoc → Claim → ClaimDb → Step
contest sv d policy doc current db =
    on_ok (auto_supersede_statuses policy) db (contest_among sv d policy doc current db)

-- The value that fills missing fields of the current one, if the policy allows it.
unfoldable pub filled_value : Fields → Json → Json → Option Json
unfolding flag non_conflicting_object_update
filled_value policy old new =
    if flag "allow_non_conflicting_object_fill" policy
    then non_conflicting_object_update old new
    else none

-- There is a current claim of the identity.
unfoldable pub revise :
    Services
    → Draw
    → Fields
    → MemoryProvenance
    → MemoryClaimInput
    → ClaimDoc
    → Claim
    → ClaimDb
    → Step
revise sv d policy p claim doc current db =
    if values_equal current.value claim.value
    then confirm_current d p claim current db
    else maybe (filled_value policy current.value claim.value) (contest sv d policy doc current db)
        λ merged.
          replace_current sv d update fills_missing (record doc { value = merged }) current db

-- jsonschema runs where the field has a schema that is not empty; nothing catches its `SchemaError`
-- on a schema that is none.
abbrev schema_allows : Services → Option Fields → Json → Result Bool
schema_allows sv none v = ok true
schema_allows sv (some end) v = ok true
schema_allows sv (some (field k w fs)) v =
    let schema = obj (field k w fs) in
    if sv.check_schema schema then ok (sv.schema_accepts v schema) else err type_error

unfoldable pub field_allows : Services → Option MemoryField → Json → Result Bool
field_allows sv none v = ok true
field_allows sv (some f) v = schema_allows sv f.json_schema v

-- `float(v)` of the value that `update_policy.get("min_confidence", …)` returns.
abbrev pub float_or_raise : Option ℤ → Result ℤ
float_or_raise none = err type_error
float_or_raise (some z) = ok z

abbrev pub threshold_of : Services → Settings → Option Json → Result ℤ
threshold_of sv st none = ok (pos st.memory_claim_min_confidence)
threshold_of sv st (some v) = float_or_raise (to_float sv.parse_float v)

unfoldable pub min_confidence : Services → Settings → Fields → Result ℤ
unfolding to_float
min_confidence sv st policy = threshold_of sv st (get "min_confidence" policy)

abbrev pub below : ℕ → ℤ → Bool
below c (pos n) = ltb c n
below c (negsuc n) = false

-- A claim that has passed the checks.
unfoldable pub store_claim :
    Services
    → Draw
    → RequestContext
    → MemoryIngestRequest
    → MemoryClaimInput
    → String
    → Option MemoryField
    → MemoryAccessPolicy
    → ClaimDb
    → Step
store_claim sv d ctx body claim event_id f policy db =
    let doc = claim_doc sv ctx body claim event_id policy f in
    maybe (get_latest_claim doc.identity_id db) (add_claim d doc db) λ current.
      revise sv d (update_policy_of f) (provenance_of body.source_event event_id) claim doc current
        db

-- `_ingest_one`, with the field row that `get_active_by_name` returned.
unfoldable pub ingest_claim :
    Services
    → Settings
    → Draw
    → RequestContext
    → MemoryIngestRequest
    → MemoryClaimInput
    → String
    → Option MemoryField
    → ClaimDb
    → Step
ingest_claim sv st d ctx body claim event_id f db =
    on_ok (field_allows sv f claim.value) db λ allowed.
      if allowed
      then on_ok (min_confidence sv st (update_policy_of f)) db (λ threshold.
        if below claim.confidence threshold
        then (ok (rejected below_threshold), db)
        else on_ok (resolve_access_policy sv claim f) db
            λ policy. store_claim sv d ctx body claim event_id f policy db)
      else (ok (rejected schema_failed), db)

unfoldable pub ingest_one :
    Services
    → Settings
    → FieldDb
    → Draw
    → RequestContext
    → MemoryIngestRequest
    → MemoryClaimInput
    → String
    → ClaimDb
    → Step
ingest_one sv st fields d ctx body claim event_id db =
    ingest_claim sv st d ctx body claim event_id (get_active_by_name ctx claim.dimension fields) db

-- The comprehension of `ingest`: an exception ends it, and what was stored before stays stored.
-- The `n`-th claim of the request draws `draws n`.
unfoldable pub ingest_all :
    Services
    → Settings
    → FieldDb
    → (ℕ → Draw)
    → RequestContext
    → MemoryIngestRequest
    → String
    → ℕ
    → List MemoryClaimInput
    → ClaimDb
    → Result (List MemoryUpdateDecision) × ClaimDb
ingest_all sv st fields draws ctx body event_id n [] db = (ok [], db)
ingest_all sv st fields draws ctx body event_id n (claim ∷ rest) db =
    let (r, db') = ingest_one sv st fields (draws n) ctx body claim event_id db in
    let (rs, db'') = ingest_all sv st fields draws ctx body event_id (suc n) rest db' in
    elim r [
      | err e ↦ (err e, db')
      | ok decision ↦ (rs >>= λ decisions. ok (decision ∷ decisions), db'')
    ]

-- The event's draw is `draws 0`.
unfoldable pub ingest :
    Services
    → Settings
    → FieldDb
    → (ℕ → Draw)
    → RequestContext
    → MemoryIngestRequest
    → ClaimDb
    → Result MemoryIngestResult × ClaimDb
ingest sv st fields draws ctx body db =
    let d = draws 0 in
    let (event_id, db') =
      save_source_event d.now d.uuid ctx.tenant_id ctx.org_id body.user_id body.namespace
        body.source_event db in
    let (r, db'') = ingest_all sv st fields draws ctx body event_id 1 body.claims db' in
    (r >>= λ decisions. ok (record { event_id = event_id; decisions = decisions }), db'')
