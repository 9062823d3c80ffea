-- ===== src/Claim/Engine/Branches.antt =====
-- services/memory_claim.py: the branches in which `_ingest_one` stores something.
use hojo_memory_engine.Prelude.{String, true, false, Option, none, some, [], ◌∷◌, string_eq}
use hojo_memory_engine.Result.{Result, ok}
use hojo_memory_engine.Services.{Services}
use hojo_memory_engine.Claim.Types.{
  LifecycleStatus, active, pending, conflicted, superseded, MemoryProvenance, MemoryClaimInput,
  Action, add, confirm, conflict, reject, Reason, no_active_claim, confirms_current,
  lacks_authority, MemoryUpdateDecision, ClaimDoc, Claim,
}
use hojo_memory_engine.Claim.Store.{
  VectorOp, upsert, delete, ClaimDb, insert_claim, confirm_claim, mark_claim_status,
}
use hojo_memory_engine.Claim.Time.{fact_time}
use hojo_memory_engine.Claim.Engine.Documents.{Draw}

-- The requests to the vector index. Their failures are caught, so they are only recorded.
abbrev pub index : VectorOp → ClaimDb → ClaimDb
index op db = record db { vectors = op ∷ db.vectors }

abbrev pub Step : Type 0
Step = Result MemoryUpdateDecision × ClaimDb

abbrev pub decided :
    Action → Option String → Option String → Reason → LifecycleStatus → MemoryUpdateDecision
decided action claim_id previous reason status = record {
  action = action;
  claim_id = claim_id;
  previous_claim_id = previous;
  reason = reason;
  lifecycle_status = some status;
}

abbrev pub rejected : Reason → MemoryUpdateDecision
rejected reason = decided reject none none reason pending

-- There is no current claim of the identity.
unfoldable pub add_claim : Draw → ClaimDoc → ClaimDb → Step
unfolding insert_claim
add_claim d doc db =
    let (stored, db') = insert_claim d.now d.uuid doc true db in
    (
      ok (decided add (some stored.claim_id) none no_active_claim active),
      index (upsert stored.claim_id) db',
    )

-- The evidence `p`, the only provenance entry of the document, is added to the current claim.
unfoldable pub confirm_current : Draw → MemoryProvenance → MemoryClaimInput → Claim → ClaimDb → Step
unfolding confirm_claim
confirm_current d p claim current db = (
  ok (decided confirm (some current.claim_id) none confirms_current current.lifecycle_status),
  confirm_claim d.now current.claim_id p claim.confidence db,
)

-- The keys that the superseded claim gets.
abbrev pub superseding : Services → ClaimDoc → String → Claim → Claim
superseding sv doc new_id c = record c {
  doc = record c.doc {
    superseded_by = some new_id;
    superseded_at = elim (fact_time sv doc) [
      | none ↦ c.superseded_at
      | some t ↦ some (sv.isoformat t)
    ];
  };
}

-- The branches UPDATE and SUPERSEDE: a new current claim, and the old one marked.
unfoldable pub replace_current :
    Services → Draw → Action → Reason → ClaimDoc → Claim → ClaimDb → Step
unfolding insert_claim mark_claim_status
replace_current sv d action reason doc current db =
    let doc' = record doc { supersedes = some current.claim_id } in
    let (stored, db') = insert_claim d.now d.uuid doc' true db in
    let db'' =
      mark_claim_status d.now current.claim_id superseded (superseding sv doc' stored.claim_id)
        db' in
    (
      ok (decided action (some stored.claim_id) (some current.claim_id) reason active),
      index (upsert stored.claim_id) (index (delete current.claim_id) db''),
    )

unfoldable pub record_conflict : Draw → ClaimDoc → Claim → ClaimDb → Step
unfolding insert_claim
record_conflict d doc current db =
    let doc' = record doc {
      lifecycle_status = conflicted;
      conflicts_with = current.claim_id ∷ [];
    } in
    let (stored, db') = insert_claim d.now d.uuid doc' false db in
    (
      ok (
          decided conflict (some stored.claim_id) (some current.claim_id) lacks_authority
            conflicted),
      db',
    )
