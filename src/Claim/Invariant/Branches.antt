-- ===== src/Claim/Invariant/Branches.antt =====
-- Every branch of the update engine keeps the claim collections sound.
use hojo_memory_engine.Prelude.{◌≡◌, refl, true, none, some, [], ◌∷◌}
use hojo_memory_engine.Services.{Services}
use hojo_memory_engine.Claim.Types.{
  Claim, ClaimDoc, MemoryProvenance, MemoryClaimInput, Action, Reason, is_active, superseded,
  conflicted,
}
use hojo_memory_engine.Claim.Store.{
  upsert, delete, ClaimDb, get_latest_claim, insert_claim, mark_claim_status, marked, confirmed,
  ◌⊕◌,
}
use hojo_memory_engine.Claim.Engine.{
  index, Draw, add_claim, confirm_current, replace_current, record_conflict, superseding,
}
use hojo_memory_engine.Claim.Invariant.{IsSound, IsFresh}
use hojo_memory_engine.Claim.Invariant.Mark.{KeepsKeys, lowered-IsIndexed, update_one_untorn}
use hojo_memory_engine.Claim.Invariant.Steps.{
  index-IsSound, current-IsSound, noncurrent-IsSound, superseded-IsSound,
}

pub confirm_current-IsSound :
    (d : Draw) (p : MemoryProvenance) (claim : MemoryClaimInput) (current : Claim) (db : ClaimDb)
    → IsSound db
    → IsSound (confirm_current d p claim current db).1
unfolding confirm_current
confirm_current-IsSound d p claim current db h =
    let f = confirmed d.now p claim.confidence in
    let k : KeepsKeys f = record {
      claim_id = λ c. refl;
      identity_id = λ c. refl;
      revision = λ c. refl;
      deleted = λ c. refl;
    } in
    record {
      indexed = lowered-IsIndexed current.claim_id f k db h.indexed (λ c e. e);
      untorn = update_one_untorn current.claim_id f k db h.indexed h.untorn (λ c e. e);
    }

module _ (d : Draw) (doc : ClaimDoc) (db : ClaimDb) (h : IsSound db)
    (fresh : IsFresh ("mc_" ⊕ d.uuid) db) where
  pub add_claim-IsSound :
      is_active doc.lifecycle_status ≡ true
      → get_latest_claim doc.identity_id db ≡ none
      → IsSound (add_claim d doc db).1
  unfolding add_claim
  add_claim-IsSound a e =
      index-IsSound (upsert ("mc_" ⊕ d.uuid)) (insert_claim d.now d.uuid doc true db).1
        (current-IsSound d doc db h fresh a e)

  pub replace_current-IsSound :
      (sv : Services) (action : Action) (reason : Reason) {current : Claim}
      → is_active doc.lifecycle_status ≡ true
      → get_latest_claim doc.identity_id db ≡ some current
      → IsSound (replace_current sv d action reason doc current db).1
  unfolding replace_current
  replace_current-IsSound sv action reason {current} a e =
      let doc' = record doc { supersedes = some current.claim_id } in
      let new_id = "mc_" ⊕ d.uuid in
      let extra = superseding sv doc' new_id in
      let db'' =
        mark_claim_status d.now current.claim_id superseded extra
          (insert_claim d.now d.uuid doc' true db).1 in
      let k : KeepsKeys (marked d.now superseded extra) = record {
        claim_id = λ c. refl;
        identity_id = λ c. refl;
        revision = λ c. refl;
        deleted = λ c. refl;
      } in
      index-IsSound (upsert new_id) (index (delete current.claim_id) db'') (
        index-IsSound (delete current.claim_id) db''
          (superseded-IsSound d doc' db h fresh extra {current = current} k (λ c t. t) refl a e))

  pub record_conflict-IsSound : (current : Claim) → IsSound (record_conflict d doc current db).1
  unfolding record_conflict
  record_conflict-IsSound current =
      noncurrent-IsSound d
        (record doc { lifecycle_status = conflicted; conflicts_with = current.claim_id ∷ [] }) db h
        fresh refl
