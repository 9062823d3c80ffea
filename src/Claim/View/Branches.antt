-- ===== src/Claim/View/Branches.antt =====
-- What each branch of the update engine does to the current claim of every identity.
use hojo_memory_engine.Prelude.{
  ◌≡◌, ◌≢◌, refl, ◌∙◌, String, Bool, true, false, some, [], ◌∷◌, find, eq_iff, arith,
  latest-snoc_other, latest-snoc_only, latest-update_one_other, latest-update_many_other,
  latest-update_one_only,
}
use hojo_memory_engine.Services.{Services}
use hojo_memory_engine.Claim.Types.{
  Claim, ClaimDoc, Action, Reason, MemoryProvenance, MemoryClaimInput, superseded, conflicted,
}
use hojo_memory_engine.Claim.Store.{
  ClaimDb, current_of, has_id, demote, get_latest_claim, insert_claim, marked, confirmed, ◌⊕◌,
}
use hojo_memory_engine.Claim.Engine.{
  Draw, add_claim, confirm_current, replace_current, record_conflict, superseding,
}
use hojo_memory_engine.Claim.Invariant.{IsSound, IsFresh}
use hojo_memory_engine.Claim.Invariant.Insert.{prepared, prepared_cleared}
use hojo_memory_engine.Claim.Invariant.Steps.{find_latest, find-inserted, latest_current}

-- Storing a document for one identity.
module _ (d : Draw) (doc : ClaimDoc) (db : ClaimDb) where
  abbrev pub stored : Bool → Claim
  stored b = (insert_claim d.now d.uuid doc b db).0

  abbrev inserted : Bool → ClaimDb
  inserted b = (insert_claim d.now d.uuid doc b db).1

  pub latest-inserted_other :
      (b : Bool) (other : String)
      → doc.identity_id ≢ other
      → get_latest_claim other (inserted b) ≡ get_latest_claim other db
  unfolding insert_claim get_latest_claim
  latest-inserted_other true other ne =
      latest-snoc_other (λ c. c.revision) (current_of other) (prepared d.now doc true db)
        (stored true) (ground (arith, eq_iff doc.identity_id other))
      ∙ latest-update_many_other (λ c. c.revision) (current_of other) (current_of doc.identity_id)
          (demote d.now)
          (λ x t. ground (arith, eq_iff x.identity_id doc.identity_id, eq_iff x.identity_id other))
          db.claims
  latest-inserted_other false other ne =
      latest-snoc_other (λ c. c.revision) (current_of other) db.claims (stored false) (ground arith)

  pub latest-inserted_current :
      get_latest_claim doc.identity_id (inserted true) ≡ some (stored true)
  unfolding insert_claim get_latest_claim
  latest-inserted_current =
      latest-snoc_only (λ c. c.revision) (current_of doc.identity_id) (prepared d.now doc true db)
        (stored true) (prepared_cleared d.now doc db doc.identity_id refl)
        (ground (arith, eq_iff doc.identity_id doc.identity_id))

  pub latest-inserted_aside :
      (i : String) → get_latest_claim i (inserted false) ≡ get_latest_claim i db
  unfolding insert_claim get_latest_claim
  latest-inserted_aside i =
      latest-snoc_other (λ c. c.revision) (current_of i) db.claims (stored false) (ground arith)

module _ (db : ClaimDb) (h : IsSound db) (d : Draw) where
  module _ (identity : String) {current : Claim}
      (e : get_latest_claim identity db ≡ some current) where
    found : find (has_id current.claim_id) db.claims ≡ some current
    found = find_latest identity db h.indexed {c = current} e

    -- New evidence keeps the current claim's place and value.
    pub latest-confirmed :
        (p : MemoryProvenance) (claim : MemoryClaimInput)
        → get_latest_claim identity (confirm_current d p claim current db).1
          ≡ some (confirmed d.now p claim.confidence current)
    unfolding confirm_current confirmed get_latest_claim
    latest-confirmed p claim =
        let c = latest_current identity db {c = current} e in
        latest-update_one_only (λ x. x.revision) (current_of identity) (has_id current.claim_id)
          (confirmed d.now p claim.confidence) db.claims {x = current} (h.one_current identity)
          found c.0 c.0

    pub latest-confirmed_other :
        (p : MemoryProvenance) (claim : MemoryClaimInput) (other : String)
        → identity ≢ other
        → get_latest_claim other (confirm_current d p claim current db).1
          ≡ get_latest_claim other db
    unfolding confirm_current confirmed get_latest_claim
    latest-confirmed_other p claim other ne =
        let c = latest_current identity db {c = current} e in
        let hidden : current_of other current ≡ false =
          ground
            (arith, c.0, eq_iff current.identity_id identity, eq_iff current.identity_id other) in
        latest-update_one_other (λ x. x.revision) (current_of other) (has_id current.claim_id)
          (confirmed d.now p claim.confidence) db.claims {x = current} found hidden hidden

-- Marking the document that the insertion demoted changes no current claim.
module _ (sv : Services) (d : Draw) (action : Action) (reason : Reason) (doc : ClaimDoc)
    (db : ClaimDb) (h : IsSound db) (fresh : IsFresh ("mc_" ⊕ d.uuid) db) {current : Claim}
    (e : get_latest_claim doc.identity_id db ≡ some current) where
  abbrev doc' : ClaimDoc
  doc' = record doc { supersedes = some current.claim_id }

  latest-replaced :
      (i : String)
      → get_latest_claim i (replace_current sv d action reason doc current db).1
        ≡ get_latest_claim i (inserted d doc' db true)
  unfolding replace_current get_latest_claim
  latest-replaced i =
      latest-update_one_other (λ x. x.revision) (current_of i) (has_id current.claim_id)
        (marked d.now superseded (superseding sv doc' ("mc_" ⊕ d.uuid)))
        (inserted d doc' db true).claims {x = demote d.now current}
        (find-inserted d doc' db h fresh {current = current} e) (ground arith) (ground arith)

  pub latest-replaced_self :
      get_latest_claim doc.identity_id (replace_current sv d action reason doc current db).1
      ≡ some (stored d doc' db true)
  latest-replaced_self = latest-replaced doc.identity_id ∙ latest-inserted_current d doc' db

  pub latest-replaced_other :
      (other : String)
      → doc.identity_id ≢ other
      → get_latest_claim other (replace_current sv d action reason doc current db).1
        ≡ get_latest_claim other db
  latest-replaced_other other ne =
      latest-replaced other ∙ latest-inserted_other d doc' db true other ne

-- A first claim, and a conflicting one.
pub latest-added_self :
    (d : Draw) (doc : ClaimDoc) (db : ClaimDb)
    → get_latest_claim doc.identity_id (add_claim d doc db).1 ≡ some (stored d doc db true)
unfolding add_claim get_latest_claim
latest-added_self d doc db = latest-inserted_current d doc db

pub latest-added_other :
    (d : Draw) (doc : ClaimDoc) (db : ClaimDb) (other : String)
    → doc.identity_id ≢ other
    → get_latest_claim other (add_claim d doc db).1 ≡ get_latest_claim other db
unfolding add_claim get_latest_claim
latest-added_other d doc db other ne = latest-inserted_other d doc db true other ne

pub latest-conflicted :
    (d : Draw) (doc : ClaimDoc) (current : Claim) (db : ClaimDb) (i : String)
    → get_latest_claim i (record_conflict d doc current db).1 ≡ get_latest_claim i db
unfolding record_conflict get_latest_claim
latest-conflicted d doc current db i =
    latest-inserted_aside d
      (record doc { lifecycle_status = conflicted; conflicts_with = current.claim_id ∷ [] }) db i
