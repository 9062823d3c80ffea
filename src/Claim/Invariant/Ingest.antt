-- ===== src/Claim/Invariant/Ingest.antt =====
-- `_ingest_one` and `ingest` keep the claim collections sound.
use hojo_memory_engine.Prelude.{
  ℕ, suc, ◌≤◌, ◌<◌, ◌≡◌, ◌≢◌, refl, String, true, false, some, List, [], ◌∷◌, count, string_eq,
  arith, if◌then◌else◌, update_one, count-update_one_le,
}
use hojo_memory_engine.Json.{Fields}
use hojo_memory_engine.Context.{RequestContext}
use hojo_memory_engine.Services.{Services}
use hojo_memory_engine.Field.{FieldDb, get_active_by_name}
use hojo_memory_engine.Claim.Types.{
  Claim, ClaimDoc, MemoryClaimInput, MemoryIngestRequest, Action, update, supersede, Reason,
  fills_missing, newer_same_authority, higher_authority, superseded, conflicted,
}
use hojo_memory_engine.Claim.Store.{ClaimDb, has_id, insert_claim, marked, confirmed, ◌⊕◌}
use hojo_memory_engine.Claim.Engine.{
  Step, Draw, Settings, add_claim, confirm_current, replace_current, record_conflict, superseding,
  update_policy_of, ingest_one, ingest_all,
}
use hojo_memory_engine.Claim.Rules.{Rules, identity_of, ingest_claim_rule}
use hojo_memory_engine.Claim.Invariant.{IsSound, IsFresh, called}
use hojo_memory_engine.Claim.Invariant.Insert.{insert_claim-called}
use hojo_memory_engine.Claim.Invariant.Branches.{
  confirm_current-IsSound, add_claim-IsSound, replace_current-IsSound, record_conflict-IsSound,
}

update_one-IsFresh :
    (cid : String) (f : Claim → Claim)
    → ((c : Claim) → (f c).claim_id ≡ c.claim_id)
    → (other : String) (db : ClaimDb) → IsFresh other db
    → count (called other) (update_one (has_id cid) f db.claims) ≡ 0
update_one-IsFresh cid f keeps other db fresh = omega (
  arith,
  fresh,
  count-update_one_le (has_id cid) f (called other) (λ x. ground (arith, keeps x)) db.claims,
)

abbrev pub claim_id_of : Draw → String
claim_id_of d = "mc_" ⊕ d.uuid

module _ (sv : Services) (d : Draw) (identity : String) (claim : MemoryClaimInput) (policy : Fields)
    (db : ClaimDb) where
  IsSound-rules :
      IsSound db
      → IsFresh (claim_id_of d) db
      → Rules sv d identity claim policy db (λ s. IsSound s.1)
  IsSound-rules h fresh = record {
    raises = λ e. h;
    rejects = λ reason. h;
    adds = λ doc i e. add_claim-IsSound d doc db h fresh i.active (rw (i.identity_id) e);
    confirms = λ p current e t. confirm_current-IsSound d p claim current db h;
    updates = λ doc current v i e t.
        replace_current-IsSound d (record doc { value = v }) db h fresh sv update fills_missing
          {current = current} i.active (rw (i.identity_id) e);
    supersedes = λ newer statuses doc current i e s n t.
        replace_current-IsSound d doc db h fresh sv supersede
          (if newer then newer_same_authority else higher_authority) {current = current} i.active
          (rw (i.identity_id) e);
    conflicts = λ doc current i e. record_conflict-IsSound d doc db h fresh current;
  }

  module _ (other : String) (ne : claim_id_of d ≢ other) (fresh : IsFresh other db) where
    replace_current-IsFresh :
        (action : Action) (reason : Reason) (doc : ClaimDoc) (current : Claim)
        → IsFresh other (replace_current sv d action reason doc current db).1
    unfolding replace_current
    replace_current-IsFresh action reason doc current =
        let doc' = record doc { supersedes = some current.claim_id } in
        update_one-IsFresh current.claim_id
          (marked d.now superseded (superseding sv doc' (claim_id_of d))) (λ c. refl) other
          (insert_claim d.now d.uuid doc' true db).1
          (insert_claim-called d.now doc' db d.uuid true other ne fresh)

    -- An id other than the one that the step draws stays fresh.
    IsFresh-rules : Rules sv d identity claim policy db (λ s. IsFresh other s.1)
    unfolding add_claim confirm_current record_conflict
    IsFresh-rules = record {
      raises = λ e. fresh;
      rejects = λ reason. fresh;
      adds = λ doc i e. insert_claim-called d.now doc db d.uuid true other ne fresh;
      confirms = λ p current e t.
          update_one-IsFresh current.claim_id (confirmed d.now p claim.confidence) (λ c. refl) other
            db fresh;
      updates = λ doc current v i e t.
          replace_current-IsFresh update fills_missing (record doc { value = v }) current;
      supersedes = λ newer statuses doc current i e s n t.
          replace_current-IsFresh supersede
            (if newer then newer_same_authority else higher_authority) doc current;
      conflicts = λ doc current i e.
          insert_claim-called d.now
            (record doc { lifecycle_status = conflicted; conflicts_with = current.claim_id ∷ [] })
            db d.uuid false other ne fresh;
    }

-- The draws of a request: their ids differ from one another and from those in the store.
pub record AreFresh (draws : ℕ → Draw) (n : ℕ) (db : ClaimDb) : Type 0 where
  pub unused : (k : ℕ) → n ≤ k → IsFresh (claim_id_of (draws k)) db
  pub apart : (j k : ℕ) → j < k → claim_id_of (draws j) ≢ claim_id_of (draws k)

module _ (sv : Services) (st : Settings) (fields : FieldDb) (draws : ℕ → Draw)
    (ctx : RequestContext) (body : MemoryIngestRequest) (event_id : String) where
  abbrev ingest_with : ℕ → MemoryClaimInput → ClaimDb → Step
  ingest_with n claim db = ingest_one sv st fields (draws n) ctx body claim event_id db

  pub ingest_one-IsSound :
      (n : ℕ) (claim : MemoryClaimInput) (db : ClaimDb)
      → IsSound db
      → IsFresh (claim_id_of (draws n)) db
      → IsSound (ingest_with n claim db).1
  unfolding ingest_one
  ingest_one-IsSound n claim db h fresh =
      ingest_claim_rule (λ s. IsSound s.1) sv st (draws n) ctx body claim event_id
        (get_active_by_name ctx claim.dimension fields) db
        (IsSound-rules sv (draws n) (identity_of sv ctx body claim) claim
          (update_policy_of (get_active_by_name ctx claim.dimension fields)) db h fresh)

  ingest_one-AreFresh :
      (n : ℕ) (claim : MemoryClaimInput) (db : ClaimDb)
      → AreFresh draws n db
      → AreFresh draws (suc n) (ingest_with n claim db).1
  unfolding ingest_one
  ingest_one-AreFresh n claim db a = record {
    unused = λ k le.
        ingest_claim_rule (λ s. IsFresh (claim_id_of (draws k)) s.1) sv st (draws n) ctx body claim
          event_id (get_active_by_name ctx claim.dimension fields) db
          (IsFresh-rules sv (draws n) (identity_of sv ctx body claim) claim
            (update_policy_of (get_active_by_name ctx claim.dimension fields)) db
            (claim_id_of (draws k)) (a.apart n k (omega arith)) (a.unused k (omega arith)));
    apart = a.apart;
  }

  -- The claims of a request, one after the other, also where one raises.
  pub ingest_all-IsSound :
      (n : ℕ) (claims : List MemoryClaimInput) (db : ClaimDb)
      → IsSound db
      → AreFresh draws n db
      → IsSound (ingest_all sv st fields draws ctx body event_id n claims db).1
  unfolding ingest_all
  ingest_all-IsSound n [] db h a = h
  ingest_all-IsSound n (claim ∷ rest) db h a =
      let next = ingest_one-IsSound n claim db h (a.unused n (omega arith)) in
      let later =
        ingest_all-IsSound (suc n) rest (ingest_with n claim db).1 next
          (ingest_one-AreFresh n claim db a) in
      ground (arith, next, later)
