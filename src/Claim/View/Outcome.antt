-- ===== src/Claim/View/Outcome.antt =====
-- What one claim's ingest does to the value of its identity, and to the other identities:
-- services/memory_claim.py refines the transition `outcome` of Claim/View.antt.
use hojo_memory_engine.Prelude.{
  ◌≡◌, ◌≢◌, refl, ◌∙◌, ap, sym, ◌≤◌, ◌<◌, String, Bool, true, false, some, List, ◌⊎◌, inl, inr,
  arith, if◌then◌else◌, string_eq,
}
use hojo_memory_engine.Json.{Json, Fields}
use hojo_memory_engine.Result.{ok}
use hojo_memory_engine.Context.{RequestContext}
use hojo_memory_engine.Services.{Services}
use hojo_memory_engine.Field.{FieldDb, get_active_by_name}
use hojo_memory_engine.Claim.Types.{
  Claim, ClaimDoc, MemoryClaimInput, MemoryIngestRequest, MemoryUpdateDecision, Action,
  MemoryProvenance, update, supersede, Reason, fills_missing, newer_same_authority,
  higher_authority, confirm, reject, conflict,
}
use hojo_memory_engine.Claim.Store.{ClaimDb, get_latest_claim, insert_claim, confirmed}
use hojo_memory_engine.Claim.Engine.{
  Step, Draw, Settings, add_claim, confirm_current, replace_current, record_conflict, filled_value,
  update_policy_of, ingest_one, wins, rejected,
}
use hojo_memory_engine.Claim.Rules.{Rules, IsDocOf, identity_of, ingest_claim_rule}
use hojo_memory_engine.Claim.Invariant.{IsSound, IsFresh}
use hojo_memory_engine.Claim.Invariant.Ingest.{claim_id_of}
use hojo_memory_engine.Claim.Time.{fact_authority, is_newer_same_authority_fact}
use hojo_memory_engine.Claim.View.{value_of, current_value, outcome}
use hojo_memory_engine.Claim.View.Branches.{
  stored, latest-added_self, latest-added_other, latest-confirmed, latest-confirmed_other,
  latest-replaced_self, latest-replaced_other, latest-conflicted,
}

-- A step that decides leaves the value that its decision means.
abbrev Refines : Fields → MemoryClaimInput → String → ClaimDb → Step → Type 0
Refines policy claim identity db s =
    (dec : MemoryUpdateDecision)
    → s.0 ≡ ok dec
    → current_value identity s.1
      ≡ outcome dec.action (λ old. filled_value policy old claim.value) claim.value
          (current_value identity db)

ok-injective {ℓ} : {A : Type ℓ} {a b : A} → ok a ≡ ok b → a ≡ b
ok-injective {a = a} {b = b} e = cc

-- The action that a branch decides.
abbrev Decides : Action → Step → Type 0
Decides a s = (dec : MemoryUpdateDecision) → s.0 ≡ ok dec → dec.action ≡ a

Decides-ok : (r : MemoryUpdateDecision) (db : ClaimDb) → Decides r.action (ok r, db)
Decides-ok r db dec t = rw (ok-injective {a = r} {b = dec} t) refl

module _ (sv : Services) (d : Draw) (doc : ClaimDoc) (db : ClaimDb) where
  add_claim-Decides : Decides Action.add (add_claim d doc db)
  unfolding add_claim
  add_claim-Decides dec t = Decides-ok _ db dec t

  confirm_current-Decides :
      (current : Claim) (p : MemoryProvenance) (claim : MemoryClaimInput)
      → Decides confirm (confirm_current d p claim current db)
  unfolding confirm_current
  confirm_current-Decides current p claim dec t = Decides-ok _ db dec t

  replace_current-Decides :
      (current : Claim) (action : Action) (reason : Reason)
      → Decides action (replace_current sv d action reason doc current db)
  unfolding replace_current
  replace_current-Decides current action reason dec t = Decides-ok _ db dec t

  record_conflict-Decides : (current : Claim) → Decides conflict (record_conflict d doc current db)
  unfolding record_conflict
  record_conflict-Decides current dec t = Decides-ok _ db dec t

module _ (sv : Services) (d : Draw) (identity : String) (claim : MemoryClaimInput) (policy : Fields)
    (db : ClaimDb) (h : IsSound db) (fresh : IsFresh (claim_id_of d) db) where
  Refines-as :
      (s : Step) (a : Action)
      → Decides a s
      → current_value identity s.1
        ≡ outcome a
            (λ old. filled_value policy old claim.value)
            claim.value
            (current_value identity db)
      → Refines policy claim identity db s
  Refines-as s a acts e dec t = rw (acts dec t) e

  added_value :
      (doc : ClaimDoc)
      → doc.identity_id ≡ identity
      → current_value identity (add_claim d doc db).1 ≡ some doc.value
  unfolding insert_claim
  added_value doc i =
      let new : get_latest_claim identity (add_claim d doc db).1 ≡ some (stored d doc db true) =
        rw (← i) (latest-added_self d doc db) in
      rw new refl

  confirmed_value :
      (p : MemoryProvenance) (current : Claim)
      → get_latest_claim identity db ≡ some current
      → current_value identity (confirm_current d p claim current db).1 ≡ current_value identity db
  unfolding confirmed
  confirmed_value p current e =
      rw (latest-confirmed db h d identity {current = current} e p claim, e) refl

  replaced_value :
      (action : Action) (reason : Reason) (doc : ClaimDoc) (current : Claim)
      → doc.identity_id ≡ identity
      → get_latest_claim identity db ≡ some current
      → current_value identity (replace_current sv d action reason doc current db).1
        ≡ some doc.value
  unfolding insert_claim
  replaced_value action reason doc current i e =
      let after = (replace_current sv d action reason doc current db).1 in
      let doc' = record doc { supersedes = some current.claim_id } in
      let new : get_latest_claim identity after ≡ some (stored d doc' db true) =
        rw (← i)
          (latest-replaced_self sv d action reason doc db h fresh {current = current} (rw i e)) in
      rw new refl

  refining_rules : Rules sv d identity claim policy db (Refines policy claim identity db)
  refining_rules = record {
    raises = λ e dec t. cc;
    rejects = λ reason.
        Refines-as (ok (rejected reason), db) reject (Decides-ok (rejected reason) db) refl;
    adds = λ doc i e.
        Refines-as (add_claim d doc db) Action.add (add_claim-Decides sv d doc db)
          (added_value doc i.identity_id ∙ ap some i.value);
    confirms = λ p current e t.
        Refines-as (confirm_current d p claim current db) confirm
          (confirm_current-Decides sv d current.doc db current p claim)
          (confirmed_value p current e);
    updates = λ doc current v i e t.
        let doc' = record doc { value = v } in
        Refines-as (replace_current sv d update fills_missing doc' current db) update
          (replace_current-Decides sv d doc' db current update fills_missing)
          (replaced_value update fills_missing doc' current i.identity_id e ∙ rw e (sym t));
    supersedes = λ newer statuses doc current i e s n t.
        let reason = if newer then newer_same_authority else higher_authority in
        Refines-as (replace_current sv d supersede reason doc current db) supersede
          (replace_current-Decides sv d doc db current supersede reason)
          (replaced_value supersede reason doc current i.identity_id e ∙ ap some i.value);
    conflicts = λ doc current i e.
        Refines-as (record_conflict d doc current db) conflict
          (record_conflict-Decides sv d doc db current)
          (ap value_of (latest-conflicted d doc current db identity));
  }

  -- The claims of another identity.
  framed_rules :
      (other : String)
      → identity ≢ other
      → Rules sv d identity claim policy db
          (λ s. get_latest_claim other s.1 ≡ get_latest_claim other db)
  framed_rules other ne = record {
    raises = λ e. refl;
    rejects = λ reason. refl;
    adds = λ doc i e. latest-added_other d doc db other (rw (i.identity_id) ne);
    confirms = λ p current e t.
        latest-confirmed_other db h d identity {current = current} e p claim other ne;
    updates = λ doc current v i e t.
        latest-replaced_other sv d update fills_missing (record doc { value = v }) db h fresh
          {current = current} (rw (i.identity_id) e) other (rw (i.identity_id) ne);
    supersedes = λ newer statuses doc current i e s n t.
        latest-replaced_other sv d supersede
          (if newer then newer_same_authority else higher_authority) doc db h fresh
          {current = current} (rw (i.identity_id) e) other (rw (i.identity_id) ne);
    conflicts = λ doc current i e. latest-conflicted d doc current db other;
  }

  -- The value is the old one, or the old one with missing keys filled.
  abbrev Keeps : Claim → Step → Type 0
  Keeps c s =
      (v : Json) × (current_value identity s.1 ≡ some v)
      × ((v ≡ c.value) ⊎ (filled_value policy c.value claim.value ≡ some v))

  same_claim :
      {c current : Claim}
      → get_latest_claim identity db ≡ some c
      → get_latest_claim identity db ≡ some current
      → current ≡ c
  same_claim {c} {current} e f = cc

  loses :
      (newer : Bool) (statuses : List String) (doc : ClaimDoc) (c : Claim)
      → IsDocOf identity claim doc
      → fact_authority claim.fact_status ≤ fact_authority c.fact_status
      → claim.confidence < c.confidence
      → (newer ≡ true → is_newer_same_authority_fact sv doc c.doc ≡ true)
      → wins newer statuses doc c ≡ false
  unfolding wins is_newer_same_authority_fact
  loses newer statuses doc c i a b n = ground (arith, i.fact_status, i.confidence)

  keeping_rules :
      (c : Claim)
      → get_latest_claim identity db ≡ some c
      → fact_authority claim.fact_status ≤ fact_authority c.fact_status
      → claim.confidence < c.confidence
      → Rules sv d identity claim policy db (Keeps c)
  keeping_rules c e0 a b = record {
    raises = λ e. (c.value, rw e0 refl, inl refl);
    rejects = λ reason. (c.value, rw e0 refl, inl refl);
    adds = λ doc i e. cc (e, e0);
    confirms = λ p current e t. (c.value, confirmed_value p current e ∙ rw e0 refl, inl refl);
    updates = λ doc current v i e t.
        let doc' = record doc { value = v } in
        (
          v,
          replaced_value update fills_missing doc' current i.identity_id e,
          inr (rw (← same_claim {c = c} {current = current} e0 e) t),
        );
    supersedes = λ newer statuses doc current i e s n t.
        let same = same_claim {c = c} {current = current} e0 e in
        let won : wins newer statuses doc c ≡ true = rw (← same) t in
        absurd (cc (won, loses newer statuses doc c i a b (rw (← same) n)));
    conflicts = λ doc current i e.
        (c.value, ap value_of (latest-conflicted d doc current db identity) ∙ rw e0 refl, inl refl);
  }

module _ (sv : Services) (st : Settings) (fields : FieldDb) (d : Draw) (ctx : RequestContext)
    (body : MemoryIngestRequest) (claim : MemoryClaimInput) (event_id : String) (db : ClaimDb)
    (h : IsSound db) (fresh : IsFresh (claim_id_of d) db) where
  abbrev field_policy_of : Fields
  field_policy_of = update_policy_of (get_active_by_name ctx claim.dimension fields)

  -- When `_ingest_one` returns a decision, the current value of the claim's identity is the one
  -- that the decision's action means: the claim's value after ADD and SUPERSEDE, the old value
  -- with its missing keys filled after UPDATE, and the old value after any other action.
  pub ingest_one-outcome :
      (dec : MemoryUpdateDecision)
      → (ingest_one sv st fields d ctx body claim event_id db).0 ≡ ok dec
      → current_value
          (identity_of sv ctx body claim)
          (ingest_one sv st fields d ctx body claim event_id db).1
        ≡ outcome dec.action
            (λ old. filled_value field_policy_of old claim.value)
            claim.value
            (current_value (identity_of sv ctx body claim) db)
  unfolding ingest_one
  ingest_one-outcome =
      let identity = identity_of sv ctx body claim in
      ingest_claim_rule (Refines field_policy_of claim identity db) sv st d ctx body claim event_id
        (get_active_by_name ctx claim.dimension fields) db
        (refining_rules sv d identity claim field_policy_of db h fresh)

  -- `_ingest_one` leaves the current document of every other identity as it was.
  pub ingest_one-frame :
      (other : String)
      → identity_of sv ctx body claim ≢ other
      → get_latest_claim other (ingest_one sv st fields d ctx body claim event_id db).1
        ≡ get_latest_claim other db
  unfolding ingest_one
  ingest_one-frame other ne =
      ingest_claim_rule (λ s. get_latest_claim other s.1 ≡ get_latest_claim other db) sv st d ctx
        body claim event_id (get_active_by_name ctx claim.dimension fields) db
        (framed_rules sv d (identity_of sv ctx body claim) claim field_policy_of db h fresh other
          ne)

  -- A claim of no higher authority and with less confidence than the current one never overwrites
  -- its value, whatever the field's policies say: the value stays, or its missing keys are filled.
  pub ingest_one-weak :
      (c : Claim)
      → get_latest_claim (identity_of sv ctx body claim) db ≡ some c
      → fact_authority claim.fact_status ≤ fact_authority c.fact_status
      → claim.confidence < c.confidence
      → (v : Json) × (current_value
            (identity_of sv ctx body claim)
            (ingest_one sv st fields d ctx body claim event_id db).1
          ≡ some v)
        × ((v ≡ c.value) ⊎ (filled_value field_policy_of c.value claim.value ≡ some v))
  unfolding ingest_one
  ingest_one-weak c e a b =
      let identity = identity_of sv ctx body claim in
      ingest_claim_rule (Keeps sv d identity claim field_policy_of db h fresh c) sv st d ctx body
        claim event_id (get_active_by_name ctx claim.dimension fields) db
        (keeping_rules sv d identity claim field_policy_of db h fresh c e a b)
