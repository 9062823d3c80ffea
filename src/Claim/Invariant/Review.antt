-- ===== src/Claim/Invariant/Review.antt =====
-- `revoke` and `resolve_conflict` keep the claim collections sound.
use hojo_memory_engine.Prelude.{
  ◌∙◌, ℕ, ◌≤◌, ◌≡◌, refl, String, true, false, some, count, find, update_one, Holds, ◌==◌, nat_eq,
  string_eq, eq_iff, arith, if-intro, maybe-intro, Bool-cases, Option-cases, inl, inr,
  count-update_one, count-pos, find-eq-some, find-update_one_other,
}
use hojo_memory_engine.Result.{Result, ok, err, not_found}
use hojo_memory_engine.Context.{RequestContext}
use hojo_memory_engine.Claim.Types.{
  Claim, LifecycleStatus, Resolution, accept, reject_claim, Review, active, superseded, revoked,
  is_active, is_conflicted,
}
use hojo_memory_engine.Claim.Store.{
  upsert, delete, ClaimDb, current_of, has_id, get_claim, get_latest_claim, mark_claim_status,
  marked,
}
use hojo_memory_engine.Claim.Review.{
  revoking, revoke, reviewed, replaced_by, retire, accept_claim, resolve_conflict,
}
use hojo_memory_engine.Claim.Invariant.{IsSound, is_torn}
use hojo_memory_engine.Claim.Invariant.Mark.{
  KeepsKeys, lowered-IsIndexed, update_one-IsIndexed, update_one_untorn, find_stored,
}
use hojo_memory_engine.Claim.Invariant.Steps.{
  index-IsSound, find_latest, no_current, latest_current,
}

-- Marking a document with a status that is not `active` and making it not current.
retired-IsSound :
    (now : ℕ) (cid : String) (status : LifecycleStatus) (extra : Claim → Claim) (db : ClaimDb)
    → KeepsKeys (marked now status extra)
    → ((c : Claim) → (marked now status extra c).is_current ≡ false)
    → ((c : Claim) → is_active (marked now status extra c).lifecycle_status ≡ false)
    → IsSound db
    → IsSound (mark_claim_status now cid status extra db)
unfolding mark_claim_status
retired-IsSound now cid status extra db k off gone h =
    let f = marked now status extra in
    record {
      indexed = lowered-IsIndexed cid f k db h.indexed (λ c e. cc (off c));
      untorn =
          update_one_untorn cid f k db h.indexed h.untorn (λ c e. ground (arith, off c, gone c));
    }

-- `revoke` keeps sound collections sound, whichever claim it names and whatever it returns.
pub revoke-IsSound :
    (now : ℕ) (ctx : RequestContext) (cid reason : String) (db : ClaimDb)
    → IsSound db
    → IsSound (revoke now ctx cid reason db).1
unfolding revoke
revoke-IsSound now ctx cid reason db h =
    maybe-intro (λ (s : Result (Unit {0}) × ClaimDb). IsSound s.1)
      (get_claim ctx.tenant_id ctx.org_id cid db) (err _, db) _ (λ _. h)
      λ c _.
        index-IsSound (delete cid) (mark_claim_status now cid revoked (revoking ctx reason) db) (
          retired-IsSound now cid revoked (revoking ctx reason) db
            (record {
              claim_id = λ c. refl;
              identity_id = λ c. refl;
              revision = λ c. refl;
              deleted = λ c. refl;
            })
            (λ c. refl) (λ c. refl) h)

-- A stored document of a sound store is not torn.
pub stored-untorn :
    (db : ClaimDb) → IsSound db → (c : Claim) → Holds db.claims c → is_torn c ≡ false
stored-untorn db h c held = elim (Bool-cases (is_torn c)) [
  | inl t ↦ absurd (omega (arith, h.untorn, count-pos is_torn db.claims {x = c} held t))
  | inr t ↦ t
]

-- A conflicted claim, before and after the current one of its identity has given way.
record IsReady (claim : Claim) (db : ClaimDb) : Type 0 where
  sound : IsSound db
  vacant : count (current_of claim.identity_id) db.claims ≡ 0
  found : find (has_id claim.claim_id) db.claims ≡ some claim

module _ (now : ℕ) (claim : Claim) (db : ClaimDb) (h : IsSound db) (held : Holds db.claims claim)
    (waits : claim.is_current ≡ false) where
  apart :
      (current : Claim)
      → get_latest_claim claim.identity_id db ≡ some current
      → (current.claim_id == claim.claim_id) ≡ false
  apart current e = elim (Bool-cases (current.claim_id == claim.claim_id)) [
    | inl t ↦
        let c = latest_current claim.identity_id db {c = current} e in
        ground (
          arith,
          eq_iff current.claim_id claim.claim_id,
          find_stored db h.indexed {c = claim} held,
          find_latest claim.identity_id db h.indexed {c = current} e,
          c.0,
        )
    | inr t ↦ t
  ]

  retire_current :
      (current : Claim)
      → get_latest_claim claim.identity_id db ≡ some current
      → IsReady claim (retire now claim.claim_id (some current) db)
  unfolding retire
  retire_current current e =
      let f = marked now superseded (replaced_by claim.claim_id) in
      let k : KeepsKeys f = record {
        claim_id = λ c. refl;
        identity_id = λ c. refl;
        revision = λ c. refl;
        deleted = λ c. refl;
      } in
      let ne = apart current e in
      rw ne (record {
        sound =
            retired-IsSound now current.claim_id superseded (replaced_by claim.claim_id) db k
              (λ c. refl) (λ c. refl) h;
        vacant = ground (
          arith,
          latest_current claim.identity_id db {c = current} e,
          h.one_current claim.identity_id,
          count-update_one (has_id current.claim_id) f (current_of claim.identity_id) db.claims
              {x = current} (find_latest claim.identity_id db h.indexed {c = current} e),
        );
        found =
            find-update_one_other (has_id current.claim_id) f (has_id claim.claim_id)
              (λ x t. ground (
                arith,
                eq_iff x.claim_id current.claim_id,
                eq_iff x.claim_id claim.claim_id,
                eq_iff current.claim_id claim.claim_id,
              ))
              db.claims
            ∙ find_stored db h.indexed {c = claim} held;
      })

  retire-IsReady :
      IsReady claim (retire now claim.claim_id (get_latest_claim claim.identity_id db) db)
  unfolding retire
  retire-IsReady = elim (Option-cases (get_latest_claim claim.identity_id db)) [
    | inl e ↦ rw e (record {
      sound = h;
      vacant = no_current claim.identity_id db e;
      found = find_stored db h.indexed {c = claim} held;
    })
    | inr (current, e) ↦ rw e (retire_current current e)
  ]

module _ (now : ℕ) (review : Review) (claim : Claim) (db : ClaimDb) (r : IsReady claim db)
    (waits : claim.is_current ≡ false) where
  abbrev f : Claim → Claim
  f = marked now active (reviewed review true)

  one_after :
      (i : String) → count (current_of i) (update_one (has_id claim.claim_id) f db.claims) ≤ 1
  one_after i = ground (
    arith,
    count-update_one (has_id claim.claim_id) f (current_of i) db.claims {x = claim} r.found,
    eq_iff claim.identity_id i,
    r.vacant,
    r.sound.one_current i,
  )

  activated-IsSound :
      IsSound (mark_claim_status now claim.claim_id active (reviewed review true) db)
  unfolding mark_claim_status
  activated-IsSound = record {
    indexed =
        update_one-IsIndexed claim.claim_id f
          (record {
            claim_id = λ c. refl;
            identity_id = λ c. refl;
            revision = λ c. refl;
            deleted = λ c. refl;
          })
          db r.sound.indexed one_after;
    untorn = ground (
      arith,
      r.sound.untorn,
      count-update_one (has_id claim.claim_id) f is_torn db.claims {x = claim} r.found,
    );
  }

-- What `get_claim` returns is stored.
get_claim-held :
    (tenant org : ℕ) (cid : String) (db : ClaimDb) {c : Claim}
    → get_claim tenant org cid db ≡ some c
    → Holds db.claims c
unfolding get_claim
get_claim-held tenant org cid db {c} e = (find-eq-some _ db.claims {x = c} e).1

accept_claim-IsSound :
    (now : ℕ) (ctx : RequestContext) (review : Review) (claim : Claim) (db : ClaimDb)
    → IsSound db
    → Holds db.claims claim
    → is_conflicted claim.lifecycle_status ≡ true
    → IsSound (accept_claim now ctx review claim db)
unfolding accept_claim
accept_claim-IsSound now ctx review claim db h held c =
    let waits : claim.is_current ≡ false = ground (arith, stored-untorn db h claim held) in
    let r = retire-IsReady now claim db h held waits in
    let db' = retire now claim.claim_id (get_latest_claim claim.identity_id db) db in
    let done = activated-IsSound now review claim db' r waits in
    let db'' = mark_claim_status now claim.claim_id active (reviewed review true) db' in
    maybe-intro IsSound (get_claim ctx.tenant_id ctx.org_id claim.claim_id db'') db'' _ (λ _. done)
      λ refreshed _. index-IsSound (upsert refreshed.claim_id) db'' done

abbrev AfterReview : Result (Unit {0}) × ClaimDb → Type 0
AfterReview s = IsSound s.1

resolve_found :
    (now : ℕ) (ctx : RequestContext) (cid : String) (resolution : Resolution) (review : Review)
    (claim : Claim) (db : ClaimDb)
    → IsSound db
    → Holds db.claims claim
    → is_conflicted claim.lifecycle_status ≡ true
    → AfterReview (elim resolution [
      | reject_claim ↦ (ok tt, mark_claim_status now cid revoked (reviewed review false) db)
      | accept ↦ (ok tt, accept_claim now ctx review claim db)
    ])
resolve_found now ctx cid accept review claim db h held c =
    accept_claim-IsSound now ctx review claim db h held c
resolve_found now ctx cid reject_claim review claim db h held c =
    retired-IsSound now cid revoked (reviewed review false) db
      (record {
        claim_id = λ c. refl;
        identity_id = λ c. refl;
        revision = λ c. refl;
        deleted = λ c. refl;
      })
      (λ c. refl) (λ c. refl) h

-- `resolve_conflict` keeps sound collections sound, whichever claim it names, whatever the
-- resolution is and whatever it returns.
pub resolve_conflict-IsSound :
    (now : ℕ) (ctx : RequestContext) (cid : String) (resolution : Resolution) (reason : String)
    (db : ClaimDb)
    → IsSound db
    → IsSound (resolve_conflict now ctx cid resolution reason db).1
unfolding resolve_conflict
resolve_conflict-IsSound now ctx cid resolution reason db h =
    maybe-intro AfterReview (get_claim ctx.tenant_id ctx.org_id cid db) (err not_found, db) _
      (λ _. h)
      λ claim e.
        if-intro AfterReview (is_conflicted claim.lifecycle_status) _ _
          (λ c.
            resolve_found now ctx cid resolution _ claim db h
              (get_claim-held ctx.tenant_id ctx.org_id cid db {c = claim} e) c)
          λ _. h
