-- ===== src/Claim/Review.antt =====
-- services/memory_claim.py: `revoke` and `resolve_conflict`.
use hojo_memory_engine.Prelude.{
  maybe, ℕ, String, Bool, true, false, Option, none, some, ◌==◌, string_eq, if◌then◌else◌,
}
use hojo_memory_engine.Result.{Result, ok, err, not_found, validation}
use hojo_memory_engine.Context.{RequestContext}
use hojo_memory_engine.Claim.Types.{
  Claim, Resolution, accept, reject_claim, Review, active, superseded, revoked, is_conflicted,
}
use hojo_memory_engine.Claim.Store.{
  ClaimDb, upsert, delete, get_claim, get_latest_claim, mark_claim_status,
}
use hojo_memory_engine.Claim.Engine.{index}

abbrev pub revoking : RequestContext → String → Claim → Claim
revoking ctx reason c = record c {
  doc = record c.doc { revoke_reason = some reason; revoked_by = ctx.user_id };
  is_current = false;
}

unfoldable pub revoke : ℕ → RequestContext → String → String → ClaimDb → Result (Unit {0}) × ClaimDb
unfolding get_claim mark_claim_status
revoke now ctx claim_id reason db =
    maybe (get_claim ctx.tenant_id ctx.org_id claim_id db) (err not_found, db)
      λ _. (
        ok tt,
        index (delete claim_id) (mark_claim_status now claim_id revoked (revoking ctx reason) db),
      )

abbrev pub reviewed : Review → Bool → Claim → Claim
reviewed r current c = record c { doc = record c.doc { review = some r }; is_current = current }

abbrev pub replaced_by : String → Claim → Claim
replaced_by claim_id c = record c {
  doc = record c.doc { superseded_by = some claim_id };
  is_current = false;
}

-- The current claim of the identity gives way, unless it is the accepted one.
unfoldable pub retire : ℕ → String → Option Claim → ClaimDb → ClaimDb
unfolding mark_claim_status
retire now claim_id none db = db
retire now claim_id (some current) db =
    if current.claim_id == claim_id
    then db
    else mark_claim_status now current.claim_id superseded (replaced_by claim_id) db

unfoldable pub accept_claim : ℕ → RequestContext → Review → Claim → ClaimDb → ClaimDb
unfolding get_claim get_latest_claim mark_claim_status retire
accept_claim now ctx review claim db =
    let db' = retire now claim.claim_id (get_latest_claim claim.identity_id db) db in
    let db'' = mark_claim_status now claim.claim_id active (reviewed review true) db' in
    maybe (get_claim ctx.tenant_id ctx.org_id claim.claim_id db'') db''
      λ refreshed. index (upsert refreshed.claim_id) db''

unfoldable pub resolve_conflict :
    ℕ → RequestContext → String → Resolution → String → ClaimDb → Result (Unit {0}) × ClaimDb
unfolding get_claim mark_claim_status accept_claim
resolve_conflict now ctx claim_id resolution reason db =
    let review : Review = record {
      review_resolution = resolution;
      review_reason = reason;
      reviewed_by = ctx.user_id;
    } in
    maybe (get_claim ctx.tenant_id ctx.org_id claim_id db) (err not_found, db)
      λ claim.
        if is_conflicted claim.lifecycle_status
        then elim resolution [
          | reject_claim ↦
              (ok tt, mark_claim_status now claim_id revoked (reviewed review false) db)
          | accept ↦ (ok tt, accept_claim now ctx review claim db)
        ]
        else (err validation, db)
