-- ===== src/Retrieval/Tests.antt =====
-- services/memory_v2_retrieve.py on a bundle of one claim.
use hojo_memory_engine.Samples.{services}
use hojo_memory_engine.Prelude.{
  Bool, ℕ, ◌≤◌, ◌≡◌, refl, String, false, none, some, List, [], ◌∷◌, ◌++◌, count, filter, length,
  arith, maybe,
}
use hojo_memory_engine.Json.{pos, int, end, field, get}
use hojo_memory_engine.Json.Number.{to_int}
use hojo_memory_engine.Result.{ok, err, not_found, forbidden}
use hojo_memory_engine.Services.{aware}
use hojo_memory_engine.Claim.Types.{Sensitivity}
use hojo_memory_engine.Claim.Store.{ClaimDb, empty_db}
use hojo_memory_engine.Claim.Listing.{in_view, list_current_claims}
use hojo_memory_engine.Policy.{
  covers_permission, permission_granted, matches, ensure_retrieve_permission, in_namespace,
  is_usable, has_expired, is_permitted, from_meeting, fits_scope, exclusion_of, filter_claims,
}
use hojo_memory_engine.Policy.Tests.{claim_of, caller}
use hojo_memory_engine.Retrieval.{
  MemoryBundle, MemoryCallV2Request, MemoryCallV2Response, Runtime, get_bundle, bundle_scope,
  bundle_caller, bundle_limit, authorized_ids, is_subset, fill, complete, respond, consume, call,
}
use hojo_memory_engine.Retrieval.Authorized.{IsAuthorized, call-IsAuthorized}
use hojo_memory_engine.Retrieval.Available.{call-available}
use hojo_memory_engine.Retrieval.Diversity.{
  evidence_group_key, place_claim, place_all, diversify_by_evidence_group,
}
use hojo_memory_engine.Retrieval.Diversity.Spread.{in_group, diversify_by_evidence_group-reorders}
use hojo_memory_engine.Retrieval.Selection.{
  Ranked, Limits, multifacet, max_increment_items, estimate_tokens, claim_min_score, pick, select,
}

program : Unit {0}
unfolding maybe to_int in_view list_current_claims covers_permission permission_granted matches
    ensure_retrieve_permission in_namespace is_usable has_expired is_permitted from_meeting
    fits_scope exclusion_of filter_claims get_bundle bundle_scope bundle_caller bundle_limit
    authorized_ids is_subset fill complete respond consume call max_increment_items estimate_tokens
    claim_min_score pick select evidence_group_key place_claim place_all diversify_by_evidence_group
program = tt

abbrev run : Runtime
run = record {
  dumps = λ items. "memory";
  replace = λ template slot context. context;
  chat_completion = λ llm prompt. ok ("answer", 3, 4);
  openai_model = "model";
  disable_auth = false;
}

abbrev request : MemoryCallV2Request
request = record {
  bundle_id = "mb_1";
  module_id = "crm";
  prompt_template = "<memory_context>";
  slot = "<memory_context>";
  use_llm = false;
  llm = none;
}

abbrev bundle : MemoryBundle
bundle = record {
  bundle_id = "mb_1";
  tenant_id = 1;
  org_id = 1;
  user_id = "u";
  usage_context = caller.usage;
  claim_ids = "mc_1" ∷ [];
  items = [];
  expires_at = aware 9;
}

abbrev held : ClaimDb
held = record empty_db { claims = claim_of Sensitivity.internal "mc_1" ∷ [] }

abbrev filled : MemoryCallV2Response
filled = record { result = "memory"; filled_prompt = "memory"; bundle_id = "mb_1" }

answers : call services run 5 5 caller.ctx request (bundle ∷ []) held ≡ ok (filled, none)
unfolding program
answers = refl

expires : call services run 9 9 caller.ctx request (bundle ∷ []) held ≡ err not_found
unfolding program
expires = refl

-- The claim has been revoked since.
refuses : call services run 5 5 caller.ctx request (bundle ∷ []) empty_db ≡ err forbidden
unfolding program
refuses = refl

call-IsAuthorized_example :
    (b : MemoryBundle) × (get_bundle 1 1 "mb_1" (bundle ∷ []) ≡ some b)
    × IsAuthorized services run 5 5 caller.ctx request held b
    × (filled.filled_prompt ≡ fill run request b)
call-IsAuthorized_example =
    call-IsAuthorized services run 5 5 caller.ctx request held (bundle ∷ []) filled none answers

found : get_bundle 1 1 "mb_1" (bundle ∷ []) ≡ some bundle
unfolding program
found = refl

authorized : IsAuthorized services run 5 5 caller.ctx request held bundle
unfolding program
authorized = record { live = refl; own = refl; granted = refl; claims = (refl, tt) }

within :
    length (filter (in_view (bundle_scope caller.ctx bundle)) held.claims) ≤ bundle_limit bundle
unfolding program
within = omega arith

call-available_example :
    call services run 5 5 caller.ctx request (bundle ∷ []) held
    ≡ ok (
      record {
        result = fill run request bundle;
        filled_prompt = fill run request bundle;
        bundle_id = "mb_1";
      },
      none,
    )
call-available_example =
    call-available services run 5 5 caller.ctx request held bundle within (bundle ∷ []) found
      authorized refl

abbrev ranked : ℕ → String → Ranked
ranked score claim_id = record {
  claim = claim_of Sensitivity.internal claim_id;
  score = pos score;
  usage = none;
  reason = none;
}

abbrev limits : Limits
limits = record {
  max_items = 1;
  max_tokens = 100;
  min_score = 5;
  usage_mode = "background";
  shorten = λ s. s;
}

abbrev offered : List Ranked
offered = ranked 8 "mc_1" ∷ ranked 2 "mc_2" ∷ ranked 7 "mc_3" ∷ []

limited :
    max_increment_items services multifacet 8 12 12 (field "max_increment_items" (int (pos 3)) end)
    ≡ ok 8
unfolding program get
limited = refl

abbrev from_meeting_a : String → Ranked
from_meeting_a claim_id = record (ranked 8 claim_id) {
  claim = record (claim_of Sensitivity.internal claim_id) {
    doc = record (claim_of Sensitivity.internal claim_id).doc {
      provenance =
          record {
            source_type = "meeting";
            source_id = none;
            meeting_id = some "a";
            segment_id = none;
            speaker_id = none;
            speaker_role = none;
            evidence = none;
            occurred_at = none;
          }
          ∷ [];
    };
  };
}

abbrev crowded : List Ranked
crowded = from_meeting_a "mc_1" ∷ from_meeting_a "mc_2" ∷ ranked 7 "mc_3" ∷ []

defers :
    diversify_by_evidence_group 1 crowded
    ≡ (from_meeting_a "mc_1" ∷ ranked 7 "mc_3" ∷ from_meeting_a "mc_2" ∷ [], 1)
unfolding program
defers = refl

diversify_by_evidence_group-reorders_example :
    let (out, deferred) = diversify_by_evidence_group 1 crowded in
    ((p : Ranked → Bool) → count p out ≡ count p crowded)
    × ((chosen rest : List Ranked) × (out ≡ chosen ++ rest)
        × (length rest ≡ deferred)
        × ((g : String) → count (in_group g) chosen ≤ 1))
diversify_by_evidence_group-reorders_example =
    diversify_by_evidence_group-reorders 1 crowded (omega arith)
