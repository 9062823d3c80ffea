-- ===== src/Candidate/Tests.antt =====
-- services/memory_candidate.py against one current claim.
use hojo_memory_engine.Samples.{services, context}
use hojo_memory_engine.Prelude.{◌≡◌, refl, String, some, [], ◌∷◌}
use hojo_memory_engine.Text.{without_spaces}
use hojo_memory_engine.Json.{pos, str, float, arr, obj, nil, cons, Fields, end, field}
use hojo_memory_engine.Result.{ok, err, validation}
use hojo_memory_engine.Claim.Listing.{in_view, list_current_claims}
use hojo_memory_engine.Claim.Tests.{program as claims, one_claim}
use hojo_memory_engine.Candidate.{
  CompareRequest, merge, CompareResponse, text_of, normalized_text, matched_ids, preview_of,
  confidence_of, judge, claim_content, claim_to_existing, existing_items, compare_candidate,
}
use hojo_memory_engine.Candidate.Grounded.{IsGrounded, compare_candidate-IsGrounded}

program : Unit {0}
unfolding claims in_view list_current_claims without_spaces text_of normalized_text matched_ids
    preview_of confidence_of judge claim_content claim_to_existing existing_items compare_candidate
program = tt

abbrev proposal : CompareRequest
proposal = record {
  user_id = "u";
  content = "the budget is 6000";
  sensitivity = "normal";
  namespace_type = "deal";
  namespace_id = "d1";
  candidate_limit = 40;
}

-- An answer that names one memory, and proposes a merge into another or the same.
abbrev merge_into : String → String → Fields
merge_into id base = field "result" (str "MERGE") (
    field "matched_item_ids" (arr (cons (str id) nil)) (
      field "confidence" (float (pos 0)) (
        field "merge_preview"
          (obj (field "base_item_id" (str base) (field "content" (str "both") end))) end)))

invents :
    compare_candidate services context (ok (merge_into "mc_x" "mc_x")) proposal one_claim
    ≡ err validation
unfolding program
invents = refl

abbrev merged : CompareResponse
merged = record {
  result = merge;
  confidence = 0;
  matched_item_ids = "mc_a" ∷ [];
  reason_code = "MERGE";
  merge_preview =
      some (record { preview_content = "both"; base_item_id = "mc_a"; base_version = 1 });
}

merges :
    compare_candidate services context (ok (merge_into "mc_a" "mc_a")) proposal one_claim
    ≡ ok merged
unfolding program
merges = refl

compare_candidate-IsGrounded_example :
    IsGrounded (existing_items services context proposal one_claim) merged
compare_candidate-IsGrounded_example =
    compare_candidate-IsGrounded services context (ok (merge_into "mc_a" "mc_a")) proposal one_claim
      merged merges
