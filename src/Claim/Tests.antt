-- ===== src/Claim/Tests.antt =====
-- The engine of services/memory_claim.py on concrete requests.
mod Queries
use hojo_memory_engine.Samples.{services, context}
use hojo_memory_engine.Prelude.{
  ℕ, ◌+◌, ◌≤◌, ◌<◌, ◌≡◌, ◌≢◌, refl, ap, String, Bool, true, false, Option, none, some, List, [],
  ◌∷◌, ◌⊎◌, inl, inr, arith, filter, ◌&&◌, contains, String-discrete, maybe, count, ◌==◌, string_eq,
}
use mathlib.Core.Bool.{decide}
use native.Mathlib.Decide.{ℕ_discrete}
use text.Mathlib.TextLemmas.{append_cancel_left}
use hojo_memory_engine.Json.Object.{IsDict}
use hojo_memory_engine.Text.{clip, strip, lstrip, rstrip, replace_z}
use hojo_memory_engine.Json.{
  ℤ, pos, Json, null, str, int, obj, Fields, end, field, get, put, merge, values_equal, canonical,
  Json-discrete,
}
use hojo_memory_engine.Json.Number.{to_float}
use hojo_memory_engine.Result.{Result, ok, err, type_error, on_ok}
use hojo_memory_engine.Context.{RequestContext}
use hojo_memory_engine.Services.{Services, Datetime}
use hojo_memory_engine.Field.{
  MemoryField, FieldDb, get_active_by_name, from_cache, select_active, valid_update_policy,
}
use hojo_memory_engine.Claim.Types.{
  Claim, ClaimDoc, MemoryNamespace, MemoryClaimInput, MemorySourceEventInput, MemoryIngestRequest,
  MemoryUpdateDecision, Action, FactStatus, stated, opinion, Resolution, accept,
  Provenance-discrete, Reason, LifecycleStatus,
}
use hojo_memory_engine.Claim.Store.{
  ClaimDb, empty_db, save_source_event, insert_claim, allocate_revision, mark_claim_status,
  confirm_claim, confirmed, get_claim, get_latest_claim, claim_identity_id, identity_raw,
  namespace_key, ◌⊕◌,
}
use hojo_memory_engine.Claim.Time.{
  parse_event_time, observed, fact_time, is_newer_same_authority_fact, fact_authority, truthy, flag,
  auto_supersede_statuses, status_set,
}
use hojo_memory_engine.Claim.Engine.{
  Draw, Settings, default_access_policy, provenance_of, resolve_access_policy, claim_doc, agrees,
  covers, non_conflicting_object_update, add_claim, confirm_current, replace_current,
  record_conflict, wins, contest_among, contest, filled_value, revise, field_allows, min_confidence,
  store_claim, ingest_claim, ingest_one, ingest_all, ingest,
}
use hojo_memory_engine.Claim.Review.{revoke, resolve_conflict, accept_claim, retire}
use hojo_memory_engine.Claim.Rules.{identity_of}
use hojo_memory_engine.Claim.View.{current_value, outcome}
use hojo_memory_engine.Claim.View.Outcome.{ingest_one-outcome, ingest_one-frame, ingest_one-weak}
use hojo_memory_engine.Claim.View.Fill.{Has, non_conflicting_object_update-keeps}
use hojo_memory_engine.Claim.Invariant.{IsSound, IsFresh}
use hojo_memory_engine.Claim.Invariant.Ingest.{AreFresh, claim_id_of, ingest_one-IsSound}
use hojo_memory_engine.Claim.Invariant.Review.{revoke-IsSound, resolve_conflict-IsSound}
use hojo_memory_engine.Claim.Invariant.Run.{Request, Reach, Reach-IsSound, ingest-IsSound}
use hojo_memory_engine.Claim.Identity.{ns_of, claim_identity_id-shift}
use hojo_memory_engine.Claim.Threshold.{
  valid_update_policy-min_confidence, null_min_confidence-raises,
}
use hojo_memory_engine.Claim.Listing.{
  Scope, in_view, distinct_keys, list_current_claims, list_current_claims_by_ids,
  list_current_claims_matching_phrases, list_current_claims_matching_terms,
  list_current_claim_evidence_neighbors, list_history,
}
use hojo_memory_engine.Claim.Listing.Visible.{
  IsListing, IsHistory, list_current_claims-IsListing, lexical-IsListing, neighbors-IsListing,
  list_current_claims_by_ids-exact, list_history-IsHistory,
}

unfoldable pub program : Unit {0}
unfolding decide ℕ_discrete clip strip lstrip rstrip replace_z get put merge values_equal canonical
    Json-discrete to_float on_ok maybe String-discrete get_active_by_name from_cache select_active
    Provenance-discrete save_source_event insert_claim allocate_revision mark_claim_status
    confirm_claim confirmed get_claim get_latest_claim claim_identity_id identity_raw namespace_key
    parse_event_time observed fact_time is_newer_same_authority_fact fact_authority truthy flag
    auto_supersede_statuses status_set provenance_of resolve_access_policy claim_doc agrees covers
    non_conflicting_object_update add_claim confirm_current replace_current record_conflict wins
    contest_among contest filled_value revise field_allows min_confidence store_claim ingest_claim
    ingest_one ingest_all ingest revoke resolve_conflict accept_claim retire valid_update_policy
    in_view distinct_keys list_history
program = tt

abbrev pub settings : Settings
settings = record { memory_claim_min_confidence = 50 }

abbrev pub fields : FieldDb
fields = record { rows = []; next_id = 1; cache = λ t o n. none; published = [] }

abbrev pub claim_of : Json → FactStatus → ℕ → MemoryClaimInput
claim_of v status confidence = record {
  dimension = "budget";
  claim_type = "fact";
  claim_key = "total";
  value = v;
  text = "the budget";
  fact_status = status;
  confidence = confidence;
  importance = 3;
  access_policy = none;
  effective_at = none;
  expires_at = none;
}

abbrev event : MemorySourceEventInput
event = record {
  event_id = some "e1";
  source_type = "meeting";
  source_id = none;
  meeting_id = some "m1";
  segment_id = none;
  speaker_id = none;
  speaker_role = none;
  raw_text = none;
  occurred_at = none;
}

abbrev pub first : MemoryClaimInput
first = claim_of (str "100") stated 90

-- Weaker evidence for another value.
abbrev pub second : MemoryClaimInput
second = claim_of (str "200") opinion 60

abbrev pub body : MemoryIngestRequest
body = record {
  user_id = "u";
  namespace = ns_of "deal" "d1";
  source_event = event;
  claims = first ∷ second ∷ [];
}

-- Texts of different lengths.
abbrev hex_of : ℕ → String
hex_of ℕ.zero = ""
hex_of (ℕ.suc n) = String.◌∷◌ "a" (hex_of n)

abbrev size : String → ℕ
size String.[] = 0
size (String.◌∷◌ c s) = size s + 1

size-hex_of : (n : ℕ) → size (hex_of n) ≡ n
size-hex_of ℕ.zero = refl
size-hex_of (ℕ.suc n) = omega (arith, size-hex_of n)

ids_apart : (j k : ℕ) → j < k → ("mc_" ⊕ hex_of j) ≢ ("mc_" ⊕ hex_of k)
ids_apart j k lt e =
    let same = ap size (append_cancel_left "mc_" (hex_of j) (hex_of k) e) in
    omega (arith, same, size-hex_of j, size-hex_of k)

abbrev pub draw : ℕ → Draw
draw n = record { now = n; uuid = hex_of n }

abbrev pub one_claim : ClaimDb
one_claim = (ingest_one services settings fields (draw 1) context body first "e1" empty_db).1

identity : String
identity = identity_of services context body first

empty-IsSound : IsSound empty_db
empty-IsSound = omega arith

one_claim-IsSound : IsSound one_claim
one_claim-IsSound =
    ingest_one-IsSound services settings fields draw context body "e1" 1 first empty_db
      empty-IsSound refl

second-IsFresh : IsFresh (claim_id_of (draw 2)) one_claim
unfolding program
second-IsFresh = refl

abbrev conflicting : MemoryUpdateDecision
conflicting = record {
  action = Action.conflict;
  claim_id = some (claim_id_of (draw 2));
  previous_claim_id = some (claim_id_of (draw 1));
  reason = Reason.lacks_authority;
  lifecycle_status = some LifecycleStatus.conflicted;
}

-- The second value conflicts with the first.
decides :
    (ingest_one services settings fields (draw 2) context body second "e1" one_claim).0
    ≡ ok conflicting
unfolding program
decides = refl

ingest_one-outcome_example :
    current_value
      (identity_of services context body second)
      (ingest_one services settings fields (draw 2) context body second "e1" one_claim).1
    ≡ current_value (identity_of services context body second) one_claim
ingest_one-outcome_example =
    ingest_one-outcome services settings fields (draw 2) context body second "e1" one_claim
      one_claim-IsSound second-IsFresh conflicting decides

other_identity : identity_of services context body second ≢ "other"
unfolding program
other_identity e = cc

ingest_one-frame_example :
    get_latest_claim "other"
      (ingest_one services settings fields (draw 2) context body second "e1" one_claim).1
    ≡ get_latest_claim "other" one_claim
ingest_one-frame_example =
    ingest_one-frame services settings fields (draw 2) context body second "e1" one_claim
      one_claim-IsSound second-IsFresh "other" other_identity

abbrev first_stored : Claim
first_stored =
    (insert_claim 1 (draw 1).uuid
      (claim_doc services context body first "e1" default_access_policy none) true empty_db).0

latest_first :
    get_latest_claim (identity_of services context body second) one_claim ≡ some first_stored
unfolding program
latest_first = refl

weaker : fact_authority second.fact_status ≤ fact_authority first_stored.fact_status
unfolding program
weaker = omega arith

less_confident : second.confidence < first_stored.confidence
unfolding program
less_confident = omega arith

ingest_one-weak_example :
    (v : Json) × (current_value
        (identity_of services context body second)
        (ingest_one services settings fields (draw 2) context body second "e1" one_claim).1
      ≡ some v)
    × ((v ≡ first_stored.value) ⊎ (filled_value end first_stored.value second.value ≡ some v))
unfolding get_active_by_name maybe from_cache select_active
ingest_one-weak_example =
    ingest_one-weak services settings fields (draw 2) context body second "e1" one_claim
      one_claim-IsSound second-IsFresh first_stored latest_first weaker less_confident

abbrev old_object : Fields
old_object = field "low" (int (pos 1)) (field "high" (int (pos 3)) end)

abbrev new_object : Fields
new_object = field "high" (int (pos 3)) (field "unit" (str "k") end)

fills :
    non_conflicting_object_update (obj old_object) (obj new_object)
    ≡ some
        (obj (field "low" (int (pos 1)) (field "high" (int (pos 3)) (field "unit" (str "k") end))))
unfolding program
fills = refl

is_dict : IsDict new_object
unfolding program
is_dict = (refl, (refl, tt))

non_conflicting_object_update-keeps_example :
    (fs : Fields) × (obj
        (field "low" (int (pos 1)) (field "high" (int (pos 3)) (field "unit" (str "k") end)))
      ≡ obj fs)
    × ((k : String) (v : Json)
        → (get k old_object ≡ some v) ⊎ (get k new_object ≡ some v)
        → Has k v fs)
non_conflicting_object_update-keeps_example =
    non_conflicting_object_update-keeps old_object new_object
      (obj (field "low" (int (pos 1)) (field "high" (int (pos 3)) (field "unit" (str "k") end))))
      is_dict fills

draws-AreFresh : AreFresh draw 1 empty_db
draws-AreFresh = record { unused = λ k le. refl; apart = ids_apart }

-- Both claims are stored, the second one as a conflict, which a reviewer then accepts.
abbrev pub two_claims : ClaimDb
two_claims = (ingest services settings fields draw context body empty_db).1

pub two_claims-IsSound : IsSound two_claims
two_claims-IsSound =
    Reach-IsSound services settings {db = two_claims}
      (Reach.next Reach.start (Request.ingests fields draw context body draws-AreFresh))

abbrev resolved : ClaimDb
resolved = (resolve_conflict 9 context (claim_id_of (draw 2)) accept "checked" two_claims).1

reached : Reach services settings resolved
reached =
    Reach.next (Reach.next Reach.start (Request.ingests fields draw context body draws-AreFresh))
      (Request.resolves 9 context (claim_id_of (draw 2)) accept "checked")

Reach-IsSound_example : IsSound resolved
Reach-IsSound_example = Reach-IsSound services settings {db = resolved} reached

-- The accepted claim is the current one.
accepted : current_value (identity_of services context body second) resolved ≡ some (str "200")
unfolding program
accepted = refl

claim_identity_id-shift_example :
    claim_identity_id services 1 1 "u:deal" (ns_of "d1" "budget") "total" "net"
    ≡ claim_identity_id services 1 1 "u" (ns_of "deal" "d1") "budget" "total:net"
claim_identity_id-shift_example =
    claim_identity_id-shift services 1 1 "u" "deal" "d1" "budget" "total" "net"
