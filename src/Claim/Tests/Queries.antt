-- ===== src/Claim/Tests/Queries.antt =====
-- The listings and the thresholds on concrete collections.
use hojo_memory_engine.Prelude.{
  ◌≡◌, refl, String, true, false, string_eq, none, some, [], ◌∷◌, ◌&&◌, contains, filter,
}
use hojo_memory_engine.Json.{null, Fields, end, field, get}
use hojo_memory_engine.Result.{ok, err, type_error}
use hojo_memory_engine.Field.{MemoryField, FieldDb, get_active_by_name, valid_update_policy}
use hojo_memory_engine.Claim.Store.{empty_db}
use hojo_memory_engine.Claim.Engine.{field_allows, ingest_one}
use hojo_memory_engine.Claim.Rules.{identity_of}
use hojo_memory_engine.Claim.Threshold.{null_min_confidence-raises}
use hojo_memory_engine.Claim.Listing.{
  Scope, in_view, list_current_claims_by_ids, list_history, revisions,
}
use hojo_memory_engine.Claim.Listing.Visible.{list_current_claims_by_ids-exact}
use hojo_memory_engine.Claim.Identity.{ns_of}
use hojo_memory_engine.Samples.{services, context}
use hojo_memory_engine.Claim.Tests.{
  program, settings, fields, first, body, draw, two_claims, two_claims-IsSound,
}

abbrev scope : Scope
scope = record {
  tenant_id = 1;
  org_id = 1;
  user_id = "u";
  namespace = ns_of "deal" "d1";
  dimensions = [];
  include_history = false;
}

list_current_claims_by_ids-exact_example :
    list_current_claims_by_ids scope ("mc_a" ∷ "mc_a" ∷ []) two_claims
    ≡ filter (λ c. in_view scope c && contains c.claim_id ("mc_a" ∷ "mc_a" ∷ [])) two_claims.claims
list_current_claims_by_ids-exact_example =
    list_current_claims_by_ids-exact scope ("mc_a" ∷ "mc_a" ∷ []) two_claims two_claims-IsSound

abbrev budget : String
budget = identity_of services context body first

has_history : list_history 1 1 "mc_a" two_claims ≡ some (budget, revisions 1 1 budget two_claims)
unfolding program
has_history = refl

abbrev null_policy : Fields
null_policy = field "min_confidence" null end

null_policy_valid : valid_update_policy services (some null_policy) ≡ true
unfolding program
null_policy_valid = refl

abbrev budget_field : MemoryField
budget_field = record {
  id = 1;
  tenant_id = 1;
  org_id = 1;
  name = "budget";
  description = none;
  value_type = "json";
  match_method = "OVERWRITE";
  storage_type = "KV";
  version = 1;
  status = "active";
  source = "api";
  json_schema = none;
  schema_version = "1.0";
  update_policy_json = some null_policy;
  access_policy_json = none;
  retrieval_policy_json = none;
  deleted = 0;
  created_by = none;
  updated_by = none;
}

abbrev with_budget : FieldDb
with_budget = record fields { rows = budget_field ∷ []; next_id = 2 }

budget_active : get_active_by_name context first.dimension with_budget ≡ some budget_field
unfolding program
budget_active = refl

null_given : get "min_confidence" null_policy ≡ some null
unfolding program
null_given = refl

schema_passes : field_allows services (some budget_field) first.value ≡ ok true
unfolding program
schema_passes = refl

null_min_confidence-raises_example :
    (valid_update_policy services (some null_policy) ≡ true)
    × (ingest_one services settings with_budget (draw 1) context body first "e1" empty_db
        ≡ (err type_error, empty_db))
null_min_confidence-raises_example =
    null_min_confidence-raises services settings with_budget (draw 1) context body first "e1"
      empty_db budget_field null_policy budget_active refl null_given schema_passes
