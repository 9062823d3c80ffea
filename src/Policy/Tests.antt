-- ===== src/Policy/Tests.antt =====
-- services/memory_policy.py on a concrete claim and caller.
use hojo_memory_engine.Samples.{services}
use hojo_memory_engine.Prelude.{Bool, ◌↔◌, ◌≡◌, String, true, false, none, List, [], ◌∷◌, filter}
use hojo_memory_engine.Json.{null, end}
use hojo_memory_engine.Claim.Types.{
  Claim, MemoryNamespace, Sensitivity, FactStatus, LifecycleStatus, self,
}
use hojo_memory_engine.Policy.{Caller, filter_claims}
use hojo_memory_engine.Policy.Allowed.{IsAllowed, filter_claims-IsAllowed}

abbrev pub deal : MemoryNamespace
deal = record { type = "deal"; id = "d1"; label = none }

abbrev pub claim_of : Sensitivity → String → Claim
claim_of level claim_id = record {
  doc = record {
    tenant_id = 1;
    org_id = 1;
    user_id = "u";
    namespace = deal;
    identity_id = claim_id;
    dimension = "budget";
    claim_type = "fact";
    claim_key = "total";
    value = null;
    text = "the budget";
    fact_status = FactStatus.stated;
    lifecycle_status = LifecycleStatus.active;
    confidence = 90;
    importance = 3;
    effective_at = none;
    expires_at = none;
    access_policy = record {
      allowed_modules = "*" ∷ [];
      allowed_scenarios = "*" ∷ [];
      allowed_scopes = self ∷ [];
      allowed_roles = "*" ∷ [];
      sensitivity = level;
      allow_llm = true;
    };
    update_policy = end;
    retrieval_policy = end;
    policy_schema_version = "1.0";
    provenance = [];
    source_event_ids = [];
    supersedes = none;
    conflicts_with = [];
    superseded_by = none;
    superseded_at = none;
    revoke_reason = none;
    revoked_by = none;
    review = none;
  };
  claim_id = claim_id;
  revision = 1;
  is_current = true;
  deleted = 0;
  created_at = 1;
  updated_at = 1;
}

abbrev stored : List Claim
stored = claim_of Sensitivity.internal "mc_1" ∷ claim_of Sensitivity.sensitive "mc_2" ∷ []

abbrev pub caller : Caller
caller = record {
  disable_auth = false;
  now = 5;
  ctx = record {
    tenant_id = 1;
    org_id = 1;
    user_id = none;
    api_key_id = none;
    permissions = "memory:retrieve:self" ∷ [];
    trace_id = none;
  };
  usage = record {
    module_id = "crm";
    scenario = "brief";
    scope = self;
    current_meeting_id = none;
    namespace = deal;
    caller_role = "sales";
  };
  llm_requested = true;
  allow_historical = false;
}

filter_claims-IsAllowed_example :
    (test : Claim → Bool) × ((filter_claims services caller stored).0 ≡ filter test stored)
    × ((c : Claim) → (test c ≡ true) ↔ IsAllowed services caller c)
filter_claims-IsAllowed_example = filter_claims-IsAllowed services caller stored
