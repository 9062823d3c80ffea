-- ===== src/Claim/Types.antt =====
-- schemas/memory_claim.py: the claims of a request, the stored document, and the decisions.
-- Confidences are doubles from 0 to 1: `k` stands for `k / 2 ^ 1074`, and the code only compares.
use hojo_memory_engine.Prelude.{ℕ, String, Bool, true, false, Option, List, String-discrete}
use hojo_memory_engine.Json.{Json, Fields}

pub data FactStatus : Type 0 where
  stated decision commitment proposal forecast opinion correction : FactStatus

pub data LifecycleStatus : Type 0 where
  active pending conflicted superseded revoked : LifecycleStatus

pub data MemoryScope : Type 0 where
  self cross all : MemoryScope

pub data Sensitivity : Type 0 where
  public internal sensitive : Sensitivity

pub record MemoryNamespace : Type 0 where
  pub type : String
  pub id : String
  pub label : Option String

pub record MemoryProvenance : Type 0 where
  pub source_type : String
  pub source_id : Option String
  pub meeting_id : Option String
  pub segment_id : Option String
  pub speaker_id : Option String
  pub speaker_role : Option String
  pub evidence : Option String
  pub occurred_at : Option String

pub record MemoryAccessPolicy : Type 0 where
  pub allowed_modules : List String
  pub allowed_scenarios : List String
  pub allowed_scopes : List MemoryScope
  pub allowed_roles : List String
  pub sensitivity : Sensitivity
  pub allow_llm : Bool

pub record MemoryClaimInput : Type 0 where
  pub dimension : String
  pub claim_type : String
  pub claim_key : String
  pub value : Json
  pub text : String
  pub fact_status : FactStatus
  pub confidence : ℕ
  pub importance : ℕ
  pub access_policy : Option MemoryAccessPolicy
  pub effective_at : Option String
  pub expires_at : Option String

pub record MemorySourceEventInput : Type 0 where
  pub event_id : Option String
  pub source_type : String
  pub source_id : Option String
  pub meeting_id : Option String
  pub segment_id : Option String
  pub speaker_id : Option String
  pub speaker_role : Option String
  pub raw_text : Option String
  pub occurred_at : Option String

pub record MemoryIngestRequest : Type 0 where
  pub user_id : String
  pub namespace : MemoryNamespace
  pub source_event : MemorySourceEventInput
  pub claims : List MemoryClaimInput

pub data Action : Type 0 where
  add confirm update supersede conflict reject noop : Action

-- `reason` is one constructor for each text that the code builds.
pub data Reason : Type 0 where
  schema_failed below_threshold no_active_claim confirms_current fills_missing : Reason
  newer_same_authority higher_authority lacks_authority : Reason

pub record MemoryUpdateDecision : Type 0 where
  pub action : Action
  pub claim_id : Option String
  pub previous_claim_id : Option String
  pub reason : Reason
  pub lifecycle_status : Option LifecycleStatus

pub record MemoryIngestResult : Type 0 where
  pub event_id : String
  pub decisions : List MemoryUpdateDecision

pub data Resolution : Type 0 where
  accept reject_claim : Resolution

pub record Review : Type 0 where
  pub review_resolution : Resolution
  pub review_reason : String
  pub reviewed_by : Option ℕ

-- What `_claim_doc` builds, before the store adds its fields.
pub record ClaimDoc : Type 0 where
  pub tenant_id : ℕ
  pub org_id : ℕ
  pub user_id : String
  pub namespace : MemoryNamespace
  pub identity_id : String
  pub dimension : String
  pub claim_type : String
  pub claim_key : String
  pub value : Json
  pub text : String
  pub fact_status : FactStatus
  pub lifecycle_status : LifecycleStatus
  pub confidence : ℕ
  pub importance : ℕ
  pub effective_at : Option String
  pub expires_at : Option String
  pub access_policy : MemoryAccessPolicy
  pub update_policy : Fields
  pub retrieval_policy : Fields
  pub policy_schema_version : String
  pub provenance : List MemoryProvenance
  pub source_event_ids : List String
  pub supersedes : Option String
  pub conflicts_with : List String
  -- Keys that `mark_claim_status` sets.
  pub superseded_by : Option String
  pub superseded_at : Option String
  pub revoke_reason : Option String
  pub revoked_by : Option ℕ
  pub review : Option Review

-- A document of the collection `memory_claim`.
pub record Claim : Type 0 where
  pub doc : ClaimDoc
  pub open doc use *
  pub claim_id : String
  pub revision : ℕ
  pub is_current : Bool
  pub deleted : ℕ
  pub created_at : ℕ
  pub updated_at : ℕ

Option-String-discrete : Discrete (Option String)
unfolding String-discrete
Option-String-discrete = hlevel String-discrete

unfoldable pub Provenance-discrete : Discrete MemoryProvenance
unfolding Option-String-discrete
Provenance-discrete = hlevel (String-discrete, Option-String-discrete)

-- `is` on statuses.
abbrev pub is_active : LifecycleStatus → Bool
is_active active = true
is_active _ = false

abbrev pub is_conflicted : LifecycleStatus → Bool
is_conflicted conflicted = true
is_conflicted _ = false

abbrev pub is_historical : LifecycleStatus → Bool
is_historical active = true
is_historical superseded = true
is_historical conflicted = true
is_historical _ = false
