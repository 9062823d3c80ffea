-- ===== src/Claim/Engine/Documents.antt =====
-- services/memory_claim.py: what `_ingest_one` builds before it looks for the current claim.
use hojo_memory_engine.Prelude.{
  ℕ, String, Bool, true, false, ◌&&◌, Option, none, some, [], ◌∷◌, ◌==◌, string_eq, if◌then◌else◌,
}
use hojo_memory_engine.Text.{clip}
use hojo_memory_engine.Json.{Json, obj, Fields, end, field, get, merge, values_equal}
use hojo_memory_engine.Result.{Result, ok, err, type_error}
use hojo_memory_engine.Context.{RequestContext}
use hojo_memory_engine.Services.{Services}
use hojo_memory_engine.Field.{MemoryField}
use hojo_memory_engine.Claim.Types.{
  active, self, internal, MemoryProvenance, MemoryAccessPolicy, MemoryClaimInput,
  MemorySourceEventInput, MemoryIngestRequest, ClaimDoc,
}
use hojo_memory_engine.Claim.Store.{or_text, claim_identity_id}

-- What the surroundings give to one claim's ingest: a reading of the clock, and `uuid4().hex`.
pub record Draw : Type 0 where
  pub now : ℕ
  pub uuid : String

pub record Settings : Type 0 where
  pub memory_claim_min_confidence : ℕ

unfoldable pub provenance_of : MemorySourceEventInput → String → MemoryProvenance
unfolding clip
provenance_of ev event_id = record {
  source_type = ev.source_type;
  source_id = some (or_text ev.source_id event_id);
  meeting_id = ev.meeting_id;
  segment_id = ev.segment_id;
  speaker_id = ev.speaker_id;
  speaker_role = ev.speaker_role;
  evidence = elim ev.raw_text [
    | none ↦ none
    | some t ↦ if t == "" then none else some (clip 8000 t)
  ];
  occurred_at = ev.occurred_at;
}

-- The policies of a field row, `{}` where there is no row or no policy.
abbrev pub or_empty : Option Fields → Fields
or_empty none = end
or_empty (some p) = p

abbrev pub update_policy_of : Option MemoryField → Fields
update_policy_of none = end
update_policy_of (some f) = or_empty f.update_policy_json

abbrev pub retrieval_policy_of : Option MemoryField → Fields
retrieval_policy_of none = end
retrieval_policy_of (some f) = or_empty f.retrieval_policy_json

abbrev pub schema_version_of : Option MemoryField → String
schema_version_of none = "1.0"
schema_version_of (some f) = if f.schema_version == "" then "1.0" else f.schema_version

-- `MemoryAccessPolicy()`.
abbrev pub default_access_policy : MemoryAccessPolicy
default_access_policy = record {
  allowed_modules = "*" ∷ [];
  allowed_scenarios = "*" ∷ [];
  allowed_scopes = self ∷ [];
  allowed_roles = "*" ∷ [];
  sensitivity = internal;
  allow_llm = true;
}

-- A policy that the field row holds is validated again, and may raise.
abbrev pub field_policy : Services → Option Fields → Result MemoryAccessPolicy
field_policy sv none = ok default_access_policy
field_policy sv (some end) = ok default_access_policy
field_policy sv (some (field k v fs)) = elim (sv.model_validate (obj (field k v fs))) [
  | none ↦ err type_error
  | some p ↦ ok p
]

unfoldable pub resolve_access_policy :
    Services → MemoryClaimInput → Option MemoryField → Result MemoryAccessPolicy
resolve_access_policy sv claim f = elim claim.access_policy [
  | some p ↦ ok p
  | none ↦ elim f [
    | none ↦ ok default_access_policy
    | some row ↦ field_policy sv row.access_policy_json
  ]
]

unfoldable pub claim_doc :
    Services
    → RequestContext
    → MemoryIngestRequest
    → MemoryClaimInput
    → String
    → MemoryAccessPolicy
    → Option MemoryField
    → ClaimDoc
unfolding claim_identity_id provenance_of
claim_doc sv ctx body claim event_id policy f = record {
  tenant_id = ctx.tenant_id;
  org_id = ctx.org_id;
  user_id = body.user_id;
  namespace = body.namespace;
  identity_id =
      claim_identity_id sv ctx.tenant_id ctx.org_id body.user_id body.namespace claim.dimension
        claim.claim_key;
  dimension = claim.dimension;
  claim_type = claim.claim_type;
  claim_key = claim.claim_key;
  value = claim.value;
  text = claim.text;
  fact_status = claim.fact_status;
  lifecycle_status = active;
  confidence = claim.confidence;
  importance = claim.importance;
  effective_at = claim.effective_at;
  expires_at = claim.expires_at;
  access_policy = policy;
  update_policy = update_policy_of f;
  retrieval_policy = retrieval_policy_of f;
  policy_schema_version = schema_version_of f;
  provenance = provenance_of body.source_event event_id ∷ [];
  source_event_ids = event_id ∷ [];
  supersedes = none;
  conflicts_with = [];
  superseded_by = none;
  superseded_at = none;
  revoke_reason = none;
  revoked_by = none;
  review = none;
}

-- Every key of `new` that `old` has too has an equal value there.
unfoldable pub agrees : Fields → Fields → Bool
unfolding get values_equal
agrees old end = true
agrees old (field k v new) =
    elim (get k old) [ none ↦ true | some w ↦ values_equal w v ] && agrees old new

-- `set(new).issubset(old)`.
unfoldable pub covers : Fields → Fields → Bool
unfolding get
covers old end = true
covers old (field k v new) = elim (get k old) [ none ↦ false | some w ↦ true ] && covers old new

-- `_non_conflicting_object_update`.
unfoldable pub non_conflicting_object_update : Json → Json → Option Json
unfolding agrees covers merge
non_conflicting_object_update (obj old) (obj new) =
    if agrees old new then some (obj (if covers old new then old else merge old new)) else none
non_conflicting_object_update _ _ = none
