-- ===== src/Claim/Threshold.antt =====
-- The minimal confidence of a field: what services/memory_field.py accepts for it, and what
-- `_ingest_one` of services/memory_claim.py makes of it.
use hojo_memory_engine.Prelude.{
  ◌≡◌, refl, ap, String, true, false, Option, none, some, arith, ◌⊎◌, inl, inr, Option-cases,
}
use hojo_memory_engine.Json.{ℤ, pos, Json, null, bool, int, float, str, arr, obj, Fields, get}
use hojo_memory_engine.Json.Number.{to_float, one}
use hojo_memory_engine.Result.{ok, err, type_error, on_ok}
use hojo_memory_engine.Context.{RequestContext}
use hojo_memory_engine.Services.{Services}
use hojo_memory_engine.Field.{
  MemoryField, FieldDb, get_active_by_name, valid_update_policy, or_null, bounded,
}
use hojo_memory_engine.Claim.Types.{MemoryClaimInput, MemoryIngestRequest}
use hojo_memory_engine.Claim.Store.{ClaimDb}
use hojo_memory_engine.Claim.Engine.{
  Draw, Settings, field_allows, threshold_of, min_confidence, ingest_claim, ingest_one,
}

module _ (sv : Services) (st : Settings) where
  readable :
      (v : Json)
      → bounded (to_float sv.parse_float) 0 one v ≡ true
      → (v ≡ null) ⊎ ((z : ℤ) × (threshold_of sv st (some v) ≡ ok z))
  unfolding to_float one
  readable null h = inl refl
  readable (bool true) h = inr (_, refl)
  readable (bool false) h = inr (_, refl)
  readable (int z) h = inr (_, refl)
  readable (float z) h = inr (_, refl)
  readable (str s) h = elim (Option-cases (sv.parse_float s)) [
    | inl f ↦ absurd (ground arith)
    | inr (z, f) ↦ inr (z, rw f refl)
  ]
  readable (arr xs) h = absurd (ground arith)
  readable (obj fs) h = absurd (ground arith)

  readable_key :
      (o : Option Json)
      → bounded (to_float sv.parse_float) 0 one (or_null o) ≡ true
      → (o ≡ some null) ⊎ ((z : ℤ) × (threshold_of sv st o ≡ ok z))
  readable_key none h = inr (pos st.memory_claim_min_confidence, refl)
  readable_key (some v) h = elim (readable v h) [ inl e ↦ inl (ap some e) | inr r ↦ inr r ]

  -- An update policy that the field service accepts has a minimal confidence that the update
  -- engine can read, unless the policy gives `null` for it.
  pub valid_update_policy-min_confidence :
      (p : Fields)
      → valid_update_policy sv (some p) ≡ true
      → (get "min_confidence" p ≡ some null) ⊎ ((z : ℤ) × (min_confidence sv st p ≡ ok z))
  unfolding valid_update_policy min_confidence
  valid_update_policy-min_confidence p h = readable_key (get "min_confidence" p) h

  null_is_valid :
      (p : Fields) → get "min_confidence" p ≡ some null → valid_update_policy sv (some p) ≡ true
  unfolding valid_update_policy
  null_is_valid p e = rw e refl

  null_raises :
      (p : Fields) → get "min_confidence" p ≡ some null → min_confidence sv st p ≡ err type_error
  unfolding min_confidence to_float
  null_raises p e = rw e refl

  -- The field service accepts an update policy with `null` for the minimal confidence, but every
  -- claim of such a field whose value the schema allows makes `_ingest_one` raise.
  pub null_min_confidence-raises :
      (fields : FieldDb) (d : Draw) (ctx : RequestContext) (body : MemoryIngestRequest)
      (claim : MemoryClaimInput) (event_id : String) (db : ClaimDb) (f : MemoryField) (p : Fields)
      → get_active_by_name ctx claim.dimension fields ≡ some f
      → f.update_policy_json ≡ some p
      → get "min_confidence" p ≡ some null
      → field_allows sv (some f) claim.value ≡ ok true
      → (valid_update_policy sv f.update_policy_json ≡ true)
        × (ingest_one sv st fields d ctx body claim event_id db ≡ (err type_error, db))
  unfolding ingest_one ingest_claim on_ok
  null_min_confidence-raises fields d ctx body claim event_id db f p e u m a =
      (rw u (null_is_valid p m), rw (e, a, u, null_raises p m) refl)
