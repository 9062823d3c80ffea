-- ===== src/MemoryData/Service.antt =====
-- services/memory_data.py: the writes and the exact read. The mirror into claims, whose failures the
-- code catches, is recorded.
use hojo_memory_engine.Prelude.{
  ℕ, String, Bool, true, false, ◌&&◌, ◌||◌, Option, none, some, ◌∷◌, maybe, ◌==◌, string_eq,
  if◌then◌else◌,
}
use hojo_memory_engine.Json.{Json, null, str}
use hojo_memory_engine.Result.{Result, ok, err, ◌>>=◌, on_ok, not_found, type_error}
use hojo_memory_engine.Context.{RequestContext}
use hojo_memory_engine.Services.{Services}
use hojo_memory_engine.Field.{MemoryField, get_active_by_name}
use hojo_memory_engine.IndexQueue.{
  IndexTask, Failure, VectorIndex, index_call, enqueue_vector_index,
}
use hojo_memory_engine.MemoryData.Sources.{normalize_memory_source, resolve_write_memory_source}
use hojo_memory_engine.MemoryData.Store.{
  MemoryDoc, MemoryKey, doc_id, get_memory_data, upsert_memory_data, soft_delete_memory_data,
}
use hojo_memory_engine.MemoryData.Empty.{parse_result_is_empty}
use hojo_memory_engine.MemoryData.Strategy.{
  MemoryDataCreate, MemoryDataUpdate, MemoryDataOut, Extraction, MemoryState, memory_key,
  match_method_of, apply_merge_strategy,
}

abbrev pub index_task : Services → RequestContext → MemoryKey → String → Json → String → IndexTask
index_task sv ctx k id value action = record {
  tenant_id = ctx.tenant_id;
  org_id = ctx.org_id;
  user_id = k.user_id;
  memory_field_name = k.memory_field_name;
  doc_id = id;
  text = sv.str_json value;
  action = action;
}

abbrev raised : Option Failure → Result (Unit {0})
raised none = ok tt
raised (some e) = err type_error

abbrev pub out_of : MemoryKey → Json → MemoryDataOut
out_of k value = record {
  user_id = k.user_id;
  memory_field_name = k.memory_field_name;
  value = value;
}

abbrev pub update_of :
    MemoryDataCreate → Json → String → Option String → Option String → MemoryDataUpdate
update_of body value effective source expression = record {
  user_id = body.user_id;
  memory_field_name = body.memory_field_name;
  value = value;
  write_rule = if effective == "OVERWRITE" then some "OVERWRITE" else body.write_rule;
  merge_rule_name = body.merge_rule_name;
  query = body.query;
  language = some "en-US";
  source = source;
  original_expression = expression;
  extra = body.extra;
}

-- `body.value if body.value is not None else value`.
abbrev pub inbound : Json → Json → Json
inbound null value = value
inbound given value = given

module _ {S : Type 0} where
  -- The setting `qdrant_async_index` says whether the task is queued or performed at once.
  abbrev pub send :
      VectorIndex S → Bool → IndexTask → MemoryState S → Result (Unit {0}) × MemoryState S
  send ix true t s = (ok tt, record s { index = enqueue_vector_index t s.index })
  send ix false t s =
      let (e, i) = index_call ix t s.index.index in
      (raised e, record s { index = record (s.index) { index = i } })

  -- `_index_vector_async`.
  unfoldable pub index_vector :
      Services
      → VectorIndex S
      → Bool
      → RequestContext
      → String
      → MemoryKey
      → String
      → Json
      → String
      → MemoryState S
      → Result (Unit {0}) × MemoryState S
  index_vector sv ix queued ctx storage_type k id value action s =
      if (action == "upsert") && parse_result_is_empty sv value
      then (ok tt, s)
      else if (storage_type == "VECTOR") || (storage_type == "KV_AND_VECTOR")
      then send ix queued (index_task sv ctx k id value action) s
      else (ok tt, s)

  abbrev mirror : MemoryKey → MemoryDoc → Option String → MemoryState S → MemoryState S
  mirror k doc expression s = record s {
    mirrored =
        record {
          user_id = k.user_id;
          memory_field_name = k.memory_field_name;
          value = doc.value;
          source = k.source;
          original_expression = expression;
        }
        ∷ s.mirrored;
  }

  -- What follows the write of a document: its indexing and its mirror.
  abbrev pub announce :
      Services
      → VectorIndex S
      → Bool
      → RequestContext
      → String
      → MemoryKey
      → MemoryDoc
      → Option String
      → MemoryState S
      → Result MemoryDataOut × MemoryState S
  announce sv ix queued ctx storage_type k doc expression s =
      let (r, s') = index_vector sv ix queued ctx storage_type k doc.id doc.value "upsert" s in
      on_ok r s' λ _. (ok (out_of k doc.value), mirror k doc expression s')

  -- The write that `create` and `update` end with.
  unfoldable pub write :
      Services
      → VectorIndex S
      → Bool
      → ℕ
      → RequestContext
      → String
      → MemoryKey
      → Json
      → String
      → Option String
      → MemoryState S
      → Result MemoryDataOut × MemoryState S
  write sv ix queued now ctx storage_type k value match_method expression s =
      let (doc, docs) = upsert_memory_data sv now k value match_method expression s.docs in
      announce sv ix queued ctx storage_type k doc expression (record s { docs = docs })

  unfoldable pub update :
      Services
      → Extraction
      → VectorIndex S
      → Bool
      → ℕ
      → RequestContext
      → MemoryDataUpdate
      → MemoryState S
      → Result MemoryDataOut × MemoryState S
  update sv x ix queued now ctx body s =
      maybe (get_active_by_name ctx body.memory_field_name s.rules.fields) (err not_found, s)
        λ f. on_ok (normalize_memory_source sv body.source) s λ source.
          let k = memory_key ctx body.user_id body.memory_field_name source in
          if parse_result_is_empty sv body.value
          then maybe (get_memory_data sv k s.docs) (err not_found, s)
              (λ existing. (ok (out_of k existing.value), s))
          else on_ok
              (apply_merge_strategy sv x ctx k body.value (match_method_of sv f body.write_rule)
                body.merge_rule_name body.language s.rules s.docs)
              s
              λ plan.
                write sv ix queued now ctx f.storage_type k plan.0 plan.1
                  (x.extract_original_expression body.query body.value body.original_expression) s

  -- `create` on a memory that exists.
  unfoldable pub create_on :
      Services
      → Extraction
      → VectorIndex S
      → Bool
      → ℕ
      → RequestContext
      → MemoryDataCreate
      → MemoryField
      → MemoryKey
      → Json
      → Option String
      → MemoryDoc
      → MemoryState S
      → Result MemoryDataOut × MemoryState S
  create_on sv x ix queued now ctx body f k value expression existing s =
      on_ok
        (apply_merge_strategy sv x ctx k value (match_method_of sv f body.write_rule)
          body.merge_rule_name body.language s.rules s.docs)
        s
        λ plan.
          if parse_result_is_empty sv plan.0
          then (ok (out_of k existing.value), s)
          else update sv x ix queued now ctx (update_of body plan.0 plan.1 k.source expression) s

  unfoldable pub create_parsed :
      Services
      → Extraction
      → VectorIndex S
      → Bool
      → ℕ
      → RequestContext
      → MemoryDataCreate
      → MemoryField
      → MemoryKey
      → Json
      → MemoryState S
      → Result MemoryDataOut × MemoryState S
  create_parsed sv x ix queued now ctx body f k value s =
      let existing = get_memory_data sv k s.docs in
      let expression =
        x.extract_original_expression body.query (inbound body.value value)
          body.original_expression in
      if parse_result_is_empty sv value
      then (ok (out_of k (maybe existing null λ d. d.value)), s)
      else maybe existing
          (write sv ix queued now ctx f.storage_type k value (match_method_of sv f body.write_rule)
            expression s)
          λ d. create_on sv x ix queued now ctx body f k value expression d s

  unfoldable pub create :
      Services
      → Extraction
      → VectorIndex S
      → Bool
      → ℕ
      → RequestContext
      → MemoryDataCreate
      → MemoryState S
      → Result MemoryDataOut × MemoryState S
  create sv x ix queued now ctx body s =
      maybe (get_active_by_name ctx body.memory_field_name s.rules.fields) (err not_found, s)
        λ f. on_ok (resolve_write_memory_source sv body.source body.parse_rule_name) s λ source.
          on_ok (x.resolve_value body) s λ value.
            create_parsed sv x ix queued now ctx body f
              (memory_key ctx body.user_id body.memory_field_name source) value s

  unfoldable pub delete_soft :
      Services
      → VectorIndex S
      → Bool
      → ℕ
      → RequestContext
      → String
      → String
      → Option String
      → MemoryState S
      → Result (Unit {0}) × MemoryState S
  delete_soft sv ix queued now ctx user field_name source s =
      maybe (get_active_by_name ctx field_name s.rules.fields) (err not_found, s)
        λ f. on_ok (normalize_memory_source sv source) s λ source'.
          let k = memory_key ctx user field_name source' in
          let (done, docs) = soft_delete_memory_data sv now k s.docs in
          let s' = record s { docs = docs } in
          if done
          then index_vector sv ix queued ctx f.storage_type k (doc_id sv k) (str "") "delete" s'
          else (err not_found, s')

  -- `get` in its exact mode without a query.
  unfoldable pub get_exact :
      Services
      → RequestContext
      → String
      → String
      → Option String
      → MemoryState S
      → Result MemoryDataOut
  get_exact sv ctx user field_name source s =
      maybe (get_active_by_name ctx field_name s.rules.fields) (err not_found) λ _.
        normalize_memory_source sv source >>= λ source'.
        let k = memory_key ctx user field_name source' in
        maybe (get_memory_data sv k s.docs) (err not_found) λ d. ok (out_of k d.value)
