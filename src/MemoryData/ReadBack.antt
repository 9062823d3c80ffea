-- ===== src/MemoryData/ReadBack.antt =====
-- What services/memory_data.py returns from a write is what the store holds after it.
use hojo_memory_engine.Prelude.{
  ℕ, ◌≡◌, ◌≢◌, refl, ap, sym, String, Bool, true, false, ◌||◌, ◌&&◌, Option, none, some, maybe,
  maybe-intro, if-intro, ◌==◌, string_eq,
}
use hojo_memory_engine.Json.{Json, null}
use hojo_memory_engine.Result.{Result, ok, on_ok-intro, on_ok-known}
use hojo_memory_engine.Context.{RequestContext}
use hojo_memory_engine.Services.{Services}
use hojo_memory_engine.Field.{MemoryField, get_active_by_name}
use hojo_memory_engine.IndexQueue.{VectorIndex, IndexTask}
use hojo_memory_engine.MemoryData.Sources.{normalize_memory_source, resolve_write_memory_source}
use hojo_memory_engine.MemoryData.Store.{MemoryDoc, MemoryKey, get_memory_data, upsert_memory_data}
use hojo_memory_engine.MemoryData.Empty.{parse_result_is_empty}
use hojo_memory_engine.MemoryData.Strategy.{
  MemoryDataCreate, MemoryDataUpdate, MemoryDataOut, Extraction, MemoryState, memory_key,
  match_method_of, apply_merge_strategy,
}
use hojo_memory_engine.MemoryData.Service.{
  index_task, out_of, update_of, inbound, send, index_vector, write, update, create_on,
  create_parsed, create,
}
use hojo_memory_engine.MemoryData.RoundTrip.{get-upsert}
use hojo_memory_engine.MemoryData.Normal.{KeepsNames, resolved_stays}

value_returned :
    (k : MemoryKey) (v : Json) {out : MemoryDataOut}
    → ◌≡◌ {A = Result MemoryDataOut} (ok (out_of k v)) (ok out)
    → v ≡ out.value
value_returned k v {out} e = let same : out_of k v ≡ out = cc in ap (λ o. o.value) same

module _ {S : Type 0} (sv : Services) (x : Extraction) (ix : VectorIndex S) (queued : Bool)
    (now : ℕ) (ctx : RequestContext) where
  -- The value that an operation returns, where it returns one, is the one that the store holds.
  abbrev pub ReadsBack : MemoryKey → Result MemoryDataOut × MemoryState S → Type 0
  ReadsBack k t =
      (out : MemoryDataOut)
      → t.0 ≡ ok out
      → out.value ≢ null
      → (d : MemoryDoc) × (get_memory_data sv k t.1.docs ≡ some d) × (d.value ≡ out.value)

  send-docs : (q : Bool) (t : IndexTask) (s : MemoryState S) → (send ix q t s).1.docs ≡ s.docs
  send-docs true t s = refl
  send-docs false t s = refl

  index_vector-docs :
      (storage_type : String) (k : MemoryKey) (id : String) (value : Json) (action : String)
      (s : MemoryState S)
      → (index_vector sv ix queued ctx storage_type k id value action s).1.docs ≡ s.docs
  unfolding index_vector
  index_vector-docs storage_type k id value action s =
      if-intro (λ (t : Result (Unit {0}) × MemoryState S). t.1.docs ≡ s.docs)
        ((action == "upsert") && parse_result_is_empty sv value) _ _ (λ _. refl)
        λ _.
          if-intro (λ (t : Result (Unit {0}) × MemoryState S). t.1.docs ≡ s.docs)
            ((storage_type == "VECTOR") || (storage_type == "KV_AND_VECTOR")) _ _
            (λ _. send-docs queued (index_task sv ctx k id value action) s) λ _. refl

  write-ReadsBack :
      (storage_type : String) (k : MemoryKey) (value : Json) (match_method : String)
      (expression : Option String) (s : MemoryState S)
      → ReadsBack k (write sv ix queued now ctx storage_type k value match_method expression s)
  unfolding write
  write-ReadsBack storage_type k value match_method expression s =
      let (doc, docs) = upsert_memory_data sv now k value match_method expression s.docs in
      let s' = record s { docs = docs } in
      let (r, after) = index_vector sv ix queued ctx storage_type k doc.id doc.value "upsert" s' in
      on_ok-intro (ReadsBack k) r _ _ (λ e out n. cc)
        λ _ _ out e _. (
          doc,
          rw (index_vector-docs storage_type k doc.id doc.value "upsert" s')
              (get-upsert sv now k value match_method expression s.docs).0,
          value_returned k doc.value e,
        )

  update-ReadsBack :
      (body : MemoryDataUpdate) (source : Option String) (s : MemoryState S)
      → normalize_memory_source sv body.source ≡ ok source
      → ReadsBack
          (memory_key ctx body.user_id body.memory_field_name source)
          (update sv x ix queued now ctx body s)
  unfolding update
  update-ReadsBack body source s normal =
      let k = memory_key ctx body.user_id body.memory_field_name source in
      maybe-intro (ReadsBack k) (get_active_by_name ctx body.memory_field_name s.rules.fields) _ _
        (λ _ out n. cc)
        λ f _.
          on_ok-known (ReadsBack k) (normalize_memory_source sv body.source) _ _ source normal (
            if-intro (ReadsBack k) (parse_result_is_empty sv body.value) _ _
              (λ _.
                maybe-intro (ReadsBack k) (get_memory_data sv k s.docs) _ _ (λ _ out n. cc)
                  λ d found out e _. (d, found, value_returned k d.value e))
              λ _.
                on_ok-intro (ReadsBack k)
                  (apply_merge_strategy sv x ctx k body.value (match_method_of sv f body.write_rule)
                    body.merge_rule_name body.language s.rules s.docs)
                  _ _ (λ _ out n. cc)
                  λ plan _.
                    write-ReadsBack f.storage_type k plan.0 plan.1
                      (x.extract_original_expression body.query body.value body.original_expression)
                      s)

  untouched :
      (k : MemoryKey) (s : MemoryState S) (o : Option MemoryDoc)
      → get_memory_data sv k s.docs ≡ o
      → ReadsBack k (ok (out_of k (maybe o null λ d. d.value)), s)
  unfolding maybe
  untouched k s none found out e given = absurd (given (sym (value_returned k null e)))
  untouched k s (some d) found out e given = (d, found, value_returned k d.value e)

  create_on-ReadsBack :
      (body : MemoryDataCreate) (f : MemoryField) (source : Option String) (value : Json)
      (expression : Option String) (existing : MemoryDoc) (s : MemoryState S)
      → normalize_memory_source sv source ≡ ok source
      → let k = memory_key ctx body.user_id body.memory_field_name source in
        get_memory_data sv k s.docs ≡ some existing
        → ReadsBack k (create_on sv x ix queued now ctx body f k value expression existing s)
  unfolding create_on
  create_on-ReadsBack body f source value expression existing s stays found =
      let k = memory_key ctx body.user_id body.memory_field_name source in
      on_ok-intro (ReadsBack k)
        (apply_merge_strategy sv x ctx k value (match_method_of sv f body.write_rule)
          body.merge_rule_name body.language s.rules s.docs)
        _ _ (λ _ out n. cc)
        λ plan _.
          if-intro (ReadsBack k) (parse_result_is_empty sv plan.0) _ _
            (λ _ out e _. (existing, found, value_returned k existing.value e))
            λ _. update-ReadsBack (update_of body plan.0 plan.1 source expression) source s stays

  create_parsed-ReadsBack :
      (body : MemoryDataCreate) (f : MemoryField) (source : Option String) (value : Json)
      (s : MemoryState S)
      → normalize_memory_source sv source ≡ ok source
      → let k = memory_key ctx body.user_id body.memory_field_name source in
        ReadsBack k (create_parsed sv x ix queued now ctx body f k value s)
  unfolding create_parsed
  create_parsed-ReadsBack body f source value s stays =
      let k = memory_key ctx body.user_id body.memory_field_name source in
      let expression =
        x.extract_original_expression body.query (inbound body.value value)
          body.original_expression in
      if-intro (ReadsBack k) (parse_result_is_empty sv value) _ _
        (λ _. untouched k s (get_memory_data sv k s.docs) refl)
        λ _.
          maybe-intro (ReadsBack k) (get_memory_data sv k s.docs) _ _
            (λ _.
              write-ReadsBack f.storage_type k value (match_method_of sv f body.write_rule)
                expression s)
            λ d found. create_on-ReadsBack body f source value expression d s stays found

-- Where `str.lower` keeps the names of the sources: the value that `create` returns, if it returns
-- one that is not null, is the value that the store holds for the user, the field and the source
-- that the request resolves to, whichever way it was written, merged or found.
pub create-ReadsBack :
    {S : Type 0} (sv : Services) (x : Extraction) (ix : VectorIndex S) (queued : Bool) (now : ℕ)
    (ctx : RequestContext) (body : MemoryDataCreate) (source : Option String) (s : MemoryState S)
    → KeepsNames sv
    → resolve_write_memory_source sv body.source body.parse_rule_name ≡ ok source
    → ReadsBack sv x ix queued now ctx
        (memory_key ctx body.user_id body.memory_field_name source)
        (create sv x ix queued now ctx body s)
unfolding create
create-ReadsBack sv x ix queued now ctx body source s names resolved =
    let P =
      ReadsBack sv x ix queued now ctx
        (memory_key ctx body.user_id body.memory_field_name source) in
    maybe-intro P (get_active_by_name ctx body.memory_field_name s.rules.fields) _ _ (λ _ out n. cc)
      λ f _.
        on_ok-known P (resolve_write_memory_source sv body.source body.parse_rule_name) _ _ source
          resolved
          (on_ok-intro P (x.resolve_value body) _ _ (λ _ out n. cc)
            λ value _.
              create_parsed-ReadsBack sv x ix queued now ctx body f source value s
                (resolved_stays sv names body.source body.parse_rule_name {o = source} resolved))
