-- ===== src/MemoryData/Tests.antt =====
-- services/memory_data.py on a memory of one user.
use hojo_memory_engine.Samples.{services, context}
use hojo_memory_engine.Prelude.{
  ℕ, suc, ◌≡◌, ◌≢◌, refl, true, false, not, ◌&&◌, none, some, [], ◌∷◌, ◌==◌, string_eq, eq_iff,
  arith, maybe,
}
use hojo_memory_engine.Json.{str, arr, cons, nil}
use hojo_memory_engine.Result.{ok, on_ok}
use hojo_memory_engine.Text.{strip, lstrip, rstrip, drop_last}
use hojo_memory_engine.Claim.Store.{◌⊕◌}
use hojo_memory_engine.IndexQueue.{VectorIndex, enqueue_vector_index}
use hojo_memory_engine.Field.{
  MemoryFieldCreate, created_row, get_active_by_name, from_cache, select_active,
}
use hojo_memory_engine.MemoryData.Empty.{parse_result_is_empty, is_nullish_scalar, quotes_nothing}
use hojo_memory_engine.Rules.{Table}
use hojo_memory_engine.MemoryData.Sources.{
  normalize_memory_source, resolve_write_memory_source, resolve_memory_source,
}
use hojo_memory_engine.MemoryData.Store.{
  null_source, given_source, MemoryDoc, MemoryDb, MemoryKey, doc_raw, doc_id, get_memory_data,
  new_value, or_kept, upserted_doc, upsert_memory_data, soft_delete_memory_data,
}
use hojo_memory_engine.MemoryData.Filters.{source_filter_clause}
use hojo_memory_engine.MemoryData.Strategy.{MemoryDataCreate, Extraction, MemoryState, memory_key}
use hojo_memory_engine.MemoryData.Service.{create, create_parsed, write, index_vector}
use hojo_memory_engine.MemoryData.RoundTrip.{
  IsKeyed, unsourced, get-upsert, upsert-soft_delete, get-upsert_shift,
}
use hojo_memory_engine.MemoryData.Normal.{KeepsNames, IsNormal}
use hojo_memory_engine.MemoryData.ReadBack.{ReadsBack, create-ReadsBack}
use hojo_memory_engine.MemoryData.Shown.{is_null_source, source_filter_clause-exact}

program : Unit {0}
unfolding maybe on_ok doc_raw doc_id get_memory_data new_value upserted_doc upsert_memory_data
    soft_delete_memory_data strip lstrip rstrip normalize_memory_source resolve_write_memory_source
program = tt

abbrev key : MemoryKey
key = unsourced 1 1 "7" "city"

abbrev other_key : MemoryKey
other_key = unsourced 1 1 "7" "job"

abbrev first : MemoryDoc × MemoryDb
first = upsert_memory_data services 10 key (str "Rome") "APPEND" (some "I live in Rome") []

get-upsert_example :
    let written = upsert_memory_data services 20 key (str "Oslo") "APPEND" none first.1 in
    (get_memory_data services key written.1 ≡ some written.0)
    × ((j : MemoryKey)
        → doc_id services j ≢ doc_id services key
        → get_memory_data services j written.1 ≡ get_memory_data services j first.1)
get-upsert_example = get-upsert services 20 key (str "Oslo") "APPEND" none first.1

appends :
    (upsert_memory_data services 20 key (str "Oslo") "APPEND" none first.1).0.value
    ≡ arr (cons (str "Rome") (cons (str "Oslo") nil))
unfolding program
appends = refl

first-IsKeyed : IsKeyed first.1
unfolding program
first-IsKeyed id = ground (arith, eq_iff first.0.id id)

first_found : get_memory_data services key first.1 ≡ some first.0
unfolding program
first_found = refl

abbrev deleted : MemoryDb
deleted = (soft_delete_memory_data services 15 key first.1).1

upsert-soft_delete_example :
    let written = upsert_memory_data services 20 key (str "Oslo") "APPEND" none deleted in
    (get_memory_data services key deleted ≡ none)
    × (get_memory_data services key written.1 ≡ some written.0)
    × (written.0.value ≡ str "Oslo")
    × (written.0.create_time ≡ some 20)
    × (written.0.recently_used ≡ none)
    × (written.0.original_expression ≡ or_kept none first.0.original_expression)
upsert-soft_delete_example =
    upsert-soft_delete services 15 20 key first.1 first-IsKeyed first.0 (str "Oslo") "APPEND" none
      first_found

-- The expression of the deleted memory is back.
keeps_expression : or_kept none first.0.original_expression ≡ some "I live in Rome"
unfolding program
keeps_expression = refl

get-upsert_shift_example :
    let (doc, db') =
      upsert_memory_data services 10
        (unsourced 1 1 "a" ("b" ⊕ ":" ⊕ "c"))
        (str "x")
        "OVERWRITE"
        none
        [] in
    get_memory_data services (unsourced 1 1 ("a" ⊕ ":" ⊕ "b") "c") db' ≡ some doc
get-upsert_shift_example =
    get-upsert_shift services 10 1 1 "a" "b" "c" (str "x") "OVERWRITE" none []

all_of_it : Unit {0}
unfolding program create create_parsed get_active_by_name from_cache select_active
    parse_result_is_empty is_nullish_scalar quotes_nothing write index_vector enqueue_vector_index
    drop_last
all_of_it = tt

services-KeepsNames : KeepsNames services
services-KeepsNames t e = refl

no_source : IsNormal (given_source first.0.source)
unfolding program
no_source = tt

source_filter_clause-exact_example : source_filter_clause services (some "dialogue") first.0 ≡ (
    not (is_null_source first.0.source)
    && (resolve_memory_source services (given_source first.0.source) first.0.memory_field_name
        == "dialogue"))
source_filter_clause-exact_example =
    source_filter_clause-exact services services-KeepsNames first.0 "dialogue" no_source refl

-- A document whose source is null is shown as dialogue, but the filter does not select it.
null_unselected :
    source_filter_clause services (some "dialogue") (record first.0 { source = null_source })
    ≡ false
unfolding program source_filter_clause
null_unselected = refl

abbrev city : MemoryFieldCreate
city = record {
  name = "city";
  description = none;
  value_type = "json";
  match_method = "OVERWRITE";
  storage_type = "KV_AND_VECTOR";
  source = "api";
  json_schema = none;
  schema_version = "1.0";
  update_policy_json = none;
  access_policy_json = none;
  retrieval_policy_json = none;
}

abbrev nothing : {R : Type 0} → Table R
nothing = record { rows = []; next_id = 1 }

abbrev state : MemoryState ℕ
state = record {
  rules = record {
    fields = record {
      rows = created_row context city 1 1 ∷ [];
      next_id = 2;
      cache = λ t o n. none;
      published = [];
    };
    capabilities = record { rows = []; next_id = 1; cache = λ t o n k. none };
    parse = nothing;
    merge = nothing;
    retrieve = nothing;
    call = nothing;
    published = [];
  };
  docs = [];
  index = record { queue = some []; busy = none; running = true; index = 0; log = [] };
  mirrored = [];
}

-- An index that counts its calls, and a model that gives values back.
abbrev counting : VectorIndex ℕ
counting = record {
  mark_deleted = λ tenant doc name i. (none, suc i);
  upsert_vector = λ tenant org user name doc text i. (none, suc i);
}

abbrev echo : Extraction
echo = record {
  resolve_value = λ body. ok body.value;
  fuse = λ rule old new language. ok (some new);
  extract_original_expression = λ query value explicit. explicit;
}

abbrev request : MemoryDataCreate
request = record {
  user_id = "7";
  memory_field_name = "city";
  value = str "Rome";
  query = none;
  extra = none;
  write_rule = none;
  parse_rule_name = none;
  merge_rule_name = none;
  language = none;
  source = some " dialogue ";
  original_expression = none;
}

request_source :
    resolve_write_memory_source services request.source request.parse_rule_name
    ≡ ok (some "dialogue")
unfolding program
request_source = refl

create-ReadsBack_example :
    ReadsBack services echo counting true 10 context
      (memory_key context "7" "city" (some "dialogue"))
      (create services echo counting true 10 context request state)
create-ReadsBack_example =
    create-ReadsBack services echo counting true 10 context request (some "dialogue") state
      services-KeepsNames request_source

creates :
    (create services echo counting true 10 context request state).0
    ≡ ok (record { user_id = "7"; memory_field_name = "city"; value = str "Rome" })
unfolding all_of_it
creates = refl
