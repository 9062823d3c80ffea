-- ===== src/Rules/Tests.antt =====
-- services/rules.py on concrete rules.
use hojo_memory_engine.Samples.{context}
use hojo_memory_engine.Prelude.{
  ◌≡◌, refl, String, Bool, Option, true, false, none, some, [], ◌∷◌, Holds, ◌<◌, All, inl, inr,
  maybe, arith,
}
use hojo_memory_engine.Json.{str, end, field, get}
use hojo_memory_engine.Text.{includes, starts_with}
use hojo_memory_engine.Result.{ok, err, on_ok, type_error, validation}
use hojo_memory_engine.Field.{
  MemoryField, MemoryFieldCreate, select_active, from_cache, get_active_by_name, created_row,
}
use hojo_memory_engine.Capability.{resolve_capability_id}
use hojo_memory_engine.Context.{RequestContext}
use hojo_memory_engine.Rules.{
  ParseRule, RuleCreate, RetrieveRule, RetrieveRuleCreate, CallRule, CallRuleCreate, RuleUpdateBody,
  RuleDb, Table, stored,
}
use hojo_memory_engine.Rules.Parse.{
  get_active_parse, next_parse_version, add_parse, insert_parse, with_parse_capability,
  create_parse, replace_parse, update_parse, delete_parse_soft, created_parse,
}
use hojo_memory_engine.Rules.Merge.{
  text_in, validate_merge_prompt, merge_prompt, check_merge, create_merge, insert_merge, add_merge,
  next_merge_version, get_active_merge, created_merge,
}
use hojo_memory_engine.Rules.Retrieve.{
  get_active_retrieve, next_retrieve_version, add_retrieve, field_id_of, insert_retrieve,
  create_retrieve, delete_retrieve_soft, retrieve_series,
}
use hojo_memory_engine.Rules.Call.{
  get_active_call, next_call_version, add_call, insert_call, with_call_capability, create_call,
  replace_call, update_call, created_call,
}
use hojo_memory_engine.Rules.Selection.{IsSingleParse}
use hojo_memory_engine.Rules.Selection.Stored.{IsStored}
use hojo_memory_engine.Rules.Selection.Operations.{
  update_parse-selected, here, next, creates, deletes, ParseReach-IsSingle,
}
use hojo_memory_engine.Rules.Slots.{create_retrieve-selected, create_retrieve-delete_retrieve_soft}
use hojo_memory_engine.Rules.Shadows.{create_call-shadowed, update_call-collides}

program : Unit {0}
unfolding maybe on_ok stored select_active from_cache get_active_by_name resolve_capability_id
    get_active_parse next_parse_version add_parse insert_parse with_parse_capability create_parse
    replace_parse update_parse delete_parse_soft text_in includes starts_with get
    validate_merge_prompt merge_prompt check_merge create_merge insert_merge add_merge
    next_merge_version get_active_merge get_active_retrieve next_retrieve_version add_retrieve
    field_id_of insert_retrieve create_retrieve delete_retrieve_soft get_active_call
    next_call_version add_call insert_call with_call_capability create_call replace_call update_call
program = tt

abbrev budget : MemoryFieldCreate
budget = record {
  name = "budget";
  description = none;
  value_type = "json";
  match_method = "MERGE";
  storage_type = "KV";
  source = "api";
  json_schema = none;
  schema_version = "1.0";
  update_policy_json = none;
  access_policy_json = none;
  retrieval_policy_json = none;
}

abbrev budget_row : MemoryField
budget_row = created_row context budget 1 1

abbrev nothing : {R : Type 0} → Table R
nothing = record { rows = []; next_id = 1 }

abbrev start : RuleDb
start = record {
  fields = record { rows = budget_row ∷ []; next_id = 2; cache = λ t o n. none; published = [] };
  capabilities = record { rows = []; next_id = 1; cache = λ t o n k. none };
  parse = nothing;
  merge = nothing;
  retrieve = nothing;
  call = nothing;
  published = [];
}

abbrev rule_body : RuleCreate
rule_body = record {
  memory_field_name = "budget";
  rule_name = "main";
  rule_config_json = some (field "prompt" (str "{old_value} and {new_value}") end);
  capability_id = none;
  capability_name = none;
  module_name = none;
  service_name = none;
  code_fingerprint = none;
  priority = 0;
}

abbrev changed : RuleUpdateBody
changed = record {
  rule_config_json = none;
  capability_id = none;
  priority = some 5;
  retrieve_method = none;
  slot_name = none;
}

start-IsSingle : IsSingleParse start
start-IsSingle ctx f g = omega arith

abbrev created : RuleDb
created = (create_parse "now" context rule_body start).1

ParseReach-IsSingle_example : IsSingleParse (delete_parse_soft context "budget" "main" created).1
ParseReach-IsSingle_example =
    ParseReach-IsSingle {start = start} {db = (delete_parse_soft context "budget" "main" created).1}
      start-IsSingle
      (next (next here (creates start "now" context rule_body))
        (deletes created context "budget" "main"))

abbrev first : ParseRule
first = created_parse context rule_body 1 none 1 1

first_active : get_active_parse context "budget" "main" created ≡ some first
unfolding program
first_active = refl

created-IsSingle : IsSingleParse created
created-IsSingle =
    ParseReach-IsSingle {start = start} {db = created} start-IsSingle
      (next here (creates start "now" context rule_body))

update_parse-selected_example :
    (row : ParseRule) × ((update_parse context "budget" "main" changed created).0 ≡ ok row)
    × IsStored context "budget" "main" created.parse.rows
        (update_parse context "budget" "main" changed created).1
        row
update_parse-selected_example =
    update_parse-selected context "budget" "main" changed created first created-IsSingle
      first_active

merges : (create_merge context rule_body start).0 ≡ ok (created_merge context rule_body 1 1 1)
unfolding program
merges = refl

needs_slots :
    (create_merge context (record rule_body { rule_config_json = none }) start).0 ≡ err validation
unfolding program
needs_slots = refl

abbrev recall : RetrieveRuleCreate
recall = record {
  memory_field_name = some "budget";
  rule_name = "find";
  retrieve_method = "EXACT";
  rule_config_json = none;
  capability_id = none;
  priority = 0;
}

abbrev recalled : RuleDb
recalled = (create_retrieve context recall start).1

has_field_id : field_id_of context (some "budget") recalled ≡ ok (some 1)
unfolding program
has_field_id = refl

create_retrieve-selected_example :
    let db' = (create_retrieve context recall recalled).1 in
    (row : RetrieveRule) × ((create_retrieve context recall recalled).0 ≡ ok row)
    × (get_active_retrieve context "find" (some "budget") false db' ≡ some row)
    × ((r : RetrieveRule)
        → Holds recalled.retrieve.rows r
        → retrieve_series context "find" r ≡ true
        → r.version < row.version)
create_retrieve-selected_example =
    create_retrieve-selected context recall recalled (some 1) has_field_id

below_next : All (λ r. r.id < recalled.retrieve.next_id) recalled.retrieve.rows
unfolding program
below_next = (omega arith, tt)

create_retrieve-delete_retrieve_soft_example :
    let again = (create_retrieve context recall recalled).1 in
    let (deleted, db') = delete_retrieve_soft context "find" (some "budget") again in
    (deleted ≡ ok tt)
    × ((other : RequestContext) (name : String) (field_name : Option String) (implicit : Bool)
        → get_active_retrieve other name field_name implicit db'
          ≡ get_active_retrieve other name field_name implicit recalled)
create_retrieve-delete_retrieve_soft_example =
    create_retrieve-delete_retrieve_soft context recall recalled (some 1) has_field_id below_next

abbrev use_in : String → CallRuleCreate
use_in slot = record {
  memory_field_name = "budget";
  rule_name = "use";
  slot_name = slot;
  rule_config_json = none;
  capability_id = some 3;
  capability_name = none;
  module_name = none;
  service_name = none;
  code_fingerprint = none;
}

-- Two versions in one slot.
abbrev called : RuleDb
called = (create_call "now" context (use_in "a") (create_call "now" context (use_in "a") start).1).1

abbrev second : CallRule
second = created_call context (use_in "a") 1 (some 3) 2 2

second_held : Holds called.call.rows second
unfolding program
second_held = inr (inl refl)

abbrev in_other_slot : CallRule
in_other_slot = created_call context (use_in "b") 1 (some 3) 1 3

creates_call : (create_call "now" context (use_in "b") called).0 ≡ ok in_other_slot
unfolding program
creates_call = refl

create_call-shadowed_example : ¬ (
    get_active_call context "budget" "use" (create_call "now" context (use_in "b") called).1
    ≡ some in_other_slot)
create_call-shadowed_example =
    create_call-shadowed "now" context (use_in "b") called second second_held in_other_slot
      creates_call refl (omega arith)

-- A rule in another slot, which a request moves into slot "b".
abbrev apart : RuleDb
apart =
    (create_call "now" context (use_in "b")
      (create_call "now" context (use_in "b")
        (create_call "now" context (record (use_in "a") { rule_name = "other" }) start).1).1).1

abbrev to_b : RuleUpdateBody
to_b = record changed { slot_name = some "b" }

abbrev other : CallRule
other = created_call context (record (use_in "a") { rule_name = "other" }) 1 (some 3) 1 1

abbrev taken : CallRule
taken = created_call context (use_in "b") 1 (some 3) 2 3

other_active : get_active_call context "budget" "other" apart ≡ some other
unfolding program
other_active = refl

taken_held : Holds apart.call.rows taken
unfolding program
taken_held = inr (inr (inl refl))

next_is_taken : 2 ≡ next_call_version context 1 "a" apart
unfolding program
next_is_taken = refl

update_call-collides_example :
    update_call context "budget" "other" to_b apart ≡ (err type_error, apart)
update_call-collides_example =
    update_call-collides context "budget" "other" "b" to_b apart other taken other_active refl
      taken_held refl next_is_taken
