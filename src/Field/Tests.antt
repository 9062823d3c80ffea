-- ===== src/Field/Tests.antt =====
-- services/memory_field.py on concrete rows.
use hojo_memory_engine.Samples.{services, context}
use hojo_memory_engine.Prelude.{◌≡◌, refl, true, none, some, [], maybe, arith}
use hojo_memory_engine.Result.{ok, on_ok}
use hojo_memory_engine.Field.{
  MemoryField, MemoryFieldCreate, MemoryFieldUpdate, FieldDb, validate_json_schema,
  valid_access_policy, valid_update_policy, valid_retrieval_policy, validate_policy_json,
  next_version, select_active, from_cache, get_active_by_name, insert_created, create, replace_row,
  update, delete_soft, checks, created_row, updated_row,
}
use hojo_memory_engine.Field.Versions.{IsVersioned}
use hojo_memory_engine.Field.Reach.{
  here, next, creates as creating, updates as updating, FieldReach-IsVersioned,
}
use hojo_memory_engine.Field.Operations.{
  IsNext, create-IsVersioned, create-IsNext, update-IsNext, delete_soft-gone,
}

program : Unit {0}
unfolding maybe on_ok validate_json_schema valid_access_policy valid_update_policy
    valid_retrieval_policy validate_policy_json next_version select_active from_cache
    get_active_by_name insert_created create replace_row update delete_soft checks
program = tt

abbrev empty : FieldDb
empty = record { rows = []; next_id = 1; cache = λ t o n. none; published = [] }

abbrev budget : MemoryFieldCreate
budget = record {
  name = "budget";
  description = none;
  value_type = "json";
  match_method = "OVERWRITE";
  storage_type = "KV";
  source = "api";
  json_schema = none;
  schema_version = "1.0";
  update_policy_json = none;
  access_policy_json = none;
  retrieval_policy_json = none;
}

abbrev described : MemoryFieldUpdate
described = record {
  description = some "the budget";
  value_type = none;
  match_method = none;
  storage_type = none;
  status = none;
  json_schema = none;
  schema_version = none;
  update_policy_json = none;
  access_policy_json = none;
  retrieval_policy_json = none;
}

empty-IsVersioned : IsVersioned empty
empty-IsVersioned = record {
  one_active = λ c n. omega arith;
  versioned = λ c n v. omega arith;
  distinct = λ i. omega arith;
  below_next = tt;
  cached = λ c n t. cc;
}

abbrev created : FieldDb
created = (create services true context budget empty).1

abbrev first_row : MemoryField
first_row = created_row context budget 1 1

creates : (create services true context budget empty).0 ≡ ok first_row
unfolding program
creates = refl

create-IsNext_example : IsNext context "budget" empty created first_row
create-IsNext_example =
    create-IsNext context budget empty empty-IsVersioned services true first_row creates

created-IsVersioned : IsVersioned created
created-IsVersioned = create-IsVersioned context budget empty empty-IsVersioned services true

abbrev updated : FieldDb
updated = (update services true context "budget" described created).1

FieldReach-IsVersioned_example : IsVersioned updated
FieldReach-IsVersioned_example =
    FieldReach-IsVersioned {sv = services} {start = empty} {db = updated} empty-IsVersioned (
      next (next here (creating empty true context budget))
        (updating created true context "budget" described))

abbrev second_row : MemoryField
second_row = updated_row context described first_row 2 2

updates : (update services true context "budget" described created).0 ≡ ok second_row
unfolding program
updates = refl

update-IsNext_example : IsNext context "budget" created updated second_row
update-IsNext_example =
    update-IsNext context "budget" described created created-IsVersioned services true second_row
      updates

deletes : (delete_soft context "budget" created).0 ≡ ok tt
unfolding program
deletes = refl

delete_soft-gone_example :
    get_active_by_name context "budget" (delete_soft context "budget" created).1 ≡ none
delete_soft-gone_example = delete_soft-gone context "budget" created created-IsVersioned deletes
