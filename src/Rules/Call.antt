-- ===== src/Rules/Call.antt =====
-- The call rules of services/rules.py: each belongs to a slot of a field.
use hojo_memory_engine.Prelude.{
  ℕ, ◌+◌, String, Bool, ◌&&◌, Option, some, ◌∷◌, maybe, update_many, latest, max_rank, ◌==◌, nat_eq,
  string_eq,
}
use hojo_memory_engine.Json.{int, pos, str, end, field}
use hojo_memory_engine.Result.{Result, ok, err, on_ok, not_found, type_error}
use hojo_memory_engine.Context.{RequestContext}
use hojo_memory_engine.Field.{get_active_by_name}
use hojo_memory_engine.Capability.{Binding, resolve_capability_id}
use hojo_memory_engine.Rules.{
  CallRule, CallRuleCreate, RuleUpdateBody, RuleDb, stored, given_or_old, config_or, filled_text,
  source_of, id_json,
}

abbrev pub active_call : RequestContext → String → String → CallRule → Bool
active_call ctx field_name rule r =
    (r.tenant_id == ctx.tenant_id)
    && ((r.org_id == ctx.org_id)
        && ((r.memory_field_name == field_name) && ((r.rule_name == rule) && (r.deleted == 0))))

-- The rows that share their version numbers, deleted ones too.
abbrev pub call_series : RequestContext → ℕ → String → CallRule → Bool
call_series ctx field_id slot r =
    (r.tenant_id == ctx.tenant_id)
    && ((r.org_id == ctx.org_id) && ((r.memory_field_id == field_id) && (r.slot_name == slot)))

unfoldable pub get_active_call : RequestContext → String → String → RuleDb → Option CallRule
get_active_call ctx field_name rule db =
    latest (λ r. r.version) (active_call ctx field_name rule) db.call.rows

abbrev pub retired_call : RequestContext → CallRule → CallRule
retired_call ctx r = record r { deleted = 1; updated_by = ctx.user_id }

-- The soft deletion of the row `current`, by its key.
abbrev pub retire_call : RequestContext → CallRule → RuleDb → RuleDb
retire_call ctx current db = record db {
  call = record (db.call) {
    rows = update_many (λ r. r.id == current.id) (retired_call ctx) db.call.rows;
  };
}

unfoldable pub next_call_version : RequestContext → ℕ → String → RuleDb → ℕ
next_call_version ctx field_id slot db =
    max_rank (λ r. r.version) (call_series ctx field_id slot) db.call.rows + 1

-- The row is added to `db`, or, where its unique key is taken, the transaction leaves `before`.
unfoldable pub add_call :
    RequestContext
    → (ℕ → CallRule)
    → ℕ
    → String
    → ℕ
    → (RuleDb → RuleDb)
    → RuleDb
    → RuleDb
    → Result CallRule × RuleDb
add_call ctx row field_id slot version publish before db =
    maybe (stored (λ r. call_series ctx field_id slot r && (r.version == version)) row db.call)
      (err type_error, before) λ t. (ok (row db.call.next_id), publish (record db { call = t }))

abbrev pub created_call : RequestContext → CallRuleCreate → ℕ → Option ℕ → ℕ → ℕ → CallRule
created_call ctx body field_id cap_id version id = record {
  id = id;
  tenant_id = ctx.tenant_id;
  org_id = ctx.org_id;
  memory_field_id = field_id;
  memory_field_name = body.memory_field_name;
  rule_name = body.rule_name;
  slot_name = body.slot_name;
  capability_id = cap_id;
  rule_type = "custom";
  rule_config_json = body.rule_config_json;
  version = version;
  source = source_of body.module_name;
  deleted = 0;
  created_by = ctx.user_id;
  updated_by = ctx.user_id;
}

abbrev pub publish_call : RequestContext → CallRuleCreate → Option ℕ → ℕ → RuleDb → RuleDb
publish_call ctx body cap_id version db = record db {
  published =
      record {
        table = "call_rule";
        tenant_id = ctx.tenant_id;
        org_id = ctx.org_id;
        memory_field_name = body.memory_field_name;
        event_type = "create";
        version = version;
        payload = field "rule_name" (str body.rule_name) (
            field "slot_name" (str body.slot_name) (
              field "memory_field_name" (str body.memory_field_name) (
                field "capability_id" (id_json cap_id) (field "version" (int (pos version)) end))));
      }
      ∷ db.published;
}

unfoldable pub insert_call :
    RequestContext → CallRuleCreate → ℕ → Option ℕ → RuleDb → Result CallRule × RuleDb
insert_call ctx body field_id cap_id db =
    let version = next_call_version ctx field_id body.slot_name db in
    add_call ctx (created_call ctx body field_id cap_id version) field_id body.slot_name version
      (publish_call ctx body cap_id version) db db

abbrev pub call_binding : CallRuleCreate → Binding
call_binding body = record {
  capability_id = body.capability_id;
  bound_name = body.capability_name;
  bound_module = body.module_name;
  bound_service = body.service_name;
  bound_kind = "call";
  bound_slot = some body.slot_name;
  bound_config = body.rule_config_json;
  bound_fingerprint = body.code_fingerprint;
}

-- What `resolve_capability_id` registers is committed before the rule is written.
unfoldable pub with_call_capability :
    String → RequestContext → CallRuleCreate → ℕ → RuleDb → Result CallRule × RuleDb
with_call_capability now ctx body field_id db =
    let (cap, capabilities) = resolve_capability_id now ctx (call_binding body) db.capabilities in
    let db' = record db { capabilities = capabilities } in
    on_ok cap db' λ cap_id. insert_call ctx body field_id cap_id db'

unfoldable pub create_call :
    String → RequestContext → CallRuleCreate → RuleDb → Result CallRule × RuleDb
create_call now ctx body db =
    maybe (get_active_by_name ctx body.memory_field_name db.fields) (err not_found, db)
      λ mf. with_call_capability now ctx body mf.id db

abbrev pub updated_call :
    RequestContext → String → String → RuleUpdateBody → CallRule → ℕ → ℕ → CallRule
updated_call ctx field_name rule body current version id = record {
  id = id;
  tenant_id = ctx.tenant_id;
  org_id = ctx.org_id;
  memory_field_id = current.memory_field_id;
  memory_field_name = field_name;
  rule_name = rule;
  slot_name = filled_text body.slot_name current.slot_name;
  capability_id = given_or_old body.capability_id current.capability_id;
  rule_type = "custom";
  rule_config_json = config_or body.rule_config_json current.rule_config_json;
  version = version;
  source = "api";
  deleted = 0;
  created_by = ctx.user_id;
  updated_by = ctx.user_id;
}

-- The version is the next one of the slot that the rule leaves.
unfoldable pub replace_call :
    RequestContext → String → String → RuleUpdateBody → CallRule → RuleDb → Result CallRule × RuleDb
replace_call ctx field_name rule body current db =
    let db' = retire_call ctx current db in
    let version = next_call_version ctx current.memory_field_id current.slot_name db' in
    add_call ctx (updated_call ctx field_name rule body current version) current.memory_field_id
      (filled_text body.slot_name current.slot_name) version (λ d. d) db db'

unfoldable pub update_call :
    RequestContext → String → String → RuleUpdateBody → RuleDb → Result CallRule × RuleDb
update_call ctx field_name rule body db =
    maybe (get_active_call ctx field_name rule db) (err not_found, db)
      λ current. replace_call ctx field_name rule body current db

unfoldable pub delete_call_soft :
    RequestContext → String → String → RuleDb → Result (Unit {0}) × RuleDb
delete_call_soft ctx field_name rule db =
    maybe (get_active_call ctx field_name rule db) (err not_found, db)
      λ current. (ok tt, retire_call ctx current db)
