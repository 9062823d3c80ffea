-- ===== src/Rules/Parse.antt =====
-- The parse rules of services/rules.py.
use hojo_memory_engine.Prelude.{
  ℕ, ◌+◌, String, Bool, ◌&&◌, Option, none, ◌∷◌, maybe, update_many, latest, max_rank, ◌==◌, nat_eq,
  string_eq,
}
use hojo_memory_engine.Json.{int, pos, str, end, field}
use hojo_memory_engine.Result.{Result, ok, err, on_ok, not_found, type_error}
use hojo_memory_engine.Context.{RequestContext}
use hojo_memory_engine.Field.{get_active_by_name}
use hojo_memory_engine.Capability.{Binding, resolve_capability_id}
use hojo_memory_engine.Rules.{
  ParseRule, RuleCreate, RuleUpdateBody, RuleDb, stored, given_or, given_or_old, config_or,
  source_of, id_json,
}

abbrev pub active_parse : RequestContext → String → String → ParseRule → Bool
active_parse ctx field_name rule r =
    (r.tenant_id == ctx.tenant_id)
    && ((r.org_id == ctx.org_id)
        && ((r.memory_field_name == field_name) && ((r.rule_name == rule) && (r.deleted == 0))))

-- The rows that share their version numbers, deleted ones too.
abbrev pub parse_series : RequestContext → ℕ → String → ParseRule → Bool
parse_series ctx field_id rule r =
    (r.tenant_id == ctx.tenant_id)
    && ((r.org_id == ctx.org_id) && ((r.memory_field_id == field_id) && (r.rule_name == rule)))

unfoldable pub get_active_parse : RequestContext → String → String → RuleDb → Option ParseRule
get_active_parse ctx field_name rule db =
    latest (λ r. r.version) (active_parse ctx field_name rule) db.parse.rows

abbrev pub retired_parse : RequestContext → ParseRule → ParseRule
retired_parse ctx r = record r { deleted = 1; updated_by = ctx.user_id }

-- The soft deletion of the row `current`, by its key.
abbrev pub retire_parse : RequestContext → ParseRule → RuleDb → RuleDb
retire_parse ctx current db = record db {
  parse = record (db.parse) {
    rows = update_many (λ r. r.id == current.id) (retired_parse ctx) db.parse.rows;
  };
}

abbrev pub retire_current_parse : RequestContext → Option ParseRule → RuleDb → RuleDb
retire_current_parse ctx current db = maybe current db λ r. retire_parse ctx r db

unfoldable pub next_parse_version : RequestContext → ℕ → String → RuleDb → ℕ
next_parse_version ctx field_id rule db =
    max_rank (λ r. r.version) (parse_series ctx field_id rule) db.parse.rows + 1

-- The row is added to `db`, or, where its unique key is taken, the transaction leaves `before`.
unfoldable pub add_parse :
    RequestContext
    → (ℕ → ParseRule)
    → ℕ
    → String
    → ℕ
    → (RuleDb → RuleDb)
    → RuleDb
    → RuleDb
    → Result ParseRule × RuleDb
add_parse ctx row field_id rule version publish before db =
    maybe (stored (λ r. parse_series ctx field_id rule r && (r.version == version)) row db.parse)
      (err type_error, before) λ t. (ok (row db.parse.next_id), publish (record db { parse = t }))

abbrev pub created_parse : RequestContext → RuleCreate → ℕ → Option ℕ → ℕ → ℕ → ParseRule
created_parse ctx body field_id cap_id version id = record {
  id = id;
  tenant_id = ctx.tenant_id;
  org_id = ctx.org_id;
  memory_field_id = field_id;
  memory_field_name = body.memory_field_name;
  rule_name = body.rule_name;
  capability_id = cap_id;
  rule_type = "custom";
  rule_config_json = body.rule_config_json;
  priority = body.priority;
  version = version;
  source = source_of body.module_name;
  deleted = 0;
  created_by = ctx.user_id;
  updated_by = ctx.user_id;
}

abbrev pub publish_parse : RequestContext → RuleCreate → Option ℕ → ℕ → RuleDb → RuleDb
publish_parse ctx body cap_id version db = record db {
  published =
      record {
        table = "parse_rule";
        tenant_id = ctx.tenant_id;
        org_id = ctx.org_id;
        memory_field_name = body.memory_field_name;
        event_type = "create";
        version = version;
        payload = field "rule_name" (str body.rule_name) (
            field "memory_field_name" (str body.memory_field_name)
              (field "capability_id" (id_json cap_id) (field "version" (int (pos version)) end)));
      }
      ∷ db.published;
}

unfoldable pub insert_parse :
    RequestContext → RuleCreate → ℕ → Option ℕ → RuleDb → Result ParseRule × RuleDb
insert_parse ctx body field_id cap_id db =
    let db' =
      retire_current_parse ctx (get_active_parse ctx body.memory_field_name body.rule_name db) db in
    let version = next_parse_version ctx field_id body.rule_name db' in
    add_parse ctx (created_parse ctx body field_id cap_id version) field_id body.rule_name version
      (publish_parse ctx body cap_id version) db db'

abbrev pub parse_binding : RuleCreate → Binding
parse_binding body = record {
  capability_id = body.capability_id;
  bound_name = body.capability_name;
  bound_module = body.module_name;
  bound_service = body.service_name;
  bound_kind = "parse";
  bound_slot = none;
  bound_config = body.rule_config_json;
  bound_fingerprint = body.code_fingerprint;
}

-- What `resolve_capability_id` registers is committed before the rule is written.
unfoldable pub with_parse_capability :
    String → RequestContext → RuleCreate → ℕ → RuleDb → Result ParseRule × RuleDb
with_parse_capability now ctx body field_id db =
    let (cap, capabilities) = resolve_capability_id now ctx (parse_binding body) db.capabilities in
    let db' = record db { capabilities = capabilities } in
    on_ok cap db' λ cap_id. insert_parse ctx body field_id cap_id db'

unfoldable pub create_parse :
    String → RequestContext → RuleCreate → RuleDb → Result ParseRule × RuleDb
create_parse now ctx body db =
    maybe (get_active_by_name ctx body.memory_field_name db.fields) (err not_found, db)
      λ mf. with_parse_capability now ctx body mf.id db

abbrev pub updated_parse :
    RequestContext → String → String → RuleUpdateBody → ParseRule → ℕ → ℕ → ParseRule
updated_parse ctx field_name rule body current version id = record {
  id = id;
  tenant_id = ctx.tenant_id;
  org_id = ctx.org_id;
  memory_field_id = current.memory_field_id;
  memory_field_name = field_name;
  rule_name = rule;
  capability_id = given_or_old body.capability_id current.capability_id;
  rule_type = "custom";
  rule_config_json = config_or body.rule_config_json current.rule_config_json;
  priority = given_or body.priority current.priority;
  version = version;
  source = "api";
  deleted = 0;
  created_by = ctx.user_id;
  updated_by = ctx.user_id;
}

unfoldable pub replace_parse :
    RequestContext
    → String
    → String
    → RuleUpdateBody
    → ParseRule
    → RuleDb
    → Result ParseRule × RuleDb
replace_parse ctx field_name rule body current db =
    let db' = retire_parse ctx current db in
    let version = next_parse_version ctx current.memory_field_id rule db' in
    add_parse ctx (updated_parse ctx field_name rule body current version) current.memory_field_id
      rule version (λ d. d) db db'

unfoldable pub update_parse :
    RequestContext → String → String → RuleUpdateBody → RuleDb → Result ParseRule × RuleDb
update_parse ctx field_name rule body db =
    maybe (get_active_parse ctx field_name rule db) (err not_found, db)
      λ current. replace_parse ctx field_name rule body current db

unfoldable pub delete_parse_soft :
    RequestContext → String → String → RuleDb → Result (Unit {0}) × RuleDb
delete_parse_soft ctx field_name rule db =
    maybe (get_active_parse ctx field_name rule db) (err not_found, db)
      λ current. (ok tt, retire_parse ctx current db)
