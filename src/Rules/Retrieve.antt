-- ===== src/Rules/Retrieve.antt =====
-- The retrieve rules of services/rules.py. A rule without a field is implicit.
use hojo_memory_engine.Prelude.{
  ℕ, ◌+◌, String, Bool, true, false, ◌&&◌, Option, none, some, maybe, update_many, latest, max_rank,
  ◌==◌, nat_eq, string_eq, if◌then◌else◌,
}
use hojo_memory_engine.Result.{Result, ok, err, on_ok, not_found, type_error}
use hojo_memory_engine.Context.{RequestContext}
use hojo_memory_engine.Field.{get_active_by_name}
use hojo_memory_engine.Rules.{
  RetrieveRule, RetrieveRuleCreate, RuleUpdateBody, RuleDb, stored, given_or, given_or_old,
  config_or, filled_text,
}

-- The rows of a rule name, deleted ones too, which share their version numbers.
abbrev pub retrieve_series : RequestContext → String → RetrieveRule → Bool
retrieve_series ctx rule r =
    (r.tenant_id == ctx.tenant_id) && ((r.org_id == ctx.org_id) && (r.rule_name == rule))

abbrev pub is_null : {A : Type 0} → Option A → Bool
is_null none = true
is_null (some a) = false

-- A column compared in SQL: `NULL` equals nothing.
abbrev pub column_is : Option String → String → Bool
column_is none t = false
column_is (some s) t = s == t

-- The filter on the field: none where `memory_field_name` is absent or empty.
abbrev pub on_field : Bool → Option String → RetrieveRule → Bool
on_field true name r = is_null r.memory_field_id
on_field false none r = true
on_field false (some name) r = if name == "" then true else column_is r.memory_field_name name

abbrev pub active_retrieve : RequestContext → String → Option String → Bool → RetrieveRule → Bool
active_retrieve ctx rule field_name implicit r =
    (retrieve_series ctx rule r && (r.deleted == 0)) && on_field implicit field_name r

unfoldable pub get_active_retrieve :
    RequestContext → String → Option String → Bool → RuleDb → Option RetrieveRule
get_active_retrieve ctx rule field_name implicit db =
    latest (λ r. r.version) (active_retrieve ctx rule field_name implicit) db.retrieve.rows

unfoldable pub next_retrieve_version : RequestContext → String → RuleDb → ℕ
next_retrieve_version ctx rule db =
    max_rank (λ r. r.version) (retrieve_series ctx rule) db.retrieve.rows + 1

abbrev same_field_id : Option ℕ → Option ℕ → Bool
same_field_id (some a) (some b) = a == b
same_field_id _ _ = false

-- The unique key, which rows without a field never share.
abbrev pub retrieve_key : RequestContext → String → ℕ → Option ℕ → RetrieveRule → Bool
retrieve_key ctx rule version field_id r =
    (retrieve_series ctx rule r && (r.version == version))
    && same_field_id r.memory_field_id field_id

unfoldable pub add_retrieve :
    RequestContext
    → (ℕ → RetrieveRule)
    → String
    → ℕ
    → Option ℕ
    → RuleDb
    → RuleDb
    → Result RetrieveRule × RuleDb
add_retrieve ctx row rule version field_id before db =
    maybe (stored (retrieve_key ctx rule version field_id) row db.retrieve) (err type_error, before)
      λ t. (ok (row db.retrieve.next_id), record db { retrieve = t })

abbrev pub created_retrieve : RequestContext → RetrieveRuleCreate → Option ℕ → ℕ → ℕ → RetrieveRule
created_retrieve ctx body field_id version id = record {
  id = id;
  tenant_id = ctx.tenant_id;
  org_id = ctx.org_id;
  memory_field_id = field_id;
  memory_field_name = body.memory_field_name;
  rule_name = body.rule_name;
  retrieve_method = body.retrieve_method;
  capability_id = body.capability_id;
  rule_type = "custom";
  rule_config_json = body.rule_config_json;
  priority = body.priority;
  version = version;
  source = "api";
  deleted = 0;
  created_by = ctx.user_id;
  updated_by = ctx.user_id;
}

-- The key of the field that the rule names: none for an implicit rule.
unfoldable pub field_id_of : RequestContext → Option String → RuleDb → Result (Option ℕ)
field_id_of ctx none db = ok none
field_id_of ctx (some name) db =
    if name == ""
    then ok none
    else maybe (get_active_by_name ctx name db.fields) (err not_found) λ mf. ok (some mf.id)

unfoldable pub insert_retrieve :
    RequestContext → RetrieveRuleCreate → Option ℕ → RuleDb → Result RetrieveRule × RuleDb
insert_retrieve ctx body field_id db =
    let version = next_retrieve_version ctx body.rule_name db in
    add_retrieve ctx (created_retrieve ctx body field_id version) body.rule_name version field_id db
      db

unfoldable pub create_retrieve :
    RequestContext → RetrieveRuleCreate → RuleDb → Result RetrieveRule × RuleDb
create_retrieve ctx body db =
    on_ok (field_id_of ctx body.memory_field_name db) db
      λ field_id. insert_retrieve ctx body field_id db

abbrev pub retired_retrieve : RequestContext → RetrieveRule → RetrieveRule
retired_retrieve ctx r = record r { deleted = 1; updated_by = ctx.user_id }

abbrev pub retire_retrieve : RequestContext → RetrieveRule → RuleDb → RuleDb
retire_retrieve ctx current db = record db {
  retrieve = record (db.retrieve) {
    rows = update_many (λ r. r.id == current.id) (retired_retrieve ctx) db.retrieve.rows;
  };
}

abbrev pub updated_retrieve :
    RequestContext → String → RuleUpdateBody → RetrieveRule → ℕ → ℕ → RetrieveRule
updated_retrieve ctx rule body current version id = record {
  id = id;
  tenant_id = ctx.tenant_id;
  org_id = ctx.org_id;
  memory_field_id = current.memory_field_id;
  memory_field_name = current.memory_field_name;
  rule_name = rule;
  retrieve_method = filled_text body.retrieve_method current.retrieve_method;
  capability_id = given_or_old body.capability_id current.capability_id;
  rule_type = "custom";
  rule_config_json = config_or body.rule_config_json current.rule_config_json;
  priority = given_or body.priority current.priority;
  version = version;
  source = "api";
  deleted = 0;
  created_by = ctx.user_id;
  updated_by = ctx.user_id;
}

unfoldable pub replace_retrieve :
    RequestContext → String → RuleUpdateBody → RetrieveRule → RuleDb → Result RetrieveRule × RuleDb
replace_retrieve ctx rule body current db =
    let db' = retire_retrieve ctx current db in
    let version = next_retrieve_version ctx rule db' in
    add_retrieve ctx (updated_retrieve ctx rule body current version) rule version
      current.memory_field_id db db'

unfoldable pub update_retrieve :
    RequestContext → String → RuleUpdateBody → Option String → RuleDb → Result RetrieveRule × RuleDb
update_retrieve ctx rule body field_name db =
    maybe (get_active_retrieve ctx rule field_name false db) (err not_found, db)
      λ current. replace_retrieve ctx rule body current db

unfoldable pub delete_retrieve_soft :
    RequestContext → String → Option String → RuleDb → Result (Unit {0}) × RuleDb
delete_retrieve_soft ctx rule field_name db =
    maybe (get_active_retrieve ctx rule field_name false db) (err not_found, db)
      λ current. (ok tt, retire_retrieve ctx current db)
