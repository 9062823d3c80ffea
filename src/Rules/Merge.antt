-- ===== src/Rules/Merge.antt =====
-- The merge rules of services/rules.py, whose prompt services/memory_merge.py checks.
use hojo_memory_engine.Prelude.{
  ℕ, ◌+◌, String, Bool, false, ◌&&◌, ◌||◌, Option, none, some, ◌∷◌, maybe, update_many, latest,
  max_rank, ◌==◌, nat_eq, string_eq,
}
use hojo_memory_engine.Json.{
  Json, Items, nil, cons, arr, obj, int, pos, str, Fields, end, field, get,
}
use hojo_memory_engine.Text.{includes}
use hojo_memory_engine.Result.{
  Result, ok, err, ◌>>=◌, guard, on_ok, not_found, validation, type_error,
}
use hojo_memory_engine.Context.{RequestContext}
use hojo_memory_engine.Field.{MemoryField, get_active_by_name}
use hojo_memory_engine.Rules.{MergeRule, RuleCreate, RuleDb, stored}

abbrev holds_text : String → Items → Bool
holds_text t nil = false
holds_text t (cons (str s) xs) = (s == t) || holds_text t xs
holds_text t (cons v xs) = holds_text t xs

abbrev has_key : String → Fields → Bool
has_key t end = false
has_key t (field k v fs) = (k == t) || has_key t fs

-- `t in v`, `none` for its `TypeError`.
unfoldable pub text_in : String → Json → Option Bool
unfolding includes
text_in t (str s) = some (includes s t)
text_in t (arr xs) = some (holds_text t xs)
text_in t (obj fs) = some (has_key t fs)
text_in t v = none

abbrev checked : Option Bool → Option Bool → Result (Unit {0})
checked (some a) (some b) = guard (a && b) validation
checked _ _ = err type_error

unfoldable pub validate_merge_prompt : Json → Result (Unit {0})
unfolding text_in
validate_merge_prompt prompt = checked (text_in "{old_value}" prompt) (text_in "{new_value}" prompt)

-- `(config or {}).get("prompt", "")`.
unfoldable pub merge_prompt : Option Fields → Json
unfolding get
merge_prompt none = str ""
merge_prompt (some fs) = elim (get "prompt" fs) [ none ↦ str "" | some v ↦ v ]

abbrev pub active_merge : RequestContext → String → String → MergeRule → Bool
active_merge ctx field_name rule r =
    (r.tenant_id == ctx.tenant_id)
    && ((r.org_id == ctx.org_id)
        && ((r.memory_field_name == field_name) && ((r.rule_name == rule) && (r.deleted == 0))))

-- The rows that share their version numbers, deleted ones too.
abbrev pub merge_series : RequestContext → ℕ → String → MergeRule → Bool
merge_series ctx field_id rule r =
    (r.tenant_id == ctx.tenant_id)
    && ((r.org_id == ctx.org_id) && ((r.memory_field_id == field_id) && (r.rule_name == rule)))

unfoldable pub get_active_merge : RequestContext → String → String → RuleDb → Option MergeRule
get_active_merge ctx field_name rule db =
    latest (λ r. r.version) (active_merge ctx field_name rule) db.merge.rows

abbrev pub retired_merge : RequestContext → MergeRule → MergeRule
retired_merge ctx r = record r { deleted = 1; updated_by = ctx.user_id }

-- The soft deletion of the row `current`, by its key.
abbrev pub retire_merge : RequestContext → MergeRule → RuleDb → RuleDb
retire_merge ctx current db = record db {
  merge = record (db.merge) {
    rows = update_many (λ r. r.id == current.id) (retired_merge ctx) db.merge.rows;
  };
}

abbrev pub retire_current_merge : RequestContext → Option MergeRule → RuleDb → RuleDb
retire_current_merge ctx current db = maybe current db λ r. retire_merge ctx r db

unfoldable pub next_merge_version : RequestContext → ℕ → String → RuleDb → ℕ
next_merge_version ctx field_id rule db =
    max_rank (λ r. r.version) (merge_series ctx field_id rule) db.merge.rows + 1

-- The row is added to `db`, or, where its unique key is taken, the transaction leaves `before`.
unfoldable pub add_merge :
    RequestContext
    → (ℕ → MergeRule)
    → ℕ
    → String
    → ℕ
    → (RuleDb → RuleDb)
    → RuleDb
    → RuleDb
    → Result MergeRule × RuleDb
add_merge ctx row field_id rule version publish before db =
    maybe (stored (λ r. merge_series ctx field_id rule r && (r.version == version)) row db.merge)
      (err type_error, before) λ t. (ok (row db.merge.next_id), publish (record db { merge = t }))

abbrev pub created_merge : RequestContext → RuleCreate → ℕ → ℕ → ℕ → MergeRule
created_merge ctx body field_id version id = record {
  id = id;
  tenant_id = ctx.tenant_id;
  org_id = ctx.org_id;
  memory_field_id = field_id;
  memory_field_name = body.memory_field_name;
  rule_name = body.rule_name;
  capability_id = body.capability_id;
  rule_config_json = body.rule_config_json;
  priority = body.priority;
  version = version;
  source = "api";
  deleted = 0;
  created_by = ctx.user_id;
  updated_by = ctx.user_id;
}

abbrev pub publish_merge : RequestContext → RuleCreate → ℕ → RuleDb → RuleDb
publish_merge ctx body version db = record db {
  published =
      record {
        table = "merge_rule";
        tenant_id = ctx.tenant_id;
        org_id = ctx.org_id;
        memory_field_name = body.memory_field_name;
        event_type = "create";
        version = version;
        payload = field "rule_name" (str body.rule_name) (
            field "memory_field_name" (str body.memory_field_name)
              (field "version" (int (pos version)) end));
      }
      ∷ db.published;
}

unfoldable pub insert_merge : RequestContext → RuleCreate → ℕ → RuleDb → Result MergeRule × RuleDb
insert_merge ctx body field_id db =
    let db' =
      retire_current_merge ctx (get_active_merge ctx body.memory_field_name body.rule_name db) db in
    let version = next_merge_version ctx field_id body.rule_name db' in
    add_merge ctx (created_merge ctx body field_id version) field_id body.rule_name version
      (publish_merge ctx body version) db db'

unfoldable pub check_merge : MemoryField → RuleCreate → Result (Unit {0})
unfolding validate_merge_prompt merge_prompt
check_merge mf body = guard (mf.match_method == "MERGE") validation >>= λ _.
    validate_merge_prompt (merge_prompt body.rule_config_json)

unfoldable pub create_merge : RequestContext → RuleCreate → RuleDb → Result MergeRule × RuleDb
create_merge ctx body db =
    maybe (get_active_by_name ctx body.memory_field_name db.fields) (err not_found, db)
      λ mf. on_ok (check_merge mf body) db λ _. insert_merge ctx body mf.id db

unfoldable pub delete_merge_soft :
    RequestContext → String → String → RuleDb → Result (Unit {0}) × RuleDb
delete_merge_soft ctx field_name rule db =
    maybe (get_active_merge ctx field_name rule db) (err not_found, db)
      λ current. (ok tt, retire_merge ctx current db)
