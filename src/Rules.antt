-- ===== src/Rules.antt =====
-- services/rules.py: the tables of the parse, merge, retrieve and call rules, whose rows are
-- versioned as those of the fields are; schemas/rules.py; the rows of models/schema.py, with the
-- unique keys of the migrations. The checks that column types make are not modelled. Paths are
-- below backend/src/memory_engine.
pub mod Parse
pub mod Merge
pub mod Retrieve
pub mod Call
pub mod Single
pub mod Selection
pub mod Slots
pub mod Shadows
mod Tests
use hojo_memory_engine.Prelude.{
  ℕ, ◌+◌, String, Bool, Option, none, some, List, [], ◌∷◌, ◌++◌, any, ◌==◌, string_eq,
  if◌then◌else◌,
}
use hojo_memory_engine.Json.{Json, null, int, pos, str, Fields, end}
use hojo_memory_engine.Field.{FieldDb}
use hojo_memory_engine.Capability.{CapabilityDb}

-- `deleted` and the user columns are those of `AuditMixin`.
pub record ParseRule : Type 0 where
  pub id : ℕ
  pub tenant_id : ℕ
  pub org_id : ℕ
  pub memory_field_id : ℕ
  pub memory_field_name : String
  pub rule_name : String
  pub capability_id : Option ℕ
  pub rule_type : String
  pub rule_config_json : Option Fields
  pub priority : ℕ
  pub version : ℕ
  pub source : String
  pub deleted : ℕ
  pub created_by : Option ℕ
  pub updated_by : Option ℕ

pub record MergeRule : Type 0 where
  pub id : ℕ
  pub tenant_id : ℕ
  pub org_id : ℕ
  pub memory_field_id : ℕ
  pub memory_field_name : String
  pub rule_name : String
  pub capability_id : Option ℕ
  pub rule_config_json : Option Fields
  pub priority : ℕ
  pub version : ℕ
  pub source : String
  pub deleted : ℕ
  pub created_by : Option ℕ
  pub updated_by : Option ℕ

pub record RetrieveRule : Type 0 where
  pub id : ℕ
  pub tenant_id : ℕ
  pub org_id : ℕ
  pub memory_field_id : Option ℕ
  pub memory_field_name : Option String
  pub rule_name : String
  pub retrieve_method : String
  pub capability_id : Option ℕ
  pub rule_type : String
  pub rule_config_json : Option Fields
  pub priority : ℕ
  pub version : ℕ
  pub source : String
  pub deleted : ℕ
  pub created_by : Option ℕ
  pub updated_by : Option ℕ

pub record CallRule : Type 0 where
  pub id : ℕ
  pub tenant_id : ℕ
  pub org_id : ℕ
  pub memory_field_id : ℕ
  pub memory_field_name : String
  pub rule_name : String
  pub slot_name : String
  pub capability_id : Option ℕ
  pub rule_type : String
  pub rule_config_json : Option Fields
  pub version : ℕ
  pub source : String
  pub deleted : ℕ
  pub created_by : Option ℕ
  pub updated_by : Option ℕ

-- `ParseRuleCreate` and `MergeRuleCreate`, which have the same fields.
pub record RuleCreate : Type 0 where
  pub memory_field_name : String
  pub rule_name : String
  pub rule_config_json : Option Fields
  pub capability_id : Option ℕ
  pub capability_name : Option String
  pub module_name : Option String
  pub service_name : Option String
  pub code_fingerprint : Option String
  pub priority : ℕ

pub record RetrieveRuleCreate : Type 0 where
  pub memory_field_name : Option String
  pub rule_name : String
  pub retrieve_method : String
  pub rule_config_json : Option Fields
  pub capability_id : Option ℕ
  pub priority : ℕ

pub record CallRuleCreate : Type 0 where
  pub memory_field_name : String
  pub rule_name : String
  pub slot_name : String
  pub rule_config_json : Option Fields
  pub capability_id : Option ℕ
  pub capability_name : Option String
  pub module_name : Option String
  pub service_name : Option String
  pub code_fingerprint : Option String

pub record RuleUpdateBody : Type 0 where
  pub rule_config_json : Option Fields
  pub capability_id : Option ℕ
  pub priority : Option ℕ
  pub retrieve_method : Option String
  pub slot_name : Option String

-- A message of `publish_rule_change`.
pub record RuleEvent : Type 0 where
  pub table : String
  pub tenant_id : ℕ
  pub org_id : ℕ
  pub memory_field_name : String
  pub event_type : String
  pub version : ℕ
  pub payload : Fields

pub record Table (R : Type 0) : Type 0 where
  pub rows : List R
  pub next_id : ℕ

-- `published` lists the messages, the last one first.
pub record RuleDb : Type 0 where
  pub fields : FieldDb
  pub capabilities : CapabilityDb
  pub parse : Table ParseRule
  pub merge : Table MergeRule
  pub retrieve : Table RetrieveRule
  pub call : Table CallRule
  pub published : List RuleEvent

-- An insertion, which fails where a row has the unique key of the new one.
unfoldable pub stored : {R : Type 0} → (R → Bool) → (ℕ → R) → Table R → Option (Table R)
stored same_key row t =
    if any same_key t.rows
    then none
    else some (record t { rows = t.rows ++ row t.next_id ∷ []; next_id = t.next_id + 1 })

-- `a if a is not None else b`.
abbrev pub given_or {ℓ} : {A : Type ℓ} → Option A → A → A
given_or none b = b
given_or (some a) b = a

abbrev pub given_or_old {ℓ} : {A : Type ℓ} → Option A → Option A → Option A
given_or_old none b = b
given_or_old (some a) b = some a

-- `a or b` on configurations: an empty one counts as not given.
abbrev pub config_or : Option Fields → Option Fields → Option Fields
config_or none old = old
config_or (some end) old = old
config_or (some (Fields.field k v fs)) old = some (Fields.field k v fs)

abbrev pub filled_text : Option String → String → String
filled_text none t = t
filled_text (some s) t = if s == "" then t else s

-- `"sdk" if module_name else "api"`.
abbrev pub source_of : Option String → String
source_of none = "api"
source_of (some s) = if s == "" then "api" else "sdk"

abbrev pub id_json : Option ℕ → Json
id_json none = null
id_json (some n) = int (pos n)
