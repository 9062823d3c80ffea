-- ===== src/Field.antt =====
-- services/memory_field.py: versioned memory fields. A change never edits a row: it soft-deletes
-- the active row of the name and inserts one with the next version. Paths are below
-- backend/src/memory_engine.
pub mod Versions
pub mod Lookup
pub mod Operations
pub mod Reach
mod Tests
use hojo_memory_engine.Prelude.{
  ℕ, ◌+◌, String, Bool, true, false, not, ◌&&◌, Option, none, some, List, [], ◌∷◌, ◌++◌, filter,
  find, any, maybe, update_many, latest, max_rank, ◌==◌, nat_eq, string_eq, if◌then◌else◌,
}
use hojo_memory_engine.Json.{ℤ, Json, Fields, get, null, obj}
use hojo_memory_engine.Json.Number.{one, to_float, to_int, between}
use hojo_memory_engine.Result.{Result, ok, err, ◌>>◌, guard, on_ok, not_found, conflict, validation}
use hojo_memory_engine.Context.{RequestContext}
use hojo_memory_engine.Services.{Services}

-- models/schema.py. `deleted` and the audit columns are those of `AuditMixin`.
pub record MemoryField : Type 0 where
  pub id : ℕ
  pub tenant_id : ℕ
  pub org_id : ℕ
  pub name : String
  pub description : Option String
  pub value_type : String
  pub match_method : String
  pub storage_type : String
  pub version : ℕ
  pub status : String
  pub source : String
  pub json_schema : Option Fields
  pub schema_version : String
  pub update_policy_json : Option Fields
  pub access_policy_json : Option Fields
  pub retrieval_policy_json : Option Fields
  pub deleted : ℕ
  pub created_by : Option ℕ
  pub updated_by : Option ℕ

-- schemas/memory_field.py.
pub record MemoryFieldCreate : Type 0 where
  pub name : String
  pub description : Option String
  pub value_type : String
  pub match_method : String
  pub storage_type : String
  pub source : String
  pub json_schema : Option Fields
  pub schema_version : String
  pub update_policy_json : Option Fields
  pub access_policy_json : Option Fields
  pub retrieval_policy_json : Option Fields

pub record MemoryFieldUpdate : Type 0 where
  pub description : Option String
  pub value_type : Option String
  pub match_method : Option String
  pub storage_type : Option String
  pub status : Option String
  pub json_schema : Option Fields
  pub schema_version : Option String
  pub update_policy_json : Option Fields
  pub access_policy_json : Option Fields
  pub retrieval_policy_json : Option Fields

-- The entry of the schema cache; a missing `id` reads as 0.
pub record CachedSchema : Type 0 where
  pub id : ℕ
  pub deleted : ℕ

pub record FieldEvent : Type 0 where
  pub tenant_id : ℕ
  pub org_id : ℕ
  pub memory_field_name : String
  pub event_type : String
  pub deleted : ℕ
  pub version : Option ℕ

-- `published` lists the changes sent to the change log, the last one first.
pub record FieldDb : Type 0 where
  pub rows : List MemoryField
  pub next_id : ℕ
  pub cache : ℕ → ℕ → String → Option CachedSchema
  pub published : List FieldEvent

unfoldable pub validate_json_schema : Services → Option Fields → Result (Unit {0})
validate_json_schema sv none = ok tt
validate_json_schema sv (some schema) = guard (sv.check_schema (obj schema)) validation

-- `d.get(k)` where `None` stands for a missing key too.
abbrev pub or_null : Option Json → Json
or_null none = null
or_null (some v) = v

abbrev within : ℕ → ℕ → Option ℤ → Bool
within lo hi none = false
within lo hi (some z) = between lo hi z

-- `x is None or lo <= conv(x) <= hi`, and false where `conv` raises.
abbrev pub bounded : (Json → Option ℤ) → ℕ → ℕ → Json → Bool
bounded conv lo hi null = true
bounded conv lo hi v = within lo hi (conv v)

-- The tests of `_validate_policy_json`, one for each argument.
unfoldable pub valid_access_policy : Services → Option Fields → Bool
valid_access_policy sv none = true
valid_access_policy sv (some p) = elim (sv.model_validate (obj p)) [ none ↦ false | some _ ↦ true ]

unfoldable pub valid_update_policy : Services → Option Fields → Bool
unfolding to_float one
valid_update_policy sv none = true
valid_update_policy sv (some p) =
    bounded (to_float sv.parse_float) 0 one (or_null (get "min_confidence" p))

unfoldable pub valid_retrieval_policy : Services → Option Fields → Bool
unfolding to_float to_int one
valid_retrieval_policy sv none = true
valid_retrieval_policy sv (some p) =
    bounded (to_float sv.parse_float) 0 one (or_null (get "min_score" p))
    && bounded (to_int sv.parse_int) 1 50 (or_null (get "top_k" p))

unfoldable pub validate_policy_json :
    Services → Option Fields → Option Fields → Option Fields → Result (Unit {0})
validate_policy_json sv access upd retrieval = do
  guard (valid_access_policy sv access) validation
  guard (valid_update_policy sv upd) validation
  guard (valid_retrieval_policy sv retrieval) validation

-- The rows of one name in one tenant and organisation, deleted ones too.
abbrev pub in_scope : RequestContext → String → MemoryField → Bool
in_scope ctx name r =
    (r.tenant_id == ctx.tenant_id) && ((r.org_id == ctx.org_id) && (r.name == name))

abbrev pub active_in : RequestContext → String → MemoryField → Bool
active_in ctx name r = in_scope ctx name r && (r.deleted == 0)

unfoldable pub next_version : RequestContext → String → FieldDb → ℕ
next_version ctx name db = max_rank (λ r. r.version) (in_scope ctx name) db.rows + 1

-- The query of `get_active_by_name` without the cache.
unfoldable pub select_active : RequestContext → String → FieldDb → Option MemoryField
select_active ctx name db = latest (λ r. r.version) (active_in ctx name) db.rows

-- The row that a usable cache entry names.
unfoldable pub from_cache : Option CachedSchema → FieldDb → Option MemoryField
from_cache none db = none
from_cache (some c) db =
    if not (c.deleted == 1) && not (c.id == 0)
    then find (λ r. (r.id == c.id) && (r.deleted == 0)) db.rows
    else none

unfoldable pub get_active_by_name : RequestContext → String → FieldDb → Option MemoryField
get_active_by_name ctx name db =
    maybe (from_cache (db.cache ctx.tenant_id ctx.org_id name) db) (select_active ctx name db) some

-- `session.add(row)` and the flush that gives the row its `id`.
abbrev pub add_row : (ℕ → MemoryField) → FieldDb → FieldDb
add_row row db = record db { rows = db.rows ++ row db.next_id ∷ []; next_id = db.next_id + 1 }

abbrev pub publish : FieldEvent → FieldDb → FieldDb
publish e db = record db { published = e ∷ db.published }

abbrev pub created_row : RequestContext → MemoryFieldCreate → ℕ → ℕ → MemoryField
created_row ctx body version id = record {
  id = id;
  tenant_id = ctx.tenant_id;
  org_id = ctx.org_id;
  name = body.name;
  description = body.description;
  value_type = body.value_type;
  match_method = body.match_method;
  storage_type = body.storage_type;
  version = version;
  status = "active";
  source = body.source;
  json_schema = body.json_schema;
  schema_version = body.schema_version;
  update_policy_json = body.update_policy_json;
  access_policy_json = body.access_policy_json;
  retrieval_policy_json = body.retrieval_policy_json;
  deleted = 0;
  created_by = ctx.user_id;
  updated_by = ctx.user_id;
}

abbrev pub change : RequestContext → String → String → ℕ → Option ℕ → FieldEvent
change ctx name type deleted version = record {
  tenant_id = ctx.tenant_id;
  org_id = ctx.org_id;
  memory_field_name = name;
  event_type = type;
  deleted = deleted;
  version = version;
}

-- `got_lock` is whether `GET_LOCK` gave the session the lock of the name.
abbrev pub Outcome : Type 0 → Type 0
Outcome A = Result A × FieldDb

unfoldable pub insert_created : RequestContext → MemoryFieldCreate → FieldDb → Outcome MemoryField
insert_created ctx body db =
    let version = next_version ctx body.name db in
    (
      ok (created_row ctx body version db.next_id),
      publish (change ctx body.name "create" 0 (some version))
          (add_row (created_row ctx body version) db),
    )

-- What `create` and `update` check before they read a row.
unfoldable pub checks :
    Services
    → Bool
    → Option Fields
    → Option Fields
    → Option Fields
    → Option Fields
    → Result (Unit {0})
unfolding validate_json_schema validate_policy_json
checks sv got_lock schema access upd retrieval =
    validate_json_schema sv schema
    >> validate_policy_json sv access upd retrieval
    >> guard got_lock conflict

unfoldable pub create :
    Services → Bool → RequestContext → MemoryFieldCreate → FieldDb → Outcome MemoryField
create sv got_lock ctx body db =
    on_ok
      (checks sv got_lock body.json_schema body.access_policy_json body.update_policy_json
        body.retrieval_policy_json)
      db
      λ _.
        maybe (get_active_by_name ctx body.name db) (insert_created ctx body db)
          λ _. (err conflict, db)

-- `a if a is not None else b`, and `a or b` on texts.
abbrev or_old {ℓ} : {A : Type ℓ} → Option A → Option A → Option A
or_old none b = b
or_old (some a) b = some a

abbrev text_or : Option String → String → String
text_or none t = t
text_or (some s) t = if s == "" then t else s

abbrev pub updated_row : RequestContext → MemoryFieldUpdate → MemoryField → ℕ → ℕ → MemoryField
updated_row ctx body current version id = record {
  id = id;
  tenant_id = ctx.tenant_id;
  org_id = ctx.org_id;
  name = current.name;
  description = or_old body.description current.description;
  value_type = text_or body.value_type current.value_type;
  match_method = text_or body.match_method current.match_method;
  storage_type = text_or body.storage_type current.storage_type;
  version = version;
  status = text_or body.status current.status;
  source = current.source;
  json_schema = or_old body.json_schema current.json_schema;
  schema_version = text_or body.schema_version current.schema_version;
  update_policy_json = or_old body.update_policy_json current.update_policy_json;
  access_policy_json = or_old body.access_policy_json current.access_policy_json;
  retrieval_policy_json = or_old body.retrieval_policy_json current.retrieval_policy_json;
  deleted = 0;
  created_by = ctx.user_id;
  updated_by = ctx.user_id;
}

-- `deleted = 1`, with the user that did it.
abbrev pub soft_deleted : RequestContext → MemoryField → MemoryField
soft_deleted ctx r = record r { deleted = 1; updated_by = ctx.user_id }

-- The row `current` is replaced by a new version.
unfoldable pub replace_row :
    RequestContext → String → MemoryFieldUpdate → MemoryField → FieldDb → Outcome MemoryField
replace_row ctx name body current db =
    let db' = record db {
      rows = update_many (λ r. r.id == current.id) (soft_deleted ctx) db.rows;
    } in
    let version = next_version ctx name db' in
    (
      ok (updated_row ctx body current version db'.next_id),
      publish (change ctx name "update" 0 (some version))
          (add_row (updated_row ctx body current version) db'),
    )

unfoldable pub update :
    Services → Bool → RequestContext → String → MemoryFieldUpdate → FieldDb → Outcome MemoryField
update sv got_lock ctx name body db =
    on_ok
      (checks sv got_lock body.json_schema body.access_policy_json body.update_policy_json
        body.retrieval_policy_json)
      db
      λ _.
        maybe (get_active_by_name ctx name db) (err not_found, db)
          λ current. replace_row ctx name body current db

unfoldable pub delete_soft : RequestContext → String → FieldDb → Outcome (Unit {0})
delete_soft ctx name db =
    if any (active_in ctx name) db.rows
    then (
      ok tt,
      publish (change ctx name "delete" 1 none)
          (record db { rows = update_many (active_in ctx name) (soft_deleted ctx) db.rows }),
    )
    else (err not_found, db)
