-- ===== src/Capability.antt =====
-- services/capability_registry.py: registration, heartbeat and removal of capabilities, whose rows
-- are versioned as those of the fields are, with a cache that the service writes itself.
pub mod Registry
mod Tests
use mathlib.Core.Bool.{decide}
use hojo_memory_engine.Prelude.{
  ℕ, ◌+◌, String, Bool, true, false, not, ◌&&◌, Option, none, some, List, [], ◌∷◌, ◌++◌, find, any,
  maybe, update_many, update_one, latest, max_rank, ◌==◌, nat_eq, string_eq, if◌then◌else◌,
}
use hojo_memory_engine.Json.{
  pos, Json, null, bool, int, float, str, arr, obj, Items, nil, cons, Fields, end, field, canonical,
  Json-discrete,
}
use hojo_memory_engine.Json.Number.{one, of_int}
use hojo_memory_engine.Result.{Result, ok, err, ◌>>=◌, on_ok, not_found}
use hojo_memory_engine.Context.{RequestContext}

-- models/schema.py. `rule_kind` is one of the texts "parse", "retrieve" and "call".
pub record CapabilityRow : Type 0 where
  pub id : ℕ
  pub tenant_id : ℕ
  pub org_id : ℕ
  pub capability_name : String
  pub module_name : String
  pub service_name : String
  pub rule_kind : String
  pub slot_name : Option String
  pub config_json : Option Fields
  pub enabled : ℕ
  pub last_seen_time : Option String
  pub heartbeat_version : ℕ
  pub code_fingerprint : Option String
  pub version : ℕ
  pub owner_user_id : Option ℕ
  pub deleted : ℕ
  pub created_by : Option ℕ
  pub updated_by : Option ℕ

-- schemas/capability.py.
pub record CapabilityRegisterBody : Type 0 where
  pub capability_name : String
  pub module_name : String
  pub service_name : String
  pub rule_kind : String
  pub slot_name : Option String
  pub config_json : Option Fields
  pub code_fingerprint : Option String
  pub enabled : ℕ

pub record CapabilityOut : Type 0 where
  pub id : ℕ
  pub tenant_id : ℕ
  pub org_id : ℕ
  pub capability_name : String
  pub module_name : String
  pub service_name : String
  pub rule_kind : String
  pub slot_name : Option String
  pub config_json : Option Fields
  pub enabled : ℕ
  pub last_seen_time : Option String
  pub heartbeat_version : ℕ
  pub code_fingerprint : Option String
  pub version : ℕ

-- What `get_active` reads of a cache entry; a missing `id` or `deleted` reads as 0.
pub record CachedCapability : Type 0 where
  pub cached_id : ℕ
  pub cached_deleted : ℕ

abbrev pub CapabilityCache : Type 0
CapabilityCache = ℕ → ℕ → String → String → Option CachedCapability

pub record CapabilityDb : Type 0 where
  pub rows : List CapabilityRow
  pub next_id : ℕ
  pub cache : CapabilityCache

abbrev pub to_out : CapabilityRow → CapabilityOut
to_out r = record {
  id = r.id;
  tenant_id = r.tenant_id;
  org_id = r.org_id;
  capability_name = r.capability_name;
  module_name = r.module_name;
  service_name = r.service_name;
  rule_kind = r.rule_kind;
  slot_name = r.slot_name;
  config_json = r.config_json;
  enabled = r.enabled;
  last_seen_time = r.last_seen_time;
  heartbeat_version = r.heartbeat_version;
  code_fingerprint = r.code_fingerprint;
  version = r.version;
}

-- The rows of a capability, deleted ones too.
abbrev pub in_capability : RequestContext → String → String → CapabilityRow → Bool
in_capability ctx name kind r =
    (r.tenant_id == ctx.tenant_id)
    && ((r.org_id == ctx.org_id) && ((r.capability_name == name) && (r.rule_kind == kind)))

abbrev pub is_registered : RequestContext → String → String → CapabilityRow → Bool
is_registered ctx name kind r = in_capability ctx name kind r && (r.deleted == 0)

unfoldable pub next_capability_version : RequestContext → String → String → CapabilityDb → ℕ
next_capability_version ctx name kind db =
    max_rank (λ r. r.version) (in_capability ctx name kind) db.rows + 1

-- The row that a usable cache entry names.
unfoldable pub cached_row : Option CachedCapability → CapabilityDb → Option CapabilityRow
cached_row none db = none
cached_row (some c) db =
    if not (c.cached_id == 0) && (c.cached_deleted == 0)
    then find (λ r. (r.id == c.cached_id) && (r.deleted == 0)) db.rows
    else none

unfoldable pub get_active : RequestContext → String → String → CapabilityDb → Option CapabilityRow
get_active ctx name kind db =
    maybe (cached_row (db.cache ctx.tenant_id ctx.org_id name kind) db)
      (latest (λ r. r.version) (is_registered ctx name kind) db.rows) some

-- `get_capability`.
unfoldable pub get_capability :
    RequestContext → String → String → CapabilityDb → Option CapabilityOut
get_capability ctx name kind db = maybe (get_active ctx name kind db) none λ r. some (to_out r)

-- `set_capability_cache`, and `delete_capability_cache` where `entry` is `none`.
abbrev pub set_cache :
    RequestContext → String → String → Option CachedCapability → CapabilityDb → CapabilityDb
set_cache ctx name kind entry db = record db {
  cache = λ t o n k.
      if (t == ctx.tenant_id) && ((o == ctx.org_id) && ((n == name) && (k == kind)))
      then entry
      else db.cache t o n k;
}

-- The entry that the dump of a `CapabilityOut` makes: it has no key `deleted`.
abbrev pub entry_of : CapabilityOut → Option CachedCapability
entry_of out = some (record { cached_id = out.id; cached_deleted = 0 })

-- Python's `==` on configurations: numbers by value, objects whatever the order of their keys.
unfoldable mutual
  unfolding one of_int

  numeric : Json → Json
  numeric (bool true) = float (pos one)
  numeric (bool false) = float (pos 0)
  numeric (int z) = float (of_int z)
  numeric (arr xs) = arr (numeric_items xs)
  numeric (obj fs) = obj (numeric_fields fs)
  numeric v = v

  numeric_items : Items → Items
  numeric_items nil = nil
  numeric_items (cons v xs) = cons (numeric v) (numeric_items xs)

  numeric_fields : Fields → Fields
  numeric_fields end = end
  numeric_fields (field k v fs) = field k (numeric v) (numeric_fields fs)

unfoldable pub same_config : Option Fields → Option Fields → Bool
unfolding numeric canonical Json-discrete
same_config none none = true
same_config (some a) (some b) =
    decide (Json-discrete (canonical (numeric (obj a))) (canonical (numeric (obj b))))
same_config _ _ = false

abbrev or_fingerprint : Option String → Option String → Option String
or_fingerprint none old = old
or_fingerprint (some f) old = if f == "" then old else some f

abbrev pub beaten : String → RequestContext → Option String → CapabilityRow → CapabilityRow
beaten now ctx fingerprint r = record r {
  last_seen_time = some now;
  heartbeat_version = r.heartbeat_version + 1;
  code_fingerprint = or_fingerprint fingerprint r.code_fingerprint;
  updated_by = ctx.user_id;
}

-- `now` is the text that `strftime` makes of the clock's reading. The row that is changed is the
-- one that was read, by its key.
unfoldable pub heartbeat :
    String
    → RequestContext
    → String
    → String
    → Option String
    → CapabilityDb
    → Result CapabilityOut × CapabilityDb
heartbeat now ctx name kind fingerprint db =
    maybe (get_active ctx name kind db) (err not_found, db)
      λ row. (
        ok (to_out (beaten now ctx fingerprint row)),
        set_cache ctx name kind (entry_of (to_out row)) (record db {
          rows = update_many (λ r. r.id == row.id) (beaten now ctx fingerprint) db.rows;
        }),
      )

-- What `register` compares before it makes a new version.
unfoldable pub unchanged : CapabilityRow → CapabilityRegisterBody → Bool
unfolding same_config
unchanged r body =
    (r.module_name == body.module_name)
    && ((r.service_name == body.service_name)
        && (same_config r.config_json body.config_json && (r.enabled == body.enabled)))

abbrev pub registered_row : String → RequestContext → CapabilityRegisterBody → ℕ → ℕ → CapabilityRow
registered_row now ctx body version id = record {
  id = id;
  tenant_id = ctx.tenant_id;
  org_id = ctx.org_id;
  capability_name = body.capability_name;
  module_name = body.module_name;
  service_name = body.service_name;
  rule_kind = body.rule_kind;
  slot_name = body.slot_name;
  config_json = body.config_json;
  enabled = body.enabled;
  last_seen_time = some now;
  heartbeat_version = 1;
  code_fingerprint = body.code_fingerprint;
  version = version;
  owner_user_id = ctx.user_id;
  deleted = 0;
  created_by = ctx.user_id;
  updated_by = ctx.user_id;
}

abbrev pub removed : RequestContext → CapabilityRow → CapabilityRow
removed ctx r = record r { deleted = 1; updated_by = ctx.user_id }

-- A new version, after the old one was soft-deleted.
unfoldable pub insert_version :
    String
    → RequestContext
    → CapabilityRegisterBody
    → CapabilityDb
    → Result CapabilityOut × CapabilityDb
insert_version now ctx body db =
    let version = next_capability_version ctx body.capability_name body.rule_kind db in
    let row = registered_row now ctx body version db.next_id in
    (
      ok (to_out row),
      set_cache ctx body.capability_name body.rule_kind (entry_of (to_out row))
          (record db { rows = db.rows ++ row ∷ []; next_id = db.next_id + 1 }),
    )

-- `register`. In the unchanged case the row that it returns is the object that the heartbeat has
-- changed.
unfoldable pub register :
    String
    → RequestContext
    → CapabilityRegisterBody
    → CapabilityDb
    → Result CapabilityOut × CapabilityDb
register now ctx body db =
    maybe (get_active ctx body.capability_name body.rule_kind db) (insert_version now ctx body db)
      λ current.
        if unchanged current body
        then heartbeat now ctx body.capability_name body.rule_kind body.code_fingerprint db
        else insert_version now ctx body
            (record db { rows = update_many (λ r. r.id == current.id) (removed ctx) db.rows })

unfoldable pub delete_capability :
    RequestContext → String → String → CapabilityDb → Result (Unit {0}) × CapabilityDb
delete_capability ctx name kind db =
    if any (is_registered ctx name kind) db.rows
    then (
      ok tt,
      set_cache ctx name kind none
          (record db { rows = update_many (is_registered ctx name kind) (removed ctx) db.rows }),
    )
    else (err not_found, db)

-- The arguments of `resolve_capability_id`.
pub record Binding : Type 0 where
  pub capability_id : Option ℕ
  pub bound_name : Option String
  pub bound_module : Option String
  pub bound_service : Option String
  pub bound_kind : String
  pub bound_slot : Option String
  pub bound_config : Option Fields
  pub bound_fingerprint : Option String

-- A text that is given and not empty.
abbrev given_text : Option String → Option String
given_text none = none
given_text (some s) = if s == "" then none else some s

abbrev given_id : Option ℕ → Option ℕ
given_id none = none
given_id (some n) = if n == 0 then none else some n

unfoldable pub register_bound :
    String
    → RequestContext
    → Binding
    → String
    → String
    → String
    → CapabilityDb
    → Result (Option ℕ) × CapabilityDb
register_bound now ctx b name module_name service_name db =
    let (r, db') =
      register now ctx
        (record {
          capability_name = name;
          module_name = module_name;
          service_name = service_name;
          rule_kind = b.bound_kind;
          slot_name = b.bound_slot;
          config_json = b.bound_config;
          code_fingerprint = b.bound_fingerprint;
          enabled = 1;
        })
        db in
    (r >>= λ out. ok (some out.id), db')

unfoldable pub resolve_capability_id :
    String → RequestContext → Binding → CapabilityDb → Result (Option ℕ) × CapabilityDb
resolve_capability_id now ctx b db =
    maybe (given_id b.capability_id)
      (maybe (given_text b.bound_name) (ok none, db)
        λ name.
          maybe (given_text b.bound_module) (ok none, db)
            λ module_name.
              maybe (given_text b.bound_service) (ok none, db)
                λ service_name. register_bound now ctx b name module_name service_name db)
      λ id. (ok (some id), db)
