-- ===== src/Capability/Registry.antt =====
-- What registration, heartbeat and removal of services/capability_registry.py do.
use hojo_memory_engine.Prelude.{
  ℕ, ◌+◌, ◌<◌, ◌≡◌, refl, String, Bool, true, ◌&&◌, Option, none, some, List, [], ◌∷◌, ◌++◌, find,
  any, map, All, Holds, maybe, update_many, ◌==◌, nat_eq, string_eq, eq_iff, arith, inl, inr,
  Bool-cases, if-intro, latest_of_none, count-update_many_cleared, rank-le-max_rank,
}
use mathlib.Core.Bool.{decide_iff}
use hojo_memory_engine.Json.{Fields, Json-discrete}
use hojo_memory_engine.Result.{Result, ok}
use hojo_memory_engine.Context.{RequestContext}
use hojo_memory_engine.Capability.{
  CapabilityRow, CapabilityRegisterBody, CapabilityOut, CachedCapability, CapabilityDb, to_out,
  in_capability, is_registered, next_capability_version, cached_row, get_active, set_cache,
  entry_of, beaten, heartbeat, same_config, unchanged, registered_row, removed, insert_version,
  register, delete_capability,
}

-- Storing an entry of the cache and reading it again.
cache-set_cache :
    (ctx : RequestContext) (name kind : String) (entry : Option CachedCapability)
    (db : CapabilityDb)
    → (set_cache ctx name kind entry db).cache ctx.tenant_id ctx.org_id name kind ≡ entry
cache-set_cache ctx name kind entry db = ground (arith, eq_iff name name, eq_iff kind kind)

module _ (ctx : RequestContext) (name kind : String) (db : CapabilityDb) where
  abbrev emptied : CapabilityDb
  emptied =
      set_cache ctx name kind none
        (record db { rows = update_many (is_registered ctx name kind) (removed ctx) db.rows })

  emptied-none : get_active ctx name kind emptied ≡ none
  unfolding get_active maybe cached_row
  emptied-none = rw (cache-set_cache ctx name kind none (record db { rows = emptied.rows })) (
      latest_of_none (λ r. r.version) (is_registered ctx name kind) emptied.rows
        (count-update_many_cleared (is_registered ctx name kind) (removed ctx)
          (is_registered ctx name kind) (λ r. ground arith) (λ r e. e) db.rows))

  -- Once `delete_soft` has returned, no lookup of the capability finds a row, from the cache or
  -- from the table.
  pub delete_capability-gone :
      (delete_capability ctx name kind db).0 ≡ ok tt
      → get_active ctx name kind (delete_capability ctx name kind db).1 ≡ none
  unfolding delete_capability
  delete_capability-gone =
      if-intro
        (λ (s : Result (Unit {0}) × CapabilityDb).
          s.0 ≡ ok tt → get_active ctx name kind s.1 ≡ none)
        (any (is_registered ctx name kind) db.rows) _ _ (λ _ _. emptied-none) (λ _ t. cc)

-- What a heartbeat leaves of a row.
pub record Core : Type 0 where
  pub id : ℕ
  pub slot_name : Option String
  pub version : ℕ
  pub deleted : ℕ

abbrev pub core_of : CapabilityRow → Core
core_of r = record { id = r.id; slot_name = r.slot_name; version = r.version; deleted = r.deleted }

core-beaten :
    (p : CapabilityRow → Bool) (now : String) (ctx : RequestContext) (fingerprint : Option String)
    (rows : List CapabilityRow)
    → map core_of (update_many p (beaten now ctx fingerprint) rows) ≡ map core_of rows
core-beaten p now ctx fingerprint [] = refl
core-beaten p now ctx fingerprint (r ∷ rs) = elim (Bool-cases (p r)) [
  | inl t ↦ rw (t, core-beaten p now ctx fingerprint rs) refl
  | inr t ↦ rw (t, core-beaten p now ctx fingerprint rs) refl
]

same_config_refl : (o : Option Fields) → same_config o o ≡ true
unfolding same_config
same_config_refl none = refl
same_config_refl (some a) = (decide_iff (Json-discrete _ _)).1 refl

module _ (now : String) (ctx : RequestContext) (body : CapabilityRegisterBody)
    (db : CapabilityDb) where
  agreeing :
      (current : CapabilityRow)
      → current.module_name ≡ body.module_name
      → current.service_name ≡ body.service_name
      → current.config_json ≡ body.config_json
      → current.enabled ≡ body.enabled
      → unchanged current body ≡ true
  unfolding unchanged
  agreeing current m s c n =
      let config : same_config current.config_json body.config_json ≡ true =
        rw c (same_config_refl body.config_json) in
      ground (
        arith,
        config,
        eq_iff current.module_name body.module_name,
        eq_iff current.service_name body.service_name,
      )

  -- A registration that names the module, service, configuration and switch of the capability's
  -- active row is answered with the slot of that row, whatever slot it asks for itself, and changes no
  -- row's key, slot, version or deletion mark and adds no row.
  pub register-unchanged :
      (current : CapabilityRow)
      → get_active ctx body.capability_name body.rule_kind db ≡ some current
      → current.module_name ≡ body.module_name
      → current.service_name ≡ body.service_name
      → current.config_json ≡ body.config_json
      → current.enabled ≡ body.enabled
      → ((out : CapabilityOut) × ((register now ctx body db).0 ≡ ok out)
          × (out.slot_name ≡ current.slot_name))
        × (map core_of (register now ctx body db).1.rows ≡ map core_of db.rows)
  unfolding register heartbeat maybe
  register-unchanged current e m s c n =
      let t = agreeing current m s c n in
      rw (e, t)
        (
          (to_out (beaten now ctx body.code_fingerprint current), refl, refl),
          core-beaten (λ r. r.id == current.id) now ctx body.code_fingerprint db.rows,
        )

  id_unused :
      (rows : List CapabilityRow)
      → All (λ r. r.id < db.next_id) rows
      → (row : CapabilityRow) → row.id ≡ db.next_id
      → row.deleted ≡ 0
      → find (λ r. (r.id == db.next_id) && (r.deleted == 0)) (rows ++ row ∷ []) ≡ some row
  id_unused [] h row e z = ground arith
  id_unused (r ∷ rs) h row e z = ground (arith, id_unused rs h.1 row e z)

  abbrev new_row : CapabilityRow
  new_row =
      registered_row now ctx body
        (next_capability_version ctx body.capability_name body.rule_kind db) db.next_id

  abbrev grown : CapabilityDb
  grown = record db { rows = db.rows ++ new_row ∷ []; next_id = db.next_id + 1 }

  cached-new_row :
      All (λ r. r.id < db.next_id) db.rows
      → 0 < db.next_id
      → cached_row
          (entry_of (to_out new_row))
          (set_cache ctx body.capability_name body.rule_kind (entry_of (to_out new_row)) grown)
        ≡ some new_row
  unfolding cached_row
  cached-new_row h positive =
      let found = id_unused db.rows h new_row refl refl in ground (arith, found)

  new_version :
      (r : CapabilityRow)
      → Holds db.rows r
      → in_capability ctx body.capability_name body.rule_kind r ≡ true
      → r.version < new_row.version
  unfolding next_capability_version
  new_version r held t = omega (
    arith,
    rank-le-max_rank (λ r. r.version) (in_capability ctx body.capability_name body.rule_kind)
        db.rows {x = r} held t,
  )

  first_registration :
      get_active ctx body.capability_name body.rule_kind db ≡ none
      → register now ctx body db ≡ insert_version now ctx body db
  unfolding register maybe
  first_registration e = rw e refl

  -- Where keys are positive and below the table's next one, a capability's first registration
  -- returns the row that its cache entry then names and that the next lookup finds, for every caller
  -- of the tenant and organisation, with a version above that of every row the capability ever had.
  pub register-found :
      All (λ r. r.id < db.next_id) db.rows
      → 0 < db.next_id
      → get_active ctx body.capability_name body.rule_kind db ≡ none
      → let after = (register now ctx body db).1 in
        (row : CapabilityRow) × ((register now ctx body db).0 ≡ ok (to_out row))
        × (cached_row
              (after.cache ctx.tenant_id ctx.org_id body.capability_name body.rule_kind)
              after
            ≡ some row)
        × ((other : RequestContext)
            → other.tenant_id ≡ ctx.tenant_id
            → other.org_id ≡ ctx.org_id
            → get_active other body.capability_name body.rule_kind after ≡ some row)
        × ((r : CapabilityRow)
            → Holds db.rows r
            → in_capability ctx body.capability_name body.rule_kind r ≡ true
            → r.version < row.version)
  unfolding insert_version get_active maybe
  register-found h positive e =
      let after = (insert_version now ctx body db).1 in
      let cached : cached_row
            (after.cache ctx.tenant_id ctx.org_id body.capability_name body.rule_kind) after
          ≡ some new_row =
        rw
          (cache-set_cache ctx body.capability_name body.rule_kind (entry_of (to_out new_row))
            grown)
          (cached-new_row h positive) in
      rw (first_registration e)
        (new_row, refl, cached, (λ other t o. rw (t, o, cached) refl), new_version)
