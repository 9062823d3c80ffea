-- ===== src/Field/Operations.antt =====
-- What `create`, `update` and `delete_soft` of services/memory_field.py do to the rows of a name.
use hojo_memory_engine.Prelude.{
  ℕ, ◌<◌, ◌≡◌, refl, ◌∙◌, String, Bool, true, none, some, count, Holds, arith, eq_iff, ◌==◌, nat_eq,
  string_eq, inl, inr, Option-cases, maybe, maybe-intro, if-intro, rank-le-max_rank, count-pos,
  count-update_many_cleared, any, max_rank-update_many, count-snoc,
}
use hojo_memory_engine.Result.{ok, err, HttpError, not_found, conflict, on_ok-intro}
use hojo_memory_engine.Context.{RequestContext}
use hojo_memory_engine.Services.{Services}
use hojo_memory_engine.Field.{
  MemoryField, MemoryFieldCreate, MemoryFieldUpdate, FieldEvent, FieldDb, in_scope, active_in,
  next_version, select_active, checks, change, get_active_by_name, add_row, publish, Outcome,
  created_row, updated_row, insert_created, create, soft_deleted, replace_row, update, delete_soft,
}
use hojo_memory_engine.Field.Versions.{
  IsVersioned, publish-IsVersioned, add_row-IsVersioned, retired, retired-IsVersioned,
  retired_vacant,
}
use hojo_memory_engine.Field.Lookup.{
  get_active_by_name-some, get_active_by_name-none, same_lookup, alone-found, Holds-snoc,
}

-- What storing the next version of a name does to the rows, where it had no active row.
record IsAdded (ctx : RequestContext) (name : String) (db db' : FieldDb) (row : MemoryField)
    : Type 0 where
  held : Holds db'.rows row
  active : active_in ctx name row ≡ true
  alone : count (active_in ctx name) db'.rows ≡ 1
  newer : (r : MemoryField) → Holds db.rows r → in_scope ctx name r ≡ true → r.version < row.version

-- The row is the next version of its name, for every lookup of `get_active_by_name`.
pub record IsNext (ctx : RequestContext) (name : String) (db db' : FieldDb) (row : MemoryField)
    : Type 0 where
  pub found :
      (other : RequestContext)
      → other.tenant_id ≡ ctx.tenant_id
      → other.org_id ≡ ctx.org_id
      → get_active_by_name other name db' ≡ some row
  pub alone : count (active_in ctx name) db'.rows ≡ 1
  pub newer :
      (r : MemoryField) → Holds db.rows r → in_scope ctx name r ≡ true → r.version < row.version

module _ (ctx : RequestContext) (name : String) (row : ℕ → MemoryField) (db : FieldDb)
    (scoped : active_in ctx name (row db.next_id) ≡ true)
    (next : (row db.next_id).version ≡ next_version ctx name db)
    (vacant : count (active_in ctx name) db.rows ≡ 0) where
  add_row-IsAdded : IsAdded ctx name db (add_row row db) (row db.next_id)
  unfolding select_active next_version
  add_row-IsAdded = record {
    held = Holds-snoc db.rows (row db.next_id);
    active = scoped;
    alone = ground (arith, count-snoc (active_in ctx name) db.rows (row db.next_id));
    newer = λ r held s.
        omega (
          arith,
          next,
          rank-le-max_rank (λ r. r.version) (in_scope ctx name) db.rows {x = r} held s,
        );
  }

-- A step keeps the invariant, and a row that it returns is the next version.
record Publishes (ctx : RequestContext) (name : String) (db : FieldDb) (s : Outcome MemoryField)
    : Type 0 where
  pub kept : IsVersioned s.1
  pub next : (row : MemoryField) → s.0 ≡ ok row → IsNext ctx name db s.1 row

module _ (ctx : RequestContext) (name : String) (db : FieldDb) (h : IsVersioned db) where
  raises : (e : HttpError) → Publishes ctx name db (err e, db)
  raises e = record { kept = h; next = λ row t. cc }

  publishing :
      (ev : FieldEvent) (row : MemoryField) (db' : FieldDb)
      → IsVersioned db'
      → IsAdded ctx name db db' row
      → Publishes ctx name db (ok row, publish ev db')
  publishing ev row db' v n =
      let v' = publish-IsVersioned ev db' v in
      record {
        kept = v';
        next = λ r t.
            let same : row ≡ r = cc in
            rw (← same) (record {
              found = λ other t o.
                  same_lookup other ctx name (publish ev db') t o
                  ∙ alone-found ctx name (publish ev db') v' row n.held n.active n.alone;
              alone = n.alone;
              newer = n.newer;
            });
      }

  replace_row-Publishes :
      (body : MemoryFieldUpdate) (current : MemoryField)
      → get_active_by_name ctx name db ≡ some current
      → Publishes ctx name db (replace_row ctx name body current db)
  unfolding replace_row next_version
  replace_row-Publishes body current e =
      let named = λ (r : MemoryField). r.id == current.id in
      let db' = retired ctx named db h in
      let (held, active) = get_active_by_name-some ctx name db h {r = current} e in
      let scoped : in_scope ctx name current ≡ true = ground arith in
      let row = updated_row ctx body current (next_version ctx name db') in
      let v' = retired-IsVersioned ctx named db h in
      let vacant =
        retired_vacant ctx named db h ctx name {r = current} held (ground arith) active in
      let in_name : in_scope ctx name (row db'.next_id) ≡ true =
        ground (arith, eq_iff current.name name) in
      let n = add_row-IsAdded ctx name row db' (ground (arith, in_name)) refl vacant in
      publishing (change ctx name "update" 0 (some (next_version ctx name db'))) (row db'.next_id)
        (add_row row db') (add_row-IsVersioned ctx name row db' v' in_name refl refl vacant)
        (record {
          held = n.held;
          active = n.active;
          alone = n.alone;
          newer = λ r t s.
              let same =
                max_rank-update_many named (soft_deleted ctx) (λ r. r.version) (in_scope ctx name)
                  (λ x. refl) (λ x. refl) db.rows in
              let le = rank-le-max_rank (λ r. r.version) (in_scope ctx name) db.rows {x = r} t s in
              omega (arith, same, le);
        })

  replaced-Publishes :
      (body : MemoryFieldUpdate)
      → Publishes ctx name db (
          maybe
            (get_active_by_name ctx name db)
            (err not_found, db)
            λ current. replace_row ctx name body current db)
  replaced-Publishes body =
      maybe-intro (Publishes ctx name db) (get_active_by_name ctx name db) (err not_found, db)
        (λ current. replace_row ctx name body current db) (λ _. raises not_found)
        (replace_row-Publishes body)

module _ (ctx : RequestContext) (body : MemoryFieldCreate) (db : FieldDb) (h : IsVersioned db) where
  insert_created-Publishes :
      get_active_by_name ctx body.name db ≡ none
      → Publishes ctx body.name db (insert_created ctx body db)
  unfolding insert_created
  insert_created-Publishes e =
      let row = created_row ctx body (next_version ctx body.name db) in
      let vacant = get_active_by_name-none ctx body.name db h e in
      let in_name : in_scope ctx body.name (row db.next_id) ≡ true =
        ground (arith, eq_iff body.name body.name) in
      publishing ctx body.name db h
        (change ctx body.name "create" 0 (some (next_version ctx body.name db))) (row db.next_id)
        (add_row row db) (add_row-IsVersioned ctx body.name row db h in_name refl refl vacant)
        (add_row-IsAdded ctx body.name row db (ground (arith, in_name)) refl vacant)

  create-Publishes :
      (sv : Services) (got_lock : Bool)
      → Publishes ctx body.name db (create sv got_lock ctx body db)
  unfolding create
  create-Publishes sv got_lock =
      on_ok-intro (Publishes ctx body.name db)
        (checks sv got_lock body.json_schema body.access_policy_json body.update_policy_json
          body.retrieval_policy_json)
        db _ (raises ctx body.name db h)
        λ _ _.
          maybe-intro (Publishes ctx body.name db) (get_active_by_name ctx body.name db)
            (insert_created ctx body db) (λ _. (err conflict, db)) insert_created-Publishes
            (λ _ _. raises ctx body.name db h conflict)

  -- `create` keeps the rows versioned, whatever it raises or returns.
  pub create-IsVersioned :
      (sv : Services) (got_lock : Bool) → IsVersioned (create sv got_lock ctx body db).1
  create-IsVersioned sv got_lock = (create-Publishes sv got_lock).kept

  -- A row that `create` returns is the only active row of its name afterwards, the one that
  -- `get_active_by_name` then finds, from the cache or not, for every caller of the tenant and
  -- organisation, and its version is above that of every earlier row of the name.
  pub create-IsNext :
      (sv : Services) (got_lock : Bool) (row : MemoryField)
      → (create sv got_lock ctx body db).0 ≡ ok row
      → IsNext ctx body.name db (create sv got_lock ctx body db).1 row
  create-IsNext sv got_lock = (create-Publishes sv got_lock).next

module _ (ctx : RequestContext) (name : String) (body : MemoryFieldUpdate) (db : FieldDb)
    (h : IsVersioned db) where
  update-Publishes :
      (sv : Services) (got_lock : Bool)
      → Publishes ctx name db (update sv got_lock ctx name body db)
  unfolding update
  update-Publishes sv got_lock =
      on_ok-intro (Publishes ctx name db)
        (checks sv got_lock body.json_schema body.access_policy_json body.update_policy_json
          body.retrieval_policy_json)
        db _ (raises ctx name db h) λ _ _. replaced-Publishes ctx name db h body

  -- `update` keeps the rows versioned, whatever it raises or returns.
  pub update-IsVersioned :
      (sv : Services) (got_lock : Bool) → IsVersioned (update sv got_lock ctx name body db).1
  update-IsVersioned sv got_lock = (update-Publishes sv got_lock).kept

  -- A row that `update` returns is the only active row of its name afterwards, the one that
  -- `get_active_by_name` then finds, from the cache or not, for every caller of the tenant and
  -- organisation, and its version is above that of every earlier row of the name.
  pub update-IsNext :
      (sv : Services) (got_lock : Bool) (row : MemoryField)
      → (update sv got_lock ctx name body db).0 ≡ ok row
      → IsNext ctx name db (update sv got_lock ctx name body db).1 row
  update-IsNext sv got_lock = (update-Publishes sv got_lock).next

module _ (ctx : RequestContext) (name : String) (db : FieldDb) (h : IsVersioned db) where
  abbrev emptied : FieldDb
  emptied = retired ctx (active_in ctx name) db h

  -- `delete_soft` keeps the rows versioned, whatever it raises or returns.
  pub delete_soft-IsVersioned : IsVersioned (delete_soft ctx name db).1
  unfolding delete_soft
  delete_soft-IsVersioned =
      if-intro (λ (s : Outcome (Unit {0})). IsVersioned s.1) (any (active_in ctx name) db.rows) _ _
        (λ _.
          publish-IsVersioned (change ctx name "delete" 1 none) emptied
            (retired-IsVersioned ctx (active_in ctx name) db h))
        (λ _. h)

  emptied_vacant : count (active_in ctx name) emptied.rows ≡ 0
  emptied_vacant =
      count-update_many_cleared (active_in ctx name) (soft_deleted ctx) (active_in ctx name)
        (λ r. ground arith) (λ r e. e) db.rows

  deleted_vacant :
      (delete_soft ctx name db).0 ≡ ok tt
      → count (active_in ctx name) (delete_soft ctx name db).1.rows ≡ 0
  unfolding delete_soft
  deleted_vacant =
      if-intro (λ (s : Outcome (Unit {0})). s.0 ≡ ok tt → count (active_in ctx name) s.1.rows ≡ 0)
        (any (active_in ctx name) db.rows) _ _ (λ _ _. emptied_vacant) (λ _ t. cc)

  -- Once `delete_soft` has returned, no lookup of the name finds a row, not even through an entry
  -- that the cache still has.
  pub delete_soft-gone :
      (delete_soft ctx name db).0 ≡ ok tt
      → get_active_by_name ctx name (delete_soft ctx name db).1 ≡ none
  delete_soft-gone e =
      let after = (delete_soft ctx name db).1 in
      elim (Option-cases (get_active_by_name ctx name after)) [
        | inl n ↦ n
        | inr (r, f) ↦
            let (held, active) =
              get_active_by_name-some ctx name after delete_soft-IsVersioned {r = r} f in
            absurd (
              omega (
                arith,
                count-pos (active_in ctx name) after.rows {x = r} held active,
                deleted_vacant e,
              ))
      ]
