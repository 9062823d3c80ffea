-- ===== src/Field/Versions.antt =====
-- The invariant of the field rows of services/memory_field.py, and that every operation keeps it.
use hojo_memory_engine.Prelude.{
  ℕ, ◌+◌, ◌≤◌, ◌<◌, ◌≡◌, refl, String, Bool, true, ◌&&◌, some, List, [], ◌∷◌, ◌++◌, count, All,
  Holds, update_many, arith, eq_iff, ◌==◌, nat_eq, string_eq, inl, inr, Bool-cases, count-snoc,
  count-le, count-update_many_same, count-update_many_le, count-update_many_loses,
  count-above-max_rank, All-update_many, All-append, All-map,
}
use hojo_memory_engine.Context.{RequestContext}
use hojo_memory_engine.Field.{
  MemoryField, CachedSchema, FieldEvent, FieldDb, in_scope, active_in, next_version, add_row,
  publish, soft_deleted,
}

abbrev pub at_version : RequestContext → String → ℕ → MemoryField → Bool
at_version ctx name v r = in_scope ctx name r && (r.version == v)

abbrev pub numbered : ℕ → MemoryField → Bool
numbered id r = r.id == id

pub record IsVersioned (db : FieldDb) : Type 0 where
  -- One active row at most for each name of a tenant's organisation.
  pub one_active : (ctx : RequestContext) (name : String) → count (active_in ctx name) db.rows ≤ 1
  -- The versions of a name are not shared, deleted rows included.
  pub versioned :
      (ctx : RequestContext) (name : String) (v : ℕ) → count (at_version ctx name v) db.rows ≤ 1
  pub distinct : (id : ℕ) → count (numbered id) db.rows ≤ 1
  pub below_next : All (λ r. r.id < db.next_id) db.rows
  -- An entry of the cache names a row of the name that it is kept for.
  pub cached :
      (ctx : RequestContext) (name : String) {c : CachedSchema}
      → db.cache ctx.tenant_id ctx.org_id name ≡ some c
      → (c.id < db.next_id) × All (λ r. r.id ≡ c.id → in_scope ctx name r ≡ true) db.rows

pub publish-IsVersioned :
    (e : FieldEvent) (db : FieldDb) → IsVersioned db → IsVersioned (publish e db)
publish-IsVersioned e db h = record {
  one_active = h.one_active;
  versioned = h.versioned;
  distinct = h.distinct;
  below_next = h.below_next;
  cached = h.cached;
}

id_unused :
    (n : ℕ) (rows : List MemoryField) → All (λ r. r.id < n) rows → count (numbered n) rows ≡ 0
id_unused n [] h = refl
id_unused n (r ∷ rs) h = ground (arith, id_unused n rs h.1)

-- Adding the next version of a name that has no active row.
module _ (ctx : RequestContext) (name : String) (row : ℕ → MemoryField) (db : FieldDb)
    (h : IsVersioned db) (scoped : in_scope ctx name (row db.next_id) ≡ true)
    (next : (row db.next_id).version ≡ next_version ctx name db)
    (id : (row db.next_id).id ≡ db.next_id) (vacant : count (active_in ctx name) db.rows ≡ 0) where
  abbrev new : MemoryField
  new = row db.next_id

  same_scope :
      (c : RequestContext) (n : String)
      → in_scope c n new ≡ true
      → (c.tenant_id ≡ ctx.tenant_id) × (c.org_id ≡ ctx.org_id) × (n ≡ name)
  same_scope c n t =
      let a = eq_iff new.name n in
      let b = eq_iff new.name name in
      (ground (arith, scoped), ground (arith, scoped), ground (arith, scoped, a, b))

  scope_of :
      (c : RequestContext) (n : String)
      → in_scope c n new ≡ true
      → (r : MemoryField) → in_scope c n r ≡ in_scope ctx name r
  scope_of c n t r = let (e, f, g) = same_scope c n t in rw (e, f, g) refl

  one_active_after :
      (c : RequestContext) (n : String) → count (active_in c n) (add_row row db).rows ≤ 1
  one_active_after c n =
      let snoc = count-snoc (active_in c n) db.rows new in
      elim (Bool-cases (in_scope c n new)) [
        | inl t ↦
            let le =
              count-le (active_in ctx name) (active_in c n) (λ r e. rw (← scope_of c n t r) e)
                db.rows in
            ground (arith, snoc, le, vacant)
        | inr t ↦ ground (arith, snoc, h.one_active c n)
      ]

  versioned_after :
      (c : RequestContext) (n : String) (v : ℕ) → count (at_version c n v) (add_row row db).rows ≤ 1
  unfolding next_version
  versioned_after c n v =
      let snoc = count-snoc (at_version c n v) db.rows new in
      elim (Bool-cases (at_version c n v new)) [
        | inl t ↦
            let s : in_scope c n new ≡ true = ground arith in
            let u : new.version ≡ v = ground arith in
            let zero =
              count-above-max_rank (λ r. r.version) (in_scope ctx name) (at_version c n v) db.rows v
                (λ r e. (rw (← scope_of c n s r) (ground arith), ground arith))
                (omega (arith, next, u)) in
            ground (arith, snoc, zero)
        | inr t ↦ ground (arith, snoc, h.versioned c n v)
      ]

  cached_after :
      (c : RequestContext) (n : String) {e : CachedSchema}
      → db.cache c.tenant_id c.org_id n ≡ some e
      → (e.id < db.next_id + 1)
        × All (λ r. r.id ≡ e.id → in_scope c n r ≡ true) (db.rows ++ new ∷ [])
  cached_after c n {e} t =
      let (lt, rows) = h.cached c n {c = e} t in
      (
        omega (arith, lt),
        All-append (λ r. r.id ≡ e.id → in_scope c n r ≡ true) db.rows (new ∷ []) rows
            ((λ u. absurd (omega (arith, u, id, lt))), tt),
      )

  pub add_row-IsVersioned : IsVersioned (add_row row db)
  add_row-IsVersioned = record {
    one_active = one_active_after;
    versioned = versioned_after;
    distinct = λ i. ground (
      arith,
      count-snoc (numbered i) db.rows new,
      h.distinct i,
      id_unused db.next_id db.rows h.below_next,
    );
    below_next =
        All-append (λ r. r.id < db.next_id + 1) db.rows (new ∷ [])
          (All-map (λ r. r.id < db.next_id) (λ r. r.id < db.next_id + 1) (λ r lt. omega (arith, lt))
            db.rows h.below_next)
          (omega (arith, id), tt);
    cached = λ c n {c = e} t. cached_after c n {e = e} t;
  }

-- Soft-deleting rows.
module _ (ctx : RequestContext) (p : MemoryField → Bool) (db : FieldDb) (h : IsVersioned db) where
  abbrev pub retired : FieldDb
  retired = record db { rows = update_many p (soft_deleted ctx) db.rows }

  pub retired-IsVersioned : IsVersioned retired
  retired-IsVersioned = record {
    one_active = λ c n. omega (
      arith,
      h.one_active c n,
      count-update_many_le p (soft_deleted ctx) (active_in c n) (λ r e. ground arith) db.rows,
    );
    versioned = λ c n v. omega (
      arith,
      h.versioned c n v,
      count-update_many_same p (soft_deleted ctx) (at_version c n v) (λ r. refl) db.rows,
    );
    distinct = λ i. omega (
      arith,
      h.distinct i,
      count-update_many_same p (soft_deleted ctx) (numbered i) (λ r. refl) db.rows,
    );
    below_next =
        All-update_many (λ r. r.id < db.next_id) p (soft_deleted ctx) (λ r e. e) db.rows
          h.below_next;
    cached = λ c n {c = e} t.
        let (lt, rows) = h.cached c n {c = e} t in
        (
          lt,
          All-update_many (λ r. r.id ≡ e.id → in_scope c n r ≡ true) p (soft_deleted ctx) (λ r k. k)
              db.rows rows,
        );
  }

  -- The row of a name goes if it is among them.
  pub retired_vacant :
      (c : RequestContext) (n : String) {r : MemoryField}
      → Holds db.rows r
      → p r ≡ true
      → active_in c n r ≡ true
      → count (active_in c n) retired.rows ≡ 0
  retired_vacant c n {r} held t a = omega (
    arith,
    h.one_active c n,
    count-update_many_loses p (soft_deleted ctx) (active_in c n) (λ x. ground arith) db.rows {x = r}
        held t a,
  )
