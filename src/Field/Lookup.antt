-- ===== src/Field/Lookup.antt =====
-- What `get_active_by_name` of services/memory_field.py finds, from the cache or from the rows.
use hojo_memory_engine.Prelude.{
  ◌≤◌, ◌≡◌, refl, sym, ap, ◌∙◌, List, [], ◌∷◌, ◌++◌, String, Bool, true, ◌&&◌, Option, none, some,
  count, find, Holds, arith, ◌==◌, nat_eq, string_eq, inl, inr, Option-cases, maybe-intro,
  latest-eq-some, latest-eq-none, count-pos, find-eq-some, All-holds,
}
use hojo_memory_engine.Context.{RequestContext}
use hojo_memory_engine.Field.{
  MemoryField, CachedSchema, FieldDb, in_scope, active_in, select_active, from_cache,
  get_active_by_name,
}
use hojo_memory_engine.Field.Versions.{IsVersioned}

module _ (ctx : RequestContext) (name : String) (db : FieldDb) (h : IsVersioned db) where
  select_active-some :
      {r : MemoryField}
      → select_active ctx name db ≡ some r
      → Holds db.rows r × (active_in ctx name r ≡ true)
  unfolding select_active
  select_active-some {r} e =
      let (a, held) = latest-eq-some (λ r. r.version) (active_in ctx name) db.rows {x = r} e in
      (held, a)

  from_cache-some :
      (c : Option CachedSchema) {r : MemoryField}
      → db.cache ctx.tenant_id ctx.org_id name ≡ c
      → from_cache c db ≡ some r
      → Holds db.rows r × (active_in ctx name r ≡ true)
  unfolding from_cache
  from_cache-some none t e = cc
  from_cache-some (some c) {r} t e =
      let named = λ (r : MemoryField). (r.id == c.id) && (r.deleted == 0) in
      let f : find named db.rows ≡ some r = ground arith in
      let (a, held) = find-eq-some named db.rows {x = r} f in
      let scoped =
        All-holds (λ r. r.id ≡ c.id → in_scope ctx name r ≡ true) db.rows {x = r}
          (h.cached ctx name {c = c} t).1 held in
      (held, ground (arith, a, scoped))

  -- What `get_active_by_name` finds, from the cache or not, is an active row of the name.
  pub get_active_by_name-some :
      {r : MemoryField}
      → get_active_by_name ctx name db ≡ some r
      → Holds db.rows r × (active_in ctx name r ≡ true)
  unfolding get_active_by_name
  get_active_by_name-some {r} e =
      let c = db.cache ctx.tenant_id ctx.org_id name in
      maybe-intro
        (λ o. (r : MemoryField) → o ≡ some r → Holds db.rows r × (active_in ctx name r ≡ true))
        (from_cache c db) (select_active ctx name db) some (λ n r e. select_active-some {r = r} e)
        (λ q n r e. from_cache-some c {r = r} refl (n ∙ e)) r e

  pub get_active_by_name-none :
      get_active_by_name ctx name db ≡ none → count (active_in ctx name) db.rows ≡ 0
  unfolding get_active_by_name select_active
  get_active_by_name-none e =
      let c = db.cache ctx.tenant_id ctx.org_id name in
      maybe-intro (λ o. o ≡ none → count (active_in ctx name) db.rows ≡ 0) (from_cache c db)
        (select_active ctx name db) some
        (λ n e. latest-eq-none (λ r. r.version) (active_in ctx name) db.rows e) (λ q n e. cc) e

pub Holds-snoc : (rs : List MemoryField) (r : MemoryField) → Holds (rs ++ r ∷ []) r
Holds-snoc [] r = inl refl
Holds-snoc (q ∷ rs) r = inr (Holds-snoc rs r)

-- Two rows that pass a test which only one row passes.
only_one :
    (p : MemoryField → Bool) (rs : List MemoryField)
    → count p rs ≤ 1
    → {q r : MemoryField} → Holds rs q
    → p q ≡ true
    → Holds rs r
    → p r ≡ true
    → q ≡ r
only_one p [] h m e n f = absurd m
only_one p (x ∷ rs) h {q} {r} (inl m) e (inl n) f = sym m ∙ n
only_one p (x ∷ rs) h {q} {r} (inl m) e (inr n) f =
    absurd (ground (arith, count-pos p rs {x = r} n f))
only_one p (x ∷ rs) h {q} {r} (inr m) e (inl n) f =
    absurd (ground (arith, count-pos p rs {x = q} m e))
only_one p (x ∷ rs) h {q} {r} (inr m) e (inr n) f =
    only_one p rs (ground arith) {q = q} {r = r} m e n f

-- The only active row is the one that the lookup finds, from the cache or not.
pub alone-found :
    (ctx : RequestContext) (name : String) (db : FieldDb)
    → IsVersioned db
    → (row : MemoryField) → Holds db.rows row
    → active_in ctx name row ≡ true
    → count (active_in ctx name) db.rows ≡ 1
    → get_active_by_name ctx name db ≡ some row
alone-found ctx name db h row held active alone =
    elim (Option-cases (get_active_by_name ctx name db)) [
      | inl n ↦ absurd (omega (arith, alone, get_active_by_name-none ctx name db h n))
      | inr (r, f) ↦
          let (stored, a) = get_active_by_name-some ctx name db h {r = r} f in
          f
          ∙ ap some (
              only_one (active_in ctx name) db.rows (omega (arith, alone)) {q = r} {r = row} stored
                a held active)
    ]

-- A lookup depends on the tenant and the organisation alone.
pub same_lookup :
    (other ctx : RequestContext) (name : String) (db : FieldDb)
    → other.tenant_id ≡ ctx.tenant_id
    → other.org_id ≡ ctx.org_id
    → get_active_by_name other name db ≡ get_active_by_name ctx name db
unfolding get_active_by_name select_active
same_lookup other ctx name db t o = rw (t, o) refl
