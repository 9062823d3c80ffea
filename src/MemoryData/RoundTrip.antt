-- ===== src/MemoryData/RoundTrip.antt =====
-- What a write to memory_data leaves for the reads that follow it.
use text.Mathlib.TextLemmas.{append_assoc}
use hojo_memory_engine.Prelude.{
  ℕ, ◌≤◌, ◌≡◌, ◌≢◌, refl, ap, ◌∙◌, String, Option, none, some, [], ◌∷◌, count, find, update_one,
  nat_eq, string_eq, eq_iff, arith,
}
use hojo_memory_engine.Json.{Json}
use hojo_memory_engine.Services.{Services}
use hojo_memory_engine.Claim.Store.{◌⊕◌}
use hojo_memory_engine.MemoryData.Store.{
  MemoryDoc, MemoryDb, MemoryKey, doc_raw, doc_id, has_id, is_live, get_memory_data, new_value,
  or_kept, upserted_doc, replace_one, upsert_memory_data, soft_deleted, soft_delete_memory_data,
}

find-replace_one :
    (id : String) (doc : MemoryDoc) (db : MemoryDb)
    → doc.id ≡ id
    → doc.deleted ≡ 0
    → find (is_live id) (replace_one id doc db) ≡ some doc
find-replace_one id doc [] e z = ground (arith, eq_iff doc.id id)
find-replace_one id doc (d ∷ ds) e z =
    ground (arith, eq_iff doc.id id, find-replace_one id doc ds e z)

find-replace_one_other :
    (id other : String) (doc : MemoryDoc) (db : MemoryDb)
    → doc.id ≡ id
    → other ≢ id
    → find (is_live other) (replace_one id doc db) ≡ find (is_live other) db
find-replace_one_other id other doc [] e apart = ground (arith, eq_iff doc.id other)
find-replace_one_other id other doc (d ∷ ds) e apart = ground (
  arith,
  eq_iff doc.id other,
  eq_iff d.id other,
  eq_iff d.id id,
  find-replace_one_other id other doc ds e apart,
)

module _ (sv : Services) (now : ℕ) (k : MemoryKey) (value : Json) (match_method : String)
    (expression : Option String) (db : MemoryDb) where
  abbrev pub written : MemoryDoc × MemoryDb
  written = upsert_memory_data sv now k value match_method expression db

  -- The document that `upsert_memory_data` returns is the one that the next read of its key finds,
  -- and the reads of every key with another document id find what they found before.
  pub get-upsert :
      (get_memory_data sv k written.1 ≡ some written.0)
      × ((j : MemoryKey)
          → doc_id sv j ≢ doc_id sv k
          → get_memory_data sv j written.1 ≡ get_memory_data sv j db)
  unfolding get_memory_data upsert_memory_data upserted_doc
  get-upsert = (
    find-replace_one (doc_id sv k) written.0 db refl refl,
    λ j apart. find-replace_one_other (doc_id sv k) (doc_id sv j) written.0 db refl apart,
  )

-- MongoDB keeps the ids of a collection apart.
abbrev pub IsKeyed : MemoryDb → Type 0
IsKeyed db = (id : String) → count (has_id id) db ≤ 1

live-none : (id : String) (db : MemoryDb) → count (has_id id) db ≡ 0 → find (is_live id) db ≡ none
live-none id [] h = refl
live-none id (x ∷ xs) h = ground (arith, live-none id xs)

-- The document that is deleted is the only one of its id.
find-deleted :
    (id : String) (now : ℕ) (db : MemoryDb) {d : MemoryDoc}
    → count (has_id id) db ≤ 1
    → find (is_live id) db ≡ some d
    → find (has_id id) (update_one (is_live id) (soft_deleted now) db) ≡ some (soft_deleted now d)
find-deleted id now [] h e = cc
find-deleted id now (x ∷ xs) {d} h e =
    ground (arith, live-none id xs, find-deleted id now xs {d = d})

get-deleted :
    (id : String) (now : ℕ) (db : MemoryDb)
    → count (has_id id) db ≤ 1
    → find (is_live id) (update_one (is_live id) (soft_deleted now) db) ≡ none
get-deleted id now [] h = refl
get-deleted id now (x ∷ xs) h = ground (arith, live-none id xs, get-deleted id now xs)

module _ (sv : Services) (t now : ℕ) (k : MemoryKey) (db : MemoryDb) (h : IsKeyed db) where
  abbrev pub emptied : MemoryDb
  emptied = (soft_delete_memory_data sv t k db).1

  -- Where ids are not shared, a read finds nothing after `soft_delete_memory_data`.
  pub get-soft_delete : get_memory_data sv k emptied ≡ none
  unfolding get_memory_data soft_delete_memory_data
  get-soft_delete = get-deleted (doc_id sv k) t db (h (doc_id sv k))

  -- Where ids are not shared and the key has a memory, a write after its deletion starts it anew,
  -- whatever the match method: the next read finds the new value alone, the time of the write as
  -- that of its creation and no recent use. But its original expression, where the write brings
  -- none, is that of the deleted memory.
  pub upsert-soft_delete :
      (d : MemoryDoc) (value : Json) (match_method : String) (expression : Option String)
      → get_memory_data sv k db ≡ some d
      → let written = upsert_memory_data sv now k value match_method expression emptied in
        (get_memory_data sv k emptied ≡ none)
        × (get_memory_data sv k written.1 ≡ some written.0)
        × (written.0.value ≡ value)
        × (written.0.create_time ≡ some now)
        × (written.0.recently_used ≡ none)
        × (written.0.original_expression ≡ or_kept expression d.original_expression)
  unfolding get_memory_data soft_delete_memory_data upsert_memory_data upserted_doc new_value
  upsert-soft_delete d value match_method expression e =
      let there = find-deleted (doc_id sv k) t db {d = d} (h (doc_id sv k)) e in
      (
        get-soft_delete,
        (get-upsert sv now k value match_method expression emptied).0,
        rw there refl,
        rw there refl,
        rw there refl,
        rw there refl,
      )

abbrev pub unsourced : ℕ → ℕ → String → String → MemoryKey
unsourced tenant org user field_name = record {
  tenant_id = tenant;
  org_id = org;
  user_id = user;
  memory_field_name = field_name;
  source = none;
}

doc_id-shift :
    (sv : Services) (tenant org : ℕ) (user part rest : String)
    → doc_id sv (unsourced tenant org (user ⊕ ":" ⊕ part) rest)
      ≡ doc_id sv (unsourced tenant org user (part ⊕ ":" ⊕ rest))
unfolding doc_id doc_raw
doc_id-shift sv tenant org user part rest =
    ap (λ t. sv.sha256 (sv.str_int tenant ⊕ ":" ⊕ sv.str_int org ⊕ ":" ⊕ t))
      (append_assoc user (":" ⊕ part) (":" ⊕ rest)
        ∙ ap (λ t. user ⊕ t) (append_assoc ":" part (":" ⊕ rest)))

-- The parts of the id are joined by colons, which they may contain themselves: the memory that one
-- user writes is the one that another user's read of another field finds.
pub get-upsert_shift :
    (sv : Services) (now tenant org : ℕ) (user part rest : String) (value : Json)
    (match_method : String) (expression : Option String) (db : MemoryDb)
    → let (doc, db') =
        upsert_memory_data sv now
          (unsourced tenant org user (part ⊕ ":" ⊕ rest))
          value
          match_method
          expression
          db in
      get_memory_data sv (unsourced tenant org (user ⊕ ":" ⊕ part) rest) db' ≡ some doc
unfolding get_memory_data
get-upsert_shift sv now tenant org user part rest value match_method expression db =
    rw (doc_id-shift sv tenant org user part rest)
      (get-upsert sv now (unsourced tenant org user (part ⊕ ":" ⊕ rest)) value match_method
        expression db).0
