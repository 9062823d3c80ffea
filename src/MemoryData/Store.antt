-- ===== src/MemoryData/Store.antt =====
-- integrations/mongo_store.py: the collection memory_data. Times are readings of the clock.
use hojo_memory_engine.Claim.Store.{◌⊕◌}
use hojo_memory_engine.Prelude.{
  ℕ, String, Bool, true, false, not, ◌&&◌, ◌||◌, Option, none, some, List, [], ◌∷◌, count, any,
  find, maybe, update_many, update_one, contains, ◌==◌, nat_eq, string_eq, if◌then◌else◌,
}
use hojo_memory_engine.Json.{Json, arr, Items, nil, cons}
use hojo_memory_engine.Text.{strip, includes}
use hojo_memory_engine.Services.{Services}

-- The key `source` of a document, which MongoDB tells from a key with the value null.
pub data StoredSource : Type 0 where
  absent null_source : StoredSource
  given : String → StoredSource

-- `doc.get("source")`.
abbrev pub given_source : StoredSource → Option String
given_source absent = none
given_source null_source = none
given_source (given s) = some s

-- The key is stored_source where the call has a source.
abbrev pub stored_source : Option String → StoredSource
stored_source none = absent
stored_source (some s) = given s

pub record MemoryDoc : Type 0 where
  pub id : String
  pub tenant_id : ℕ
  pub org_id : ℕ
  pub user_id : String
  pub memory_field_name : String
  pub value : Json
  pub deleted : ℕ
  pub updated_at : ℕ
  pub source : StoredSource
  pub create_time : Option ℕ
  pub recently_used : Option String
  pub original_expression : Option String

abbrev pub MemoryDb : Type 0
MemoryDb = List MemoryDoc

-- The memory that the keys of a call name.
pub record MemoryKey : Type 0 where
  pub tenant_id : ℕ
  pub org_id : ℕ
  pub user_id : String
  pub memory_field_name : String
  pub source : Option String

abbrev with_source : String → Option String → String
with_source raw none = raw
with_source raw (some s) = if s == "" then raw else raw ⊕ (":" ⊕ s)

-- The text that `_doc_id` hashes.
unfoldable pub doc_raw : Services → MemoryKey → String
doc_raw sv k =
    with_source
      (sv.str_int k.tenant_id
        ⊕ (":" ⊕ (sv.str_int k.org_id ⊕ (":" ⊕ (k.user_id ⊕ (":" ⊕ k.memory_field_name))))))
      k.source

unfoldable pub doc_id : Services → MemoryKey → String
unfolding doc_raw
doc_id sv k = sv.sha256 (doc_raw sv k)

abbrev pub has_id : String → MemoryDoc → Bool
has_id id d = d.id == id

abbrev pub is_live : String → MemoryDoc → Bool
is_live id d = (d.id == id) && (d.deleted == 0)

unfoldable pub get_memory_data : Services → MemoryKey → MemoryDb → Option MemoryDoc
get_memory_data sv k db = find (is_live (doc_id sv k)) db

abbrev pub append_items : Items → Items → Items
append_items nil ys = ys
append_items (cons x xs) ys = cons x (append_items xs ys)

abbrev as_items : Json → Items
as_items (arr xs) = xs
as_items v = cons v nil

abbrev pub appended : Json → Json → Json
appended (arr old) v = arr (append_items old (as_items v))
appended old v = arr (cons old (cons v nil))

-- `existing is None or existing.get("deleted") == 1`.
abbrev pub is_gone : Option MemoryDoc → Bool
is_gone none = true
is_gone (some d) = d.deleted == 1

unfoldable pub new_value : String → Json → Option MemoryDoc → Json
new_value match_method value none = value
new_value match_method value (some d) =
    if d.deleted == 1
    then value
    else if match_method == "APPEND"
    then appended d.value value
    else value

abbrev pub kept {ℓ} : {A : Type ℓ} → (MemoryDoc → Option A) → Option MemoryDoc → Option A
kept f none = none
kept f (some d) = f d

abbrev non_empty : Option String → Option String
non_empty none = none
non_empty (some s) = if s == "" then none else some s

abbrev pub or_kept : Option String → Option String → Option String
or_kept none old = non_empty old
or_kept (some e) old = if strip e == "" then non_empty old else some (strip e)

unfoldable pub upserted_doc :
    ℕ → String → MemoryKey → Json → String → Option String → Option MemoryDoc → MemoryDoc
unfolding new_value
upserted_doc now id k value match_method expression existing = record {
  id = id;
  tenant_id = k.tenant_id;
  org_id = k.org_id;
  user_id = k.user_id;
  memory_field_name = k.memory_field_name;
  value = new_value match_method value existing;
  deleted = 0;
  updated_at = now;
  source = stored_source k.source;
  create_time = if is_gone existing then some now else kept (λ d. d.create_time) existing;
  recently_used =
      if is_gone existing then none else non_empty (kept (λ d. d.recently_used) existing);
  original_expression = or_kept expression (kept (λ d. d.original_expression) existing);
}

-- `replace_one({"_id": id}, doc, upsert=True)`.
abbrev pub replace_one : String → MemoryDoc → MemoryDb → MemoryDb
replace_one id doc [] = doc ∷ []
replace_one id doc (d ∷ ds) = if d.id == id then doc ∷ ds else d ∷ replace_one id doc ds

unfoldable pub upsert_memory_data :
    Services → ℕ → MemoryKey → Json → String → Option String → MemoryDb → MemoryDoc × MemoryDb
unfolding doc_id upserted_doc
upsert_memory_data sv now k value match_method expression db =
    let id = doc_id sv k in
    let doc = upserted_doc now id k value match_method expression (find (has_id id) db) in
    (doc, replace_one id doc db)

abbrev pub owned : ℕ → ℕ → String → MemoryDoc → Bool
owned tenant org user d =
    (d.tenant_id == tenant) && ((d.org_id == org) && ((d.user_id == user) && (d.deleted == 0)))

-- The texts that are not blank, stripped.
abbrev stripped : List String → List String
stripped [] = []
stripped (s ∷ ss) = let rest = stripped ss in if strip s == "" then rest else strip s ∷ rest

-- The filter of `mark_memory_data_recently_used`, whatever lists are empty.
abbrev pub is_named : List String → List String → MemoryDoc → Bool
is_named names ids d = contains d.memory_field_name (stripped names) || contains d.id (stripped ids)

-- The count is that of the documents that change.
unfoldable pub mark_memory_data_recently_used :
    ℕ → ℕ → String → String → List String → List String → MemoryDb → ℕ × MemoryDb
unfolding strip
mark_memory_data_recently_used tenant org user label names ids db =
    let hit = λ (d : MemoryDoc). owned tenant org user d && is_named names ids d in
    (
      count (λ d. hit d && not (label_is d.recently_used label)) db,
      update_many hit (λ d. record d { recently_used = some label }) db,
    )
  where
    label_is : Option String → String → Bool
    label_is none l = false
    label_is (some s) l = s == l

-- `_memory_data_user_query`.
abbrev pub user_query : ℕ → ℕ → String → Option String → MemoryDoc → Bool
user_query tenant org user none d = owned tenant org user d
user_query tenant org user (some name) d =
    owned tenant org user d && ((name == "") || (d.memory_field_name == name))

-- `_memory_data_tenant_query`, with the substring filter on the user.
unfoldable pub tenant_query : ℕ → ℕ → Option String → Option String → MemoryDoc → Bool
unfolding strip includes
tenant_query tenant org field_name user d =
    ((d.tenant_id == tenant) && ((d.org_id == org) && (d.deleted == 0)))
    && (user_matches user && field_matches field_name)
  where
    user_matches : Option String → Bool
    user_matches none = true
    user_matches (some u) = (strip u == "") || includes d.user_id (strip u)

    field_matches : Option String → Bool
    field_matches none = true
    field_matches (some name) = (name == "") || (d.memory_field_name == name)

unfoldable pub count_memory_data_for_user : ℕ → ℕ → String → Option String → MemoryDb → ℕ
count_memory_data_for_user tenant org user field_name db =
    count (user_query tenant org user field_name) db

unfoldable pub has_memory_data_for_user : ℕ → ℕ → String → MemoryDb → Bool
has_memory_data_for_user tenant org user db = any (user_query tenant org user none) db

unfoldable pub count_memory_data_for_tenant : ℕ → ℕ → Option String → Option String → MemoryDb → ℕ
unfolding tenant_query
count_memory_data_for_tenant tenant org field_name user db =
    count (tenant_query tenant org field_name user) db

abbrev pub in_partition : ℕ → ℕ → String → String → MemoryDoc → Bool
in_partition tenant org user id d = (d.id == id) && owned tenant org user d

unfoldable pub get_memory_data_by_id : ℕ → ℕ → String → String → MemoryDb → Option MemoryDoc
get_memory_data_by_id tenant org user id db = find (in_partition tenant org user id) db

abbrev pub soft_deleted : ℕ → MemoryDoc → MemoryDoc
soft_deleted now d = record d { deleted = 1; updated_at = now }

unfoldable pub soft_delete_memory_data : Services → ℕ → MemoryKey → MemoryDb → Bool × MemoryDb
unfolding doc_id
soft_delete_memory_data sv now k db =
    let live = is_live (doc_id sv k) in (any live db, update_one live (soft_deleted now) db)

-- It returns the document as it was.
unfoldable pub soft_delete_memory_data_by_id :
    ℕ → ℕ → ℕ → String → String → MemoryDb → Option MemoryDoc × MemoryDb
soft_delete_memory_data_by_id now tenant org user id db =
    let own = in_partition tenant org user id in (find own db, update_one own (soft_deleted now) db)

abbrev pub with_value : ℕ → Json → Option String → MemoryDoc → MemoryDoc
with_value now value none d = record d { value = value; updated_at = now; deleted = 0 }
with_value now value (some e) d = record d {
  value = value;
  updated_at = now;
  deleted = 0;
  original_expression = some e;
}

-- It returns the document as it has become.
unfoldable pub update_memory_data_value_by_id :
    ℕ → ℕ → ℕ → String → String → Json → Option String → MemoryDb → Option MemoryDoc × MemoryDb
update_memory_data_value_by_id now tenant org user id value expression db =
    let own = in_partition tenant org user id in
    (
      maybe (find own db) none λ d. some (with_value now value expression d),
      update_one own (with_value now value expression) db,
    )

unfoldable pub soft_delete_all_memory_data_for_user : ℕ → ℕ → ℕ → String → MemoryDb → ℕ × MemoryDb
soft_delete_all_memory_data_for_user now tenant org user db =
    let own = user_query tenant org user none in
    (count own db, update_many own (soft_deleted now) db)
