-- ===== src/MemoryData/Filters.antt =====
-- integrations/mongo_store.py: the filters of the user's list. Times are readings of the clock.
use hojo_memory_engine.Prelude.{
  ℕ, String, Bool, true, false, not, ◌&&◌, ◌||◌, Option, none, some, List, [], ◌∷◌, map, contains,
  count, leb, ◌==◌, string_eq, if◌then◌else◌,
}
use hojo_memory_engine.Text.{strip}
use hojo_memory_engine.Json.{Json, str, arr, Items, nil, cons}
use hojo_memory_engine.Services.{Services}
use hojo_memory_engine.MemoryData.Sources.{
  FieldMap, memory_field_to_dimension, kb_memory_fields, schedule_memory_fields,
  meeting_memory_fields,
}
use hojo_memory_engine.MemoryData.Store.{
  StoredSource, absent, given, MemoryDoc, MemoryDb, user_query,
}

-- The fields of a dimension.
abbrev pub mapped : String → FieldMap → List String
mapped dim [] = []
mapped dim ((name, d) ∷ rest) =
    let names = mapped dim rest in if d == dim then name ∷ names else names

abbrev pub fields_of : FieldMap → List String
fields_of m = map (λ e. e.0) m

abbrev is_empty : List String → Bool
is_empty [] = true
is_empty (x ∷ xs) = false

-- The clause of a dimension in lower case, on a field name.
abbrev pub dimension_matches : String → String → Bool
dimension_matches dim name =
    let names = mapped dim memory_field_to_dimension in
    if dim == "background"
    then contains name names || not (contains name (fields_of memory_field_to_dimension))
    else if is_empty names
    then name == "__none__"
    else contains name names

-- `_dimension_filter_clause`.
unfoldable pub dimension_filter_clause : Services → Option String → MemoryDoc → Bool
unfolding strip
dimension_filter_clause sv none d = true
dimension_filter_clause sv (some dimension) d =
    if strip dimension == ""
    then true
    else dimension_matches (sv.lower (strip dimension)) d.memory_field_name

-- `{"source": src}`.
abbrev source_is : String → StoredSource → Bool
source_is src (given s) = s == src
source_is src _ = false

-- `{"source": {"$exists": False}}`, which a null does not meet.
abbrev missing : StoredSource → Bool
missing absent = true
missing _ = false

-- The clause of a source in lower case, on the source and the name of a document.
abbrev pub source_matches : String → StoredSource → String → Bool
source_matches src stored name =
    if src == "knowledge"
    then source_is "knowledge" stored || (missing stored && contains name kb_memory_fields)
    else if src == "schedule"
    then source_is "schedule" stored || (missing stored && contains name schedule_memory_fields)
    else if src == "meeting"
    then source_is "meeting" stored || (missing stored && contains name meeting_memory_fields)
    else if src == "dialogue"
    then source_is "dialogue" stored
      || (missing stored
          && (not (contains name kb_memory_fields)
              && (not (contains name schedule_memory_fields)
                  && not (contains name meeting_memory_fields))))
    else name == "__none__"

-- `_source_filter_clause`.
unfoldable pub source_filter_clause : Services → Option String → MemoryDoc → Bool
unfolding strip
source_filter_clause sv none d = true
source_filter_clause sv (some source) d =
    if strip source == ""
    then true
    else source_matches (sv.lower (strip source)) d.source d.memory_field_name

abbrev any_text : (String → Bool) → Items → Bool
any_text p nil = false
any_text p (cons (str s) xs) = p s || any_text p xs
any_text p (cons v xs) = any_text p xs

-- A regular expression on a value: on a text, or on a text of an array.
abbrev value_matches : (String → Bool) → Json → Bool
value_matches p (str s) = p s
value_matches p (arr xs) = any_text p xs
value_matches p v = false

abbrev keyword_matches : Services → Option String → MemoryDoc → Bool
keyword_matches sv none d = true
keyword_matches sv (some keyword) d =
    if strip keyword == ""
    then true
    else (let hit = sv.regex_matches (sv.escape (strip keyword)) in
        hit d.memory_field_name || value_matches hit d.value)

abbrev from_time : Option ℕ → ℕ → Bool
from_time none t = true
from_time (some start) t = leb start t

abbrev until_time : Option ℕ → ℕ → Bool
until_time none t = true
until_time (some end) t = leb t end

pub record ListQuery : Type 0 where
  pub tenant_id : ℕ
  pub org_id : ℕ
  pub user_id : String
  pub dimension : Option String
  pub source : Option String
  pub keyword : Option String
  pub start_time : Option ℕ
  pub end_time : Option ℕ

-- `_memory_data_user_list_query`.
unfoldable pub user_list_query : Services → ListQuery → MemoryDoc → Bool
unfolding dimension_filter_clause source_filter_clause
user_list_query sv q d =
    user_query q.tenant_id q.org_id q.user_id none d
    && (dimension_filter_clause sv q.dimension d
        && (source_filter_clause sv q.source d
            && (keyword_matches sv q.keyword d
                && (from_time q.start_time d.updated_at && until_time q.end_time d.updated_at))))

unfoldable pub count_memory_data_for_user_filtered : Services → ListQuery → MemoryDb → ℕ
unfolding user_list_query
count_memory_data_for_user_filtered sv q db = count (user_list_query sv q) db
