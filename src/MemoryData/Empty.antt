-- ===== src/MemoryData/Empty.antt =====
-- `parse_result_is_empty` of services/memory_parse.py: the values that are not stored.
use Prim.Native.Char.{Char, code}
use hojo_memory_engine.Prelude.{
  String, Bool, true, false, ◌&&◌, ◌||◌, Option, none, some, List, [], ◌∷◌, contains, ◌==◌, nat_eq,
  string_eq,
}
use hojo_memory_engine.Text.{strip, drop_last}
use hojo_memory_engine.Json.{
  Json, null, bool, str, arr, obj, Items, nil, cons, Fields, end, field, get,
}
use hojo_memory_engine.Services.{Services}

abbrev ends_in : Char → String → Bool
ends_in c String.[] = false
ends_in c (String.◌∷◌ d String.[]) = code c == code d
ends_in c (String.◌∷◌ d (String.◌∷◌ e s)) = ends_in c (String.◌∷◌ e s)

-- Two equal quotes around white space.
unfoldable pub quotes_nothing : String → Bool
unfolding strip drop_last
quotes_nothing String.[] = false
quotes_nothing (String.◌∷◌ c s) =
    ends_in c s && (((code c == 34) || (code c == 39)) && (strip (drop_last s) == ""))

abbrev pub empty_markers : List String
empty_markers = "null" ∷ "none" ∷ "\"\"" ∷ "''" ∷ "n/a" ∷ "-" ∷ "无" ∷ "未知" ∷ []

unfoldable pub is_nullish_scalar : Services → Json → Bool
unfolding strip quotes_nothing
is_nullish_scalar sv null = true
is_nullish_scalar sv (str s) =
    let text = strip s in
    (text == "") || (contains (sv.lower text) empty_markers || quotes_nothing text)
is_nullish_scalar sv v = false

abbrev is_false : Option Json → Bool
is_false (some (bool false)) = true
is_false _ = false

abbrev has : String → Fields → Bool
has k end = false
has k (field j v fs) = (j == k) || has k fs

-- Every key is `query` or `extra`.
abbrev only_query : Fields → Bool
only_query end = true
only_query (field k v fs) = ((k == "query") || (k == "extra")) && only_query fs

abbrev value_empty : Services → Fields → Option Json → Bool
value_empty sv fs none = only_query fs || has "parsed_text" fs
value_empty sv fs (some v) = is_nullish_scalar sv v

-- A `dict` that is not empty.
unfoldable pub fields_empty : Services → Fields → Bool
unfolding get is_nullish_scalar
fields_empty sv fs = is_false (get "has_memory" fs) || value_empty sv fs (get "value" fs)

unfoldable mutual
  unfolding is_nullish_scalar fields_empty

  pub parse_result_is_empty : Services → Json → Bool
  parse_result_is_empty sv (obj end) = true
  parse_result_is_empty sv (obj (field k v fs)) = fields_empty sv (field k v fs)
  parse_result_is_empty sv (arr xs) = items_empty sv xs
  parse_result_is_empty sv v = is_nullish_scalar sv v

  items_empty : Services → Items → Bool
  items_empty sv nil = true
  items_empty sv (cons v xs) = parse_result_is_empty sv v && items_empty sv xs
