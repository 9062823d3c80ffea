-- ===== src/Candidate.antt =====
-- services/memory_candidate.py: the comparison of a proposed memory with the current claims. The
-- language model's answer, parsed by `_json_object`, is an argument. Paths are below
-- backend/src/memory_engine.
pub mod Grounded
mod Tests
use hojo_memory_engine.Prelude.{
  ℕ, zero, suc, String, Bool, true, false, not, ◌&&◌, ◌||◌, Option, none, some, List, [], ◌∷◌, map,
  any, find, maybe, contains, leb, ltb, ◌==◌, nat_eq, string_eq, if◌then◌else◌,
}
use hojo_memory_engine.Text.{strip, clip, without_spaces}
use hojo_memory_engine.Json.{
  ℤ, pos, negsuc, Json, null, bool, int, float, str, arr, obj, Items, nil, cons, Fields, end, field,
  get,
}
use hojo_memory_engine.Json.Number.{one, to_float}
use hojo_memory_engine.Result.{Result, ok, err, ◌>>=◌, ◌>>◌, guard, validation, type_error}
use hojo_memory_engine.Context.{RequestContext}
use hojo_memory_engine.Services.{Services}
use hojo_memory_engine.Claim.Types.{MemoryNamespace, Claim}
use hojo_memory_engine.Claim.Store.{ClaimDb}
use hojo_memory_engine.Claim.Listing.{Scope, list_current_claims}

pub record ExistingMemoryItem : Type 0 where
  pub item_id : String
  pub version : ℕ
  pub category : Option String
  pub content : String

-- The parts of a `MemoryCandidateCompareRequest` that the comparison reads.
pub record CompareRequest : Type 0 where
  pub user_id : String
  pub content : String
  pub sensitivity : String
  pub namespace_type : String
  pub namespace_id : String
  pub candidate_limit : ℕ

pub data Comparison : Type 0 where
  new duplicate merge conflict reject : Comparison

pub record MergePreview : Type 0 where
  pub preview_content : String
  pub base_item_id : String
  pub base_version : ℕ

-- `confidence` is a double from 0 to 1.
pub record CompareResponse : Type 0 where
  pub result : Comparison
  pub confidence : ℕ
  pub matched_item_ids : List String
  pub reason_code : String
  pub merge_preview : Option MergePreview

-- Python's `bool(v)`.
abbrev pub is_truthy : Json → Bool
is_truthy null = false
is_truthy (bool b) = b
is_truthy (int (pos n)) = not (n == 0)
is_truthy (int (negsuc n)) = true
is_truthy (float (pos n)) = not (n == 0)
is_truthy (float (negsuc n)) = true
is_truthy (str s) = not (s == "")
is_truthy (arr nil) = false
is_truthy (arr (cons v xs)) = true
is_truthy (obj end) = false
is_truthy (obj (field k v fs)) = true

-- `str(v)`.
abbrev pub to_str : Services → Json → String
to_str sv (str s) = s
to_str sv v = sv.str_json v

abbrev pub or_null : Option Json → Json
or_null none = null
or_null (some v) = v

-- `str(d.get(k) or fallback)`.
unfoldable pub text_of : Services → String → String → Fields → String
unfolding get
text_of sv fallback k fs =
    let v = or_null (get k fs) in if is_truthy v then to_str sv v else fallback

-- The stripped text of a claim, or of its value.
unfoldable pub claim_content : Services → Claim → String
unfolding strip
claim_content sv c =
    if c.text == ""
    then (if is_truthy c.value then strip (to_str sv c.value) else "")
    else strip c.text

abbrev dimension_of : Claim → Option String
dimension_of c = if c.dimension == "" then none else some c.dimension

unfoldable pub claim_to_existing : Services → Claim → Option ExistingMemoryItem
unfolding claim_content strip clip
claim_to_existing sv c =
    if (claim_content sv c == "") || (strip c.claim_id == "")
    then none
    else some (record {
      item_id = strip c.claim_id;
      version = c.revision;
      category = dimension_of c;
      content = clip 16000 (claim_content sv c);
    })

-- The items that there are of some claims.
abbrev pub collect : (Claim → Option ExistingMemoryItem) → List Claim → List ExistingMemoryItem
collect f [] = []
collect f (c ∷ cs) = let rest = collect f cs in maybe (f c) rest (λ item. item ∷ rest)

unfoldable pub existing_items :
    Services → RequestContext → CompareRequest → ClaimDb → List ExistingMemoryItem
unfolding claim_to_existing
existing_items sv ctx body db =
    let scope : Scope = record {
      tenant_id = ctx.tenant_id;
      org_id = ctx.org_id;
      user_id = body.user_id;
      namespace = record { type = body.namespace_type; id = body.namespace_id; label = none };
      dimensions = [];
      include_history = false;
    } in
    collect (claim_to_existing sv) (list_current_claims scope body.candidate_limit db)

unfoldable pub normalized_text : Services → String → String
unfolding without_spaces
normalized_text sv s = sv.casefold (without_spaces s)

abbrev pub deterministic : Comparison → List String → String → CompareResponse
deterministic result ids reason = record {
  result = result;
  confidence = one;
  matched_item_ids = ids;
  reason_code = reason;
  merge_preview = none;
}

abbrev pub is_item : String → ExistingMemoryItem → Bool
is_item id item = item.item_id == id

-- `item_id in valid_ids`, and `valid_ids[item_id]`: the last item of an id.
abbrev pub is_known : List ExistingMemoryItem → String → Bool
is_known existing id = any (is_item id) existing

abbrev pub last_item : String → List ExistingMemoryItem → Option ExistingMemoryItem
last_item id [] = none
last_item id (x ∷ xs) =
    let later = last_item id xs in maybe later (if is_item id x then some x else none) some

abbrev item_texts : Services → Items → List String
item_texts sv nil = []
item_texts sv (cons v xs) = to_str sv v ∷ item_texts sv xs

abbrev key_texts : Fields → List String
key_texts end = []
key_texts (field k v fs) = k ∷ key_texts fs

abbrev char_texts : String → List String
char_texts String.[] = []
char_texts (String.◌∷◌ c s) = String.◌∷◌ c "" ∷ char_texts s

-- `[str(item) for item in v]`, which raises a `TypeError` for what cannot be iterated.
abbrev iterated : Services → Json → Result (List String)
iterated sv (arr xs) = ok (item_texts sv xs)
iterated sv (obj fs) = ok (key_texts fs)
iterated sv (str s) = ok (char_texts s)
iterated sv v = err type_error

unfoldable pub matched_ids : Services → Fields → Result (List String)
unfolding get
matched_ids sv answer =
    let v = or_null (get "matched_item_ids" answer) in if is_truthy v then iterated sv v else ok []

abbrev pub comparison_named : String → Result Comparison
comparison_named s =
    if s == "NEW"
    then ok new
    else if s == "DUPLICATE"
    then ok duplicate
    else if s == "MERGE"
    then ok merge
    else if s == "CONFLICT"
    then ok conflict
    else if s == "REJECT"
    then ok reject
    else err validation

abbrev pub needs_match : Comparison → Bool
needs_match duplicate = true
needs_match merge = true
needs_match conflict = true
needs_match _ = false

abbrev pub has_none : List String → Bool
has_none [] = true
has_none (x ∷ xs) = false

-- A text that fits the bounds of a field of the response.
abbrev pub fits : ℕ → String → Bool
fits n s = clip n s == s

-- Pydantic refuses a preview without content, and raises what no handler of the service catches.
unfoldable pub preview_of :
    Services → List String → List ExistingMemoryItem → Fields → Result (Option MergePreview)
unfolding strip clip text_of
preview_of sv matched existing preview =
    let base = text_of sv "" "base_item_id" preview in
    let content = strip (text_of sv "" "content" preview) in
    guard (is_known existing base) validation
    >> (guard (contains base matched) validation
        >> (guard (not (content == "") && fits 16000 content) type_error
            >> maybe (last_item base existing) (err type_error) λ item. ok (
                some (record {
                  preview_content = content;
                  base_item_id = base;
                  base_version = item.version;
                }))))

abbrev pub preview_for :
    Services
    → Comparison
    → List String
    → List ExistingMemoryItem
    → Json
    → Result (Option MergePreview)
preview_for sv merge matched existing (obj fs) = preview_of sv matched existing fs
preview_for sv merge matched existing v = err validation
preview_for sv result matched existing v = ok none

-- `max(0.0, min(1.0, z))`.
abbrev pub clamped : ℤ → ℕ
clamped (negsuc n) = 0
clamped (pos n) = if leb n one then n else one

abbrev pub clamped_or_raise : Option ℤ → Result ℕ
clamped_or_raise none = err validation
clamped_or_raise (some z) = ok (clamped z)

abbrev pub confidence_json : Option Json → Json
confidence_json none = float (pos 0)
confidence_json (some v) = v

unfoldable pub confidence_of : Services → Fields → Result ℕ
unfolding get to_float one
confidence_of sv answer =
    clamped_or_raise (to_float sv.parse_float (confidence_json (get "confidence" answer)))

-- The response, which pydantic refuses where a reason is too long.
abbrev pub response :
    Services
    → Fields
    → Comparison
    → String
    → List String
    → Option MergePreview
    → ℕ
    → Result CompareResponse
response sv answer result name matched preview confidence =
    guard
      (fits 128 (text_of sv name "reason_code" answer)
        && fits 1000 (text_of sv name "display_reason" answer))
      type_error
    >> ok (record {
      result = result;
      confidence = confidence;
      matched_item_ids = matched;
      reason_code = text_of sv name "reason_code" answer;
      merge_preview = preview;
    })

-- What `compare_candidate` makes of the model's answer.
unfoldable pub judge : Services → List ExistingMemoryItem → Fields → Result CompareResponse
unfolding matched_ids text_of get confidence_of clip
judge sv existing answer = matched_ids sv answer >>= λ matched.
    guard (not (any (λ id. not (is_known existing id)) matched)) validation
    >> (comparison_named (sv.upper (text_of sv "" "result" answer)) >>= λ result.
        guard (not (needs_match result && has_none matched)) validation
        >> (preview_for sv result matched existing (or_null (get "merge_preview" answer))
            >>= λ preview. confidence_of sv answer >>= λ confidence.
                response sv answer result (sv.upper (text_of sv "" "result" answer)) matched preview
                  confidence))

abbrev pub compared :
    Services → Result Fields → CompareRequest → List ExistingMemoryItem → Result CompareResponse
compared sv answer body [] = ok (deterministic new [] "NO_EXISTING_MEMORY")
compared sv answer body (x ∷ xs) =
    let same = λ (item : ExistingMemoryItem).
      normalized_text sv item.content == normalized_text sv body.content in
    maybe (find same (x ∷ xs)) (answer >>= judge sv (x ∷ xs))
      λ exact. ok (deterministic duplicate (exact.item_id ∷ []) "EXACT_MATCH")

-- `compare_candidate`; `answer` is what the model gives, if it is asked.
unfoldable pub compare_candidate :
    Services → RequestContext → Result Fields → CompareRequest → ClaimDb → Result CompareResponse
compare_candidate sv ctx answer body db =
    if body.sensitivity == "prohibited"
    then ok (deterministic reject [] "PROHIBITED_CONTENT")
    else compared sv answer body (existing_items sv ctx body db)
