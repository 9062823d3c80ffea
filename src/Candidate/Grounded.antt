-- ===== src/Candidate/Grounded.antt =====
-- A comparison of services/memory_candidate.py refers to the memories that it was made with alone,
-- whatever the language model answers.
use mathlib.Core.Path.{subst}
use hojo_memory_engine.Prelude.{
  ◌≤◌, ◌≡◌, refl, String, Bool, true, false, not, ◌&&◌, Option, none, some, List, [], ◌∷◌, All, any,
  find, maybe-intro, if-intro, contains, leb, ◌==◌, string_eq, eq_iff, arith, inl, inr, Bool-cases,
  find-eq-some, any_of_Holds,
}
use hojo_memory_engine.Text.{strip}
use hojo_memory_engine.Json.{
  ℤ, pos, negsuc, Json, null, bool, int, float, str, arr, obj, Fields, get,
}
use hojo_memory_engine.Json.Number.{one, to_float}
use hojo_memory_engine.Result.{Result, ok, err, bind-intro, guard-intro, validation, type_error}
use hojo_memory_engine.Context.{RequestContext}
use hojo_memory_engine.Services.{Services}
use hojo_memory_engine.Claim.Store.{ClaimDb}
use hojo_memory_engine.Candidate.{
  ExistingMemoryItem, CompareRequest, Comparison, new, duplicate, merge, conflict, reject,
  MergePreview, CompareResponse, text_of, existing_items, normalized_text, is_item, is_known,
  last_item, matched_ids, comparison_named, needs_match, has_none, fits, preview_of, preview_for,
  clamped, clamped_or_raise, confidence_json, confidence_of, or_null, judge, compared,
  compare_candidate,
}

-- The preview of a merge is based on a matched memory, in its version.
abbrev pub IsBased : List ExistingMemoryItem → List String → Option MergePreview → Type 0
IsBased existing matched none = Unit
IsBased existing matched (some p) =
    (contains p.base_item_id matched ≡ true)
    × (item : ExistingMemoryItem) × (last_item p.base_item_id existing ≡ some item)
    × (p.base_version ≡ item.version)

pub record IsGrounded (existing : List ExistingMemoryItem) (r : CompareResponse) : Type 0 where
  pub known : All (λ id. is_known existing id ≡ true) r.matched_item_ids
  pub matched : needs_match r.result ≡ true → has_none r.matched_item_ids ≡ false
  pub certain : r.confidence ≤ one
  pub based : IsBased existing r.matched_item_ids r.merge_preview

abbrev IfOk : {A : Type 0} → (A → Type 0) → Result A → Type 0
IfOk P (err e) = Unit
IfOk P (ok a) = P a

all_known :
    (existing : List ExistingMemoryItem) (ids : List String)
    → not (any (λ id. not (is_known existing id)) ids) ≡ true
    → All (λ id. is_known existing id ≡ true) ids
all_known existing [] h = tt
all_known existing (id ∷ ids) h = elim (Bool-cases (is_known existing id)) [
  | inl t ↦ (t, all_known existing ids (ground arith))
  | inr t ↦ absurd (ground arith)
]

clamped-le : (z : ℤ) → clamped z ≤ one
clamped-le (negsuc n) = omega arith
clamped-le (pos n) =
    if-intro (λ m. m ≤ one) (leb n one) n one (λ t. ground arith) (λ t. omega arith)

clamped-IfOk : (o : Option ℤ) → IfOk (λ c. c ≤ one) (clamped_or_raise o)
clamped-IfOk none = tt
clamped-IfOk (some z) = clamped-le z

confidence-IfOk : (sv : Services) (answer : Fields) → IfOk (λ c. c ≤ one) (confidence_of sv answer)
unfolding confidence_of
confidence-IfOk sv answer =
    clamped-IfOk (to_float sv.parse_float (confidence_json (get "confidence" answer)))

module _ (sv : Services) (existing : List ExistingMemoryItem) where
  preview_of-IfOk :
      (matched : List String) (fs : Fields)
      → IfOk (IsBased existing matched) (preview_of sv matched existing fs)
  unfolding preview_of
  preview_of-IfOk matched fs =
      let P = IfOk (IsBased existing matched) in
      let base = text_of sv "" "base_item_id" fs in
      let content = strip (text_of sv "" "content" fs) in
      guard-intro P (is_known existing base) validation _ tt λ _.
        guard-intro P (contains base matched) validation _ tt λ there.
          guard-intro P (not (content == "") && fits 16000 content) type_error _ tt λ _.
            maybe-intro P (last_item base existing) _ _ (λ _. tt)
              λ item found. (there, item, found, refl)

  preview_for-IfOk :
      (result : Comparison) (matched : List String) (v : Json)
      → IfOk (IsBased existing matched) (preview_for sv result matched existing v)
  preview_for-IfOk merge matched (obj fs) = preview_of-IfOk matched fs
  preview_for-IfOk merge matched null = tt
  preview_for-IfOk merge matched (bool b) = tt
  preview_for-IfOk merge matched (int z) = tt
  preview_for-IfOk merge matched (float z) = tt
  preview_for-IfOk merge matched (str s) = tt
  preview_for-IfOk merge matched (arr xs) = tt
  preview_for-IfOk new matched v = tt
  preview_for-IfOk duplicate matched v = tt
  preview_for-IfOk conflict matched v = tt
  preview_for-IfOk reject matched v = tt

  judge-IfOk : (answer : Fields) → IfOk (IsGrounded existing) (judge sv existing answer)
  unfolding judge
  judge-IfOk answer =
      let P = IfOk (IsGrounded existing) in
      let name = sv.upper (text_of sv "" "result" answer) in
      bind-intro P (matched_ids sv answer) _ (λ _. tt)
        λ matched _.
          guard-intro P (not (any (λ id. not (is_known existing id)) matched)) validation _ tt
            λ known.
              bind-intro P (comparison_named name) _ (λ _. tt)
                λ result _.
                  guard-intro P (not (needs_match result && has_none matched)) validation _ tt
                    λ some_match.
                      bind-intro P
                        (preview_for sv result matched existing
                          (or_null (get "merge_preview" answer)))
                        _ (λ _. tt)
                        λ preview previewed.
                          bind-intro P (confidence_of sv answer) _ (λ _. tt)
                            λ confidence confident.
                              guard-intro P
                                (fits 128 (text_of sv name "reason_code" answer)
                                  && fits 1000 (text_of sv name "display_reason" answer))
                                type_error _ tt
                                λ _. record {
                                  known = all_known existing matched known;
                                  matched = λ n. ground (arith, some_match);
                                  certain =
                                      subst (IfOk (λ c. c ≤ one)) confident
                                        (confidence-IfOk sv answer);
                                  based = subst (IfOk (IsBased existing matched)) previewed (
                                      preview_for-IfOk result matched
                                        (or_null (get "merge_preview" answer)));
                                }

  found_known :
      (same : ExistingMemoryItem → Bool) {item : ExistingMemoryItem}
      → find same existing ≡ some item
      → is_known existing item.item_id ≡ true
  found_known same {item} e =
      any_of_Holds (is_item item.item_id) existing {x = item}
        (find-eq-some same existing {x = item} e).1
        (ground (arith, eq_iff item.item_id item.item_id))

compared-IfOk :
    (sv : Services) (answer : Result Fields) (body : CompareRequest)
    (existing : List ExistingMemoryItem)
    → IfOk (IsGrounded existing) (compared sv answer body existing)
compared-IfOk sv answer body [] = record {
  known = tt;
  matched = λ e. cc;
  certain = omega arith;
  based = tt;
}
compared-IfOk sv answer body (x ∷ xs) =
    let same = λ (item : ExistingMemoryItem).
      normalized_text sv item.content == normalized_text sv body.content in
    let P = IfOk (IsGrounded (x ∷ xs)) in
    maybe-intro P (find same (x ∷ xs)) _ _
      (λ _. bind-intro P answer _ (λ _. tt) λ fields _. judge-IfOk sv (x ∷ xs) fields)
      λ item e. record {
        known = (found_known sv (x ∷ xs) same {item = item} e, tt);
        matched = λ _. refl;
        certain = omega arith;
        based = tt;
      }

-- Whatever the language model answers: a comparison that is returned names only memories that it
-- was given, at least one where it says duplicate, merge or conflict, has a confidence of at most 1,
-- and proposes a merge only into a memory that it names, in the version of that memory.
pub compare_candidate-IsGrounded :
    (sv : Services) (ctx : RequestContext) (answer : Result Fields) (body : CompareRequest)
    (db : ClaimDb) (r : CompareResponse)
    → compare_candidate sv ctx answer body db ≡ ok r
    → IsGrounded (existing_items sv ctx body db) r
unfolding compare_candidate
compare_candidate-IsGrounded sv ctx answer body db r e =
    let existing = existing_items sv ctx body db in
    subst (IfOk (IsGrounded existing)) e (
      if-intro (IfOk (IsGrounded existing)) (body.sensitivity == "prohibited") _ _
        (λ _. record { known = tt; matched = λ n. cc; certain = omega arith; based = tt })
        λ _. compared-IfOk sv answer body existing)
