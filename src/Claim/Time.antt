-- ===== src/Claim/Time.antt =====
-- services/memory_claim.py: the source times of a claim, and what a claim's JSON policies say.
use hojo_memory_engine.Prelude.{
  ℕ, String, Bool, true, false, not, ◌&&◌, Option, none, some, List, [], ◌∷◌, ltb, leb, ◌==◌,
  string_eq, if◌then◌else◌,
}
use hojo_memory_engine.Text.{strip, replace_z}
use hojo_memory_engine.Json.{
  pos, Json, null, bool, int, float, str, arr, obj, Items, nil, cons, Fields, end, field, get,
}
use hojo_memory_engine.Result.{Result, ok, err, ◌>>=◌, type_error}
use hojo_memory_engine.Services.{Services, Datetime, naive, aware}
use hojo_memory_engine.Claim.Types.{
  FactStatus, stated, decision, commitment, proposal, forecast, opinion, correction,
  MemoryProvenance, ClaimDoc,
}

-- A naive time counts as UTC.
abbrev to_utc : Datetime → ℕ
to_utc (naive n) = n
to_utc (aware n) = n

-- `_parse_event_time`.
unfoldable pub parse_event_time : Services → Option String → Option ℕ
unfolding strip replace_z
parse_event_time sv none = none
parse_event_time sv (some value) =
    if strip value == "" then none else elim (sv.fromisoformat (replace_z (strip value))) [
      | none ↦ none
      | some d ↦ some (to_utc d)
    ]

abbrev later : ℕ → Option ℕ → Option ℕ
later t none = some t
later t (some u) = if ltb t u then some u else some t

-- The latest time at which a source was observed.
unfoldable pub observed : Services → List MemoryProvenance → Option ℕ
unfolding parse_event_time
observed sv [] = none
observed sv (p ∷ ps) =
    let rest = observed sv ps in
    elim (parse_event_time sv p.occurred_at) [ none ↦ rest | some t ↦ later t rest ]

-- `_fact_time`.
unfoldable pub fact_time : Services → ClaimDoc → Option ℕ
unfolding observed
fact_time sv doc = elim (parse_event_time sv doc.effective_at) [
  | some t ↦ some t
  | none ↦ observed sv doc.provenance
]

abbrev pub is_stated : FactStatus → Bool
is_stated stated = true
is_stated _ = false

abbrev after : Option ℕ → Option ℕ → Bool
after (some t) (some u) = ltb u t
after _ _ = false

-- `_is_newer_same_authority_fact`.
unfoldable pub is_newer_same_authority_fact : Services → ClaimDoc → ClaimDoc → Bool
unfolding fact_time
is_newer_same_authority_fact sv incoming current =
    is_stated incoming.fact_status
    && (is_stated current.fact_status
        && (after (fact_time sv incoming) (fact_time sv current)
            && leb current.confidence incoming.confidence))

-- `_FACT_AUTHORITY`.
unfoldable pub fact_authority : FactStatus → ℕ
fact_authority opinion = 1
fact_authority proposal = 2
fact_authority forecast = 2
fact_authority stated = 3
fact_authority commitment = 4
fact_authority decision = 5
fact_authority correction = 6

abbrev pub fact_name : FactStatus → String
fact_name stated = "stated"
fact_name decision = "decision"
fact_name commitment = "commitment"
fact_name proposal = "proposal"
fact_name forecast = "forecast"
fact_name opinion = "opinion"
fact_name correction = "correction"

-- `bool(v)`.
unfoldable pub truthy : Json → Bool
truthy null = false
truthy (bool b) = b
truthy (int (pos ℕ.zero)) = false
truthy (float (pos ℕ.zero)) = false
truthy (str s) = not (s == "")
truthy (arr nil) = false
truthy (obj end) = false
truthy _ = true

-- `bool(policy.get(key, True))`.
unfoldable pub flag : String → Fields → Bool
unfolding truthy
flag key policy = elim (get key policy) [ none ↦ true | some v ↦ truthy v ]

-- The texts in a list; a list or an object cannot be hashed.
unfoldable pub hashed_texts : Items → Result (List String)
hashed_texts nil = ok []
hashed_texts (cons (str s) xs) = hashed_texts xs >>= λ rest. ok (s ∷ rest)
hashed_texts (cons (arr _) xs) = err type_error
hashed_texts (cons (obj _) xs) = err type_error
hashed_texts (cons _ xs) = hashed_texts xs

abbrev keys : Fields → List String
keys end = []
keys (field k v fs) = k ∷ keys fs

-- The texts of `set(v)` that can be a status. (A text gives its characters, and no status has
-- one character.)
unfoldable pub status_set : Json → Result (List String)
unfolding hashed_texts
status_set (arr xs) = hashed_texts xs
status_set (obj fs) = ok (keys fs)
status_set (str s) = ok []
status_set _ = err type_error

-- `set(policy.get("auto_supersede_fact_statuses", ["decision", "correction"]))`.
unfoldable pub auto_supersede_statuses : Fields → Result (List String)
unfolding status_set
auto_supersede_statuses policy = elim (get "auto_supersede_fact_statuses" policy) [
  | none ↦ ok ("decision" ∷ "correction" ∷ [])
  | some v ↦ status_set v
]
