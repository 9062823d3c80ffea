-- ===== src/Retrieval/Selection.antt =====
-- `retrieve` of services/memory_v2_retrieve.py: the last loop, which takes from the ranked claims
-- what fits the bundle. `shorten` is `_compact_aggregation_text` for a query that aggregates, and
-- otherwise the identity; the loop is the same for both. Scores are doubles, as in Json.
pub mod Budget
use Prim.Native.Nat.{◌/◌}
use Prim.Native.String
use hojo_memory_engine.Prelude.{
  ℕ, ◌+◌, suc, String, Bool, true, false, not, ◌||◌, Option, none, some, List, [], ◌∷◌, ◌++◌,
  length, ltb, if◌then◌else◌,
}
use hojo_memory_engine.Json.{ℤ, pos, negsuc, Json, Fields, get}
use hojo_memory_engine.Json.Number.{to_float, to_int, to_ℕ}
use hojo_memory_engine.Result.{Result, ok, err, ◌>>=◌, type_error, validation}
use hojo_memory_engine.Services.{Services}
use hojo_memory_engine.Retrieval.{larger}
use hojo_memory_engine.Claim.Types.{FactStatus, MemoryProvenance, Claim}

-- A claim of the ranked list with the keys that the ranking has added.
pub record Ranked : Type 0 where
  pub claim : Claim
  pub score : ℤ
  pub usage : Option String
  pub reason : Option String

-- `relation_to_current` and `allowed_action` are always `increment` and `append_background` here.
pub record MemoryBundleItem : Type 0 where
  pub claim_id : String
  pub dimension : String
  pub claim_type : String
  pub text : String
  pub value : Json
  pub fact_status : FactStatus
  pub score : ℤ
  pub usage : Option String
  pub reason : Option String
  pub provenance : List MemoryProvenance
  pub usage_mode : String

-- The variables of the loop.
pub record Picked : Type 0 where
  pub selected : List MemoryBundleItem
  pub token_count : ℕ
  pub below_score : ℕ
  pub token_budget : ℕ
  pub max_items_rejected : ℕ
  pub token_limit_rejected : ℕ

abbrev pub nothing_picked : Picked
nothing_picked = record {
  selected = [];
  token_count = 0;
  below_score = 0;
  token_budget = 0;
  max_items_rejected = 0;
  token_limit_rejected = 0;
}

-- The bounds of a bundle, and how its items are made.
pub record Limits : Type 0 where
  pub max_items : ℕ
  pub max_tokens : ℕ
  pub min_score : ℕ
  pub usage_mode : String
  pub shorten : String → String

abbrev smaller : ℕ → ℕ → ℕ
smaller m n = if ltb n m then n else m

-- `max(1, min(top_k, limit))`; a negative limit counts as 0.
abbrev pub at_most : ℕ → ℕ → ℕ
at_most top_k limit = larger 1 (smaller top_k limit)

-- The kinds of queries that the limit on the items tells apart.
pub data QueryKind : Type 0 where
  aggregation multifacet single : QueryKind

abbrev pub configured : Services → ℕ → Option Json → Result ℕ
configured sv top_k none = ok top_k
configured sv top_k (some v) = elim (to_int sv.parse_int v) [
  | none ↦ err validation
  | some z ↦ ok (to_ℕ z)
]

abbrev pub widened : QueryKind → ℕ → ℕ → ℕ → ℕ → ℕ
widened aggregation top_k aggregation_max multifacet_max n =
    larger n (at_most top_k aggregation_max)
widened multifacet top_k aggregation_max multifacet_max n = larger n (at_most top_k multifacet_max)
widened single top_k aggregation_max multifacet_max n = n

-- The limit on the items, from the request, the profile and two settings.
unfoldable pub max_increment_items : Services → QueryKind → ℕ → ℕ → ℕ → Fields → Result ℕ
unfolding to_int
max_increment_items sv kind top_k aggregation_max multifacet_max profile =
    configured sv top_k (get "max_increment_items" profile) >>= λ limit.
    ok (widened kind top_k aggregation_max multifacet_max (at_most top_k limit))

unfoldable chars : String → ℕ
chars String.[] = 0
chars (String.◌∷◌ c s) = suc (chars s)

unfoldable pub estimate_tokens : String → ℕ
unfolding chars
estimate_tokens text = larger 1 ((chars text + 1) / 2)

abbrev pub less : ℤ → ℤ → Bool
less (pos m) (pos n) = ltb m n
less (pos m) (negsuc n) = false
less (negsuc m) (pos n) = true
less (negsuc m) (negsuc n) = ltb n m

abbrev score_of : Services → Option Json → Result ℤ
score_of sv none = ok (pos 0)
score_of sv (some v) = elim (to_float sv.parse_float v) [ none ↦ err type_error | some z ↦ ok z ]

unfoldable pub claim_min_score : Services → Fields → Result ℤ
unfolding to_float
claim_min_score sv policy = score_of sv (get "min_score" policy)

abbrev pub item_of : Limits → Ranked → MemoryBundleItem
item_of g r = record {
  claim_id = r.claim.claim_id;
  dimension = r.claim.dimension;
  claim_type = r.claim.claim_type;
  text = g.shorten r.claim.text;
  value = r.claim.value;
  fact_status = r.claim.fact_status;
  score = r.score;
  usage = r.usage;
  reason = r.reason;
  provenance = r.claim.provenance;
  usage_mode = g.usage_mode;
}

-- One turn of the loop, for a claim with this minimal score of its own.
unfoldable pub pick : Limits → ℤ → Ranked → Picked → Picked
unfolding estimate_tokens
pick g own r s =
    let tokens = estimate_tokens (g.shorten r.claim.text) in
    if less r.score (pos g.min_score) || less r.score own
    then record s { below_score = s.below_score + 1 }
    else if not (ltb (length s.selected) g.max_items)
    then record s {
      token_budget = s.token_budget + 1;
      max_items_rejected = s.max_items_rejected + 1;
    }
    else if ltb g.max_tokens (s.token_count + tokens)
    then record s {
      token_budget = s.token_budget + 1;
      token_limit_rejected = s.token_limit_rejected + 1;
    }
    else record s {
      selected = s.selected ++ item_of g r ∷ [];
      token_count = s.token_count + tokens;
    }

unfoldable pub select : Services → Limits → List Ranked → Picked → Result Picked
unfolding claim_min_score
select sv g [] s = ok s
select sv g (r ∷ rs) s =
    claim_min_score sv r.claim.retrieval_policy >>= λ own. select sv g rs (pick g own r s)
