-- ===== src/Retrieval/Selection/Budget.antt =====
-- What the loop of `retrieve` in services/memory_v2_retrieve.py leaves within its budget.
use hojo_memory_engine.Prelude.{ℕ, ◌+◌, ◌≤◌, ◌≡◌, false, List, [], ◌∷◌, All, length, arith}
use hojo_memory_engine.Json.{ℤ, pos, Fields, get}
use hojo_memory_engine.Result.{ok, bind-intro}
use hojo_memory_engine.Services.{Services}
use hojo_memory_engine.Retrieval.Selection.{
  Ranked, MemoryBundleItem, Picked, Limits, QueryKind, aggregation, multifacet, single, at_most,
  configured, widened, max_increment_items, estimate_tokens, less, claim_min_score,
}

abbrev pub spent : List MemoryBundleItem → ℕ
spent [] = 0
spent (i ∷ is) = estimate_tokens i.text + spent is

module _ (g : Limits) where
  -- The state of the loop after `n` claims.
  pub record IsWithin (n : ℕ) (s : Picked) : Type 0 where
    pub items : length s.selected ≤ g.max_items
    pub tokens : s.token_count ≤ g.max_tokens
    pub counted : s.token_count ≡ spent s.selected
    pub scored : All (λ i. less i.score (pos g.min_score) ≡ false) s.selected
    pub accounted : length s.selected + s.below_score + s.token_budget ≡ n
    pub rejected : s.token_budget ≡ s.max_items_rejected + s.token_limit_rejected

  module _ (sv : Services) where
    -- The claim's own minimal score is a number, or left out.
    abbrev pub Readable : Ranked → Type 0
    Readable r = (own : ℤ) × (claim_min_score sv r.claim.retrieval_policy ≡ ok own)

at_most-bounds :
    (top_k limit : ℕ) → 1 ≤ top_k → (1 ≤ at_most top_k limit) × (at_most top_k limit ≤ top_k)
at_most-bounds top_k limit h = (ground arith, ground arith)

widened-bounds :
    (kind : QueryKind) (top_k aggregation_max multifacet_max limit : ℕ)
    → 1 ≤ top_k
    → let m = widened kind top_k aggregation_max multifacet_max (at_most top_k limit) in
      (1 ≤ m) × (m ≤ top_k)
widened-bounds aggregation top_k aggregation_max multifacet_max limit h =
    let a = at_most-bounds top_k limit h in
    let b = at_most-bounds top_k aggregation_max h in (ground arith, ground arith)
widened-bounds multifacet top_k aggregation_max multifacet_max limit h =
    let a = at_most-bounds top_k limit h in
    let b = at_most-bounds top_k multifacet_max h in (ground arith, ground arith)
widened-bounds single top_k aggregation_max multifacet_max limit h = at_most-bounds top_k limit h

-- The limit on the items is positive and never larger than the request's, whatever the kind of the
-- query, the profile and the settings are.
pub max_increment_items-bounds :
    (sv : Services) (kind : QueryKind) (top_k aggregation_max multifacet_max n : ℕ)
    (profile : Fields)
    → 1 ≤ top_k
    → max_increment_items sv kind top_k aggregation_max multifacet_max profile ≡ ok n
    → (1 ≤ n) × (n ≤ top_k)
unfolding max_increment_items
max_increment_items-bounds sv kind top_k aggregation_max multifacet_max n profile positive =
    bind-intro (λ o. o ≡ ok n → (1 ≤ n) × (n ≤ top_k))
      (configured sv top_k (get "max_increment_items" profile)) _ (λ _ e. cc)
      λ limit _ e.
        let same : widened kind top_k aggregation_max multifacet_max (at_most top_k limit) ≡ n =
          cc in
        rw (← same) (widened-bounds kind top_k aggregation_max multifacet_max limit positive)
