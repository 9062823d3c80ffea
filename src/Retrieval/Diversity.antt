-- ===== src/Retrieval/Diversity.antt =====
-- `_diversify_by_evidence_group` of services/memory_v2_retrieve.py.
pub mod Spread
use hojo_memory_engine.Prelude.{
  ℕ, ◌+◌, String, Bool, true, false, Option, none, some, List, [], ◌∷◌, ◌++◌, length, maybe, ltb,
  ◌==◌, string_eq, if◌then◌else◌,
}
use hojo_memory_engine.Claim.Types.{MemoryProvenance}
use hojo_memory_engine.Claim.Store.{◌⊕◌}
use hojo_memory_engine.Retrieval.Selection.{Ranked}

abbrev labelled : String → Option String → Option String → Option String
labelled label none rest = rest
labelled label (some s) rest = if s == "" then rest else some (label ⊕ ":" ⊕ s)

-- `_evidence_group_key`.
unfoldable pub evidence_group_key : List MemoryProvenance → Option String
evidence_group_key [] = none
evidence_group_key (p ∷ ps) =
    labelled "meeting_id" p.meeting_id (labelled "source_id" p.source_id (evidence_group_key ps))

-- The dictionary `counts`, with 0 for a missing key.
abbrev pub times : String → List (String × ℕ) → ℕ
times g [] = 0
times g ((k, n) ∷ counts) = if k == g then n else times g counts

abbrev pub bump : String → List (String × ℕ) → List (String × ℕ)
bump g [] = (g, 1) ∷ []
bump g ((k, n) ∷ counts) =
    let rest = bump g counts in if k == g then (k, n + 1) ∷ counts else (k, n) ∷ rest

pub record Groups : Type 0 where
  pub selected : List Ranked
  pub deferred : List Ranked
  pub counts : List (String × ℕ)

abbrev pub no_groups : Groups
no_groups = record { selected = []; deferred = []; counts = [] }

abbrev pub group_of : Ranked → Option String
group_of r = evidence_group_key r.claim.provenance

-- One turn of the loop, for a claim of this group.
unfoldable pub place_claim : ℕ → Ranked → Option String → Groups → Groups
place_claim n r none s = record s { selected = s.selected ++ r ∷ [] }
place_claim n r (some g) s =
    if ltb (times g s.counts) n
    then record s { selected = s.selected ++ r ∷ []; counts = bump g s.counts }
    else record s { deferred = s.deferred ++ r ∷ [] }

unfoldable pub place_all : ℕ → List Ranked → Groups → Groups
unfolding place_claim
place_all n [] s = s
place_all n (r ∷ rs) s = place_all n rs (place_claim n r (group_of r) s)

unfoldable pub diversify_by_evidence_group : ℕ → List Ranked → List Ranked × ℕ
unfolding place_all
diversify_by_evidence_group n rs =
    if ltb n 1
    then (rs, 0)
    else let s = place_all n rs no_groups in (s.selected ++ s.deferred, length s.deferred)
