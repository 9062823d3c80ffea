-- ===== src/Retrieval/Diversity/Spread.antt =====
-- What `_diversify_by_evidence_group` of services/memory_v2_retrieve.py does to the order.
use hojo_memory_engine.Prelude.{
  ℕ, ◌+◌, ◌≤◌, ◌≡◌, refl, ap, ◌∙◌, String, Bool, true, false, Option, none, some, List, [], ◌∷◌,
  ◌++◌, bit, count, count-append, count-snoc, ltb, if-intro, ◌==◌, string_eq, eq_iff, arith, inl,
  inr, Bool-cases, length,
}
use mathlib.Core.List.{append-nil, append_assoc}
use hojo_memory_engine.Retrieval.Selection.{Ranked}
use hojo_memory_engine.Retrieval.Diversity.{
  times, bump, Groups, no_groups, group_of, place_claim, place_all, diversify_by_evidence_group,
}

abbrev pub is_group : String → Option String → Bool
is_group g none = false
is_group g (some h) = h == g

abbrev pub in_group : String → Ranked → Bool
in_group g r = is_group g (group_of r)

times-bump :
    (g h : String) (counts : List (String × ℕ))
    → times g (bump h counts) ≡ times g counts + bit (h == g)
times-bump g h [] = ground arith
times-bump g h ((k, n) ∷ counts) =
    ground (arith, times-bump g h counts, eq_iff k h, eq_iff k g, eq_iff h g)

-- The state of the loop after the claims `rs`.
record IsSpread (n : ℕ) (rs : List Ranked) (s : Groups) : Type 0 where
  counted : (g : String) → times g s.counts ≡ count (in_group g) s.selected
  capped : (g : String) → count (in_group g) s.selected ≤ n
  kept : (p : Ranked → Bool) → count p s.selected + count p s.deferred ≡ count p rs

module _ (n : ℕ) (rs : List Ranked) (r : Ranked) (s : Groups) (h : IsSpread n rs s) where
  grown :
      (o : Option String)
      → group_of r ≡ o
      → (g : String)
      → count (in_group g) (s.selected ++ r ∷ [])
        ≡ count (in_group g) s.selected + bit (is_group g o)
  grown o e g =
      count-snoc (in_group g) s.selected r
      ∙ ap (λ q. count (in_group g) s.selected + bit (is_group g q)) e

  -- A group with room has room for one more.
  fits :
      (g : String)
      → ltb (times g s.counts) n ≡ true
      → (k : String) → count (in_group k) s.selected + bit (g == k) ≤ n
  fits g free k = elim (Bool-cases (g == k)) [
    | inl e ↦
        let same : times g s.counts ≡ times k s.counts =
          ap (λ i. times i s.counts) ((eq_iff g k).0 e) in
        rw e (ground (arith, h.counted k, same))
    | inr e ↦ rw e (omega (arith, h.capped k))
  ]

  place_claim-IsSpread :
      (o : Option String) → group_of r ≡ o → IsSpread n (rs ++ r ∷ []) (place_claim n r o s)
  unfolding place_claim
  place_claim-IsSpread none e = record {
    counted = λ g. omega (arith, h.counted g, grown none e g);
    capped = λ g. omega (arith, h.capped g, grown none e g);
    kept = λ p. omega (arith, h.kept p, count-snoc p rs r, count-snoc p s.selected r);
  }
  place_claim-IsSpread (some g) e =
      if-intro (IsSpread n (rs ++ r ∷ [])) (ltb (times g s.counts) n) _ _
        (λ free. record {
          counted = λ k. omega (arith, h.counted k, grown (some g) e k, times-bump k g s.counts);
          capped = λ k. omega (arith, fits g free k, grown (some g) e k);
          kept = λ p. omega (arith, h.kept p, count-snoc p rs r, count-snoc p s.selected r);
        })
        λ full. record {
          counted = h.counted;
          capped = h.capped;
          kept = λ p. omega (arith, h.kept p, count-snoc p rs r, count-snoc p s.deferred r);
        }

module _ (n : ℕ) where
  place_all-IsSpread :
      (rs qs : List Ranked) (s : Groups)
      → IsSpread n qs s
      → IsSpread n (qs ++ rs) (place_all n rs s)
  unfolding place_all
  place_all-IsSpread [] qs s h = rw (append-nil qs) h
  place_all-IsSpread (r ∷ rs) qs s h =
      rw (← append_assoc qs (r ∷ []) rs)
        (place_all-IsSpread rs (qs ++ r ∷ []) _ (place_claim-IsSpread n qs r s h (group_of r) refl))

  -- The list that is returned is the given one in another order: chosen claims, of which each group
  -- has at most the maximum, and then as many others as the second result says.
  pub diversify_by_evidence_group-reorders :
      (rs : List Ranked)
      → 1 ≤ n
      → let (out, deferred) = diversify_by_evidence_group n rs in
        ((p : Ranked → Bool) → count p out ≡ count p rs)
        × ((chosen rest : List Ranked) × (out ≡ chosen ++ rest)
            × (length rest ≡ deferred)
            × ((g : String) → count (in_group g) chosen ≤ n))
  unfolding diversify_by_evidence_group
  diversify_by_evidence_group-reorders rs positive =
      let s = place_all n rs no_groups in
      let h : IsSpread n rs s =
        place_all-IsSpread rs [] no_groups
          (record { counted = λ g. refl; capped = λ g. omega arith; kept = λ p. refl }) in
      if-intro
        (λ (result : List Ranked × ℕ).
          ((p : Ranked → Bool) → count p result.0 ≡ count p rs)
          × ((chosen rest : List Ranked) × (result.0 ≡ chosen ++ rest)
              × (length rest ≡ result.1)
              × ((g : String) → count (in_group g) chosen ≤ n)))
        (ltb n 1) (rs, 0) (s.selected ++ s.deferred, length s.deferred)
        (λ none_allowed. absurd (ground arith))
        λ some_allowed. (
          λ p. count-append p s.selected s.deferred ∙ h.kept p,
          (s.selected, s.deferred, refl, refl, h.capped),
        )
