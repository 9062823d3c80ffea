-- ===== src/Rules/Single.antt =====
-- At most one active row for each rule, which services/rules.py keeps for the parse and the merge
-- rules alike: the reasoning on any table that replaces rows as theirs do.
use hojo_memory_engine.Prelude.{
  ℕ, ◌≤◌, ◌≡◌, String, Bool, true, false, some, List, [], ◌∷◌, ◌++◌, count, update_many, latest,
  ◌==◌, nat_eq, arith, inl, inr, Bool-cases, count-snoc, count-le, count-update_many_le,
  count-update_many_loses, latest-eq-some,
}
use hojo_memory_engine.Context.{RequestContext}

-- A table of rules: `active ctx field rule` are the rows that a lookup reads.
pub record RuleTable (R : Type 0) : Type 0 where
  pub key : R → ℕ
  pub number : R → ℕ
  pub active : RequestContext → String → String → R → Bool
  pub retired : RequestContext → R → R
  pub retired_inactive :
      (c ctx : RequestContext) (field rule : String) (r : R)
      → active c field rule (retired ctx r) ≡ false
  -- The scopes that share a row are the same.
  pub one_scope :
      (c ctx : RequestContext) (f field g rule : String) (s r : R)
      → active c f g s ≡ true
      → active ctx field rule s ≡ true
      → active c f g r ≡ active ctx field rule r

module _ {R : Type 0} (t : RuleTable R) where
  abbrev pub IsSingle : List R → Type 0
  IsSingle rows =
      (ctx : RequestContext) (field rule : String) → count (t.active ctx field rule) rows ≤ 1

  abbrev pub replaced : RequestContext → R → List R → List R
  replaced ctx current = update_many (λ r. t.key r == t.key current) (t.retired ctx)

  pub replaced-IsSingle :
      (ctx : RequestContext) (current : R) (rows : List R)
      → IsSingle rows
      → IsSingle (replaced ctx current rows)
  replaced-IsSingle ctx current rows h c f g = omega (
    arith,
    h c f g,
    count-update_many_le (λ r. t.key r == t.key current) (t.retired ctx) (t.active c f g)
        (λ r e. cc (e, t.retired_inactive c ctx f g r)) rows,
  )

  -- The row that a lookup finds is the only one, and its retirement leaves none.
  pub replaced_vacant :
      (ctx : RequestContext) (field rule : String) (rows : List R) {current : R}
      → IsSingle rows
      → latest t.number (t.active ctx field rule) rows ≡ some current
      → count (t.active ctx field rule) (replaced ctx current rows) ≡ 0
  replaced_vacant ctx field rule rows {current} h e =
      let (live, held) = latest-eq-some t.number (t.active ctx field rule) rows {x = current} e in
      omega (
        arith,
        h ctx field rule,
        count-update_many_loses (λ r. t.key r == t.key current) (t.retired ctx)
            (t.active ctx field rule) (t.retired_inactive ctx ctx field rule) rows {x = current}
            held (ground arith) live,
      )

  pub added-IsSingle :
      (ctx : RequestContext) (field rule : String) (rows : List R) (new : R)
      → IsSingle rows
      → count (t.active ctx field rule) rows ≡ 0
      → t.active ctx field rule new ≡ true
      → IsSingle (rows ++ new ∷ [])
  added-IsSingle ctx field rule rows new h vacant live c f g =
      let snoc = count-snoc (t.active c f g) rows new in
      elim (Bool-cases (t.active c f g new)) [
        | inl e ↦
            let le =
              count-le (t.active ctx field rule) (t.active c f g)
                (λ r a. rw (← t.one_scope c ctx f field g rule new r e live) a) rows in
            ground (arith, snoc, le, vacant)
        | inr e ↦ ground (arith, snoc, h c f g)
      ]
