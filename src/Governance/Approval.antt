-- ===== src/Governance/Approval.antt =====
-- A proposal is decided once: services/governance_apply.py.
use hojo_memory_engine.Prelude.{
  ℕ, ◌≡◌, ◌∙◌, refl, String, false, Option, some, List, [], ◌∷◌, find, maybe, update_many, ◌==◌,
  nat_eq, string_eq, arith, Bool-cases, inl, inr, if-intro, maybe-intro,
}
use hojo_memory_engine.Result.{Result, ok, err, conflict}
use hojo_memory_engine.Context.{RequestContext}
use hojo_memory_engine.Governance.{
  GovernanceProposal, GovernanceDb, is_proposal, get_proposal, is_open, with_decision,
  decide_proposal, approve_proposal,
}

closed :
    (ctx : RequestContext) (decision : String) (p : GovernanceProposal)
    → is_open (with_decision ctx decision p).status ≡ false
closed ctx decision p = elim (Bool-cases (decision == "approved")) [
  | inl t ↦ rw t refl
  | inr t ↦ rw t refl
]

module _ (ctx : RequestContext) (uuid : String) where
  find-with_decision :
      (decision : String) (ps : List GovernanceProposal) {row : GovernanceProposal}
      → find (is_proposal ctx uuid) ps ≡ some row
      → find
          (is_proposal ctx uuid)
          (update_many (is_proposal ctx uuid) (with_decision ctx decision) ps)
        ≡ some (with_decision ctx decision row)
  find-with_decision decision [] e = cc
  find-with_decision decision (p ∷ ps) {row} e = elim (Bool-cases (is_proposal ctx uuid p)) [
    | inl t ↦ ground (arith, t)
    | inr t ↦ ground (arith, t, find-with_decision decision ps {row = row})
  ]

  same_proposal :
      (other_ctx : RequestContext) (db : GovernanceDb)
      → other_ctx.tenant_id ≡ ctx.tenant_id
      → get_proposal other_ctx uuid db ≡ get_proposal ctx uuid db
  unfolding get_proposal
  same_proposal other_ctx db t = rw t refl

  refused :
      (other_ctx : RequestContext)
      → other_ctx.tenant_id ≡ ctx.tenant_id
      → (later : ℕ) (again : String) (other : Option String) (db : GovernanceDb)
        (row : GovernanceProposal)
      → get_proposal ctx uuid db ≡ some row
      → is_open row.status ≡ false
      → approve_proposal later other_ctx uuid again other db ≡ (err conflict, db)
  unfolding approve_proposal maybe
  refused other_ctx t later again other db row e c = rw (same_proposal other_ctx db t ∙ e, c) refl

  -- Once `approve_proposal` has decided a proposal, approved or rejected, every later decision on it,
  -- by whichever user of the tenant, is refused as a conflict and changes nothing.
  pub approve_proposal-once :
      (now : ℕ) (decision : String) (comment : Option String) (db : GovernanceDb)
      (row : GovernanceProposal)
      → (approve_proposal now ctx uuid decision comment db).0 ≡ ok row
      → (other_ctx : RequestContext) → other_ctx.tenant_id ≡ ctx.tenant_id
      → (later : ℕ) (again : String) (other : Option String)
      → approve_proposal later other_ctx uuid again other
          (approve_proposal now ctx uuid decision comment db).1
        ≡ (err conflict, (approve_proposal now ctx uuid decision comment db).1)
  unfolding approve_proposal decide_proposal get_proposal
  approve_proposal-once now decision comment db row e other_ctx t later again other =
      maybe-intro
        (λ (s : Result GovernanceProposal × GovernanceDb).
          s.0 ≡ ok row
          → approve_proposal later other_ctx uuid again other s.1 ≡ (err conflict, s.1))
        (get_proposal ctx uuid db) _ _ (λ _ u. cc)
        (λ p found.
          if-intro
            (λ (s : Result GovernanceProposal × GovernanceDb).
              s.0 ≡ ok row
              → approve_proposal later other_ctx uuid again other s.1 ≡ (err conflict, s.1))
            (is_open p.status) _ _
            (λ _ _.
              refused other_ctx t later again other
                (decide_proposal now ctx uuid decision comment p db).1
                (with_decision ctx decision p)
                (find-with_decision decision db.proposals {row = p} found) (closed ctx decision p))
            (λ _ u. cc))
        e
