-- ===== src/Governance/Tests.antt =====
-- services/governance_apply.py on one proposal.
use hojo_memory_engine.Prelude.{some, ◌≡◌, refl, none, [], ◌∷◌, maybe}
use hojo_memory_engine.Json.{end}
use hojo_memory_engine.Result.{ok, err, conflict}
use hojo_memory_engine.Samples.{context}
use hojo_memory_engine.Context.{RequestContext}
use hojo_memory_engine.Governance.{
  GovernanceProposal, GovernanceDb, get_proposal, with_decision, decide_proposal, approve_proposal,
}
use hojo_memory_engine.Governance.Approval.{approve_proposal-once}

program : Unit {0}
unfolding maybe get_proposal decide_proposal approve_proposal
program = tt

abbrev proposal : GovernanceProposal
proposal = record {
  id = 1;
  proposal_uuid = "p1";
  tenant_id = 1;
  org_id = 1;
  target_type = "memory_field";
  target_ref_json = end;
  action = "create";
  payload_json = end;
  risk_level = "low";
  status = "pending_review";
  auto_apply = 0;
  applied_at = none;
  deleted = 0;
  updated_by = none;
}

abbrev db : GovernanceDb
db = record { proposals = proposal ∷ []; approvals = []; locks = []; next_lock = 1 }

approves :
    (approve_proposal 5 context "p1" "approved" none db).0
    ≡ ok (with_decision context "approved" proposal)
unfolding program
approves = refl

-- Another user of the tenant.
abbrev colleague : RequestContext
colleague = record context { user_id = some 8 }

approve_proposal-once_example :
    approve_proposal 6 colleague "p1" "rejected" none
      (approve_proposal 5 context "p1" "approved" none db).1
    ≡ (err conflict, (approve_proposal 5 context "p1" "approved" none db).1)
approve_proposal-once_example =
    approve_proposal-once context "p1" 5 "approved" none db
      (with_decision context "approved" proposal) approves colleague refl 6 "rejected" none
