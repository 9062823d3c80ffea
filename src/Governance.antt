-- ===== src/Governance.antt =====
-- services/governance_apply.py: approval of proposals, and memory locks.
pub mod Approval
mod Tests
use hojo_memory_engine.Prelude.{
  ℕ, ◌+◌, ◌*◌, String, Bool, true, false, ◌&&◌, ◌||◌, Option, none, some, List, [], ◌∷◌, ◌++◌, find,
  maybe, update_many, ◌==◌, nat_eq, string_eq, if◌then◌else◌,
}
use hojo_memory_engine.Json.{Fields}
use hojo_memory_engine.Result.{Result, ok, err, not_found, conflict}
use hojo_memory_engine.Context.{RequestContext}

-- models/governance.py.
pub record GovernanceProposal : Type 0 where
  pub id : ℕ
  pub proposal_uuid : String
  pub tenant_id : ℕ
  pub org_id : ℕ
  pub target_type : String
  pub target_ref_json : Fields
  pub action : String
  pub payload_json : Fields
  pub risk_level : String
  pub status : String
  pub auto_apply : ℕ
  pub applied_at : Option ℕ
  pub deleted : ℕ
  pub updated_by : Option ℕ

pub record ProposalApproval : Type 0 where
  pub proposal_id : ℕ
  pub approver_user_id : ℕ
  pub decision : String
  pub comment : Option String
  pub decided_at : ℕ

pub record MemoryLock : Type 0 where
  pub lock_id : ℕ
  pub tenant_id : ℕ
  pub org_id : ℕ
  pub lock_type : String
  pub target_type : String
  pub target_ref_json : Fields
  pub locked_by_user_id : ℕ
  pub reason : Option String
  pub expires_at : Option ℕ
  pub released_at : Option ℕ
  pub deleted : ℕ
  pub updated_by : Option ℕ

pub record GovernanceDb : Type 0 where
  pub proposals : List GovernanceProposal
  pub approvals : List ProposalApproval
  pub locks : List MemoryLock
  pub next_lock : ℕ

-- `ctx.user_id or 0`.
abbrev user_or_zero : Option ℕ → ℕ
user_or_zero none = 0
user_or_zero (some u) = u

abbrev pub is_proposal : RequestContext → String → GovernanceProposal → Bool
is_proposal ctx uuid p =
    (p.proposal_uuid == uuid) && ((p.tenant_id == ctx.tenant_id) && (p.deleted == 0))

-- `_get_proposal`. The table's key makes the row unique.
unfoldable pub get_proposal : RequestContext → String → GovernanceDb → Option GovernanceProposal
get_proposal ctx uuid db = find (is_proposal ctx uuid) db.proposals

abbrev pub is_open : String → Bool
is_open status = (status == "pending_review") || (status == "draft")

abbrev pub with_decision : RequestContext → String → GovernanceProposal → GovernanceProposal
with_decision ctx decision p = record p {
  status = if decision == "approved" then "approved" else "rejected";
  updated_by = ctx.user_id;
}

-- The approval row, and the proposal's new status. The row that is changed is the one that was
-- read.
unfoldable pub decide_proposal :
    ℕ
    → RequestContext
    → String
    → String
    → Option String
    → GovernanceProposal
    → GovernanceDb
    → Result GovernanceProposal × GovernanceDb
decide_proposal now ctx uuid decision comment row db = (
  ok (with_decision ctx decision row),
  record db {
    proposals = update_many (is_proposal ctx uuid) (with_decision ctx decision) db.proposals;
    approvals =
        db.approvals
        ++ record {
          proposal_id = row.id;
          approver_user_id = user_or_zero ctx.user_id;
          decision = decision;
          comment = comment;
          decided_at = now;
        }
          ∷ [];
  },
)

unfoldable pub approve_proposal :
    ℕ
    → RequestContext
    → String
    → String
    → Option String
    → GovernanceDb
    → Result GovernanceProposal × GovernanceDb
approve_proposal now ctx uuid decision comment db =
    maybe (get_proposal ctx uuid db) (err not_found, db)
      λ row.
        if is_open row.status
        then decide_proposal now ctx uuid decision comment row db
        else (err conflict, db)

-- The arguments of `create_memory_lock`.
pub record LockRequest : Type 0 where
  pub lock_type : String
  pub target_type : String
  pub target_ref_json : Fields
  pub reason : Option String
  pub hours : ℕ

-- Times are in microseconds.
unfoldable pub create_memory_lock :
    ℕ → RequestContext → LockRequest → GovernanceDb → Result MemoryLock × GovernanceDb
create_memory_lock now ctx body db =
    let row : MemoryLock = record {
      lock_id = db.next_lock;
      tenant_id = ctx.tenant_id;
      org_id = ctx.org_id;
      lock_type = body.lock_type;
      target_type = body.target_type;
      target_ref_json = body.target_ref_json;
      locked_by_user_id = user_or_zero ctx.user_id;
      reason = body.reason;
      expires_at = some (now + body.hours * 3600000000);
      released_at = none;
      deleted = 0;
      updated_by = ctx.user_id;
    } in
    (ok row, record db { locks = db.locks ++ row ∷ []; next_lock = db.next_lock + 1 })

-- The lock of the tenant that is not released.
abbrev pub is_held : RequestContext → ℕ → MemoryLock → Bool
is_held ctx lock_id l =
    (l.lock_id == lock_id)
    && ((l.tenant_id == ctx.tenant_id)
        && ((l.deleted == 0) && elim l.released_at [ none ↦ true | some t ↦ false ]))

abbrev pub released : ℕ → RequestContext → MemoryLock → MemoryLock
released now ctx l = record l { released_at = some now; updated_by = ctx.user_id }

unfoldable pub release_memory_lock :
    ℕ → RequestContext → ℕ → GovernanceDb → Result (Unit {0}) × GovernanceDb
release_memory_lock now ctx lock_id db =
    maybe (find (is_held ctx lock_id) db.locks) (err not_found, db)
      λ _.
        (ok tt, record db { locks = update_many (is_held ctx lock_id) (released now ctx) db.locks })
