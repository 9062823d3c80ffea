-- ===== src/Quota.antt =====
-- services/billing_quota.py: `check_and_consume_quota` and `create_quota` over the table
-- `usage_quota` (models/billing.py). Amounts are the millionths of `Numeric(20, 6)`, not negative.
pub mod Limits
mod Tests
use hojo_memory_engine.Prelude.{
  ℕ, ◌+◌, String, Bool, true, false, ◌&&◌, Option, List, [], ◌∷◌, ◌++◌, filter, any, update_many,
  ltb, leb, ◌==◌, nat_eq, string_eq, if◌then◌else◌,
}
use hojo_memory_engine.Result.{Result, ok, err, forbidden, type_error}
use hojo_memory_engine.Context.{RequestContext}

pub record UsageQuota : Type 0 where
  pub id : ℕ
  pub tenant_id : ℕ
  pub org_id : ℕ
  pub scope : String
  pub target_id : ℕ
  pub quota_type : String
  pub period : String
  pub quota_limit : ℕ
  pub quota_used : ℕ
  pub period_start : ℕ
  pub period_end : ℕ
  pub status : String
  pub deleted : ℕ

abbrev pub QuotaDb : Type 0
QuotaDb = List UsageQuota

-- The rows that the query of `check_and_consume_quota` selects.
unfoldable pub applies : ℕ → RequestContext → String → UsageQuota → Bool
applies now ctx type q =
    (q.tenant_id == ctx.tenant_id)
    && ((q.scope == "tenant")
        && ((q.target_id == ctx.tenant_id)
            && ((q.quota_type == type)
                && ((q.period == "monthly")
                    && ((q.deleted == 0)
                        && ((q.status == "active")
                            && (leb q.period_start now && ltb now q.period_end)))))))

abbrev pub exceeded : UsageQuota → UsageQuota
exceeded q = record q { status = "exceeded" }

abbrev pub consumed : ℕ → UsageQuota → UsageQuota
consumed amount q = record q { quota_used = q.quota_used + amount }

-- The commit writes the selected row. `scalar_one_or_none` raises where there are several.
abbrev pub settle :
    ℕ → (UsageQuota → Bool) → List UsageQuota → QuotaDb → Result (Unit {0}) × QuotaDb
settle amount p [] db = (ok tt, db)
settle amount p (q ∷ []) db =
    if ltb q.quota_limit (q.quota_used + amount)
    then (err forbidden, update_many p exceeded db)
    else (ok tt, update_many p (consumed amount) db)
settle amount p (_ ∷ _ ∷ _) db = (err type_error, db)

unfoldable pub check_and_consume_quota :
    ℕ → RequestContext → ℕ → String → QuotaDb → Result (Unit {0}) × QuotaDb
check_and_consume_quota now ctx amount type db =
    settle amount (applies now ctx type) (filter (applies now ctx type) db) db

-- The table's unique key is (tenant, scope, target, type, period, start, deleted).
abbrev pub same_key : UsageQuota → UsageQuota → Bool
same_key a b =
    (a.tenant_id == b.tenant_id)
    && ((a.scope == b.scope)
        && ((a.target_id == b.target_id)
            && ((a.quota_type == b.quota_type)
                && ((a.period == b.period)
                    && ((a.period_start == b.period_start) && (a.deleted == b.deleted))))))

-- The arguments of `create_quota`.
pub record QuotaCreate : Type 0 where
  pub scope : String
  pub target_id : ℕ
  pub quota_type : String
  pub period : String
  pub quota_limit : ℕ
  pub period_start : ℕ
  pub period_end : ℕ

-- `id` is the key that the table gives.
unfoldable pub create_quota :
    ℕ → RequestContext → QuotaCreate → QuotaDb → Result UsageQuota × QuotaDb
create_quota id ctx body db =
    let row : UsageQuota = record {
      id = id;
      tenant_id = ctx.tenant_id;
      org_id = ctx.org_id;
      scope = body.scope;
      target_id = body.target_id;
      quota_type = body.quota_type;
      period = body.period;
      quota_limit = body.quota_limit;
      quota_used = 0;
      period_start = body.period_start;
      period_end = body.period_end;
      status = "active";
      deleted = 0;
    } in
    if any (same_key row) db then (err type_error, db) else (ok row, db ++ row ∷ [])
