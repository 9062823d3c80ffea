-- ===== src/Quota/Tests.antt =====
-- services/billing_quota.py on one quota of 100.
use hojo_memory_engine.Samples.{context}
use hojo_memory_engine.Prelude.{◌+◌, ◌≡◌, ◌⊎◌, refl, [], ◌∷◌, filter, arith}
use hojo_memory_engine.Result.{ok, err, forbidden}
use hojo_memory_engine.Context.{RequestContext}
use hojo_memory_engine.Quota.{QuotaDb, applies, check_and_consume_quota}
use hojo_memory_engine.Quota.Limits.{
  IsWithin, used, check_and_consume_quota-IsWithin, check_and_consume_quota-IsMetered,
  check_and_consume_quota-unmetered,
}

program : Unit {0}
unfolding applies check_and_consume_quota
program = tt

abbrev quotas : QuotaDb
quotas =
    record {
      id = 1;
      tenant_id = 1;
      org_id = 1;
      scope = "tenant";
      target_id = 1;
      quota_type = "tokens";
      period = "monthly";
      quota_limit = 100;
      quota_used = 80;
      period_start = 0;
      period_end = 30;
      status = "active";
      deleted = 0;
    }
    ∷ []

check_and_consume_quota-IsWithin_example :
    IsWithin (check_and_consume_quota 5 context 15 "tokens" quotas).1
check_and_consume_quota-IsWithin_example =
    check_and_consume_quota-IsWithin 5 context "tokens" quotas 15 (omega arith)

consumes : (check_and_consume_quota 5 context 15 "tokens" quotas).0 ≡ ok tt
unfolding program
consumes = refl

check_and_consume_quota-IsMetered_example :
    (used (check_and_consume_quota 5 context 15 "tokens" quotas).1 ≡ used quotas + 15)
    ⊎ ((check_and_consume_quota 5 context 15 "tokens" quotas).1 ≡ quotas)
      × (filter (applies 5 context "tokens") quotas ≡ [])
check_and_consume_quota-IsMetered_example =
    check_and_consume_quota-IsMetered 5 context "tokens" quotas 15 consumes

refuses : (check_and_consume_quota 5 context 30 "tokens" quotas).0 ≡ err forbidden
unfolding program
refuses = refl

-- A caller of another organisation of the tenant.
abbrev neighbour : RequestContext
neighbour = record context { org_id = 2 }

check_and_consume_quota-unmetered_example :
    check_and_consume_quota 5 neighbour 1000 "tokens"
      (check_and_consume_quota 5 context 30 "tokens" quotas).1
    ≡ (ok tt, (check_and_consume_quota 5 context 30 "tokens" quotas).1)
check_and_consume_quota-unmetered_example =
    check_and_consume_quota-unmetered 5 context "tokens" quotas 30 refuses neighbour refl 1000
