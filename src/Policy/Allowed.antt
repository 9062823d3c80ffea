-- ===== src/Policy/Allowed.antt =====
-- Which claims `filter_claims` of services/memory_policy.py is meant to let through, and that it does.

use hojo_memory_engine.Prelude.{
  ◌≡◌, ◌↔◌, ◌⊎◌, inl, inr, String, Bool, true, not, ◌&&◌, ◌||◌, List, filter, arith, string_eq,
}
use hojo_memory_engine.Services.{Services}
use hojo_memory_engine.Claim.Types.{Sensitivity, Claim}
use hojo_memory_engine.Policy.{
  is_sensitive, Caller, permission_granted, is_permitted, filter_claims,
}
use hojo_memory_engine.Policy.Filter.{may_use, filter_claims-exact}
use hojo_memory_engine.Policy.Conditions.{
  Decides, Given, IsAhead, IsLive, Names, Scoped, both, expiry-IsAhead, implies, matches-Names,
  namespace-Same, scopes-Scoped, sensitive_iff, usable-IsLive,
}
use hojo_memory_engine.Policy.Meeting.{Suits, fits_scope-Suits}

-- What the claim's owner and the caller ask of a claim.
pub record IsAllowed (sv : Services) (k : Caller) (c : Claim) : Type 0 where
  pub same_type : c.namespace.type ≡ k.usage.namespace.type
  pub same_id : c.namespace.id ≡ k.usage.namespace.id
  pub live : IsLive k.allow_historical c
  pub ahead : IsAhead sv k.now c.expires_at
  pub modules : Names c.access_policy.allowed_modules k.usage.module_id
  pub scenarios : Names c.access_policy.allowed_scenarios k.usage.scenario
  pub scopes : Scoped c.access_policy.allowed_scopes k.usage.scope
  pub roles : Names c.access_policy.allowed_roles k.usage.caller_role
  pub llm : k.llm_requested ≡ true → c.access_policy.allow_llm ≡ true
  pub guarded :
      c.access_policy.sensitivity ≡ Sensitivity.sensitive
      → (k.disable_auth ≡ true)
        ⊎ (permission_granted k.ctx.permissions "memory:retrieve:sensitive" ≡ true)
  pub meeting :
      (m : String) → Given k.usage.current_meeting_id m → Suits k.usage.scope c.provenance m

module _ (sv : Services) (k : Caller) (c : Claim) where
  guarded_iff :
      (granted : Bool)
      → Decides
          (not (is_sensitive c.access_policy.sensitivity && not (k.disable_auth || granted)))
          (c.access_policy.sensitivity ≡ Sensitivity.sensitive
            → (k.disable_auth ≡ true) ⊎ (granted ≡ true))
  guarded_iff granted =
      let s = sensitive_iff c.access_policy.sensitivity in
      let d = implies (is_sensitive c.access_policy.sensitivity) (k.disable_auth || granted) in
      (
        λ h e. let either = d.0 h (s.1 e) in ground (arith, either),
        λ h. d.1 λ t. elim (h (s.0 t)) [ inl a ↦ ground (arith, a) | inr b ↦ ground (arith, b) ],
      )

  may_use-IsAllowed : (may_use sv k c ≡ true) ↔ IsAllowed sv k c
  unfolding is_permitted
  may_use-IsAllowed =
      let p = c.access_policy in
      let granted = permission_granted k.ctx.permissions "memory:retrieve:sensitive" in
      let d = both (namespace-Same k c) (
        both (usable-IsLive k.allow_historical c) (
          both (expiry-IsAhead sv k.now c.expires_at) (
            both
              (both (matches-Names p.allowed_modules k.usage.module_id) (
                both (matches-Names p.allowed_scenarios k.usage.scenario) (
                  both (scopes-Scoped p.allowed_scopes k.usage.scope) (
                    both (matches-Names p.allowed_roles k.usage.caller_role)
                      (both (implies k.llm_requested p.allow_llm) (guarded_iff granted))))))
              (fits_scope-Suits k.usage c)))) in
      (
        λ e.
            let (ns, (l, (a, (q, m)))) = d.0 e in
            let (mo, (sc, (sp, (ro, (ll, gu))))) = q in
            record {
              same_type = ns.0;
              same_id = ns.1;
              live = l;
              ahead = a;
              modules = mo;
              scenarios = sc;
              scopes = sp;
              roles = ro;
              llm = ll;
              guarded = gu;
              meeting = m;
            },
        λ h. d.1 (
          (h.same_type, h.same_id),
          (
            h.live,
            (
              h.ahead,
              ((h.modules, (h.scenarios, (h.scopes, (h.roles, (h.llm, h.guarded))))), h.meeting),
            ),
          ),
        ),
      )

-- `filter_claims` returns, in their order, the claims that pass a test which is true of exactly the
-- allowed ones: those of the namespace, active and current or past where history is allowed, not
-- expired, whose policy lists the module, scenario, scope and role, open to an LLM where one is asked
-- and to a caller with the permission or without authentication where sensitive, with evidence that
-- suits the scope in the current meeting.
pub filter_claims-IsAllowed :
    (sv : Services) (k : Caller) (cs : List Claim)
    → (test : Claim → Bool) × ((filter_claims sv k cs).0 ≡ filter test cs)
      × ((c : Claim) → (test c ≡ true) ↔ IsAllowed sv k c)
filter_claims-IsAllowed sv k cs =
    (may_use sv k, filter_claims-exact sv k cs, may_use-IsAllowed sv k)
