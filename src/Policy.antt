-- ===== src/Policy.antt =====
-- services/memory_policy.py and core/permissions.py: which stored claims a caller may use.
pub mod Filter
pub mod Conditions
pub mod Meeting
pub mod Allowed
pub mod Tests
use hojo_memory_engine.Prelude.{
  ℕ, ◌+◌, String, Bool, true, false, not, ◌&&◌, ◌||◌, Option, none, some, List, [], ◌∷◌, any,
  contains, leb, map, filter, ◌==◌, nat_eq, string_eq, if◌then◌else◌,
}
use Prim.Native.Char.{code}
use hojo_memory_engine.Text.{starts_with, ends_with, drop_last, rstrip, replace_z}
use hojo_memory_engine.Result.{Result, guard, forbidden}
use hojo_memory_engine.Context.{RequestContext}
use hojo_memory_engine.Services.{Services, Datetime, naive, aware}
use hojo_memory_engine.Claim.Types.{
  LifecycleStatus, MemoryScope, self, cross, all, Sensitivity, sensitive, MemoryNamespace,
  MemoryProvenance, Claim, is_active, is_historical,
}

-- One pattern of `permission_granted`.
unfoldable pub covers_permission : String → String → Bool
unfolding starts_with ends_with drop_last rstrip
covers_permission required pattern =
    (pattern == "*")
    || (ends_with pattern ":*"
        && (let prefix = drop_last pattern in
            (required == rstrip (λ c. code c == b':') prefix) || starts_with required prefix))

unfoldable pub permission_granted : List String → String → Bool
unfolding covers_permission
permission_granted granted required =
    if contains required granted then true else any (covers_permission required) granted

-- schemas/memory_claim.py.
pub record MemoryUsageContext : Type 0 where
  pub module_id : String
  pub scenario : String
  pub scope : MemoryScope
  pub current_meeting_id : Option String
  pub namespace : MemoryNamespace
  pub caller_role : String

-- `_matches`.
unfoldable pub matches : List String → String → Bool
matches values value = contains "*" values || contains value values

abbrev pub is_self : MemoryScope → Bool
is_self self = true
is_self _ = false

abbrev pub is_cross : MemoryScope → Bool
is_cross cross = true
is_cross _ = false

abbrev pub same_scope : MemoryScope → MemoryScope → Bool
same_scope self self = true
same_scope cross cross = true
same_scope all all = true
same_scope _ _ = false

-- `disable_auth` is the setting `app_disable_auth`.
unfoldable pub ensure_retrieve_permission :
    Bool → RequestContext → MemoryUsageContext → Result (Unit {0})
unfolding permission_granted
ensure_retrieve_permission disable_auth ctx usage =
    let required =
      if is_self usage.scope then "memory:retrieve:self" else "memory:retrieve:cross" in
    guard (disable_auth || permission_granted ctx.permissions required) forbidden

-- What a request brings to the filter.
pub record Caller : Type 0 where
  pub disable_auth : Bool
  pub now : ℕ
  pub ctx : RequestContext
  pub usage : MemoryUsageContext
  pub llm_requested : Bool
  pub allow_historical : Bool

-- The tests of `filter_claims`, in the order in which it makes them.
unfoldable pub in_namespace : MemoryUsageContext → Claim → Bool
in_namespace usage c =
    (c.namespace.type == usage.namespace.type) && (c.namespace.id == usage.namespace.id)

unfoldable pub is_usable : Bool → Claim → Bool
is_usable allow_historical c =
    (is_active c.lifecycle_status && c.is_current)
    || (allow_historical && is_historical c.lifecycle_status)

-- A naive expiry counts as UTC.
abbrev pub instant : Datetime → ℕ
instant (naive t) = t
instant (aware t) = t

unfoldable pub has_expired : Services → ℕ → Option String → Bool
unfolding replace_z
has_expired sv now none = false
has_expired sv now (some s) =
    if s == ""
    then false
    else elim (sv.fromisoformat (replace_z s)) [ none ↦ true | some t ↦ leb (instant t) now ]

abbrev pub scopes_or_self : List MemoryScope → List MemoryScope
scopes_or_self [] = self ∷ []
scopes_or_self (s ∷ ss) = s ∷ ss

abbrev pub is_sensitive : Sensitivity → Bool
is_sensitive sensitive = true
is_sensitive _ = false

unfoldable pub is_permitted : Caller → Claim → Bool
unfolding matches permission_granted
is_permitted k c =
    let p = c.access_policy in
    matches p.allowed_modules k.usage.module_id
    && (matches p.allowed_scenarios k.usage.scenario
        && (any (same_scope k.usage.scope) (scopes_or_self p.allowed_scopes)
            && (matches p.allowed_roles k.usage.caller_role
                && (not (k.llm_requested && not p.allow_llm)
                    && not (
                        is_sensitive p.sensitivity
                        && not (
                            k.disable_auth
                            || permission_granted k.ctx.permissions
                                "memory:retrieve:sensitive"))))))

-- The claim has evidence from the meeting.
unfoldable pub from_meeting : String → List MemoryProvenance → Bool
from_meeting m [] = false
from_meeting m (p ∷ ps) =
    elim p.meeting_id [ none ↦ false | some i ↦ not (i == "") && (i == m) ] || from_meeting m ps

-- A current meeting restricts `self` to its own claims and `cross` to the others'.
unfoldable pub fits_scope : MemoryUsageContext → Claim → Bool
unfolding from_meeting
fits_scope usage c = elim usage.current_meeting_id [
  | none ↦ true
  | some m ↦
      if m == ""
      then true
      else if is_self usage.scope
      then from_meeting m c.provenance
      else not (is_cross usage.scope && from_meeting m c.provenance)
]

-- The keys of `excluded`.
pub data Exclusion : Type 0 where
  different_namespace permission_denied scope_mismatch expired conflicted_or_inactive : Exclusion

-- One turn of the loop: the key that counts the claim, or none where it is allowed.
unfoldable pub exclusion_of : Services → Caller → Claim → Option Exclusion
exclusion_of sv k c =
    if not (in_namespace k.usage c)
    then some different_namespace
    else if not (is_usable k.allow_historical c)
    then some conflicted_or_inactive
    else if has_expired sv k.now c.expires_at
    then some expired
    else if not (is_permitted k c)
    then some permission_denied
    else if not (fits_scope k.usage c)
    then some scope_mismatch
    else none

pub record Excluded : Type 0 where
  pub n_namespace : ℕ
  pub n_denied : ℕ
  pub n_scope : ℕ
  pub n_expired : ℕ
  pub n_inactive : ℕ

abbrev pub none_excluded : Excluded
none_excluded = record { n_namespace = 0; n_denied = 0; n_scope = 0; n_expired = 0; n_inactive = 0 }

abbrev pub tally : Exclusion → Excluded → Excluded
tally different_namespace e = record e { n_namespace = e.n_namespace + 1 }
tally permission_denied e = record e { n_denied = e.n_denied + 1 }
tally scope_mismatch e = record e { n_scope = e.n_scope + 1 }
tally expired e = record e { n_expired = e.n_expired + 1 }
tally conflicted_or_inactive e = record e { n_inactive = e.n_inactive + 1 }

-- `continue` after a count, or `allowed.append(claim)`.
abbrev pub sort_claim : Claim → Option Exclusion → List Claim × Excluded → List Claim × Excluded
sort_claim c none (allowed, excluded) = (c ∷ allowed, excluded)
sort_claim c (some x) (allowed, excluded) = (allowed, tally x excluded)

unfoldable pub filter_claims : Services → Caller → List Claim → List Claim × Excluded
filter_claims sv k [] = ([], none_excluded)
filter_claims sv k (c ∷ cs) = sort_claim c (exclusion_of sv k c) (filter_claims sv k cs)
