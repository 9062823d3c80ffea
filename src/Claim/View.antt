-- ===== src/Claim/View.antt =====
-- The abstract view of the claim collections: the value that an identity currently has. The update
-- engine of services/memory_claim.py is a transition on it.
pub mod Branches
pub mod Outcome
pub mod Fill
use hojo_memory_engine.Prelude.{String, Bool, Option, none, some, maybe}
use hojo_memory_engine.Json.{Json}
use hojo_memory_engine.Claim.Types.{
  Claim, Action, add, confirm, update, supersede, conflict, reject, noop, MemoryUpdateDecision,
}
use hojo_memory_engine.Claim.Store.{ClaimDb, get_latest_claim}

abbrev pub value_of : Option Claim → Option Json
value_of none = none
value_of (some c) = some c.value

abbrev pub current_value : String → ClaimDb → Option Json
current_value identity db = value_of (get_latest_claim identity db)

-- What a decision means for the value: `fill` is the merge that UPDATE stores.
abbrev pub outcome : Action → (Json → Option Json) → Json → Option Json → Option Json
outcome add fill new old = some new
outcome supersede fill new old = some new
outcome update fill new none = none
outcome update fill new (some v) = fill v
outcome _ fill new old = old
