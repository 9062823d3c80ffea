-- ===== src/Claim/Invariant.antt =====
-- The invariant of the claim collections of integrations/memory_claim_store.py.
pub mod Insert
pub mod Mark
pub mod Steps
pub mod Branches
pub mod Ingest
pub mod Review
pub mod Run
use hojo_memory_engine.Prelude.{
  ℕ, ◌≤◌, ◌≡◌, String, Bool, not, ◌&&◌, count, All, ◌==◌, nat_eq, string_eq, if◌then◌else◌,
}
use hojo_memory_engine.Claim.Types.{Claim, is_active}
use hojo_memory_engine.Claim.Store.{ClaimDb, current_of, head_of}

-- The documents whose status and currency disagree.
abbrev pub is_torn : Claim → Bool
is_torn c = if is_active c.lifecycle_status then not c.is_current else c.is_current

-- The documents with one revision of one identity.
abbrev pub at_revision : String → ℕ → Claim → Bool
at_revision identity r c = (c.identity_id == identity) && (c.revision == r)

abbrev pub called : String → Claim → Bool
called claim_id c = c.claim_id == claim_id

-- What holds between any two calls on the store.
pub record IsIndexed (db : ClaimDb) : Type 0 where
  -- One current document at most for each identity.
  pub one_current : (identity : String) → count (current_of identity) db.claims ≤ 1
  -- Claim ids are not shared.
  pub distinct : (claim_id : String) → count (called claim_id) db.claims ≤ 1
  -- Revisions of an identity are not shared, and none passes the identity's head.
  pub versioned : (identity : String) (r : ℕ) → count (at_revision identity r) db.claims ≤ 1
  pub headed : All (λ c. c.revision ≤ head_of c.identity_id db.heads) db.claims
  -- Nothing is deleted.
  pub kept : All (λ c. c.deleted ≡ 0) db.claims

-- What holds between any two requests: a document is current exactly if it is active.
pub record IsSound (db : ClaimDb) : Type 0 where
  pub indexed : IsIndexed db
  pub open indexed use *
  pub untorn : count is_torn db.claims ≡ 0

-- The id that the store draws is not in use.
abbrev pub IsFresh : String → ClaimDb → Type 0
IsFresh claim_id db = count (called claim_id) db.claims ≡ 0
