-- ===== src/Claim.antt =====
-- Atomic memory claims (backend/src/memory_engine/schemas/memory_claim.py,
-- services/memory_claim.py and integrations/memory_claim_store.py).
pub mod Types
pub mod Store
pub mod Engine
pub mod Review
pub mod Rules
pub mod View
pub mod Invariant
pub mod Time
pub mod Identity
pub mod Tests
pub mod Threshold
pub mod Listing
