-- ===== src/Lib.antt =====
-- Hojo Memory Engine: a model of the core of the Python backend (backend/src/memory_engine), and the
-- theorems that make it correct. Paths below are relative to backend/src/memory_engine.
--
-- The parts and how they interact. A request brings atomic claims about a user. The update engine
-- (services/memory_claim.py) looks up the field of each claim's dimension
-- (services/memory_field.py), checks the claim against it, and adds, confirms, fills, supersedes
-- or records a conflict in the claim collections (integrations/memory_claim_store.py). A reviewer
-- revokes claims and resolves conflicts. The retrieval service lists claims and filters them by
-- the caller's policy (services/memory_policy.py, core/permissions.py). Model calls consume a
-- quota (services/billing_quota.py). Modules register capabilities
-- (services/capability_registry.py), and proposals of changes are approved or rejected
-- (services/governance_apply.py). The rules of a field say how it is parsed, merged, retrieved and
-- called (services/rules.py), and bind capabilities. Vectors are indexed behind a queue
-- (integrations/qdrant_index_queue.py). The older memory of fields and values
-- (services/memory_data.py, integrations/mongo_store.py) looks up fields and merge rules, writes
-- documents and indexes them through the queue. A proposed memory is compared with the current
-- claims (services/memory_candidate.py). Retrieval bundles claims, and a later call checks them
-- again and fills a prompt with them (services/memory_v2_retrieve.py).
--
-- The files and the code.
--   Claim/Types: the records of schemas/memory_claim.py and the stored document.
--   Claim/Store: the calls of integrations/memory_claim_store.py, one function for each; ClaimDb holds
--     the collections memory_claim, memory_claim_head and memory_source_event.
--   Claim/Listing: its queries that list claims, and `history`.
--   Claim/Time, Claim/Engine: services/memory_claim.py. `_ingest_one` is ingest_one, whose branches are
--     add_claim, confirm_current, replace_current (UPDATE and SUPERSEDE) and record_conflict
--     (Claim/Engine/Branches), on the documents of Claim/Engine/Documents.
--   Claim/Review: `revoke` and `resolve_conflict`.
--   Claim/Rules, Claim/Invariant, Claim/View, Claim/Identity, Claim/Threshold: proofs.
--   Field: services/memory_field.py with its schemas and its table; Field/Versions,
--     Field/Lookup, Field/Operations and Field/Reach: proofs.
--   Capability: services/capability_registry.py (its `delete_soft` is delete_capability);
--     Capability/Registry: proofs.
--   Governance: approval and locks of services/governance_apply.py; Governance/Approval: proofs.
--   Rules: the rows and bodies of services/rules.py; Rules/Parse, Rules/Merge, Rules/Retrieve and
--     Rules/Call: its functions under their own names; Rules/Single, Rules/Selection, Rules/Slots and
--     Rules/Shadows: proofs.
--   IndexQueue: integrations/qdrant_index_queue.py, with a turn of `_worker_loop` cut into take_task
--     and finish_task, between which others enqueue; IndexQueue/Worker: proofs.
--   MemoryData/Store, MemoryData/Filters: integrations/mongo_store.py. MemoryData/Sources:
--     constants/user_memory_item.py. MemoryData/Empty: `parse_result_is_empty`. MemoryData/Strategy and
--     MemoryData/Service: `create`, `update`, `delete_soft` and `get` of services/memory_data.py on the
--     fields, the rules, the documents and the queue. MemoryData/RoundTrip, MemoryData/Normal,
--     MemoryData/ReadBack and MemoryData/Shown: proofs.
--   Breaker: the circuit breaker of services/memory_data.py, one function for each section that its
--     lock guards; Breaker/Invariant and Breaker/Cooldown: proofs.
--   Candidate: the comparison of services/memory_candidate.py, for any answer of the language model;
--     Candidate/Grounded: proofs.
--   Retrieval: `call` of services/memory_v2_retrieve.py, on the bundles, the claims and the policy;
--     Retrieval/Selection: the selection loop of `retrieve` and the limit on its items.
--     Retrieval/Diversity: `_diversify_by_evidence_group`. Retrieval/Authorized, Retrieval/Available,
--     Retrieval/Selection/Budget and Retrieval/Diversity/Spread: proofs.
--   Policy: services/memory_policy.py and core/permissions.py; Policy/Filter, Policy/Conditions,
--     Policy/Meeting and Policy/Allowed: proofs. Quota: services/billing_quota.py.
--   Json, Text, Result, Context: Python's JSON values and texts, the exceptions of
--     core/exceptions.py as values, and core/context.py. Services: the packages, as one argument.
--   Prelude: shared tests, list operations for database calls, and their lemmas. Samples: test data.
--
-- Conventions. A service is a function from its arguments and its state to a result and a state:
-- what was written before an exception stays written, as in the code, which commits on the way. A
-- MongoDB collection or a MySQL table is the list of its rows in insertion order. Awaits run one
-- after the other: requests do not interleave inside an operation. An operation reads the clock
-- once (`now`), but `call` twice, and `uuid4` is a text that the operation is given; theorems that
-- need it say that the text is new. In the claim model the calls of the vector index, whose
-- failures the code catches, are recorded in `vectors`. Doubles are multiples of 2^-1074, without
-- infinities and NaN. Packages (datetime, hashlib, jsonschema, pydantic, regular expressions) are
-- the argument Services, of which nothing is assumed. Loops are structural recursion on a list,
-- but for the worker's endless one, of which run_worker makes the number of turns that it is
-- given: one for each task is enough; and but for the ping loop of the circuit breaker, for which
-- eight turns are.
--
-- Not modelled: the legacy projection of `ingest_legacy_projection`, index declarations,
-- `search_by_mode` and `list_active` of the fields, invoices, `list_capabilities`,
-- `apply_proposal` and `create_proposal_from_dreaming`; and the components beside these: the
-- recall and ranking of retrieval v2, the extraction of candidates, the DSL, qdrant_store.py,
-- change log consumers, the pages of memory data, parsing and summaries by a language model, whose
-- answers the argument Extraction stands for, the AML adapter, user lists, routes, workflows,
-- clients, SDKs and the dashboard.
pub mod Prelude
pub mod Json
pub mod Result
pub mod Context
pub mod Text
pub mod Field
pub mod Claim
pub mod Policy
pub mod Quota
pub mod Capability
pub mod Governance
pub mod IndexQueue
pub mod Rules
pub mod MemoryData
pub mod Breaker
pub mod Candidate
pub mod Retrieval
pub mod Services
pub mod Samples
