-- ===== src/Claim/Invariant/Run.antt =====
-- Every state that requests lead to from the empty collections is sound.
use hojo_memory_engine.Prelude.{ℕ, String, arith, if-intro}
use hojo_memory_engine.Context.{RequestContext}
use hojo_memory_engine.Services.{Services}
use hojo_memory_engine.Field.{FieldDb}
use hojo_memory_engine.Claim.Types.{
  MemoryNamespace, MemorySourceEventInput, MemoryIngestRequest, Resolution,
}
use hojo_memory_engine.Claim.Store.{ClaimDb, empty_db, save_source_event}
use hojo_memory_engine.Claim.Engine.{Draw, Settings, ingest}
use hojo_memory_engine.Claim.Review.{revoke, resolve_conflict}
use hojo_memory_engine.Claim.Invariant.{IsSound}
use hojo_memory_engine.Claim.Invariant.Ingest.{AreFresh, ingest_all-IsSound}
use hojo_memory_engine.Claim.Invariant.Review.{revoke-IsSound, resolve_conflict-IsSound}

-- Storing the source event leaves the claims alone.
module _ (now : ℕ) (uuid : String) (tenant org : ℕ) (user : String) (ns : MemoryNamespace)
    (ev : MemorySourceEventInput) (db : ClaimDb) where
  abbrev saved : ClaimDb
  saved = (save_source_event now uuid tenant org user ns ev db).1

  saved-IsSound : IsSound db → IsSound saved
  unfolding save_source_event
  saved-IsSound h =
      if-intro IsSound _ db _ (λ _. h)
        λ _. record {
          indexed = record {
            one_current = h.one_current;
            distinct = h.distinct;
            versioned = h.versioned;
            headed = h.headed;
            kept = h.kept;
          };
          untorn = h.untorn;
        }

  saved-AreFresh : (draws : ℕ → Draw) → AreFresh draws 1 db → AreFresh draws 1 saved
  unfolding save_source_event
  saved-AreFresh draws a =
      if-intro (AreFresh draws 1) _ db _ (λ _. a) λ _. record { unused = a.unused; apart = a.apart }

module _ (sv : Services) (st : Settings) where
  -- A request changes the collections. The fields may be others each time.
  pub data Request (db : ClaimDb) : ClaimDb → Type 0 where
    ingests :
        (fields : FieldDb) (draws : ℕ → Draw) (ctx : RequestContext) (body : MemoryIngestRequest)
        → AreFresh draws 1 db
        → Request db (ingest sv st fields draws ctx body db).1
    revokes :
        (now : ℕ) (ctx : RequestContext) (cid reason : String)
        → Request db (revoke now ctx cid reason db).1
    resolves :
        (now : ℕ) (ctx : RequestContext) (cid : String) (resolution : Resolution) (reason : String)
        → Request db (resolve_conflict now ctx cid resolution reason db).1

  pub data Reach : ClaimDb → Type 0 where
    start : Reach empty_db
    next : {db db' : ClaimDb} → Reach db → Request db db' → Reach db'

  -- The ingest of a request keeps sound collections sound, also where one of its claims raises, if
  -- the ids that it draws are new.
  pub ingest-IsSound :
      (fields : FieldDb) (draws : ℕ → Draw) (ctx : RequestContext) (body : MemoryIngestRequest)
      (db : ClaimDb)
      → IsSound db
      → AreFresh draws 1 db
      → IsSound (ingest sv st fields draws ctx body db).1
  unfolding ingest
  ingest-IsSound fields draws ctx body db h a =
      let d = draws 0 in
      let saved_event =
        save_source_event d.now d.uuid ctx.tenant_id ctx.org_id body.user_id body.namespace
          body.source_event db in
      ingest_all-IsSound sv st fields draws ctx body saved_event.0 1 body.claims saved_event.1
        (saved-IsSound d.now d.uuid ctx.tenant_id ctx.org_id body.user_id body.namespace
          body.source_event db h)
        (saved-AreFresh d.now d.uuid ctx.tenant_id ctx.org_id body.user_id body.namespace
          body.source_event db draws a)

  Request-IsSound : {db db' : ClaimDb} → Request db db' → IsSound db → IsSound db'
  Request-IsSound {db} (ingests fields draws ctx body a) h =
      ingest-IsSound fields draws ctx body db h a
  Request-IsSound {db} (revokes now ctx cid reason) h = revoke-IsSound now ctx cid reason db h
  Request-IsSound {db} (resolves now ctx cid resolution reason) h =
      resolve_conflict-IsSound now ctx cid resolution reason db h

  -- Every state that a sequence of ingests, revocations and conflict resolutions reaches from the
  -- empty collections is sound, where the ids that each ingest draws are new.
  pub Reach-IsSound : {db : ClaimDb} → Reach db → IsSound db
  Reach-IsSound start = omega arith
  Reach-IsSound (next r q) = Request-IsSound q (Reach-IsSound r)
