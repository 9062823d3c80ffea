-- ===== src/Claim/Store.antt =====
-- integrations/memory_claim_store.py: the collections `memory_claim`, `memory_claim_head` and
-- `memory_source_event`. Each function is one call on the store; `now` is the clock's reading and
-- `uuid` the hexadecimal text that `uuid4` draws.
use Prim.Native.String.{◌++◌ as str_append}
use mathlib.Core.Bool.{decide}
use hojo_memory_engine.Prelude.{
  ℕ, ◌+◌, String, Bool, false, ◌&&◌, Option, none, some, List, [], ◌∷◌, ◌++◌, any, find,
  update_many, update_one, latest, ltb, ◌==◌, nat_eq, string_eq, if◌then◌else◌,
}
use hojo_memory_engine.Services.{Services}
use hojo_memory_engine.Claim.Types.{
  MemoryNamespace, MemoryProvenance, MemorySourceEventInput, LifecycleStatus, Claim, ClaimDoc,
  Provenance-discrete,
}

pub data VectorOp : Type 0 where
  upsert delete : String → VectorOp

pub record SourceEvent : Type 0 where
  pub tenant_id : ℕ
  pub org_id : ℕ
  pub user_id : String
  pub namespace : MemoryNamespace
  pub event_id : String
  pub event : MemorySourceEventInput
  pub created_at : ℕ

-- `vectors` lists the requests made to the vector index, the last one first.
pub record ClaimDb : Type 0 where
  pub claims : List Claim
  pub heads : List (String × ℕ)
  pub events : List SourceEvent
  pub vectors : List VectorOp

abbrev pub empty_db : ClaimDb
empty_db = record { claims = []; heads = []; events = []; vectors = [] }

infixr 60 ◌⊕◌
abbrev pub ◌⊕◌ : String → String → String
s ⊕ t = str_append s t

-- `a or b` where `a` may be `None` or the empty text.
abbrev pub or_text : Option String → String → String
or_text none t = t
or_text (some s) t = if s == "" then t else s

unfoldable pub namespace_key : MemoryNamespace → String
namespace_key ns = ns.type ⊕ ":" ⊕ ns.id

-- The text that `claim_identity_id` hashes.
unfoldable pub identity_raw : Services → ℕ → ℕ → String → MemoryNamespace → String → String → String
unfolding namespace_key
identity_raw sv tenant org user ns dimension key =
    sv.str_int tenant
    ⊕ ":"
    ⊕ sv.str_int org
    ⊕ ":"
    ⊕ user
    ⊕ ":"
    ⊕ namespace_key ns
    ⊕ ":"
    ⊕ dimension
    ⊕ ":"
    ⊕ key

unfoldable pub claim_identity_id :
    Services → ℕ → ℕ → String → MemoryNamespace → String → String → String
unfolding identity_raw
claim_identity_id sv tenant org user ns dimension key =
    sv.sha256 (identity_raw sv tenant org user ns dimension key)

unfoldable pub save_source_event :
    ℕ
    → String
    → ℕ
    → ℕ
    → String
    → MemoryNamespace
    → MemorySourceEventInput
    → ClaimDb
    → String × ClaimDb
save_source_event now uuid tenant org user ns ev db =
    let event_id = or_text ev.event_id ("mse_" ⊕ uuid) in
    let same = λ (e : SourceEvent).
      (e.tenant_id == tenant) && ((e.org_id == org) && (e.event_id == event_id)) in
    let stored : SourceEvent = record {
      tenant_id = tenant;
      org_id = org;
      user_id = user;
      namespace = ns;
      event_id = event_id;
      event = ev;
      created_at = now;
    } in
    (event_id, if any same db.events then db else record db { events = db.events ++ stored ∷ [] })

-- The current documents of one identity.
abbrev pub current_of : String → Claim → Bool
current_of identity c = (c.identity_id == identity) && c.is_current

unfoldable pub get_latest_claim : String → ClaimDb → Option Claim
get_latest_claim identity db = latest (λ c. c.revision) (current_of identity) db.claims

-- The revision of a head that is not there is 0.
abbrev pub head_of : String → List (String × ℕ) → ℕ
head_of identity [] = 0
head_of identity ((j, r) ∷ hs) = if j == identity then r else head_of identity hs

-- `$inc` with `upsert`.
abbrev pub increment : String → List (String × ℕ) → List (String × ℕ)
increment identity [] = (identity, 1) ∷ []
increment identity ((j, r) ∷ hs) =
    if j == identity then (j, r + 1) ∷ hs else (j, r) ∷ increment identity hs

unfoldable pub allocate_revision : String → ClaimDb → ℕ × ClaimDb
allocate_revision identity db =
    let heads = increment identity db.heads in (head_of identity heads, record db { heads = heads })

-- The first step of `insert_claim`.
abbrev pub demote : ℕ → Claim → Claim
demote now c = record c { is_current = false; updated_at = now }

unfoldable pub insert_claim : ℕ → String → ClaimDoc → Bool → ClaimDb → Claim × ClaimDb
unfolding allocate_revision
insert_claim now uuid doc make_current db =
    let claims =
      if make_current
      then update_many (current_of doc.identity_id) (demote now) db.claims
      else db.claims in
    let (revision, db') = allocate_revision doc.identity_id db in
    let stored : Claim = record {
      doc = doc;
      claim_id = "mc_" ⊕ uuid;
      revision = revision;
      is_current = make_current;
      deleted = 0;
      created_at = now;
      updated_at = now;
    } in
    (stored, record db' { claims = claims ++ stored ∷ [] })

-- The filter of the calls that name one claim.
abbrev pub has_id : String → Claim → Bool
has_id claim_id c = (c.claim_id == claim_id) && (c.deleted == 0)

-- `$addToSet`.
add_to_set : MemoryProvenance → List MemoryProvenance → List MemoryProvenance
unfolding Provenance-discrete
add_to_set p ps = if any (λ q. decide (Provenance-discrete q p)) ps then ps else ps ++ p ∷ []

-- The update of `confirm_claim`.
unfoldable pub confirmed : ℕ → MemoryProvenance → ℕ → Claim → Claim
unfolding add_to_set
confirmed now p confidence c = record c {
  doc = record c.doc {
    provenance = add_to_set p c.provenance;
    confidence = if ltb c.confidence confidence then confidence else c.confidence;
  };
  updated_at = now;
}

unfoldable pub confirm_claim : ℕ → String → MemoryProvenance → ℕ → ClaimDb → ClaimDb
unfolding confirmed
confirm_claim now claim_id p confidence db = record db {
  claims = update_one (has_id claim_id) (confirmed now p confidence) db.claims;
}

-- The keyword arguments `**extra` of `mark_claim_status` are an update of their own.
abbrev pub marked : ℕ → LifecycleStatus → (Claim → Claim) → Claim → Claim
marked now status extra c =
    extra (record c { doc = record c.doc { lifecycle_status = status }; updated_at = now })

unfoldable pub mark_claim_status :
    ℕ → String → LifecycleStatus → (Claim → Claim) → ClaimDb → ClaimDb
mark_claim_status now claim_id status extra db = record db {
  claims = update_one (has_id claim_id) (marked now status extra) db.claims;
}

unfoldable pub get_claim : ℕ → ℕ → String → ClaimDb → Option Claim
get_claim tenant org claim_id db =
    find (λ c. (c.tenant_id == tenant) && ((c.org_id == org) && has_id claim_id c)) db.claims
