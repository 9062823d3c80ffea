-- ===== src/Claim/Invariant/Steps.antt =====
-- Every branch of the update engine keeps the claim collections sound.
use hojo_memory_engine.Prelude.{
  ◌∙◌, inl, inr, Bool-cases, ℕ, ◌+◌, ◌≡◌, refl, String, Bool, true, false, none, some, List, [],
  ◌∷◌, bit, count, update_many, find, Holds, string_eq, arith, count-snoc, count-pos,
  count-update_one, update_many_absent, find-update_many, find-append, latest-eq-some,
  latest-eq-none,
}
use hojo_memory_engine.Claim.Types.{Claim, ClaimDoc, is_active, superseded}
use hojo_memory_engine.Claim.Store.{
  VectorOp, ClaimDb, current_of, has_id, demote, get_latest_claim, insert_claim, mark_claim_status,
  marked, ◌⊕◌,
}
use hojo_memory_engine.Claim.Engine.{index, Draw}
use hojo_memory_engine.Claim.Invariant.{IsIndexed, IsSound, IsFresh, is_torn}
use hojo_memory_engine.Claim.Invariant.Insert.{prepared, insert_claim-IsIndexed}
use hojo_memory_engine.Claim.Invariant.Mark.{KeepsKeys, Lowers, lowered-IsIndexed, find_stored}

-- Demoting tears exactly the documents that were current.
torn-demote :
    (now : ℕ) (identity : String) (cs : List Claim)
    → count is_torn cs ≡ 0
    → count is_torn (update_many (current_of identity) (demote now) cs)
      ≡ count (current_of identity) cs
torn-demote now identity [] h = refl
torn-demote now identity (c ∷ cs) h = ground (arith, torn-demote now identity cs)

-- The vector requests do not matter.
pub index-IsSound : (op : VectorOp) (db : ClaimDb) → IsSound db → IsSound (index op db)
index-IsSound op db h = record {
  indexed = record {
    one_current = h.one_current;
    distinct = h.distinct;
    versioned = h.versioned;
    headed = h.headed;
    kept = h.kept;
  };
  untorn = h.untorn;
}

-- What `get_latest_claim` returns is stored, current and found by its id.
pub latest_current :
    (identity : String) (db : ClaimDb) {c : Claim}
    → get_latest_claim identity db ≡ some c
    → (current_of identity c ≡ true) × Holds db.claims c
unfolding get_latest_claim
latest_current identity db {c} e =
    latest-eq-some (λ x. x.revision) (current_of identity) db.claims {x = c} e

-- The document that is current is found by its id.
pub find_latest :
    (identity : String) (db : ClaimDb)
    → IsIndexed db
    → {c : Claim} → get_latest_claim identity db ≡ some c
    → find (has_id c.claim_id) db.claims ≡ some c
find_latest identity db h {c} e = find_stored db h {c = c} (latest_current identity db {c = c} e).1

pub no_current :
    (identity : String) (db : ClaimDb)
    → get_latest_claim identity db ≡ none
    → count (current_of identity) db.claims ≡ 0
unfolding get_latest_claim
no_current identity db = latest-eq-none (λ x. x.revision) (current_of identity) db.claims

module _ (d : Draw) (doc : ClaimDoc) (db : ClaimDb) (h : IsSound db) where
  module _ (fresh : IsFresh ("mc_" ⊕ d.uuid) db) where
    abbrev stored : Bool → Claim
    stored b = (insert_claim d.now d.uuid doc b db).0

    abbrev inserted : Bool → ClaimDb
    inserted b = (insert_claim d.now d.uuid doc b db).1

    torn-inserted :
        (b : Bool)
        → count is_torn (inserted b).claims
          ≡ count is_torn (prepared d.now doc b db) + bit (is_torn (stored b))
    unfolding insert_claim
    torn-inserted b = count-snoc is_torn (prepared d.now doc b db) (stored b)

    inserted-IsIndexed : (b : Bool) → IsIndexed (inserted b)
    inserted-IsIndexed = insert_claim-IsIndexed d.now doc db h.indexed d.uuid fresh

    pub current-IsSound :
        is_active doc.lifecycle_status ≡ true
        → get_latest_claim doc.identity_id db ≡ none
        → IsSound (inserted true)
    unfolding insert_claim
    current-IsSound a e = record {
      indexed = inserted-IsIndexed true;
      untorn = ground (
        arith,
        torn-inserted true,
        update_many_absent (current_of doc.identity_id) (demote d.now) db.claims
            (no_current doc.identity_id db e),
        h.untorn,
      );
    }

    pub noncurrent-IsSound : is_active doc.lifecycle_status ≡ false → IsSound (inserted false)
    unfolding insert_claim
    noncurrent-IsSound a = record {
      indexed = inserted-IsIndexed false;
      untorn = ground (arith, torn-inserted false, h.untorn);
    }

    module _ {current : Claim} (e : get_latest_claim doc.identity_id db ≡ some current) where
      pub find-inserted :
          find (has_id current.claim_id) (inserted true).claims ≡ some (demote d.now current)
      unfolding insert_claim
      find-inserted =
          find-append (has_id current.claim_id) (prepared d.now doc true db) (stored true ∷ [])
            {x = demote d.now current}
            (find-update_many (current_of doc.identity_id) (demote d.now) (has_id current.claim_id)
                (λ x. refl) db.claims
              ∙ rw (find_latest doc.identity_id db h.indexed {c = current} e)
                  (ground (arith, latest_current doc.identity_id db {c = current} e)))

      active_latest : is_active current.lifecycle_status ≡ true
      active_latest =
          let (c, held) = latest_current doc.identity_id db {c = current} e in
          elim (Bool-cases (is_torn current)) [
            | inl t ↦
                absurd (omega (arith, h.untorn, count-pos is_torn db.claims {x = current} held t))
            | inr t ↦ ground arith
          ]

    -- Marking the document that the insertion demoted mends what it tore.
    pub superseded-IsSound :
        (extra : Claim → Claim) {current : Claim}
        → KeepsKeys (marked d.now superseded extra)
        → Lowers (marked d.now superseded extra)
        → is_torn (marked d.now superseded extra (demote d.now current)) ≡ false
        → is_active doc.lifecycle_status ≡ true
        → get_latest_claim doc.identity_id db ≡ some current
        → IsSound (mark_claim_status d.now current.claim_id superseded extra (inserted true))
    unfolding mark_claim_status insert_claim
    superseded-IsSound extra {current} k low whole a e = record {
      indexed =
          lowered-IsIndexed current.claim_id (marked d.now superseded extra) k (inserted true)
            (inserted-IsIndexed true) low;
      untorn = ground (
        arith,
        torn-inserted true,
        torn-demote d.now doc.identity_id db.claims h.untorn,
        h.one_current doc.identity_id,
        active_latest {current = current} e,
        count-update_one (has_id current.claim_id) (marked d.now superseded extra) is_torn
            (inserted true).claims {x = demote d.now current} (find-inserted {current = current} e),
      );
    }
