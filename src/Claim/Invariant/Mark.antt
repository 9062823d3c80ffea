-- ===== src/Claim/Invariant/Mark.antt =====
-- The calls that change one document keep the collections indexed, and find the document they name.
use hojo_memory_engine.Prelude.{
  ℕ, ◌≤◌, ◌≡◌, String, true, some, count, update_one, find, Holds, nat_eq, string_eq, eq_iff, arith,
  count-le, count-update_one_le, find_of_unique, All-update_one, All-holds,
}
use hojo_memory_engine.Claim.Types.{Claim}
use hojo_memory_engine.Claim.Store.{ClaimDb, current_of, has_id, head_of}
use hojo_memory_engine.Claim.Invariant.{IsIndexed, is_torn, at_revision, called}

-- The update leaves the keys of a document alone.
pub record KeepsKeys (f : Claim → Claim) : Type 0 where
  pub claim_id : (c : Claim) → (f c).claim_id ≡ c.claim_id
  pub identity_id : (c : Claim) → (f c).identity_id ≡ c.identity_id
  pub revision : (c : Claim) → (f c).revision ≡ c.revision
  pub deleted : (c : Claim) → (f c).deleted ≡ c.deleted

-- The update does not make a document current.
abbrev pub Lowers : (Claim → Claim) → Type 0
Lowers f = (c : Claim) → (f c).is_current ≡ true → c.is_current ≡ true

module _ (cid : String) (f : Claim → Claim) (k : KeepsKeys f) (db : ClaimDb)
    (h : IsIndexed db) where
  abbrev after : ClaimDb
  after = record db { claims = update_one (has_id cid) f db.claims }

  distinct_after : (i : String) → count (called i) after.claims ≤ 1
  distinct_after i = omega (
    arith,
    h.distinct i,
    count-update_one_le (has_id cid) f (called i) (λ x. ground (arith, k.claim_id x)) db.claims,
  )

  versioned_after : (i : String) (r : ℕ) → count (at_revision i r) after.claims ≤ 1
  versioned_after i r = omega (
    arith,
    h.versioned i r,
    count-update_one_le (has_id cid) f (at_revision i r)
        (λ x. ground (arith, k.identity_id x, k.revision x)) db.claims,
  )

  -- All that is left to show is that no second document of an identity becomes current.
  pub update_one-IsIndexed :
      ((i : String) → count (current_of i) after.claims ≤ 1) → IsIndexed after
  update_one-IsIndexed one = record {
    one_current = one;
    distinct = distinct_after;
    versioned = versioned_after;
    headed =
        All-update_one (λ c. c.revision ≤ head_of c.identity_id db.heads) (has_id cid) f
          (λ x. ground (arith, k.identity_id x, k.revision x)) db.claims h.headed;
    kept =
        All-update_one (λ c. c.deleted ≡ 0) (has_id cid) f (λ x. ground (arith, k.deleted x))
          db.claims h.kept;
  }

  pub lowered-IsIndexed : Lowers f → IsIndexed after
  lowered-IsIndexed low = update_one-IsIndexed λ i. omega (
    arith,
    h.one_current i,
    count-update_one_le (has_id cid) f (current_of i) (λ x. ground (arith, k.identity_id x, low x))
        db.claims,
  )

  -- Where the update leaves no document torn, soundness is kept.
  pub update_one_untorn :
      count is_torn db.claims ≡ 0
      → ((c : Claim) → is_torn (f c) ≡ true → is_torn c ≡ true)
      → count is_torn after.claims ≡ 0
  update_one_untorn u low =
      omega (arith, u, count-update_one_le (has_id cid) f is_torn low db.claims)

module _ (db : ClaimDb) (h : IsIndexed db) where
  -- A stored document is the one that its id finds.
  pub find_stored : {c : Claim} → Holds db.claims c → find (has_id c.claim_id) db.claims ≡ some c
  find_stored {c} here =
      find_of_unique (has_id c.claim_id) db.claims {x = c}
        (omega (
          arith,
          h.distinct c.claim_id,
          count-le (called c.claim_id) (has_id c.claim_id) (λ x. ground arith) db.claims,
        ))
        here
        (ground (
          arith,
          eq_iff c.claim_id c.claim_id,
          All-holds (λ x. x.deleted ≡ 0) db.claims {x = c} h.kept here,
        ))
