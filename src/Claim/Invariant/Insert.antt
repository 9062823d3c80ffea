-- ===== src/Claim/Invariant/Insert.antt =====
-- `insert_claim` keeps the collections indexed.
use hojo_memory_engine.Prelude.{
  ℕ, ◌+◌, ◌≤◌, ◌<◌, ◌≡◌, ◌≢◌, refl, String, Bool, true, false, List, [], ◌∷◌, count, All,
  update_many, ◌==◌, nat_eq, string_eq, eq_iff, arith, if◌then◌else◌, count-snoc,
  count-update_many_same, count-update_many_cleared, count-update_many_le, All-append, All-map,
  All-update_many,
}
use hojo_memory_engine.Claim.Types.{Claim, ClaimDoc}
use hojo_memory_engine.Claim.Store.{
  ClaimDb, current_of, head_of, increment, demote, insert_claim, ◌⊕◌,
}
use hojo_memory_engine.Claim.Invariant.{IsIndexed, IsFresh, at_revision, called}

pub head_of-increment :
    (i j : String) (hs : List (String × ℕ))
    → head_of j (increment i hs) ≡ (if i == j then head_of j hs + 1 else head_of j hs)
head_of-increment i j [] = ground (arith, eq_iff i j)
head_of-increment i j ((k, r) ∷ hs) =
    ground (arith, eq_iff i j, eq_iff k i, eq_iff k j, head_of-increment i j hs)

-- A revision above the head is not taken.
revision_unused :
    (hs : List (String × ℕ)) (identity : String) (r : ℕ) (cs : List Claim)
    → All (λ c. c.revision ≤ head_of c.identity_id hs) cs
    → head_of identity hs < r
    → count (at_revision identity r) cs ≡ 0
revision_unused hs identity r [] h above = refl
revision_unused hs identity r (c ∷ cs) h above =
    ground (arith, eq_iff c.identity_id identity, revision_unused hs identity r cs h.1 above)

headed_after :
    (i : String) (hs : List (String × ℕ)) (c : Claim)
    → c.revision ≤ head_of c.identity_id hs
    → c.revision ≤ head_of c.identity_id (increment i hs)
headed_after i hs c h = ground (arith, head_of-increment i c.identity_id hs)

-- The claims before the new document is added.
abbrev pub prepared : ℕ → ClaimDoc → Bool → ClaimDb → List Claim
prepared now doc make_current db =
    if make_current
    then update_many (current_of doc.identity_id) (demote now) db.claims
    else db.claims

prepared-called :
    (now : ℕ) (doc : ClaimDoc) (db : ClaimDb) (b : Bool) (i : String)
    → count (called i) (prepared now doc b db) ≡ count (called i) db.claims
prepared-called now doc db true i =
    count-update_many_same (current_of doc.identity_id) (demote now) (called i) (λ x. refl)
      db.claims
prepared-called now doc db false i = refl

pub prepared_cleared :
    (now : ℕ) (doc : ClaimDoc) (db : ClaimDb) (i : String)
    → doc.identity_id ≡ i
    → count (current_of i) (prepared now doc true db) ≡ 0
prepared_cleared now doc db i e =
    count-update_many_cleared (current_of doc.identity_id) (demote now) (current_of i)
      (λ x. ground arith)
      (λ x t. ground (arith, eq_iff x.identity_id i, eq_iff x.identity_id doc.identity_id))
      db.claims

module _ (now : ℕ) (doc : ClaimDoc) (db : ClaimDb) (h : IsIndexed db) where
  abbrev p : Claim → Bool
  p = current_of doc.identity_id

  prepared_revision :
      (b : Bool) (i : String) (r : ℕ)
      → count (at_revision i r) (prepared now doc b db) ≡ count (at_revision i r) db.claims
  prepared_revision true i r =
      count-update_many_same p (demote now) (at_revision i r) (λ x. refl) db.claims
  prepared_revision false i r = refl

  prepared_current :
      (b : Bool) (i : String)
      → count (current_of i) (prepared now doc b db) ≤ count (current_of i) db.claims
  prepared_current true i =
      count-update_many_le p (demote now) (current_of i) (λ x e. ground arith) db.claims
  prepared_current false i = omega arith

  prepared_headed :
      (b : Bool) → All (λ c. c.revision ≤ head_of c.identity_id db.heads) (prepared now doc b db)
  prepared_headed true =
      All-update_many (λ c. c.revision ≤ head_of c.identity_id db.heads) p (demote now) (λ x e. e)
        db.claims h.headed
  prepared_headed false = h.headed

  prepared_kept : (b : Bool) → All (λ c. c.deleted ≡ 0) (prepared now doc b db)
  prepared_kept true =
      All-update_many (λ c. c.deleted ≡ 0) p (demote now) (λ x e. e) db.claims h.kept
  prepared_kept false = h.kept

module _ (now : ℕ) (doc : ClaimDoc) (db : ClaimDb) (h : IsIndexed db) (uuid : String)
    (fresh : IsFresh ("mc_" ⊕ uuid) db) where
  abbrev after : Bool → ClaimDb
  after b = (insert_claim now uuid doc b db).1

  abbrev stored : Bool → Claim
  stored b = (insert_claim now uuid doc b db).0

  one_current_after : (b : Bool) (i : String) → count (current_of i) (after b).claims ≤ 1
  unfolding insert_claim
  one_current_after true i = ground (
    arith,
    count-snoc (current_of i) (prepared now doc true db) (stored true),
    eq_iff doc.identity_id i,
    prepared_cleared now doc db i,
    prepared_current now doc db h true i,
    h.one_current i,
  )
  one_current_after false i =
      ground (arith, count-snoc (current_of i) db.claims (stored false), h.one_current i)

  distinct_after : (b : Bool) (i : String) → count (called i) (after b).claims ≤ 1
  unfolding insert_claim
  distinct_after b i = ground (
    arith,
    count-snoc (called i) (prepared now doc b db) (stored b),
    prepared-called now doc db b i,
    eq_iff ("mc_" ⊕ uuid) i,
    h.distinct i,
    fresh,
  )

  versioned_after : (b : Bool) (i : String) (r : ℕ) → count (at_revision i r) (after b).claims ≤ 1
  unfolding insert_claim
  versioned_after b i r = ground (
    arith,
    count-snoc (at_revision i r) (prepared now doc b db) (stored b),
    prepared_revision now doc db h b i r,
    eq_iff doc.identity_id i,
    eq_iff doc.identity_id doc.identity_id,
    h.versioned i r,
    head_of-increment doc.identity_id doc.identity_id db.heads,
    revision_unused db.heads i r db.claims h.headed,
  )

  headed-All :
      (b : Bool) → All (λ c. c.revision ≤ head_of c.identity_id (after b).heads) (after b).claims
  unfolding insert_claim
  headed-All b =
      let P =
        λ (c : Claim). c.revision ≤ head_of c.identity_id (increment doc.identity_id db.heads) in
      All-append P (prepared now doc b db) (stored b ∷ [])
        (All-map (λ c. c.revision ≤ head_of c.identity_id db.heads) P
          (headed_after doc.identity_id db.heads) (prepared now doc b db)
          (prepared_headed now doc db h b))
        (omega arith)

  kept-All : (b : Bool) → All (λ c. c.deleted ≡ 0) (after b).claims
  unfolding insert_claim
  kept-All b =
      All-append (λ c. c.deleted ≡ 0) (prepared now doc b db) (stored b ∷ [])
        (prepared_kept now doc db h b) (omega arith)

  -- Storing a document, current or not, keeps the collections indexed.
  pub insert_claim-IsIndexed : (b : Bool) → IsIndexed (after b)
  insert_claim-IsIndexed b = record {
    one_current = one_current_after b;
    distinct = distinct_after b;
    versioned = versioned_after b;
    headed = headed-All b;
    kept = kept-All b;
  }

-- Another id that was fresh stays fresh.
pub insert_claim-called :
    (now : ℕ) (doc : ClaimDoc) (db : ClaimDb) (uuid : String) (b : Bool) (other : String)
    → ("mc_" ⊕ uuid) ≢ other
    → IsFresh other db
    → IsFresh other (insert_claim now uuid doc b db).1
unfolding insert_claim
insert_claim-called now doc db uuid b other ne fresh = ground (
  arith,
  count-snoc (called other) (prepared now doc b db) (insert_claim now uuid doc b db).0,
  prepared-called now doc db b other,
  eq_iff ("mc_" ⊕ uuid) other,
)
