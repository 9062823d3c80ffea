-- ===== src/Retrieval/Authorized.antt =====
-- `call` of services/memory_v2_retrieve.py: what a prompt with memory tells of its bundle.
use hojo_memory_engine.Prelude.{
  ℕ, ◌≡◌, refl, sym, ◌∙◌, String, Bool, true, false, ◌&&◌, ◌||◌, Option, none, some, List, [], ◌∷◌,
  ap, any, All, map, take, filter, contains, zero, suc, ltb, maybe-intro, ◌==◌, nat_eq, string_eq,
  eq_iff, arith, sort_desc, place,
}
use hojo_memory_engine.Result.{HttpError, Result, ok, ◌>>◌, guard-intro, bind-intro}
use hojo_memory_engine.Context.{RequestContext}
use hojo_memory_engine.Services.{Services}
use hojo_memory_engine.Claim.Types.{Claim}
use hojo_memory_engine.Claim.Store.{ClaimDb}
use hojo_memory_engine.Claim.Listing.{in_view, list_current_claims}
use hojo_memory_engine.Policy.{instant, ensure_retrieve_permission, filter_claims}
use hojo_memory_engine.Policy.Filter.{may_use, filter_claims-exact}
use hojo_memory_engine.Retrieval.{
  MemoryBundle, MemoryCallV2Request, MemoryCallV2Response, Completion, Runtime, get_bundle,
  bundle_scope, bundle_caller, bundle_limit, authorized_ids, is_subset, fill, complete, respond,
  consume, call,
}

module _ {A : Type 0} (p : A → Bool) where
  any-take : (n : ℕ) (xs : List A) → any p (take n xs) ≡ true → any p xs ≡ true
  any-take zero xs h = cc
  any-take (suc n) [] h = h
  any-take (suc n) (x ∷ xs) h = ground (arith, any-take n xs)

  any-filter : (q : A → Bool) (xs : List A) → any p (filter q xs) ≡ any (λ x. p x && q x) xs
  any-filter q [] = refl
  any-filter q (x ∷ xs) = ground (arith, any-filter q xs)

  any-place : (rank : A → ℕ) (x : A) (xs : List A) → any p (place rank x xs) ≡ (p x || any p xs)
  any-place rank x [] = refl
  any-place rank x (y ∷ ys) = ground (arith, any-place rank x ys)

  any-sort_desc : (rank : A → ℕ) (xs : List A) → any p (sort_desc rank xs) ≡ any p xs
  any-sort_desc rank [] = refl
  any-sort_desc rank (x ∷ xs) =
      ground (arith, any-sort_desc rank xs, any-place rank x (sort_desc rank xs))

any-map :
    {A B : Type 0} (p : B → Bool) (f : A → B) (xs : List A)
    → any p (map f xs) ≡ any (λ x. p (f x)) xs
any-map p f [] = refl
any-map p f (x ∷ xs) = ground (arith, any-map p f xs)

checked-intro :
    {B : Type 0} (P : Result B → Type 0) (check : Result (Unit {0})) (rest : Result B)
    → ((e : HttpError) → P (Result.err e))
    → (check ≡ ok tt → P rest)
    → P (check >> rest)
checked-intro P (Result.err e) rest pe pr = pe e
checked-intro P (ok done) rest pe pr = pr refl

is_subset-All :
    (is ids : List String) → is_subset is ids ≡ true → All (λ i. contains i ids ≡ true) is
unfolding is_subset
is_subset-All [] ids h = tt
is_subset-All (i ∷ is) ids h = (ground arith, is_subset-All is ids (ground arith))

module _ (sv : Services) (run : Runtime) (now later : ℕ) (ctx : RequestContext)
    (body : MemoryCallV2Request) (db : ClaimDb) where
  -- A current claim with this id, of the bundle's user and namespace, that the caller may use.
  abbrev pub usable : MemoryBundle → String → Claim → Bool
  usable b i c =
      ((c.claim_id == i) && may_use sv (bundle_caller run later ctx body b) c)
      && in_view (bundle_scope ctx b) c

  -- What the bundle guarantees at the moment of its use.
  pub record IsAuthorized (b : MemoryBundle) : Type 0 where
    pub live : ltb now (instant b.expires_at) ≡ true
    pub own : b.usage_context.module_id ≡ body.module_id
    pub granted : ensure_retrieve_permission run.disable_auth ctx b.usage_context ≡ ok tt
    pub claims : All (λ i. any (usable b i) db.claims ≡ true) b.claim_ids

  -- The claims of the bundle's scope, the last updated one first.
  abbrev pub candidates : MemoryBundle → List Claim
  candidates b = sort_desc (λ c. c.updated_at) (filter (in_view (bundle_scope ctx b)) db.claims)

  abbrev pub named : MemoryBundle → String → Claim → Bool
  named b i c = (c.claim_id == i) && may_use sv (bundle_caller run later ctx body b) c

  pub authorized_ids-named :
      (b : MemoryBundle) (i : String)
      → contains i (authorized_ids sv run later ctx body b db)
        ≡ any (named b i) (take (bundle_limit b) (candidates b))
  unfolding authorized_ids list_current_claims
  authorized_ids-named b i =
      let k = bundle_caller run later ctx body b in
      let shown = take (bundle_limit b) (candidates b) in
      let called = λ (c : Claim). c.claim_id == i in
      any-map (λ j. j == i) (λ c. c.claim_id) (filter_claims sv k shown).0
      ∙ (ap (any called) (filter_claims-exact sv k shown) ∙ any-filter called (may_use sv k) shown)

  pub candidates-named :
      (b : MemoryBundle) (i : String) → any (named b i) (candidates b) ≡ any (usable b i) db.claims
  candidates-named b i =
      let found = filter (in_view (bundle_scope ctx b)) db.claims in
      any-sort_desc (named b i) (λ c. c.updated_at) found
      ∙ any-filter (named b i) (in_view (bundle_scope ctx b)) db.claims

  authorized_ids-usable :
      (b : MemoryBundle) (i : String)
      → contains i (authorized_ids sv run later ctx body b db) ≡ true
      → any (usable b i) db.claims ≡ true
  authorized_ids-usable b i h =
      sym (candidates-named b i)
      ∙ any-take (named b i) (bundle_limit b) (candidates b) (sym (authorized_ids-named b i) ∙ h)

  All-usable :
      (b : MemoryBundle) (ids : List String)
      → All (λ i. contains i (authorized_ids sv run later ctx body b db) ≡ true) ids
      → All (λ i. any (usable b i) db.claims ≡ true) ids
  All-usable b [] h = tt
  All-usable b (i ∷ is) h = (authorized_ids-usable b i h.0, All-usable b is h.1)

  -- An answer has the filled prompt, and comes from a bundle with the property.
  Answers : MemoryBundle → Type 0 → Result (MemoryCallV2Response × Option Completion) → Type 0
  Answers b T r =
      (reply : MemoryCallV2Response) (charge : Option Completion)
      → r ≡ ok (reply, charge)
      → T × (reply.filled_prompt ≡ fill run body b)

  failed : (b : MemoryBundle) (T : Type 0) (e : HttpError) → Answers b T (Result.err e)
  unfolding Answers
  failed b T e reply charge h = cc

  answered :
      (b : MemoryBundle) (T : Type 0) (made : MemoryCallV2Response) (charge : Option Completion)
      → T
      → made.filled_prompt ≡ fill run body b
      → Answers b T (ok (made, charge))
  unfolding Answers
  answered b T made charge t filled reply charge2 h =
      let same : made ≡ reply = cc in (t, ap (λ r. r.filled_prompt) (sym same) ∙ filled)

  complete-Answers :
      (b : MemoryBundle) (T : Type 0) (ask : Bool)
      → T
      → Answers b T (complete run body (fill run body b) ask)
  unfolding complete
  complete-Answers b T false t = answered b T _ none t refl
  complete-Answers b T true t =
      bind-intro (Answers b T) (run.chat_completion body.llm (fill run body b)) _ (failed b T)
        λ answer _. answered b T _ _ t refl

  consume-Answers :
      (b : MemoryBundle) → Answers b (IsAuthorized b) (consume sv run now later ctx body db b)
  unfolding consume respond
  consume-Answers b =
      let P = Answers b (IsAuthorized b) in
      guard-intro P _ _ _ (failed b (IsAuthorized b) _) λ live.
        guard-intro P _ _ _ (failed b (IsAuthorized b) _) λ own.
          checked-intro P _ _ (failed b (IsAuthorized b)) λ granted.
            guard-intro P _ _ _ (failed b (IsAuthorized b) _) λ held.
              complete-Answers b (IsAuthorized b) body.use_llm (record {
                live = live;
                own = (eq_iff b.usage_context.module_id body.module_id).0 own;
                granted = granted;
                claims =
                    All-usable b b.claim_ids
                      (is_subset-All b.claim_ids (authorized_ids sv run later ctx body b db) held);
              })

  -- A prompt that `call` returns is the template filled with the items of a stored bundle of the
  -- caller's tenant and organisation that has not expired and belongs to the calling module, for a
  -- caller with the permission to retrieve or where authentication is off; and each claim of the
  -- bundle is at that moment an active current claim of the bundle's user and namespace, open to
  -- the caller.
  pub call-IsAuthorized :
      (bundles : List MemoryBundle) (reply : MemoryCallV2Response) (charge : Option Completion)
      → call sv run now later ctx body bundles db ≡ ok (reply, charge)
      → (b : MemoryBundle) × (get_bundle ctx.tenant_id ctx.org_id body.bundle_id bundles ≡ some b)
        × IsAuthorized b
        × (reply.filled_prompt ≡ fill run body b)
  unfolding call Answers
  call-IsAuthorized bundles reply charge =
      let found = get_bundle ctx.tenant_id ctx.org_id body.bundle_id bundles in
      maybe-intro
        (λ r.
          r ≡ ok (reply, charge)
          → (b : MemoryBundle) × (found ≡ some b)
            × IsAuthorized b
            × (reply.filled_prompt ≡ fill run body b))
        found _ _ (λ _ h. cc) λ b e h. let a = consume-Answers b reply charge h in (b, e, a.0, a.1)
