-- ===== src/Retrieval/Available.antt =====
-- `call` of services/memory_v2_retrieve.py: when a bundle can still be used.
use hojo_memory_engine.Prelude.{
  ℕ, ◌+◌, ◌≤◌, ◌≡◌, refl, ap, ◌∙◌, true, false, none, some, List, [], ◌∷◌, any, All, take, filter,
  length, contains, maybe, take-all, string_eq, eq_iff, arith, sort_desc, place, String,
}
use hojo_memory_engine.Result.{ok}
use hojo_memory_engine.Context.{RequestContext}
use hojo_memory_engine.Services.{Services}
use hojo_memory_engine.Claim.Store.{ClaimDb}
use hojo_memory_engine.Claim.Listing.{in_view}
use hojo_memory_engine.Retrieval.{
  MemoryBundle, MemoryCallV2Request, Runtime, get_bundle, bundle_scope, bundle_limit,
  authorized_ids, is_subset, fill, complete, respond, consume, call,
}
use hojo_memory_engine.Retrieval.Authorized.{
  usable, IsAuthorized, candidates, named, authorized_ids-named, candidates-named,
}

module _ {A : Type 0} (rank : A → ℕ) where
  length-place : (x : A) (xs : List A) → length (place rank x xs) ≡ length xs + 1
  length-place x [] = refl
  length-place x (y ∷ ys) = ground (arith, length-place x ys)

  length-sort_desc : (xs : List A) → length (sort_desc rank xs) ≡ length xs
  length-sort_desc [] = refl
  length-sort_desc (x ∷ xs) = omega (arith, length-sort_desc xs, length-place x (sort_desc rank xs))

is_subset-intro :
    (is ids : List String) → All (λ i. contains i ids ≡ true) is → is_subset is ids ≡ true
unfolding is_subset
is_subset-intro [] ids h = refl
is_subset-intro (i ∷ is) ids h = ground (arith, h.0, is_subset-intro is ids h.1)

module _ (sv : Services) (run : Runtime) (now later : ℕ) (ctx : RequestContext)
    (body : MemoryCallV2Request) (db : ClaimDb) (b : MemoryBundle)
    (few : length (filter (in_view (bundle_scope ctx b)) db.claims) ≤ bundle_limit b) where
  usable-authorized :
      (ids : List String)
      → All (λ i. any (usable sv run now later ctx body db b i) db.claims ≡ true) ids
      → All (λ i. contains i (authorized_ids sv run later ctx body b db) ≡ true) ids
  usable-authorized [] h = tt
  usable-authorized (i ∷ is) h =
      let found = filter (in_view (bundle_scope ctx b)) db.claims in
      let shown = candidates sv run now later ctx body db b in
      let whole : take (bundle_limit b) shown ≡ shown =
        take-all (bundle_limit b) shown
          (omega (arith, few, length-sort_desc (λ c. c.updated_at) found)) in
      (
        authorized_ids-named sv run now later ctx body db b i
            ∙ (ap (any (named sv run now later ctx body db b i)) whole
                ∙ (candidates-named sv run now later ctx body db b i ∙ h.0)),
        usable-authorized is h.1,
      )

  -- A stored bundle that is authorized at the moment of its use gives the filled prompt, where no
  -- model is asked and the user has no more current claims in the namespace than the query's limit.
  pub call-available :
      (bundles : List MemoryBundle)
      → get_bundle ctx.tenant_id ctx.org_id body.bundle_id bundles ≡ some b
      → IsAuthorized sv run now later ctx body db b
      → body.use_llm ≡ false
      → call sv run now later ctx body bundles db
        ≡ ok (
          record {
            result = fill run body b;
            filled_prompt = fill run body b;
            bundle_id = body.bundle_id;
          },
          none,
        )
  unfolding call consume respond complete maybe fill
  call-available bundles found h ask =
      let own = (eq_iff b.usage_context.module_id body.module_id).1 h.own in
      let held =
        is_subset-intro b.claim_ids (authorized_ids sv run later ctx body b db)
          (usable-authorized b.claim_ids h.claims) in
      rw (found, h.live, own, h.granted, held, ask) refl
