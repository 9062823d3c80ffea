-- ===== src/Claim/Identity.antt =====
-- `claim_identity_id` of integrations/memory_claim_store.py: what the text that it hashes forgets.
use text.Mathlib.TextLemmas.{append_assoc}
use hojo_memory_engine.Prelude.{◌≡◌, refl, ap, String, none, ℕ, ◌∙◌}
use hojo_memory_engine.Services.{Services}
use hojo_memory_engine.Claim.Types.{MemoryNamespace}
use hojo_memory_engine.Claim.Store.{◌⊕◌, namespace_key, identity_raw, claim_identity_id}

abbrev pub ns_of : String → String → MemoryNamespace
ns_of type id = record { type = type; id = id; label = none }

joined : (s t u : String) → (s ⊕ ":" ⊕ t) ⊕ u ≡ s ⊕ ":" ⊕ t ⊕ u
joined s t u = append_assoc s (":" ⊕ t) u ∙ ap (λ v. s ⊕ v) (append_assoc ":" t u)

tail_shift :
    (user type id dimension text : String)
    → (user ⊕ ":" ⊕ type) ⊕ ":" ⊕ (id ⊕ ":" ⊕ dimension) ⊕ ":" ⊕ text
      ≡ user ⊕ ":" ⊕ (type ⊕ ":" ⊕ id) ⊕ ":" ⊕ dimension ⊕ ":" ⊕ text
tail_shift user type id dimension text =
    rw
      (
        joined user type (":" ⊕ (id ⊕ ":" ⊕ dimension) ⊕ ":" ⊕ text),
        joined id dimension (":" ⊕ text),
        joined type id (":" ⊕ dimension ⊕ ":" ⊕ text),
      )
      refl

-- The parts are joined by colons, which they may contain themselves: another user's claim in
-- another namespace, of another dimension and key, has the same identity.
pub claim_identity_id-shift :
    (sv : Services) (tenant org : ℕ) (user type id dimension key rest : String)
    → claim_identity_id sv tenant org (user ⊕ ":" ⊕ type) (ns_of id dimension) key rest
      ≡ claim_identity_id sv tenant org user (ns_of type id) dimension (key ⊕ ":" ⊕ rest)
unfolding claim_identity_id identity_raw namespace_key
claim_identity_id-shift sv tenant org user type id dimension key rest =
    ap (λ t. sv.sha256 (sv.str_int tenant ⊕ ":" ⊕ sv.str_int org ⊕ ":" ⊕ t))
      (tail_shift user type id dimension (key ⊕ ":" ⊕ rest))
