-- ===== src/Retrieval.antt =====
-- services/memory_v2_retrieve.py: the consumption of a memory bundle (`call`), over the listing of
-- integrations/memory_claim_store.py and the filter of services/memory_policy.py.
pub mod Authorized
pub mod Available
pub mod Diversity
pub mod Selection
mod Tests
use hojo_memory_engine.Prelude.{
  ℕ, ◌≡◌, String, Bool, true, false, not, ◌&&◌, Option, none, some, List, [], ◌∷◌, find, length,
  map, contains, maybe, ltb, ◌==◌, nat_eq, string_eq, if◌then◌else◌,
}
use hojo_memory_engine.Json.{Json}
use hojo_memory_engine.Result.{Result, ok, guard, ◌>>=◌, ◌>>◌, not_found, forbidden}
use hojo_memory_engine.Context.{RequestContext}
use hojo_memory_engine.Services.{Services, Datetime}
use hojo_memory_engine.Claim.Types.{Claim}
use hojo_memory_engine.Claim.Store.{ClaimDb}
use hojo_memory_engine.Claim.Listing.{Scope, list_current_claims}
use hojo_memory_engine.Policy.{
  MemoryUsageContext, Caller, instant, ensure_retrieve_permission, filter_claims,
}

-- The fields of a row of `memory_bundle_audit` that `call` reads. Every row has them, since
-- `retrieve` is the one that writes them; its usage context is a dump of a valid one.
pub record MemoryBundle : Type 0 where
  pub bundle_id : String
  pub tenant_id : ℕ
  pub org_id : ℕ
  pub user_id : String
  pub usage_context : MemoryUsageContext
  pub claim_ids : List String
  pub items : List Json
  pub expires_at : Datetime

pub record LlmConfig : Type 0 where
  pub base_url : Option String
  pub api_key : Option String
  pub model_name : Option String

pub record MemoryCallV2Request : Type 0 where
  pub bundle_id : String
  pub module_id : String
  pub prompt_template : String
  pub slot : String
  pub use_llm : Bool
  pub llm : Option LlmConfig

pub record MemoryCallV2Response : Type 0 where
  pub result : String
  pub filled_prompt : String
  pub bundle_id : String

-- What `call` hands to the billing service for a completion.
pub record Completion : Type 0 where
  pub model_name : String
  pub prompt_tokens : ℕ
  pub completion_tokens : ℕ

-- What `call` uses beside the store: `json.dumps` of the items, `str.replace`, the chat model with
-- its fixed system prompt, and two settings.
pub record Runtime : Type 0 where
  pub dumps : List Json → String
  pub replace : String → String → String → String
  pub chat_completion : Option LlmConfig → String → Result (String × ℕ × ℕ)
  pub openai_model : String
  pub disable_auth : Bool

-- `find_one` on the unique key.
unfoldable pub get_bundle : ℕ → ℕ → String → List MemoryBundle → Option MemoryBundle
get_bundle tenant org bundle_id bundles =
    find (λ b. (b.tenant_id == tenant) && ((b.org_id == org) && (b.bundle_id == bundle_id))) bundles

-- The query with which `call` looks up the current claims of the bundle's user.
unfoldable pub bundle_scope : RequestContext → MemoryBundle → Scope
bundle_scope ctx b = record {
  tenant_id = ctx.tenant_id;
  org_id = ctx.org_id;
  user_id = b.user_id;
  namespace = b.usage_context.namespace;
  dimensions = [];
  include_history = false;
}

-- `now` is the clock's reading in the filter.
unfoldable pub bundle_caller :
    Runtime → ℕ → RequestContext → MemoryCallV2Request → MemoryBundle → Caller
bundle_caller run now ctx body b = record {
  disable_auth = run.disable_auth;
  now = now;
  ctx = ctx;
  usage = b.usage_context;
  llm_requested = body.use_llm;
  allow_historical = false;
}

abbrev pub larger : ℕ → ℕ → ℕ
larger m n = if ltb m n then n else m

unfoldable pub bundle_limit : MemoryBundle → ℕ
bundle_limit b = larger 200 (length b.claim_ids)

unfoldable pub authorized_ids :
    Services
    → Runtime
    → ℕ
    → RequestContext
    → MemoryCallV2Request
    → MemoryBundle
    → ClaimDb
    → List String
unfolding bundle_limit
authorized_ids sv run now ctx body b db =
    map (λ c. c.claim_id)
      (filter_claims sv (bundle_caller run now ctx body b)
        (list_current_claims (bundle_scope ctx b) (bundle_limit b) db)).0

-- `issubset`.
unfoldable pub is_subset : List String → List String → Bool
is_subset [] ids = true
is_subset (i ∷ is) ids = contains i ids && is_subset is ids

unfoldable pub fill : Runtime → MemoryCallV2Request → MemoryBundle → String
fill run body b = run.replace body.prompt_template body.slot (run.dumps b.items)

abbrev model_of : Runtime → Option LlmConfig → String
model_of run none = run.openai_model
model_of run (some llm) = elim llm.model_name [
  | none ↦ run.openai_model
  | some m ↦ if m == "" then run.openai_model else m
]

-- The end of `call`: the filled prompt, and the answer of the model where one is asked.
unfoldable pub complete :
    Runtime
    → MemoryCallV2Request
    → String
    → Bool
    → Result (MemoryCallV2Response × Option Completion)
complete run body filled false =
    ok (record { result = filled; filled_prompt = filled; bundle_id = body.bundle_id }, none)
complete run body filled true = run.chat_completion body.llm filled >>= λ answer. ok (
  record { result = answer.0; filled_prompt = filled; bundle_id = body.bundle_id },
  some (record {
    model_name = model_of run body.llm;
    prompt_tokens = answer.1;
    completion_tokens = answer.2;
  }),
)

unfoldable pub respond :
    Runtime → MemoryCallV2Request → MemoryBundle → Result (MemoryCallV2Response × Option Completion)
unfolding complete
respond run body b = complete run body (fill run body b) body.use_llm

-- The checks of `call` on the bundle that it found, and its end.
unfoldable pub consume :
    Services
    → Runtime
    → ℕ
    → ℕ
    → RequestContext
    → MemoryCallV2Request
    → ClaimDb
    → MemoryBundle
    → Result (MemoryCallV2Response × Option Completion)
consume sv run now later ctx body db b =
    guard (ltb now (instant b.expires_at)) not_found
    >> (guard (b.usage_context.module_id == body.module_id) forbidden
        >> (ensure_retrieve_permission run.disable_auth ctx b.usage_context
            >> (guard (is_subset b.claim_ids (authorized_ids sv run later ctx body b db)) forbidden
                >> respond run body b)))

-- `now` and `later` are the clock's readings at the check of the expiry and in the filter.
unfoldable pub call :
    Services
    → Runtime
    → ℕ
    → ℕ
    → RequestContext
    → MemoryCallV2Request
    → List MemoryBundle
    → ClaimDb
    → Result (MemoryCallV2Response × Option Completion)
unfolding consume
call sv run now later ctx body bundles db =
    maybe (get_bundle ctx.tenant_id ctx.org_id body.bundle_id bundles) (Result.err not_found)
      (consume sv run now later ctx body db)
