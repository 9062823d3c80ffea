-- ===== src/Context.antt =====
-- core/context.py: the identity and tenant scope of a request.
use hojo_memory_engine.Prelude.{ℕ, String, Option, List}

pub record RequestContext : Type 0 where
  pub tenant_id : ℕ
  pub org_id : ℕ
  pub user_id : Option ℕ
  pub api_key_id : Option ℕ
  -- A set of strings.
  pub permissions : List String
  pub trace_id : Option String
