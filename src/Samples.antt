-- ===== src/Samples.antt =====
-- Stand-ins for packages and a request, for tests.
use hojo_memory_engine.Prelude.{true, none, some, []}
use hojo_memory_engine.Context.{RequestContext}
use hojo_memory_engine.Services.{Services}

abbrev pub services : Services
services = record {
  fromisoformat = λ s. none;
  isoformat = λ n. "";
  str_int = λ n. "1";
  parse_float = λ s. none;
  parse_int = λ s. none;
  sha256 = λ s. s;
  check_schema = λ v. true;
  schema_accepts = λ v w. true;
  model_validate = λ v. none;
  regex_matches = λ s t. true;
  escape = λ s. s;
  lower = λ s. s;
  upper = λ s. s;
  casefold = λ s. s;
  str_json = λ v. "value";
}

abbrev pub context : RequestContext
context = record {
  tenant_id = 1;
  org_id = 1;
  user_id = some 7;
  api_key_id = none;
  permissions = [];
  trace_id = none;
}
