-- ===== src/Services.antt =====
-- What the services use of packages and of the runtime, as one argument of the model: nothing is
-- assumed of it. `Datetime` is Python's: `naive` without a time zone, `aware` with its UTC instant,
-- both in microseconds.
use hojo_memory_engine.Prelude.{ℕ, String, Bool, Option}
use hojo_memory_engine.Json.{Json, ℤ}
use hojo_memory_engine.Claim.Types.{MemoryAccessPolicy}

pub data Datetime : Type 0 where
  naive aware : ℕ → Datetime

pub record Services : Type 0 where
  -- `datetime.fromisoformat`, `none` for its `ValueError`, and `isoformat` of a UTC instant.
  pub fromisoformat : String → Option Datetime
  pub isoformat : ℕ → String
  -- `str` of an `int`; `float` and `int` of a `str`, `none` for their `ValueError`.
  pub str_int : ℕ → String
  pub parse_float : String → Option ℤ
  pub parse_int : String → Option ℤ
  -- `hashlib.sha256(raw.encode()).hexdigest()`.
  pub sha256 : String → String
  -- jsonschema: `Draft202012Validator.check_schema` and `validate(instance, schema)` pass.
  pub check_schema : Json → Bool
  pub schema_accepts : Json → Json → Bool
  -- pydantic: `MemoryAccessPolicy.model_validate`, `none` for its `ValidationError`.
  pub model_validate : Json → Option MemoryAccessPolicy
  -- MongoDB: the text of a document matches a case-insensitive regular expression.
  pub regex_matches : String → String → Bool
  -- `re.escape`, `str.lower`, `str.upper` and `str.casefold`, and `str` of a JSON value.
  pub escape : String → String
  pub lower : String → String
  pub upper : String → String
  pub casefold : String → String
  pub str_json : Json → String
