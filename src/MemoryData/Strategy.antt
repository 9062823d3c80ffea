-- ===== src/MemoryData/Strategy.antt =====
-- services/memory_data.py: the requests, the state, and what is written in place of a value that is
-- merged (services/memory_merge.py). The language model's answers are an argument.
use hojo_memory_engine.Prelude.{
  String, Option, none, some, List, maybe, ◌==◌, string_eq, if◌then◌else◌,
}
use hojo_memory_engine.Text.{strip}
use hojo_memory_engine.Json.{Json, null, str, Fields}
use hojo_memory_engine.Result.{Result, ok, err, ◌>>=◌, validation}
use hojo_memory_engine.Context.{RequestContext}
use hojo_memory_engine.Services.{Services}
use hojo_memory_engine.Field.{MemoryField}
use hojo_memory_engine.IndexQueue.{IndexQueue}
use hojo_memory_engine.Rules.{MergeRule, RuleDb}
use hojo_memory_engine.Rules.Merge.{get_active_merge}
use hojo_memory_engine.MemoryData.Store.{MemoryDb, MemoryKey, get_memory_data}

-- A `value` of `null` is one that is not given.
pub record MemoryDataCreate : Type 0 where
  pub user_id : String
  pub memory_field_name : String
  pub value : Json
  pub query : Option String
  pub extra : Option Fields
  pub write_rule : Option String
  pub parse_rule_name : Option String
  pub merge_rule_name : Option String
  pub language : Option String
  pub source : Option String
  pub original_expression : Option String

pub record MemoryDataUpdate : Type 0 where
  pub user_id : String
  pub memory_field_name : String
  pub value : Json
  pub write_rule : Option String
  pub merge_rule_name : Option String
  pub query : Option String
  pub language : Option String
  pub source : Option String
  pub original_expression : Option String
  pub extra : Option Fields

pub record MemoryDataOut : Type 0 where
  pub user_id : String
  pub memory_field_name : String
  pub value : Json

-- `_resolve_value`; the completion that `merge_with_rule` asks for, of a rule, the old and the new
-- text and a language, `none` where it is a marker of nothing; and `extract_original_expression`.
pub record Extraction : Type 0 where
  pub resolve_value : MemoryDataCreate → Result Json
  pub fuse : MergeRule → String → String → Option String → Result (Option String)
  pub extract_original_expression : Option String → Json → Option String → Option String

-- A call of `ingest_legacy_projection`.
pub record Mirrored : Type 0 where
  pub user_id : String
  pub memory_field_name : String
  pub value : Json
  pub source : Option String
  pub original_expression : Option String

-- `index` is the queue before the vector index, `mirrored` the calls made, the last one first.
pub record MemoryState (S : Type 0) : Type 0 where
  pub rules : RuleDb
  pub docs : MemoryDb
  pub index : IndexQueue S
  pub mirrored : List Mirrored

abbrev pub memory_key : RequestContext → String → String → Option String → MemoryKey
memory_key ctx user field_name source = record {
  tenant_id = ctx.tenant_id;
  org_id = ctx.org_id;
  user_id = user;
  memory_field_name = field_name;
  source = source;
}

abbrev pub match_method_of : Services → MemoryField → Option String → String
match_method_of sv f none = f.match_method
match_method_of sv f (some rule) = if rule == "" then f.match_method else sv.upper rule

abbrev given_name : Option String → Option String
given_name none = none
given_name (some s) = if s == "" then none else some s

-- `_resolve_merge_rule_name`.
unfoldable pub resolve_merge_rule_name :
    RequestContext → String → Option String → RuleDb → Option String
resolve_merge_rule_name ctx field_name rule db =
    maybe (given_name rule)
      (maybe (get_active_merge ctx field_name "merge_default" db) none λ _. some "merge_default")
      some

-- `_value_to_merge_text`.
abbrev merge_text : Services → Json → String
merge_text sv null = ""
merge_text sv (str s) = s
merge_text sv v = sv.str_json v

abbrev or_new : Json → Option String → Json
or_new new none = new
or_new new (some merged) = str merged

-- `merge_with_rule` of services/memory_merge.py.
unfoldable pub merge_with_rule :
    Services
    → Extraction
    → RequestContext
    → String
    → Json
    → Json
    → String
    → Option String
    → RuleDb
    → Result Json
unfolding strip
merge_with_rule sv x ctx field_name old new rule language db =
    let old_text = strip (merge_text sv old) in
    let new_text = strip (merge_text sv new) in
    maybe (get_active_merge ctx field_name rule db) (ok new) λ row.
      if old_text == ""
      then ok new
      else if new_text == ""
      then ok old
      else x.fuse row old_text new_text language >>= λ merged. ok (or_new new merged)

-- `_apply_merge_strategy`: the value to write, and how.
unfoldable pub apply_merge_strategy :
    Services
    → Extraction
    → RequestContext
    → MemoryKey
    → Json
    → String
    → Option String
    → Option String
    → RuleDb
    → MemoryDb
    → Result (Json × String)
apply_merge_strategy sv x ctx k value match_method rule language db docs =
    if match_method == "MERGE"
    then maybe (get_memory_data sv k docs) (ok (value, match_method)) (λ existing.
      maybe (resolve_merge_rule_name ctx k.memory_field_name rule db) (err validation) λ name.
        merge_with_rule sv x ctx k.memory_field_name existing.value value name language db
        >>= λ merged. ok (merged, "OVERWRITE"))
    else ok (value, match_method)
