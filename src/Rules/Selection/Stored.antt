-- ===== src/Rules/Selection/Stored.antt =====
-- The rows that create_parse and update_parse of services/rules.py store.
use hojo_memory_engine.Prelude.{
  ℕ, ◌<◌, ◌≡◌, ap, String, true, Option, some, List, Holds, maybe, arith, eq_iff,
}
use hojo_memory_engine.Result.{ok}
use hojo_memory_engine.Context.{RequestContext}
use hojo_memory_engine.Rules.{ParseRule, RuleCreate, RuleUpdateBody, RuleDb}
use hojo_memory_engine.Rules.Parse.{
  active_parse, parse_series, get_active_parse, retire_parse, retire_current_parse,
  next_parse_version, created_parse, publish_parse, insert_parse, updated_parse, replace_parse,
}
use hojo_memory_engine.Rules.Single.{replaced-IsSingle, replaced_vacant}
use hojo_memory_engine.Rules.Selection.{
  parse_table, IsSingleParse, vacated, retired_version, vacated_version, newer, grown, add_next,
  grown-IsSingle, grown-selected,
}

-- What storing `row` as the next version of a rule, in a table of `rows`, leaves.
pub record IsStored (ctx : RequestContext) (field rule : String) (rows : List ParseRule)
    (db' : RuleDb) (row : ParseRule) : Type 0 where
  pub single : IsSingleParse db'
  pub selected : get_active_parse ctx field rule db' ≡ some row
  pub newest :
      (r : ParseRule)
      → Holds rows r
      → parse_series ctx row.memory_field_id rule r ≡ true
      → r.version < row.version

module _ (ctx : RequestContext) (body : RuleCreate) (field_id : ℕ) (cap_id : Option ℕ) (db : RuleDb)
    (h : IsSingleParse db) where
  abbrev pub emptied : RuleDb
  emptied =
      retire_current_parse ctx (get_active_parse ctx body.memory_field_name body.rule_name db) db

  abbrev pub version : ℕ
  version = next_parse_version ctx field_id body.rule_name emptied

  abbrev pub inserted : ParseRule
  inserted = created_parse ctx body field_id cap_id version emptied.parse.next_id

  pub insert_parse-ok : insert_parse ctx body field_id cap_id db ≡ (
    ok inserted,
    publish_parse ctx body cap_id version (
        grown ctx body.memory_field_name body.rule_name field_id
          (created_parse ctx body field_id cap_id version)
          (publish_parse ctx body cap_id version)
          db
          emptied),
  )
  unfolding insert_parse
  insert_parse-ok =
      add_next ctx body.memory_field_name body.rule_name field_id
        (created_parse ctx body field_id cap_id version) (publish_parse ctx body cap_id version) db
        emptied

  inserted_active : active_parse ctx body.memory_field_name body.rule_name inserted ≡ true
  inserted_active = ground (
    arith,
    eq_iff body.memory_field_name body.memory_field_name,
    eq_iff body.rule_name body.rule_name,
  )

  pub insert_parse-IsStored :
      IsStored ctx body.memory_field_name body.rule_name db.parse.rows
        (insert_parse ctx body field_id cap_id db).1
        inserted
  unfolding get_active_parse maybe
  insert_parse-IsStored =
      let (single, vacant) = vacated ctx body.memory_field_name body.rule_name db h in
      let row = created_parse ctx body field_id cap_id version in
      let publish = publish_parse ctx body cap_id version in
      rw (ap (λ s. s.1) insert_parse-ok) (record {
        single =
            grown-IsSingle ctx body.memory_field_name body.rule_name field_id row publish db emptied
              single vacant inserted_active;
        selected =
            grown-selected ctx body.memory_field_name body.rule_name field_id row publish db emptied
              single vacant inserted_active;
        newest = λ r held e.
            rw (vacated_version ctx body.memory_field_name body.rule_name field_id db)
              (newer ctx body.memory_field_name body.rule_name field_id db r held e);
      })

module _ (ctx : RequestContext) (field rule : String) (body : RuleUpdateBody) (db : RuleDb)
    (h : IsSingleParse db) (current : ParseRule)
    (e : get_active_parse ctx field rule db ≡ some current) where
  abbrev pub left : RuleDb
  left = retire_parse ctx current db

  abbrev pub next_number : ℕ
  next_number = next_parse_version ctx current.memory_field_id rule left

  abbrev pub replacement : ParseRule
  replacement = updated_parse ctx field rule body current next_number left.parse.next_id

  pub replace_parse-ok : replace_parse ctx field rule body current db ≡ (
    ok replacement,
    grown ctx field rule current.memory_field_id
        (updated_parse ctx field rule body current next_number)
        (λ d. d)
        db
        left,
  )
  unfolding replace_parse
  replace_parse-ok =
      add_next ctx field rule current.memory_field_id
        (updated_parse ctx field rule body current next_number) (λ d. d) db left

  replacement_active : active_parse ctx field rule replacement ≡ true
  replacement_active = ground (arith, eq_iff field field, eq_iff rule rule)

  pub replace_parse-IsStored :
      IsStored ctx field rule db.parse.rows
        (replace_parse ctx field rule body current db).1
        replacement
  unfolding get_active_parse maybe
  replace_parse-IsStored =
      let single = replaced-IsSingle parse_table ctx current db.parse.rows h in
      let vacant =
        replaced_vacant parse_table ctx field rule db.parse.rows {current = current} h e in
      let row = updated_parse ctx field rule body current next_number in
      rw (ap (λ s. s.1) replace_parse-ok) (record {
        single =
            grown-IsSingle ctx field rule current.memory_field_id row (λ d. d) db left single vacant
              replacement_active;
        selected =
            grown-selected ctx field rule current.memory_field_id row (λ d. d) db left single vacant
              replacement_active;
        newest = λ r held t.
            rw (retired_version ctx field rule current.memory_field_id current db)
              (newer ctx field rule current.memory_field_id db r held t);
      })
