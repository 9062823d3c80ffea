-- ===== src/Rules/Selection.antt =====
-- The parse rules of services/rules.py: each rule has at most one active row, the one that was
-- stored last.
pub mod Stored
pub mod Operations
use hojo_memory_engine.Prelude.{
  ℕ, ◌+◌, ◌≤◌, ◌<◌, ◌≡◌, refl, ap, ◌∙◌, String, Bool, true, false, ◌&&◌, Option, none, some, List,
  [], ◌∷◌, ◌++◌, any, count, Holds, maybe, update_many, max_rank, latest, ◌==◌, nat_eq, string_eq,
  eq_iff, arith, inl, inr, if-intro, maybe-intro, latest-eq-none, latest-snoc_only, next_free,
  rank-le-max_rank, max_rank-update_many, if◌then◌else◌,
}
use hojo_memory_engine.Result.{
  Result, ok, err, HttpError, not_found, on_ok, on_ok-intro, type_error,
}
use hojo_memory_engine.Context.{RequestContext}
use hojo_memory_engine.Field.{MemoryField, get_active_by_name}
use hojo_memory_engine.Capability.{resolve_capability_id}
use hojo_memory_engine.Rules.{ParseRule, RuleCreate, RuleUpdateBody, RuleDb, Table, stored}
use hojo_memory_engine.Rules.Parse.{
  active_parse, parse_series, get_active_parse, retired_parse, retire_parse, retire_current_parse,
  next_parse_version, add_parse, created_parse, publish_parse, insert_parse, parse_binding,
  with_parse_capability, create_parse, updated_parse, replace_parse, update_parse,
  delete_parse_soft,
}
use hojo_memory_engine.Rules.Single.{
  RuleTable, IsSingle, replaced, replaced-IsSingle, replaced_vacant, added-IsSingle,
}

pub retired-inactive :
    (c ctx : RequestContext) (field rule : String) (r : ParseRule)
    → active_parse c field rule (retired_parse ctx r) ≡ false
retired-inactive c ctx field rule r = ground arith

pub one_scope :
    (c ctx : RequestContext) (f field g rule : String) (s r : ParseRule)
    → active_parse c f g s ≡ true
    → active_parse ctx field rule s ≡ true
    → active_parse c f g r ≡ active_parse ctx field rule r
one_scope c ctx f field g rule s r e e' =
    let same_field = eq_iff s.memory_field_name f in
    let same_field' = eq_iff s.memory_field_name field in
    let same_rule = eq_iff s.rule_name g in
    let same_rule' = eq_iff s.rule_name rule in
    let tenant : c.tenant_id ≡ ctx.tenant_id = ground (arith, e, e') in
    let org : c.org_id ≡ ctx.org_id = ground (arith, e, e') in
    let on_field : f ≡ field = ground (arith, e, e', same_field, same_field') in
    let named : g ≡ rule = ground (arith, e, e', same_rule, same_rule') in
    rw (tenant, org, on_field, named) refl

abbrev pub parse_table : RuleTable ParseRule
parse_table = record {
  key = λ r. r.id;
  number = λ r. r.version;
  active = active_parse;
  retired = retired_parse;
  retired_inactive = retired-inactive;
  one_scope = one_scope;
}

abbrev pub IsSingleParse : RuleDb → Type 0
IsSingleParse db = IsSingle parse_table db.parse.rows

pub stored-some :
    {R : Type 0} (same_key : R → Bool) (row : ℕ → R) (t : Table R)
    → any same_key t.rows ≡ false
    → stored same_key row t
      ≡ some (record t { rows = t.rows ++ row t.next_id ∷ []; next_id = t.next_id + 1 })
unfolding stored
stored-some same_key row t e = rw e refl

module _ (ctx : RequestContext) (field rule : String) where
  -- The rows once the rule that a lookup finds is retired.
  pub vacated :
      (db : RuleDb)
      → IsSingleParse db
      → let d = retire_current_parse ctx (get_active_parse ctx field rule db) db in
        IsSingleParse d × (count (active_parse ctx field rule) d.parse.rows ≡ 0)
  unfolding get_active_parse
  vacated db h =
      maybe-intro (λ d. IsSingleParse d × (count (active_parse ctx field rule) d.parse.rows ≡ 0))
        (get_active_parse ctx field rule db) db (λ r. retire_parse ctx r db)
        (λ e. (h, latest-eq-none (λ r. r.version) (active_parse ctx field rule) db.parse.rows e))
        λ r e. (
          replaced-IsSingle parse_table ctx r db.parse.rows h,
          replaced_vacant parse_table ctx field rule db.parse.rows {current = r} h e,
        )

module _ (ctx : RequestContext) (field rule : String) (field_id : ℕ) where
  pub retired_version :
      (current : ParseRule) (db : RuleDb)
      → next_parse_version ctx field_id rule (retire_parse ctx current db)
        ≡ next_parse_version ctx field_id rule db
  unfolding next_parse_version
  retired_version current db =
      ap (λ n. n + 1)
        (max_rank-update_many (λ r. r.id == current.id) (retired_parse ctx) (λ r. r.version)
          (parse_series ctx field_id rule) (λ r. refl) (λ r. refl) db.parse.rows)

  pub vacated_version :
      (db : RuleDb)
      → next_parse_version ctx field_id rule
          (retire_current_parse ctx (get_active_parse ctx field rule db) db)
        ≡ next_parse_version ctx field_id rule db
  vacated_version db =
      maybe-intro
        (λ d. next_parse_version ctx field_id rule d ≡ next_parse_version ctx field_id rule db)
        (get_active_parse ctx field rule db) db (λ r. retire_parse ctx r db) (λ _. refl)
        λ r _. retired_version r db

  pub newer :
      (db : RuleDb) (r : ParseRule)
      → Holds db.parse.rows r
      → parse_series ctx field_id rule r ≡ true
      → r.version < next_parse_version ctx field_id rule db
  unfolding next_parse_version
  newer db r held e = omega (
    arith,
    rank-le-max_rank (λ r. r.version) (parse_series ctx field_id rule) db.parse.rows {x = r} held e,
  )

  -- The next version of a series is never taken, so that its insertion does not fail.
  module _ (row : ℕ → ParseRule) (publish : RuleDb → RuleDb) (before db : RuleDb) where
    abbrev pub grown : RuleDb
    grown = record db {
      parse = record {
        rows = db.parse.rows ++ row db.parse.next_id ∷ [];
        next_id = db.parse.next_id + 1;
      };
    }

    pub add_next :
        add_parse ctx row field_id rule (next_parse_version ctx field_id rule db) publish before db
        ≡ (ok (row db.parse.next_id), publish grown)
    unfolding add_parse next_parse_version maybe
    add_next =
        rw
          (stored-some
            (λ r.
              parse_series ctx field_id rule r
              && (r.version == next_parse_version ctx field_id rule db))
            row db.parse
            (next_free (λ r. r.version) (parse_series ctx field_id rule) db.parse.rows))
          refl

    module _ (h : IsSingleParse db) (vacant : count (active_parse ctx field rule) db.parse.rows ≡ 0)
        (live : active_parse ctx field rule (row db.parse.next_id) ≡ true) where
      pub grown-IsSingle : IsSingleParse grown
      grown-IsSingle =
          added-IsSingle parse_table ctx field rule db.parse.rows (row db.parse.next_id) h vacant
            live

      pub grown-selected : get_active_parse ctx field rule grown ≡ some (row db.parse.next_id)
      unfolding get_active_parse
      grown-selected =
          latest-snoc_only (λ r. r.version) (active_parse ctx field rule) db.parse.rows
            (row db.parse.next_id) vacant live
