-- ===== src/Rules/Slots.antt =====
-- The retrieve rules of services/rules.py, whose creation leaves the earlier versions
-- active.
use hojo_memory_engine.Prelude.{
  ℕ, ◌+◌, ◌<◌, ◌≡◌, refl, ◌∙◌, String, true, false, Bool, Option, none, some, [], ◌∷◌, ◌++◌, All,
  any, Holds, maybe, ◌==◌, nat_eq, string_eq, eq_iff, arith, latest-snoc_top, latest-snoc_other,
  rank-le-max_rank, update_many-append, update_many_fresh, any_of_count, count-above-max_rank,
}
use hojo_memory_engine.Result.{ok, on_ok}
use hojo_memory_engine.Context.{RequestContext}
use hojo_memory_engine.Rules.{RetrieveRule, RetrieveRuleCreate, RuleDb, stored}
use hojo_memory_engine.Rules.Retrieve.{
  retrieve_series, on_field, active_retrieve, get_active_retrieve, next_retrieve_version,
  retrieve_key, add_retrieve, created_retrieve, field_id_of, insert_retrieve, create_retrieve,
  retired_retrieve, retire_retrieve, delete_retrieve_soft,
}

on_own_field :
    (o : Option String) (r : RetrieveRule) → r.memory_field_name ≡ o → on_field false o r ≡ true
on_own_field none r e = refl
on_own_field (some s) r e = ground (arith, eq_iff s s)

module _ (ctx : RequestContext) (body : RetrieveRuleCreate) (field_id : Option ℕ)
    (db : RuleDb) where
  abbrev number : ℕ
  number = next_retrieve_version ctx body.rule_name db

  abbrev row : RetrieveRule
  row = created_retrieve ctx body field_id number db.retrieve.next_id

  abbrev grown : RuleDb
  grown = record db {
    retrieve = record { rows = db.retrieve.rows ++ row ∷ []; next_id = db.retrieve.next_id + 1 };
  }

  key_free : any (retrieve_key ctx body.rule_name number field_id) db.retrieve.rows ≡ false
  unfolding next_retrieve_version
  key_free = any_of_count (retrieve_key ctx body.rule_name number field_id) db.retrieve.rows (
      count-above-max_rank (λ r. r.version) (retrieve_series ctx body.rule_name)
        (retrieve_key ctx body.rule_name number field_id) db.retrieve.rows number
        (λ r e. ground arith) (omega arith))

  inserts : insert_retrieve ctx body field_id db ≡ (ok row, grown)
  unfolding insert_retrieve add_retrieve stored maybe
  inserts = rw key_free refl

  created_active : active_retrieve ctx body.rule_name body.memory_field_name false row ≡ true
  created_active =
      let own = on_own_field body.memory_field_name row refl in
      ground (arith, eq_iff body.rule_name body.rule_name, own)

  selected : get_active_retrieve ctx body.rule_name body.memory_field_name false grown ≡ some row
  unfolding get_active_retrieve next_retrieve_version
  selected =
      latest-snoc_top (λ r. r.version) (retrieve_series ctx body.rule_name)
        (active_retrieve ctx body.rule_name body.memory_field_name false) db.retrieve.rows row
        (λ r e. ground arith) (omega arith) created_active

  -- The deletion that follows a creation.
  undone :
      All (λ r. r.id < db.retrieve.next_id) db.retrieve.rows
      → (retire_retrieve ctx row grown).retrieve.rows
        ≡ db.retrieve.rows ++ retired_retrieve ctx row ∷ []
  undone below =
      let same = λ (r : RetrieveRule). r.id == db.retrieve.next_id in
      update_many-append same (retired_retrieve ctx) db.retrieve.rows (row ∷ [])
      ∙ rw
          (update_many_fresh (λ r. r.id) (retired_retrieve ctx) db.retrieve.next_id db.retrieve.rows
            below)
          (ground arith)

  restored :
      All (λ r. r.id < db.retrieve.next_id) db.retrieve.rows
      → (other : RequestContext) (name : String) (field_name : Option String) (implicit : Bool)
      → get_active_retrieve other name field_name implicit (retire_retrieve ctx row grown)
        ≡ get_active_retrieve other name field_name implicit db
  unfolding get_active_retrieve
  restored below other name field_name implicit = rw (undone below) (
      latest-snoc_other (λ r. r.version) (active_retrieve other name field_name implicit)
        db.retrieve.rows (retired_retrieve ctx row) (ground arith))

-- `create_retrieve` succeeds where the field of the request is found or none is named: the next
-- lookup of the rule in that field selects the rule that it returns, whose version no rule of the
-- name ever had or exceeded.
pub create_retrieve-selected :
    (ctx : RequestContext) (body : RetrieveRuleCreate) (db : RuleDb) (field_id : Option ℕ)
    → field_id_of ctx body.memory_field_name db ≡ ok field_id
    → let db' = (create_retrieve ctx body db).1 in
      (row : RetrieveRule) × ((create_retrieve ctx body db).0 ≡ ok row)
      × (get_active_retrieve ctx body.rule_name body.memory_field_name false db' ≡ some row)
      × ((r : RetrieveRule)
          → Holds db.retrieve.rows r
          → retrieve_series ctx body.rule_name r ≡ true
          → r.version < row.version)
unfolding create_retrieve on_ok next_retrieve_version
create_retrieve-selected ctx body db field_id e =
    rw (e, inserts ctx body field_id db)
      (
        row ctx body field_id db,
        refl,
        selected ctx body field_id db,
        λ r held t. omega (
          arith,
          rank-le-max_rank (λ r. r.version) (retrieve_series ctx body.rule_name) db.retrieve.rows
              {x = r} held t,
        ),
      )

-- Creating a retrieve rule and deleting it again leaves every lookup as it was, of any caller,
-- rule name and field and with or without the implicit flag: where the rule had an earlier version,
-- that one is found again. Its field is found or not named, and keys are below
-- the table's next one.
pub create_retrieve-delete_retrieve_soft :
    (ctx : RequestContext) (body : RetrieveRuleCreate) (db : RuleDb) (field_id : Option ℕ)
    → field_id_of ctx body.memory_field_name db ≡ ok field_id
    → All (λ r. r.id < db.retrieve.next_id) db.retrieve.rows
    → let created = (create_retrieve ctx body db).1 in
      let (deleted, db') = delete_retrieve_soft ctx body.rule_name body.memory_field_name created in
      (deleted ≡ ok tt)
      × ((other : RequestContext) (name : String) (field_name : Option String) (implicit : Bool)
          → get_active_retrieve other name field_name implicit db'
            ≡ get_active_retrieve other name field_name implicit db)
unfolding create_retrieve on_ok delete_retrieve_soft maybe
create_retrieve-delete_retrieve_soft ctx body db field_id e below =
    rw (e, inserts ctx body field_id db, selected ctx body field_id db)
      (refl, restored ctx body field_id db below)
