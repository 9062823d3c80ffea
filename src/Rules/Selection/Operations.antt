-- ===== src/Rules/Selection/Operations.antt =====
-- What create_parse, update_parse and delete_parse_soft of services/rules.py do to the active rows.
use hojo_memory_engine.Prelude.{◌≡◌, ap, String, none, some, maybe, maybe-intro, latest_of_none}
use hojo_memory_engine.Result.{Result, ok, on_ok-intro}
use hojo_memory_engine.Context.{RequestContext}
use hojo_memory_engine.Field.{get_active_by_name}
use hojo_memory_engine.Capability.{resolve_capability_id}
use hojo_memory_engine.Rules.{ParseRule, RuleCreate, RuleUpdateBody, RuleDb}
use hojo_memory_engine.Rules.Parse.{
  active_parse, get_active_parse, retire_parse, parse_binding, with_parse_capability, create_parse,
  update_parse, delete_parse_soft,
}
use hojo_memory_engine.Rules.Single.{replaced-IsSingle, replaced_vacant}
use hojo_memory_engine.Rules.Selection.{parse_table, IsSingleParse}
use hojo_memory_engine.Rules.Selection.Stored.{
  IsStored, insert_parse-IsStored, replacement, replace_parse-ok, replace_parse-IsStored,
}

-- `update_parse` succeeds on a rule that a lookup finds: the version that it returns is then the
-- only active one of its field and name, the one that the next lookup selects, and no rule of the
-- same field's row and name ever had its version or a later one.
pub update_parse-selected :
    (ctx : RequestContext) (field rule : String) (body : RuleUpdateBody) (db : RuleDb)
    (current : ParseRule)
    → IsSingleParse db
    → get_active_parse ctx field rule db ≡ some current
    → (row : ParseRule) × ((update_parse ctx field rule body db).0 ≡ ok row)
      × IsStored ctx field rule db.parse.rows (update_parse ctx field rule body db).1 row
unfolding update_parse maybe
update_parse-selected ctx field rule body db current h e = rw e (
  replacement ctx field rule body db h current e,
  ap (λ s. s.0) (replace_parse-ok ctx field rule body db h current e),
  replace_parse-IsStored ctx field rule body db h current e,
)

retired_gone :
    (ctx : RequestContext) (field rule : String) (db : RuleDb)
    → IsSingleParse db
    → (current : ParseRule) → get_active_parse ctx field rule db ≡ some current
    → get_active_parse ctx field rule (retire_parse ctx current db) ≡ none
unfolding get_active_parse
retired_gone ctx field rule db h current e =
    latest_of_none (λ r. r.version) (active_parse ctx field rule)
      (retire_parse ctx current db).parse.rows
      (replaced_vacant parse_table ctx field rule db.parse.rows {current = current} h e)

-- A call on the parse rules, whatever it returns.
pub data ParseStep : RuleDb → RuleDb → Type 0 where
  creates :
      (db : RuleDb) (now : String) (ctx : RequestContext) (body : RuleCreate)
      → ParseStep db (create_parse now ctx body db).1
  updates :
      (db : RuleDb) (ctx : RequestContext) (field rule : String) (body : RuleUpdateBody)
      → ParseStep db (update_parse ctx field rule body db).1
  deletes :
      (db : RuleDb) (ctx : RequestContext) (field rule : String)
      → ParseStep db (delete_parse_soft ctx field rule db).1

pub data ParseReach (start : RuleDb) : RuleDb → Type 0 where
  here : ParseReach start start
  next : {a b : RuleDb} → ParseReach start a → ParseStep a b → ParseReach start b

create_parse-IsSingle :
    (now : String) (ctx : RequestContext) (body : RuleCreate) (db : RuleDb)
    → IsSingleParse db
    → IsSingleParse (create_parse now ctx body db).1
unfolding create_parse with_parse_capability
create_parse-IsSingle now ctx body db h =
    maybe-intro (λ (s : Result ParseRule × RuleDb). IsSingleParse s.1)
      (get_active_by_name ctx body.memory_field_name db.fields) _ _ (λ _. h)
      λ mf _.
        let (cap, capabilities) =
          resolve_capability_id now ctx (parse_binding body) db.capabilities in
        on_ok-intro (λ (s : Result ParseRule × RuleDb). IsSingleParse s.1) cap _ _ (λ _. h)
          λ cap_id _.
            (insert_parse-IsStored ctx body mf.id cap_id (record db { capabilities = capabilities })
              h).single

update_parse-IsSingle :
    (ctx : RequestContext) (field rule : String) (body : RuleUpdateBody) (db : RuleDb)
    → IsSingleParse db
    → IsSingleParse (update_parse ctx field rule body db).1
unfolding update_parse
update_parse-IsSingle ctx field rule body db h =
    maybe-intro (λ (s : Result ParseRule × RuleDb). IsSingleParse s.1)
      (get_active_parse ctx field rule db) _ _ (λ _. h)
      λ current e. (replace_parse-IsStored ctx field rule body db h current e).single

delete_parse_soft-IsSingle :
    (ctx : RequestContext) (field rule : String) (db : RuleDb)
    → IsSingleParse db
    → IsSingleParse (delete_parse_soft ctx field rule db).1
unfolding delete_parse_soft
delete_parse_soft-IsSingle ctx field rule db h =
    maybe-intro (λ (s : Result (Unit {0}) × RuleDb). IsSingleParse s.1)
      (get_active_parse ctx field rule db) _ _ (λ _. h)
      λ current e. replaced-IsSingle parse_table ctx current db.parse.rows h

-- Whatever creations, updates and deletions of parse rules follow each other, and whatever they
-- return, each field and rule name of a tenant's organisation has at most one active parse rule.
pub ParseReach-IsSingle :
    {start db : RuleDb} → IsSingleParse start → ParseReach start db → IsSingleParse db
ParseReach-IsSingle h here = h
ParseReach-IsSingle h (next r (creates db now ctx body)) =
    create_parse-IsSingle now ctx body db (ParseReach-IsSingle h r)
ParseReach-IsSingle h (next r (updates db ctx field rule body)) =
    update_parse-IsSingle ctx field rule body db (ParseReach-IsSingle h r)
ParseReach-IsSingle h (next r (deletes db ctx field rule)) =
    delete_parse_soft-IsSingle ctx field rule db (ParseReach-IsSingle h r)

-- A parse rule that was deleted is not found again.
pub delete_parse_soft-gone :
    (ctx : RequestContext) (field rule : String) (db : RuleDb)
    → IsSingleParse db
    → (delete_parse_soft ctx field rule db).0 ≡ ok tt
    → get_active_parse ctx field rule (delete_parse_soft ctx field rule db).1 ≡ none
unfolding delete_parse_soft
delete_parse_soft-gone ctx field rule db h =
    maybe-intro
      (λ (s : Result (Unit {0}) × RuleDb). s.0 ≡ ok tt → get_active_parse ctx field rule s.1 ≡ none)
      (get_active_parse ctx field rule db) _ _ (λ _ e. cc)
      λ current e _. retired_gone ctx field rule db h current e
