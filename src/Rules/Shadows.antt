-- ===== src/Rules/Shadows.antt =====
-- The call rules of services/rules.py, which are numbered by slot and looked up by their name.
use hojo_memory_engine.Prelude.{
  ℕ, ◌+◌, ◌<◌, ◌≡◌, refl, ap, String, Bool, true, ◌&&◌, Option, some, [], ◌∷◌, ◌++◌, any, Holds,
  maybe, maybe-intro, if-intro, ◌==◌, nat_eq, string_eq, arith, latest-max, any_of_Holds,
  any-update_many_same, Holds-append, max_rank-update_many,
}
use hojo_memory_engine.Result.{Result, ok, err, on_ok-intro, type_error}
use hojo_memory_engine.Context.{RequestContext}
use hojo_memory_engine.Field.{get_active_by_name}
use hojo_memory_engine.Capability.{resolve_capability_id}
use hojo_memory_engine.Rules.{
  CallRule, CallRuleCreate, RuleUpdateBody, RuleDb, Table, stored, filled_text,
}
use hojo_memory_engine.Rules.Call.{
  active_call, call_series, get_active_call, retired_call, retire_call, next_call_version, add_call,
  created_call, insert_call, call_binding, with_call_capability, create_call, replace_call,
  update_call,
}

stored-keeps :
    {R : Type 0} (same_key : R → Bool) (row : ℕ → R) (t u : Table R) (r : R)
    → stored same_key row t ≡ some u
    → Holds t.rows r
    → Holds u.rows r
unfolding stored
stored-keeps {R} same_key row t u r e h =
    if-intro (λ (o : Option (Table R)). o ≡ some u → Holds u.rows r) (any same_key t.rows) _ _
      (λ _ n. cc)
      (λ _ s.
        let grown = record t { rows = t.rows ++ row t.next_id ∷ []; next_id = t.next_id + 1 } in
        let same : grown ≡ u = cc in rw (← same) (Holds-append t.rows (row t.next_id ∷ []) r h))
      e

module _ (now : String) (ctx : RequestContext) (body : CallRuleCreate) (db : RuleDb) (r : CallRule)
    (held : Holds db.call.rows r) where
  abbrev Keeps : Result CallRule × RuleDb → Type 0
  Keeps s = Holds s.1.call.rows r

  insert_call-Keeps :
      (field_id : ℕ) (cap_id : Option ℕ) (d : RuleDb)
      → d.call ≡ db.call
      → Keeps (insert_call ctx body field_id cap_id d)
  unfolding insert_call add_call
  insert_call-Keeps field_id cap_id d same =
      let version = next_call_version ctx field_id body.slot_name d in
      let same_key =
        λ (q : CallRule). call_series ctx field_id body.slot_name q && (q.version == version) in
      let row = created_call ctx body field_id cap_id version in
      let kept : Holds d.call.rows r = rw same held in
      maybe-intro Keeps (stored same_key row d.call) _ _ (λ _. kept)
        λ u e. stored-keeps same_key row d.call u r e kept

  create_call-Keeps : Keeps (create_call now ctx body db)
  unfolding create_call with_call_capability
  create_call-Keeps =
      maybe-intro Keeps (get_active_by_name ctx body.memory_field_name db.fields) _ _ (λ _. held)
        λ mf _.
          let (cap, capabilities) =
            resolve_capability_id now ctx (call_binding body) db.capabilities in
          on_ok-intro Keeps cap _ _ (λ _. held)
            λ cap_id _.
              insert_call-Keeps mf.id cap_id (record db { capabilities = capabilities }) refl

  -- A lookup does not find the rule that `create_call` returns where an active rule of the same
  -- field and name, in whatever slot, has a later version.
  pub create_call-shadowed :
      (row : CallRule)
      → (create_call now ctx body db).0 ≡ ok row
      → active_call ctx body.memory_field_name body.rule_name r ≡ true
      → row.version < r.version
      → ¬ (
          get_active_call ctx body.memory_field_name body.rule_name (create_call now ctx body db).1
          ≡ some row)
  unfolding get_active_call
  create_call-shadowed row created live below found = absurd (
      omega (
        arith,
        latest-max (λ r. r.version) (active_call ctx body.memory_field_name body.rule_name)
            (create_call now ctx body db).1.call.rows {x = row} {y = r} found create_call-Keeps
            live,
      ))

retired_number :
    (ctx : RequestContext) (field_id : ℕ) (slot : String) (current : CallRule) (db : RuleDb)
    → next_call_version ctx field_id slot (retire_call ctx current db)
      ≡ next_call_version ctx field_id slot db
unfolding next_call_version
retired_number ctx field_id slot current db =
    ap (λ n. n + 1)
      (max_rank-update_many (λ r. r.id == current.id) (retired_call ctx) (λ r. r.version)
        (call_series ctx field_id slot) (λ r. refl) (λ r. refl) db.call.rows)

-- `update_call` numbers a rule by the slot that it leaves: where the slot of the request has a row
-- of that version, on the same field, the unique key refuses the rule, an uncaught error is raised
-- and nothing changes.
pub update_call-collides :
    (ctx : RequestContext) (field rule slot : String) (body : RuleUpdateBody) (db : RuleDb)
    (current r : CallRule)
    → get_active_call ctx field rule db ≡ some current
    → filled_text body.slot_name current.slot_name ≡ slot
    → Holds db.call.rows r
    → call_series ctx current.memory_field_id slot r ≡ true
    → r.version ≡ next_call_version ctx current.memory_field_id current.slot_name db
    → update_call ctx field rule body db ≡ (err type_error, db)
unfolding update_call replace_call add_call stored maybe
update_call-collides ctx field rule slot body db current r found to_slot held series taken =
    let number = next_call_version ctx current.memory_field_id current.slot_name db in
    let clash =
      any-update_many_same (λ q. q.id == current.id) (retired_call ctx)
        (λ q. call_series ctx current.memory_field_id slot q && (q.version == number)) (λ q. refl)
        db.call.rows in
    let there =
      any_of_Holds (λ q. call_series ctx current.memory_field_id slot q && (q.version == number))
        db.call.rows {x = r} held (ground arith) in
    rw
      (
        found,
        to_slot,
        retired_number ctx current.memory_field_id current.slot_name current db,
        clash,
        there,
      )
      refl
