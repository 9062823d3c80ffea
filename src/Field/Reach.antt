-- ===== src/Field/Reach.antt =====
-- Any calls on the fields of services/memory_field.py, one after the other.
use hojo_memory_engine.Prelude.{String, Bool}
use hojo_memory_engine.Context.{RequestContext}
use hojo_memory_engine.Services.{Services}
use hojo_memory_engine.Field.{
  MemoryFieldCreate, MemoryFieldUpdate, FieldDb, create, update, delete_soft,
}
use hojo_memory_engine.Field.Versions.{IsVersioned}
use hojo_memory_engine.Field.Operations.{
  create-IsVersioned, update-IsVersioned, delete_soft-IsVersioned,
}

-- A call, whatever it returns.
pub data FieldStep (sv : Services) : FieldDb → FieldDb → Type 0 where
  creates :
      (db : FieldDb) (got_lock : Bool) (ctx : RequestContext) (body : MemoryFieldCreate)
      → FieldStep sv db (create sv got_lock ctx body db).1
  updates :
      (db : FieldDb) (got_lock : Bool) (ctx : RequestContext) (name : String)
      (body : MemoryFieldUpdate)
      → FieldStep sv db (update sv got_lock ctx name body db).1
  deletes :
      (db : FieldDb) (ctx : RequestContext) (name : String)
      → FieldStep sv db (delete_soft ctx name db).1

pub data FieldReach (sv : Services) (start : FieldDb) : FieldDb → Type 0 where
  here : FieldReach sv start start
  next : {a b : FieldDb} → FieldReach sv start a → FieldStep sv a b → FieldReach sv start b

-- Whatever creations, updates and deletions of fields follow each other, and whatever they return,
-- each name of a tenant's organisation has at most one active row, versions and keys are not
-- shared, and the entries of the cache name rows of their own name.
pub FieldReach-IsVersioned :
    {sv : Services} {start db : FieldDb}
    → IsVersioned start
    → FieldReach sv start db
    → IsVersioned db
FieldReach-IsVersioned h here = h
FieldReach-IsVersioned {sv} h (next r (creates db got_lock ctx body)) =
    create-IsVersioned ctx body db (FieldReach-IsVersioned h r) sv got_lock
FieldReach-IsVersioned {sv} h (next r (updates db got_lock ctx name body)) =
    update-IsVersioned ctx name body db (FieldReach-IsVersioned h r) sv got_lock
FieldReach-IsVersioned h (next r (deletes db ctx name)) =
    delete_soft-IsVersioned ctx name db (FieldReach-IsVersioned h r)
