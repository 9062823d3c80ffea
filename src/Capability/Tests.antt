-- ===== src/Capability/Tests.antt =====
-- services/capability_registry.py on one capability.

use hojo_memory_engine.Prelude.{◌<◌, ◌≡◌, refl, true, none, some, [], map, Holds, maybe, arith}
use hojo_memory_engine.Result.{ok}
use hojo_memory_engine.Context.{RequestContext}
use hojo_memory_engine.Samples.{context}
use hojo_memory_engine.Capability.{
  CapabilityRow, CapabilityRegisterBody, CapabilityOut, CapabilityDb, to_out, in_capability,
  next_capability_version, cached_row, get_active, heartbeat, same_config, unchanged,
  insert_version, register, delete_capability, registered_row,
}
use hojo_memory_engine.Capability.Registry.{core_of, register-unchanged, register-found}

program : Unit {0}
unfolding maybe cached_row get_active heartbeat same_config unchanged next_capability_version
    insert_version register delete_capability
program = tt

abbrev empty : CapabilityDb
empty = record { rows = []; next_id = 1; cache = λ t o n k. none }

abbrev parser : CapabilityRegisterBody
parser = record {
  capability_name = "parser";
  module_name = "m";
  service_name = "parse";
  rule_kind = "parse";
  slot_name = some "a";
  config_json = none;
  code_fingerprint = none;
  enabled = 1;
}

abbrev registered : CapabilityDb
registered = (register "t1" context parser empty).1

nothing_active : get_active context "parser" "parse" empty ≡ none
unfolding program
nothing_active = refl

register-found_example :
    (row : CapabilityRow) × ((register "t1" context parser empty).0 ≡ ok (to_out row))
    × (cached_row (registered.cache 1 1 "parser" "parse") registered ≡ some row)
    × ((other : RequestContext)
        → other.tenant_id ≡ 1
        → other.org_id ≡ 1
        → get_active other "parser" "parse" registered ≡ some row)
    × ((r : CapabilityRow)
        → Holds empty.rows r
        → in_capability context "parser" "parse" r ≡ true
        → r.version < row.version)
register-found_example = register-found "t1" context parser empty tt (omega arith) nothing_active

abbrev row : CapabilityRow
row = registered_row "t1" context parser 1 1

row_active : get_active context "parser" "parse" registered ≡ some row
unfolding program
row_active = refl

-- The same capability in another slot.
abbrev moved : CapabilityRegisterBody
moved = record parser { slot_name = some "b" }

register-unchanged_example :
    ((out : CapabilityOut) × ((register "t2" context moved registered).0 ≡ ok out)
      × (out.slot_name ≡ some "a"))
    × (map core_of (register "t2" context moved registered).1.rows ≡ map core_of registered.rows)
register-unchanged_example =
    register-unchanged "t2" context moved registered row row_active refl refl refl refl

deletes : (delete_capability context "parser" "parse" registered).0 ≡ ok tt
unfolding program
deletes = refl
