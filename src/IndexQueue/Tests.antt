-- ===== src/IndexQueue/Tests.antt =====
-- integrations/qdrant_index_queue.py on concrete tasks.
use hojo_memory_engine.Samples.{services}
use hojo_memory_engine.Prelude.{
  ◌≡◌, refl, String, true, false, none, some, List, [], ◌∷◌, filter, not, ◌==◌, string_eq, arith,
}
use hojo_memory_engine.IndexQueue.{
  IndexTask, runtime_error, VectorIndex, index_skipped, IndexQueue, start_qdrant_index_worker,
  enqueue_vector_index, take_task, finish_task, run_worker, index_call, log_line,
}
use hojo_memory_engine.IndexQueue.Worker.{
  here, next, starts, enqueues, takes, IsBounded, index_all, Reach-IsBounded, enqueue-served,
}

program : Unit {0}
unfolding start_qdrant_index_worker enqueue_vector_index take_task finish_task run_worker log_line
program = tt

-- An index that lists document ids; deletion fails after it has removed the document.
abbrev ids : VectorIndex (List String)
ids = record {
  mark_deleted = λ tenant doc name i.
      (some (runtime_error "qdrant unavailable"), filter (λ d. not (d == doc)) i);
  upsert_vector = λ tenant org user name doc text i. (none, doc ∷ i);
}

abbrev stopped : IndexQueue (List String)
stopped = record { queue = none; busy = none; running = false; index = []; log = [] }

abbrev write : IndexTask
write = record {
  tenant_id = 1;
  org_id = 1;
  user_id = "7";
  memory_field_name = "budget";
  doc_id = "d";
  text = "5000";
  action = "upsert";
}

abbrev removal : IndexTask
removal = record write { action = "delete" }

abbrev started : IndexQueue (List String)
started = start_qdrant_index_worker stopped

abbrev filled : IndexQueue (List String)
filled = enqueue_vector_index write started

stopped-IsBounded : IsBounded stopped
stopped-IsBounded = record { within = omega arith; while_running = refl; held = λ e. e }

Reach-IsBounded_example : IsBounded (take_task filled)
Reach-IsBounded_example =
    Reach-IsBounded {sv = services} {ix = ids} {s = stopped} {u = take_task filled}
      stopped-IsBounded
      (next (next (next here (starts stopped)) (enqueues started write)) (takes filled))

runs : filled.running ≡ true
unfolding program
runs = refl

idle : filled.busy ≡ none
unfolding program
idle = refl

waits : filled.queue ≡ some (write ∷ [])
unfolding program
waits = refl

enqueue-served_example :
    let u = run_worker services ids 2 (enqueue_vector_index removal filled) in
    (u.queue ≡ some [])
    × (u.busy ≡ none)
    × (u.index ≡ (index_call ids removal (index_all ids (write ∷ []) filled.index)).1)
enqueue-served_example =
    enqueue-served services ids removal (write ∷ []) filled runs idle waits (omega arith)

removes :
    run_worker services ids 2 (enqueue_vector_index removal filled)
    ≡ record started { log = index_skipped 1 "budget" ∷ [] }
unfolding program
removes = refl
