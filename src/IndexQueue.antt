-- ===== src/IndexQueue.antt =====
-- integrations/qdrant_index_queue.py: the queue between the stores and the vector index, and its
-- worker. The vector index is any type with the two calls into qdrant_store.py that the worker
-- makes. Paths are below backend/src/memory_engine.
pub mod Worker
mod Tests
use hojo_memory_engine.Prelude.{
  ℕ, zero, suc, String, Bool, true, false, Option, none, some, List, [], ◌∷◌, ◌++◌, length, ltb,
  ◌==◌, string_eq, if◌then◌else◌,
}
use hojo_memory_engine.Text.{includes}
use hojo_memory_engine.Services.{Services}

pub record IndexTask : Type 0 where
  pub tenant_id : ℕ
  pub org_id : ℕ
  pub user_id : String
  pub memory_field_name : String
  pub doc_id : String
  pub text : String
  pub action : String

-- What a call can raise: a `RuntimeError` with its text, or another `Exception`.
pub data Failure : Type 0 where
  runtime_error : String → Failure
  other_error : Failure

-- `mark_deleted` and `upsert_vector` on an index of type `S`; an exception leaves an index too.
pub record VectorIndex (S : Type 0) : Type 0 where
  pub mark_deleted : ℕ → String → String → S → Option Failure × S
  pub upsert_vector : ℕ → ℕ → String → String → String → String → S → Option Failure × S

pub data LogLine : Type 0 where
  index_skipped index_failed : ℕ → String → LogLine
  queue_full : LogLine

-- `running` is whether `_worker_task` is set, `busy` the task that the worker has taken from the
-- queue and not finished, and `log` the warnings and errors, the last one first.
pub record IndexQueue (S : Type 0) : Type 0 where
  pub queue : Option (List IndexTask)
  pub busy : Option IndexTask
  pub running : Bool
  pub index : S
  pub log : List LogLine

abbrev pub maxsize : ℕ
maxsize = 10000

unfoldable pub log_line : Services → IndexTask → Failure → LogLine
unfolding includes
log_line sv t (runtime_error text) =
    if includes (sv.lower text) "qdrant unavailable"
    then index_skipped t.tenant_id t.memory_field_name
    else index_failed t.tenant_id t.memory_field_name
log_line sv t other_error = index_failed t.tenant_id t.memory_field_name

abbrev pub logged : Services → IndexTask → Option Failure → List LogLine → List LogLine
logged sv t none log = log
logged sv t (some e) log = log_line sv t e ∷ log

module _ {S : Type 0} where
  -- The call that a task asks for, in the worker and in `enqueue_vector_index_blocking`.
  abbrev pub index_call : VectorIndex S → IndexTask → S → Option Failure × S
  index_call ix t i =
      if t.action == "delete"
      then ix.mark_deleted t.tenant_id t.doc_id t.memory_field_name i
      else ix.upsert_vector t.tenant_id t.org_id t.user_id t.memory_field_name t.doc_id t.text i

  unfoldable pub start_qdrant_index_worker : IndexQueue S → IndexQueue S
  start_qdrant_index_worker s =
      if s.running then s else record s { queue = some []; running = true }

  -- `left` is the index as the cancelled call leaves it, where one was under way.
  unfoldable pub stop_qdrant_index_worker : S → IndexQueue S → IndexQueue S
  stop_qdrant_index_worker left s =
      if s.running
      then record s { queue = none; busy = none; running = false; index = left }
      else record s { queue = none }

  -- `put_nowait`, and the warning for its `QueueFull`.
  abbrev pub put_nowait : IndexTask → List IndexTask → IndexQueue S → IndexQueue S
  put_nowait t q s =
      if ltb (length q) maxsize
      then record s { queue = some (q ++ t ∷ []) }
      else record s { log = queue_full ∷ s.log }

  abbrev pub when_started : IndexTask → Option (List IndexTask) → IndexQueue S → IndexQueue S
  when_started t none s = s
  when_started t (some q) s = put_nowait t q s

  unfoldable pub enqueue_vector_index : IndexTask → IndexQueue S → IndexQueue S
  enqueue_vector_index t s = when_started t s.queue s

  abbrev pub take_from :
      Bool → Option IndexTask → Option (List IndexTask) → IndexQueue S → IndexQueue S
  take_from true none (some (t ∷ q)) s = record s { queue = some q; busy = some t }
  take_from r b q s = s

  -- The worker's `await _queue.get()`: without a task it waits.
  unfoldable pub take_task : IndexQueue S → IndexQueue S
  take_task s = take_from s.running s.busy s.queue s

  abbrev pub finish : Services → VectorIndex S → Option IndexTask → IndexQueue S → IndexQueue S
  finish sv ix none s = s
  finish sv ix (some t) s =
      let (raised, i) = index_call ix t s.index in
      record s { busy = none; index = i; log = logged sv t raised s.log }

  -- The rest of a turn of `_worker_loop`, where every exception is caught.
  unfoldable pub finish_task : Services → VectorIndex S → IndexQueue S → IndexQueue S
  finish_task sv ix s = finish sv ix s.busy s

  unfoldable pub run_worker : Services → VectorIndex S → ℕ → IndexQueue S → IndexQueue S
  unfolding take_task finish_task
  run_worker sv ix zero s = s
  run_worker sv ix (suc n) s = run_worker sv ix n (finish_task sv ix (take_task s))
