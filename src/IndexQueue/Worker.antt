-- ===== src/IndexQueue/Worker.antt =====
-- What the queue and the worker of integrations/qdrant_index_queue.py guarantee.
use hojo_memory_engine.Prelude.{
  ℕ, suc, ◌≤◌, ◌<◌, ◌≡◌, refl, ap, Bool, true, false, Option, none, some, List, [], ◌∷◌, ◌++◌,
  length, length-snoc, ltb, sym, ◌∙◌, arith, if-intro,
}
use hojo_memory_engine.Services.{Services}
use hojo_memory_engine.IndexQueue.{
  IndexTask, VectorIndex, IndexQueue, maxsize, index_call, start_qdrant_index_worker,
  stop_qdrant_index_worker, put_nowait, when_started, enqueue_vector_index, take_from, take_task,
  finish, finish_task, run_worker,
}

abbrev pub waiting : Option (List IndexTask) → ℕ
waiting none = 0
waiting (some q) = length q

abbrev pub given : {A : Type 0} → Option A → Bool
given none = false
given (some a) = true

module _ {S : Type 0} where
  -- Everything that can happen to the queue, in any order: a call waits in the index while others
  -- enqueue, and a stop can cancel it with any index left.
  pub data Step (sv : Services) (ix : VectorIndex S) : IndexQueue S → IndexQueue S → Type 0 where
    starts : (s : IndexQueue S) → Step sv ix s (start_qdrant_index_worker s)
    stops : (s : IndexQueue S) (left : S) → Step sv ix s (stop_qdrant_index_worker left s)
    enqueues : (s : IndexQueue S) (t : IndexTask) → Step sv ix s (enqueue_vector_index t s)
    takes : (s : IndexQueue S) → Step sv ix s (take_task s)
    finishes : (s : IndexQueue S) → Step sv ix s (finish_task sv ix s)

  pub data Reach (sv : Services) (ix : VectorIndex S) (s : IndexQueue S)
      : IndexQueue S → Type 0 where
    here : Reach sv ix s s
    next : {t u : IndexQueue S} → Reach sv ix s t → Step sv ix t u → Reach sv ix s u

  -- There is a queue exactly while the worker runs, never longer than its bound, and only a
  -- running worker holds a task.
  pub record IsBounded (s : IndexQueue S) : Type 0 where
    pub within : waiting s.queue ≤ maxsize
    pub while_running : given s.queue ≡ s.running
    pub held : given s.busy ≡ true → s.running ≡ true

module _ {S : Type 0} where
  Start-IsBounded : (s : IndexQueue S) → IsBounded s → IsBounded (start_qdrant_index_worker s)
  unfolding start_qdrant_index_worker
  Start-IsBounded s h =
      if-intro IsBounded s.running _ _ (λ _. h)
        λ _. record { within = omega arith; while_running = refl; held = λ _. refl }

  stop-IsBounded :
      (s : IndexQueue S) (left : S) → IsBounded s → IsBounded (stop_qdrant_index_worker left s)
  unfolding stop_qdrant_index_worker
  stop-IsBounded s left h =
      if-intro IsBounded s.running _ _
        (λ _. record { within = omega arith; while_running = refl; held = λ e. e })
        λ e. record { within = omega arith; while_running = cc; held = h.held }

  put_nowait-IsBounded :
      (s : IndexQueue S) (t : IndexTask) (q : List IndexTask)
      → s.queue ≡ some q
      → IsBounded s
      → IsBounded (put_nowait t q s)
  put_nowait-IsBounded s t q e h =
      if-intro IsBounded (ltb (length q) maxsize) _ _
        (λ room. record {
          within = ground (arith, length-snoc q t);
          while_running = ap given (sym e) ∙ h.while_running;
          held = h.held;
        })
        λ _. record { within = h.within; while_running = h.while_running; held = h.held }

  when_started-IsBounded :
      (s : IndexQueue S) (t : IndexTask) (o : Option (List IndexTask))
      → s.queue ≡ o
      → IsBounded s
      → IsBounded (when_started t o s)
  when_started-IsBounded s t none e h = h
  when_started-IsBounded s t (some q) e h = put_nowait-IsBounded s t q e h

  take_from-IsBounded :
      (s : IndexQueue S) (r : Bool) (b : Option IndexTask) (o : Option (List IndexTask))
      → s.running ≡ r
      → s.queue ≡ o
      → IsBounded s
      → IsBounded (take_from r b o s)
  take_from-IsBounded s true none (some (t ∷ q)) er eq h = record {
    within = ground (arith, h.within);
    while_running = sym er;
    held = λ _. er;
  }
  take_from-IsBounded s true none none er eq h = h
  take_from-IsBounded s true none (some []) er eq h = h
  take_from-IsBounded s true (some t) o er eq h = h
  take_from-IsBounded s false b o er eq h = h

  finish-IsBounded :
      (sv : Services) (ix : VectorIndex S) (s : IndexQueue S) (b : Option IndexTask)
      → IsBounded s
      → IsBounded (finish sv ix b s)
  finish-IsBounded sv ix s none h = h
  finish-IsBounded sv ix s (some t) h = record {
    within = h.within;
    while_running = h.while_running;
    held = λ e. absurd (cc);
  }

  Step-IsBounded :
      {sv : Services} {ix : VectorIndex S} {s u : IndexQueue S}
      → Step sv ix s u
      → IsBounded s
      → IsBounded u
  unfolding enqueue_vector_index take_task finish_task
  Step-IsBounded (starts s) h = Start-IsBounded s h
  Step-IsBounded (stops s left) h = stop-IsBounded s left h
  Step-IsBounded (enqueues s t) h = when_started-IsBounded s t s.queue refl h
  Step-IsBounded (takes s) h = take_from-IsBounded s s.running s.busy s.queue refl refl h
  Step-IsBounded {sv} {ix} (finishes s) h = finish-IsBounded sv ix s s.busy h

  -- Whatever starts, stops, tasks and turns of the worker follow each other, no queue is longer
  -- than its bound, there is a queue exactly while the worker runs, and no stopped worker holds a
  -- task.
  pub Reach-IsBounded :
      {sv : Services} {ix : VectorIndex S} {s u : IndexQueue S}
      → IsBounded s
      → Reach sv ix s u
      → IsBounded u
  Reach-IsBounded h here = h
  Reach-IsBounded h (next r st) = Step-IsBounded st (Reach-IsBounded h r)

  -- The index after the calls of some tasks, one after the other, whatever they raise.
  abbrev pub index_all : VectorIndex S → List IndexTask → S → S
  index_all ix [] i = i
  index_all ix (t ∷ q) i = index_all ix q (index_call ix t i).1

  turn :
      (sv : Services) (ix : VectorIndex S) (t : IndexTask) (q : List IndexTask) (s : IndexQueue S)
      → s.running ≡ true
      → s.busy ≡ none
      → s.queue ≡ some (t ∷ q)
      → let u = finish_task sv ix (take_task s) in
        (u.running ≡ true)
        × (u.busy ≡ none)
        × (u.queue ≡ some q)
        × (u.index ≡ (index_call ix t s.index).1)
  unfolding finish_task take_task
  turn sv ix t q s r b e = rw (r, b, e) (refl, refl, refl, refl)

  drained :
      (sv : Services) (ix : VectorIndex S) (q : List IndexTask) (s : IndexQueue S)
      → s.running ≡ true
      → s.busy ≡ none
      → s.queue ≡ some q
      → let u = run_worker sv ix (length q) s in
        (u.queue ≡ some []) × (u.busy ≡ none) × (u.index ≡ index_all ix q s.index)
  unfolding run_worker
  drained sv ix [] s r b e = (e, b, refl)
  drained sv ix (t ∷ q) s r b e =
      let (r', b', e', i) = turn sv ix t q s r b e in
      let (done, free, all) = drained sv ix q (finish_task sv ix (take_task s)) r' b' e' in
      (done, free, all ∙ ap (index_all ix q) i)

  index_all-snoc :
      (ix : VectorIndex S) (q : List IndexTask) (t : IndexTask) (i : S)
      → index_all ix (q ++ t ∷ []) i ≡ (index_call ix t (index_all ix q i)).1
  index_all-snoc ix [] t i = refl
  index_all-snoc ix (u ∷ q) t i = index_all-snoc ix q t (index_call ix u i).1

  accepted :
      (t : IndexTask) (q : List IndexTask) (s : IndexQueue S)
      → s.queue ≡ some q
      → length q < maxsize
      → enqueue_vector_index t s ≡ record s { queue = some (q ++ t ∷ []) }
  unfolding enqueue_vector_index
  accepted t q s e room = rw e (ground arith)

  -- A task that reaches an idle worker whose queue has room is performed: one turn for each task
  -- waiting and one for it empty the queue, and leave the index that the calls of the waiting
  -- tasks, in their order, and then its own make, whatever exceptions they raise.
  pub enqueue-served :
      (sv : Services) (ix : VectorIndex S) (t : IndexTask) (q : List IndexTask) (s : IndexQueue S)
      → s.running ≡ true
      → s.busy ≡ none
      → s.queue ≡ some q
      → length q < maxsize
      → let u = run_worker sv ix (suc (length q)) (enqueue_vector_index t s) in
        (u.queue ≡ some [])
        × (u.busy ≡ none)
        × (u.index ≡ (index_call ix t (index_all ix q s.index)).1)
  enqueue-served sv ix t q s r b e room =
      rw (accepted t q s e room, ← length-snoc q t, ← index_all-snoc ix q t s.index)
        (drained sv ix (q ++ t ∷ []) (record s { queue = some (q ++ t ∷ []) }) r b refl)
