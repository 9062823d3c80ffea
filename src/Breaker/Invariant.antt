-- ===== src/Breaker/Invariant.antt =====
-- The invariant of the circuit breaker of services/memory_data.py.
use hojo_memory_engine.Prelude.{
  ℕ, ◌+◌, ◌<◌, ◌≡◌, refl, ap, Bool, true, false, ◌==◌, arith, if-intro, leb, nat_eq,
}
use hojo_memory_engine.Breaker.{
  Phase, closed, tripped, half_open, running, Breaker, fail_threshold, is_tripped, ended,
  leave_check, leave_wake, close, trip, half_opened, Admission, admit_probe, admit_in, admit, Reply,
  replied, failed, cancelled, answer, release, PingTurn, count_failure, outdated, ping_check,
  ping_wake, ping_answered,
}

pub record IsSound (b : Breaker) : Type 0 where
  -- The flag of a probe is up in the half-open circuit alone.
  pub probed : b.in_flight ≡ true → b.phase ≡ half_open
  pub few_fails : b.primary_fails < fail_threshold
  -- The ping loop of an open circuit's generation has not returned.
  pub watched : b.phase ≡ tripped → b.probe_task ≡ running b.generation

-- Everything that can happen, in any order: the locked sections of requests and of ping loops.
pub data Step : Breaker → Breaker → Type 0 where
  admits : (b : Breaker) (now : ℕ) → Step b (admit now b).1
  answers : (b : Breaker) (now : ℕ) (probe : Bool) (r : Reply) → Step b (answer now probe r b)
  releases : (b : Breaker) (probe : Bool) → Step b (release probe b)
  checks : (b : Breaker) (gen now : ℕ) → Step b (leave_check gen (ping_check gen now b))
  wakes : (b : Breaker) (gen now : ℕ) → Step b (leave_wake gen (ping_wake gen now b))
  hears : (b : Breaker) (gen : ℕ) → Step b (ended gen (ping_answered gen b))

pub data BreakerReach (start : Breaker) : Breaker → Type 0 where
  here : BreakerReach start start
  next : {a b : Breaker} → BreakerReach start a → Step a b → BreakerReach start b

close-IsSound : (b : Breaker) → IsSound (close b)
unfolding close
close-IsSound b = record { probed = λ e. cc; few_fails = omega arith; watched = λ e. cc }

trip-IsSound : (now : ℕ) (b : Breaker) → IsSound (trip now b)
unfolding trip
trip-IsSound now b = record { probed = λ e. cc; few_fails = omega arith; watched = λ e. refl }

half_opened-IsSound : (b : Breaker) → IsSound b → IsSound (half_opened b)
half_opened-IsSound b h = record { probed = λ e. refl; few_fails = h.few_fails; watched = λ e. cc }

admit_probe-IsSound : (b : Breaker) → b.phase ≡ half_open → IsSound b → IsSound (admit_probe b).1
admit_probe-IsSound b e h =
    if-intro (λ (r : Admission × Breaker). IsSound r.1) b.in_flight _ _ (λ _. h)
      λ _. record { probed = λ _. e; few_fails = h.few_fails; watched = h.watched }

admit_in-IsSound :
    (phase : Phase) (now : ℕ) (b : Breaker)
    → b.phase ≡ phase
    → IsSound b
    → IsSound (admit_in phase now b).1
admit_in-IsSound closed now b e h = h
admit_in-IsSound half_open now b e h = admit_probe-IsSound b e h
admit_in-IsSound tripped now b e h =
    if-intro (λ (r : Admission × Breaker). IsSound r.1) (leb b.open_until now) _ _
      (λ _. admit_probe-IsSound (half_opened b) refl (half_opened-IsSound b h)) λ _. h

count_failure-IsSound : (now : ℕ) (b : Breaker) → IsSound b → IsSound (count_failure now b)
count_failure-IsSound now b h =
    if-intro IsSound (leb fail_threshold (b.primary_fails + 1)) _ _
      (λ _. trip-IsSound now (record b { primary_fails = b.primary_fails + 1 }))
      λ few. record { probed = h.probed; few_fails = ground arith; watched = h.watched }

answer-IsSound :
    (now : ℕ) (probe : Bool) (r : Reply) (b : Breaker) → IsSound b → IsSound (answer now probe r b)
unfolding answer
answer-IsSound now true replied b h = close-IsSound b
answer-IsSound now false replied b h = record {
  probed = h.probed;
  few_fails = omega arith;
  watched = h.watched;
}
answer-IsSound now true failed b h = trip-IsSound now b
answer-IsSound now false failed b h = count_failure-IsSound now b h
answer-IsSound now true cancelled b h = h
answer-IsSound now false cancelled b h = h

release-IsSound : (probe : Bool) (b : Breaker) → IsSound b → IsSound (release probe b)
unfolding release
release-IsSound true b h = record { probed = λ e. cc; few_fails = h.few_fails; watched = h.watched }
release-IsSound false b h = h

-- The loop that returns is not the one that watches an open circuit.
ended-IsSound :
    (gen : ℕ) (b : Breaker)
    → IsSound b
    → (b.phase ≡ tripped → b.generation == gen ≡ false)
    → IsSound (ended gen b)
unfolding ended
ended-IsSound gen b h other = record {
  probed = h.probed;
  few_fails = h.few_fails;
  watched = λ e. rw (h.watched e, other e) refl;
}

outdated-other :
    (gen : ℕ) (b : Breaker)
    → outdated gen b ≡ true
    → b.phase ≡ tripped
    → b.generation == gen ≡ false
outdated-other gen b t e =
    let up : is_tripped b.phase ≡ true = ap is_tripped e in ground (arith, t, up)

ended-half_opened-IsSound :
    (gen : ℕ) (b : Breaker) → IsSound b → IsSound (ended gen (half_opened b))
ended-half_opened-IsSound gen b h =
    ended-IsSound gen (half_opened b) (half_opened-IsSound b h) λ e. cc

ping_check-IsSound :
    (gen now : ℕ) (b : Breaker) → IsSound b → IsSound (leave_check gen (ping_check gen now b))
unfolding ping_check
ping_check-IsSound gen now b h =
    let P = λ (r : PingTurn × Breaker). IsSound (leave_check gen r) in
    if-intro P (outdated gen b) _ _ (λ t. ended-IsSound gen b h (outdated-other gen b t))
      λ _. if-intro P (leb b.open_until now) _ _ (λ _. ended-half_opened-IsSound gen b h) λ _. h

ping_wake-IsSound :
    (gen now : ℕ) (b : Breaker) → IsSound b → IsSound (leave_wake gen (ping_wake gen now b))
unfolding ping_wake
ping_wake-IsSound gen now b h =
    let P = λ (r : Bool × Breaker). IsSound (leave_wake gen r) in
    if-intro P (outdated gen b) _ _ (λ t. ended-IsSound gen b h (outdated-other gen b t))
      λ _. if-intro P (leb b.open_until now) _ _ (λ _. ended-half_opened-IsSound gen b h) λ _. h

ping_answered-IsSound :
    (gen : ℕ) (b : Breaker) → IsSound b → IsSound (ended gen (ping_answered gen b))
unfolding ping_answered close
ping_answered-IsSound gen b h =
    if-intro (λ (c : Breaker). IsSound (ended gen c)) (outdated gen b) _ _
      (λ t. ended-IsSound gen b h (outdated-other gen b t))
      λ _. ended-IsSound gen (close b) (close-IsSound b) λ e. cc

Step-IsSound : {a b : Breaker} → Step a b → IsSound a → IsSound b
unfolding admit
Step-IsSound (admits b now) h = admit_in-IsSound b.phase now b refl h
Step-IsSound (answers b now probe r) h = answer-IsSound now probe r b h
Step-IsSound (releases b probe) h = release-IsSound probe b h
Step-IsSound (checks b gen now) h = ping_check-IsSound gen now b h
Step-IsSound (wakes b gen now) h = ping_wake-IsSound gen now b h
Step-IsSound (hears b gen) h = ping_answered-IsSound gen b h

-- However the locked sections of requests and ping loops follow each other: the flag of a probe in
-- flight is up in a half-open circuit alone, fewer failures than the threshold are counted, and while
-- the circuit is open the ping loop of its generation has not returned.
pub BreakerReach-IsSound : {start b : Breaker} → IsSound start → BreakerReach start b → IsSound b
BreakerReach-IsSound h here = h
BreakerReach-IsSound h (next r st) = Step-IsSound st (BreakerReach-IsSound h r)
