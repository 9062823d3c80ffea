-- ===== src/Breaker.antt =====
-- services/memory_data.py: the circuit breaker before the primary model of the summaries. Times are
-- microseconds of the monotonic clock. Paths are below backend/src/memory_engine.
pub mod Invariant
pub mod Cooldown
mod Tests
use hojo_memory_engine.Prelude.{
  ℕ, zero, suc, ◌+◌, ◌-◌, Bool, true, false, not, ◌||◌, Option, none, some, List, [], ◌∷◌, leb,
  ◌==◌, nat_eq, if◌then◌else◌,
}

pub data Phase : Type 0 where
  closed tripped half_open : Phase

-- The task of a ping loop, by its generation: `finished` once the loop has returned.
pub data ProbeTask : Type 0 where
  no_task : ProbeTask
  running finished : ℕ → ProbeTask

-- The `_SUMMARY_…` globals of the module.
pub record Breaker : Type 0 where
  pub phase : Phase
  pub primary_fails : ℕ
  pub open_until : ℕ
  pub in_flight : Bool
  pub generation : ℕ
  pub probe_task : ProbeTask

abbrev pub fail_threshold : ℕ
fail_threshold = 2

abbrev pub open_time : ℕ
open_time = 300000000

abbrev pub ping_interval : ℕ
ping_interval = 45000000

abbrev pub initial : Breaker
initial = record {
  phase = closed;
  primary_fails = 0;
  open_until = 0;
  in_flight = false;
  generation = 0;
  probe_task = no_task;
}

-- `_close_summary_primary_circuit`.
unfoldable pub close : Breaker → Breaker
close b = record b { phase = closed; primary_fails = 0; open_until = 0; in_flight = false }

-- `_trip_summary_primary_circuit`. The task of an earlier ping loop is cancelled and replaced.
unfoldable pub trip : ℕ → Breaker → Breaker
trip now b = record b {
  phase = tripped;
  primary_fails = 0;
  in_flight = false;
  open_until = now + open_time;
  generation = b.generation + 1;
  probe_task = running (b.generation + 1);
}

-- The cooldown is over.
abbrev pub half_opened : Breaker → Breaker
half_opened b = record b { phase = half_open; in_flight = false }

-- What a request may do: leave the primary alone, call it, or call it as the probe.
pub data Admission : Type 0 where
  skipped called probing : Admission

abbrev pub admit_probe : Breaker → Admission × Breaker
admit_probe b = if b.in_flight then (skipped, b) else (probing, record b { in_flight = true })

abbrev pub admit_in : Phase → ℕ → Breaker → Admission × Breaker
admit_in closed now b = (called, b)
admit_in half_open now b = admit_probe b
admit_in tripped now b = if leb b.open_until now then admit_probe (half_opened b) else (skipped, b)

-- The first locked section of `_try_primary_summary_completion`.
unfoldable pub admit : ℕ → Breaker → Admission × Breaker
admit now b = admit_in b.phase now b

-- How the call ends: a cancellation is no `Exception`.
pub data Reply : Type 0 where
  replied failed cancelled : Reply

abbrev pub count_failure : ℕ → Breaker → Breaker
count_failure now b =
    let b' = record b { primary_fails = b.primary_fails + 1 } in
    if leb fail_threshold b'.primary_fails then trip now b' else b'

-- The second locked section, in the `try` or the `except`; `probe` is `is_half_open_probe`.
unfoldable pub answer : ℕ → Bool → Reply → Breaker → Breaker
unfolding close trip
answer now true replied b = close b
answer now false replied b = record b { primary_fails = 0 }
answer now true failed b = trip now b
answer now false failed b = count_failure now b
answer now probe cancelled b = b

-- The `finally`.
unfoldable pub release : Bool → Breaker → Breaker
release true b = record b { in_flight = false }
release false b = b

-- The first locked section of a turn of `_summary_primary_ping_loop`.
pub data PingTurn : Type 0 where
  stop : PingTurn
  sleep : ℕ → PingTurn

abbrev pub is_tripped : Phase → Bool
is_tripped tripped = true
is_tripped _ = false

abbrev pub outdated : ℕ → Breaker → Bool
outdated gen b = not (gen == b.generation) || not (is_tripped b.phase)

abbrev pub shorter : ℕ → ℕ → ℕ
shorter a b = if leb a b then a else b

unfoldable pub ping_check : ℕ → ℕ → Breaker → PingTurn × Breaker
ping_check gen now b =
    if outdated gen b
    then (stop, b)
    else if leb b.open_until now
    then (stop, half_opened b)
    else (sleep (shorter ping_interval (b.open_until - now)), b)

-- The second one, after the sleep: whether the model is pinged.
unfoldable pub ping_wake : ℕ → ℕ → Breaker → Bool × Breaker
ping_wake gen now b =
    if outdated gen b
    then (false, b)
    else if leb b.open_until now
    then (false, half_opened b)
    else (true, b)

-- The third one, after an answer.
unfoldable pub ping_answered : ℕ → Breaker → Breaker
unfolding close
ping_answered gen b = if outdated gen b then b else close b

-- The loop of a generation returns.
abbrev ended_task : ℕ → ProbeTask → ProbeTask
ended_task gen no_task = no_task
ended_task gen (running g) = if g == gen then finished g else running g
ended_task gen (finished g) = finished g

unfoldable pub ended : ℕ → Breaker → Breaker
ended gen b = record b { probe_task = ended_task gen b.probe_task }

-- The sections with the return that follows them.
abbrev pub leave_check : ℕ → PingTurn × Breaker → Breaker
leave_check gen (stop, b) = ended gen b
leave_check gen (sleep d, b) = b

abbrev pub leave_wake : ℕ → Bool × Breaker → Breaker
leave_wake gen (false, b) = ended gen b
leave_wake gen (true, b) = b

-- What a turn of the loop meets: how late it wakes, how long the ping takes, whether it succeeds.
pub record Ping : Type 0 where
  pub late : ℕ
  pub took : ℕ
  pub answered : Bool

abbrev pub woken : ℕ → Bool → Bool × Breaker → (Breaker → Option Breaker) → Option Breaker
woken gen ok (false, b) again = some b
woken gen true (true, b) again = some (ping_answered gen b)
woken gen false (true, b) again = again b

abbrev pub checked :
    ℕ → ℕ → Ping → PingTurn × Breaker → (ℕ → Breaker → Option Breaker) → Option Breaker
checked gen now p (stop, b) again = some b
checked gen now p (sleep d, b) again =
    let awake = now + d + p.late in
    woken gen p.answered (ping_wake gen awake b) (again (awake + p.took))

-- `_summary_primary_ping_loop` while nothing else happens, for at most `turns` turns, of which
-- `pings` is what they meet.
unfoldable pub ping_loop : ℕ → ℕ → (ℕ → Ping) → ℕ → Breaker → Option Breaker
unfolding ping_check ping_wake ping_answered
ping_loop zero gen pings now b = none
ping_loop (suc turns) gen pings now b =
    checked gen now (pings 0) (ping_check gen now b)
      λ later b'. ping_loop turns gen (λ i. pings (suc i)) later b'
