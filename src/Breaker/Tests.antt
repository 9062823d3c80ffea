-- ===== src/Breaker/Tests.antt =====
-- The circuit breaker of services/memory_data.py from its first failures on.
use hojo_memory_engine.Prelude.{ℕ, ◌≡◌, refl, false, [], ◌∷◌, arith}
use hojo_memory_engine.Breaker.{
  tripped, half_open, finished, leave_check, ended, Breaker, initial, close, trip, skipped, probing,
  admit, failed, answer, release, ping_check, ping_wake, ping_answered, Ping, ping_loop,
}
use hojo_memory_engine.Breaker.Invariant.{IsSound, here, next, answers, BreakerReach-IsSound}
use hojo_memory_engine.Breaker.Cooldown.{
  arrives, checks, wakes, admissions, admissions-one_probe, IsOver, ping_loop-trip,
}

program : Unit {0}
unfolding close trip admit answer release ping_check ping_wake ping_answered ping_loop ended
program = tt

initial-IsSound : IsSound initial
initial-IsSound = record { probed = λ e. cc; few_fails = omega arith; watched = λ e. cc }

-- Two requests fail, five and six microseconds after the start.
abbrev failed_once : Breaker
failed_once = answer 5 false failed initial

abbrev failed_twice : Breaker
failed_twice = answer 6 false failed failed_once

trips : failed_twice ≡ trip 6 (record initial { primary_fails = 2 })
unfolding program
trips = refl

BreakerReach-IsSound_example : IsSound failed_twice
BreakerReach-IsSound_example =
    BreakerReach-IsSound {start = initial} {b = failed_twice} initial-IsSound
      (next (next here (answers initial 5 false failed)) (answers failed_once 6 false failed))

is_tripped_now : failed_twice.phase ≡ tripped
unfolding program
is_tripped_now = refl

until : failed_twice.open_until ≡ 300000006
unfolding program
until = refl

admissions-one_probe_example :
    admissions
      (arrives 7
        ∷ checks 1 45000006
        ∷ arrives 300000006
        ∷ wakes 1 300000007
        ∷ arrives 300000008
        ∷ [])
      failed_twice
    ≡ skipped ∷ probing ∷ skipped ∷ []
admissions-one_probe_example =
    admissions-one_probe failed_twice (arrives 7 ∷ checks 1 45000006 ∷ [])
      (wakes 1 300000007 ∷ arrives 300000008 ∷ []) 300000006 is_tripped_now
      (omega (arith, until), (omega (arith, until), tt)) (omega (arith, until))

-- The loop that half opens the circuit at the end of the cooldown has returned.
half_opens :
    leave_check 1 (ping_check 1 300000006 failed_twice)
    ≡ record failed_twice { phase = half_open; probe_task = finished 1 }
unfolding program
half_opens = refl

abbrev slow : ℕ → Ping
slow turn = record { late = 1; took = 2000000; answered = false }

ping_loop-trip_example : IsOver (ping_loop 8 1 slow 6 (trip 6 initial))
ping_loop-trip_example = ping_loop-trip 6 initial slow
