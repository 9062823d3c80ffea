-- ===== src/Breaker/Cooldown.antt =====
-- How the circuit of services/memory_data.py recovers.
use hojo_memory_engine.Prelude.{
  ℕ, zero, suc, ◌+◌, ◌-◌, ◌*◌, ◌≤◌, ◌<◌, ◌≡◌, ◌≢◌, refl, ap, ◌∙◌, Bool, true, false, Option, some,
  List, [], ◌∷◌, ◌++◌, All, arith, leb, nat_eq, inl, inr, Bool-cases, if-intro,
}
use hojo_memory_engine.Breaker.{
  Phase, closed, tripped, half_open, Breaker, ping_interval, trip, close, half_opened, Admission,
  skipped, probing, admit_in, admit, PingTurn, stop, sleep, outdated, shorter, ping_check,
  ping_wake, ping_answered, Ping, woken, ping_loop,
}

-- Requests that arrive, and the first two sections of the turns of ping loops of any generation. Ends
-- of requests and answered pings are no events here.
pub data Event : Type 0 where
  arrives : ℕ → Event
  checks wakes : ℕ → ℕ → Event

abbrev pub time_of : Event → ℕ
time_of (arrives now) = now
time_of (checks gen now) = now
time_of (wakes gen now) = now

abbrev pub admissions : List Event → Breaker → List Admission
admissions [] b = []
admissions (arrives now ∷ later) b = let (a, b') = admit now b in a ∷ admissions later b'
admissions (checks gen now ∷ later) b = admissions later (ping_check gen now b).1
admissions (wakes gen now ∷ later) b = admissions later (ping_wake gen now b).1

-- The requests among the events leave the primary model alone.
abbrev pub all_skipped : List Event → List Admission
all_skipped [] = []
all_skipped (arrives now ∷ later) = skipped ∷ all_skipped later
all_skipped (checks gen now ∷ later) = all_skipped later
all_skipped (wakes gen now ∷ later) = all_skipped later

admit_busy :
    (p : Phase) (t : ℕ) (b : Breaker)
    → p ≡ half_open
    → b.in_flight ≡ true
    → admit_in p t b ≡ (skipped, b)
admit_busy closed t b e f = cc
admit_busy tripped t b e f = cc
admit_busy half_open t b e f =
    if-intro (λ (r : Admission × Breaker). r ≡ (skipped, b)) b.in_flight _ _ (λ _. refl) λ n. cc

admit_cooling :
    (p : Phase) (t : ℕ) (b : Breaker)
    → p ≡ tripped
    → t < b.open_until
    → admit_in p t b ≡ (skipped, b)
admit_cooling closed t b e early = cc
admit_cooling half_open t b e early = cc
admit_cooling tripped t b e early =
    if-intro (λ (r : Admission × Breaker). r ≡ (skipped, b)) (leb b.open_until t) _ _
      (λ n. absurd (ground arith)) λ _. refl

abbrev with_probe : Breaker → Breaker
with_probe b = record (half_opened b) { in_flight = true }

admit_first :
    (p : Phase) (t : ℕ) (b : Breaker)
    → p ≡ tripped
    → b.open_until ≤ t
    → admit_in p t b ≡ (probing, with_probe b)
admit_first closed t b e late = cc
admit_first half_open t b e late = cc
admit_first tripped t b e late =
    if-intro (λ (r : Admission × Breaker). r ≡ (probing, with_probe b)) (leb b.open_until t) _ _
      (λ _. refl) λ n. absurd (ground arith)

-- Ping loops leave a circuit alone that is not open, or that cools down.
idle : (gen : ℕ) (b : Breaker) → b.phase ≡ half_open → outdated gen b ≡ true
idle gen b e = rw e (ground arith)

check_idle : (gen now : ℕ) (b : Breaker) → b.phase ≡ half_open → (ping_check gen now b).1 ≡ b
unfolding ping_check
check_idle gen now b e = rw (idle gen b e) refl

wake_idle : (gen now : ℕ) (b : Breaker) → b.phase ≡ half_open → (ping_wake gen now b).1 ≡ b
unfolding ping_wake
wake_idle gen now b e = rw (idle gen b e) refl

check_cooling : (gen now : ℕ) (b : Breaker) → now < b.open_until → (ping_check gen now b).1 ≡ b
unfolding ping_check
check_cooling gen now b early =
    let soon : leb b.open_until now ≡ false = ground arith in
    if-intro (λ (r : PingTurn × Breaker). r.1 ≡ b) (outdated gen b) _ _ (λ _. refl)
      λ _. rw soon refl

wake_cooling : (gen now : ℕ) (b : Breaker) → now < b.open_until → (ping_wake gen now b).1 ≡ b
unfolding ping_wake
wake_cooling gen now b early =
    let soon : leb b.open_until now ≡ false = ground arith in
    if-intro (λ (r : Bool × Breaker). r.1 ≡ b) (outdated gen b) _ _ (λ _. refl) λ _. rw soon refl

busy_skips :
    (es : List Event) (b : Breaker)
    → b.phase ≡ half_open
    → b.in_flight ≡ true
    → admissions es b ≡ all_skipped es
unfolding admit
busy_skips [] b e f = refl
busy_skips (arrives t ∷ es) b e f =
    rw (admit_busy b.phase t b e f) (ap (λ l. skipped ∷ l) (busy_skips es b e f))
busy_skips (checks gen t ∷ es) b e f = rw (check_idle gen t b e) (busy_skips es b e f)
busy_skips (wakes gen t ∷ es) b e f = rw (wake_idle gen t b e) (busy_skips es b e f)

-- While no request ends and no ping is answered: requests that arrive at a tripped circuit before the
-- end of its cooldown leave the primary model alone. Where a request is the first event after the
-- cooldown, it is the probe, and all requests after it leave the model alone too. Unanswered turns of
-- ping loops, of any generation, change nothing of this.
pub admissions-one_probe :
    (b : Breaker) (before after : List Event) (t : ℕ)
    → b.phase ≡ tripped
    → All (λ e. time_of e < b.open_until) before
    → b.open_until ≤ t
    → admissions (before ++ arrives t ∷ after) b ≡ all_skipped before ++ probing ∷ all_skipped after
unfolding admit
admissions-one_probe b [] after t e early late =
    rw (admit_first b.phase t b e late)
      (ap (λ l. probing ∷ l) (busy_skips after (with_probe b) refl refl))
admissions-one_probe b (arrives u ∷ before) after t e early late =
    rw (admit_cooling b.phase u b e early.0)
      (ap (λ l. skipped ∷ l) (admissions-one_probe b before after t e early.1 late))
admissions-one_probe b (checks gen u ∷ before) after t e early late =
    ap (admissions (before ++ arrives t ∷ after)) (check_cooling gen u b early.0)
    ∙ admissions-one_probe b before after t e early.1 late
admissions-one_probe b (wakes gen u ∷ before) after t e early late =
    ap (admissions (before ++ arrives t ∷ after)) (wake_cooling gen u b early.0)
    ∙ admissions-one_probe b before after t e early.1 late

-- A turn of the ping loop before the end of the cooldown.
abbrev pub IsOver : Option Breaker → Type 0
IsOver o = (b : Breaker) × (o ≡ some b) × (b.phase ≢ tripped)

module _ (gen : ℕ) (b : Breaker) (same : gen ≡ b.generation) (open_phase : b.phase ≡ tripped) where
  current : outdated gen b ≡ false
  current = rw open_phase (ground (arith, same))

  -- The cooldown is over.
  check_over : (now : ℕ) → b.open_until ≤ now → ping_check gen now b ≡ (stop, half_opened b)
  unfolding ping_check
  check_over now late =
      let over : leb b.open_until now ≡ true = ground arith in rw (current, over) refl

  check_sleeps :
      (now : ℕ)
      → now < b.open_until
      → ping_check gen now b ≡ (sleep (shorter ping_interval (b.open_until - now)), b)
  unfolding ping_check
  check_sleeps now early =
      let soon : leb b.open_until now ≡ false = ground arith in rw (current, soon) refl

  wake_over : (now : ℕ) → b.open_until ≤ now → ping_wake gen now b ≡ (false, half_opened b)
  unfolding ping_wake
  wake_over now late =
      let over : leb b.open_until now ≡ true = ground arith in rw (current, over) refl

  wake_pings : (now : ℕ) → now < b.open_until → ping_wake gen now b ≡ (true, b)
  unfolding ping_wake
  wake_pings now early =
      let soon : leb b.open_until now ≡ false = ground arith in rw (current, soon) refl

  answered_closes : ping_answered gen b ≡ close b
  unfolding ping_answered
  answered_closes = rw current refl

-- The loop ends or goes on with another turn.
after_wake :
    (gen : ℕ) (b : Breaker)
    → gen ≡ b.generation
    → b.phase ≡ tripped
    → (awake : ℕ) (ok : Bool) (again : Breaker → Option Breaker)
    → (awake < b.open_until → IsOver (again b))
    → IsOver (woken gen ok (ping_wake gen awake b) again)
unfolding close
after_wake gen b same e awake ok again rest = elim (Bool-cases (leb b.open_until awake)) [
  | inl t ↦
      let late : b.open_until ≤ awake = ground arith in
      rw (wake_over gen b same e awake late) (half_opened b, refl, λ n. cc)
  | inr t ↦
      let early : awake < b.open_until = ground arith in
      rw (wake_pings gen b same e awake early) (pinged ok early)
]
  where
    pinged : (ok : Bool) → awake < b.open_until → IsOver (woken gen ok (true, b) again)
    pinged true early = (ping_answered gen b, refl, rw (answered_closes gen b same e) (λ n. cc))
    pinged false early = rest early

-- Enough turns for the time that is left of the cooldown end the loop.
ping_loop-ends :
    (turns gen : ℕ) (pings : ℕ → Ping) (now : ℕ) (b : Breaker)
    → gen ≡ b.generation
    → b.phase ≡ tripped
    → b.open_until ≤ now + turns * ping_interval
    → IsOver (ping_loop (suc turns) gen pings now b)
unfolding ping_loop
ping_loop-ends zero gen pings now b same e left =
    rw (check_over gen b same e now (omega arith)) (half_opened b, refl, λ n. cc)
ping_loop-ends (suc n) gen pings now b same e left = elim (Bool-cases (leb b.open_until now)) [
  | inl t ↦
      let late : b.open_until ≤ now = ground arith in
      rw (check_over gen b same e now late) (half_opened b, refl, λ n. cc)
  | inr t ↦
      let early : now < b.open_until = ground arith in
      let awake = now + shorter ping_interval (b.open_until - now) + (pings 0).late in
      rw (check_sleeps gen b same e now early) (
        after_wake gen b same e awake (pings 0).answered
          (λ b'. ping_loop (suc n) gen (λ i. pings (suc i)) (awake + (pings 0).took) b')
          λ soon.
            ping_loop-ends n gen (λ i. pings (suc i)) (awake + (pings 0).took) b same e
              (ground (arith, soon)))
]

-- After a trip, the ping loop that it starts ends within eight turns, however late it wakes, however
-- long the pings take and whatever they answer, if nothing else happens: the circuit is then closed
-- or half open.
pub ping_loop-trip :
    (started : ℕ) (b : Breaker) (pings : ℕ → Ping)
    → IsOver (ping_loop 8 (b.generation + 1) pings started (trip started b))
unfolding trip
ping_loop-trip started b pings =
    ping_loop-ends 7 (b.generation + 1) pings started (trip started b) refl refl (omega arith)
