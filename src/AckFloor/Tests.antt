-- ===== src/AckFloor/Tests.antt =====
-- The floor at concrete acknowledgements.
use arbitro.Common.{
  All, List, [], arith, contains, insert, none, refl, some, split_off, true, ℕ, ◌+◌, ◌∷◌, ◌≡◌, ◌≤◌,
  ◌⊎◌,
}
use arbitro.AckFloor.{
  AckFloors, Event, absorb, acked, default, record_seq, run, seed_slot, seeded, step,
}
use arbitro.AckFloor.Bounds.{InRange}
use arbitro.AckFloor.Contiguous.{Settled, run-floor_exact, run-floor_sound}

-- 3 and 1, a start position at 1, then 2: everything up to 3; and 7.
abbrev events : List Event
events = acked 3 ∷ acked 1 ∷ seeded 1 ∷ acked 7 ∷ acked 2 ∷ []

events-InRange : All InRange events
events-InRange = (omega arith, (omega arith, (omega arith, (omega arith, (omega arith, tt)))))

run-events : run default events ≡ record { floor = 3; ooo = 7 ∷ [] }
unfolding run step record_seq seed_slot absorb insert split_off
run-events = refl

run-floor_sound_example :
    ((q : ℕ) → q ≤ (run default events).floor → (q ≡ 0) ⊎ Settled q events)
    × ((q : ℕ) → contains q (run default events).ooo ≡ true → (q ≡ 0) ⊎ Settled q events)
run-floor_sound_example = run-floor_sound events

run-floor_exact_example :
    (¬ Settled ((run default events).floor + 1) events)
    × ((q : ℕ)
        → Settled q events
        → (q ≤ (run default events).floor) ⊎ (contains q (run default events).ooo ≡ true))
run-floor_exact_example = run-floor_exact events events-InRange (omega arith)

abbrev table : AckFloors
table = none ∷ some (record { floor = 4; ooo = 6 ∷ [] }) ∷ []
