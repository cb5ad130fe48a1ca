-- ===== src/Idempotency/Tests.antt =====
-- The tracker at concrete calls.
use arbitro.Common.Word.{add_u64}
use arbitro.Common.{All, List, [], arith, false, leb, ltb, refl, some, true, ◌%◌, ◌/◌, ◌∷◌, ◌≡◌}
use arbitro.Subject.{Bytes}
use arbitro.Wheel.Due.{wait}
use arbitro.Idempotency.Phantom.{forget-record_id}
use arbitro.Idempotency.Retention.{Apart}
use arbitro.Idempotency.{
  advance_by_ms, contains_id, forget, new_tracker, record_id, tick_ms, wheel_buckets, window_ticks,
}
use arbitro.Idempotency.Clock.{advance_by_ms-ticks, ticks_of}
use arbitro.Idempotency.Schedule.{
  Elsewhere, Use, record_use, remembered, run_uses, tick_use, ticks_in,
}

abbrev id_a : Bytes
id_a = b'a' ∷ []

abbrev before : List Use
before = tick_use ∷ record_use 1 9 id_a 5000 ∷ []

-- Two ticks, and a record of another slot.
abbrev after : List Use
after = tick_use ∷ record_use 2 7 id_a 3000 ∷ tick_use ∷ []

before-Elsewhere : All (Elsewhere 1 7) before
unfolding Elsewhere Apart
before-Elsewhere = (tt, (refl, tt))

after-Elsewhere : All (Elsewhere 1 7) after
unfolding Elsewhere Apart
after-Elsewhere = (tt, (refl, (tt, tt)))

window_ticks_values : (window_ticks 2500 ≡ 3) × (window_ticks 400000 ≡ 300) × (window_ticks 0 ≡ 0)
unfolding window_ticks
window_ticks_values = (refl, refl, refl)

remembered_example :
    ((record_id (run_uses before new_tracker) 1 7 id_a 3000).1 ≡ true)
    × (contains_id
          (run_uses after (record_id (run_uses before new_tracker) 1 7 id_a 3000).0)
          1
          7
          id_a
        ≡ ltb (ticks_in after) (wait wheel_buckets (window_ticks 3000)))
    × ((record_id
          (run_uses after (record_id (run_uses before new_tracker) 1 7 id_a 3000).0)
          1
          7
          id_a
          3000).1
        ≡ leb (wait wheel_buckets (window_ticks 3000)) (ticks_in after))
remembered_example = remembered before after 1 7 id_a 3000 3000 before-Elsewhere after-Elsewhere

-- Two ticks after the first record, the first window of three has one tick left.
forget-record_id_example :
    contains_id
      (ticks_of 1
        (record_id
          (forget
            (run_uses after (record_id (run_uses before new_tracker) 1 7 id_a 3000).0)
            1
            7
            id_a)
          1
          7
          id_a
          60000).0)
      1
      7
      id_a
    ≡ false
unfolding ticks_in window_ticks
forget-record_id_example =
    forget-record_id before after 1 7 id_a 3000 60000 1 before-Elsewhere after-Elsewhere
      (omega arith) (unfold wait in refl) (unfold wait in omega arith)

advance_by_ms-ticks_example :
    advance_by_ms new_tracker 2500
    ≡ some (record (ticks_of ((add_u64 new_tracker.pending_ms 2500) / tick_ms) new_tracker) {
      pending_ms = (add_u64 new_tracker.pending_ms 2500) % tick_ms;
    })
advance_by_ms-ticks_example = advance_by_ms-ticks new_tracker 2500
