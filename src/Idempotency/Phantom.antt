-- ===== src/Idempotency/Phantom.antt =====
-- What an identifier's leftover wheel entry does after `forget` and a second `record`.
use arbitro.Subject.Match.{bytes_eq_refl}
use arbitro.Idempotency.Retention.{insert-count, record_id_vacant}
use arbitro.Wheel.{advance}
use arbitro.Wheel.Firing.{after, num_buckets-advance, num_buckets-insert}
use arbitro.Idempotency.Clock.{ticks_of}
use arbitro.Idempotency.Schedule.{
  Elsewhere, Use, at_count, run_uses, run_uses-record, ticks_in, untouched,
}
use arbitro.Common.{
  ==_refl, All, List, Option, [], ap, arith, false, if◌then◌else◌, none, refl, some, suc, zero, ℕ,
  ◌+◌, ◌-◌, ◌<◌, ◌==◌, ◌∙◌, ◌∷◌, ◌≡◌, ◌≤◌,
}
use arbitro.Subject.{Bytes}
use arbitro.Wheel.Due.{IsValid, advance-IsValid, due, due-advance, insert-IsValid, wait}
use arbitro.Idempotency.{
  IdempotencyEntry, IdempotencyTracker, contains_id, contains_in, forget, forget_in, kept,
  new_tracker, pop_id, record_id, tick, update, wheel_buckets, window_ticks, without,
}
use arbitro.Idempotency.Window.{Remembers, count_key, expire-pops, is_key, pops}

-- The identifier is alone in its slot, and leaves it in `d` ticks.
record Leaves (t : IdempotencyTracker) (s h : ℕ) (id : Bytes) (d : ℕ) : Type 0 where
  valid : IsValid t.wheel
  size : t.wheel.num_buckets ≡ wheel_buckets
  near : d ≤ wheel_buckets
  slot : t.seen s h ≡ (if d == 0 then none else some (id ∷ []))
  waits : (k : ℕ) → 0 < k → k < d → count_key s h (due t.wheel k) ≡ 0
  fires : 0 < d → 0 < count_key s h (due t.wheel d)

pops-none : (n : ℕ) → pops n none ≡ none
unfolding pops pop_id
pops-none zero = refl
pops-none (suc n) = pops-none n

pops-some : (n : ℕ) (id : Bytes) → pops (suc n) (some (id ∷ [])) ≡ none
unfolding pops pop_id kept
pops-some n id = pops-none n

popped_slot :
    (n : ℕ) (o : Option (List Bytes)) (id : Bytes)
    → o ≡ some (id ∷ [])
    → pops n o ≡ (if n == 0 then some (id ∷ []) else none)
popped_slot zero o id e = unfold pops in e
popped_slot (suc n) o id e = ap (pops (suc n)) e ∙ pops-some n id ∙ ground arith

tick-Leaves :
    (t : IdempotencyTracker) (s h : ℕ) (id : Bytes) (d : ℕ)
    → Leaves t s h id (suc d)
    → Leaves (tick t) s h id d
unfolding tick count_key
tick-Leaves t s h id d r = record {
  valid = advance-IsValid t.wheel r.valid;
  size = num_buckets-advance t.wheel ∙ r.size;
  near = omega (arith, r.near);
  slot =
      expire-pops (advance t.wheel).1 t.seen s h
      ∙ popped_slot (count_key s h (advance t.wheel).1) (t.seen s h) id (r.slot ∙ ground arith)
      ∙ ground (
        arith,
        ap (count_key s h) (due-advance t.wheel 1 r.valid (omega arith) (omega (arith, r.size))).0,
        r.waits 1 (omega arith),
        r.fires,
      );
  waits = λ k p l. ground (
    arith,
    ap (count_key s h) (due-advance t.wheel k r.valid p (omega (arith, r.size, r.near))).1,
    r.waits (k + 1) (omega arith),
    r.size,
    r.near,
  );
  fires = λ p. ground (
    arith,
    ap (count_key s h) (due-advance t.wheel d r.valid p (omega (arith, r.size, r.near))).1,
    r.fires,
    r.size,
    r.near,
  );
}

ticks_of-Leaves :
    (t : IdempotencyTracker) (s h : ℕ) (id : Bytes) (d : ℕ)
    → Leaves t s h id d
    → contains_id (ticks_of d t) s h id ≡ false
unfolding ticks_of contains_id contains_in
ticks_of-Leaves t s h id zero r = rw (r.slot) refl
ticks_of-Leaves t s h id (suc d) r = ticks_of-Leaves (tick t) s h id d (tick-Leaves t s h id d r)

held :
    (t : IdempotencyTracker) (s h : ℕ) (id : Bytes) (d : ℕ)
    → Remembers t s h id d
    → 0 < d
    → t.seen s h ≡ some (id ∷ [])
held t s h id d r p = r.slot ∙ ground arith

forgotten :
    (t : IdempotencyTracker) (s h : ℕ) (id : Bytes) (d : ℕ)
    → Remembers t s h id d
    → 0 < d
    → (forget t s h id).seen s h ≡ none
unfolding forget update forget_in without kept
forgotten t s h id d r p = rw (==_refl s, ==_refl h, held t s h id d r p, bytes_eq_refl id) refl

rerecorded :
    (t : IdempotencyTracker) (s h : ℕ) (id : Bytes) (d window_ms : ℕ)
    → 0 < d
    → d < wait wheel_buckets (window_ticks window_ms)
    → Remembers t s h id d
    → Leaves (record_id (forget t s h id) s h id window_ms).0 s h id d
unfolding update count_key is_key forget
rerecorded t s h id d window_ms p l r =
    rw (record_id_vacant (forget t s h id) s h id window_ms (forgotten t s h id d r p)) record {
      valid = insert-IsValid t.wheel e ticks r.valid;
      size = num_buckets-insert t.wheel e ticks ∙ r.size;
      near = r.near;
      slot = ground (arith, ==_refl s, ==_refl h);
      waits =
          λ k q m. ground (arith, insert-count t s h id d e ticks k r q (omega (arith, r.near)));
      fires = λ q. ground (arith, insert-count t s h id d e ticks d r q r.near);
    }
  where
    ticks : ℕ
    ticks = window_ticks window_ms

    e : IdempotencyEntry
    e = record { stream_id = s; msg_id_hash = h }

-- The wheel entry that `forget` leaves behind ends a later record of the identifier: recorded,
-- forgotten and recorded again with a window that ends after the first, the identifier is dropped
-- when the first window ends.
pub forget-record_id :
    (before after : List Use) (s h : ℕ) (id : Bytes) (first_ms second_ms d : ℕ)
    → All (Elsewhere s h) before
    → All (Elsewhere s h) after
    → 0 < d
    → ticks_in after + d ≡ wait wheel_buckets (window_ticks first_ms)
    → d < wait wheel_buckets (window_ticks second_ms)
    → contains_id
        (ticks_of d
          (record_id
            (forget
              (run_uses after (record_id (run_uses before new_tracker) s h id first_ms).0)
              s
              h
              id)
            s
            h
            id
            second_ms).0)
        s
        h
        id
      ≡ false
forget-record_id before after s h id first_ms second_ms d b a p e l =
    ticks_of-Leaves (record_id (forget t s h id) s h id second_ms).0 s h id d (
      rerecorded t s h id d second_ms p l (
        at_count t s h id (wait wheel_buckets (window_ticks first_ms) - ticks_in after) d
          (omega (arith, e))
          (run_uses-record after (run_uses before new_tracker) s h id first_ms a
            (untouched before s h id b))))
  where
    t : IdempotencyTracker
    t = run_uses after (record_id (run_uses before new_tracker) s h id first_ms).0
