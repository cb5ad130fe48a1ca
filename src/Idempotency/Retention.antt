-- ===== src/Idempotency/Retention.antt =====
-- What recording and forgetting do to the slot of an identifier and to its wheel entries.
use arbitro.Common.{
  ==_refl, List, Option, [], ap, arith, false, if◌then◌else◌, none, refl, some, true, ℕ, ◌&&◌, ◌+◌,
  ◌<◌, ◌==◌, ◌∙◌, ◌∷◌, ◌≡◌, ◌≤◌,
}
use arbitro.Subject.{Bytes}
use arbitro.Wheel.{TimingWheel, insert_entry, new}
use arbitro.Wheel.Due.{due, due-insert, insert-IsValid, new-IsValid, wait, wait_bounds}
use arbitro.Wheel.Firing.{new_empty, num_buckets-insert}
use arbitro.Idempotency.{
  IdempotencyEntry, IdempotencyTracker, contains_in, fresh_wheel, new_tracker, record_id, update,
  wheel_buckets, window_ticks, with_id,
}
use arbitro.Idempotency.Window.{Remembers, count_key, count_key-append, is_key}

-- Two slots of the map.
unfoldable pub Apart : ℕ → ℕ → ℕ → ℕ → Type 0
Apart s h s' h' = ((s == s') && (h == h')) ≡ false

pub insert-count :
    (t : IdempotencyTracker) (s h : ℕ) (id : Bytes) (d : ℕ) (e : IdempotencyEntry) (delay k : ℕ)
    → Remembers t s h id d
    → 0 < k
    → k ≤ wheel_buckets
    → count_key s h (due (insert_entry t.wheel e delay) k)
      ≡ (if k == d then 1 else 0)
        + (if k == wait wheel_buckets delay then count_key s h (e ∷ []) else 0)
insert-count t s h id d e delay k r p l = ground (
  arith,
  ap (count_key s h) (due-insert t.wheel e delay k r.valid p (omega (arith, r.size))),
  count_key-append s h (due t.wheel k) (e ∷ []),
  r.scheduled k p l,
  r.size,
)

pub fresh_wheel_lem :
    (w : TimingWheel IdempotencyEntry) → new wheel_buckets ≡ some w → new_tracker.wheel ≡ w
unfolding new_tracker fresh_wheel
fresh_wheel_lem w e = ap fresh_wheel e

-- A new tracker knows nothing.
pub new-Remembers : (s h : ℕ) (id : Bytes) → Remembers new_tracker s h id 0
unfolding count_key
new-Remembers s h id =
    let (w, made, size, empty) = new_empty {T = IdempotencyEntry} wheel_buckets (omega arith) in
    record {
      valid = rw (fresh_wheel_lem w made) (new-IsValid wheel_buckets w made);
      size = ap (λ v. v.num_buckets) (fresh_wheel_lem w made) ∙ size;
      near = omega arith;
      slot = unfold new_tracker in refl;
      scheduled = λ k p l. ground (arith, fresh_wheel_lem w made, empty k);
    }

-- Recording into an empty slot.
pub record_id_vacant :
    (t : IdempotencyTracker) (s h : ℕ) (id : Bytes) (window_ms : ℕ)
    → t.seen s h ≡ none
    → record_id t s h id window_ms ≡ (
      record t {
        seen = update t.seen s h (some (id ∷ []));
        wheel =
            insert_entry t.wheel
              (record { stream_id = s; msg_id_hash = h })
              (window_ticks window_ms);
      },
      true,
    )
unfolding record_id contains_in with_id
record_id_vacant t s h id window_ms e = rw (e) refl

pub recorded :
    (t : IdempotencyTracker) (s h : ℕ) (id : Bytes) (ticks : ℕ)
    → Remembers t s h id 0
    → Remembers
        (record t {
          seen = update t.seen s h (some (id ∷ []));
          wheel = insert_entry t.wheel (record { stream_id = s; msg_id_hash = h }) ticks;
        })
        s
        h
        id
        (wait wheel_buckets ticks)
unfolding update count_key is_key
recorded t s h id ticks r = record {
  valid = insert-IsValid t.wheel (record { stream_id = s; msg_id_hash = h }) ticks r.valid;
  size = num_buckets-insert t.wheel (record { stream_id = s; msg_id_hash = h }) ticks ∙ r.size;
  near = (wait_bounds wheel_buckets ticks (omega arith)).1;
  slot = ground (arith, ==_refl s, ==_refl h, wait_bounds wheel_buckets ticks);
  scheduled = λ k p l. ground (
    arith,
    ==_refl s,
    ==_refl h,
    insert-count t s h id 0 (record { stream_id = s; msg_id_hash = h }) ticks k r p l,
  );
}

pub other_recorded :
    (t : IdempotencyTracker) (s h s' h' : ℕ) (id : Bytes) (d ticks : ℕ) (ids : Option (List Bytes))
    → Apart s h s' h'
    → Remembers t s h id d
    → Remembers
        (record t {
          seen = update t.seen s' h' ids;
          wheel = insert_entry t.wheel (record { stream_id = s'; msg_id_hash = h' }) ticks;
        })
        s
        h
        id
        d
unfolding update count_key is_key Apart
other_recorded t s h s' h' id d ticks ids ne r = record {
  valid = insert-IsValid t.wheel (record { stream_id = s'; msg_id_hash = h' }) ticks r.valid;
  size = num_buckets-insert t.wheel (record { stream_id = s'; msg_id_hash = h' }) ticks ∙ r.size;
  near = r.near;
  slot = rw (ne) r.slot;
  scheduled = λ k p l. ground (
    arith,
    ne,
    insert-count t s h id d (record { stream_id = s'; msg_id_hash = h' }) ticks k r p l,
  );
}

pub other_updated :
    (t : IdempotencyTracker) (s h s' h' : ℕ) (id : Bytes) (d : ℕ) (ids : Option (List Bytes))
    → Apart s h s' h'
    → Remembers t s h id d
    → Remembers (record t { seen = update t.seen s' h' ids }) s h id d
unfolding update Apart
other_updated t s h s' h' id d ids ne r = record {
  valid = r.valid;
  size = r.size;
  near = r.near;
  slot = rw (ne) r.slot;
  scheduled = r.scheduled;
}
