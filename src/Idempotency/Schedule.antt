-- ===== src/Idempotency/Schedule.antt =====
-- Sequences of calls of the tracker, and how long an identifier lasts through them.
use arbitro.Subject.Match.{bytes_eq_refl}
use arbitro.Wheel.Due.{wait}
use arbitro.Wheel.Firing.{after}
use arbitro.Common.{
  All, Bool-cases, List, [], ap, arith, inl, inr, leb, ltb, not, refl, some, suc, sym, true, ℕ, ◌-◌,
  ◌∙◌, ◌∷◌, ◌≡◌,
}
use arbitro.Subject.{Bytes}
use arbitro.Idempotency.{
  IdempotencyTracker, any_eq, contains_id, contains_in, forget, forget_in, new_tracker, record_id,
  tick, wheel_buckets, window_ticks, with_id,
}
use arbitro.Idempotency.Window.{Remembers, tick-Remembers}
use arbitro.Idempotency.Retention.{
  Apart, new-Remembers, other_recorded, other_updated, record_id_vacant, recorded,
}

pub data Use : Type 0 where
  tick_use : Use
  record_use forget_use : (s h : ℕ) (id : Bytes) (window_ms : ℕ) → Use

pub apply_use : Use → IdempotencyTracker → IdempotencyTracker
apply_use tick_use t = tick t
apply_use (record_use s h id window_ms) t = (record_id t s h id window_ms).0
apply_use (forget_use s h id window_ms) t = forget t s h id

pub run_uses : List Use → IdempotencyTracker → IdempotencyTracker
run_uses [] t = t
run_uses (u ∷ us) t = run_uses us (apply_use u t)

unfoldable pub ticks_in : List Use → ℕ
ticks_in [] = 0
ticks_in (tick_use ∷ us) = suc (ticks_in us)
ticks_in (u ∷ us) = ticks_in us

-- The call is no record or forget of this slot.
unfoldable pub Elsewhere : ℕ → ℕ → Use → Type 0
Elsewhere s h tick_use = Unit
Elsewhere s h (record_use s' h' id window_ms) = Apart s h s' h'
Elsewhere s h (forget_use s' h' id window_ms) = Apart s h s' h'

pub at_count :
    (t : IdempotencyTracker) (s h : ℕ) (id : Bytes) (d e : ℕ)
    → d ≡ e
    → Remembers t s h id d
    → Remembers t s h id e
at_count t s h id d e p r = rw (sym p) r

record_id-elsewhere :
    (t : IdempotencyTracker) (s h s' h' : ℕ) (id id' : Bytes) (d window_ms : ℕ)
    → Apart s h s' h'
    → Remembers t s h id d
    → Remembers (record_id t s' h' id' window_ms).0 s h id d
unfolding record_id
record_id-elsewhere t s h s' h' id id' d window_ms ne r =
    elim (Bool-cases (contains_in id' (t.seen s' h'))) [
      | inl e ↦ rw (e) r
      | inr e ↦ rw (e) (
          other_recorded t s h s' h' id d (window_ticks window_ms)
            (some (with_id (t.seen s' h') id')) ne r)
    ]

run_uses-Remembers :
    (us : List Use) (t : IdempotencyTracker) (s h : ℕ) (id : Bytes) (d : ℕ)
    → All (Elsewhere s h) us
    → Remembers t s h id d
    → Remembers (run_uses us t) s h id (d - ticks_in us)
unfolding run_uses apply_use ticks_in Elsewhere forget
run_uses-Remembers [] t s h id d a r = at_count t s h id d (d - 0) (omega arith) r
run_uses-Remembers (tick_use ∷ us) t s h id d a r =
    at_count (run_uses us (tick t)) s h id (d - 1 - ticks_in us) (d - suc (ticks_in us))
      (omega arith)
      (run_uses-Remembers us (tick t) s h id (d - 1) a.1 (tick-Remembers t s h id d r))
run_uses-Remembers (record_use s' h' id' w ∷ us) t s h id d a r =
    run_uses-Remembers us (record_id t s' h' id' w).0 s h id d a.1
      (record_id-elsewhere t s h s' h' id id' d w a.0 r)
run_uses-Remembers (forget_use s' h' id' w ∷ us) t s h id d a r =
    run_uses-Remembers us (forget t s' h' id') s h id d a.1
      (other_updated t s h s' h' id d (forget_in id' (t.seen s' h')) a.0 r)

pub contains_id-Remembers :
    (t : IdempotencyTracker) (s h : ℕ) (id : Bytes) (d : ℕ)
    → Remembers t s h id d
    → contains_id t s h id ≡ ltb 0 d
unfolding contains_id contains_in any_eq
contains_id-Remembers t s h id d r = rw (r.slot) (ground (arith, bytes_eq_refl id))

record_id-new :
    (t : IdempotencyTracker) (s h : ℕ) (id : Bytes) (window_ms : ℕ)
    → (record_id t s h id window_ms).1 ≡ not (contains_id t s h id)
unfolding record_id contains_id
record_id-new t s h id window_ms = elim (Bool-cases (contains_in id (t.seen s h))) [
  | inl e ↦ rw (e) refl
  | inr e ↦ rw (e) refl
]

pub run_uses-record :
    (us : List Use) (t : IdempotencyTracker) (s h : ℕ) (id : Bytes) (window_ms : ℕ)
    → All (Elsewhere s h) us
    → Remembers t s h id 0
    → Remembers
        (run_uses us (record_id t s h id window_ms).0)
        s
        h
        id
        (wait wheel_buckets (window_ticks window_ms) - ticks_in us)
run_uses-record us t s h id window_ms a r =
    run_uses-Remembers us (record_id t s h id window_ms).0 s h id
      (wait wheel_buckets (window_ticks window_ms)) a
      (rw (record_id_vacant t s h id window_ms r.slot)
        (recorded t s h id (window_ticks window_ms) r))

pub untouched :
    (us : List Use) (s h : ℕ) (id : Bytes)
    → All (Elsewhere s h) us
    → Remembers (run_uses us new_tracker) s h id 0
untouched us s h id a =
    at_count (run_uses us new_tracker) s h id (0 - ticks_in us) 0 (omega arith)
      (run_uses-Remembers us new_tracker s h id 0 a (new-Remembers s h id))

-- An identifier recorded into a slot that nothing else uses, of a tracker made by `new_tracker` and
-- any calls, is accepted; after any further calls that leave the slot alone, the tracker contains it,
-- and refuses to record it again, if and only if there were fewer ticks than the window is worth,
-- which is its seconds, rounded up, but 299 for a longer window and 300 for a window of 0.
pub remembered :
    (before after : List Use) (s h : ℕ) (id : Bytes) (window_ms again_ms : ℕ)
    → All (Elsewhere s h) before
    → All (Elsewhere s h) after
    → ((record_id (run_uses before new_tracker) s h id window_ms).1 ≡ true)
      × (contains_id
            (run_uses after (record_id (run_uses before new_tracker) s h id window_ms).0)
            s
            h
            id
          ≡ ltb (ticks_in after) (wait wheel_buckets (window_ticks window_ms)))
      × ((record_id
            (run_uses after (record_id (run_uses before new_tracker) s h id window_ms).0)
            s
            h
            id
            again_ms).1
          ≡ leb (wait wheel_buckets (window_ticks window_ms)) (ticks_in after))
remembered before after s h id window_ms again_ms b a = (
  record_id-new (run_uses before new_tracker) s h id window_ms
      ∙ ap not (contains_id-Remembers (run_uses before new_tracker) s h id 0 old),
  found,
  record_id-new u s h id again_ms ∙ ap not found ∙ ground arith,
)
  where
    old : Remembers (run_uses before new_tracker) s h id 0
    old = untouched before s h id b

    u : IdempotencyTracker
    u = run_uses after (record_id (run_uses before new_tracker) s h id window_ms).0

    found :
        contains_id u s h id ≡ ltb (ticks_in after) (wait wheel_buckets (window_ticks window_ms))
    found =
        contains_id-Remembers u s h id
          (wait wheel_buckets (window_ticks window_ms) - ticks_in after)
          (run_uses-record after (run_uses before new_tracker) s h id window_ms a old)
        ∙ ground arith
