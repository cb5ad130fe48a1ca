-- ===== src/AckFloor/Bounds.antt =====
-- The well-formedness of a slot of crates/arbitro-server/src/shard/ack_floor.rs.
use arbitro.Common.{
  ℕ, suc, ◌+◌, ◌≤◌, ◌<◌, List, [], ◌∷◌, arith, length, Ascending, Ascending-insert, Ascending-mono,
  split_off, split_off-Ascending, length-insert-le, length-split_off-le, All, All-insert,
  All-split_off,
}
use arbitro.Common.Word.{u64_mod}
use arbitro.AckFloor.{
  FloorSlot, ooo_cap, default, absorb, record_seq, seed_slot, Event, acked, seeded, step, run,
}

-- The out-of-order set ascends strictly, lies beyond the gap at `floor + 1`, and is bounded; the
-- numbers are 64-bit words.
pub record IsValid (s : FloorSlot) : Type 0 where
  pub floor_fits : s.floor < u64_mod
  pub beyond_gap : Ascending (s.floor + 2) s.ooo
  pub bounded : length s.ooo ≤ ooo_cap
  pub ooo_fits : All (λ x. x < u64_mod) s.ooo

-- A sequence number is a `u64`; a start position leaves room for the number after it.
abbrev pub InRange : Event → Type 0
InRange (acked seq) = seq < u64_mod
InRange (seeded floor) = floor + 1 < u64_mod

pub default-IsValid : IsValid default
default-IsValid = omega arith

absorb-IsValid :
    (floor : ℕ) (ooo : List ℕ)
    → Ascending (floor + 1) ooo
    → length ooo ≤ ooo_cap
    → All (λ x. x < u64_mod) ooo
    → floor < u64_mod
    → IsValid (absorb floor ooo)
unfolding absorb
absorb-IsValid floor [] s l f h = omega arith
absorb-IsValid floor (x ∷ xs) s l f h = ground (
  arith,
  absorb-IsValid x xs (Ascending-mono xs (omega arith) s.1) (omega arith) f.1 f.0,
  Ascending-mono {m = x} {n = suc x} xs,
)

record_seq-IsValid :
    (s : FloorSlot) (seq : ℕ) → seq < u64_mod → IsValid s → IsValid (record_seq s seq)
unfolding record_seq
record_seq-IsValid s seq h v = ground (
  arith,
  absorb-IsValid seq s.ooo,
  Ascending-mono {m = seq + 1} {n = s.floor + 2} s.ooo,
  Ascending-insert (s.floor + 2) seq s.ooo,
  length-insert-le seq s.ooo,
  All-insert (λ x. x < u64_mod) seq s.ooo h v.ooo_fits,
)

seed_slot-IsValid :
    (s : FloorSlot) (floor : ℕ) → floor + 1 < u64_mod → IsValid s → IsValid (seed_slot s floor)
unfolding seed_slot
seed_slot-IsValid s floor h v = ground (
  arith,
  absorb-IsValid floor (split_off (floor + 1) s.ooo)
      (split_off-Ascending (s.floor + 2) (floor + 1) s.ooo v.beyond_gap),
  length-split_off-le (floor + 1) s.ooo,
  All-split_off (λ x. x < u64_mod) (floor + 1) s.ooo v.ooo_fits,
)

pub step-IsValid : (s : FloorSlot) (e : Event) → InRange e → IsValid s → IsValid (step s e)
unfolding step
step-IsValid s (acked seq) h v = record_seq-IsValid s seq h v
step-IsValid s (seeded floor) h v = seed_slot-IsValid s floor h v

-- After any events in range, the slot of a new consumer is well formed: the out-of-order set
-- ascends strictly, lies beyond `floor + 1`, and holds at most 1024 numbers.
pub run-IsValid :
    (es : List Event) (s : FloorSlot) → All InRange es → IsValid s → IsValid (run s es)
unfolding run
run-IsValid [] s h v = v
run-IsValid (e ∷ es) s h v = run-IsValid es (step s e) h.1 (step-IsValid s e h.0 v)
