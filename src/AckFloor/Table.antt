-- ===== src/AckFloor/Table.antt =====
-- The slots of all consumers, and the calls that change them.
use native.Mathlib.Decide.{ℕ_discrete, dec_lt}
use arbitro.Common.{
  ==_refl, ap, arith, get_or, get_or-pad, get_or-set_ne, get_or-set_self, get_or_above,
  if◌then◌else◌, length, length-pad, length-set, none, set, some, ℕ, ◌+◌, ◌-◌, ◌<◌, ◌==◌, ◌∙◌, ◌≡◌,
}
use arbitro.AckFloor.{
  AckFloors, FloorSlot, default, floor, or_default, record_acked, record_seq, remove_slot, resize,
  seed, seed_slot,
}

pub slot : AckFloors → ℕ → FloorSlot
slot slots idx = or_default (get_or slots idx none)

floor-slot : (slots : AckFloors) (idx : ℕ) → floor slots idx ≡ (slot slots idx).floor
unfolding floor slot or_default
floor-slot slots idx = ground arith

get_or-resize :
    (slots : AckFloors) (idx i : ℕ) → get_or (resize slots idx) i none ≡ get_or slots i none
unfolding resize
get_or-resize slots idx i = ground (arith, get_or-pad slots (idx + 1 - length slots) i none)

lt-length-resize : (slots : AckFloors) (idx : ℕ) → idx < length (resize slots idx)
unfolding resize
lt-length-resize slots idx = ground (arith, length-pad slots (idx + 1 - length slots) none)

get_or-set-resize :
    (slots : AckFloors) (idx i : ℕ) (s : FloorSlot)
    → get_or (set (resize slots idx) idx (some s)) i none
      ≡ (if i == idx then some s else get_or slots i none)
get_or-set-resize slots idx i s = elim (ℕ_discrete idx i) [
  | yes e ↦
      ground
        (arith, get_or-set_self (resize slots idx) idx (some s) none (lt-length-resize slots idx))
  | no ne ↦
      ground
        (arith, get_or-set_ne (resize slots idx) idx i (some s) none ne, get_or-resize slots idx i)
]

-- A call on the table.
pub data Call : Type 0 where
  record_acked_for : ℕ → ℕ → Call
  seed_for : ℕ → ℕ → Call
  remove_for : ℕ → Call

pub perform : AckFloors → Call → AckFloors
perform slots (record_acked_for idx seq) = record_acked slots idx seq
perform slots (seed_for idx floor) = seed slots idx floor
perform slots (remove_for idx) = remove_slot slots idx

-- What a call means for the slot of consumer `i`.
pub effect : ℕ → Call → FloorSlot → FloorSlot
effect i (record_acked_for idx seq) s = if i == idx then record_seq s seq else s
effect i (seed_for idx floor) s = if i == idx then seed_slot s floor else s
effect i (remove_for idx) s = if i == idx then default else s

slot-remove :
    (slots : AckFloors) (idx i : ℕ)
    → slot (remove_slot slots idx) i ≡ (if i == idx then default else slot slots i)
unfolding slot remove_slot or_default
slot-remove slots idx i = elim (ℕ_discrete idx i) [
  | yes e ↦ elim (dec_lt idx (length slots)) [
    | yes l ↦ ground (arith, get_or-set_self slots idx none none l)
    | no l ↦
        ground
          (arith, get_or_above (set slots idx none) i none, length-set slots idx none, ==_refl i)
  ]
  | no ne ↦ ground (arith, get_or-set_ne slots idx i none none ne)
]

slot-grown :
    (slots : AckFloors) (idx i : ℕ) (f : FloorSlot → FloorSlot)
    → or_default (
        get_or
          (set (resize slots idx) idx (some (f (or_default (get_or (resize slots idx) idx none)))))
          i
          none)
      ≡ (if i == idx then f (slot slots i) else slot slots i)
unfolding slot or_default
slot-grown slots idx i f =
    rw (get_or-resize slots idx idx, get_or-set-resize slots idx i)
      (ground (arith, ap (λ j. f (or_default (get_or slots j none))) {x = idx} {y = i}))

slot-perform :
    (slots : AckFloors) (c : Call) (i : ℕ) → slot (perform slots c) i ≡ effect i c (slot slots i)
unfolding perform effect slot record_acked seed
slot-perform slots (record_acked_for idx seq) i = slot-grown slots idx i (λ s. record_seq s seq)
slot-perform slots (seed_for idx start) i = slot-grown slots idx i (λ s. seed_slot s start)
slot-perform slots (remove_for idx) i = slot-remove slots idx i

-- Every call on the table changes the slot of the consumer that it names as the slot's own operation
-- says, resets it when the consumer is removed, and leaves the slot of every other consumer alone;
-- and the floor that the table reports is that of the slot.
pub perform-effect :
    (slots : AckFloors) (c : Call) (i : ℕ)
    → (slot (perform slots c) i ≡ effect i c (slot slots i))
      × (floor (perform slots c) i ≡ (effect i c (slot slots i)).floor)
perform-effect slots c i = (
  slot-perform slots c i,
  floor-slot (perform slots c) i ∙ ap (λ s. s.floor) (slot-perform slots c i),
)
