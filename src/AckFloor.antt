-- ===== src/AckFloor.antt =====
-- crates/arbitro-server/src/shard/ack_floor.rs: for each consumer, the highest sequence number up
-- to which everything is acknowledged, and the acknowledged numbers above the gap. The set `ooo` is
-- an ascending list; a consumer identifier is an index into the slots.
pub mod Bounds
pub mod Contiguous
pub mod Table
mod Tests
use arbitro.Common.{
  List, Option, [], get_or, if◌then◌else◌, insert, leb, length, ltb, none, replicate, set, some,
  split_off, ℕ, ◌++◌, ◌+◌, ◌-◌, ◌==◌, ◌∷◌,
}
use arbitro.Common.Word.{add_u64}

abbrev pub ooo_cap : ℕ
ooo_cap = 1024

pub record FloorSlot : Type 0 where
  pub floor : ℕ
  pub ooo : List ℕ

abbrev pub default : FloorSlot
default = record { floor = 0; ooo = [] }

-- The `while let` loop of `record` and `seed`: absorb the run that follows the floor.
pub absorb : ℕ → List ℕ → FloorSlot
absorb floor [] = record { floor = floor; ooo = [] }
absorb floor (next ∷ ooo) =
    let rest = absorb next ooo in
    if next == add_u64 floor 1 then rest else record { floor = floor; ooo = next ∷ ooo }

pub record_seq : FloorSlot → ℕ → FloorSlot
record_seq s seq =
    if leb seq s.floor
    then s
    else if seq == add_u64 s.floor 1
    then absorb seq s.ooo
    else if ltb (length s.ooo) ooo_cap
    then record s { ooo = insert seq s.ooo }
    else s

-- The slot's part of `AckFloors::seed`.
pub seed_slot : FloorSlot → ℕ → FloorSlot
seed_slot s floor =
    if ltb s.floor floor then absorb floor (split_off (add_u64 floor 1) s.ooo) else s

-- What happens to a slot: an acknowledgement, or a start position.
pub data Event : Type 0 where
  acked : ℕ → Event
  seeded : ℕ → Event

pub step : FloorSlot → Event → FloorSlot
step s (acked seq) = record_seq s seq
step s (seeded floor) = seed_slot s floor

pub run : FloorSlot → List Event → FloorSlot
run s [] = s
run s (e ∷ es) = run (step s e) es

abbrev pub AckFloors : Type 0
AckFloors = List (Option FloorSlot)

-- `resize_with(idx + 1, || None)`, when the index is out of range.
pub resize : AckFloors → ℕ → AckFloors
resize slots idx =
    if leb (length slots) idx then slots ++ replicate (idx + 1 - length slots) none else slots

-- `get_or_insert_with(FloorSlot::default)`
pub or_default : Option FloorSlot → FloorSlot
or_default none = default
or_default (some s) = s

pub record_acked : AckFloors → ℕ → ℕ → AckFloors
unfolding resize or_default
record_acked slots idx seq =
    let grown = resize slots idx in
    set grown idx (some (record_seq (or_default (get_or grown idx none)) seq))

pub seed : AckFloors → ℕ → ℕ → AckFloors
unfolding resize or_default
seed slots idx floor =
    let grown = resize slots idx in
    set grown idx (some (seed_slot (or_default (get_or grown idx none)) floor))

floor_of : Option FloorSlot → ℕ
floor_of none = 0
floor_of (some s) = s.floor

pub floor : AckFloors → ℕ → ℕ
unfolding floor_of
floor slots idx = floor_of (get_or slots idx none)

pub remove_slot : AckFloors → ℕ → AckFloors
remove_slot slots idx = set slots idx none
