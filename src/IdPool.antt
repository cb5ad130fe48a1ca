-- ===== src/IdPool.antt =====
-- crates/arbitro-common/src/id_pool.rs: the allocator of dense slots, with a free list and a
-- generation for each slot. The head of `free_slots` is the end of the vector.
pub mod Bounds
pub mod Slots
pub mod Fresh
pub mod Restore
mod Tests
use arbitro.Common.{
  Bool, List, Option, Result, [], contains, err, false, get_elem?, get_or, if◌then◌else◌, leb,
  length, ltb, none, not, ok, remove, replicate, set, some, ℕ, ◌++◌, ◌+◌, ◌-◌, ◌==◌, ◌||◌, ◌∷◌,
}
use arbitro.Common.Word.{add_u32}

pub data PoolError : Type 0 where
  exhausted out_of_range double_free : PoolError

pub record IdPool : Type 0 where
  pub next_slot : ℕ
  pub free_slots : List ℕ
  pub generations : List ℕ
  pub max_slots : ℕ

pub new : ℕ → IdPool
new max_slots = record { next_slot = 0; free_slots = []; generations = []; max_slots = max_slots }

abbrev pub generation_at : IdPool → ℕ → ℕ
generation_at p slot = get_or p.generations slot 0

alloc_from : IdPool → List ℕ → IdPool × Result PoolError (ℕ × ℕ)
alloc_from p (slot ∷ rest) =
    let g = add_u32 (generation_at p slot) 1 in
    (
      record p { free_slots = rest; generations = set p.generations slot g },
      ok (slot, get_or (set p.generations slot g) slot 0),
    )
alloc_from p [] = if leb p.max_slots p.next_slot then (p, err exhausted) else (
  record p { next_slot = add_u32 p.next_slot 1; generations = p.generations ++ 0 ∷ [] },
  ok (p.next_slot, 0),
)

pub alloc : IdPool → IdPool × Result PoolError (ℕ × ℕ)
unfolding alloc_from
alloc p = alloc_from p p.free_slots

-- Also `replay_free`, which has the same body.
pub free : IdPool → ℕ → IdPool × Result PoolError (Unit {0})
free p slot =
    if leb (length p.generations) slot
    then (p, err out_of_range)
    else if contains slot p.free_slots
    then (p, err double_free)
    else (record p { free_slots = slot ∷ p.free_slots }, ok tt)

is_generation : ℕ → Option ℕ → Bool
is_generation g none = false
is_generation g (some h) = h == g

pub generation : IdPool → ℕ → Option ℕ
generation p slot = get_elem? p.generations slot

pub is_current : IdPool → ℕ → ℕ → Bool
unfolding generation is_generation
is_current p slot g = is_generation g (generation p slot)

pub slot_count : IdPool → ℕ
slot_count p = length p.generations

pub active_count : IdPool → ℕ
active_count p = length p.generations - length p.free_slots

pub has_free : IdPool → Bool
has_free p = ltb 0 (length p.free_slots)

-- `while generations.len() <= idx { push(0) }`
pub grow : List ℕ → ℕ → List ℕ
grow gens idx = gens ++ replicate (idx + 1 - length gens) 0

pub replay_alloc : IdPool → ℕ → ℕ → IdPool × Result PoolError (Unit {0})
unfolding grow
replay_alloc p slot g = if leb p.max_slots slot then (p, err out_of_range) else (
  record p {
    generations = set (grow p.generations slot) slot g;
    free_slots = remove slot p.free_slots;
    next_slot = if ltb p.next_slot (add_u32 slot 1) then add_u32 slot 1 else p.next_slot;
  },
  ok tt,
)

pub record PoolSnapshot : Type 0 where
  pub snap_next_slot : ℕ
  pub snap_free_slots : List ℕ
  pub snap_generations : List ℕ
  pub snap_max_slots : ℕ

pub snapshot : IdPool → PoolSnapshot
snapshot p = record {
  snap_next_slot = p.next_slot;
  snap_free_slots = p.free_slots;
  snap_generations = p.generations;
  snap_max_slots = p.max_slots;
}

-- Whether the set of the free slots is smaller than the list: a slot occurs twice.
pub has_duplicate : List ℕ → Bool
has_duplicate [] = false
has_duplicate (x ∷ xs) = contains x xs || has_duplicate xs

pub any_from : ℕ → List ℕ → Bool
any_from n [] = false
any_from n (x ∷ xs) = leb n x || any_from n xs

pub restore_from : PoolSnapshot → Result PoolError IdPool
restore_from s =
    if not (s.snap_next_slot == length s.snap_generations)
    then err out_of_range
    else if has_duplicate s.snap_free_slots
    then err double_free
    else if any_from (length s.snap_generations) s.snap_free_slots
    then err out_of_range
    else ok (record {
      next_slot = s.snap_next_slot;
      free_slots = s.snap_free_slots;
      generations = s.snap_generations;
      max_slots = s.snap_max_slots;
    })
