-- ===== src/IdPool/Tests.antt =====
-- A pool of three slots at concrete calls.
use arbitro.Common.{[], arith, contains, err, ok, refl, ◌∷◌, ◌≡◌}
use arbitro.IdPool.{
  IdPool, PoolSnapshot, alloc, alloc_from, any_from, double_free, free, has_duplicate, new,
  out_of_range,
}
use arbitro.IdPool.Bounds.{IsValid}
use arbitro.IdPool.Fresh.{Rising, give_back, issued, issued-Rising, take_slot}
use arbitro.IdPool.Restore.{create_one, delete_one, log_of, replay, replay-log_of, serve}

-- Slot 1 is free, under generation 4.
abbrev used : IdPool
used = record { next_slot = 2; free_slots = 1 ∷ []; generations = 0 ∷ 4 ∷ []; max_slots = 3 }

abbrev reused : IdPool
reused = record { next_slot = 2; free_slots = []; generations = 0 ∷ 5 ∷ []; max_slots = 3 }

abbrev saved : PoolSnapshot
saved = record {
  snap_next_slot = 2;
  snap_free_slots = 1 ∷ [];
  snap_generations = 0 ∷ 4 ∷ [];
  snap_max_slots = 3;
}

used-IsValid : IsValid used
unfolding any_from has_duplicate contains
used-IsValid = record {
  counted = refl;
  in_range = refl;
  once = refl;
  capped = omega arith;
  fits = omega arith;
}

alloc-used : alloc used ≡ (reused, ok (1, 5))
unfolding alloc alloc_from
alloc-used = refl

free-used :
    ((free used 1).1 ≡ err double_free)
    × ((free used 2).1 ≡ err out_of_range)
    × ((free used 0).0.free_slots ≡ 0 ∷ 1 ∷ [])
unfolding free contains
free-used = (refl, refl, refl)

issued-Rising_example :
    Rising (issued (new 2) (take_slot ∷ give_back 0 ∷ take_slot ∷ take_slot ∷ []))
issued-Rising_example =
    issued-Rising 2 (take_slot ∷ give_back 0 ∷ take_slot ∷ take_slot ∷ []) (omega arith)
      (omega arith)

replay-log_of_example :
    replay used (log_of used (create_one ∷ delete_one 0 ∷ create_one ∷ []))
    ≡ serve used (create_one ∷ delete_one 0 ∷ create_one ∷ [])
replay-log_of_example =
    replay-log_of (create_one ∷ delete_one 0 ∷ create_one ∷ []) used used-IsValid
