-- ===== src/Wheel/Tests.antt =====
-- A wheel of four buckets.
use arbitro.Common.{[], arith, get_or, if◌then◌else◌, refl, some, ℕ, ◌++◌, ◌==◌, ◌∷◌, ◌≡◌}
use arbitro.Wheel.{TimingWheel, advance, insert_entry, scan, ticks_until_next_nonempty}
use arbitro.Wheel.Due.{IsValid, total, wait}
use arbitro.Wheel.Firing.{insert_fires, outputs}

abbrev wheel : TimingWheel ℕ
wheel = record { buckets = [] ∷ (8 ∷ []) ∷ [] ∷ [] ∷ []; current = 2; num_buckets = 4; len = 1 }

wheel-IsValid : IsValid wheel
unfolding total
wheel-IsValid = record { ring = refl; cursor = omega arith; counted = refl }

-- 8 comes out after three advances, so 9, with a delay of 2, comes out before it.
outputs-wheel :
    (outputs (insert_entry wheel 9 2) 4 ≡ [] ∷ (9 ∷ []) ∷ (8 ∷ []) ∷ [] ∷ [])
    × (ticks_until_next_nonempty wheel ≡ some 3)
unfolding outputs insert_entry advance ticks_until_next_nonempty scan
outputs-wheel = (refl, refl)

insert_fires_example : get_or (outputs (insert_entry wheel 9 2) 4) 1 [] ≡ (
    if 2 == wait 4 2
    then get_or (outputs wheel 4) 1 [] ++ 9 ∷ []
    else get_or (outputs wheel 4) 1 [])
insert_fires_example = insert_fires wheel 9 2 1 wheel-IsValid (omega arith)
