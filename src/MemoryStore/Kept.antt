-- ===== src/MemoryStore/Kept.antt =====
-- crates/arbitro-store/src/memory.rs: after `truncate_front` and `purge` the index and the segments fit
-- each other.
use arbitro.Common.{
  All, Bool, Bool-cases, List, [], arith, drop, false, inl, inr, leb, leb→le, length, length-drop,
  map, min, refl, suc, sym, take, zero, ℕ, ◌+◌, ◌-◌, ◌==◌, ◌||◌, ◌∷◌, ◌≡◌, ◌≤◌,
}
use arbitro.Subject.{Bytes}
use arbitro.MemoryStore.{LogMetadata, MemoryStore}
use arbitro.MemoryStore.Removal.{cut_front, reindex, remaining_start_seg, sum_bytes, truncate_front}
use arbitro.MemoryStore.Layout.{InPlace, IsSound, Sorted}
use arbitro.MemoryStore.Truncating.{
  Dense, above_or_below, cut_suc, cut_zero, no_cut, segment_in-drop, stays,
}

InPlace-drop :
    (sealed : List Bytes) (active : Bytes) (n : ℕ) (m : LogMetadata)
    → n ≤ m.segment_idx
    → n ≤ length sealed
    → InPlace sealed active m
    → InPlace (drop n sealed) active (reindex n m)
unfolding reindex
InPlace-drop sealed active n m h k place = (
  omega (arith, place.0, length-drop n sealed, h),
  rw (segment_in-drop sealed active n m.segment_idx h k) place.1,
  place.2,
  place.3,
)

All-drop {ℓ κ} : {A : Type ℓ} (P : A → Type κ) (n : ℕ) (xs : List A) → All P xs → All P (drop n xs)
All-drop P zero xs h = h
All-drop P (suc n) [] h = tt
All-drop P (suc n) (x ∷ xs) h = All-drop P n xs h.1

-- Two facts about each entry, and a consequence for its image.
All-reindex :
    (P Q R : LogMetadata → Type 0) (f : LogMetadata → LogMetadata)
    → ((m : LogMetadata) → P m → Q m → R (f m))
    → (ms : List LogMetadata) → All P ms
    → All Q ms
    → All R (map f ms)
All-reindex P Q R f h [] p q = tt
All-reindex P Q R f h (m ∷ ms) p q = (h m p.0 q.0, All-reindex P Q R f h ms p.1 q.1)

Sorted-reindex :
    (lo segment hi n : ℕ) (ms : List LogMetadata)
    → Sorted lo segment hi ms
    → Sorted lo (segment - n) hi (map (reindex n) ms)
unfolding reindex
Sorted-reindex lo segment hi n [] sorted = sorted
Sorted-reindex lo segment hi n (m ∷ ms) sorted =
    (sorted.0, omega (arith, sorted.1), Sorted-reindex (m.seq + 1) m.segment_idx hi n ms sorted.2)

Sorted-from_zero :
    (lo segment hi : ℕ) (ms : List LogMetadata) → Sorted lo segment hi ms → Sorted lo 0 hi ms
Sorted-from_zero lo segment hi [] sorted = sorted
Sorted-from_zero lo segment hi (m ∷ ms) sorted = (sorted.0, omega arith, sorted.2)

-- What stays rises from the number of the cut.
Sorted-drop :
    (lo segment hi first : ℕ) (ms : List LogMetadata)
    → Sorted lo segment hi ms
    → Dense lo ms
    → lo ≤ first
    → first ≤ hi
    → Sorted first 0 hi (drop (min (first - lo) (length ms)) ms)
Sorted-drop lo segment hi first [] sorted dense h k = rw (no_cut (first - lo)) k
Sorted-drop lo segment hi first (m ∷ ms) sorted dense h k = elim (Bool-cases (leb first lo)) [
  | inl here ↦
      rw (cut_zero first lo (suc (length ms)) (leb→le first lo here))
        (omega (arith, leb→le first lo here, dense.0), omega arith, sorted.2)
  | inr later ↦ rw (cut_suc first lo (length ms) (above_or_below first lo later)) (
      Sorted-drop (lo + 1) m.segment_idx hi first ms (rw (sym dense.0) sorted.2) dense.1
        (omega (arith, above_or_below first lo later)) k)
]

sum_bytes-cut :
    (n : ℕ) (ms : List LogMetadata) → sum_bytes (take n ms) + sum_bytes (drop n ms) ≡ sum_bytes ms
unfolding sum_bytes
sum_bytes-cut zero ms = omega arith
sum_bytes-cut (suc n) [] = omega arith
sum_bytes-cut (suc n) (m ∷ ms) = omega (arith, sum_bytes-cut n ms)

sum_bytes-reindex : (n : ℕ) (ms : List LogMetadata) → sum_bytes (map (reindex n) ms) ≡ sum_bytes ms
unfolding sum_bytes reindex
sum_bytes-reindex n [] = refl
sum_bytes-reindex n (m ∷ ms) = omega (arith, sum_bytes-reindex n ms)

All-reindexed :
    (s : MemoryStore) (cut n : ℕ)
    → IsSound s
    → n ≤ remaining_start_seg s.sealed (drop cut s.index)
    → n ≤ length s.sealed
    → All (InPlace (drop n s.sealed) s.active) (map (reindex n) (drop cut s.index))
All-reindexed s cut n sound h k =
    All-reindex (λ m. remaining_start_seg s.sealed (drop cut s.index) ≤ m.segment_idx)
      (InPlace s.sealed s.active) (InPlace (drop n s.sealed) s.active) (reindex n)
      (λ m floor place. InPlace-drop s.sealed s.active n m (omega (arith, h, floor)) k place)
      (drop cut s.index) (stays s.sealed s.first_seq 0 s.next_seq cut s.index sound.1)
      (All-drop (InPlace s.sealed s.active) cut s.index sound.0)

cut_front-IsSound :
    (s : MemoryStore) (first_seq : ℕ)
    → IsSound s
    → Dense s.first_seq s.index
    → s.first_seq ≤ first_seq
    → first_seq ≤ s.next_seq
    → IsSound (cut_front s first_seq (min (first_seq - s.first_seq) (length s.index)))
unfolding cut_front
cut_front-IsSound s first_seq sound dense h k =
    let cut = min (first_seq - s.first_seq) (length s.index) in
    let n = min (remaining_start_seg s.sealed (drop cut s.index)) (length s.sealed) in
    (
      All-reindexed s cut n sound (omega arith) (omega arith),
      Sorted-from_zero first_seq (0 - n) s.next_seq (map (reindex n) (drop cut s.index)) (
          Sorted-reindex first_seq 0 s.next_seq n (drop cut s.index)
            (Sorted-drop s.first_seq 0 s.next_seq first_seq s.index sound.1 dense h k)),
      omega (arith, sound.2, sum_bytes-cut cut s.index, sum_bytes-reindex n (drop cut s.index)),
      All-drop (λ segment. length segment ≤ s.segment_size) n s.sealed sound.3,
      sound.4,
      sound.5,
    )

goes : (first lo : ℕ) (b : Bool) → (leb first lo || b) ≡ false → lo ≤ first
goes first lo b h = ground (arith, h)

-- `truncate_front` leaves a sound store sound (the index in place, the numbers rising, the count of
-- bytes exact, no segment over its size) where the numbers have no gap and the cut is not above the
-- next number.
pub truncate_front-IsSound :
    (s : MemoryStore) (first_seq : ℕ)
    → IsSound s
    → Dense s.first_seq s.index
    → first_seq ≤ s.next_seq
    → IsSound (truncate_front s first_seq).0
unfolding truncate_front
truncate_front-IsSound s first_seq sound dense h =
    elim (Bool-cases
      (leb first_seq s.first_seq || (min (first_seq - s.first_seq) (length s.index) == 0))) [
        | inl nothing ↦ rw nothing sound
        | inr some_go ↦ rw some_go (
            cut_front-IsSound s first_seq sound dense
              (goes first_seq s.first_seq (min (first_seq - s.first_seq) (length s.index) == 0)
                some_go)
              h)
      ]
