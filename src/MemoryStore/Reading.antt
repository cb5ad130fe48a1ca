-- ===== src/MemoryStore/Reading.antt =====
-- crates/arbitro-store/src/memory.rs: what `read`, `get`, `read_range` and `for_each` give.
use arbitro.Subject.{Bytes}
use arbitro.Store.{Entry}
use arbitro.Common.{
  Bool, Bool-cases, List, Option, [], ap, arith, drop, false, get_elem?, if◌then◌else◌, inl, inr,
  leb, length, ltb, map, min, none, not, refl, some, suc, sym, take, true, ℕ, ◌&&◌, ◌+◌, ◌-◌, ◌<◌,
  ◌==◌, ◌∙◌, ◌∷◌, ◌≡◌, ◌≤◌,
}
use arbitro.MemoryStore.{
  LogMetadata, MemoryStore, get_entry_view, read, read_range, stands_at, view_in,
}
use arbitro.MemoryStore.Layout.{IsSound, Sorted, log}
use arbitro.MemoryStore.Search.{find_lower_bound-rank, rank, rank_le, seq_to_idx-rank}

-- The first entry with a number, in a journal.
unfoldable pub entry_at : ℕ → List Entry → Option Entry
entry_at seq [] = none
entry_at seq (entry ∷ entries) =
    let rest = entry_at seq entries in if entry.seq == seq then some entry else rest

-- The entries with a number from start up to end.
unfoldable pub between : ℕ → ℕ → List Entry → List Entry
between start end [] = []
between start end (entry ∷ entries) =
    let rest = between start end entries in
    if leb start entry.seq && ltb entry.seq end then entry ∷ rest else rest

entry_at_above :
    (sealed : List Bytes) (active : Bytes) (lo segment hi seq : ℕ) (ms : List LogMetadata)
    → Sorted lo segment hi ms
    → seq < lo
    → entry_at seq (map (view_in sealed active) ms) ≡ none
unfolding entry_at view_in
entry_at_above sealed active lo segment hi seq [] sorted h = refl
entry_at_above sealed active lo segment hi seq (m ∷ ms) sorted h =
    ground
      (arith, sorted.0, entry_at_above sealed active (m.seq + 1) m.segment_idx hi seq ms sorted.2)

pub entry_at-rank :
    (sealed : List Bytes) (active : Bytes) (lo segment hi seq : ℕ) (ms : List LogMetadata)
    → Sorted lo segment hi ms
    → entry_at seq (map (view_in sealed active) ms) ≡ (
        if stands_at (rank seq ms) ms seq
        then elim (get_elem? ms (rank seq ms)) [
          | some m ↦ some (view_in sealed active m)
          | none ↦ none
        ]
        else none)
unfolding entry_at view_in stands_at rank
entry_at-rank sealed active lo segment hi seq [] sorted = refl
entry_at-rank sealed active lo segment hi seq (m ∷ ms) sorted = ground (
  arith,
  entry_at-rank sealed active (m.seq + 1) m.segment_idx hi seq ms sorted.2,
  entry_at_above sealed active (m.seq + 1) m.segment_idx hi seq ms sorted.2,
)

read_rank :
    (s : MemoryStore) (b : Bool) (i : ℕ)
    → elim (if b then some i else none) [
      | some idx ↦ elim (get_elem? s.index idx) [
        | some meta ↦ some (get_entry_view s meta)
        | none ↦ none
      ]
      | none ↦ none
    ]
      ≡ (if b
          then elim (get_elem? s.index i) [
            | some m ↦ some (view_in s.sealed s.active m)
            | none ↦ none
          ]
          else none)
read_rank s true i = refl
read_rank s false i = refl

-- `read` finds the entry with the number.
pub read-entry_at : (s : MemoryStore) (seq : ℕ) → IsSound s → read s seq ≡ entry_at seq (log s)
unfolding read
read-entry_at s seq sound =
    ap
      (λ o. elim o [
        | some idx ↦ elim (get_elem? s.index idx) [
          | some meta ↦ some (get_entry_view s meta)
          | none ↦ none
        ]
        | none ↦ none
      ])
      (seq_to_idx-rank s seq sound)
    ∙ read_rank s (stands_at (rank seq s.index) s.index seq) (rank seq s.index)
    ∙ sym (entry_at-rank s.sealed s.active s.first_seq 0 s.next_seq seq s.index sound.1)

between_above :
    (sealed : List Bytes) (active : Bytes) (lo segment hi start end : ℕ) (ms : List LogMetadata)
    → Sorted lo segment hi ms
    → end ≤ lo
    → between start end (map (view_in sealed active) ms) ≡ []
unfolding between view_in
between_above sealed active lo segment hi start end [] sorted h = refl
between_above sealed active lo segment hi start end (m ∷ ms) sorted h = ground (
  arith,
  sorted.0,
  between_above sealed active (m.seq + 1) m.segment_idx hi start end ms sorted.2,
)

between-take :
    (sealed : List Bytes) (active : Bytes) (lo segment hi start end : ℕ) (ms : List LogMetadata)
    → Sorted lo segment hi ms
    → start ≤ lo
    → map (view_in sealed active) (take (rank end ms) ms)
      ≡ between start end (map (view_in sealed active) ms)
unfolding between view_in rank
between-take sealed active lo segment hi start end [] sorted h = refl
between-take sealed active lo segment hi start end (m ∷ ms) sorted h = ground (
  arith,
  sorted.0,
  between-take sealed active (m.seq + 1) m.segment_idx hi start end ms sorted.2,
  between_above sealed active (m.seq + 1) m.segment_idx hi start end ms sorted.2,
)

suc_sub : (a b : ℕ) → suc a - suc b ≡ a - b
suc_sub a b = omega arith

min_zero : (a : ℕ) → min a 0 ≡ 0
min_zero a = omega arith

zero_min : (a : ℕ) → min 0 a ≡ 0
zero_min a = omega arith

sub_zero : (a : ℕ) → a - 0 ≡ a
sub_zero a = omega arith

not_below : (a b : ℕ) → ltb a b ≡ false → b ≤ a
not_below a b h = ground (arith, h)

min-suc : (a b : ℕ) → min (suc a) (suc b) ≡ suc (min a b)
min-suc a b = omega arith

swap_tests : (a b : ℕ) → leb b a ≡ not (ltb a b)
swap_tests a b = ground arith

between-rank :
    (sealed : List Bytes) (active : Bytes) (lo segment hi start end : ℕ) (ms : List LogMetadata)
    → Sorted lo segment hi ms
    → map (view_in sealed active) (
        take
          (rank end ms - min (rank start ms) (rank end ms))
          (drop (min (rank start ms) (rank end ms)) ms))
      ≡ between start end (map (view_in sealed active) ms)
unfolding between view_in rank
between-rank sealed active lo segment hi start end [] sorted = refl
between-rank sealed active lo segment hi start end (m ∷ ms) sorted =
    let above = λ (h : ltb m.seq end ≡ false). sym (
      between_above sealed active (m.seq + 1) m.segment_idx hi start end ms sorted.2
        (omega (arith, not_below m.seq end h))) in
    let ih = between-rank sealed active (m.seq + 1) m.segment_idx hi start end ms sorted.2 in
    elim (Bool-cases (ltb m.seq start)) [
      | inl before ↦ elim (Bool-cases (ltb m.seq end)) [
        | inl inside ↦
            rw (swap_tests m.seq start, before, inside, min-suc (rank start ms) (rank end ms))
              (rw (suc_sub (rank end ms) (min (rank start ms) (rank end ms))) ih)
        | inr after ↦
            rw (swap_tests m.seq start, before, after)
              (rw (min_zero (suc (rank start ms))) (above after))
      ]
      | inr reached ↦ elim (Bool-cases (ltb m.seq end)) [
        | inl inside ↦
            rw (swap_tests m.seq start, reached, inside)
              (rw (zero_min (suc (rank end ms)), sub_zero (suc (rank end ms)))
                (ap (λ l. view_in sealed active m ∷ l)
                  (between-take sealed active (m.seq + 1) m.segment_idx hi start end ms sorted.2
                    (omega (arith, not_below m.seq start reached)))))
        | inr after ↦ rw (swap_tests m.seq start, reached, after) (above after)
      ]
    ]

capped : (a b : ℕ) → a ≤ b → min a b ≡ a
capped a b h = omega arith

-- In a sound store `read_range` gives the entries of the journal with a number from start up to and
-- without end, in order, whether their numbers have gaps or not.
pub read_range-between :
    (s : MemoryStore) (start end : ℕ)
    → IsSound s
    → read_range s start end ≡ between start end (log s)
unfolding read_range
read_range-between s start end sound =
    rw
      (
        find_lower_bound-rank s start sound,
        find_lower_bound-rank s end sound,
        capped (rank end s.index) (length s.index) (rank_le end s.index),
      )
      (between-rank s.sealed s.active s.first_seq 0 s.next_seq start end s.index sound.1)
