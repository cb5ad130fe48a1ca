-- ===== src/MemoryStore/Search.antt =====
-- crates/arbitro-store/src/memory.rs: the two ways to find a number in the index, the guess from the
-- first number and the binary search.
use arbitro.Common.{
  Bool, Bool-cases, List, [], ap, arith, err, false, if◌then◌else◌, inl, inr, leb, leb→le, length,
  ltb, ltb→lt, none, ok, refl, some, suc, sym, true, zero, ℕ, ◌+◌, ◌-◌, ◌∷◌, ◌≡◌, ◌≤◌,
}
use arbitro.MemoryStore.{
  LogMetadata, MemoryStore, find_lower_bound, search_from, seq_to_idx, stands_at,
}
use arbitro.MemoryStore.Layout.{IsSound, Sorted}

-- How many entries at the front have a smaller number.
unfoldable pub rank : ℕ → List LogMetadata → ℕ
rank seq [] = 0
rank seq (m ∷ ms) = let rest = rank seq ms in if ltb m.seq seq then suc rest else 0

pub rank_le : (seq : ℕ) (ms : List LogMetadata) → rank seq ms ≤ length ms
unfolding rank
rank_le seq [] = omega arith
rank_le seq (m ∷ ms) = ground (arith, rank_le seq ms)

pub search_from-rank :
    (at seq : ℕ) (ms : List LogMetadata)
    → search_from at seq ms
      ≡ (if stands_at (rank seq ms) ms seq then ok (at + rank seq ms) else err (at + rank seq ms))
unfolding search_from stands_at rank
search_from-rank at seq [] = ap err (omega arith)
search_from-rank at seq (m ∷ ms) = ground (arith, search_from-rank (at + 1) seq ms)

-- In an index whose numbers rise there is one position for a number.
pub stands_at-rank :
    (lo segment hi i seq : ℕ) (ms : List LogMetadata)
    → Sorted lo segment hi ms
    → stands_at i ms seq ≡ true
    → (rank seq ms ≡ i) × (lo ≤ seq)
unfolding stands_at rank
stands_at-rank lo segment hi i seq [] sorted h = ground (arith, h)
stands_at-rank lo segment hi zero seq (m ∷ ms) sorted h = ground (arith, h, sorted)
stands_at-rank lo segment hi (suc i) seq (m ∷ ms) sorted h =
    let (r, b) = stands_at-rank (m.seq + 1) m.segment_idx hi i seq ms sorted.2 h in
    ground (arith, r, b, sorted.0)

pub rank_first :
    (lo segment hi seq : ℕ) (ms : List LogMetadata)
    → Sorted lo segment hi ms
    → seq ≤ lo
    → rank seq ms ≡ 0
unfolding rank
rank_first lo segment hi seq [] sorted h = refl
rank_first lo segment hi seq (m ∷ ms) sorted h = ground (arith, sorted.0)

either :
    (b : Bool) (i : ℕ) → elim (if b then ok (0 + i) else err (0 + i)) [ ok j ↦ j | err j ↦ j ] ≡ i
either true i = omega arith
either false i = omega arith

if_found :
    (b : Bool) (i : ℕ)
    → elim (if b then ok (0 + i) else err (0 + i)) [ ok j ↦ some j | err j ↦ none ]
      ≡ (if b then some i else none)
if_found true i = ap some (omega arith)
if_found false i = refl

search_position :
    (seq : ℕ) (ms : List LogMetadata)
    → elim (search_from 0 seq ms) [ ok i ↦ i | err i ↦ i ] ≡ rank seq ms
search_position seq ms =
    rw (search_from-rank 0 seq ms) (either (stands_at (rank seq ms) ms seq) (rank seq ms))

search_found :
    (seq : ℕ) (ms : List LogMetadata)
    → elim (search_from 0 seq ms) [ ok i ↦ some i | err i ↦ none ]
      ≡ (if stands_at (rank seq ms) ms seq then some (rank seq ms) else none)
search_found seq ms =
    rw (search_from-rank 0 seq ms) (if_found (stands_at (rank seq ms) ms seq) (rank seq ms))

-- The guess and the search agree.
pub find_lower_bound-rank :
    (s : MemoryStore) (seq : ℕ) → IsSound s → find_lower_bound s seq ≡ rank seq s.index
unfolding find_lower_bound
find_lower_bound-rank s seq sound = elim (Bool-cases (leb seq s.first_seq)) [
  | inl low ↦
      rw low
        (sym (rank_first s.first_seq 0 s.next_seq seq s.index sound.1 (leb→le seq s.first_seq low)))
  | inr high ↦ rw high (elim (Bool-cases (stands_at (seq - s.first_seq) s.index seq)) [
    | inl there ↦ rw there (
        sym
          (stands_at-rank s.first_seq 0 s.next_seq (seq - s.first_seq) seq s.index sound.1 there).0)
    | inr elsewhere ↦ rw elsewhere (search_position seq s.index)
  ])
]

pub seq_to_idx-rank :
    (s : MemoryStore) (seq : ℕ)
    → IsSound s
    → seq_to_idx s seq
      ≡ (if stands_at (rank seq s.index) s.index seq then some (rank seq s.index) else none)
unfolding seq_to_idx
seq_to_idx-rank s seq sound = elim (Bool-cases (ltb seq s.first_seq)) [
  | inl low ↦ elim (Bool-cases (stands_at (rank seq s.index) s.index seq)) [
    | inl there ↦
        let h =
          (stands_at-rank s.first_seq 0 s.next_seq (rank seq s.index) seq s.index sound.1
            there).1 in
        absurd (omega (arith, h, ltb→lt seq s.first_seq low))
    | inr absent ↦ rw (low, absent) refl
  ]
  | inr high ↦ rw high (elim (Bool-cases (stands_at (seq - s.first_seq) s.index seq)) [
    | inl there ↦
        let e =
          (stands_at-rank s.first_seq 0 s.next_seq (seq - s.first_seq) seq s.index sound.1
            there).0 in
        rw (e, there) refl
    | inr elsewhere ↦ rw elsewhere (search_found seq s.index)
  ])
]
