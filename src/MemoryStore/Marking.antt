-- ===== src/MemoryStore/Marking.antt =====
-- crates/arbitro-store/src/memory.rs: an index in which the entry of a number is marked.
use arbitro.Common.{
  All, Bool, Bool-cases, List, [], ap, arith, false, get_elem?, if◌then◌else◌, inl, inr, ltb, map,
  none, not, refl, set, some, suc, sym, true, true≢false, ℕ, ◌+◌, ◌<◌, ◌==◌, ◌∙◌, ◌∷◌, ◌≡◌,
}
use arbitro.Subject.{Bytes}
use arbitro.Store.{Entry, is_tombstone}
use arbitro.MemoryStore.{LogMetadata, stands_at, view_in}
use arbitro.MemoryStore.Removal.{mark, sum_bytes}
use arbitro.MemoryStore.Layout.{InPlace, Sorted}
use arbitro.MemoryStore.Search.{rank}
use arbitro.MemoryStore.Reading.{entry_at}
use arbitro.MemoryStore.Tombstones.{bury_at, marked_twice}

-- Whether the entry is there and carries no mark.
unfoldable pub is_live_at : ℕ → List Entry → Bool
is_live_at seq entries = elim (entry_at seq entries) [
  | some e ↦ not (is_tombstone e.flags)
  | none ↦ false
]

-- The index with the entry of a number marked.
unfoldable pub mark_at : ℕ → List LogMetadata → List LogMetadata
mark_at seq [] = []
mark_at seq (m ∷ ms) = let rest = mark_at seq ms in if m.seq == seq then mark m ∷ ms else m ∷ rest

pub mark_at-view :
    (sealed : List Bytes) (active : Bytes) (seq : ℕ) (ms : List LogMetadata)
    → map (view_in sealed active) (mark_at seq ms) ≡ bury_at seq (map (view_in sealed active) ms)
unfolding mark_at bury_at view_in mark
mark_at-view sealed active seq [] = refl
mark_at-view sealed active seq (m ∷ ms) = ground (arith, mark_at-view sealed active seq ms)

pub mark_at-Sorted :
    (lo segment hi seq : ℕ) (ms : List LogMetadata)
    → Sorted lo segment hi ms
    → Sorted lo segment hi (mark_at seq ms)
unfolding mark_at mark
mark_at-Sorted lo segment hi seq [] sorted = sorted
mark_at-Sorted lo segment hi seq (m ∷ ms) sorted = elim (Bool-cases (m.seq == seq)) [
  | inl here ↦ rw here sorted
  | inr later ↦
      rw later (sorted.0, sorted.1, mark_at-Sorted (m.seq + 1) m.segment_idx hi seq ms sorted.2)
]

pub mark_at-InPlace :
    (sealed : List Bytes) (active : Bytes) (seq : ℕ) (ms : List LogMetadata)
    → All (InPlace sealed active) ms
    → All (InPlace sealed active) (mark_at seq ms)
unfolding mark_at mark
mark_at-InPlace sealed active seq [] h = tt
mark_at-InPlace sealed active seq (m ∷ ms) h = elim (Bool-cases (m.seq == seq)) [
  | inl here ↦ rw here h
  | inr later ↦ rw later (h.0, mark_at-InPlace sealed active seq ms h.1)
]

pub mark_at-bytes : (seq : ℕ) (ms : List LogMetadata) → sum_bytes (mark_at seq ms) ≡ sum_bytes ms
unfolding mark_at mark sum_bytes
mark_at-bytes seq [] = refl
mark_at-bytes seq (m ∷ ms) = ground (arith, mark_at-bytes seq ms)

mark_at_above :
    (lo segment hi seq : ℕ) (ms : List LogMetadata)
    → Sorted lo segment hi ms
    → seq < lo
    → mark_at seq ms ≡ ms
unfolding mark_at
mark_at_above lo segment hi seq [] sorted h = refl
mark_at_above lo segment hi seq (m ∷ ms) sorted h =
    ground (arith, sorted.0, mark_at_above (m.seq + 1) m.segment_idx hi seq ms sorted.2)

found_here :
    (seq : ℕ) (m : LogMetadata) (ms : List LogMetadata)
    → (m.seq == seq) ≡ true
    → rank seq (m ∷ ms) ≡ 0
unfolding rank
found_here seq m ms h = ground (arith, h)

found_later :
    (seq : ℕ) (m : LogMetadata) (ms : List LogMetadata)
    → (m.seq == seq) ≡ false
    → ltb m.seq seq ≡ true
    → (rank seq (m ∷ ms) ≡ suc (rank seq ms))
      × (stands_at (rank seq (m ∷ ms)) (m ∷ ms) seq ≡ stands_at (rank seq ms) ms seq)
unfolding rank stands_at
found_later seq m ms h k = (rw k refl, rw k refl)

found_never :
    (seq : ℕ) (m : LogMetadata) (ms : List LogMetadata)
    → (m.seq == seq) ≡ false
    → ltb m.seq seq ≡ false
    → stands_at (rank seq (m ∷ ms)) (m ∷ ms) seq ≡ false
unfolding rank stands_at
found_never seq m ms h k = rw (k, h) refl

stands_here :
    (seq : ℕ) (m : LogMetadata) (ms : List LogMetadata)
    → (m.seq == seq) ≡ true
    → stands_at (rank seq (m ∷ ms)) (m ∷ ms) seq ≡ true
unfolding stands_at
stands_here seq m ms h = rw (found_here seq m ms h, h) refl

-- The position that the search finds, and what stands there.
pub found :
    (seq : ℕ) (ms : List LogMetadata)
    → (stands_at (rank seq ms) ms seq ≡ true)
    → (m : LogMetadata) × (get_elem? ms (rank seq ms) ≡ some m)
      × (set ms (rank seq ms) (mark m) ≡ mark_at seq ms)
      × (is_tombstone m.flags ≡ true → mark_at seq ms ≡ ms)
unfolding mark_at mark stands_at
found seq [] h = absurd (true≢false (sym h))
found seq (m ∷ ms) h = elim (Bool-cases (m.seq == seq)) [
  | inl here ↦ (
    m,
    rw (found_here seq m ms here) refl,
    rw (found_here seq m ms here, here) refl,
    λ marked. rw here (ap (λ flags. record m { flags = flags } ∷ ms) (marked_twice m.flags marked)),
  )
  | inr elsewhere ↦ elim (Bool-cases (ltb m.seq seq)) [
    | inl before ↦
        let (r, st) = found_later seq m ms elsewhere before in
        let (x, e, f, g) = found seq ms (sym st ∙ h) in
        (
          x,
          rw r e,
          rw (r, elsewhere) (ap (λ l. m ∷ l) f),
          λ marked. rw elsewhere (ap (λ l. m ∷ l) (g marked)),
        )
    | inr after ↦ absurd (true≢false (sym h ∙ found_never seq m ms elsewhere after))
  ]
]

pub missing :
    (lo segment hi seq : ℕ) (ms : List LogMetadata)
    → Sorted lo segment hi ms
    → stands_at (rank seq ms) ms seq ≡ false
    → mark_at seq ms ≡ ms
unfolding mark_at
missing lo segment hi seq [] sorted h = refl
missing lo segment hi seq (m ∷ ms) sorted h = elim (Bool-cases (m.seq == seq)) [
  | inl here ↦ absurd (true≢false (sym (stands_here seq m ms here) ∙ h))
  | inr elsewhere ↦ elim (Bool-cases (ltb m.seq seq)) [
    | inl before ↦ rw elsewhere (
        ap (λ l. m ∷ l)
          (missing (m.seq + 1) m.segment_idx hi seq ms sorted.2
            (sym (found_later seq m ms elsewhere before).1 ∙ h)))
    | inr after ↦ rw elsewhere (
        ap (λ l. m ∷ l)
          (mark_at_above (m.seq + 1) m.segment_idx hi seq ms sorted.2 (ground (arith, after))))
  ]
]
