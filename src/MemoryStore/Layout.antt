-- ===== src/MemoryStore/Layout.antt =====
-- crates/arbitro-store/src/memory.rs: where the bytes of the entries stand, and what of a segment's
-- growth an entry's view does not see.
use arbitro.Common.{
  All, Bool-cases, List, [], arith, drop, drop-append, drop_all, false, get_or-append,
  get_or-append_end, inl, inr, leb, leb→le, length, length-append, length-drop, ltb, map,
  take-append, take_all, ℕ, ◌++◌, ◌+◌, ◌-◌, ◌<◌, ◌^◌, ◌∷◌, ◌≡◌, ◌≤◌,
}
use arbitro.Common.Word.{u32_mod}
use arbitro.Subject.{Bytes, gt}
use arbitro.Store.{Entry}
use arbitro.MemoryStore.{
  LogMetadata, MemoryStore, get_entry_view, min_segment_size, segment_in, slice, view_in,
}
use arbitro.MemoryStore.Removal.{sum_bytes}

-- The bytes of the entry lie in a segment that is there, and the lengths fit their fields.
abbrev pub InPlace : List Bytes → Bytes → LogMetadata → Type 0
InPlace sealed active m =
    (m.segment_idx ≤ length sealed)
    × (m.offset + (m.subj_len + m.payload_len) ≤ length (segment_in sealed active m.segment_idx))
    × (m.subj_len < 2 ^ 16)
    × (m.payload_len < u32_mod)

-- The numbers rise between the bounds, and the segments do not fall.
abbrev pub Sorted : ℕ → ℕ → ℕ → List LogMetadata → Type 0
Sorted lo segment hi [] = lo ≤ hi
Sorted lo segment hi (m ∷ ms) =
    (lo ≤ m.seq) × (segment ≤ m.segment_idx) × Sorted (m.seq + 1) m.segment_idx hi ms

-- What every operation keeps.
abbrev pub IsSound : MemoryStore → Type 0
IsSound s =
    (All (InPlace s.sealed s.active) s.index)
    × Sorted s.first_seq 0 s.next_seq s.index
    × (s.total_bytes ≡ sum_bytes s.index)
    × (All (λ segment. length segment ≤ s.segment_size) s.sealed)
    × (length s.active ≤ s.segment_size)
    × (min_segment_size ≤ s.segment_size)

-- The journal that a reader sees.
abbrev pub log : MemoryStore → List Entry
log s = map (get_entry_view s) s.index

backwards : (a b : ℕ) → leb a b ≡ false → b - a ≡ 0
backwards a b h = ground arith

pub slice-append : (xs ys : Bytes) (a b : ℕ) → b ≤ length xs → slice (xs ++ ys) a b ≡ slice xs a b
unfolding slice
slice-append xs ys a b h = elim (Bool-cases (leb a b)) [
  | inl le ↦ rw (
    drop-append a xs ys (omega (arith, h, leb→le a b le)),
    take-append (b - a) (drop a xs) ys (omega (arith, h, length-drop a xs)),
  )
  | inr gt ↦ rw (backwards a b gt)
]

-- The middle of three pieces.
pub slice_middle :
    (xs ys zs : Bytes) (a b : ℕ)
    → a ≡ length xs
    → b ≡ length xs + length ys
    → slice (xs ++ (ys ++ zs)) a b ≡ ys
unfolding slice
slice_middle xs ys zs a b p q =
    rw (drop_all xs (ys ++ zs) a p, take_all ys zs (b - a) (omega (arith, p, q)))

-- A sealed segment is read as it was when it was active.
pub segment_in-sealed :
    (sealed : List Bytes) (active : Bytes) (idx : ℕ)
    → idx ≤ length sealed
    → segment_in (sealed ++ active ∷ []) [] idx ≡ segment_in sealed active idx
unfolding segment_in
segment_in-sealed sealed active idx h = elim (Bool-cases (ltb idx (length sealed))) [
  | inl inside ↦
      ground (arith, get_or-append sealed (active ∷ []) idx [], length-append sealed (active ∷ []))
  | inr last ↦
      ground (arith, get_or-append_end sealed active idx [], length-append sealed (active ∷ []))
]

within_active :
    (sealed : List Bytes) (active : Bytes) (idx n : ℕ)
    → ltb idx (length sealed) ≡ false
    → n ≤ length (segment_in sealed active idx)
    → n ≤ length active
unfolding segment_in
within_active sealed active idx n last h = ground (arith, last, h)

-- Bytes that are added to the active segment are not in the view of an entry.
pub view_in-grow :
    (sealed : List Bytes) (active more : Bytes) (m : LogMetadata)
    → InPlace sealed active m
    → view_in sealed (active ++ more) m ≡ view_in sealed active m
unfolding segment_in view_in
view_in-grow sealed active more m h = elim (Bool-cases (ltb m.segment_idx (length sealed))) [
  | inl inside ↦ rw inside
  | inr last ↦
      let bound =
        within_active sealed active m.segment_idx (m.offset + (m.subj_len + m.payload_len)) last
          h.1 in
      rw (
        last,
        slice-append active more m.offset (m.offset + m.subj_len) (omega (arith, bound)),
        slice-append active more (m.offset + m.subj_len) (m.offset + m.subj_len + m.payload_len)
            (omega (arith, bound)),
      )
]

pub view_in-sealed :
    (sealed : List Bytes) (active : Bytes) (m : LogMetadata)
    → InPlace sealed active m
    → view_in (sealed ++ active ∷ []) [] m ≡ view_in sealed active m
unfolding view_in
view_in-sealed sealed active m h = rw (segment_in-sealed sealed active m.segment_idx h.0)
