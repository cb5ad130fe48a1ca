-- ===== src/MemoryStore/Draining.antt =====
-- crates/arbitro-store/src/memory.rs: `drain` rebuilds the store without the entries of one stream
-- that match a pattern.
use arbitro.Common.{
  All, List, [], arith, drop, length, length-map, length-take_le, map, none, refl, suc, zero, ℕ,
  ◌*◌, ◌+◌, ◌-◌, ◌<◌, ◌∷◌, ◌≡◌, ◌≤◌,
}
use arbitro.Common.Word.{u32_mod, u64_mod}
use arbitro.Subject.{Bytes}
use arbitro.MemoryStore.{
  LogMetadata, MemoryStore, get_entry_view, segment_in, slice, view_in, with_segment_size,
}
use arbitro.MemoryStore.Removal.{drain, drain_loop, sum_bytes}
use arbitro.MemoryStore.Layout.{InPlace, IsSound, Sorted, log}
use arbitro.MemoryStore.Rebuilding.{
  Drained, Rising, Rising-weaken, Sorted-weaken, Stored, drain_loop-Drained, without,
}

-- What soundness says of the journal.
Sorted-Rising :
    (sealed : List Bytes) (active : Bytes) (lo segment hi : ℕ) (ms : List LogMetadata)
    → Sorted lo segment hi ms
    → Rising lo (map (view_in sealed active) ms)
      × All (λ e. e.seq < hi) (map (view_in sealed active) ms)
      × (lo ≤ hi)
unfolding view_in
Sorted-Rising sealed active lo segment hi [] sorted = (tt, tt, sorted)
Sorted-Rising sealed active lo segment hi (m ∷ ms) sorted =
    let (rising, bounded, le) =
      Sorted-Rising sealed active (m.seq + 1) m.segment_idx hi ms sorted.2 in
    ((sorted.0, rising), (omega (arith, le), bounded), omega (arith, sorted.0, le))

length-slice : (bytes : Bytes) (a b n : ℕ) → b ≡ a + n → length (slice bytes a b) ≤ n
unfolding slice
length-slice bytes a b n h = omega (arith, length-take_le (b - a) (drop a bytes), h)

segment_size_bound :
    (sealed : List Bytes) (active : Bytes) (size idx : ℕ)
    → All (λ segment. length segment ≤ size) sealed
    → length active ≤ size
    → length (segment_in sealed active idx) ≤ size
unfolding segment_in
segment_size_bound [] active size idx h k = ground (arith, k)
segment_size_bound (x ∷ sealed) active size zero h k = ground (arith, h.0)
segment_size_bound (x ∷ sealed) active size (suc idx) h k =
    ground (arith, segment_size_bound sealed active size idx h.1 k)

InPlace-Stored :
    (sealed : List Bytes) (active : Bytes) (size : ℕ) (ms : List LogMetadata)
    → All (λ segment. length segment ≤ size) sealed
    → length active ≤ size
    → All (InPlace sealed active) ms
    → Stored size (map (view_in sealed active) ms)
unfolding view_in
InPlace-Stored sealed active size [] h k place = tt
InPlace-Stored sealed active size (m ∷ ms) h k place = (
  omega (
    arith,
    place.0.2,
    length-slice (segment_in sealed active m.segment_idx) m.offset (m.offset + m.subj_len)
        m.subj_len refl,
  ),
  omega (
    arith,
    place.0.3,
    length-slice (segment_in sealed active m.segment_idx) (m.offset + m.subj_len)
        (m.offset + m.subj_len + m.payload_len) m.payload_len refl,
  ),
  omega (
    arith,
    place.0.1,
    segment_size_bound sealed active size m.segment_idx h k,
    length-slice (segment_in sealed active m.segment_idx) m.offset (m.offset + m.subj_len)
        m.subj_len refl,
    length-slice (segment_in sealed active m.segment_idx) (m.offset + m.subj_len)
        (m.offset + m.subj_len + m.payload_len) m.payload_len refl,
  ),
  InPlace-Stored sealed active size ms h k place.1,
)

rebased :
    (lo segment hi top : ℕ) (ms : List LogMetadata)
    → Sorted lo segment hi ms
    → hi ≤ top
    → Sorted (elim ms [ [] ↦ top | m ∷ rest ↦ m.seq ]) 0 top ms
rebased lo segment hi top [] sorted h = omega arith
rebased lo segment hi top (m ∷ ms) sorted h =
    (omega arith, omega arith, Sorted-weaken (m.seq + 1) m.segment_idx hi top ms sorted.2 h)

rebased_store :
    (u : MemoryStore) (top : ℕ)
    → IsSound u
    → u.next_seq ≤ top
    → Sorted (elim u.index [ [] ↦ top | m ∷ rest ↦ m.seq ]) 0 top u.index
rebased_store u top sound h = rebased u.first_seq 0 u.next_seq top u.index sound.1 h

sum_bytes_none : 0 ≡ sum_bytes []
unfolding sum_bytes
sum_bytes_none = refl

module _ (wire_hash_32 : Bytes → ℕ) where
  -- In a sound store, where the counters of the new store do not wrap and the system maps every
  -- segment: `drain` removes exactly the entries of the stream under a subject that the pattern
  -- matches, all of the stream where the pattern is empty, and keeps the others as they were, in
  -- their order and under their numbers. The store is sound, its next
  -- number is the old one, and the answer counts what has gone.
  pub drain-without :
      (s : MemoryStore) (stream_id : ℕ) (subject : Bytes)
      → IsSound s
      → s.segment_size < u32_mod
      → length s.index < u32_mod
      → s.next_seq < u64_mod
      → length s.index * s.segment_size < u64_mod
      → 1 ≤ s.first_seq
      → (log (drain wire_hash_32 s stream_id subject (λ n. none)).0
          ≡ without stream_id subject (log s))
        × IsSound (drain wire_hash_32 s stream_id subject (λ n. none)).0
        × ((drain wire_hash_32 s stream_id subject (λ n. none)).0.next_seq ≡ s.next_seq)
        × ((drain wire_hash_32 s stream_id subject (λ n. none)).1
              + length (without stream_id subject (log s))
            ≡ length (log s))
  unfolding drain Drained
  drain-without s stream_id subject sound small_segments few room total first =
      let (rising, bounded, le) =
        Sorted-Rising s.sealed s.active s.first_seq 0 s.next_seq s.index sound.1 in
      let d =
        drain_loop-Drained wire_hash_32 stream_id subject (with_segment_size s.segment_size) (log s)
          1 s.next_seq s.segment_size
          (
            (tt, omega arith, sum_bytes_none, tt, omega arith, omega arith),
            omega arith,
            refl,
            omega (arith, sound.5),
            omega (arith, few, length-map (get_entry_view s) s.index),
            rw (length-map (get_entry_view s) s.index) (omega (arith, total)),
          )
          small_segments room (omega (arith, first, le))
          (Rising-weaken 1 s.first_seq (log s) first rising) bounded
          (InPlace-Stored s.sealed s.active s.segment_size s.index sound.3 sound.4 sound.0) in
      (
        d.0,
        (
          d.1.0,
          rebased_store
              (drain_loop wire_hash_32 stream_id subject (with_segment_size s.segment_size) (log s)
                (λ n. none)).0
              s.next_seq d.1 d.2,
          d.1.2,
          d.1.3,
          d.1.4,
          d.1.5,
        ),
        refl,
        d.4,
      )
