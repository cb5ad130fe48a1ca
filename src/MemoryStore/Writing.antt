-- ===== src/MemoryStore/Writing.antt =====
-- crates/arbitro-store/src/memory.rs: `push_entry` writes into a segment that has room, and how a
-- segment is sealed.
use arbitro.Common.{
  ==_refl, All-append, All-map, [], arith, length, length-append, map-append, map_ext, ok, refl, ℕ,
  ◌++◌, ◌+◌, ◌^◌, ◌∷◌, ◌≡◌, ◌≤◌,
}
use arbitro.Common.Word.{add_u64-eq, u32_mod}
use arbitro.Subject.{Bytes}
use arbitro.Store.{EntryRef}
use arbitro.MemoryStore.{LogMetadata, MemoryStore, get_entry_view, write_entry}
use arbitro.MemoryStore.Layout.{InPlace, IsSound, log, view_in-grow, view_in-sealed}
use arbitro.MemoryStore.Placed.{
  CanWrite, InPlace-grow, InPlace-sealed, InPlace-write, Measured, Sorted-append, size_of_ref,
  small, stored, sum_bytes-append, view_in-write,
}

-- The write into a segment that has room for the entry.
module _ (wire_hash_32 : Bytes → ℕ) where
  abbrev pub new_meta : MemoryStore → EntryRef → ℕ → LogMetadata
  new_meta s entry timestamp = record {
    seq = s.next_seq;
    ts = timestamp;
    subj_len = length entry.subject;
    payload_len = length entry.payload;
    offset = length s.active;
    segment_idx = length s.sealed;
    subject_hash = wire_hash_32 entry.subject;
    stream_id = entry.stream_id;
    flags = entry.flags;
  }

  abbrev pub written : MemoryStore → EntryRef → ℕ → MemoryStore
  written s entry timestamp = record s {
    active = s.active ++ (entry.subject ++ entry.payload);
    next_seq = s.next_seq + 1;
    index = s.index ++ new_meta s entry timestamp ∷ [];
    total_bytes = s.total_bytes + size_of_ref entry;
  }

  pub write_entry-written :
      (s : MemoryStore) (entry : EntryRef) (timestamp : ℕ)
      → CanWrite s
      → Measured entry
      → length s.active + size_of_ref entry ≤ s.segment_size
      → write_entry wire_hash_32 s entry timestamp ≡ (written s entry timestamp, ok s.next_seq)
  unfolding write_entry
  write_entry-written s entry timestamp room fits le = rw (
    small (length entry.subject) (2 ^ 16) fits.0,
    small (length entry.payload) u32_mod fits.1,
    ==_refl (length entry.subject),
    ==_refl (length entry.payload),
    small (length s.active) u32_mod (omega (arith, le, room.0)),
    small (length s.sealed) u32_mod (omega (arith, room.1)),
    add_u64-eq s.next_seq 1 room.2,
    add_u64-eq s.total_bytes (size_of_ref entry) (omega (arith, room.3, le)),
  )

  pub written-IsSound :
      (s : MemoryStore) (entry : EntryRef) (timestamp : ℕ)
      → IsSound s
      → Measured entry
      → length s.active + size_of_ref entry ≤ s.segment_size
      → IsSound (written s entry timestamp)
  written-IsSound s entry timestamp sound fits le =
      let bytes = entry.subject ++ entry.payload in
      let m = new_meta s entry timestamp in
      (
        All-append (InPlace s.sealed (s.active ++ bytes)) s.index (m ∷ [])
            (All-map (InPlace s.sealed s.active) (InPlace s.sealed (s.active ++ bytes))
              (InPlace-grow s.sealed s.active bytes) s.index sound.0)
            (
              InPlace-write s.sealed s.active entry.subject entry.payload m refl refl refl refl
                  fits.0 fits.1,
              tt,
            ),
        Sorted-append s.first_seq 0 s.next_seq s.index m sound.1
            (All-map (InPlace s.sealed s.active) (λ x. x.segment_idx ≤ length s.sealed) (λ x h. h.0)
              s.index sound.0)
            (omega arith) refl,
        omega (arith, sound.2, sum_bytes-append s.index m),
        sound.3,
        omega (arith, le, length-append s.active bytes, length-append entry.subject entry.payload),
        sound.5,
      )

  pub written-log :
      (s : MemoryStore) (entry : EntryRef) (timestamp : ℕ)
      → IsSound s
      → log (written s entry timestamp) ≡ log s ++ stored s.next_seq timestamp entry ∷ []
  written-log s entry timestamp sound =
      let bytes = entry.subject ++ entry.payload in
      rw (
        map-append (get_entry_view (written s entry timestamp)) s.index
            (new_meta s entry timestamp ∷ []),
        map_ext (InPlace s.sealed s.active) (get_entry_view (written s entry timestamp))
            (get_entry_view s) (view_in-grow s.sealed s.active bytes) s.index sound.0,
        view_in-write s.sealed s.active entry.subject entry.payload (new_meta s entry timestamp)
            refl refl refl refl,
      )

-- The journal after the segment is sealed: the same for a reader.
unfoldable pub sealed_store : MemoryStore → MemoryStore
sealed_store s = record s { active = []; sealed = s.sealed ++ s.active ∷ [] }

pub sealed_store-IsSound : (s : MemoryStore) → IsSound s → IsSound (sealed_store s)
unfolding sealed_store
sealed_store-IsSound s sound = (
  All-map (InPlace s.sealed s.active) (InPlace (s.sealed ++ s.active ∷ []) [])
      (InPlace-sealed s.sealed s.active) s.index sound.0,
  sound.1,
  sound.2,
  All-append (λ segment. length segment ≤ s.segment_size) s.sealed (s.active ∷ []) sound.3
      (sound.4, tt),
  omega arith,
  sound.5,
)

pub sealed_store-log : (s : MemoryStore) → IsSound s → log (sealed_store s) ≡ log s
unfolding sealed_store
sealed_store-log s sound =
    map_ext (InPlace s.sealed s.active) (get_entry_view (sealed_store s)) (get_entry_view s)
      (view_in-sealed s.sealed s.active) s.index sound.0
