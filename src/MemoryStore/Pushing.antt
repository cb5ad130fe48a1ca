-- ===== src/MemoryStore/Pushing.antt =====
-- crates/arbitro-store/src/memory.rs: `append` adds to the end of the journal.
use arbitro.Common.{
  Bool-cases, Option, Result, [], arith, err, false, inl, inr, length, length-append, ltb, ltb→lt,
  none, ok, refl, some, ℕ, ◌++◌, ◌+◌, ◌<◌, ◌^◌, ◌∷◌, ◌≡◌, ◌≤◌, ◌⊎◌,
}
use arbitro.Common.Word.{u32_mod}
use arbitro.Subject.{Bytes}
use arbitro.Store.{
  EntryRef, Fault, entry_too_large, full, invalid_subject_length, io, not_found, panicked, refused,
}
use arbitro.MemoryStore.{MemoryStore, push_entry, rotate, write_entry}
use arbitro.MemoryStore.Layout.{IsSound, log}
use arbitro.MemoryStore.Placed.{CanWrite, HasRoom, Measured, size_of_ref, small, stored}
use arbitro.MemoryStore.Writing.{
  sealed_store, sealed_store-IsSound, sealed_store-log, write_entry-written, written-IsSound,
  written-log,
}

-- All branches of `push_entry`.
abbrev pub Pushed : MemoryStore → EntryRef → ℕ → Option ℕ → MemoryStore × Result Fault ℕ → Type 0
Pushed s entry timestamp mapping (t, ok seq) =
    (seq ≡ s.next_seq)
    × (log t ≡ log s ++ stored s.next_seq timestamp entry ∷ [])
    × IsSound t
    × (t.next_seq ≡ s.next_seq + 1)
    × (t.first_seq ≡ s.first_seq)
    × (t.segment_size ≡ s.segment_size)
    × (length t.sealed ≤ length s.sealed + 1)
    × (t.total_bytes ≤ s.total_bytes + s.segment_size)
    × (size_of_ref entry ≤ s.segment_size)
    × ((length s.active + size_of_ref entry ≤ s.segment_size) ⊎ (mapping ≡ none))
Pushed s entry timestamp mapping (t, err (refused entry_too_large)) =
    (t ≡ s) × (s.segment_size < size_of_ref entry)
Pushed s entry timestamp mapping (t, err (refused (io kind))) =
    (t ≡ s)
    × (size_of_ref entry ≤ s.segment_size)
    × (s.segment_size < length s.active + size_of_ref entry)
    × (mapping ≡ some kind)
Pushed s entry timestamp mapping (t, _) = ⊥

fits_or_not : (a b : ℕ) → ltb a b ≡ false → b ≤ a
fits_or_not a b h = ground (arith, h)

CanWrite-next : (s : MemoryStore) → HasRoom 1 s → CanWrite s
CanWrite-next s room = (room.0, omega (arith, room.1), room.2, omega (arith, room.3))

CanWrite-sealed_store : (s : MemoryStore) → HasRoom 1 s → CanWrite (sealed_store s)
unfolding sealed_store
CanWrite-sealed_store s room = (
  room.0,
  omega (arith, room.1, length-append s.sealed (s.active ∷ [])),
  room.2,
  omega (arith, room.3),
)

pub Pushed-err :
    (s : MemoryStore) (entry : EntryRef) (timestamp : ℕ) (mapping : Option ℕ) (t : MemoryStore)
    (fault : Fault)
    → Pushed s entry timestamp mapping (t, err fault)
    → t ≡ s
Pushed-err s entry timestamp mapping t (refused entry_too_large) h = h.0
Pushed-err s entry timestamp mapping t (refused (io kind)) h = h.0
Pushed-err s entry timestamp mapping t (refused full) h = absurd h
Pushed-err s entry timestamp mapping t (refused not_found) h = absurd h
Pushed-err s entry timestamp mapping t (refused invalid_subject_length) h = absurd h
Pushed-err s entry timestamp mapping t panicked h = absurd h

module _ (wire_hash_32 : Bytes → ℕ) where
  -- Room in the active segment: the entry is written there.
  Pushed-write :
      (s : MemoryStore) (entry : EntryRef) (timestamp : ℕ) (mapping : Option ℕ)
      → IsSound s
      → CanWrite s
      → Measured entry
      → length s.active + size_of_ref entry ≤ s.segment_size
      → Pushed s entry timestamp mapping (write_entry wire_hash_32 s entry timestamp)
  Pushed-write s entry timestamp mapping sound room fits le =
      rw (write_entry-written wire_hash_32 s entry timestamp room fits le) (
        refl,
        written-log wire_hash_32 s entry timestamp sound,
        written-IsSound wire_hash_32 s entry timestamp sound fits le,
        refl,
        refl,
        refl,
        omega arith,
        omega (arith, le),
        omega (arith, le),
        inl le,
      )

  -- No room: the segment is sealed first, if the system maps a new one.
  Pushed-rotate :
      (s : MemoryStore) (entry : EntryRef) (timestamp : ℕ) (mapping : Option ℕ)
      → IsSound s
      → HasRoom 1 s
      → Measured entry
      → size_of_ref entry ≤ s.segment_size
      → s.segment_size < length s.active + size_of_ref entry
      → Pushed s entry timestamp mapping (elim (rotate s mapping) [
        | ok rotated ↦ write_entry wire_hash_32 rotated entry timestamp
        | err e ↦ (s, err (refused e))
      ])
  unfolding rotate sealed_store
  Pushed-rotate s entry timestamp (some kind) sound room fits small_enough over =
      (refl, small_enough, over, refl)
  Pushed-rotate s entry timestamp none sound room fits small_enough over =
      let t = sealed_store s in
      let sound_t = sealed_store-IsSound s sound in
      rw
        (write_entry-written wire_hash_32 t entry timestamp (CanWrite-sealed_store s room) fits
          (omega (arith, small_enough)))
        (
          refl,
          rw (written-log wire_hash_32 t entry timestamp sound_t, sealed_store-log s sound) refl,
          written-IsSound wire_hash_32 t entry timestamp sound_t fits (omega (arith, small_enough)),
          refl,
          refl,
          refl,
          omega (arith, length-append s.sealed (s.active ∷ [])),
          omega (arith, small_enough),
          small_enough,
          inr refl,
        )

  -- All branches of a push into a sound store whose counters do not wrap, of an entry whose lengths
  -- fit their fields. If it answers with a number, that is the next one, the journal has the entry at
  -- its end and is sound, and the entry fits a segment and either the active one or a new one that
  -- the system maps. It answers that the entry is too large exactly where it fits no segment, with an
  -- error of the system exactly where it fits one, a new segment is needed and it is not mapped, and
  -- both leave the store as it was; it gives no other error and does not panic.
  pub push_entry-Pushed :
      (s : MemoryStore) (entry : EntryRef) (timestamp : ℕ) (mapping : Option ℕ)
      → IsSound s
      → HasRoom 1 s
      → Measured entry
      → Pushed s entry timestamp mapping (push_entry wire_hash_32 s entry timestamp mapping)
  unfolding push_entry
  push_entry-Pushed s entry timestamp mapping sound room fits =
      rw (small (length entry.subject) (2 ^ 16) fits.0, small (length entry.payload) u32_mod fits.1)
        (elim (Bool-cases (ltb s.segment_size (size_of_ref entry))) [
          | inl big ↦ rw big (refl, ltb→lt s.segment_size (size_of_ref entry) big)
          | inr fit ↦
              rw fit (elim (Bool-cases (ltb s.segment_size (length s.active + size_of_ref entry))) [
                | inl over ↦ rw over (
                    Pushed-rotate s entry timestamp mapping sound room fits
                      (fits_or_not s.segment_size (size_of_ref entry) fit)
                      (ltb→lt s.segment_size (length s.active + size_of_ref entry) over))
                | inr within ↦ rw within (
                    Pushed-write s entry timestamp mapping sound (CanWrite-next s room) fits
                      (fits_or_not s.segment_size (length s.active + size_of_ref entry) within))
              ])
        ])
