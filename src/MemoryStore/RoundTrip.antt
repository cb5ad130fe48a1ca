-- ===== src/MemoryStore/RoundTrip.antt =====
-- crates/arbitro-store/src/memory.rs: `append` and then `read`.
use arbitro.Common.{
  ==_iff, Bool-cases, List, Result, [], arith, err, false, if◌then◌else◌, inl, inr, map, none, ok,
  refl, some, ℕ, ◌++◌, ◌+◌, ◌==◌, ◌∷◌, ◌≡◌, ◌≤◌,
}
use arbitro.Subject.{Bytes}
use arbitro.Store.{
  Entry, EntryRef, Fault, entry_too_large, full, invalid_subject_length, io, not_found, panicked,
  refused,
}
use arbitro.MemoryStore.{LogMetadata, MemoryStore, push_entry, read, view_in}
use arbitro.MemoryStore.Pushing.{Pushed, push_entry-Pushed}
use arbitro.MemoryStore.Layout.{IsSound, Sorted, log}
use arbitro.MemoryStore.Placed.{HasRoom, Measured, size_of_ref, stored}
use arbitro.MemoryStore.Reading.{entry_at, read-entry_at}

entry_at_last :
    (q : ℕ) (xs : List Entry) (e : Entry)
    → entry_at q xs ≡ none
    → entry_at q (xs ++ e ∷ []) ≡ (if e.seq == q then some e else none)
unfolding entry_at
entry_at_last q [] e h = refl
entry_at_last q (x ∷ xs) e h = ground (arith, h, entry_at_last q xs e)

entry_at_before :
    (q : ℕ) (xs : List Entry) (e : Entry)
    → (e.seq == q) ≡ false
    → entry_at q (xs ++ e ∷ []) ≡ entry_at q xs
unfolding entry_at
entry_at_before q [] e h = rw h refl
entry_at_before q (x ∷ xs) e h = rw (entry_at_before q xs e h) refl

entry_at_beyond :
    (sealed : List Bytes) (active : Bytes) (lo segment hi q : ℕ) (ms : List LogMetadata)
    → Sorted lo segment hi ms
    → hi ≤ q
    → (entry_at q (map (view_in sealed active) ms) ≡ none) × (lo ≤ hi)
unfolding entry_at view_in
entry_at_beyond sealed active lo segment hi q [] sorted h = (refl, sorted)
entry_at_beyond sealed active lo segment hi q (m ∷ ms) sorted h =
    let (none_there, le) =
      entry_at_beyond sealed active (m.seq + 1) m.segment_idx hi q ms sorted.2 h in
    (ground (arith, sorted.0, none_there, le), omega (arith, sorted.0, le))

last_read :
    (s : MemoryStore) (e : Entry) (q : ℕ)
    → IsSound s
    → e.seq ≡ s.next_seq
    → entry_at q (log s ++ e ∷ []) ≡ (if e.seq == q then some e else entry_at q (log s))
last_read s e q sound h = elim (Bool-cases (e.seq == q)) [
  | inl same ↦
      let beyond =
        (entry_at_beyond s.sealed s.active s.first_seq 0 s.next_seq q s.index sound.1
          (omega (arith, h, (==_iff e.seq q).0 same))).0 in
      rw (entry_at_last q (log s) e beyond, same) refl
  | inr other ↦ rw (entry_at_before q (log s) e other, other) refl
]

no_error : (kind : ℕ) → none ≡ some kind → ⊥
no_error kind h = ground (arith, h)

Pushed-read :
    (s : MemoryStore) (entry : EntryRef) (timestamp q : ℕ) (r : MemoryStore × Result Fault ℕ)
    → Pushed s entry timestamp none r
    → IsSound s
    → size_of_ref entry ≤ s.segment_size
    → read r.0 q ≡ (if s.next_seq == q then some (stored s.next_seq timestamp entry) else read s q)
Pushed-read s entry timestamp q (t, ok seq) pushed sound le =
    rw (read-entry_at t q pushed.2, read-entry_at s q sound, pushed.1)
      (last_read s (stored s.next_seq timestamp entry) q sound refl)
Pushed-read s entry timestamp q (t, err (refused entry_too_large)) pushed sound le =
    absurd (omega (arith, pushed.1, le))
Pushed-read s entry timestamp q (t, err (refused (io kind))) pushed sound le =
    absurd (no_error kind pushed.3)
Pushed-read s entry timestamp q (t, err (refused full)) pushed sound le = absurd pushed
Pushed-read s entry timestamp q (t, err (refused not_found)) pushed sound le = absurd pushed
Pushed-read s entry timestamp q (t, err (refused invalid_subject_length)) pushed sound le =
    absurd pushed
Pushed-read s entry timestamp q (t, err panicked) pushed sound le = absurd pushed

module _ (wire_hash_32 : Bytes → ℕ) where
  -- After an append into a sound store whose counters do not wrap, of an entry that fits its fields
  -- and a segment, where the system maps a segment if one is needed: the next number reads as the
  -- entry that was given, and every other number reads as before.
  pub read-push_entry :
      (s : MemoryStore) (entry : EntryRef) (timestamp q : ℕ)
      → IsSound s
      → HasRoom 1 s
      → Measured entry
      → size_of_ref entry ≤ s.segment_size
      → read (push_entry wire_hash_32 s entry timestamp none).0 q
        ≡ (if s.next_seq == q then some (stored s.next_seq timestamp entry) else read s q)
  read-push_entry s entry timestamp q sound room fits le =
      Pushed-read s entry timestamp q (push_entry wire_hash_32 s entry timestamp none)
        (push_entry-Pushed wire_hash_32 s entry timestamp none sound room fits) sound le
