-- ===== src/MemoryStore/Appending.antt =====
-- crates/arbitro-store/src/memory.rs: `append_batch` adds to the end of the journal.
use arbitro.Common.{
  All, List, Option, Result, [], ap, append-nil, append_assoc, arith, err, length, none, ok, refl,
  some, suc, sym, take, ℕ, ◌++◌, ◌+◌, ◌<◌, ◌∙◌, ◌∷◌, ◌≡◌, ◌≤◌,
}
use arbitro.Subject.{Bytes, answer}
use arbitro.Store.{Entry, EntryRef, Fault}
use arbitro.MemoryStore.{MemoryStore, append_batch, push_all, push_entry}
use arbitro.MemoryStore.Pushing.{Pushed, Pushed-err, push_entry-Pushed}
use arbitro.MemoryStore.Layout.{IsSound, log}
use arbitro.MemoryStore.Placed.{HasRoom, Measured, stored}

-- What a batch leaves in the journal: numbers in a row, one timestamp.
unfoldable pub stored_all : ℕ → ℕ → List EntryRef → List Entry
stored_all seq timestamp [] = []
stored_all seq timestamp (entry ∷ entries) =
    stored seq timestamp entry ∷ stored_all (seq + 1) timestamp entries

-- A fault stops the loop before the end of the batch.
abbrev pub Stopped : Option Fault → ℕ → ℕ → Type 0
Stopped none k n = k ≡ n
Stopped (some fault) k n = k < n

abbrev pub Batched : MemoryStore → List EntryRef → ℕ → MemoryStore × Option Fault → ℕ → Type 0
Batched s entries timestamp (t, fault) k =
    Stopped fault k (length entries)
    × (log t ≡ log s ++ stored_all s.next_seq timestamp (take k entries))
    × IsSound t
    × (t.next_seq ≡ s.next_seq + k)

HasRoom-next :
    (s t : MemoryStore) (n : ℕ)
    → HasRoom (suc n) s
    → t.next_seq ≡ s.next_seq + 1
    → t.segment_size ≡ s.segment_size
    → length t.sealed ≤ length s.sealed + 1
    → t.total_bytes ≤ s.total_bytes + s.segment_size
    → HasRoom n t
HasRoom-next s t n room a b c d = (
  omega (arith, b, room.0),
  omega (arith, c, room.1),
  omega (arith, a, room.2),
  rw b (grind (arith, room.3, d)),
)

Stopped-suc : (fault : Option Fault) (k n : ℕ) → Stopped fault k n → Stopped fault (suc k) (suc n)
Stopped-suc none k n h = ap suc h
Stopped-suc (some f) k n h = omega (arith, h)

HasRoom-one : (s : MemoryStore) (n : ℕ) → HasRoom (suc n) s → HasRoom 1 s
HasRoom-one s n room = (room.0, omega (arith, room.1), omega (arith, room.2), grind (arith, room.3))

abbrev pub Answers : ℕ → ℕ → Result Fault ℕ → ℕ → Type 0
Answers first n (ok seq) k = (seq ≡ first) × (k ≡ n)
Answers first n (err fault) k = k < n

-- The first k entries are stored: all of them where the call answers with the first number.
abbrev pub Stores : MemoryStore → List EntryRef → ℕ → MemoryStore × Result Fault ℕ → ℕ → Type 0
Stores s entries timestamp (t, answer) k =
    Answers s.next_seq (length entries) answer k
    × (log t ≡ log s ++ stored_all s.next_seq timestamp (take k entries))
    × IsSound t
    × (t.next_seq ≡ s.next_seq + k)

Stores-Batched :
    (s : MemoryStore) (entries : List EntryRef) (timestamp : ℕ) (r : MemoryStore × Option Fault)
    (k : ℕ)
    → Batched s entries timestamp r k
    → Stores s entries timestamp (r.0, elim r.1 [ none ↦ ok s.next_seq | some f ↦ err f ]) k
Stores-Batched s entries timestamp (t, none) k b = ((refl, b.0), b.1, b.2, b.3)
Stores-Batched s entries timestamp (t, some fault) k b = (b.0, b.1, b.2, b.3)

log_step :
    (l ys xs : List Entry) (n m timestamp : ℕ) (entry : EntryRef) (entries : List EntryRef)
    → l ≡ ys ++ stored_all n timestamp entries
    → ys ≡ xs ++ stored m timestamp entry ∷ []
    → n ≡ m + 1
    → l ≡ xs ++ stored_all m timestamp (entry ∷ entries)
unfolding stored_all
log_step l ys xs n m timestamp entry entries p q r =
    rw (p, q, r)
      (append_assoc xs (stored m timestamp entry ∷ []) (stored_all (m + 1) timestamp entries))

module _ (wire_hash_32 : Bytes → ℕ) where
  Batched-next :
      (s : MemoryStore) (entry : EntryRef) (entries : List EntryRef) (timestamp : ℕ)
      (mapping : Option ℕ) (r : MemoryStore × Result Fault ℕ)
      → Pushed s entry timestamp mapping r
      → IsSound s
      → (rest : MemoryStore → MemoryStore × Option Fault)
      → ((t : MemoryStore)
          → r.0 ≡ t
          → IsSound t
          → HasRoom (length entries) t
          → (k : ℕ) × Batched t entries timestamp (rest t) k)
      → HasRoom (suc (length entries)) s
      → (k : ℕ) × Batched s
          (entry ∷ entries)
          timestamp
          (elim r.1 [ ok seq ↦ rest r.0 | err fault ↦ (r.0, some fault) ])
          k
  unfolding stored_all
  Batched-next s entry entries timestamp mapping (t, ok seq) pushed sound rest ih room =
      let (k, b) =
        ih t refl pushed.2
          (HasRoom-next s t (length entries) room pushed.3 pushed.5 pushed.6 pushed.7) in
      (
        suc k,
        (
          Stopped-suc (rest t).1 k (length entries) b.0,
          log_step (log (rest t).0) (log t) (log s) t.next_seq s.next_seq timestamp entry
              (take k entries) b.1 pushed.1 pushed.3,
          b.2,
          omega (arith, b.3, pushed.3),
        ),
      )
  Batched-next s entry entries timestamp mapping (t, err fault) pushed sound rest ih room =
      let same = Pushed-err s entry timestamp mapping t fault pushed in
      (
        0,
        (omega arith, ap log same ∙ sym (append-nil (log s)), rw same sound, rw same (omega arith)),
      )

  pub push_all-Batched :
      (s : MemoryStore) (entries : List EntryRef) (timestamp : ℕ) (mappings : ℕ → Option ℕ)
      → IsSound s
      → HasRoom (length entries) s
      → All Measured entries
      → (k : ℕ) × Batched s entries timestamp (push_all wire_hash_32 s entries timestamp mappings) k
  unfolding push_all stored_all
  push_all-Batched s [] timestamp mappings sound room fits =
      (0, (refl, sym (append-nil (log s)), sound, omega arith))
  push_all-Batched s (entry ∷ entries) timestamp mappings sound room fits =
      Batched-next s entry entries timestamp (mappings 0)
        (push_entry wire_hash_32 s entry timestamp (mappings 0))
        (push_entry-Pushed wire_hash_32 s entry timestamp (mappings 0) sound
          (HasRoom-one s (length entries) room) fits.0)
        sound (λ t. push_all wire_hash_32 t entries timestamp (λ n. mappings (suc n)))
        (λ t e sound_t room_t.
          push_all-Batched t entries timestamp (λ n. mappings (suc n)) sound_t room_t fits.1)
        room

  -- A batch, in a sound store whose counters do not wrap on the way, of entries whose lengths fit
  -- their fields: the journal gets the first k entries at its end, numbered from the next number on,
  -- and stays sound. Where the call answers with a number it is that of the first entry and k is the
  -- length of the batch; where it answers with an error k is less.
  pub append_batch-Stores :
      (s : MemoryStore) (entries : List EntryRef) (timestamp : ℕ) (mappings : ℕ → Option ℕ)
      → IsSound s
      → HasRoom (length entries) s
      → All Measured entries
      → (k : ℕ) × Stores s entries timestamp
          (append_batch wire_hash_32 s entries timestamp mappings)
          k
  unfolding append_batch
  append_batch-Stores s entries timestamp mappings sound room fits =
      let (k, b) = push_all-Batched s entries timestamp mappings sound room fits in
      (
        k,
        Stores-Batched s entries timestamp (push_all wire_hash_32 s entries timestamp mappings) k b,
      )
