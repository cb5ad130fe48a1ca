-- ===== src/AckLog/Rewriting.antt =====
-- crates/arbitro-client-tokio/src/ackstore/compact.rs: the content of the new file, and its records.
use arbitro.Common.{
  List, Option, [], ap, append-nil, append_assoc, if◌then◌else◌, leb, lookup, none, refl, some, sym,
  ℕ, ◌++◌, ◌∙◌, ◌∷◌, ◌≡◌,
}
use arbitro.Subject.{Bytes}
use arbitro.AckLog.{Replay, file_magic, frame, live_of, register_op, snapshot_op}
use arbitro.AckLog.Decoding.{LogRecord, payload_of, registered, snapped}
use arbitro.AckLog.Scanning.{log_of}

unfoldable pub insert_sorted : ℕ → List ℕ → List ℕ
insert_sorted n [] = n ∷ []
insert_sorted n (x ∷ xs) =
    let rest = insert_sorted n xs in if leb n x then n ∷ (x ∷ xs) else x ∷ rest

unfoldable pub sort_unstable : List ℕ → List ℕ
sort_unstable [] = []
sort_unstable (x ∷ xs) = insert_sorted x (sort_unstable xs)

unfoldable pub keys {ℓ} : {V : Type ℓ} → List (ℕ × V) → List ℕ
keys [] = []
keys ((k, v) ∷ m) = k ∷ keys m

-- `seqs[seqs.len() - 1]`.
unfoldable pub last_seq : ℕ → List ℕ → ℕ
last_seq first [] = first
last_seq first (x ∷ xs) = last_seq x xs

unfoldable pub snapshot_of : ℕ → ℕ → List ℕ → Bytes
snapshot_of now id [] = []
snapshot_of now id (s ∷ seqs) = frame (snapshot_op id now s (last_seq s seqs) (s ∷ seqs))

-- One pass of the loop, with the name of the slot, which is there.
unfoldable pub compact_slot : ℕ → Replay → ℕ → Option (Bytes × Bytes) → Bytes
compact_slot now r id none = []
compact_slot now r id (some (stream, consumer)) =
    frame (register_op id now stream consumer)
    ++ snapshot_of now id (sort_unstable (keys (live_of id r)))

unfoldable pub compact_slots : ℕ → Replay → List ℕ → Bytes
compact_slots now r [] = []
compact_slots now r (id ∷ ids) =
    compact_slot now r id (lookup id r.names) ++ compact_slots now r ids

-- The content of the new file.
unfoldable pub compacted : ℕ → Replay → Bytes
compacted now r = file_magic ++ compact_slots now r (sort_unstable (keys r.names))

-- The same as records.
unfoldable pub snapshot_records : ℕ → ℕ → List ℕ → List LogRecord
snapshot_records now id [] = []
snapshot_records now id (s ∷ seqs) = snapped id now s (last_seq s seqs) (s ∷ seqs) ∷ []

unfoldable pub slot_records : ℕ → Replay → ℕ → Option (Bytes × Bytes) → List LogRecord
slot_records now r id none = []
slot_records now r id (some (stream, consumer)) =
    registered id now stream consumer
    ∷ snapshot_records now id (sort_unstable (keys (live_of id r)))

unfoldable pub all_records : ℕ → Replay → List ℕ → List LogRecord
all_records now r [] = []
all_records now r (id ∷ ids) = slot_records now r id (lookup id r.names) ++ all_records now r ids

unfoldable pub compacted_records : ℕ → Replay → List LogRecord
compacted_records now r = all_records now r (sort_unstable (keys r.names))

log_of-append : (xs ys : List LogRecord) → log_of (xs ++ ys) ≡ log_of xs ++ log_of ys
unfolding log_of
log_of-append [] ys = refl
log_of-append (x ∷ xs) ys =
    ap (λ bytes. frame (payload_of x) ++ bytes) (log_of-append xs ys)
    ∙ sym (append_assoc (frame (payload_of x)) (log_of xs) (log_of ys))

log_of-snapshot_records :
    (now id : ℕ) (seqs : List ℕ) → log_of (snapshot_records now id seqs) ≡ snapshot_of now id seqs
unfolding log_of snapshot_records snapshot_of payload_of
log_of-snapshot_records now id [] = refl
log_of-snapshot_records now id (s ∷ seqs) = append-nil _

log_of-slot_records :
    (now : ℕ) (r : Replay) (id : ℕ) (name : Option (Bytes × Bytes))
    → log_of (slot_records now r id name) ≡ compact_slot now r id name
unfolding log_of slot_records compact_slot payload_of
log_of-slot_records now r id none = refl
log_of-slot_records now r id (some (stream, consumer)) =
    ap (λ bytes. frame (register_op id now stream consumer) ++ bytes)
      (log_of-snapshot_records now id (sort_unstable (keys (live_of id r))))

pub log_of-all_records :
    (now : ℕ) (r : Replay) (ids : List ℕ) → log_of (all_records now r ids) ≡ compact_slots now r ids
unfolding log_of all_records compact_slots
log_of-all_records now r [] = refl
log_of-all_records now r (id ∷ ids) =
    log_of-append (slot_records now r id (lookup id r.names)) (all_records now r ids)
    ∙ rw (log_of-slot_records now r id (lookup id r.names), log_of-all_records now r ids) refl
