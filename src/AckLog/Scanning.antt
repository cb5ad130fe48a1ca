-- ===== src/AckLog/Scanning.antt =====
-- crates/arbitro-client-tokio/src/ackstore/wal.rs (scan_bytes): the frames of a log are read up to a
-- torn one.
use arbitro.AckLog.Framing.{next_frame-frame, next_frame-take}
use arbitro.Common.{
  All, List, [], ap, append-nil, append_assoc, arith, drop_all, false, if◌then◌else◌, length,
  length-append, ltb, none, not, refl, suc, sym, take, true, zero, ℕ, ◌++◌, ◌+◌, ◌<◌, ◌||◌, ◌∙◌,
  ◌∷◌, ◌≡◌, ◌≤◌,
}
use arbitro.Subject.{Bytes, bytes_eq}
use arbitro.Wire.{le_bytes}
use arbitro.AckLog.Decoding.{
  InRange, LogRecord, decode_payload-payload_of, forgotten, meaning, numbered, payload_of,
  registered, seqs_bytes-length, snapped,
}
use arbitro.AckLog.{
  Replay, apply_replay, crc32c, file_magic, frame, max_payload, next_frame, no_replay, register_op,
  scan_bytes, scan_loop, seq_op, snapshot_op, tombstone,
}

payload_of-size :
    (r : LogRecord)
    → InRange r
    → (0 < length (payload_of r)) × (length (payload_of r) ≤ max_payload)
unfolding payload_of seq_op tombstone register_op snapshot_op
payload_of-size (numbered op slot_id ts_ms seq) h = (omega arith, omega arith)
payload_of-size (forgotten slot_id ts_ms) h = (omega arith, omega arith)
payload_of-size (registered slot_id ts_ms stream consumer) (slot, ts, a, b) =
    (omega arith, omega (arith, a, b, length-append stream consumer))
payload_of-size (snapped slot_id ts_ms min_seq max_seq seqs) (slot, ts, size, all) =
    (omega arith, omega (arith, size, seqs_bytes-length seqs))

length-frame : (payload : Bytes) → length (frame payload) ≡ 4 + length payload + 4
unfolding frame
length-frame payload = omega (arith, length-append payload (le_bytes 4 (crc32c payload)))

-- The frames that the encoders write for some records, one after the other.
unfoldable pub log_of : List LogRecord → Bytes
log_of [] = []
log_of (r ∷ records) = frame (payload_of r) ++ log_of records

-- A byte of fuel for each byte is enough.
enough_fuel :
    (records : List LogRecord) → All InRange records → length records ≤ length (log_of records)
unfolding log_of
enough_fuel [] all = omega arith
enough_fuel (x ∷ records) (h, all) = omega (
  arith,
  enough_fuel records all,
  length-frame (payload_of x),
  length-append (frame (payload_of x)) (log_of records),
)

module _ (from_utf8_lossy : Bytes → Bytes) (ttl_cutoff : ℕ) where
  -- What the replay makes of some records.
  unfoldable pub replayed : Replay → List LogRecord → Replay
  replayed r [] = r
  replayed r (x ∷ records) =
      replayed (apply_replay from_utf8_lossy ttl_cutoff r (meaning x)) records

  scan_loop-frame :
      (x : LogRecord) (rest : Bytes) (fuel good : ℕ) (r : Replay)
      → InRange x
      → scan_loop from_utf8_lossy ttl_cutoff (suc fuel) (frame (payload_of x) ++ rest) good r
        ≡ scan_loop from_utf8_lossy ttl_cutoff fuel rest
            (good + (4 + length (payload_of x) + 4))
            (apply_replay from_utf8_lossy ttl_cutoff r (meaning x))
  unfolding scan_loop
  scan_loop-frame x rest fuel good r h =
      rw
        (
          scan_loop,
          next_frame-frame (payload_of x) rest (meaning x) (payload_of-size x h).0
              (payload_of-size x h).1 (decode_payload-payload_of x h),
          drop_all (frame (payload_of x)) rest (4 + length (payload_of x) + 4)
              (sym (length-frame (payload_of x))),
        )
        refl

  scan_loop-log_of :
      (records : List LogRecord) (torn : Bytes) (fuel good : ℕ) (r : Replay)
      → All InRange records
      → next_frame torn ≡ none
      → length records ≤ fuel
      → scan_loop from_utf8_lossy ttl_cutoff fuel (log_of records ++ torn) good r
        ≡ (replayed r records, good + length (log_of records))
  unfolding scan_loop log_of replayed
  scan_loop-log_of [] torn zero good r all stop enough = ap (λ n. (r, n)) (omega arith)
  scan_loop-log_of [] torn (suc fuel) good r all stop enough =
      rw (scan_loop, stop) (ap (λ n. (r, n)) (omega arith))
  scan_loop-log_of (x ∷ records) torn zero good r all stop enough = absurd (omega arith)
  scan_loop-log_of (x ∷ records) torn (suc fuel) good r (h, all) stop enough =
      let size = 4 + length (payload_of x) + 4 in
      ap (λ bytes. scan_loop from_utf8_lossy ttl_cutoff (suc fuel) bytes good r)
        (append_assoc (frame (payload_of x)) (log_of records) torn)
      ∙ scan_loop-frame x (log_of records ++ torn) fuel good r h
      ∙ scan_loop-log_of records torn fuel (good + size)
          (apply_replay from_utf8_lossy ttl_cutoff r (meaning x)) all stop (omega arith)
      ∙ ap (λ n. (replayed r (x ∷ records), n))
          (omega (
            arith,
            length-append (frame (payload_of x)) (log_of records),
            length-frame (payload_of x),
          ))

nothing : next_frame [] ≡ none
unfolding next_frame
nothing = refl

magic_matches : bytes_eq file_magic file_magic ≡ true
unfolding bytes_eq
magic_matches = refl

headed : (n : ℕ) → 8 ≤ n → (ltb n 8 || not (bytes_eq file_magic file_magic)) ≡ false
headed n h = ground (arith, magic_matches)

scan_bytes-file_magic :
    (from_utf8_lossy : Bytes → Bytes) (ttl_cutoff : ℕ) (rest : Bytes)
    → scan_bytes from_utf8_lossy ttl_cutoff (file_magic ++ rest)
      ≡ scan_loop from_utf8_lossy ttl_cutoff (length (file_magic ++ rest)) rest 8 no_replay
unfolding scan_bytes
scan_bytes-file_magic from_utf8_lossy ttl_cutoff rest =
    ap
      (λ test.
        if test
        then (no_replay, 0)
        else scan_loop from_utf8_lossy ttl_cutoff (length (file_magic ++ rest)) rest 8 no_replay)
      (headed (length (file_magic ++ rest)) (omega arith))

pub scan_bytes-log_of :
    (from_utf8_lossy : Bytes → Bytes) (ttl_cutoff : ℕ) (records : List LogRecord)
    → All InRange records
    → scan_bytes from_utf8_lossy ttl_cutoff (file_magic ++ log_of records)
      ≡ (replayed from_utf8_lossy ttl_cutoff no_replay records, 8 + length (log_of records))
scan_bytes-log_of from_utf8_lossy ttl_cutoff records all =
    ap (λ bytes. scan_bytes from_utf8_lossy ttl_cutoff (file_magic ++ bytes))
      (sym (append-nil (log_of records)))
    ∙ scan_bytes-file_magic from_utf8_lossy ttl_cutoff (log_of records ++ [])
    ∙ scan_loop-log_of from_utf8_lossy ttl_cutoff records [] _ 8 no_replay all nothing
        (omega (arith, enough_fuel records all, length-append (log_of records) []))

-- A restart after a crash in the middle of a write: the log of some records, then a proper part of
-- the frame of one more, all with fields that fit their bytes, is read to the state that the complete
-- records make, and the offset is the end of the last complete one, where the file is cut.
pub scan_bytes-torn :
    (from_utf8_lossy : Bytes → Bytes) (ttl_cutoff : ℕ) (records : List LogRecord) (r : LogRecord)
    (k : ℕ)
    → All InRange records
    → InRange r
    → k < length (frame (payload_of r))
    → scan_bytes from_utf8_lossy ttl_cutoff
        (file_magic ++ (log_of records ++ take k (frame (payload_of r))))
      ≡ (replayed from_utf8_lossy ttl_cutoff no_replay records, 8 + length (log_of records))
scan_bytes-torn from_utf8_lossy ttl_cutoff records r k all h part =
    let rest = log_of records ++ take k (frame (payload_of r)) in
    scan_bytes-file_magic from_utf8_lossy ttl_cutoff rest
    ∙ scan_loop-log_of from_utf8_lossy ttl_cutoff records (take k (frame (payload_of r))) _ 8
        no_replay all
        (next_frame-take (payload_of r) k (payload_of-size r h).1
          (omega (arith, part, length-frame (payload_of r))))
        (omega (
          arith,
          enough_fuel records all,
          length-append (log_of records) (take k (frame (payload_of r))),
        ))
