-- ===== src/AckLog/Decoding.antt =====
-- crates/arbitro-client-tokio/src/ackstore/format.rs: `decode_payload` reads what the encoders write.
use arbitro.Common.Word.{u32_mod}
use arbitro.Common.{
  All, Bool, List, [], arith, drop_all, false, if◌then◌else◌, length, length-append, ltb, none, not,
  refl, some, take_all, take_whole, true, ℕ, ◌%◌, ◌*◌, ◌+◌, ◌<◌, ◌==◌, ◌^◌, ◌||◌, ◌∷◌, ◌≡◌, ◌≤◌,
}
use arbitro.Subject.{Bytes}
use arbitro.Wire.{u16_bytes, u32_bytes, u64_bytes}
use arbitro.AckLog.{
  Decoded, blank, decode_payload, is_seq_op, op_register, op_snapshot, op_tombstone, read_seqs,
  register_op, seq_op, seqs_bytes, snapshot_op, tombstone,
}

-- The records that a log has, with what their payloads say.
pub data LogRecord : Type 0 where
  numbered : ℕ → ℕ → ℕ → ℕ → LogRecord
  forgotten : ℕ → ℕ → LogRecord
  registered : ℕ → ℕ → Bytes → Bytes → LogRecord
  snapped : ℕ → ℕ → ℕ → ℕ → List ℕ → LogRecord

unfoldable pub payload_of : LogRecord → Bytes
payload_of (numbered op slot_id ts_ms seq) = seq_op op slot_id ts_ms seq
payload_of (forgotten slot_id ts_ms) = tombstone slot_id ts_ms
payload_of (registered slot_id ts_ms stream consumer) = register_op slot_id ts_ms stream consumer
payload_of (snapped slot_id ts_ms min_seq max_seq seqs) =
    snapshot_op slot_id ts_ms min_seq max_seq seqs

unfoldable pub meaning : LogRecord → Decoded
meaning (numbered op slot_id ts_ms seq) = record (blank op slot_id ts_ms) { seq = seq }
meaning (forgotten slot_id ts_ms) = blank op_tombstone slot_id ts_ms
meaning (registered slot_id ts_ms stream consumer) = record (blank op_register slot_id ts_ms) {
  stream = stream;
  consumer = consumer;
}
meaning (snapped slot_id ts_ms min_seq max_seq seqs) = record (blank op_snapshot slot_id ts_ms) {
  seqs = seqs;
}

-- Every field fits its bytes, and the payload fits the limit of the replay.
abbrev pub InRange : LogRecord → Type 0
InRange (numbered op slot_id ts_ms seq) =
    (is_seq_op op ≡ true) × (slot_id < 2 ^ 32) × (ts_ms < 2 ^ 64) × (seq < 2 ^ 64)
InRange (forgotten slot_id ts_ms) = (slot_id < 2 ^ 32) × (ts_ms < 2 ^ 64)
InRange (registered slot_id ts_ms stream consumer) =
    (slot_id < 2 ^ 32) × (ts_ms < 2 ^ 64) × (length stream < 2 ^ 16) × (length consumer < 2 ^ 16)
InRange (snapped slot_id ts_ms min_seq max_seq seqs) =
    (slot_id < 2 ^ 32)
    × (ts_ms < 2 ^ 64)
    × (33 + length seqs * 8 ≤ 64 * 1024 * 1024)
    × All (λ s. s < 2 ^ 64) seqs

small16 : (n : ℕ) → n < 2 ^ 16 → n % 2 ^ 16 ≡ n
small16 n h = omega arith

pub small32 : (n : ℕ) → n < 2 ^ 32 → n % u32_mod ≡ n
small32 n h = omega arith

passed {ℓ} :
    {A : Type ℓ} (test : Bool) (x : A) → test ≡ false → (if test then none else some x) ≡ some x
passed test x h = rw h refl

counted : (k n : ℕ) → n ≡ 33 + k → (ltb n 33 || not (33 + k == n)) ≡ false
counted k n h = ground arith

decode_payload-seq_op :
    (op slot_id ts_ms seq : ℕ)
    → InRange (numbered op slot_id ts_ms seq)
    → decode_payload (seq_op op slot_id ts_ms seq) ≡ some (meaning (numbered op slot_id ts_ms seq))
unfolding decode_payload seq_op meaning
decode_payload-seq_op op slot_id ts_ms seq (kind, slot, ts, number) =
    rw (kind, u32_bytes slot_id slot, u64_bytes ts_ms ts, u64_bytes seq number) refl

decode_payload-tombstone :
    (slot_id ts_ms : ℕ)
    → InRange (forgotten slot_id ts_ms)
    → decode_payload (tombstone slot_id ts_ms) ≡ some (meaning (forgotten slot_id ts_ms))
unfolding decode_payload tombstone meaning is_seq_op
decode_payload-tombstone slot_id ts_ms (slot, ts) =
    rw (u32_bytes slot_id slot, u64_bytes ts_ms ts) refl

-- The lengths that a registration's payload says are its own.
fits : (a b n : ℕ) → n ≡ 17 + a + b → (ltb n 17 || not (17 + a + b == n)) ≡ false
fits a b n h = ground arith

decode_payload-register_op :
    (slot_id ts_ms : ℕ) (stream consumer : Bytes)
    → InRange (registered slot_id ts_ms stream consumer)
    → decode_payload (register_op slot_id ts_ms stream consumer)
      ≡ some (meaning (registered slot_id ts_ms stream consumer))
unfolding decode_payload register_op meaning is_seq_op
decode_payload-register_op slot_id ts_ms stream consumer (slot, ts, a, b) =
    rw
      (
        u32_bytes slot_id slot,
        u64_bytes ts_ms ts,
        small16 (length stream) a,
        small16 (length consumer) b,
        u16_bytes (length stream) a,
        u16_bytes (length consumer) b,
        length-append stream consumer,
        take_all stream consumer (length stream) refl,
        drop_all stream consumer (length stream) refl,
        take_whole consumer (length consumer) refl,
      )
      (passed _ _ (fits (length stream) (length consumer) _ (omega arith)))

pub seqs_bytes-length : (seqs : List ℕ) → length (seqs_bytes seqs) ≡ length seqs * 8
unfolding seqs_bytes
seqs_bytes-length [] = refl
seqs_bytes-length (s ∷ seqs) = omega (arith, seqs_bytes-length seqs)

read_seqs-seqs_bytes :
    (seqs : List ℕ) → All (λ s. s < 2 ^ 64) seqs → read_seqs (length seqs) (seqs_bytes seqs) ≡ seqs
unfolding read_seqs seqs_bytes
read_seqs-seqs_bytes [] all = refl
read_seqs-seqs_bytes (s ∷ seqs) (h, all) = rw (u64_bytes s h, read_seqs-seqs_bytes seqs all) refl

decode_payload-snapshot_op :
    (slot_id ts_ms min_seq max_seq : ℕ) (seqs : List ℕ)
    → InRange (snapped slot_id ts_ms min_seq max_seq seqs)
    → decode_payload (snapshot_op slot_id ts_ms min_seq max_seq seqs)
      ≡ some (meaning (snapped slot_id ts_ms min_seq max_seq seqs))
unfolding decode_payload snapshot_op meaning is_seq_op
decode_payload-snapshot_op slot_id ts_ms min_seq max_seq seqs (slot, ts, size, all) =
    rw
      (
        u32_bytes slot_id slot,
        u64_bytes ts_ms ts,
        small32 (length seqs) (omega (arith, size)),
        u32_bytes (length seqs) (omega (arith, size)),
        seqs_bytes-length seqs,
        read_seqs-seqs_bytes seqs all,
      )
      (passed _ _ (counted (length seqs * 8) _ (omega arith)))

-- What the replay reads from a payload that an encoder wrote is the record that was written: its
-- kind, its slot, its time, and its number, names or numbers, for fields that fit their bytes.
pub decode_payload-payload_of :
    (r : LogRecord) → InRange r → decode_payload (payload_of r) ≡ some (meaning r)
unfolding payload_of
decode_payload-payload_of (numbered op slot_id ts_ms seq) h =
    decode_payload-seq_op op slot_id ts_ms seq h
decode_payload-payload_of (forgotten slot_id ts_ms) h = decode_payload-tombstone slot_id ts_ms h
decode_payload-payload_of (registered slot_id ts_ms stream consumer) h =
    decode_payload-register_op slot_id ts_ms stream consumer h
decode_payload-payload_of (snapped slot_id ts_ms min_seq max_seq seqs) h =
    decode_payload-snapshot_op slot_id ts_ms min_seq max_seq seqs h
