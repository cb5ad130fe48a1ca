-- ===== src/Wire/Acks.antt =====
-- crates/arbitro-proto/src/v2/ingress/ack_frame.rs and nack_frame.rs: the frames of acknowledgements. The
-- two files have one layout: the key is `sub_id` or `subject_hash`, the last field `_pad` or `delay_ms`.
use arbitro.Common.{
  List, Option, [], drop, if◌then◌else◌, length, ltb, map, none, some, suc, zero, ℕ, ◌%◌, ◌*◌, ◌++◌,
  ◌+◌, ◌^◌, ◌∷◌,
}
use arbitro.Subject.{Bytes}
use arbitro.Action.{Action, as_u16, batch_ack, batch_nack, nack}
use arbitro.Wire.{Header, field, header_bytes, header_of, le_bytes, new_header}

pub record AckFrame : Type 0 where
  pub header : Header
  pub consumer_id : ℕ
  pub key : ℕ
  pub ack_seq : ℕ

-- `AckFrame::new` and `NackFrame::new`, by the action.
abbrev pub new_ack : Action → ℕ → ℕ → ℕ → ℕ → AckFrame
new_ack action seq consumer_id ack_seq key = record {
  header = new_header (as_u16 action) 16 seq;
  consumer_id = consumer_id;
  key = key;
  ack_seq = ack_seq;
}

unfoldable pub ack_bytes : AckFrame → Bytes
ack_bytes f =
    header_bytes f.header
    ++ (le_bytes 4 f.consumer_id ++ (le_bytes 4 f.key ++ le_bytes 8 f.ack_seq))

abbrev pub ack_of : Bytes → AckFrame
ack_of buf = record {
  header = header_of buf;
  consumer_id = field 16 4 buf;
  key = field 20 4 buf;
  ack_seq = field 24 8 buf;
}

pub record BatchEntry : Type 0 where
  pub seq : ℕ
  pub key : ℕ
  pub delay_ms : ℕ

abbrev pub batch_entry_size : ℕ
batch_entry_size = 16

pub record BatchFrame : Type 0 where
  pub header : Header
  pub consumer_id : ℕ
  pub count : ℕ
  pub tail : Bytes

abbrev pub batch_frame_of : Bytes → BatchFrame
batch_frame_of buf = record {
  header = header_of buf;
  consumer_id = field 16 4 buf;
  count = field 20 4 buf;
  tail = drop 24 buf;
}

abbrev pub batch_entry_of : Bytes → BatchEntry
batch_entry_of buf = record { seq = field 0 8 buf; key = field 8 4 buf; delay_ms = field 12 4 buf }

-- The typed view of n entries.
unfoldable pub entries_of : ℕ → Bytes → List BatchEntry
entries_of zero tail = []
entries_of (suc n) tail = batch_entry_of tail ∷ entries_of n (drop batch_entry_size tail)

-- A 32-bit count times 16 does not overflow, so `checked_mul` gives the product.
unfoldable pub try_entries : BatchFrame → Option (List BatchEntry)
try_entries f =
    if ltb (length f.tail) (f.count * batch_entry_size)
    then none
    else some (entries_of f.count f.tail)

unfoldable pub encode_slot : BatchEntry → Bytes
encode_slot e = le_bytes 8 e.seq ++ (le_bytes 4 e.key ++ le_bytes 4 e.delay_ms)

unfoldable pub encode_slots : List BatchEntry → Bytes
encode_slots [] = []
encode_slots (e ∷ es) = encode_slot e ++ encode_slots es

-- `BatchAckFrame::encode_into` and `BatchNackFrame::encode_into`, by the action; an entry of the first
-- has 0 in its last field.
unfoldable pub encode_acks : Action → ℕ → ℕ → List BatchEntry → Bytes
encode_acks action seq consumer_id entries =
    header_bytes (new_header (as_u16 action) ((8 + length entries * batch_entry_size) % 2 ^ 32) seq)
    ++ (le_bytes 4 consumer_id ++ (le_bytes 4 (length entries % 2 ^ 32) ++ encode_slots entries))

abbrev pub new_nack : ℕ → ℕ → ℕ → ℕ → AckFrame
new_nack seq consumer_id nack_seq subject_hash = new_ack nack seq consumer_id nack_seq subject_hash

-- The slot of an acknowledgement, whose pad is 0.
abbrev pub ack_entry : ℕ × ℕ → BatchEntry
ack_entry (seq, sub_id) = record { seq = seq; key = sub_id; delay_ms = 0 }

abbrev pub encode_batch_ack : ℕ → ℕ → List (ℕ × ℕ) → Bytes
encode_batch_ack seq consumer_id entries =
    encode_acks batch_ack seq consumer_id (map ack_entry entries)

abbrev pub encode_batch_nack : ℕ → ℕ → List BatchEntry → Bytes
encode_batch_nack seq consumer_id entries = encode_acks batch_nack seq consumer_id entries
