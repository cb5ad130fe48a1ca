-- ===== src/Wire/BatchPub.antt =====
-- crates/arbitro-proto/src/v2/ingress/batch_pub_frame.rs: the frame of a batch of publishes.
use arbitro.Common.{
  List, Option, [], drop, if◌then◌else◌, length, ltb, none, some, suc, take, zero, ℕ, ◌%◌, ◌++◌,
  ◌+◌, ◌-◌, ◌==◌, ◌^◌, ◌∷◌,
}
use arbitro.Subject.{Bytes}
use arbitro.Action.{as_u16, publish_batch}
use arbitro.Wire.{
  Header, field, header_bytes, header_of, le_bytes, new_header, with_entry_flags, with_flags,
}

abbrev pub batch_pub_entry_header_size : ℕ
batch_pub_entry_header_size = 8

-- One entry as it stands in the buffer.
pub record BatchPubEntryView : Type 0 where
  pub buf : Bytes

abbrev pub subject_len : Bytes → ℕ
subject_len buf = field 0 2 buf

abbrev pub msg_id_len : Bytes → ℕ
msg_id_len buf = field 2 2 buf

abbrev pub payload_len : Bytes → ℕ
payload_len buf = field 4 4 buf

unfoldable pub entry_subject : BatchPubEntryView → Bytes
entry_subject v = take (subject_len v.buf) (drop batch_pub_entry_header_size v.buf)

unfoldable pub entry_msg_id : BatchPubEntryView → Bytes
entry_msg_id v =
    take (msg_id_len v.buf) (drop (batch_pub_entry_header_size + subject_len v.buf) v.buf)

unfoldable pub entry_payload : BatchPubEntryView → Bytes
entry_payload v =
    take (payload_len v.buf)
      (drop (batch_pub_entry_header_size + subject_len v.buf + msg_id_len v.buf) v.buf)

abbrev pub entry_total : Bytes → ℕ
entry_total buf = batch_pub_entry_header_size + (subject_len buf + msg_id_len buf + payload_len buf)

abbrev pub wire_len : BatchPubEntryView → ℕ
wire_len v = entry_total v.buf

pub record BatchPubIter : Type 0 where
  pub buf : Bytes
  pub offset : ℕ
  pub remaining : ℕ

-- The sums are of 16-bit and 32-bit numbers, so `checked_add` finds no overflow.
unfoldable pub next : BatchPubIter → Option BatchPubEntryView × BatchPubIter
next it =
    let rest = drop it.offset it.buf in
    if it.remaining == 0
    then (none, it)
    else if ltb (length it.buf) it.offset
    then (none, it)
    else if ltb (length rest) batch_pub_entry_header_size
    then (none, record it { remaining = 0 })
    else if ltb (length rest) (entry_total rest)
    then (none, record it { remaining = 0 })
    else (
      some (record { buf = take (entry_total rest) rest }),
      record it { offset = it.offset + entry_total rest; remaining = it.remaining - 1 },
    )

-- The entries that a loop over the iterator sees, on fuel.
unfoldable pub collect : ℕ → BatchPubIter → List BatchPubEntryView
collect zero it = []
collect (suc fuel) it =
    let (view, rest) = next it in elim view [ none ↦ [] | some v ↦ v ∷ collect fuel rest ]

abbrev pub iter : Bytes → ℕ → BatchPubIter
iter tail count = record { buf = tail; offset = 0; remaining = count }

pub record Publish : Type 0 where
  pub subject : Bytes
  pub msg_id : Bytes
  pub payload : Bytes

unfoldable pub encode_entry : Publish → Bytes
encode_entry p =
    le_bytes 2 (length p.subject % 2 ^ 16)
    ++ (le_bytes 2 (length p.msg_id % 2 ^ 16)
        ++ (le_bytes 4 (length p.payload % 2 ^ 32) ++ (p.subject ++ (p.msg_id ++ p.payload))))

unfoldable pub encode_entries : List Publish → Bytes
encode_entries [] = []
encode_entries (p ∷ ps) = encode_entry p ++ encode_entries ps

-- The frame that is written into a buffer of exactly the right length.
unfoldable pub encode_batch : ℕ → ℕ → ℕ → ℕ → List Publish → Bytes
encode_batch seq stream_id flags entry_flags entries =
    let tail = encode_entries entries in
    header_bytes (
      with_entry_flags
        (with_flags (new_header (as_u16 publish_batch) ((8 + length tail) % 2 ^ 32) seq) flags)
        entry_flags)
    ++ (le_bytes 4 stream_id ++ (le_bytes 4 (length entries % 2 ^ 32) ++ tail))

pub record BatchPubFrame : Type 0 where
  pub header : Header
  pub stream_id : ℕ
  pub count : ℕ
  pub tail : Bytes

-- The layout of the struct.
abbrev pub batch_of : Bytes → BatchPubFrame
batch_of buf = record {
  header = header_of buf;
  stream_id = field 16 4 buf;
  count = field 20 4 buf;
  tail = drop 24 buf;
}
