-- ===== src/Wire/Pub.antt =====
-- crates/arbitro-proto/src/v2/ingress/pub_frame.rs: the frame of a publish.
use arbitro.Common.{
  Option, Result, drop, err, if◌then◌else◌, length, ltb, none, ok, some, take, ℕ, ◌%◌, ◌++◌, ◌+◌,
  ◌-◌, ◌^◌,
}
use arbitro.Subject.{Bytes}
use arbitro.Action.{as_u16, publish}
use arbitro.ErrorCode.{ErrorCode, buffer_too_short, invalid_length}
use arbitro.Wire.{
  Header, field, header_bytes, header_of, header_size, le_bytes, new_header, with_entry_flags,
  with_flags,
}

pub record PubFrame : Type 0 where
  pub header : Header
  pub stream_id : ℕ
  pub subject_len : ℕ
  pub msg_id_len : ℕ
  pub tail : Bytes

abbrev pub pub_body_fixed : ℕ
pub_body_fixed = 8

-- The layout of the struct.
abbrev pub pub_of : Bytes → PubFrame
pub_of buf = record {
  header = header_of buf;
  stream_id = field 16 4 buf;
  subject_len = field 20 2 buf;
  msg_id_len = field 22 2 buf;
  tail = drop 24 buf;
}

-- A buffer that holds the fixed part is a frame.
unfoldable pub ref_from_bytes : Bytes → Option PubFrame
ref_from_bytes buf =
    if ltb (length buf) (header_size + pub_body_fixed) then none else some (pub_of buf)

-- The sums are of 16-bit numbers, so `checked_add` finds no overflow.
unfoldable pub validate : PubFrame → Result {0, 0} ErrorCode Unit
validate f =
    let head_total = f.subject_len + f.msg_id_len in
    if ltb (length f.tail) head_total
    then err invalid_length
    else if ltb f.header.msg_len (pub_body_fixed + head_total)
    then err invalid_length
    else ok tt

unfoldable pub parse : Bytes → Result ErrorCode PubFrame
parse buf = elim (ref_from_bytes buf) [
  | none ↦ err buffer_too_short
  | some f ↦ elim (validate f) [ ok u ↦ ok f | err e ↦ err e ]
]

unfoldable pub pub_subject : PubFrame → Bytes
pub_subject f = take f.subject_len f.tail

unfoldable pub msg_id : PubFrame → Bytes
msg_id f = take f.msg_id_len (drop f.subject_len f.tail)

unfoldable pub pub_payload : PubFrame → Bytes
pub_payload f = drop (f.subject_len + f.msg_id_len) f.tail

-- On ℕ the subtractions stop at 0 where those of the source panic or wrap.
unfoldable pub payload_len : PubFrame → ℕ
payload_len f = f.header.msg_len - pub_body_fixed - f.subject_len - f.msg_id_len

abbrev pub wire_size : ℕ → ℕ → ℕ → ℕ
wire_size subject_len msg_id_len payload_len =
    header_size + pub_body_fixed + subject_len + msg_id_len + payload_len

-- The frame that is written into a buffer of exactly `wire_size` bytes.
unfoldable pub encode : ℕ → ℕ → ℕ → ℕ → Bytes → Bytes → Bytes → Bytes
encode seq stream_id flags entry_flags subject msg_id payload =
    let msg_len = (pub_body_fixed + length subject + length msg_id + length payload) % 2 ^ 32 in
    header_bytes
      (with_entry_flags (with_flags (new_header (as_u16 publish) msg_len seq) flags) entry_flags)
    ++ (le_bytes 4 stream_id
        ++ (le_bytes 2 (length subject % 2 ^ 16)
            ++ (le_bytes 2 (length msg_id % 2 ^ 16) ++ (subject ++ (msg_id ++ payload)))))
