-- ===== src/Wire/Tests.antt =====
-- Frames of a few bytes.
use arbitro.Common.{List, [], arith, length, map, ok, refl, ◌++◌, ◌+◌, ◌↔◌, ◌∷◌, ◌≡◌, ◌≤◌}
use arbitro.Subject.{Bytes}
use arbitro.Action.{as_u16, publish, publish_batch}
use arbitro.Wire.{new_header, total_len}
use arbitro.Wire.Pub.{
  PubFrame, encode, msg_id, parse, payload_len, pub_payload, pub_subject, ref_from_bytes, validate,
}
use arbitro.Wire.Publishing.{parse-InRange, parse-encode}
use arbitro.Wire.BatchPub.{
  BatchPubFrame, Publish, batch_of, collect, encode_batch, encode_entries, encode_entry, iter,
}
use arbitro.Wire.Batches.{batch_of-collect, publish_of}
use arbitro.Wire.Hostile.{Collected, collect-Collected}
use arbitro.Wire.Acks.{BatchEntry, BatchFrame}

abbrev bytes : Bytes
bytes = encode 7 5 1 0 (97 ∷ 98 ∷ []) (9 ∷ []) (1 ∷ 2 ∷ 3 ∷ [])

abbrev frame : PubFrame
frame = record {
  header = record { action = 257; flags = 1; entry_flags = 0; msg_len = 14; seq = 7 };
  stream_id = 5;
  subject_len = 2;
  msg_id_len = 1;
  tail = 97 ∷ 98 ∷ 9 ∷ 1 ∷ 2 ∷ 3 ∷ [];
}

bytes-frame : parse bytes ≡ ok frame
unfolding parse encode ref_from_bytes validate as_u16
bytes-frame = refl

parse-InRange_example :
    (frame.subject_len + frame.msg_id_len ≤ length frame.tail)
    × (pub_subject frame ++ (msg_id frame ++ pub_payload frame) ≡ frame.tail)
    × (length (pub_subject frame) ≡ frame.subject_len)
    × (length (msg_id frame) ≡ frame.msg_id_len)
    × ((payload_len frame ≡ length (pub_payload frame)) ↔ (total_len frame.header ≡ length bytes))
parse-InRange_example = parse-InRange bytes frame bytes-frame

parse-encode_example :
    (f : PubFrame) × (parse bytes ≡ ok f)
    × (f.header.action ≡ as_u16 publish)
    × (f.header.seq ≡ 7)
    × (f.header.flags ≡ 1)
    × (f.header.entry_flags ≡ 0)
    × (f.stream_id ≡ 5)
    × (pub_subject f ≡ 97 ∷ 98 ∷ [])
    × (msg_id f ≡ 9 ∷ [])
    × (pub_payload f ≡ 1 ∷ 2 ∷ 3 ∷ [])
    × (payload_len f ≡ 3)
parse-encode_example =
    parse-encode 7 5 1 0 (97 ∷ 98 ∷ []) (9 ∷ []) (1 ∷ 2 ∷ 3 ∷ [])
      (omega arith, omega arith, omega arith, omega arith, omega arith, omega arith, omega arith)

abbrev batch : List Publish
batch =
    record { subject = 97 ∷ []; msg_id = []; payload = 4 ∷ 5 ∷ [] }
    ∷ record { subject = 98 ∷ []; msg_id = 8 ∷ []; payload = [] }
    ∷ []

batch_of-collect_example :
    (f : BatchPubFrame) × (batch_of (encode_batch 3 6 1 2 batch) ≡ f)
    × (f.header.action ≡ as_u16 publish_batch)
    × (f.header.seq ≡ 3)
    × (f.header.flags ≡ 1)
    × (f.header.entry_flags ≡ 2)
    × (total_len f.header ≡ 24 + length f.tail)
    × (f.stream_id ≡ 6)
    × (map publish_of (collect f.count (iter f.tail f.count)) ≡ batch)
batch_of-collect_example = batch_of-collect 3 6 1 2 batch (
  omega arith,
  omega arith,
  omega arith,
  unfold encode_entries encode_entry in omega arith,
  ((omega arith, omega arith, omega arith), ((omega arith, omega arith, omega arith), tt)),
)

-- The count says 4, the bytes hold one entry and a part of another.
collect-Collected_example :
    Collected
      (iter (1 ∷ 0 ∷ 0 ∷ 0 ∷ 1 ∷ 0 ∷ 0 ∷ 0 ∷ 97 ∷ 5 ∷ 1 ∷ 0 ∷ []) 4)
      (collect 4 (iter (1 ∷ 0 ∷ 0 ∷ 0 ∷ 1 ∷ 0 ∷ 0 ∷ 0 ∷ 97 ∷ 5 ∷ 1 ∷ 0 ∷ []) 4))
collect-Collected_example =
    collect-Collected 4 (iter (1 ∷ 0 ∷ 0 ∷ 0 ∷ 1 ∷ 0 ∷ 0 ∷ 0 ∷ 97 ∷ 5 ∷ 1 ∷ 0 ∷ []) 4) (omega arith)

abbrev lying : BatchFrame
lying = record { header = new_header 518 8 1; consumer_id = 2; count = 3; tail = 1 ∷ 2 ∷ [] }

abbrev acked : List BatchEntry
acked = record { seq = 11; key = 4; delay_ms = 0 } ∷ record { seq = 12; key = 4; delay_ms = 0 } ∷ []
