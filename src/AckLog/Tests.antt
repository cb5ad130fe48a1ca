-- ===== src/AckLog/Tests.antt =====
-- A log of two slots: the reading of its records, a torn tail, and the check value of the check sum.
use arbitro.Common.{
  All, List, [], arith, false, if◌then◌else◌, length, lookup, none, refl, some, take, ◌++◌, ◌+◌,
  ◌<◌, ◌∷◌, ◌≡◌,
}
use arbitro.Subject.{Bytes}
use arbitro.AckLog.{
  Replay, crc32c, crc_loop, decode_payload, file_magic, frame, is_old, is_seq_op, live_of,
  no_replay, op_confirm, op_record, scan_bytes, seq_op, shift_out,
}
use arbitro.AckLog.Decoding.{
  InRange, LogRecord, decode_payload-payload_of, meaning, numbered, payload_of, registered, snapped,
}
use arbitro.AckLog.Compacting.{at_time, is_some, scan_bytes-compacted}
use arbitro.AckLog.Rewriting.{
  all_records, compacted, compacted_records, insert_sorted, keys, last_seq, slot_records,
  snapshot_records, sort_unstable,
}
use arbitro.AckLog.Scanning.{log_of, replayed, scan_bytes-torn}
use arbitro.AckLog.Replaying.{listed, replayed-story, story, told}

-- "123456789".
crc32c_check_value : crc32c (49 ∷ 50 ∷ 51 ∷ 52 ∷ 53 ∷ 54 ∷ 55 ∷ 56 ∷ 57 ∷ []) ≡ 0xE3069283
unfolding crc32c crc_loop shift_out
crc32c_check_value = refl

abbrev as_it_is : Bytes → Bytes
as_it_is bytes = bytes

abbrev orders : Bytes
orders = 111 ∷ 114 ∷ 100 ∷ 101 ∷ 114 ∷ 115 ∷ []

abbrev records : List LogRecord
records =
    registered 3 500 orders orders
    ∷ numbered op_record 3 1000 777
    ∷ numbered op_record 3 1001 778
    ∷ numbered op_confirm 3 1002 777
    ∷ snapped 4 1003 5 9 (5 ∷ 9 ∷ [])
    ∷ []

abbrev last : LogRecord
last = numbered op_record 3 1004 779

last-InRange : InRange last
unfolding is_seq_op
last-InRange = (refl, omega arith, omega arith, omega arith)

records-InRange : All InRange records
unfolding is_seq_op
records-InRange = (
  (omega arith, omega arith, omega arith, omega arith),
  (
    (refl, omega arith, omega arith, omega arith),
    (
      (refl, omega arith, omega arith, omega arith),
      (
        (refl, omega arith, omega arith, omega arith),
        ((omega arith, omega arith, omega arith, (omega arith, (omega arith, tt))), tt),
      ),
    ),
  ),
)

last-length : 10 < length (frame (payload_of last))
unfolding frame payload_of seq_op
last-length = omega arith

decode_payload-payload_of_example :
    decode_payload (payload_of (registered 3 500 orders orders))
    ≡ some (meaning (registered 3 500 orders orders))
decode_payload-payload_of_example =
    decode_payload-payload_of (registered 3 500 orders orders) records-InRange.0

scan_bytes-torn_example :
    scan_bytes as_it_is 0 (file_magic ++ (log_of records ++ take 10 (frame (payload_of last))))
    ≡ (replayed as_it_is 0 no_replay records, 8 + length (log_of records))
scan_bytes-torn_example =
    scan_bytes-torn as_it_is 0 records last 10 records-InRange last-InRange last-length

replayed-story_example :
    lookup 778 (live_of 3 (replayed as_it_is 0 no_replay records))
    ≡ story 0 3 778 (lookup 778 (live_of 3 no_replay)) records
replayed-story_example = replayed-story as_it_is 0 records no_replay 3 778 records-InRange

-- The confirmed number is gone, the other one is there with its time.
told_of_three :
    (story 0 3 777 none records ≡ none)
    × (story 0 3 778 none records ≡ some 1001)
    × (story 0 4 9 none records ≡ some 1003)
unfolding story told listed is_old
told_of_three = (refl, refl, refl)

-- Two numbers of one slot, out of order.
abbrev two_waiting : Replay
two_waiting = record {
  slots = (3, (778, 1001) ∷ (5, 1000) ∷ []) ∷ [];
  names = (3, (orders, orders)) ∷ [];
}

two_waiting-InRange : All InRange (compacted_records 2000 two_waiting)
unfolding compacted_records all_records slot_records snapshot_records sort_unstable insert_sorted
    keys last_seq live_of lookup
two_waiting-InRange = (
  (omega arith, omega arith, omega arith, omega arith),
  ((omega arith, omega arith, omega arith, (omega arith, (omega arith, tt))), tt),
)

not_old : is_old 1500 2000 ≡ false
unfolding is_old
not_old = refl

-- The limit is 1500, so a replay of the old file without a compaction keeps neither of them.
scan_bytes-compacted_example :
    lookup 778 (live_of 3 (scan_bytes as_it_is 1500 (compacted 2000 two_waiting)).0) ≡ (
      if is_some (lookup 3 two_waiting.names)
      then at_time 2000 (lookup 778 (live_of 3 two_waiting))
      else none)
scan_bytes-compacted_example =
    scan_bytes-compacted as_it_is 1500 2000 two_waiting 3 778 not_old two_waiting-InRange

-- Both records are too old for the limit, and stay out.
told_too_late :
    story 1500 3 778 none (numbered op_record 3 1001 778 ∷ numbered op_record 3 1000 5 ∷ []) ≡ none
unfolding story told is_old
told_too_late = refl
