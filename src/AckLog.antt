-- ===== src/AckLog.antt =====
-- crates/arbitro-client-tokio/src/ackstore/format.rs and wal.rs: the records of a client's
-- acknowledgement log, and its replay.
pub mod Decoding
pub mod Framing
pub mod Rewriting
pub mod Scanning
pub mod Compacting
pub mod Replaying
mod Tests
use Prim.Native.Nat.{bit_xor}
use arbitro.Common.{
  Bool, List, Option, [], drop, erase, if◌then◌else◌, leb, length, lookup, ltb, none, not, put,
  some, suc, take, zero, ℕ, ◌%◌, ◌&&◌, ◌*◌, ◌++◌, ◌+◌, ◌/◌, ◌==◌, ◌^◌, ◌||◌, ◌∷◌,
}
use arbitro.Common.Word.{u32_mod}
use arbitro.Subject.{Bytes, bytes_eq}
use arbitro.Wire.{field, le_bytes, of_le_bytes}

-- "ARBWAL01".
abbrev pub file_magic : Bytes
file_magic = 65 ∷ 82 ∷ 66 ∷ 87 ∷ 65 ∷ 76 ∷ 48 ∷ 49 ∷ []

abbrev pub op_register : ℕ
op_register = 1

abbrev pub op_record : ℕ
op_record = 2

abbrev pub op_confirm : ℕ
op_confirm = 3

abbrev pub op_expire : ℕ
op_expire = 4

abbrev pub op_tombstone : ℕ
op_tombstone = 5

abbrev pub op_snapshot : ℕ
op_snapshot = 6

abbrev pub op_confirm_up_to : ℕ
op_confirm_up_to = 7

abbrev pub crc32c_poly : ℕ
crc32c_poly = 0x82F63B78

-- One entry of the table: eight shifts.
unfoldable pub shift_out : ℕ → ℕ → ℕ
shift_out zero crc = crc
shift_out (suc n) crc =
    shift_out n (if crc % 2 == 1 then bit_xor (crc / 2) crc32c_poly else crc / 2)

unfoldable pub crc_loop : ℕ → Bytes → ℕ
crc_loop crc [] = crc
crc_loop crc (b ∷ data') = crc_loop (bit_xor (crc / 256) (shift_out 8 (bit_xor crc b % 256))) data'

unfoldable pub crc32c : Bytes → ℕ
crc32c data' = bit_xor (crc_loop 0xFFFFFFFF data') 0xFFFFFFFF % u32_mod

-- The length before a payload and the check sum behind it.
unfoldable pub frame : Bytes → Bytes
frame payload = le_bytes 4 (length payload % u32_mod) ++ (payload ++ le_bytes 4 (crc32c payload))

unfoldable pub seq_op : ℕ → ℕ → ℕ → ℕ → Bytes
seq_op op slot_id ts_ms seq = op ∷ (le_bytes 4 slot_id ++ (le_bytes 8 ts_ms ++ le_bytes 8 seq))

unfoldable pub tombstone : ℕ → ℕ → Bytes
tombstone slot_id ts_ms = op_tombstone ∷ (le_bytes 4 slot_id ++ le_bytes 8 ts_ms)

unfoldable pub register_op : ℕ → ℕ → Bytes → Bytes → Bytes
register_op slot_id ts_ms stream consumer =
    op_register
    ∷ (le_bytes 4 slot_id
        ++ (le_bytes 8 ts_ms
            ++ (le_bytes 2 (length stream % 2 ^ 16)
                ++ (le_bytes 2 (length consumer % 2 ^ 16) ++ (stream ++ consumer)))))

unfoldable pub seqs_bytes : List ℕ → Bytes
seqs_bytes [] = []
seqs_bytes (s ∷ seqs) = le_bytes 8 s ++ seqs_bytes seqs

unfoldable pub snapshot_op : ℕ → ℕ → ℕ → ℕ → List ℕ → Bytes
snapshot_op slot_id ts_ms min_seq max_seq seqs =
    op_snapshot
    ∷ (le_bytes 4 slot_id
        ++ (le_bytes 8 ts_ms
            ++ (le_bytes 8 min_seq
                ++ (le_bytes 8 max_seq
                    ++ (le_bytes 4 (length seqs % u32_mod) ++ seqs_bytes seqs)))))

pub record Decoded : Type 0 where
  pub op : ℕ
  pub slot_id : ℕ
  pub ts_ms : ℕ
  pub seq : ℕ
  pub stream : Bytes
  pub consumer : Bytes
  pub seqs : List ℕ

abbrev pub blank : ℕ → ℕ → ℕ → Decoded
blank op slot_id ts_ms = record {
  op = op;
  slot_id = slot_id;
  ts_ms = ts_ms;
  seq = 0;
  stream = [];
  consumer = [];
  seqs = [];
}

unfoldable pub read_seqs : ℕ → Bytes → List ℕ
read_seqs zero bytes = []
read_seqs (suc n) bytes = of_le_bytes (take 8 bytes) ∷ read_seqs n (drop 8 bytes)

unfoldable pub is_seq_op : ℕ → Bool
is_seq_op op =
    (op == op_record) || (op == op_confirm) || (op == op_expire) || (op == op_confirm_up_to)

unfoldable pub decode_payload : Bytes → Option Decoded
decode_payload [] = none
decode_payload (op ∷ rest) =
    let payload = op ∷ rest in
    let d = blank op (field 1 4 payload) (field 5 8 payload) in
    if is_seq_op op
    then (if length payload == 21 then some (record d { seq = field 13 8 payload }) else none)
    else if op == op_tombstone
    then (if length payload == 13 then some d else none)
    else if op == op_register
    then (let sl = field 13 2 payload in
        let cl = field 15 2 payload in
        if ltb (length payload) 17 || not (17 + sl + cl == length payload)
        then none
        else some (record d {
          stream = take sl (drop 17 payload);
          consumer = take cl (drop sl (drop 17 payload));
        }))
    else if op == op_snapshot
    then (let count = field 29 4 payload in
        if ltb (length payload) 33 || not (33 + count * 8 == length payload)
        then none
        else some (record d { seqs = read_seqs count (drop 33 payload) }))
    else none

-- The live numbers of each slot with their times, and the names of the slots. A time is the bits of
-- an `i64`.
pub record Replay : Type 0 where
  pub slots : List (ℕ × List (ℕ × ℕ))
  pub names : List (ℕ × (Bytes × Bytes))

abbrev pub no_replay : Replay
no_replay = record { slots = []; names = [] }

-- `slots.entry(id).or_default()`.
unfoldable pub live_of : ℕ → Replay → List (ℕ × ℕ)
live_of slot_id r = elim (lookup slot_id r.slots) [ some live ↦ live | none ↦ [] ]

abbrev pub with_live : ℕ → List (ℕ × ℕ) → Replay → Replay
with_live slot_id live r = record r { slots = put slot_id live r.slots }

-- The cutoff is 0 where there is none or where it is negative. A time from 2 ^ 63 on is negative.
unfoldable pub is_old : ℕ → ℕ → Bool
is_old ttl_cutoff ts_ms = ltb 0 ttl_cutoff && (leb (2 ^ 63) ts_ms || ltb ts_ms ttl_cutoff)

unfoldable pub above : ℕ → List (ℕ × ℕ) → List (ℕ × ℕ)
above cursor [] = []
above cursor ((seq, ts) ∷ live) =
    let rest = above cursor live in if ltb cursor seq then (seq, ts) ∷ rest else rest

unfoldable pub put_all : ℕ → List ℕ → List (ℕ × ℕ) → List (ℕ × ℕ)
put_all ts [] live = live
put_all ts (seq ∷ seqs) live = put_all ts seqs (put seq ts live)

abbrev pub max_payload : ℕ
max_payload = 64 * 1024 * 1024

-- The frame at the front, and its size; `none` where the loop stops.
unfoldable pub next_frame : Bytes → Option (Decoded × ℕ)
next_frame rest =
    let plen = field 0 4 rest in
    let payload = take plen (drop 4 rest) in
    let want = of_le_bytes (take 4 (drop plen (drop 4 rest))) in
    if ltb (length rest) 4
    then none
    else if (plen == 0) || ltb max_payload plen
    then none
    else if ltb (length rest) (4 + plen + 4)
    then none
    else if not (crc32c payload == want)
    then none
    else elim (decode_payload payload) [ some d ↦ some (d, 4 + plen + 4) | none ↦ none ]

-- The conversion of bytes to a string is a parameter.
module _ (from_utf8_lossy : Bytes → Bytes) (ttl_cutoff : ℕ) where
  unfoldable pub apply_replay : Replay → Decoded → Replay
  apply_replay r d =
      let live = live_of d.slot_id r in
      if d.op == op_register
      then record (with_live d.slot_id live r) {
        names = put d.slot_id (from_utf8_lossy d.stream, from_utf8_lossy d.consumer) r.names;
      }
      else if d.op == op_record
      then (if is_old ttl_cutoff d.ts_ms then r else with_live d.slot_id (put d.seq d.ts_ms live) r)
      else if (d.op == op_confirm) || (d.op == op_expire)
      then with_live d.slot_id (erase d.seq live) r
      else if d.op == op_confirm_up_to
      then with_live d.slot_id (above d.seq live) r
      else if d.op == op_tombstone
      then record r { slots = erase d.slot_id r.slots; names = erase d.slot_id r.names }
      else if d.op == op_snapshot
      then with_live d.slot_id (if is_old ttl_cutoff d.ts_ms then [] else put_all d.ts_ms d.seqs [])
          r
      else r

  -- The loop, on fuel, with what is left of the file and the offset of the last good frame's end.
  unfoldable pub scan_loop : ℕ → Bytes → ℕ → Replay → Replay × ℕ
  scan_loop zero rest good r = (r, good)
  scan_loop (suc fuel) rest good r = elim (next_frame rest) [
    | some (d, size) ↦ scan_loop fuel (drop size rest) (good + size) (apply_replay r d)
    | none ↦ (r, good)
  ]

  unfoldable pub scan_bytes : Bytes → Replay × ℕ
  scan_bytes data' =
      if ltb (length data') 8 || not (bytes_eq (take 8 data') file_magic)
      then (no_replay, 0)
      else scan_loop (length data') (drop 8 data') 8 no_replay
