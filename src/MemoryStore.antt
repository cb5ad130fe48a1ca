-- ===== src/MemoryStore.antt =====
-- crates/arbitro-store/src/memory.rs: the journal in memory. The bytes of the entries stand one after
-- the other in segments of a fixed size, and an index holds where each entry is. Of a segment the
-- model keeps the bytes that are used, so `active_len` and `sealed_lens` are lengths.
pub mod Layout
pub mod Placed
pub mod Writing
pub mod Pushing
pub mod Appending
pub mod Search
pub mod Reading
pub mod RoundTrip
pub mod Tombstones
pub mod Truncating
pub mod Kept
pub mod Rebuilding
pub mod Draining
pub mod Raw
pub mod Burying
pub mod Marking
pub mod Expiry
pub mod Removal
mod Tests
use arbitro.Common.{
  Bool, List, Option, Result, [], drop, err, false, get_elem?, get_or, if◌then◌else◌, leb, length,
  ltb, map, max, min, none, ok, some, suc, take, ℕ, ◌%◌, ◌&&◌, ◌*◌, ◌++◌, ◌+◌, ◌-◌, ◌==◌, ◌^◌, ◌∷◌,
}
use arbitro.Common.Word.{add_u64, u32_mod}
use arbitro.Subject.{Bytes}
use arbitro.Store.{
  Entry, EntryRef, Fault, StoreError, StoreInfo, entry_too_large, io, panicked, refused,
}

pub record LogMetadata : Type 0 where
  pub seq : ℕ
  pub ts : ℕ
  pub subj_len : ℕ
  pub payload_len : ℕ
  pub offset : ℕ
  pub segment_idx : ℕ
  pub subject_hash : ℕ
  pub stream_id : ℕ
  pub flags : ℕ

pub record MemoryStore : Type 0 where
  pub active : Bytes
  pub sealed : List Bytes
  pub index : List LogMetadata
  pub next_seq : ℕ
  pub first_seq : ℕ
  pub total_bytes : ℕ
  pub segment_size : ℕ

abbrev pub min_segment_size : ℕ
min_segment_size = 4096

abbrev pub default_segment_size : ℕ
default_segment_size = 16 * 1024 * 1024

abbrev pub with_segment_size : ℕ → MemoryStore
with_segment_size segment_size = record {
  active = [];
  sealed = [];
  index = [];
  next_seq = 1;
  first_seq = 1;
  total_bytes = 0;
  segment_size = max segment_size min_segment_size;
}

abbrev pub with_capacity : ℕ → MemoryStore
with_capacity data_cap =
    with_segment_size (max (max data_cap default_segment_size) min_segment_size)

-- `binary_search_by_key` of the standard library on an index that is sorted by `seq`: the position
-- of the number, or the position where it would stand.
pub search_from : ℕ → ℕ → List LogMetadata → Result ℕ ℕ
search_from at seq [] = err at
search_from at seq (m ∷ ms) =
    let rest = search_from (at + 1) seq ms in
    if m.seq == seq then ok at else if ltb m.seq seq then rest else err at

-- Whether `index[est_idx].seq == seq`, in range.
pub stands_at : ℕ → List LogMetadata → ℕ → Bool
stands_at est_idx index seq = elim (get_elem? index est_idx) [
  | some m ↦ m.seq == seq
  | none ↦ false
]

pub seq_to_idx : MemoryStore → ℕ → Option ℕ
seq_to_idx s seq =
    if ltb seq s.first_seq
    then none
    else if stands_at (seq - s.first_seq) s.index seq
    then some (seq - s.first_seq)
    else elim (search_from 0 seq s.index) [ ok i ↦ some i | err i ↦ none ]

pub find_lower_bound : MemoryStore → ℕ → ℕ
find_lower_bound s seq =
    if leb seq s.first_seq
    then 0
    else if stands_at (seq - s.first_seq) s.index seq
    then seq - s.first_seq
    else elim (search_from 0 seq s.index) [ ok i ↦ i | err i ↦ i ]

-- The answer of the system to the request for a new segment is a parameter: `none` where it maps
-- one, or the kind of the error.
pub rotate : MemoryStore → Option ℕ → Result StoreError MemoryStore
rotate s (some kind) = err (io kind)
rotate s none = ok (record s { active = []; sealed = s.sealed ++ s.active ∷ [] })

-- The used bytes of a segment: a sealed one, or the active one.
unfoldable pub segment_in : List Bytes → Bytes → ℕ → Bytes
segment_in sealed active idx = if ltb idx (length sealed) then get_or sealed idx [] else active

-- `&data[from..to]`, in range.
unfoldable pub slice : Bytes → ℕ → ℕ → Bytes
slice bytes from to = take (to - from) (drop from bytes)

unfoldable pub view_in : List Bytes → Bytes → LogMetadata → Entry
view_in sealed active meta =
    let bytes = segment_in sealed active meta.segment_idx in
    let payload_start = meta.offset + meta.subj_len in
    record {
      seq = meta.seq;
      stream_id = meta.stream_id;
      timestamp = meta.ts;
      subject = slice bytes meta.offset payload_start;
      payload = slice bytes payload_start (payload_start + meta.payload_len);
      flags = meta.flags;
    }

abbrev pub get_entry_view : MemoryStore → LogMetadata → Entry
get_entry_view s meta = view_in s.sealed s.active meta

-- `wire_hash_32` of another crate is a parameter: no operation reads what it gives.
module _ (wire_hash_32 : Bytes → ℕ) where
  -- The second half of `push_entry`: `copy_from_slice` panics where the lengths differ, that is,
  -- where a length did not fit its field.
  pub write_entry : MemoryStore → EntryRef → ℕ → MemoryStore × Result Fault ℕ
  write_entry s entry timestamp =
      let subj_len = length entry.subject % 2 ^ 16 in
      let payload_len = length entry.payload % u32_mod in
      if (length entry.subject == subj_len) && (length entry.payload == payload_len)
      then (
        record s {
          active = s.active ++ (entry.subject ++ entry.payload);
          next_seq = add_u64 s.next_seq 1;
          index =
              s.index
              ++ record {
                seq = s.next_seq;
                ts = timestamp;
                subj_len = subj_len;
                payload_len = payload_len;
                offset = length s.active % u32_mod;
                segment_idx = length s.sealed % u32_mod;
                subject_hash = wire_hash_32 entry.subject;
                stream_id = entry.stream_id;
                flags = entry.flags;
              }
                ∷ [];
          total_bytes = add_u64 s.total_bytes (subj_len + payload_len);
        },
        ok s.next_seq,
      )
      else (s, err panicked)

  pub push_entry : MemoryStore → EntryRef → ℕ → Option ℕ → MemoryStore × Result Fault ℕ
  push_entry s entry timestamp mapping =
      let entry_bytes = length entry.subject % 2 ^ 16 + length entry.payload % u32_mod in
      if ltb s.segment_size entry_bytes
      then (s, err (refused entry_too_large))
      else if ltb s.segment_size (length s.active + entry_bytes)
      then elim (rotate s mapping) [
        | ok rotated ↦ write_entry rotated entry timestamp
        | err e ↦ (s, err (refused e))
      ]
      else write_entry s entry timestamp

  -- The loop of `append_batch`: it stops at the first fault and keeps what it has stored. The
  -- answers to the requests for segments are given by the entries' positions.
  pub push_all : MemoryStore → List EntryRef → ℕ → (ℕ → Option ℕ) → MemoryStore × Option Fault
  push_all s [] timestamp mappings = (s, none)
  push_all s (entry ∷ entries) timestamp mappings =
      let (t, result) = push_entry s entry timestamp (mappings 0) in
      elim result [
        | ok seq ↦ push_all t entries timestamp (λ n. mappings (suc n))
        | err fault ↦ (t, some fault)
      ]

  -- An empty batch takes the same path: it answers with the next number and stores nothing.
  pub append_batch : MemoryStore → List EntryRef → ℕ → (ℕ → Option ℕ) → MemoryStore × Result Fault ℕ
  append_batch s entries timestamp mappings =
      let (t, fault) = push_all s entries timestamp mappings in
      (t, elim fault [ none ↦ ok s.next_seq | some f ↦ err f ])

-- `read_range`, and the entries that `for_each` passes to its callback.
pub read_range : MemoryStore → ℕ → ℕ → List Entry
read_range s start end =
    let e = min (find_lower_bound s end) (length s.index) in
    let b = min (find_lower_bound s start) e in
    map (get_entry_view s) (take (e - b) (drop b s.index))

pub read : MemoryStore → ℕ → Option Entry
read s seq = elim (seq_to_idx s seq) [
  | some idx ↦ elim (get_elem? s.index idx) [
    | some meta ↦ some (get_entry_view s meta)
    | none ↦ none
  ]
  | none ↦ none
]

pub info : MemoryStore → StoreInfo
info s = record {
  messages = length s.index;
  bytes = s.total_bytes;
  first_seq = s.first_seq;
  last_seq = s.next_seq - 1;
}

-- What `for_each_raw` passes to its callback: the bytes of subject and payload in one piece.
pub record RawEntry : Type 0 where
  pub seq : ℕ
  pub stream_id : ℕ
  pub timestamp : ℕ
  pub subj_len : ℕ
  pub flags : ℕ
  pub bytes : Bytes

pub raw_in : List Bytes → Bytes → LogMetadata → RawEntry
raw_in sealed active meta = record {
  seq = meta.seq;
  stream_id = meta.stream_id;
  timestamp = meta.ts;
  subj_len = meta.subj_len;
  flags = meta.flags;
  bytes =
      slice (segment_in sealed active meta.segment_idx) meta.offset
        (meta.offset + (meta.subj_len + meta.payload_len));
}

pub raw_subject : RawEntry → Bytes
raw_subject raw = take raw.subj_len raw.bytes

pub raw_payload : RawEntry → Bytes
raw_payload raw = drop raw.subj_len raw.bytes

pub raw_payload_len : RawEntry → ℕ
raw_payload_len raw = length raw.bytes - raw.subj_len

pub for_each_raw : MemoryStore → ℕ → ℕ → List RawEntry
for_each_raw s start end =
    let e = min (find_lower_bound s end) (length s.index) in
    let b = min (find_lower_bound s start) e in
    map (raw_in s.sealed s.active) (take (e - b) (drop b s.index))
