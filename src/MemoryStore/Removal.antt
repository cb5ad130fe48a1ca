-- ===== src/MemoryStore/Removal.antt =====
-- crates/arbitro-store/src/memory.rs and the default methods of store.rs: how entries leave the
-- journal, and how they are marked as deleted.
use arbitro.Common.{
  Bool, List, Option, [], drop, false, get_elem?, if◌then◌else◌, leb, length, ltb, map, min, none,
  not, set, some, suc, take, true, ℕ, ◌&&◌, ◌+◌, ◌-◌, ◌==◌, ◌||◌, ◌∷◌,
}
use arbitro.Subject.{Bytes, is_empty}
use arbitro.Store.{Entry, entry_matches, is_tombstone, with_tombstone}
use arbitro.MemoryStore.{
  LogMetadata, MemoryStore, get_entry_view, info, push_entry, read_range, seq_to_idx,
  with_segment_size,
}

-- The bytes of an entry, and their sum over a part of the index.
abbrev pub size_of : LogMetadata → ℕ
size_of m = m.subj_len + m.payload_len

unfoldable pub sum_bytes : List LogMetadata → ℕ
sum_bytes [] = 0
sum_bytes (m ∷ ms) = size_of m + sum_bytes ms

-- `m.segment_idx -= dropped_segments`, where every index is at least that.
unfoldable pub reindex : ℕ → LogMetadata → LogMetadata
reindex dropped m = record m { segment_idx = m.segment_idx - dropped }

-- The segment of the first entry that stays.
unfoldable pub remaining_start_seg : List Bytes → List LogMetadata → ℕ
remaining_start_seg sealed [] = length sealed + 1
remaining_start_seg sealed (m ∷ ms) = m.segment_idx

unfoldable pub cut_front : MemoryStore → ℕ → ℕ → MemoryStore
cut_front s first_seq cut =
    let kept = drop cut s.index in
    let dropped = min (remaining_start_seg s.sealed kept) (length s.sealed) in
    record s {
      sealed = drop dropped s.sealed;
      index = map (reindex dropped) kept;
      first_seq = first_seq;
      total_bytes = s.total_bytes - sum_bytes (take cut s.index);
    }

unfoldable pub truncate_front : MemoryStore → ℕ → MemoryStore × ℕ
truncate_front s first_seq =
    let cut = min (first_seq - s.first_seq) (length s.index) in
    if leb first_seq s.first_seq || (cut == 0) then (s, 0) else (cut_front s first_seq cut, cut)

unfoldable pub purge : MemoryStore → MemoryStore × ℕ
purge s = (
  record s { active = []; sealed = []; index = []; first_seq = s.next_seq; total_bytes = 0 },
  length s.index,
)

-- The number of the first entry that is not older than the timestamp.
unfoldable pub first_valid_seq : ℕ → List Entry → Option ℕ
first_valid_seq timestamp_ms [] = none
first_valid_seq timestamp_ms (entry ∷ entries) =
    let rest = first_valid_seq timestamp_ms entries in
    if leb timestamp_ms entry.timestamp then some entry.seq else rest

-- The default method of the trait, on this store.
unfoldable pub purge_before : MemoryStore → ℕ → MemoryStore × ℕ
purge_before s timestamp_ms =
    let i = info s in
    let entries = read_range s i.first_seq (i.last_seq + 1) in
    if i.messages == 0 then (s, 0) else elim (first_valid_seq timestamp_ms entries) [
      | some seq ↦ if ltb i.first_seq seq then truncate_front s seq else (s, 0)
      | none ↦ purge s
    ]

-- `mine && matches` of `drain`.
unfoldable pub is_drained : ℕ → Bytes → Entry → Bool
is_drained stream_id subject entry =
    (entry.stream_id == stream_id) && (is_empty subject || entry_matches entry subject)

module _ (wire_hash_32 : Bytes → ℕ) where
  -- The call of `push_entry` on the new store, whose result is thrown away.
  unfoldable pub keep_entry : MemoryStore → Entry → Option ℕ → MemoryStore
  keep_entry new_store entry mapping =
      (push_entry wire_hash_32 (record new_store { next_seq = entry.seq })
        (record {
          stream_id = entry.stream_id;
          subject = entry.subject;
          payload = entry.payload;
          flags = entry.flags;
          deliver_at_ms = 0;
        })
        entry.timestamp mapping).0

  unfoldable pub drain_loop :
      ℕ → Bytes → MemoryStore → List Entry → (ℕ → Option ℕ) → MemoryStore × ℕ
  drain_loop stream_id subject new_store [] mappings = (new_store, 0)
  drain_loop stream_id subject new_store (entry ∷ entries) mappings =
      elim (is_drained stream_id subject entry) [
        | true ↦
            let (t, removed) =
              drain_loop stream_id subject new_store entries (λ n. mappings (suc n)) in
            (t, removed + 1)
        | false ↦
            drain_loop stream_id subject (keep_entry new_store entry (mappings 0)) entries
              (λ n. mappings (suc n))
      ]

  unfoldable pub drain : MemoryStore → ℕ → Bytes → (ℕ → Option ℕ) → MemoryStore × ℕ
  drain s stream_id subject mappings =
      let (t, removed) =
        drain_loop stream_id subject (with_segment_size s.segment_size)
          (map (get_entry_view s) s.index) mappings in
      (
        record t {
          next_seq = s.next_seq;
          first_seq = elim t.index [ [] ↦ s.next_seq | m ∷ ms ↦ m.seq ];
        },
        removed,
      )

unfoldable pub mark : LogMetadata → LogMetadata
mark m = record m { flags = with_tombstone m.flags }

unfoldable pub tombstone_at : MemoryStore → ℕ → MemoryStore × Bool
tombstone_at s seq = elim (seq_to_idx s seq) [
  | some idx ↦ elim (get_elem? s.index idx) [
    | some m ↦
        if is_tombstone m.flags
        then (s, false)
        else (record s { index = set s.index idx (mark m) }, true)
    | none ↦ (s, false)
  ]
  | none ↦ (s, false)
]

-- Whether an entry is marked by the sweep of a stream.
unfoldable pub is_swept : ℕ → LogMetadata → Bool
is_swept stream_id m = (m.stream_id == stream_id) && not (is_tombstone m.flags)

unfoldable pub sweep : ℕ → LogMetadata → LogMetadata
sweep stream_id m = if is_swept stream_id m then mark m else m

unfoldable pub count_swept : ℕ → List LogMetadata → ℕ
count_swept stream_id [] = 0
count_swept stream_id (m ∷ ms) =
    let rest = count_swept stream_id ms in if is_swept stream_id m then rest + 1 else rest

unfoldable pub tombstone_stream : MemoryStore → ℕ → MemoryStore × ℕ
tombstone_stream s stream_id =
    (record s { index = map (sweep stream_id) s.index }, count_swept stream_id s.index)
