-- ===== src/MemoryStore/Tests.antt =====
-- Runs of the journal on two small stores.
use arbitro.Common.{
  [], arith, false, if◌then◌else◌, length, none, refl, replicate, some, ℕ, ◌+◌, ◌==◌, ◌∷◌, ◌≡◌,
}
use arbitro.Subject.{Bytes}
use arbitro.Store.{EntryRef}
use arbitro.MemoryStore.{
  LogMetadata, MemoryStore, append_batch, get_entry_view, push_entry, read, read_range, rotate,
  segment_in, slice, view_in,
}
use arbitro.MemoryStore.Removal.{
  drain, keep_entry, purge_before, sum_bytes, tombstone_at, tombstone_stream, truncate_front,
}
use arbitro.MemoryStore.Pushing.{Pushed, push_entry-Pushed}
use arbitro.MemoryStore.Expiry.{Keeps, purge_before-young_from, young_from}
use arbitro.MemoryStore.Marking.{is_live_at}
use arbitro.MemoryStore.Burying.{tombstone_at-once}
use arbitro.MemoryStore.Layout.{IsSound, log}
use arbitro.MemoryStore.Placed.{HasRoom, Measured, stored}
use arbitro.MemoryStore.Appending.{Stores, append_batch-Stores}
use arbitro.MemoryStore.Reading.{between, read_range-between}
use arbitro.MemoryStore.RoundTrip.{read-push_entry}
use arbitro.MemoryStore.Truncating.{Dense, since, truncate_front-since}
use arbitro.MemoryStore.Kept.{truncate_front-IsSound}
use arbitro.MemoryStore.Draining.{drain-without}
use arbitro.MemoryStore.Rebuilding.{without}
use arbitro.MemoryStore.Tombstones.{bury_at, bury_stream, live_of, tombstone_stream-live}

abbrev hash : Bytes → ℕ
hash bytes = length bytes

abbrev first_meta : LogMetadata
first_meta = record {
  seq = 1;
  ts = 10;
  subj_len = 2;
  payload_len = 2;
  offset = 0;
  segment_idx = 0;
  subject_hash = 2;
  stream_id = 1;
  flags = 0;
}

abbrev second_meta : LogMetadata
second_meta = record {
  seq = 2;
  ts = 20;
  subj_len = 1;
  payload_len = 1;
  offset = 4;
  segment_idx = 0;
  subject_hash = 1;
  stream_id = 2;
  flags = 0;
}

abbrev two : MemoryStore
two = record {
  active = 97 ∷ 98 ∷ 1 ∷ 2 ∷ 99 ∷ 3 ∷ [];
  sealed = [];
  index = first_meta ∷ second_meta ∷ [];
  next_seq = 3;
  first_seq = 1;
  total_bytes = 6;
  segment_size = 4096;
}

abbrev third : EntryRef
third = record {
  stream_id = 1;
  subject = 97 ∷ 99 ∷ [];
  payload = 7 ∷ 8 ∷ 9 ∷ [];
  flags = 0;
  deliver_at_ms = 0;
}

two-IsSound : IsSound two
unfolding segment_in sum_bytes
two-IsSound = (
  (
    (omega arith, omega arith, omega arith, omega arith),
    ((omega arith, omega arith, omega arith, omega arith), tt),
  ),
  (omega arith, omega arith, (omega arith, omega arith, omega arith)),
  refl,
  tt,
  omega arith,
  omega arith,
)

two-Dense : Dense 1 two.index
two-Dense = (refl, (refl, tt))

two-HasRoom : HasRoom 1 two
two-HasRoom = (omega arith, omega arith, omega arith, omega arith)

third-Measured : Measured third
third-Measured = (omega arith, omega arith)

push_entry-Pushed_example : Pushed two third 30 (some 12) (push_entry hash two third 30 (some 12))
push_entry-Pushed_example =
    push_entry-Pushed hash two third 30 (some 12) two-IsSound two-HasRoom third-Measured

append_batch-Stores_example :
    (k : ℕ) × Stores two (third ∷ []) 30 (append_batch hash two (third ∷ []) 30 (λ n. none)) k
append_batch-Stores_example =
    append_batch-Stores hash two (third ∷ []) 30 (λ n. none) two-IsSound two-HasRoom
      (third-Measured, tt)

read-push_entry_example :
    read (push_entry hash two third 30 none).0 3
    ≡ (if two.next_seq == 3 then some (stored 3 30 third) else read two 3)
read-push_entry_example =
    read-push_entry hash two third 30 3 two-IsSound two-HasRoom third-Measured (omega arith)

read_range-between_example : read_range two 2 9 ≡ between 2 9 (log two)
read_range-between_example = read_range-between two 2 9 two-IsSound

truncate_front-since_example :
    (log (truncate_front two 2).0 ≡ since 2 (log two))
    × ((truncate_front two 2).1 + length (log (truncate_front two 2).0) ≡ length (log two))
truncate_front-since_example = truncate_front-since two 2 two-IsSound two-Dense

truncate_front-IsSound_example : IsSound (truncate_front two 2).0
truncate_front-IsSound_example = truncate_front-IsSound two 2 two-IsSound two-Dense (omega arith)

drain-without_example :
    (log (drain hash two 1 [] (λ n. none)).0 ≡ without 1 [] (log two))
    × IsSound (drain hash two 1 [] (λ n. none)).0
    × ((drain hash two 1 [] (λ n. none)).0.next_seq ≡ two.next_seq)
    × ((drain hash two 1 [] (λ n. none)).1 + length (without 1 [] (log two)) ≡ length (log two))
drain-without_example =
    drain-without hash two 1 [] two-IsSound (omega arith) (omega arith) (omega arith) (omega arith)
      (omega arith)

tombstone_stream-live_example :
    (log (tombstone_stream two 2).0 ≡ bury_stream 2 (log two))
    × ((tombstone_stream two 2).1 ≡ live_of 2 (log two))
    × ((tombstone_stream (tombstone_stream two 2).0 2).1 ≡ 0)
tombstone_stream-live_example = tombstone_stream-live two 2

tombstone_at-once_example :
    (log (tombstone_at two 2).0 ≡ bury_at 2 (log two))
    × ((tombstone_at two 2).1 ≡ is_live_at 2 (log two))
    × IsSound (tombstone_at two 2).0
    × ((tombstone_at (tombstone_at two 2).0 2).1 ≡ false)
tombstone_at-once_example = tombstone_at-once two 2 two-IsSound

purge_before-young_from_example : Keeps (log two) (young_from 20 (log two)) (purge_before two 20)
purge_before-young_from_example = purge_before-young_from two 20 two-IsSound two-Dense

-- After a drain has left a gap, a number is no longer a position: here the numbers 1 and 3 are
-- stored, the cut at 3 takes both.
abbrev gap : MemoryStore
gap = record {
  active = 97 ∷ 98 ∷ 1 ∷ 2 ∷ 99 ∷ 3 ∷ [];
  sealed = [];
  index = first_meta ∷ record second_meta { seq = 3 } ∷ [];
  next_seq = 4;
  first_seq = 1;
  total_bytes = 6;
  segment_size = 4096;
}

gap_truncated : (truncate_front gap 3).1 ≡ 2
unfolding truncate_front
gap_truncated = refl

-- An entry that `drain` should keep is lost where the system does not map a segment for it.
abbrev brim : MemoryStore
brim = record two { active = replicate 4096 0; index = []; total_bytes = 0 }

kept_entry_lost : (keep_entry hash brim (get_entry_view two second_meta) (some 12)).index ≡ []
unfolding keep_entry push_entry rotate view_in slice segment_in
kept_entry_lost = refl
