-- ===== src/MemoryStore/Tombstones.antt =====
-- crates/arbitro-store/src/memory.rs: what marked entries look like in the journal, and what
-- `tombstone_stream` does to it.
use arbitro.Common.{
  Bool, Bool-cases, List, [], arith, false, if◌then◌else◌, inl, inr, map, not, refl, true, ℕ, ◌&&◌,
  ◌+◌, ◌==◌, ◌∷◌, ◌≡◌,
}
use arbitro.Subject.{Bytes}
use arbitro.Store.{Entry, is_tombstone, with_tombstone}
use arbitro.MemoryStore.{LogMetadata, MemoryStore, view_in}
use arbitro.MemoryStore.Removal.{count_swept, is_swept, mark, sweep, tombstone_stream}
use arbitro.MemoryStore.Layout.{log}

-- A marked entry, in the journal.
abbrev pub buried : Entry → Entry
buried entry = record entry { flags = with_tombstone entry.flags }

unfoldable pub bury_at : ℕ → List Entry → List Entry
bury_at seq [] = []
bury_at seq (entry ∷ entries) =
    let rest = bury_at seq entries in
    if entry.seq == seq then buried entry ∷ entries else entry ∷ rest

unfoldable pub bury_stream : ℕ → List Entry → List Entry
bury_stream stream_id [] = []
bury_stream stream_id (entry ∷ entries) =
    let rest = bury_stream stream_id entries in
    if entry.stream_id == stream_id then buried entry ∷ rest else entry ∷ rest

-- The entries of a stream that carry no mark.
unfoldable pub live_of : ℕ → List Entry → ℕ
live_of stream_id [] = 0
live_of stream_id (entry ∷ entries) =
    let rest = live_of stream_id entries in
    if (entry.stream_id == stream_id) && not (is_tombstone entry.flags) then rest + 1 else rest

pub marked_twice : (flags : ℕ) → is_tombstone flags ≡ true → with_tombstone flags ≡ flags
marked_twice flags h = ground (arith, h)

pub is_tombstone-with_tombstone : (flags : ℕ) → is_tombstone (with_tombstone flags) ≡ true
is_tombstone-with_tombstone flags = ground arith

sweep-view :
    (sealed : List Bytes) (active : Bytes) (stream_id : ℕ) (m : LogMetadata)
    → view_in sealed active (sweep stream_id m) ≡ (
        if m.stream_id == stream_id
        then buried (view_in sealed active m)
        else view_in sealed active m)
unfolding view_in sweep is_swept mark
sweep-view sealed active stream_id m = elim (Bool-cases (m.stream_id == stream_id)) [
  | inl mine ↦ elim (Bool-cases (is_tombstone m.flags)) [
    | inl marked ↦ rw (mine, marked, marked_twice m.flags marked) refl
    | inr live ↦ rw (mine, live) refl
  ]
  | inr other ↦ rw other refl
]

is_swept-sweep : (stream_id : ℕ) (m : LogMetadata) → is_swept stream_id (sweep stream_id m) ≡ false
unfolding sweep is_swept mark
is_swept-sweep stream_id m = elim (Bool-cases (m.stream_id == stream_id)) [
  | inl mine ↦ elim (Bool-cases (is_tombstone m.flags)) [
    | inl marked ↦ rw (mine, marked, mine, marked) refl
    | inr live ↦ rw (mine, live, mine, is_tombstone-with_tombstone m.flags) refl
  ]
  | inr other ↦ rw (other, other) refl
]

if_cons :
    (b : Bool) (x y : Entry) (l : List Entry)
    → (if b then x else y) ∷ l ≡ (if b then x ∷ l else y ∷ l)
if_cons true x y l = refl
if_cons false x y l = refl

bury_stream-sweep :
    (sealed : List Bytes) (active : Bytes) (stream_id : ℕ) (ms : List LogMetadata)
    → (map (view_in sealed active) (map (sweep stream_id) ms)
        ≡ bury_stream stream_id (map (view_in sealed active) ms))
      × (count_swept stream_id ms ≡ live_of stream_id (map (view_in sealed active) ms))
      × (count_swept stream_id (map (sweep stream_id) ms) ≡ 0)
unfolding bury_stream live_of count_swept is_swept view_in
bury_stream-sweep sealed active stream_id [] = (refl, refl, refl)
bury_stream-sweep sealed active stream_id (m ∷ ms) =
    let ih = bury_stream-sweep sealed active stream_id ms in
    (
      rw (ih.0, sweep-view sealed active stream_id m)
          (if_cons (m.stream_id == stream_id) (buried (view_in sealed active m))
            (view_in sealed active m) (bury_stream stream_id (map (view_in sealed active) ms))),
      rw ih.1 refl,
      rw (is_swept-sweep stream_id m, ih.2) refl,
    )

-- `tombstone_stream` marks every entry of the stream and changes nothing else in the journal, the
-- answer counts the entries that were not marked before, and a second call answers 0.
pub tombstone_stream-live :
    (s : MemoryStore) (stream_id : ℕ)
    → (log (tombstone_stream s stream_id).0 ≡ bury_stream stream_id (log s))
      × ((tombstone_stream s stream_id).1 ≡ live_of stream_id (log s))
      × ((tombstone_stream (tombstone_stream s stream_id).0 stream_id).1 ≡ 0)
unfolding tombstone_stream
tombstone_stream-live s stream_id = bury_stream-sweep s.sealed s.active stream_id s.index
