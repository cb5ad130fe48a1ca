-- ===== src/MemoryStore/Burying.antt =====
-- crates/arbitro-store/src/memory.rs: what `tombstone_at` does to the journal.
use arbitro.Common.{
  Bool, Bool-cases, List, Option, [], ap, arith, false, get_elem?, if◌then◌else◌, inl, inr, none,
  not, refl, set, some, sym, true, ℕ, ◌∙◌, ◌∷◌, ◌≡◌,
}
use arbitro.Store.{Entry, is_tombstone}
use arbitro.MemoryStore.{LogMetadata, MemoryStore, get_entry_view, seq_to_idx, stands_at, view_in}
use arbitro.MemoryStore.Removal.{mark, tombstone_at}
use arbitro.MemoryStore.Layout.{IsSound, log}
use arbitro.MemoryStore.Marking.{
  found, is_live_at, mark_at, mark_at-InPlace, mark_at-Sorted, mark_at-bytes, mark_at-view, missing,
}
use arbitro.MemoryStore.Search.{rank, seq_to_idx-rank}
use arbitro.MemoryStore.Reading.{entry_at, entry_at-rank}
use arbitro.MemoryStore.Tombstones.{bury_at, is_tombstone-with_tombstone}

buried_once : (seq : ℕ) (entries : List Entry) → is_live_at seq (bury_at seq entries) ≡ false
unfolding is_live_at bury_at entry_at
buried_once seq [] = refl
buried_once seq (entry ∷ entries) =
    ground (arith, buried_once seq entries, is_tombstone-with_tombstone entry.flags)

-- What the index shows at a position.
abbrev shown : MemoryStore → Bool → ℕ → Option Entry
shown s there i =
    if there
    then elim (get_elem? s.index i) [ some m ↦ some (get_entry_view s m) | none ↦ none ]
    else none

-- What the index shows of the entry with a number.
live_in_index :
    (s : MemoryStore) (seq : ℕ)
    → IsSound s
    → is_live_at seq (log s)
      ≡ elim (shown s (stands_at (rank seq s.index) s.index seq) (rank seq s.index)) [
        | some e ↦ not (is_tombstone e.flags)
        | none ↦ false
      ]
unfolding is_live_at
live_in_index s seq sound =
    ap (λ o. elim o [ some e ↦ not (is_tombstone e.flags) | none ↦ false ])
      (entry_at-rank s.sealed s.active s.first_seq 0 s.next_seq seq s.index sound.1)

mark_at-IsSound :
    (s : MemoryStore) (seq : ℕ) → IsSound s → IsSound (record s { index = mark_at seq s.index })
mark_at-IsSound s seq sound =
    let (placed, sorted, bytes, sealed, active, size) = sound in
    (
      mark_at-InPlace s.sealed s.active seq s.index placed,
      mark_at-Sorted s.first_seq 0 s.next_seq seq s.index sorted,
      bytes ∙ sym (mark_at-bytes seq s.index),
      sealed,
      active,
      size,
    )

abbrev position : MemoryStore → ℕ → Bool → Option ℕ
position s seq there = if there then some (rank seq s.index) else none

-- What the call does to the position that was found.
abbrev mark_found : MemoryStore → Option ℕ → MemoryStore × Bool
mark_found s found = elim found [
  | some idx ↦ elim (get_elem? s.index idx) [
    | some m ↦
        if is_tombstone m.flags
        then (s, false)
        else (record s { index = set s.index idx (mark m) }, true)
    | none ↦ (s, false)
  ]
  | none ↦ (s, false)
]

tombstone_at-seq_to_idx :
    (s : MemoryStore) (seq : ℕ) → tombstone_at s seq ≡ mark_found s (seq_to_idx s seq)
unfolding tombstone_at
tombstone_at-seq_to_idx s seq = refl

mark_found-some :
    (s : MemoryStore) (i : ℕ) (m : LogMetadata)
    → get_elem? s.index i ≡ some m
    → mark_found s (some i) ≡ (
        if is_tombstone m.flags
        then (s, false)
        else (record s { index = set s.index i (mark m) }, true))
mark_found-some s i m e =
    ap
      (λ o. elim o [
        | some m ↦
            if is_tombstone m.flags
            then (s, false)
            else (record s { index = set s.index i (mark m) }, true)
        | none ↦ (s, false)
      ])
      e

-- What `tombstone_at` returns.
tombstone_at-mark_at :
    (s : MemoryStore) (seq : ℕ)
    → IsSound s
    → tombstone_at s seq ≡ (record s { index = mark_at seq s.index }, is_live_at seq (log s))
unfolding tombstone_at view_in
tombstone_at-mark_at s seq sound = elim (Bool-cases (stands_at (rank seq s.index) s.index seq)) [
  | inl there ↦
      let (m, e, f, g) = found seq s.index there in
      elim (Bool-cases (is_tombstone m.flags)) [
        | inl marked ↦
            tombstone_at-seq_to_idx s seq
            ∙ ap (mark_found s) (seq_to_idx-rank s seq sound ∙ ap (position s seq) there)
            ∙ mark_found-some s (rank seq s.index) m e
            ∙ rw (live_in_index s seq sound, there, e, marked, g marked) refl
        | inr live ↦
            tombstone_at-seq_to_idx s seq
            ∙ ap (mark_found s) (seq_to_idx-rank s seq sound ∙ ap (position s seq) there)
            ∙ mark_found-some s (rank seq s.index) m e
            ∙ rw (live_in_index s seq sound, there, e, live, f) refl
      ]
  | inr absent ↦
      tombstone_at-seq_to_idx s seq
      ∙ ap (mark_found s) (seq_to_idx-rank s seq sound ∙ ap (position s seq) absent)
      ∙ rw
          (
            live_in_index s seq sound,
            absent,
            missing s.first_seq 0 s.next_seq seq s.index sound.1 absent,
          )
          refl
]

-- In a sound store, `tombstone_at` marks the entry with the number and changes nothing else in the
-- journal, the answer says whether there was such an entry without a mark, the store stays sound,
-- and a second call with the same number answers no.
pub tombstone_at-once :
    (s : MemoryStore) (seq : ℕ)
    → IsSound s
    → (log (tombstone_at s seq).0 ≡ bury_at seq (log s))
      × ((tombstone_at s seq).1 ≡ is_live_at seq (log s))
      × IsSound (tombstone_at s seq).0
      × ((tombstone_at (tombstone_at s seq).0 seq).1 ≡ false)
tombstone_at-once s seq sound =
    let t = record s { index = mark_at seq s.index } in
    let marked = mark_at-view s.sealed s.active seq s.index in
    let kept = mark_at-IsSound s seq sound in
    rw (tombstone_at-mark_at s seq sound) (
      marked,
      refl,
      kept,
      ap (λ r. r.1) (tombstone_at-mark_at t seq kept)
          ∙ ap (is_live_at seq) marked
          ∙ buried_once seq (log s),
    )
