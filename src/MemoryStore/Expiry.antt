-- ===== src/MemoryStore/Expiry.antt =====
-- crates/arbitro-store/src/store.rs: `purge_before`, the default method of the trait, on the journal
-- in memory.
use arbitro.Common.{
  Bool-cases, List, Option, [], ap, arith, false, if◌then◌else◌, inl, inr, leb, length, length-map,
  ltb, map, none, refl, some, sym, true, ℕ, ◌+◌, ◌-◌, ◌==◌, ◌∙◌, ◌∷◌, ◌≡◌, ◌≤◌,
}
use arbitro.Subject.{Bytes}
use arbitro.Store.{Entry}
use arbitro.MemoryStore.{LogMetadata, MemoryStore, get_entry_view, info, view_in}
use arbitro.MemoryStore.Removal.{first_valid_seq, purge, purge_before, truncate_front}
use arbitro.MemoryStore.Layout.{IsSound, Sorted, log}
use arbitro.MemoryStore.Reading.{between, read_range-between}
use arbitro.MemoryStore.Truncating.{Dense, since, since_all, truncate_front-since}

-- The entries from the first one on that is not older than the time.
unfoldable pub young_from : ℕ → List Entry → List Entry
young_from time [] = []
young_from time (entry ∷ entries) =
    let rest = young_from time entries in if leb time entry.timestamp then entry ∷ entries else rest

-- The number to cut at, or none where everything goes.
abbrev Cuts : ℕ → Option ℕ → List Entry → List Entry → Type 0
Cuts lo (some seq) entries kept = (lo ≤ seq) × (since seq entries ≡ kept)
Cuts lo none entries kept = kept ≡ []

Cuts-next :
    (lo : ℕ) (o : Option ℕ) (entry : Entry) (entries kept : List Entry)
    → Cuts (lo + 1) o entries kept
    → entry.seq ≡ lo
    → Cuts lo o (entry ∷ entries) kept
unfolding since
Cuts-next lo (some seq) entry entries kept (above, e) here =
    (omega (arith, above), ground (arith, above, here) ∙ e)
Cuts-next lo none entry entries kept e here = e

first_valid_seq-Cuts :
    (sealed : List Bytes) (active : Bytes) (lo time : ℕ) (ms : List LogMetadata)
    → Dense lo ms
    → Cuts lo
        (first_valid_seq time (map (view_in sealed active) ms))
        (map (view_in sealed active) ms)
        (young_from time (map (view_in sealed active) ms))
unfolding first_valid_seq young_from view_in since
first_valid_seq-Cuts sealed active lo time [] dense = refl
first_valid_seq-Cuts sealed active lo time (m ∷ ms) dense = elim (Bool-cases (leb time m.ts)) [
  | inl young ↦ rw young (
    omega (arith, dense.0),
    ground (arith, since_all sealed active (lo + 1) m.seq ms dense.1 (omega (arith, dense.0))),
  )
  | inr old ↦ rw old (
      Cuts-next lo (first_valid_seq time (map (view_in sealed active) ms)) (view_in sealed active m)
        (map (view_in sealed active) ms) (young_from time (map (view_in sealed active) ms))
        (first_valid_seq-Cuts sealed active (lo + 1) time ms dense.1) dense.0)
]

Sorted-room : (lo segment hi : ℕ) (ms : List LogMetadata) → Sorted lo segment hi ms → lo ≤ hi
Sorted-room lo segment hi [] sorted = sorted
Sorted-room lo segment hi (m ∷ ms) sorted =
    omega (arith, sorted.0, Sorted-room (m.seq + 1) m.segment_idx hi ms sorted.2)

between_whole :
    (sealed : List Bytes) (active : Bytes) (start lo segment hi : ℕ) (ms : List LogMetadata)
    → Sorted lo segment hi ms
    → start ≤ lo
    → between start hi (map (view_in sealed active) ms) ≡ map (view_in sealed active) ms
unfolding between view_in
between_whole sealed active start lo segment hi [] sorted h = refl
between_whole sealed active start lo segment hi (m ∷ ms) sorted h = ground (
  arith,
  sorted.0,
  Sorted-room (m.seq + 1) m.segment_idx hi ms sorted.2,
  between_whole sealed active start (m.seq + 1) m.segment_idx hi ms sorted.2
      (omega (arith, h, sorted.0)),
)

-- What the walk leads to.
abbrev expire : MemoryStore → Option ℕ → MemoryStore × ℕ
expire s found = elim found [
  | some seq ↦ if ltb s.first_seq seq then truncate_front s seq else (s, 0)
  | none ↦ purge s
]

-- The journal keeps what is named, and the answer counts the rest.
abbrev pub Keeps : List Entry → List Entry → MemoryStore × ℕ → Type 0
Keeps before kept (t, removed) = (log t ≡ kept) × (removed + length (log t) ≡ length before)

not_above : (a b : ℕ) → ltb a b ≡ false → b ≤ a
not_above a b h = ground (arith, h)

plus_zero : (n : ℕ) → n + 0 ≡ n
plus_zero n = omega arith

expire-Cuts :
    (s : MemoryStore) (found : Option ℕ) (kept : List Entry)
    → IsSound s
    → Dense s.first_seq s.index
    → Cuts s.first_seq found (log s) kept
    → Keeps (log s) kept (expire s found)
unfolding purge
expire-Cuts s (some seq) kept sound dense (above, e) = elim (Bool-cases (ltb s.first_seq seq)) [
  | inl higher ↦
      let (cut, count) = truncate_front-since s seq sound dense in rw higher (cut ∙ e, count)
  | inr first ↦ rw first (
    sym (
          since_all s.sealed s.active s.first_seq seq s.index dense
            (not_above s.first_seq seq first))
        ∙ e,
    omega arith,
  )
]
expire-Cuts s none kept sound dense e =
    (sym e, plus_zero (length s.index) ∙ sym (length-map (get_entry_view s) s.index))

nothing_there : (ms : List LogMetadata) → (length ms == 0) ≡ true → ms ≡ []
nothing_there [] h = refl
nothing_there (m ∷ ms) h = absurd (ground (arith, h))

last_seq_next :
    (lo segment hi : ℕ) (ms : List LogMetadata)
    → Sorted lo segment hi ms
    → (length ms == 0) ≡ false
    → hi - 1 + 1 ≡ hi
last_seq_next lo segment hi [] sorted h = absurd (ground (arith, h))
last_seq_next lo segment hi (m ∷ ms) sorted h =
    omega (arith, Sorted-room (m.seq + 1) m.segment_idx hi ms sorted.2)

Keeps-young_from :
    (s : MemoryStore) (time : ℕ) → s.index ≡ [] → Keeps (log s) (young_from time (log s)) (s, 0)
unfolding young_from
Keeps-young_from s time h = (
  ap (map (get_entry_view s)) h ∙ sym (ap (λ ms. young_from time (map (get_entry_view s) ms)) h),
  omega arith,
)

-- In a sound store whose numbers have no gap `purge_before` removes the entries in front of the first
-- one that is not older than the time, all of them where there is none, leaves the others as they
-- are, those behind it that are older included, and the answer counts what it removed.
pub purge_before-young_from :
    (s : MemoryStore) (timestamp_ms : ℕ)
    → IsSound s
    → Dense s.first_seq s.index
    → Keeps (log s) (young_from timestamp_ms (log s)) (purge_before s timestamp_ms)
unfolding purge_before info young_from
purge_before-young_from s timestamp_ms sound dense = elim (Bool-cases (length s.index == 0)) [
  | inl empty ↦ rw empty (Keeps-young_from s timestamp_ms (nothing_there s.index empty))
  | inr entries ↦
      rw
        (
          entries,
          last_seq_next s.first_seq 0 s.next_seq s.index sound.1 entries,
          read_range-between s s.first_seq s.next_seq sound,
          between_whole s.sealed s.active s.first_seq s.first_seq 0 s.next_seq s.index sound.1
              (omega arith),
        )
        (expire-Cuts s (first_valid_seq timestamp_ms (log s)) (young_from timestamp_ms (log s))
          sound dense
          (first_valid_seq-Cuts s.sealed s.active s.first_seq timestamp_ms s.index dense))
]
