-- ===== src/MemoryStore/Truncating.antt =====
-- crates/arbitro-store/src/memory.rs: `truncate_front` and `purge`.
use arbitro.Common.{
  All, All-map, Bool-cases, List, [], ap, arith, drop, false, get_or, if◌then◌else◌, inl, inr, leb,
  leb→le, length, length-drop, length-map, map, map-map, map_ext, min, refl, suc, sym, true, zero,
  ℕ, ◌+◌, ◌-◌, ◌<◌, ◌==◌, ◌||◌, ◌∙◌, ◌∷◌, ◌≡◌, ◌≤◌,
}
use arbitro.Subject.{Bytes}
use arbitro.Store.{Entry}
use arbitro.MemoryStore.{LogMetadata, MemoryStore, get_entry_view, segment_in, view_in}
use arbitro.MemoryStore.Removal.{cut_front, reindex, remaining_start_seg, truncate_front}
use arbitro.MemoryStore.Layout.{IsSound, Sorted, log}

-- The numbers follow on each other without a gap.
abbrev pub Dense : ℕ → List LogMetadata → Type 0
Dense lo [] = Unit
Dense lo (m ∷ ms) = (m.seq ≡ lo) × Dense (lo + 1) ms

-- The entries from a number on.
unfoldable pub since : ℕ → List Entry → List Entry
since first [] = []
since first (entry ∷ entries) =
    let rest = since first entries in if leb first entry.seq then entry ∷ rest else rest

get_or-drop {ℓ} :
    {A : Type ℓ} (xs : List A) (n i : ℕ) (d : A)
    → n ≤ i
    → get_or (drop n xs) (i - n) d ≡ get_or xs i d
get_or-drop xs zero i d h = ap (λ j. get_or xs j d) (omega arith)
get_or-drop [] (suc n) i d h = refl
get_or-drop (x ∷ xs) (suc n) zero d h = absurd (omega arith)
get_or-drop (x ∷ xs) (suc n) (suc i) d h =
    ap (λ j. get_or (drop n xs) j d) (omega arith) ∙ get_or-drop xs n i d (omega arith)

pub segment_in-drop :
    (sealed : List Bytes) (active : Bytes) (n idx : ℕ)
    → n ≤ idx
    → n ≤ length sealed
    → segment_in (drop n sealed) active (idx - n) ≡ segment_in sealed active idx
unfolding segment_in
segment_in-drop sealed active n idx h k =
    ground (arith, h, k, length-drop n sealed, get_or-drop sealed n idx [] h)

-- The segments in front of an entry may go.
view_in-reindex :
    (sealed : List Bytes) (active : Bytes) (n : ℕ) (m : LogMetadata)
    → n ≤ m.segment_idx
    → n ≤ length sealed
    → view_in (drop n sealed) active (reindex n m) ≡ view_in sealed active m
unfolding view_in reindex
view_in-reindex sealed active n m h k = rw (segment_in-drop sealed active n m.segment_idx h k) refl

Sorted-floor :
    (lo segment hi : ℕ) (ms : List LogMetadata)
    → Sorted lo segment hi ms
    → All (λ m. segment ≤ m.segment_idx) ms
Sorted-floor lo segment hi [] sorted = tt
Sorted-floor lo segment hi (m ∷ ms) sorted = (
  sorted.1,
  All-map (λ x. m.segment_idx ≤ x.segment_idx) (λ x. segment ≤ x.segment_idx)
      (λ x h. omega (arith, h, sorted.1)) ms
      (Sorted-floor (m.seq + 1) m.segment_idx hi ms sorted.2),
)

-- What stays is in segments from the first one that stays.
pub stays :
    (sealed : List Bytes) (lo segment hi cut : ℕ) (ms : List LogMetadata)
    → Sorted lo segment hi ms
    → All (λ m. remaining_start_seg sealed (drop cut ms) ≤ m.segment_idx) (drop cut ms)
unfolding remaining_start_seg
stays sealed lo segment hi zero [] sorted = tt
stays sealed lo segment hi zero (m ∷ ms) sorted =
    (omega arith, Sorted-floor (m.seq + 1) m.segment_idx hi ms sorted.2)
stays sealed lo segment hi (suc cut) [] sorted = tt
stays sealed lo segment hi (suc cut) (m ∷ ms) sorted =
    stays sealed (m.seq + 1) m.segment_idx hi cut ms sorted.2

-- The front of the index is cut off, and a reader sees no other change.
pub cut_front-log :
    (s : MemoryStore) (first_seq cut : ℕ)
    → IsSound s
    → log (cut_front s first_seq cut) ≡ map (get_entry_view s) (drop cut s.index)
unfolding cut_front
cut_front-log s first_seq cut sound =
    let n = min (remaining_start_seg s.sealed (drop cut s.index)) (length s.sealed) in
    map-map (view_in (drop n s.sealed) s.active) (reindex n) (drop cut s.index)
    ∙ map_ext (λ m. remaining_start_seg s.sealed (drop cut s.index) ≤ m.segment_idx)
        (λ m. view_in (drop n s.sealed) s.active (reindex n m)) (get_entry_view s)
        (λ m h. view_in-reindex s.sealed s.active n m (omega (arith, h)) (omega arith))
        (drop cut s.index) (stays s.sealed s.first_seq 0 s.next_seq cut s.index sound.1)

pub since_all :
    (sealed : List Bytes) (active : Bytes) (lo first : ℕ) (ms : List LogMetadata)
    → Dense lo ms
    → first ≤ lo
    → since first (map (view_in sealed active) ms) ≡ map (view_in sealed active) ms
unfolding since view_in
since_all sealed active lo first [] dense h = refl
since_all sealed active lo first (m ∷ ms) dense h =
    ground (arith, dense.0, since_all sealed active (lo + 1) first ms dense.1)

pub cut_zero : (first lo n : ℕ) → first ≤ lo → min (first - lo) n ≡ 0
cut_zero first lo n h = omega arith

pub cut_suc :
    (first lo n : ℕ) → lo < first → min (first - lo) (suc n) ≡ suc (min (first - (lo + 1)) n)
cut_suc first lo n h = omega arith

pub no_cut : (a : ℕ) → min a 0 ≡ 0
no_cut a = omega arith

pub above_or_below : (a b : ℕ) → leb a b ≡ false → b < a
above_or_below a b h = ground (arith, h)

-- Without gaps a number and a position differ by a constant.
drop-since :
    (sealed : List Bytes) (active : Bytes) (lo first : ℕ) (ms : List LogMetadata)
    → Dense lo ms
    → map (view_in sealed active) (drop (min (first - lo) (length ms)) ms)
      ≡ since first (map (view_in sealed active) ms)
unfolding since view_in
drop-since sealed active lo first [] dense = rw (no_cut (first - lo)) refl
drop-since sealed active lo first (m ∷ ms) dense = elim (Bool-cases (leb first m.seq)) [
  | inl kept ↦
      let le = leb→le first m.seq kept in
      rw (cut_zero first lo (suc (length ms)) (omega (arith, le, dense.0)), kept)
        (ap (λ l. view_in sealed active m ∷ l)
          (sym (since_all sealed active (lo + 1) first ms dense.1 (omega (arith, le, dense.0)))))
  | inr gone ↦
      rw
        (
          cut_suc first lo (length ms) (omega (arith, above_or_below first m.seq gone, dense.0)),
          gone,
        )
        (drop-since sealed active (lo + 1) first ms dense.1)
]

zero_plus : (n : ℕ) → 0 + n ≡ n
zero_plus n = omega arith

nothing_cut :
    (first lo n : ℕ) → (leb first lo || (min (first - lo) n == 0)) ≡ true → min (first - lo) n ≡ 0
nothing_cut first lo n h = ground (arith, h)

-- In a sound store whose numbers have no gap `truncate_front` removes exactly the entries below the
-- number, whatever the number is, and the answer counts them.
pub truncate_front-since :
    (s : MemoryStore) (first_seq : ℕ)
    → IsSound s
    → Dense s.first_seq s.index
    → (log (truncate_front s first_seq).0 ≡ since first_seq (log s))
      × ((truncate_front s first_seq).1 + length (log (truncate_front s first_seq).0)
          ≡ length (log s))
unfolding truncate_front
truncate_front-since s first_seq sound dense =
    let cut = min (first_seq - s.first_seq) (length s.index) in
    let kept = drop-since s.sealed s.active s.first_seq first_seq s.index dense in
    elim (Bool-cases (leb first_seq s.first_seq || (cut == 0))) [
      | inl nothing ↦ rw nothing (
        ap (λ n. map (get_entry_view s) (drop n s.index))
              (sym (nothing_cut first_seq s.first_seq (length s.index) nothing))
            ∙ kept,
        zero_plus (length (log s)),
      )
      | inr some_go ↦ rw some_go (
        cut_front-log s first_seq cut sound ∙ kept,
        omega (
          arith,
          ap length (cut_front-log s first_seq cut sound),
          length-map (get_entry_view s) (drop cut s.index),
          length-drop cut s.index,
          length-map (get_entry_view s) s.index,
        ),
      )
    ]
