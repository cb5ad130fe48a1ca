-- ===== src/MemoryStore/Rebuilding.antt =====
-- crates/arbitro-store/src/memory.rs: the loop of `drain`, which pushes what it keeps into a new store.
use arbitro.MemoryStore.Placed.{HasRoom}
use arbitro.Common.{
  All, Bool, Bool-cases, List, Result, [], ap, append-nil, append_assoc, arith, err, false,
  if◌then◌else◌, inl, inr, length, none, ok, refl, some, suc, sym, true, ℕ, ◌&&◌, ◌*◌, ◌++◌, ◌+◌,
  ◌<◌, ◌==◌, ◌^◌, ◌∙◌, ◌∷◌, ◌≡◌, ◌≤◌,
}
use arbitro.Common.Word.{u32_mod, u64_mod}
use arbitro.Subject.{Bytes, subject_matches}
use arbitro.Store.{
  Entry, EntryRef, Fault, entry_matches, entry_too_large, full, invalid_subject_length, io,
  not_found, panicked, refused,
}
use arbitro.MemoryStore.{LogMetadata, MemoryStore, push_entry}
use arbitro.MemoryStore.Removal.{drain_loop, is_drained, keep_entry}
use arbitro.MemoryStore.Pushing.{Pushed, push_entry-Pushed}
use arbitro.MemoryStore.Layout.{IsSound, Sorted, log}

-- What a call is to drain: the entries of the stream, all of them where no pattern is given, and else
-- those under a subject that the pattern matches.
unfoldable pub goes : ℕ → Bytes → Entry → Bool
goes stream_id [] entry = entry.stream_id == stream_id
goes stream_id (b ∷ pattern') entry =
    (entry.stream_id == stream_id) && subject_matches (b ∷ pattern') entry.subject

-- The journal without these.
unfoldable pub without : ℕ → Bytes → List Entry → List Entry
without stream_id subject [] = []
without stream_id subject (entry ∷ entries) =
    let rest = without stream_id subject entries in
    if goes stream_id subject entry then rest else entry ∷ rest

goes-is_drained :
    (stream_id : ℕ) (subject : Bytes) (entry : Entry)
    → goes stream_id subject entry ≡ is_drained stream_id subject entry
unfolding goes is_drained entry_matches
goes-is_drained stream_id [] entry = ground arith
goes-is_drained stream_id (b ∷ pattern') entry = refl

-- The numbers of a journal rise.
abbrev pub Rising : ℕ → List Entry → Type 0
Rising lo [] = Unit
Rising lo (entry ∷ entries) = (lo ≤ entry.seq) × Rising (entry.seq + 1) entries

-- The entries of a store fit their fields and a segment, and their sizes add up to at most n.
abbrev pub Stored : ℕ → List Entry → Type 0
Stored size [] = Unit
Stored size (entry ∷ entries) =
    (length entry.subject < 2 ^ 16)
    × (length entry.payload < u32_mod)
    × (length entry.subject + length entry.payload ≤ size)
    × Stored size entries

unfoldable pub ref_of : Entry → EntryRef
ref_of entry = record {
  stream_id = entry.stream_id;
  subject = entry.subject;
  payload = entry.payload;
  flags = entry.flags;
  deliver_at_ms = 0;
}

-- What is known of the store that is built, before an entry of number lo or more.
abbrev pub Building : ℕ → ℕ → ℕ → MemoryStore → Type 0
Building lo n size t =
    IsSound t
    × (t.next_seq ≤ lo)
    × (t.first_seq ≡ 1)
    × (t.segment_size ≡ size)
    × (length t.sealed + n < u32_mod)
    × (t.total_bytes + n * size < u64_mod)

pub Sorted-weaken :
    (lo segment hi top : ℕ) (ms : List LogMetadata)
    → Sorted lo segment hi ms
    → hi ≤ top
    → Sorted lo segment top ms
Sorted-weaken lo segment hi top [] sorted h = omega (arith, sorted, h)
Sorted-weaken lo segment hi top (m ∷ ms) sorted h =
    (sorted.0, sorted.1, Sorted-weaken (m.seq + 1) m.segment_idx hi top ms sorted.2 h)

-- The number is set by hand before the push.
abbrev pub renumbered : MemoryStore → ℕ → MemoryStore
renumbered t seq = record t { next_seq = seq }

pub renumbered-IsSound :
    (t : MemoryStore) (seq : ℕ) → IsSound t → t.next_seq ≤ seq → IsSound (renumbered t seq)
renumbered-IsSound t seq sound h = (
  sound.0,
  Sorted-weaken t.first_seq 0 t.next_seq seq t.index sound.1 h,
  sound.2,
  sound.3,
  sound.4,
  sound.5,
)

pub renumbered-HasRoom :
    (t : MemoryStore) (lo n size seq : ℕ)
    → Building lo (suc n) size t
    → size < u32_mod
    → seq + 1 < u64_mod
    → HasRoom 1 (renumbered t seq)
renumbered-HasRoom t lo n size seq building h k = (
  omega (arith, building.3, h),
  omega (arith, building.4),
  k,
  rw building.3 (grind (arith, building.5)),
)

pub impossible : (kind : ℕ) → none ≡ some kind → ⊥
impossible kind h = ground (arith, h)

pub Pushed-Building :
    (t : MemoryStore) (entry : Entry) (lo n size : ℕ) (r : MemoryStore × Result Fault ℕ)
    → Pushed (renumbered t entry.seq) (ref_of entry) entry.timestamp none r
    → Building lo (suc n) size t
    → length entry.subject + length entry.payload ≤ size
    → Building (entry.seq + 1) n size r.0 × (log r.0 ≡ log t ++ entry ∷ [])
unfolding ref_of
Pushed-Building t entry lo n size (r, ok seq) pushed building le = (
  (
    pushed.2,
    omega (arith, pushed.3),
    omega (arith, pushed.4, building.2),
    omega (arith, pushed.5, building.3),
    omega (arith, pushed.6, building.4),
    grind (arith, pushed.5, pushed.7, building.3, building.5),
  ),
  pushed.1,
)
Pushed-Building t entry lo n size (r, err (refused entry_too_large)) pushed building le =
    absurd (omega (arith, pushed.1, le, building.3))
Pushed-Building t entry lo n size (r, err (refused (io kind))) pushed building le =
    absurd (impossible kind pushed.3)
Pushed-Building t entry lo n size (r, err (refused full)) pushed building le = absurd pushed
Pushed-Building t entry lo n size (r, err (refused not_found)) pushed building le = absurd pushed
Pushed-Building t entry lo n size (r, err (refused invalid_subject_length)) pushed building le =
    absurd pushed
Pushed-Building t entry lo n size (r, err panicked) pushed building le = absurd pushed

pub Building-less :
    (lo n size : ℕ) (t : MemoryStore) → Building lo (suc n) size t → Building lo n size t
Building-less lo n size t b = (b.0, b.1, b.2, b.3, omega (arith, b.4), grind (arith, b.5))

pub Rising-weaken :
    (lo top : ℕ) (entries : List Entry) → lo ≤ top → Rising top entries → Rising lo entries
Rising-weaken lo top [] h rising = tt
Rising-weaken lo top (entry ∷ entries) h rising = (omega (arith, h, rising.0), rising.1)

-- What the loop has built from the entries, and its count.
unfoldable pub Drained : ℕ → Bytes → ℕ → MemoryStore → List Entry → MemoryStore × ℕ → Type 0
Drained stream_id subject hi t entries (u, removed) =
    (log u ≡ log t ++ without stream_id subject entries)
    × IsSound u
    × (u.next_seq ≤ hi)
    × (u.segment_size ≡ t.segment_size)
    × (removed + length (without stream_id subject entries) ≡ length entries)

pub Drained-end :
    (stream_id : ℕ) (subject : Bytes) (hi : ℕ) (t : MemoryStore)
    → IsSound t
    → t.next_seq ≤ hi
    → Drained stream_id subject hi t [] (t, 0)
unfolding Drained without
Drained-end stream_id subject hi t sound h = (sym (append-nil (log t)), sound, h, refl, omega arith)

pub Drained-gone :
    (stream_id : ℕ) (subject : Bytes) (hi : ℕ) (t : MemoryStore) (entry : Entry)
    (entries : List Entry) (r : MemoryStore × ℕ)
    → goes stream_id subject entry ≡ true
    → Drained stream_id subject hi t entries r
    → Drained stream_id subject hi t (entry ∷ entries) (r.0, r.1 + 1)
unfolding Drained without
Drained-gone stream_id subject hi t entry entries (u, removed) gone d =
    rw gone (d.0, d.1, d.2, d.3, omega (arith, d.4))

pub Drained-kept :
    (stream_id : ℕ) (subject : Bytes) (hi : ℕ) (t u : MemoryStore) (entry : Entry)
    (entries : List Entry) (r : MemoryStore × ℕ)
    → goes stream_id subject entry ≡ false
    → log u ≡ log t ++ entry ∷ []
    → u.segment_size ≡ t.segment_size
    → Drained stream_id subject hi u entries r
    → Drained stream_id subject hi t (entry ∷ entries) r
unfolding Drained without
Drained-kept stream_id subject hi t u entry entries (v, removed) kept l size d = rw kept (
  d.0
      ∙ ap (λ x. x ++ without stream_id subject entries) l
      ∙ append_assoc (log t) (entry ∷ []) (without stream_id subject entries),
  d.1,
  d.2,
  d.3 ∙ size,
  omega (arith, d.4),
)

module _ (wire_hash_32 : Bytes → ℕ) where
  pub keep_entry-Building :
      (t : MemoryStore) (entry : Entry) (lo n size : ℕ)
      → Building lo (suc n) size t
      → size < u32_mod
      → entry.seq + 1 < u64_mod
      → lo ≤ entry.seq
      → length entry.subject < 2 ^ 16
      → length entry.payload < u32_mod
      → length entry.subject + length entry.payload ≤ size
      → (Building (entry.seq + 1) n size (keep_entry wire_hash_32 t entry none))
        × (log (keep_entry wire_hash_32 t entry none) ≡ log t ++ entry ∷ [])
  unfolding keep_entry ref_of
  keep_entry-Building t entry lo n size building small_segments room le a b c =
      Pushed-Building t entry lo n size
        (push_entry wire_hash_32 (renumbered t entry.seq) (ref_of entry) entry.timestamp none)
        (push_entry-Pushed wire_hash_32 (renumbered t entry.seq) (ref_of entry) entry.timestamp none
          (renumbered-IsSound t entry.seq building.0 (omega (arith, building.1, le)))
          (renumbered-HasRoom t lo n size entry.seq building small_segments room) (a, b))
        building c

  pub drain_loop-Drained :
      (stream_id : ℕ) (subject : Bytes) (t : MemoryStore) (entries : List Entry) (lo hi size : ℕ)
      → Building lo (length entries) size t
      → size < u32_mod
      → hi < u64_mod
      → lo ≤ hi
      → Rising lo entries
      → All (λ e. e.seq < hi) entries
      → Stored size entries
      → Drained stream_id subject hi t entries
          (drain_loop wire_hash_32 stream_id subject t entries (λ n. none))
  unfolding drain_loop
  drain_loop-Drained stream_id subject t [] lo hi size building h k le rising bounded sizes =
      Drained-end stream_id subject hi t building.0 (omega (arith, building.1, le))
  drain_loop-Drained stream_id subject t (entry ∷ entries) lo hi size building h k le rising bounded
        sizes =
      elim (Bool-cases (is_drained stream_id subject entry)) [
        | inl gone ↦
            rw (gone, drain_loop)
              (Drained-gone stream_id subject hi t entry entries
                (drain_loop wire_hash_32 stream_id subject t entries (λ n. none))
                (goes-is_drained stream_id subject entry ∙ gone)
                (drain_loop-Drained stream_id subject t entries lo hi size
                  (Building-less lo (length entries) size t building) h k le
                  (Rising-weaken lo (entry.seq + 1) entries (omega (arith, rising.0)) rising.1)
                  bounded.1 sizes.3))
        | inr kept ↦
            let u = keep_entry wire_hash_32 t entry none in
            let (building_u, log_u) =
              keep_entry-Building t entry lo (length entries) size building h
                (omega (arith, k, bounded.0)) rising.0 sizes.0 sizes.1 sizes.2 in
            rw (kept, drain_loop)
              (Drained-kept stream_id subject hi t u entry entries
                (drain_loop wire_hash_32 stream_id subject u entries (λ n. none))
                (goes-is_drained stream_id subject entry ∙ kept) log_u
                (building_u.3 ∙ sym building.3)
                (drain_loop-Drained stream_id subject u entries (entry.seq + 1) hi size building_u h
                  k (omega (arith, bounded.0)) rising.1 bounded.1 sizes.3))
      ]
