-- ===== src/MemoryStore/Placed.antt =====
-- crates/arbitro-store/src/memory.rs: the bytes of an entry, in the segment where they were written.
use arbitro.Common.{
  All, List, [], arith, drop_all, drop_past, false, length, length-append, ltb, refl, take_whole, ℕ,
  ◌%◌, ◌*◌, ◌++◌, ◌+◌, ◌-◌, ◌<◌, ◌^◌, ◌∷◌, ◌≡◌, ◌≤◌,
}
use arbitro.Common.Word.{u32_mod, u64_mod}
use arbitro.Subject.{Bytes}
use arbitro.Store.{Entry, EntryRef}
use arbitro.MemoryStore.{LogMetadata, MemoryStore, segment_in, slice, view_in}
use arbitro.MemoryStore.Removal.{size_of, sum_bytes}
use arbitro.MemoryStore.Layout.{InPlace, Sorted, segment_in-sealed, slice_middle}

-- The entry that a reader finds for what was appended.
abbrev pub stored : ℕ → ℕ → EntryRef → Entry
stored seq timestamp entry = record {
  seq = seq;
  stream_id = entry.stream_id;
  timestamp = timestamp;
  subject = entry.subject;
  payload = entry.payload;
  flags = entry.flags;
}

abbrev pub size_of_ref : EntryRef → ℕ
size_of_ref entry = length entry.subject + length entry.payload

-- The lengths of an entry fit the fields of the index.
abbrev pub Measured : EntryRef → Type 0
Measured entry = (length entry.subject < 2 ^ 16) × (length entry.payload < u32_mod)

-- No counter of the store wraps round at the next n entries.
abbrev pub HasRoom : ℕ → MemoryStore → Type 0
HasRoom n s =
    (s.segment_size < u32_mod)
    × (length s.sealed + n < u32_mod)
    × (s.next_seq + n < u64_mod)
    × (s.total_bytes + n * s.segment_size < u64_mod)

-- The same for one write into the active segment.
abbrev pub CanWrite : MemoryStore → Type 0
CanWrite s =
    (s.segment_size < u32_mod)
    × (length s.sealed < u32_mod)
    × (s.next_seq + 1 < u64_mod)
    × (s.total_bytes + s.segment_size < u64_mod)

pub sum_bytes-append :
    (ms : List LogMetadata) (m : LogMetadata) → sum_bytes (ms ++ m ∷ []) ≡ sum_bytes ms + size_of m
unfolding sum_bytes
sum_bytes-append [] m = omega arith
sum_bytes-append (x ∷ ms) m = omega (arith, sum_bytes-append ms m)

pub Sorted-append :
    (lo segment hi : ℕ) (ms : List LogMetadata) (m : LogMetadata)
    → Sorted lo segment hi ms
    → All (λ x. x.segment_idx ≤ m.segment_idx) ms
    → segment ≤ m.segment_idx
    → m.seq ≡ hi
    → Sorted lo segment (hi + 1) (ms ++ m ∷ [])
Sorted-append lo segment hi [] m sorted below le e =
    (omega (arith, sorted, e), le, omega (arith, e))
Sorted-append lo segment hi (x ∷ ms) m sorted below le e =
    (sorted.0, sorted.1, Sorted-append (x.seq + 1) x.segment_idx hi ms m sorted.2 below.1 below.0 e)

-- What the active segment holds after the write, and where.
pub InPlace-write :
    (sealed : List Bytes) (active subject payload : Bytes) (m : LogMetadata)
    → m.offset ≡ length active
    → m.segment_idx ≡ length sealed
    → m.subj_len ≡ length subject
    → m.payload_len ≡ length payload
    → length subject < 2 ^ 16
    → length payload < u32_mod
    → InPlace sealed (active ++ (subject ++ payload)) m
unfolding segment_in
InPlace-write sealed active subject payload m o i a b ha hb =
    let n = length-append active (subject ++ payload) in
    let k = length-append subject payload in
    (omega (arith, i), ground (arith, o, i, a, b, n, k), omega (arith, a), omega (arith, b))

pub InPlace-grow :
    (sealed : List Bytes) (active more : Bytes) (m : LogMetadata)
    → InPlace sealed active m
    → InPlace sealed (active ++ more) m
unfolding segment_in
InPlace-grow sealed active more m h =
    (h.0, ground (arith, h.1, length-append active more), h.2, h.3)

pub InPlace-sealed :
    (sealed : List Bytes) (active : Bytes) (m : LogMetadata)
    → InPlace sealed active m
    → InPlace (sealed ++ active ∷ []) [] m
InPlace-sealed sealed active m h = (
  omega (arith, h.0, length-append sealed (active ∷ [])),
  rw (segment_in-sealed sealed active m.segment_idx h.0) h.1,
  h.2,
  h.3,
)

pub slice_end :
    (xs ys zs : Bytes) (a b : ℕ)
    → a ≡ length xs + length ys
    → b ≡ length xs + length ys + length zs
    → slice (xs ++ (ys ++ zs)) a b ≡ zs
unfolding slice
slice_end xs ys zs a b p q = rw (
  drop_past xs (ys ++ zs) (length ys) a p,
  drop_all ys zs (length ys) refl,
  take_whole zs (b - a) (omega (arith, p, q)),
)

pub at_end : (n i : ℕ) → i ≡ n → ltb i n ≡ false
at_end n i h = ground arith

-- The view of what was just written.
pub view_in-write :
    (sealed : List Bytes) (active subject payload : Bytes) (m : LogMetadata)
    → m.offset ≡ length active
    → m.segment_idx ≡ length sealed
    → m.subj_len ≡ length subject
    → m.payload_len ≡ length payload
    → view_in sealed (active ++ (subject ++ payload)) m ≡ record {
      seq = m.seq;
      stream_id = m.stream_id;
      timestamp = m.ts;
      subject = subject;
      payload = payload;
      flags = m.flags;
    }
unfolding view_in segment_in
view_in-write sealed active subject payload m o i a b = rw (
  at_end (length sealed) m.segment_idx i,
  slice_middle active subject payload m.offset (m.offset + m.subj_len) o (omega (arith, o, a)),
  slice_end active subject payload (m.offset + m.subj_len) (m.offset + m.subj_len + m.payload_len)
      (omega (arith, o, a)) (omega (arith, o, a, b)),
)

pub small : (n m : ℕ) → n < m → n % m ≡ n
small n m h = grind arith
