-- ===== src/MemoryStore/Raw.antt =====
-- crates/arbitro-store/src/memory.rs: the iteration over raw bytes against the one over views.
use arbitro.Common.{
  List, [], arith, drop, drop-drop, drop-take, length, map, map-map, min, refl, take, take-take, ℕ,
  ◌+◌, ◌-◌, ◌∙◌, ◌∷◌, ◌≡◌,
}
use arbitro.Subject.{Bytes}
use arbitro.Store.{Entry}
use arbitro.MemoryStore.{
  LogMetadata, MemoryStore, RawEntry, find_lower_bound, for_each_raw, get_entry_view, raw_in,
  raw_payload, raw_subject, read_range, segment_in, slice, view_in,
}

-- The caller splits the bytes where the fields say.
abbrev pub split_raw : RawEntry → Entry
split_raw raw = record {
  seq = raw.seq;
  stream_id = raw.stream_id;
  timestamp = raw.timestamp;
  subject = raw_subject raw;
  payload = raw_payload raw;
  flags = raw.flags;
}

cancel : (a b c : ℕ) → c ≡ a + b → c - a ≡ b
cancel a b c h = omega arith

split_raw-view :
    (sealed : List Bytes) (active : Bytes) (m : LogMetadata)
    → split_raw (raw_in sealed active m) ≡ view_in sealed active m
unfolding raw_in raw_subject raw_payload view_in slice
split_raw-view sealed active m =
    let segment = segment_in sealed active m.segment_idx in
    rw (
      cancel m.offset (m.subj_len + m.payload_len) (m.offset + (m.subj_len + m.payload_len)) refl,
      cancel m.offset m.subj_len (m.offset + m.subj_len) refl,
      cancel (m.offset + m.subj_len) m.payload_len (m.offset + m.subj_len + m.payload_len) refl,
      take-take m.subj_len (m.subj_len + m.payload_len) (drop m.offset segment) (omega arith),
      drop-take m.subj_len m.payload_len (m.subj_len + m.payload_len) (drop m.offset segment) refl,
      drop-drop m.subj_len m.offset (m.offset + m.subj_len) segment refl,
    )

map_same {ℓ κ} :
    {A : Type ℓ} {B : Type κ} (f g : A → B)
    → ((a : A) → f a ≡ g a)
    → (xs : List A) → map f xs ≡ map g xs
map_same f g h [] = refl
map_same f g h (x ∷ xs) = rw (h x, map_same f g h xs) refl

-- `for_each_raw` visits the entries that `for_each` visits, and the split of each run of bytes at
-- its subject length is the view of the entry.
pub for_each_raw-read_range :
    (s : MemoryStore) (start end : ℕ)
    → map split_raw (for_each_raw s start end) ≡ read_range s start end
unfolding for_each_raw read_range
for_each_raw-read_range s start end =
    let e = min (find_lower_bound s end) (length s.index) in
    let b = min (find_lower_bound s start) e in
    let metas = take (e - b) (drop b s.index) in
    map-map split_raw (raw_in s.sealed s.active) metas
    ∙ map_same (λ m. split_raw (raw_in s.sealed s.active m)) (get_entry_view s)
        (split_raw-view s.sealed s.active) metas
