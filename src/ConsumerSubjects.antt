-- ===== src/ConsumerSubjects.antt =====
-- crates/arbitro-server/src/shard/consumer_subjects.rs: what one consumer has in flight for each
-- subject hash, and the sequence numbers that must not be delivered to it again.
pub mod Counting
pub mod Suppression
mod Tests
use arbitro.Common.{
  Bool, List, Option, [], contains, count_of, erase, if◌then◌else◌, insert, leb, length, lookup,
  ltb, min, none, put, remove, some, split_off, ℕ, ◌%◌, ◌+◌, ◌-◌, ◌==◌, ◌||◌, ◌∷◌,
}
use arbitro.Common.Word.{add_u32, add_u64, u32_mod}

abbrev pub suppress_cap : ℕ
suppress_cap = 4096

pub record ConsumerSubjects : Type 0 where
  pub inflight : List (ℕ × ℕ)
  pub total : ℕ
  pub ack_floor : ℕ
  pub suppressed : List ℕ

abbrev pub fresh : ConsumerSubjects
fresh = record { inflight = []; total = 0; ack_floor = 0; suppressed = [] }

pub get : ConsumerSubjects → ℕ → ℕ
unfolding count_of
get s hash = count_of (lookup hash s.inflight)

pub can : ConsumerSubjects → ℕ → ℕ → Bool
can s hash limit = ltb (get s hash) limit

-- `total` and the counts are `u32`.
pub inc : ConsumerSubjects → ℕ → ConsumerSubjects × ℕ
inc s hash =
    let entry = add_u32 (get s hash) 1 in
    (record s { inflight = put hash entry s.inflight; total = add_u32 s.total 1 }, entry)

-- The write back of a count, and the removal of the entry at 0.
store : ConsumerSubjects → ℕ → ℕ → List (ℕ × ℕ)
store s hash count = if count == 0 then erase hash s.inflight else put hash count s.inflight

dec_entry : ConsumerSubjects → ℕ → Option ℕ → ConsumerSubjects × ℕ
unfolding store
dec_entry s hash none = (s, 0)
dec_entry s hash (some c) = if c == 0 then (s, 0) else (
  record s { inflight = store s hash (c - 1); total = (s.total + u32_mod - 1) % u32_mod },
  c - 1,
)

pub dec : ConsumerSubjects → ℕ → ConsumerSubjects × ℕ
unfolding dec_entry
dec s hash = dec_entry s hash (lookup hash s.inflight)

dec_by_entry : ConsumerSubjects → ℕ → ℕ → Option ℕ → ConsumerSubjects × ℕ
unfolding store
dec_by_entry s hash n none = (s, 0)
dec_by_entry s hash n (some c) =
    let delta = min c n in
    (record s { inflight = store s hash (c - delta); total = s.total - delta }, c - delta)

pub dec_by : ConsumerSubjects → ℕ → ℕ → ConsumerSubjects × ℕ
unfolding dec_by_entry
dec_by s hash n = dec_by_entry s hash n (lookup hash s.inflight)

pub clear : ConsumerSubjects → ConsumerSubjects
clear s = record s { inflight = []; total = 0 }

pub distinct_subjects : ConsumerSubjects → ℕ
distinct_subjects s = length s.inflight

-- The pruning is skipped on an empty set, which it would not change.
pub raise_ack_floor : ConsumerSubjects → ℕ → ConsumerSubjects
raise_ack_floor s floor =
    if ltb s.ack_floor floor
    then record s { ack_floor = floor; suppressed = split_off (add_u64 floor 1) s.suppressed }
    else s

pop_first : List ℕ → List ℕ
pop_first [] = []
pop_first (x ∷ xs) = xs

pub suppress : ConsumerSubjects → ℕ → ConsumerSubjects
unfolding pop_first
suppress s seq =
    if leb seq s.ack_floor
    then s
    else if leb suppress_cap (length s.suppressed)
    then record s { suppressed = insert seq (pop_first s.suppressed) }
    else record s { suppressed = insert seq s.suppressed }

pub release : ConsumerSubjects → ℕ → ConsumerSubjects
release s seq = record s { suppressed = remove seq s.suppressed }

pub is_suppressed : ConsumerSubjects → ℕ → Bool
is_suppressed s seq = leb seq s.ack_floor || contains seq s.suppressed
