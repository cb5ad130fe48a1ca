-- ===== src/AckPending.antt =====
-- crates/arbitro-client-tokio/src/ackrel/pending.rs: the sequence numbers of one consumer that the
-- broker has not confirmed, with the bounds that are asked before the set. Each method is one step.
pub mod Gate
mod Tests
use arbitro.Common.{
  Bool, List, [], contains, false, if◌then◌else◌, insert, length, ltb, max, min, split_off, take,
  true, ℕ, ◌%◌, ◌+◌, ◌-◌, ◌==◌, ◌||◌, ◌∷◌,
}
use arbitro.Common.Word.{add_u32, u32_mod, u64_mod}

abbrev pub u64_max : ℕ
u64_max = u64_mod - 1

pub record ConsumerPending : Type 0 where
  pub generation : ℕ
  pub count : ℕ
  pub min_seq : ℕ
  pub max_seq : ℕ
  pub pending : List ℕ
  pub oldest_ts_ms : ℕ

pub atomic_min : ℕ → ℕ → ℕ
atomic_min a v = if ltb v a then v else a

pub atomic_max : ℕ → ℕ → ℕ
atomic_max a v = if ltb a v then v else a

pub new_pending : ℕ → ConsumerPending
new_pending generation = record {
  generation = generation;
  count = 0;
  min_seq = u64_max;
  max_seq = 0;
  pending = [];
  oldest_ts_ms = 0;
}

-- Whether the number is new.
pub record_pending : ConsumerPending → ℕ → ℕ → ConsumerPending × Bool
unfolding atomic_min atomic_max
record_pending c seq now_ms = if contains seq c.pending then (c, false) else (
  record c {
    pending = insert seq c.pending;
    count = add_u32 c.count 1;
    min_seq = atomic_min c.min_seq seq;
    max_seq = atomic_max c.max_seq seq;
    oldest_ts_ms = if c.oldest_ts_ms == 0 then now_ms else c.oldest_ts_ms;
  },
  true,
)

pub is_pending : ConsumerPending → ℕ → Bool
is_pending c seq =
    if c.count == 0
    then false
    else if ltb seq c.min_seq || ltb c.max_seq seq
    then false
    else contains seq c.pending

-- The last of a list that starts with the number given.
pub last_of : ℕ → List ℕ → ℕ
last_of x [] = x
last_of x (y ∷ ys) = last_of y ys

-- The bounds after a purge: those of the set, or the empty range.
pub rebound : ConsumerPending → List ℕ → ConsumerPending
unfolding last_of
rebound c [] = record c {
  pending = [];
  count = 0;
  min_seq = u64_max;
  max_seq = 0;
  oldest_ts_ms = 0;
}
rebound c (x ∷ xs) = record c {
  pending = x ∷ xs;
  count = length (x ∷ xs) % u32_mod;
  min_seq = x;
  max_seq = last_of x xs;
}

pub purge_up_to : ConsumerPending → ℕ → ConsumerPending × ℕ
unfolding rebound
purge_up_to c new_cursor =
    let kept = split_off (min (new_cursor + 1) u64_max) c.pending in
    (rebound c kept, (length c.pending - length kept) % u32_mod)

pub drain_ascending : ConsumerPending → ℕ → List ℕ
drain_ascending c max = take max c.pending

pub expire_older_than : ConsumerPending → ℕ → ConsumerPending × ℕ
expire_older_than c cutoff_ms =
    if c.oldest_ts_ms == 0 || ltb cutoff_ms c.oldest_ts_ms then (c, 0) else (
      record c { pending = []; count = 0; min_seq = u64_max; max_seq = 0; oldest_ts_ms = 0 },
      length c.pending % u32_mod,
    )
