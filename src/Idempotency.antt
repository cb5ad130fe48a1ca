-- ===== src/Idempotency.antt =====
-- crates/arbitro-server/src/shard/idempotency.rs: the dedup of message identifiers within a window.
-- The map from stream and hash to the identifiers is a function; `none` is a missing key.
pub mod Clock
pub mod Phantom
pub mod Retention
pub mod Schedule
pub mod Window
mod Tests
use arbitro.Common.Word.{add_u64}
use arbitro.Common.{
  Bool, List, Option, [], false, if◌then◌else◌, leb, min, none, some, suc, true, zero, ℕ, ◌&&◌,
  ◌++◌, ◌+◌, ◌-◌, ◌/◌, ◌==◌, ◌||◌, ◌∷◌,
}
use arbitro.Subject.{Bytes, bytes_eq}
use arbitro.Wheel.{TimingWheel, advance, insert_entry, new}

abbrev pub tick_ms : ℕ
tick_ms = 1000

abbrev pub max_window_ms : ℕ
max_window_ms = 300000

abbrev pub wheel_buckets : ℕ
wheel_buckets = 300

pub record IdempotencyEntry : Type 0 where
  pub stream_id : ℕ
  pub msg_id_hash : ℕ

abbrev pub Seen : Type 0
Seen = ℕ → ℕ → Option (List Bytes)

pub record IdempotencyTracker : Type 0 where
  pub seen : Seen
  pub wheel : TimingWheel IdempotencyEntry
  pub pending_ms : ℕ

pub update : Seen → ℕ → ℕ → Option (List Bytes) → Seen
update seen stream hash ids s h = if s == stream && h == hash then ids else seen s h

fresh_wheel : Option (TimingWheel IdempotencyEntry) → TimingWheel IdempotencyEntry
fresh_wheel none = record { buckets = []; current = 0; num_buckets = 0; len = 0 }
fresh_wheel (some w) = w

pub new_tracker : IdempotencyTracker
unfolding fresh_wheel
new_tracker = record { seen = λ s h. none; wheel = fresh_wheel (new wheel_buckets); pending_ms = 0 }

any_eq : Bytes → List Bytes → Bool
any_eq msg_id [] = false
any_eq msg_id (id ∷ ids) = bytes_eq id msg_id || any_eq msg_id ids

contains_in : Bytes → Option (List Bytes) → Bool
contains_in msg_id none = false
contains_in msg_id (some ids) = any_eq msg_id ids

pub contains_id : IdempotencyTracker → ℕ → ℕ → Bytes → Bool
unfolding contains_in any_eq
contains_id t stream hash msg_id = contains_in msg_id (t.seen stream hash)

-- `min(MAX_WINDOW_MS)`, then `div_ceil(TICK_MS)`.
pub window_ticks : ℕ → ℕ
window_ticks window_ms = (min window_ms max_window_ms + (tick_ms - 1)) / tick_ms

with_id : Option (List Bytes) → Bytes → List Bytes
with_id none msg_id = msg_id ∷ []
with_id (some ids) msg_id = ids ++ msg_id ∷ []

pub record_id : IdempotencyTracker → ℕ → ℕ → Bytes → ℕ → IdempotencyTracker × Bool
unfolding contains_in any_eq with_id update
record_id t stream hash msg_id window_ms =
    if contains_in msg_id (t.seen stream hash) then (t, false) else (
      record t {
        seen = update t.seen stream hash (some (with_id (t.seen stream hash) msg_id));
        wheel =
            insert_entry t.wheel (record { stream_id = stream; msg_id_hash = hash })
              (window_ticks window_ms);
      },
      true,
    )

-- `retain(|id| id != msg_id)`
without : Bytes → List Bytes → List Bytes
without msg_id [] = []
without msg_id (id ∷ ids) =
    let rest = without msg_id ids in if bytes_eq id msg_id then rest else id ∷ rest

-- An emptied slot is removed from the map.
pub kept : List Bytes → Option (List Bytes)
kept [] = none
kept (id ∷ ids) = some (id ∷ ids)

forget_in : Bytes → Option (List Bytes) → Option (List Bytes)
forget_in msg_id none = none
forget_in msg_id (some ids) = kept (without msg_id ids)

pub forget : IdempotencyTracker → ℕ → ℕ → Bytes → IdempotencyTracker
unfolding update forget_in without kept
forget t stream hash msg_id = record t {
  seen = update t.seen stream hash (forget_in msg_id (t.seen stream hash));
}

-- `ids.remove(0)`, and the removal of an emptied slot.
pub pop_id : Option (List Bytes) → Option (List Bytes)
pop_id none = none
pop_id (some []) = none
pop_id (some (id ∷ ids)) = kept ids

-- The loop over the drained entries.
pub expire : List IdempotencyEntry → Seen → Seen
expire [] seen = seen
expire (e ∷ es) seen =
    expire es (update seen e.stream_id e.msg_id_hash (pop_id (seen e.stream_id e.msg_id_hash)))

pub tick : IdempotencyTracker → IdempotencyTracker
unfolding expire pop_id kept update
tick t =
    let (wheel, drained) = advance t.wheel in
    record t { wheel = wheel; seen = expire drained t.seen }

-- The `while` loop of `advance_by_ms`, on fuel; `none` means that the fuel ran out.
tick_loop : ℕ → IdempotencyTracker → Option IdempotencyTracker
tick_loop zero t = none
tick_loop (suc fuel) t =
    let rest = tick_loop fuel (tick (record t { pending_ms = t.pending_ms - tick_ms })) in
    if leb tick_ms t.pending_ms then rest else some t

-- The fuel is one above the number of full seconds.
pub advance_by_ms : IdempotencyTracker → ℕ → Option IdempotencyTracker
unfolding tick_loop
advance_by_ms t elapsed_ms =
    let pending = add_u64 t.pending_ms elapsed_ms in
    tick_loop (pending / tick_ms + 1) (record t { pending_ms = pending })
