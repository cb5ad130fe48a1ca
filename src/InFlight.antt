-- ===== src/InFlight.antt =====
-- crates/arbitro-engine/src/inflight/mod.rs: how much is in flight for each consumer and each queue,
-- in two vectors that grow on demand.
pub mod Laws
mod Tests
use arbitro.Common.{
  Bool, List, [], get_or, if◌then◌else◌, leb, length, ltb, replicate, set, ℕ, ◌++◌, ◌+◌, ◌-◌,
}
use arbitro.Common.Word.{add_u32}

pub data InFlightScope : Type 0 where
  consumer_scope queue_scope : InFlightScope

pub record InFlightCounters : Type 0 where
  pub consumer : List ℕ
  pub queue : List ℕ

abbrev pub new : InFlightCounters
new = record { consumer = []; queue = [] }

-- `vec.resize(idx + 16, 0)`, where the index is out of range.
ensure_len : List ℕ → ℕ → List ℕ
ensure_len vec idx =
    if leb (length vec) idx then vec ++ replicate (idx + 16 - length vec) 0 else vec

-- `vec[i] += 1` on a `u32`, after `ensure_len`.
inc_vec : List ℕ → ℕ → List ℕ
unfolding ensure_len
inc_vec vec i = let grown = ensure_len vec i in set grown i (add_u32 (get_or grown i 0) 1)

-- `saturating_sub(1)` where the index is in range.
dec_vec : List ℕ → ℕ → List ℕ
dec_vec vec i = set vec i (get_or vec i 0 - 1)

reset_vec : List ℕ → ℕ → List ℕ
reset_vec vec i = set vec i 0

on_scope : InFlightScope → (List ℕ → List ℕ) → InFlightCounters → InFlightCounters
on_scope consumer_scope f c = record c { consumer = f c.consumer }
on_scope queue_scope f c = record c { queue = f c.queue }

vec_of : InFlightScope → InFlightCounters → List ℕ
vec_of consumer_scope c = c.consumer
vec_of queue_scope c = c.queue

pub inc : InFlightCounters → InFlightScope → ℕ → InFlightCounters
unfolding on_scope
inc c scope key = on_scope scope (λ vec. inc_vec vec key) c

pub dec : InFlightCounters → InFlightScope → ℕ → InFlightCounters
unfolding on_scope
dec c scope key = on_scope scope (λ vec. dec_vec vec key) c

pub reset : InFlightCounters → InFlightScope → ℕ → InFlightCounters
unfolding on_scope
reset c scope key = on_scope scope (λ vec. reset_vec vec key) c

pub get : InFlightCounters → InFlightScope → ℕ → ℕ
unfolding vec_of
get c scope key = get_or (vec_of scope c) key 0

pub has_capacity : InFlightCounters → InFlightScope → ℕ → ℕ → Bool
has_capacity c scope key limit = ltb (get c scope key) limit

pub dec_pending : InFlightCounters → ℕ → ℕ → InFlightCounters
dec_pending c consumer_id queue_id = record {
  consumer = dec_vec c.consumer consumer_id;
  queue = dec_vec c.queue queue_id;
}

pub inc_pending : InFlightCounters → ℕ → ℕ → InFlightCounters
inc_pending c consumer_id queue_id = record {
  consumer = inc_vec c.consumer consumer_id;
  queue = inc_vec c.queue queue_id;
}
