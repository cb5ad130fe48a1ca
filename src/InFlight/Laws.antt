-- ===== src/InFlight/Laws.antt =====
-- What each call does to the counter of every scope and key.
use native.Mathlib.Decide.{ℕ_discrete, dec_lt}
use arbitro.Common.{
  Bool, List, arith, false, get_or, get_or-pad, get_or-set_ne, get_or-set_self, get_or_above,
  if◌then◌else◌, length, length-pad, length-set, ltb, refl, set, true, ℕ, ◌&&◌, ◌+◌, ◌-◌, ◌<◌, ◌==◌,
  ◌≡◌,
}
use arbitro.Common.Word.{add_u32, u32_mod}
use arbitro.InFlight.{
  InFlightCounters, InFlightScope, consumer_scope, dec, dec_pending, dec_vec, ensure_len, get, inc,
  inc_pending, inc_vec, queue_scope, reset, reset_vec,
}

get_or-ensure_len : (vec : List ℕ) (i j : ℕ) → get_or (ensure_len vec i) j 0 ≡ get_or vec j 0
unfolding ensure_len
get_or-ensure_len vec i j = ground (arith, get_or-pad vec (i + 16 - length vec) j 0)

lt-length-ensure_len : (vec : List ℕ) (i : ℕ) → i < length (ensure_len vec i)
unfolding ensure_len
lt-length-ensure_len vec i = ground (arith, length-pad vec (i + 16 - length vec) 0)

get_or-inc_vec :
    (vec : List ℕ) (i j : ℕ)
    → get_or (inc_vec vec i) j 0 ≡ (if j == i then add_u32 (get_or vec j 0) 1 else get_or vec j 0)
unfolding inc_vec
get_or-inc_vec vec i j =
    let grown = ensure_len vec i in
    let v = add_u32 (get_or grown i 0) 1 in
    elim (ℕ_discrete i j) [
      | yes e ↦ ground (
        arith,
        get_or-set_self grown i v 0 (lt-length-ensure_len vec i),
        get_or-ensure_len vec i i,
      )
      | no ne ↦ ground (arith, get_or-set_ne grown i j v 0 ne, get_or-ensure_len vec i j)
    ]

-- A write at an index in range, or no write.
get_or-set :
    (vec : List ℕ) (i j v : ℕ)
    → get_or (set vec i v) j 0
      ≡ (if j == i then (if ltb i (length vec) then v else 0) else get_or vec j 0)
get_or-set vec i j v = elim (ℕ_discrete i j) [
  | yes e ↦ elim (dec_lt i (length vec)) [
    | yes l ↦ ground (arith, get_or-set_self vec i v 0 l)
    | no l ↦ ground (arith, get_or_above (set vec i v) i 0, length-set vec i v)
  ]
  | no ne ↦ ground (arith, get_or-set_ne vec i j v 0 ne)
]

get_or-dec_vec :
    (vec : List ℕ) (i j : ℕ)
    → get_or (dec_vec vec i) j 0 ≡ (if j == i then get_or vec j 0 - 1 else get_or vec j 0)
unfolding dec_vec
get_or-dec_vec vec i j =
    ground (arith, get_or-set vec i j (get_or vec i 0 - 1), get_or_above vec i 0)

get_or-reset_vec :
    (vec : List ℕ) (i j : ℕ) → get_or (reset_vec vec i) j 0 ≡ (if j == i then 0 else get_or vec j 0)
unfolding reset_vec
get_or-reset_vec vec i j = ground (arith, get_or-set vec i j 0)

-- A call that changes the counters.
pub data Call : Type 0 where
  inc_call dec_call reset_call : InFlightScope → ℕ → Call
  inc_pending_call dec_pending_call : ℕ → ℕ → Call

pub perform : InFlightCounters → Call → InFlightCounters
perform c (inc_call scope key) = inc c scope key
perform c (dec_call scope key) = dec c scope key
perform c (reset_call scope key) = reset c scope key
perform c (inc_pending_call consumer queue) = inc_pending c consumer queue
perform c (dec_pending_call consumer queue) = dec_pending c consumer queue

pub same_scope : InFlightScope → InFlightScope → Bool
same_scope consumer_scope consumer_scope = true
same_scope queue_scope queue_scope = true
same_scope a b = false

-- The key that a paired call counts in a scope.
pub key_in : InFlightScope → ℕ → ℕ → ℕ
key_in consumer_scope consumer queue = consumer
key_in queue_scope consumer queue = queue

-- What a call means for the counter of a scope and key, from its value before.
pub effect : InFlightScope → ℕ → Call → ℕ → ℕ
effect s k (inc_call scope key) n = if same_scope s scope && k == key then add_u32 n 1 else n
effect s k (dec_call scope key) n = if same_scope s scope && k == key then n - 1 else n
effect s k (reset_call scope key) n = if same_scope s scope && k == key then 0 else n
effect s k (inc_pending_call consumer queue) n =
    if k == key_in s consumer queue then add_u32 n 1 else n
effect s k (dec_pending_call consumer queue) n = if k == key_in s consumer queue then n - 1 else n

-- Each call changes the counter that it names by one, in 32 bits upwards and stopping at 0
-- downwards, or to 0; the paired calls do so in both scopes. No other counter of either scope
-- changes, however the vectors grow.
pub get-perform :
    (c : InFlightCounters) (call : Call) (s : InFlightScope) (k : ℕ)
    → get (perform c call) s k ≡ effect s k call (get c s k)
unfolding get perform inc dec reset inc_pending dec_pending effect same_scope key_in
get-perform c (inc_call consumer_scope key) consumer_scope k = get_or-inc_vec c.consumer key k
get-perform c (inc_call consumer_scope key) queue_scope k = refl
get-perform c (inc_call queue_scope key) consumer_scope k = refl
get-perform c (inc_call queue_scope key) queue_scope k = get_or-inc_vec c.queue key k
get-perform c (dec_call consumer_scope key) consumer_scope k = get_or-dec_vec c.consumer key k
get-perform c (dec_call consumer_scope key) queue_scope k = refl
get-perform c (dec_call queue_scope key) consumer_scope k = refl
get-perform c (dec_call queue_scope key) queue_scope k = get_or-dec_vec c.queue key k
get-perform c (reset_call consumer_scope key) consumer_scope k = get_or-reset_vec c.consumer key k
get-perform c (reset_call consumer_scope key) queue_scope k = refl
get-perform c (reset_call queue_scope key) consumer_scope k = refl
get-perform c (reset_call queue_scope key) queue_scope k = get_or-reset_vec c.queue key k
get-perform c (inc_pending_call consumer queue) consumer_scope k =
    get_or-inc_vec c.consumer consumer k
get-perform c (inc_pending_call consumer queue) queue_scope k = get_or-inc_vec c.queue queue k
get-perform c (dec_pending_call consumer queue) consumer_scope k =
    get_or-dec_vec c.consumer consumer k
get-perform c (dec_pending_call consumer queue) queue_scope k = get_or-dec_vec c.queue queue k

-- A release after a claim of the same consumer and queue restores every counter, where the claim
-- does not overflow.
pub dec_pending-inc_pending :
    (c : InFlightCounters) (consumer queue : ℕ) (s : InFlightScope) (k : ℕ)
    → get c s k + 1 < u32_mod
    → get (dec_pending (inc_pending c consumer queue) consumer queue) s k ≡ get c s k
unfolding effect perform
dec_pending-inc_pending c consumer queue s k h = ground (
  arith,
  get-perform (inc_pending c consumer queue) (dec_pending_call consumer queue) s k,
  get-perform c (inc_pending_call consumer queue) s k,
)
