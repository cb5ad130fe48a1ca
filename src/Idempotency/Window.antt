-- ===== src/Idempotency/Window.antt =====
-- How long an identifier is remembered, while no other identifier of its stream has its hash.
use native.Mathlib.Decide.{ℕ_discrete}
use arbitro.Common.{
  ==_refl, Bool, List, Option, [], ap, arith, if◌then◌else◌, none, refl, some, suc, zero, ℕ, ◌&&◌,
  ◌++◌, ◌+◌, ◌-◌, ◌<◌, ◌==◌, ◌∙◌, ◌∷◌, ◌≡◌, ◌≤◌,
}
use arbitro.Subject.{Bytes}
use arbitro.Wheel.{advance}
use arbitro.Wheel.Due.{IsValid, advance-IsValid, due, due-advance}
use arbitro.Wheel.Firing.{num_buckets-advance}
use arbitro.Idempotency.{
  IdempotencyEntry, IdempotencyTracker, Seen, expire, kept, pop_id, tick, update, wheel_buckets,
}

unfoldable pub is_key : ℕ → ℕ → IdempotencyEntry → Bool
is_key stream hash e = stream == e.stream_id && hash == e.msg_id_hash

unfoldable pub count_key : ℕ → ℕ → List IdempotencyEntry → ℕ
count_key s h [] = 0
count_key s h (e ∷ es) = let rest = count_key s h es in if is_key s h e then suc rest else rest

unfoldable pub pops : ℕ → Option (List Bytes) → Option (List Bytes)
pops zero o = o
pops (suc n) o = pops n (pop_id o)

expire_one :
    (e : IdempotencyEntry) (seen : Seen) (s h n : ℕ)
    → pops n (update seen e.stream_id e.msg_id_hash (pop_id (seen e.stream_id e.msg_id_hash)) s h)
      ≡ pops (if is_key s h e then suc n else n) (seen s h)
unfolding pops update is_key
expire_one e seen s h n = elim (ℕ_discrete s e.stream_id) [
  | yes p ↦ elim (ℕ_discrete h e.msg_id_hash) [
    | yes q ↦ rw (p, q, ==_refl e.stream_id, ==_refl e.msg_id_hash) refl
    | no q ↦ ground arith
  ]
  | no p ↦ ground arith
]

-- A drained bucket pops a slot as often as it holds the slot's key.
pub expire-pops :
    (es : List IdempotencyEntry) (seen : Seen) (s h : ℕ)
    → expire es seen s h ≡ pops (count_key s h es) (seen s h)
unfolding expire count_key
expire-pops [] seen s h = unfold pops in refl
expire-pops (e ∷ es) seen s h =
    expire-pops es (update seen e.stream_id e.msg_id_hash (pop_id (seen e.stream_id e.msg_id_hash)))
      s h
    ∙ expire_one e seen s h (count_key s h es)

pub count_key-append :
    (s h : ℕ) (xs ys : List IdempotencyEntry)
    → count_key s h (xs ++ ys) ≡ count_key s h xs + count_key s h ys
unfolding count_key
count_key-append s h [] ys = omega arith
count_key-append s h (x ∷ xs) ys = ground (arith, count_key-append s h xs ys)

-- The identifier is alone in its slot, and its one entry comes out of the wheel in `d` ticks; with
-- 0 for `d` the slot is empty and the wheel has no entry of it.
pub record Remembers (t : IdempotencyTracker) (s h : ℕ) (id : Bytes) (d : ℕ) : Type 0 where
  pub valid : IsValid t.wheel
  pub size : t.wheel.num_buckets ≡ wheel_buckets
  pub near : d ≤ wheel_buckets
  pub slot : t.seen s h ≡ (if d == 0 then none else some (id ∷ []))
  pub scheduled :
      (k : ℕ)
      → 0 < k
      → k ≤ wheel_buckets
      → count_key s h (due t.wheel k) ≡ (if k == d then 1 else 0)

drained_count :
    (t : IdempotencyTracker) (s h : ℕ) (id : Bytes) (d : ℕ)
    → Remembers t s h id d
    → count_key s h (advance t.wheel).1 ≡ (if 1 == d then 1 else 0)
drained_count t s h id d r =
    ap (count_key s h) (due-advance t.wheel 1 r.valid (omega arith) (omega (arith, r.size))).0
    ∙ r.scheduled 1 (omega arith) (omega arith)

popped :
    (o : Option (List Bytes)) (id : Bytes) (d : ℕ)
    → o ≡ (if d == 0 then none else some (id ∷ []))
    → pops (if 1 == d then 1 else 0) o ≡ (if d - 1 == 0 then none else some (id ∷ []))
unfolding pops pop_id kept
popped o id d e = ground arith

rescheduled :
    (t : IdempotencyTracker) (s h : ℕ) (id : Bytes) (d k : ℕ)
    → Remembers t s h id d
    → 0 < k
    → k ≤ wheel_buckets
    → count_key s h (due (advance t.wheel).0 k) ≡ (if k == d - 1 then 1 else 0)
unfolding count_key
rescheduled t s h id d k r p l =
    ap (count_key s h) (due-advance t.wheel k r.valid p (omega (arith, r.size))).1
    ∙ ground (arith, r.scheduled (k + 1) (omega arith), r.size, r.near)

pub tick-Remembers :
    (t : IdempotencyTracker) (s h : ℕ) (id : Bytes) (d : ℕ)
    → Remembers t s h id d
    → Remembers (tick t) s h id (d - 1)
unfolding tick
tick-Remembers t s h id d r = record {
  valid = advance-IsValid t.wheel r.valid;
  size = num_buckets-advance t.wheel ∙ r.size;
  near = omega (arith, r.near);
  slot =
      expire-pops (advance t.wheel).1 t.seen s h
      ∙ ap (λ n. pops n (t.seen s h)) (drained_count t s h id d r)
      ∙ popped (t.seen s h) id d r.slot;
  scheduled = λ k p l. rescheduled t s h id d k r p l;
}
