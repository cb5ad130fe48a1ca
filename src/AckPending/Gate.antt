-- ===== src/AckPending/Gate.antt =====
-- The bounds in front of the set, and the calls that change them.
use arbitro.Common.{
  All, All-insert, All-map, Ascending, Ascending-insert, Ascending-split_off, Bool, Bool-cases,
  List, [], ap, arith, contains, contains-insert, contains-split_off, false, inl, inr, insert,
  length, length-split_off-le, ltb, min, refl, split_off, suc, sym, true, ℕ, ◌&&◌, ◌+◌, ◌<◌, ◌==◌,
  ◌||◌, ◌∙◌, ◌∷◌, ◌≡◌, ◌≤◌, ◌⊎◌,
}
use arbitro.Common.Word.{u32_mod}
use arbitro.AckPending.{
  ConsumerPending, atomic_max, atomic_min, expire_older_than, is_pending, last_of, new_pending,
  purge_up_to, rebound, record_pending, u64_max,
}

-- The count is the size of the set, the set ascends, and its numbers lie within the bounds.
pub record IsGated (c : ConsumerPending) : Type 0 where
  pub counted : c.count ≡ length c.pending
  pub sorted : Ascending 0 c.pending
  pub bounded : All (λ q. (c.min_seq ≤ q) × (q ≤ c.max_seq)) c.pending

All-contains {ℓ} : (P : ℕ → Type ℓ) (q : ℕ) (xs : List ℕ) → All P xs → contains q xs ≡ true → P q
unfolding contains
All-contains P q [] h e = absurd (cc e)
All-contains P q (x ∷ xs) h e = ground (arith, All-contains P q xs h.1, h.0)

contains-length : (q : ℕ) (xs : List ℕ) → contains q xs ≡ true → 0 < length xs
unfolding contains
contains-length q [] e = absurd (cc e)
contains-length q (x ∷ xs) e = omega arith

-- The answer is that of the set.
is_pending-contains :
    (c : ConsumerPending) (seq : ℕ) → IsGated c → is_pending c seq ≡ contains seq c.pending
unfolding is_pending
is_pending-contains c seq g = elim (Bool-cases (contains seq c.pending)) [
  | inl e ↦ ground (
    arith,
    e,
    All-contains (λ q. (c.min_seq ≤ q) × (q ≤ c.max_seq)) seq c.pending g.bounded e,
    contains-length seq c.pending e,
    g.counted,
  )
  | inr e ↦ ground (arith, e)
]

length-insert_new :
    (a : ℕ) (xs : List ℕ) → contains a xs ≡ false → length (insert a xs) ≡ length xs + 1
unfolding insert contains
length-insert_new a [] e = omega arith
length-insert_new a (x ∷ xs) e = ground (arith, length-insert_new a xs)

new_pending-IsGated : (generation : ℕ) → IsGated (new_pending generation)
unfolding new_pending
new_pending-IsGated generation = record { counted = refl; sorted = tt; bounded = tt }

widened :
    (c : ConsumerPending) (seq q : ℕ)
    → (q ≡ seq) ⊎ ((c.min_seq ≤ q) × (q ≤ c.max_seq))
    → (atomic_min c.min_seq seq ≤ q) × (q ≤ atomic_max c.max_seq seq)
unfolding atomic_min atomic_max
widened c seq q h = ground (arith, h)

record_pending-IsGated :
    (c : ConsumerPending) (seq now_ms : ℕ)
    → c.count + 1 < u32_mod
    → IsGated c
    → IsGated (record_pending c seq now_ms).0
unfolding record_pending atomic_min atomic_max
record_pending-IsGated c seq now_ms room g = elim (Bool-cases (contains seq c.pending)) [
  | inl e ↦ rw (e) g
  | inr e ↦ rw (e) record {
    counted = omega (arith, g.counted, length-insert_new seq c.pending e);
    sorted = Ascending-insert 0 seq c.pending (omega arith) g.sorted;
    bounded =
        All-insert (λ q. (atomic_min c.min_seq seq ≤ q) × (q ≤ atomic_max c.max_seq seq)) seq
          c.pending (widened c seq seq (inl refl))
          (All-map (λ q. (c.min_seq ≤ q) × (q ≤ c.max_seq))
            (λ q. (atomic_min c.min_seq seq ≤ q) × (q ≤ atomic_max c.max_seq seq))
            (λ q h. widened c seq q (inr h)) c.pending g.bounded);
  }
]

-- The last number of an ascending list is the largest.
last_of-bound :
    (x : ℕ) (xs : List ℕ) → Ascending (suc x) xs → All (λ q. (x ≤ q) × (q ≤ last_of x xs)) (x ∷ xs)
unfolding last_of
last_of-bound x [] s = ((omega arith, omega arith), tt)
last_of-bound x (y ∷ xs) s =
    let rest = last_of-bound y xs s.1 in
    (
      (omega arith, omega (arith, rest.0)),
      (
        (omega (arith, s.0), rest.0.1),
        All-map (λ q. (y ≤ q) × (q ≤ last_of y xs)) (λ q. (x ≤ q) × (q ≤ last_of y xs))
            (λ q h. (omega (arith, h, s.0), h.1)) xs rest.1,
      ),
    )

rebound-IsGated :
    (c : ConsumerPending) (xs : List ℕ)
    → length xs < u32_mod
    → Ascending 0 xs
    → IsGated (rebound c xs)
unfolding rebound
rebound-IsGated c [] l s = record { counted = refl; sorted = tt; bounded = tt }
rebound-IsGated c (x ∷ xs) l s = record {
  counted = omega arith;
  sorted = s;
  bounded = last_of-bound x xs s.1;
}

expire_cases :
    (c : ConsumerPending) (cutoff_ms : ℕ)
    → (((c.oldest_ts_ms == 0 || ltb cutoff_ms c.oldest_ts_ms) ≡ true)
        × ((expire_older_than c cutoff_ms).0 ≡ c))
      ⊎ (((c.oldest_ts_ms == 0 || ltb cutoff_ms c.oldest_ts_ms) ≡ false)
          × ((expire_older_than c cutoff_ms).0 ≡ rebound c []))
unfolding expire_older_than rebound
expire_cases c cutoff_ms = elim (Bool-cases (c.oldest_ts_ms == 0 || ltb cutoff_ms c.oldest_ts_ms)) [
  | inl e ↦ inl (e, rw (e) refl)
  | inr e ↦ inr (e, rw (e) refl)
]

-- A call that changes the set.
pub data Relay : Type 0 where
  records : ℕ → ℕ → Relay
  purges : ℕ → Relay
  expires : ℕ → Relay

pub relay : ConsumerPending → Relay → ConsumerPending
relay c (records seq now_ms) = (record_pending c seq now_ms).0
relay c (purges cursor) = (purge_up_to c cursor).0
relay c (expires cutoff_ms) = (expire_older_than c cutoff_ms).0

-- Every call keeps the count equal to the size of the set, the set ascending and its numbers within
-- the bounds, while fewer than 2^32 - 1 numbers are pending.
pub relay-IsGated :
    (c : ConsumerPending) (r : Relay) → c.count + 1 < u32_mod → IsGated c → IsGated (relay c r)
unfolding relay purge_up_to
relay-IsGated c (records seq now_ms) room g = record_pending-IsGated c seq now_ms room g
relay-IsGated c (purges cursor) room g =
    rebound-IsGated c (split_off (min (cursor + 1) u64_max) c.pending)
      (omega (arith, length-split_off-le (min (cursor + 1) u64_max) c.pending, g.counted))
      (Ascending-split_off 0 (min (cursor + 1) u64_max) c.pending g.sorted)
relay-IsGated c (expires cutoff_ms) room g = elim (expire_cases c cutoff_ms) [
  | inl (e, same) ↦ rw (same) g
  | inr (e, empty) ↦ rw (empty) (rebound-IsGated c [] (omega arith) tt)
]

-- What a call makes of the answer for `q`.
pub pending_after : ConsumerPending → ℕ → Relay → Bool
pending_after c q (records seq now_ms) = q == seq || is_pending c q
pending_after c q (purges cursor) = ltb cursor q && is_pending c q
pending_after c q (expires cutoff_ms) =
    (c.oldest_ts_ms == 0 || ltb cutoff_ms c.oldest_ts_ms) && is_pending c q

-- A cursor leaves room for the number after it.
abbrev pub CursorFits : Relay → Type 0
CursorFits (purges cursor) = cursor < u64_max
CursorFits (records seq now_ms) = Unit {0}
CursorFits (expires cutoff_ms) = Unit {0}

rebound-pending : (c : ConsumerPending) (xs : List ℕ) → (rebound c xs).pending ≡ xs
unfolding rebound
rebound-pending c [] = refl
rebound-pending c (x ∷ xs) = refl

contains-relay :
    (c : ConsumerPending) (r : Relay) (q : ℕ)
    → CursorFits r
    → IsGated c
    → contains q (relay c r).pending ≡ pending_after c q r
unfolding relay purge_up_to record_pending pending_after contains
contains-relay c (records seq now_ms) q h g =
    ground (arith, is_pending-contains c q g, contains-insert seq q c.pending)
contains-relay c (purges cursor) q h g =
    ap (contains q) (rebound-pending c (split_off (min (cursor + 1) u64_max) c.pending))
    ∙ contains-split_off (min (cursor + 1) u64_max) q c.pending
    ∙ ground (arith, is_pending-contains c q g)
contains-relay c (expires cutoff_ms) q h g = elim (expire_cases c cutoff_ms) [
  | inl (e, same) ↦
      ap (λ d. contains q d.pending) same ∙ sym (is_pending-contains c q g) ∙ ground (arith, e)
  | inr (e, empty) ↦
      ap (λ d. contains q d.pending) empty
      ∙ ap (contains q) (rebound-pending c [])
      ∙ ground (arith, e)
]

-- While fewer than 2^32 - 1 numbers are pending, a call changes the answers exactly as meant:
-- `record` makes its number pending, `purge_up_to` clears what is at or below the cursor and
-- `expire_older_than` clears all, if the oldest time is set and not after the cutoff. No other
-- answer changes, though each is given by the bounds before the set is asked.
pub is_pending-relay :
    (c : ConsumerPending) (r : Relay) (q : ℕ)
    → CursorFits r
    → c.count + 1 < u32_mod
    → IsGated c
    → is_pending (relay c r) q ≡ pending_after c q r
is_pending-relay c r q h room g =
    is_pending-contains (relay c r) q (relay-IsGated c r room g) ∙ contains-relay c r q h g
