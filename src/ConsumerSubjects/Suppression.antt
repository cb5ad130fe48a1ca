-- ===== src/ConsumerSubjects/Suppression.antt =====
-- Which sequence numbers a consumer must not be sent again.
use native.Mathlib.Decide.{ℕ_discrete}
use arbitro.Common.{
  Ascending, Ascending-insert, Ascending-mono, Ascending-remove, Bool, Bool-cases, List, [], ap,
  arith, contains, contains-insert, contains-remove, contains-split_off, contains_lower, false, inl,
  inr, insert_self, leb, length, length-insert-le, length-remove-le, length-split_off-le, not,
  split_off-Ascending, suc, true, ℕ, ◌&&◌, ◌+◌, ◌-◌, ◌<◌, ◌==◌, ◌||◌, ◌∷◌, ◌≡◌, ◌≢◌, ◌≤◌, ◌⊎◌,
}
use arbitro.Common.Word.{u64_mod}
use arbitro.ConsumerSubjects.{
  ConsumerSubjects, is_suppressed, pop_first, raise_ack_floor, release, suppress, suppress_cap,
}

-- The set ascends strictly beyond the floor, and is bounded.
pub record IsPruned (s : ConsumerSubjects) : Type 0 where
  pub beyond_floor : Ascending (s.ack_floor + 1) s.suppressed
  pub bounded : length s.suppressed ≤ suppress_cap

-- A call that changes what is suppressed.
pub data Mark : Type 0 where
  raises : ℕ → Mark
  suppresses : ℕ → Mark
  releases : ℕ → Mark

pub mark_step : ConsumerSubjects → Mark → ConsumerSubjects
mark_step s (raises floor) = raise_ack_floor s floor
mark_step s (suppresses seq) = suppress s seq
mark_step s (releases seq) = release s seq

-- A floor leaves room for the number after it.
abbrev pub InRange : Mark → Type 0
InRange (raises floor) = floor + 1 < u64_mod
InRange (suppresses seq) = Unit {0}
InRange (releases seq) = Unit {0}

-- What a call makes of the answer for `q`, while the set has room.
pub mark_after : ConsumerSubjects → ℕ → Mark → Bool
mark_after s q (raises floor) = leb q floor || is_suppressed s q
mark_after s q (suppresses seq) = q == seq || is_suppressed s q
mark_after s q (releases seq) = leb q s.ack_floor || (not (q == seq) && is_suppressed s q)

pop_first-Ascending : (n : ℕ) (xs : List ℕ) → Ascending n xs → Ascending n (pop_first xs)
unfolding pop_first
pop_first-Ascending n [] a = tt
pop_first-Ascending n (x ∷ xs) a = Ascending-mono xs (omega arith) a.1

length-pop_first : (xs : List ℕ) → length (pop_first xs) ≡ length xs - 1
unfolding pop_first
length-pop_first [] = omega arith
length-pop_first (x ∷ xs) = omega arith

-- Every call keeps the set ascending beyond the floor and within 4096 numbers.
pub mark_step-IsPruned :
    (s : ConsumerSubjects) (m : Mark) → InRange m → IsPruned s → IsPruned (mark_step s m)
unfolding mark_step raise_ack_floor suppress release
mark_step-IsPruned s (raises floor) h v = ground (
  arith,
  split_off-Ascending (s.ack_floor + 1) (floor + 1) s.suppressed v.beyond_floor,
  length-split_off-le (floor + 1) s.suppressed,
)
mark_step-IsPruned s (suppresses seq) h v = ground (
  arith,
  Ascending-insert (s.ack_floor + 1) seq s.suppressed,
  Ascending-insert (s.ack_floor + 1) seq (pop_first s.suppressed),
  pop_first-Ascending (s.ack_floor + 1) s.suppressed v.beyond_floor,
  length-insert-le seq s.suppressed,
  length-insert-le seq (pop_first s.suppressed),
  length-pop_first s.suppressed,
)
mark_step-IsPruned s (releases seq) h v =
    ground (
      arith,
      Ascending-remove (s.ack_floor + 1) seq s.suppressed,
      length-remove-le seq s.suppressed,
    )

-- With room in the set, each call changes exactly the answers it is meant to: `raise` suppresses
-- what is at or below the floor given, `suppress` the number given, and `release` frees the number
-- given unless the floor covers it. No other answer changes.
pub is_suppressed-mark_step :
    (s : ConsumerSubjects) (m : Mark) (q : ℕ)
    → InRange m
    → length s.suppressed < suppress_cap
    → is_suppressed (mark_step s m) q ≡ mark_after s q m
unfolding mark_step mark_after is_suppressed raise_ack_floor suppress release
is_suppressed-mark_step s (raises floor) q h room =
    ground (arith, contains-split_off (floor + 1) q s.suppressed)
is_suppressed-mark_step s (suppresses seq) q h room =
    ground (arith, contains-insert seq q s.suppressed)
is_suppressed-mark_step s (releases seq) q h room =
    ground (arith, contains-remove seq q s.suppressed)

contains-pop_first : (q : ℕ) (xs : List ℕ) → contains q (pop_first xs) ≡ true → contains q xs ≡ true
unfolding contains pop_first
contains-pop_first q [] h = h
contains-pop_first q (x ∷ xs) h = ground arith

-- Only the lowest number is lost.
pop_first_lost :
    (n q x : ℕ) (xs : List ℕ)
    → Ascending n xs
    → contains q xs ≡ true
    → contains q (pop_first xs) ≡ false
    → contains x xs ≡ true
    → q ≤ x
unfolding contains pop_first
pop_first_lost n q x [] a h g m = absurd (cc h)
pop_first_lost n q x (y ∷ ys) a h g m = ground (arith, contains_lower (suc y) x ys a.1)

suppress_self : (s : ConsumerSubjects) (seq : ℕ) → is_suppressed (suppress s seq) seq ≡ true
unfolding is_suppressed suppress
suppress_self s seq =
    ground (arith, insert_self seq s.suppressed, insert_self seq (pop_first s.suppressed))

suppress_only :
    (s : ConsumerSubjects) (seq q : ℕ)
    → is_suppressed (suppress s seq) q ≡ true
    → q ≢ seq
    → is_suppressed s q ≡ true
unfolding is_suppressed suppress
suppress_only s seq q h ne = ground (
  arith,
  contains-insert seq q s.suppressed,
  contains-insert seq q (pop_first s.suppressed),
  contains-pop_first q s.suppressed,
)

suppress_lost :
    (s : ConsumerSubjects) (seq q x : ℕ)
    → IsPruned s
    → is_suppressed s q ≡ true
    → is_suppressed (suppress s seq) q ≡ false
    → contains x s.suppressed ≡ true
    → q ≤ x
unfolding is_suppressed suppress
suppress_lost s seq q x v h g m = ground (
  arith,
  contains-insert seq q s.suppressed,
  contains-insert seq q (pop_first s.suppressed),
  pop_first_lost (s.ack_floor + 1) q x s.suppressed v.beyond_floor,
)

-- Of a consumer whose set ascends beyond its floor and is bounded by 4096, `suppress` suppresses its
-- number. What it makes of another answer is what it is meant to, no change, except that a full set
-- forgets a number, which lies at or below every number of the set.
pub suppress_conservative :
    (s : ConsumerSubjects) (seq q : ℕ)
    → IsPruned s
    → (is_suppressed (suppress s seq) seq ≡ true)
      × ((is_suppressed (suppress s seq) q ≡ (q == seq || is_suppressed s q))
          ⊎ ((length s.suppressed ≡ suppress_cap)
              × ((x : ℕ) → contains x s.suppressed ≡ true → q ≤ x)
              × (is_suppressed (suppress s seq) q ≡ false)))
unfolding suppress mark_step mark_after
suppress_conservative s seq q v = (
  suppress_self s seq,
  elim (Bool-cases (leb suppress_cap (length s.suppressed))) [
    | inl full ↦ cases full
    | inr room ↦ inl (is_suppressed-mark_step s (suppresses seq) q tt (ground (arith, room)))
  ],
)
  where
    now : Bool
    now = is_suppressed (suppress s seq) q

    Cases : Type 0
    Cases =
        (now ≡ (q == seq || is_suppressed s q))
        ⊎ ((length s.suppressed ≡ suppress_cap)
            × ((x : ℕ) → contains x s.suppressed ≡ true → q ≤ x)
            × (now ≡ false))

    cases : leb suppress_cap (length s.suppressed) ≡ true → Cases
    cases full = elim (Bool-cases now) [
      | inl e ↦ elim (ℕ_discrete q seq) [
        | yes p ↦ inl ground (arith, e, p)
        | no p ↦ inl ground (arith, suppress_only s seq q e p)
      ]
      | inr e ↦ elim (Bool-cases (is_suppressed s q)) [
        | inl f ↦ inr (ground (arith, full, v.bounded), (λ x m. suppress_lost s seq q x v f e m), e)
        | inr f ↦ elim (ℕ_discrete q seq) [
          | yes p ↦
              inl ground (arith, suppress_self s seq, ap (λ n. is_suppressed (suppress s seq) n) p)
          | no p ↦ inl ground (arith, e, f, p)
        ]
      ]
    ]
