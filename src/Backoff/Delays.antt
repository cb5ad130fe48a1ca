-- ===== src/Backoff/Delays.antt =====
-- crates/arbitro-client-tokio/src/conn/reconnect.rs: how long a client waits, and when it gives up.
use Prim.Native.Nat.{max}
use arbitro.Common.{
  Bool-cases, List, Option, ap, arith, false, inl, inr, leb, length, min, none, refl, some, suc,
  true, zero, ℕ, ◌%◌, ◌*◌, ◌+◌, ◌<◌, ◌∙◌, ◌≡◌, ◌≤◌,
}
use arbitro.Common.Word.{add_u32, u32_mod, u64_mod}
use arbitro.Backoff.{
  Backoff, ReconnectPolicy, Turn, after_delay, is_exhausted, nanos, new_backoff, next, panicked,
  turned, upper, waits,
}

-- What the generator promises: a number of the range, if there is one.
abbrev pub Picks : (ℕ → ℕ → ℕ) → Type 0
Picks pick = (lo hi : ℕ) → lo < hi → (lo ≤ pick lo hi) × (pick lo hi < hi)

-- The durations of a policy, in 64 bits.
abbrev pub Sane : Backoff → Type 0
Sane b = (b.base + 1 < u64_mod) × (b.cap < u64_mod) × (b.prev < u64_mod)

-- The answers of `next`, which is no panic: no wait is given where the attempts are used up, and nothing changes then. A
-- wait is at most the cap, at least the base or the cap where that is smaller, and below three times
-- the wait before or the base plus one, whichever is more.
abbrev pub Waits : Backoff → Turn → Type 0
Waits b panicked = ⊥
Waits b (turned after none) = (after ≡ b) × (is_exhausted b.max b.attempts ≡ true)
Waits b (turned after (some d)) =
    (is_exhausted b.max b.attempts ≡ false)
    × (d ≤ b.cap)
    × (min b.base b.cap ≤ d)
    × (d < max (b.prev * 3) (b.base + 1))
    × (after.prev ≡ d)
    × (after.attempts ≡ add_u32 b.attempts 1)
    × Sane after

small : (n m : ℕ) → n < m → n % m ≡ n
small n m h = grind arith

upper_bound :
    (b : Backoff) → Sane b → (nanos b.base < upper b) × (upper b ≤ max (b.prev * 3) (b.base + 1))
unfolding upper
upper_bound b sane =
    rw
      (
        small b.prev u64_mod sane.2,
        small b.base u64_mod (omega (arith, sane.0)),
        small (b.base + 1) u64_mod sane.0,
      )
      (omega arith, omega arith)

no_limit : (m : ℕ) → none ≡ some m → ⊥
no_limit m h = ground (arith, h)

exhausted_at :
    (max_attempts : Option ℕ) (m n : ℕ)
    → max_attempts ≡ some m
    → m ≤ n
    → is_exhausted max_attempts n ≡ true
unfolding is_exhausted
exhausted_at none m n e h = absurd (no_limit m e)
exhausted_at (some k) m n e h = ground (arith, e, h)

unlimited :
    (max_attempts : Option ℕ) (n : ℕ) → max_attempts ≡ none → is_exhausted max_attempts n ≡ false
unfolding is_exhausted
unlimited none n e = refl
unlimited (some k) n e = ground (arith, e)

more_at :
    (max_attempts : Option ℕ) (m n : ℕ)
    → max_attempts ≡ some m
    → n < m
    → is_exhausted max_attempts n ≡ false
unfolding is_exhausted
more_at none m n e h = absurd (no_limit m e)
more_at (some k) m n e h = ground (arith, e, h)

fits_range : (b : Backoff) → nanos b.base < upper b → leb (upper b) (nanos b.base) ≡ false
fits_range b h = ground (arith, h)

-- The base, in 64 bits, is not the greatest number, to which one cannot be added.
abbrev pub HasNext : ℕ → Type 0
HasNext base = base % u64_mod + 1 < u64_mod

upper-above : (b : Backoff) → HasNext b.base → nanos b.base < upper b
unfolding upper
upper-above b h = rw (small (nanos b.base + 1) u64_mod h) (omega arith)

-- How many waits a loop gives, where it does not panic.
abbrev pub count_of_waits : Option (List ℕ) → Option ℕ
count_of_waits none = none
count_of_waits (some ds) = some (length ds)

number_of : Option ℕ → ℕ
number_of none = 0
number_of (some n) = n

counted :
    (o : Option (List ℕ)) (n d : ℕ)
    → count_of_waits o ≡ some n
    → count_of_waits (after_delay d o) ≡ some (suc n)
unfolding number_of
counted none n d e = absurd (ground (arith, e))
counted (some ds) n d e = ap (λ o. some (suc (number_of o))) e

module _ (pick : ℕ → ℕ → ℕ) where
  -- Where the generator picks from the range it is given and the durations fit in 64 bits.
  pub next-Waits : (b : Backoff) → Picks pick → Sane b → Waits b (next pick b)
  unfolding next
  next-Waits b picks sane = elim (Bool-cases (is_exhausted b.max b.attempts)) [
    | inl used_up ↦ rw used_up (refl, used_up)
    | inr more ↦
        let range = upper_bound b sane in
        let p = picks (nanos b.base) (upper b) range.0 in
        rw (more, fits_range b range.0)
          (
            more,
            omega (arith, sane.1),
            omega (arith, p.0, sane.0, sane.1),
            omega (arith, p.1, range.1),
            refl,
            refl,
            (sane.0, sane.1, omega (arith, sane.1)),
          )
  ]

  after_wait : Backoff → Backoff
  after_wait b = record b {
    prev = min (pick (nanos b.base) (upper b)) (nanos b.cap);
    attempts = add_u32 b.attempts 1;
  }

  next_more :
      (b : Backoff)
      → HasNext b.base
      → is_exhausted b.max b.attempts ≡ false
      → next pick b ≡ turned (after_wait b) (some (after_wait b).prev)
  unfolding next after_wait
  next_more b h e = rw (e, fits_range b (upper-above b h)) refl

  next_done : (b : Backoff) → is_exhausted b.max b.attempts ≡ true → next pick b ≡ turned b none
  unfolding next
  next_done b e = rw e refl

  waits_more :
      (fuel n : ℕ) (b : Backoff)
      → HasNext b.base
      → is_exhausted b.max b.attempts ≡ false
      → count_of_waits (waits pick fuel (after_wait b)) ≡ some n
      → count_of_waits (waits pick (suc fuel) b) ≡ some (suc n)
  unfolding waits
  waits_more fuel n b h e more = rw (waits, next_more b h e) (counted _ n _ more)

  waits_done :
      (fuel : ℕ) (b : Backoff)
      → is_exhausted b.max b.attempts ≡ true
      → count_of_waits (waits pick fuel b) ≡ some 0
  unfolding waits
  waits_done zero b e = refl
  waits_done (suc fuel) b e = rw (waits, next_done b e) refl

  counts :
      (n fuel m : ℕ) (b : Backoff)
      → HasNext b.base
      → b.max ≡ some m
      → m < u32_mod
      → b.attempts + n ≡ m
      → count_of_waits (waits pick fuel b) ≡ some (min n fuel)
  unfolding after_wait
  counts zero fuel m b s e h total =
      waits_done fuel b (exhausted_at b.max m b.attempts e (omega (arith, total)))
      ∙ ap some (omega arith)
  counts (suc n) zero m b s e h total = unfold waits in ap some (omega arith)
  counts (suc n) (suc fuel) m b s e h total =
      waits_more fuel (min n fuel) b s (more_at b.max m b.attempts e (omega (arith, total)))
        (counts n fuel m (after_wait b) s e h (omega (arith, total, h)))
      ∙ ap some (omega arith)

  goes_on :
      (fuel : ℕ) (b : Backoff)
      → HasNext b.base
      → b.max ≡ none
      → count_of_waits (waits pick fuel b) ≡ some fuel
  unfolding after_wait
  goes_on zero b s e = unfold waits in refl
  goes_on (suc fuel) b s e =
      waits_more fuel fuel b s (unlimited b.max b.attempts e) (goes_on fuel (after_wait b) s e)

  -- From a fresh start, with attempts that all fail and a base whose nanoseconds are not the greatest
  -- 64-bit number: with a limit of m, below 2 ^ 32, the client waits m times and gives up, and without
  -- a limit it never gives up, whatever the generator picks, and it never panics.
  pub length-waits :
      (p : ReconnectPolicy) (fuel : ℕ)
      → HasNext p.base
      → ((m : ℕ)
          → p.max_attempts ≡ some m
          → m < u32_mod
          → count_of_waits (waits pick fuel (new_backoff p)) ≡ some (min m fuel))
        × (p.max_attempts ≡ none → count_of_waits (waits pick fuel (new_backoff p)) ≡ some fuel)
  length-waits p fuel s = (
    (λ m e h. counts m fuel m (new_backoff p) s e h (omega arith)),
    goes_on fuel (new_backoff p) s,
  )
