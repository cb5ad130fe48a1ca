-- ===== src/Backoff/Tests.antt =====
-- A client that waits between 1 and 10 nanoseconds, 3 times at most.
use arbitro.Common.{arith, min, none, refl, some, ℕ, ◌-◌, ◌<◌, ◌^◌, ◌≡◌}
use arbitro.Common.Word.{u32_mod}
use arbitro.Backoff.{ReconnectPolicy, is_exhausted, new_backoff, next, panicked, upper, waits}
use arbitro.Backoff.Delays.{count_of_waits, length-waits}

abbrev policy : ReconnectPolicy
policy = record { base = 1; cap = 10; max_attempts = some 3 }

abbrev lowest : ℕ → ℕ → ℕ
lowest lo hi = lo

length-waits_example :
    ((m : ℕ)
      → policy.max_attempts ≡ some m
      → m < u32_mod
      → count_of_waits (waits lowest 9 (new_backoff policy)) ≡ some (min m 9))
    × (policy.max_attempts ≡ none → count_of_waits (waits lowest 9 (new_backoff policy)) ≡ some 9)
length-waits_example = length-waits lowest policy 9 (omega arith)

-- A base of 2 ^ 64 - 1 nanoseconds leaves an empty range.
greatest_base :
    next lowest (new_backoff (record { base = 2 ^ 64 - 1; cap = 10; max_attempts = none }))
    ≡ panicked
unfolding next upper is_exhausted
greatest_base = refl
