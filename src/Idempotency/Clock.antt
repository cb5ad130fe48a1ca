-- ===== src/Idempotency/Clock.antt =====
-- The loop of `advance_by_ms` against a row of ticks.
use arbitro.Common.Word.{add_u64}
use arbitro.Common.{ap, arith, refl, some, suc, zero, ℕ, ◌%◌, ◌*◌, ◌+◌, ◌-◌, ◌/◌, ◌<◌, ◌∙◌, ◌≡◌}
use arbitro.Idempotency.{IdempotencyTracker, advance_by_ms, tick, tick_loop, tick_ms}

unfoldable pub ticks_of : ℕ → IdempotencyTracker → IdempotencyTracker
ticks_of zero t = t
ticks_of (suc n) t = ticks_of n (tick t)

-- The pending time is no concern of `tick`.
ticks_of-pending :
    (n p : ℕ) (t : IdempotencyTracker)
    → ticks_of n (record t { pending_ms = p }) ≡ record (ticks_of n t) { pending_ms = p }
unfolding ticks_of tick
ticks_of-pending zero p t = refl
ticks_of-pending (suc n) p t = ticks_of-pending n p (tick t)

tick_loop-ticks :
    (q r fuel : ℕ) (t : IdempotencyTracker)
    → r < tick_ms
    → q < fuel
    → t.pending_ms ≡ q * tick_ms + r
    → tick_loop fuel t ≡ some (record (ticks_of q t) { pending_ms = r })
unfolding tick_loop ticks_of tick
tick_loop-ticks q r zero t l h e = absurd (omega arith)
tick_loop-ticks zero r (suc fuel) t l h e = ground (arith, e)
tick_loop-ticks (suc q) r (suc fuel) t l h e = ground (
  arith,
  tick_loop-ticks q r fuel (tick (record t { pending_ms = t.pending_ms - tick_ms })) l (omega arith)
      (omega (arith, e)),
  ticks_of-pending (suc q) (t.pending_ms - tick_ms) t,
)

-- `advance_by_ms` returns for every tracker and every elapsed time: it adds the time to the pending
-- milliseconds in 64 bits, where the sum wraps around, runs as many ticks as there are full seconds
-- in it, and keeps the milliseconds past the last one.
pub advance_by_ms-ticks :
    (t : IdempotencyTracker) (elapsed_ms : ℕ)
    → advance_by_ms t elapsed_ms
      ≡ some (record (ticks_of ((add_u64 t.pending_ms elapsed_ms) / tick_ms) t) {
        pending_ms = (add_u64 t.pending_ms elapsed_ms) % tick_ms;
      })
unfolding advance_by_ms
advance_by_ms-ticks t elapsed_ms =
    tick_loop-ticks (p / tick_ms) (p % tick_ms) (p / tick_ms + 1) (record t { pending_ms = p })
      (omega arith) (omega arith) (omega arith)
    ∙ ap {A = IdempotencyTracker} (λ u. some (record u { pending_ms = p % tick_ms }))
        (ticks_of-pending (p / tick_ms) p t)
  where
    p : ℕ
    p = add_u64 t.pending_ms elapsed_ms
