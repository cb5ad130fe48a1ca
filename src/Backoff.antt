-- ===== src/Backoff.antt =====
-- crates/arbitro-client-tokio/src/conn/reconnect.rs: the wait between two attempts of a client to
-- connect again. Durations are numbers of nanoseconds.
mod Tests
pub mod Delays
use Prim.Native.Nat.{max}
use arbitro.Common.{
  Bool, List, Option, [], false, if◌then◌else◌, leb, min, none, some, suc, zero, ℕ, ◌%◌, ◌*◌, ◌+◌,
  ◌-◌, ◌∷◌,
}
use arbitro.Common.Word.{add_u32, u64_mod}

-- The part of `ReconnectPolicy` that is used.
pub record ReconnectPolicy : Type 0 where
  pub base : ℕ
  pub cap : ℕ
  pub max_attempts : Option ℕ

pub record Backoff : Type 0 where
  pub base : ℕ
  pub cap : ℕ
  pub max : Option ℕ
  pub prev : ℕ
  pub attempts : ℕ

abbrev pub new_backoff : ReconnectPolicy → Backoff
new_backoff p = record {
  base = p.base;
  cap = p.cap;
  max = p.max_attempts;
  prev = p.base;
  attempts = 0;
}

abbrev pub reset : Backoff → Backoff
reset b = record b { prev = b.base; attempts = 0 }

-- `as_nanos() as u64`.
abbrev pub nanos : ℕ → ℕ
nanos d = d % u64_mod

-- `saturating_mul(3).max(lo + 1)`, where `lo + 1` is computed in 64 bits.
unfoldable pub upper : Backoff → ℕ
upper b = max (min (nanos b.prev * 3) (u64_mod - 1)) ((nanos b.base + 1) % u64_mod)

unfoldable pub is_exhausted : Option ℕ → ℕ → Bool
is_exhausted none attempts = false
is_exhausted (some m) attempts = leb m attempts

-- What a call returns: a wait, if there is one, with the new state, or a panic.
pub data Turn : Type 0 where
  turned : Backoff → Option ℕ → Turn
  panicked : Turn

abbrev pub after_delay : ℕ → Option (List ℕ) → Option (List ℕ)
after_delay d none = none
after_delay d (some ds) = some (d ∷ ds)

-- The random number generator is a parameter: it picks from a range, the lower end included, and
-- panics on an empty one.
module _ (pick : ℕ → ℕ → ℕ) where
  pub next : Backoff → Turn
  next b =
      let chosen = min (pick (nanos b.base) (upper b)) (nanos b.cap) in
      if is_exhausted b.max b.attempts
      then turned b none
      else if leb (upper b) (nanos b.base)
      then panicked
      else turned (record b { prev = chosen; attempts = add_u32 b.attempts 1 }) (some chosen)

  -- A loop of attempts that all fail, on fuel: the waits between them, or none after a panic.
  pub waits : ℕ → Backoff → Option (List ℕ)
  waits zero b = some []
  waits (suc fuel) b = elim (next b) [
    | turned after (some d) ↦ after_delay d (waits fuel after)
    | turned after none ↦ some []
    | panicked ↦ none
  ]
