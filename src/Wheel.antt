-- ===== src/Wheel.antt =====
-- crates/arbitro-common/src/wheel.rs: the hashed timing wheel. `usize` counts of what memory holds
-- are unbounded numbers here.
pub mod Due
pub mod Firing
mod Tests
use arbitro.Common.{
  List, Option, [], get_or, if◌then◌else◌, length, ltb, min, none, replicate, set, some, suc, zero,
  ℕ, ◌%◌, ◌++◌, ◌+◌, ◌-◌, ◌==◌, ◌∷◌,
}

pub data WheelEntryKind : Type 0 where
  ack_timeout nack_delay : WheelEntryKind

pub record WheelEntry : Type 0 where
  pub seq : ℕ
  pub consumer_id : ℕ
  pub subject_hash : ℕ
  pub kind : WheelEntryKind

pub record TimingWheel {ℓ} (T : Type ℓ) : Type ℓ where
  pub buckets : List (List T)
  pub current : ℕ
  pub num_buckets : ℕ
  pub len : ℕ

module _ {ℓ} {T : Type ℓ} where
  -- `new` asserts that there is at least one bucket.
  pub new : ℕ → Option (TimingWheel T)
  new num_buckets =
      if ltb 0 num_buckets
      then some (record {
        buckets = replicate num_buckets [];
        current = 0;
        num_buckets = num_buckets;
        len = 0;
      })
      else none

  pub insert_entry : TimingWheel T → T → ℕ → TimingWheel T
  insert_entry w entry delay_ticks =
      let ticks = min delay_ticks (w.num_buckets - 1) in
      let bucket = (w.current + ticks) % w.num_buckets in
      record w {
        buckets = set w.buckets bucket (get_or w.buckets bucket [] ++ entry ∷ []);
        len = w.len + 1;
      }

  -- Also `advance_into`, whose buffer holds what is returned here.
  pub advance : TimingWheel T → TimingWheel T × List T
  advance w =
      let current = (w.current + 1) % w.num_buckets in
      let bucket = get_or w.buckets current [] in
      (
        record w {
          buckets = set w.buckets current [];
          current = current;
          len = w.len - length bucket;
        },
        bucket,
      )

  -- The loop of `ticks_until_next_nonempty` from `k` on, with `rounds` rounds left.
  scan : TimingWheel T → ℕ → ℕ → Option ℕ
  scan w k zero = none
  scan w k (suc rounds) =
      let rest = scan w (k + 1) rounds in
      if length (get_or w.buckets ((w.current + k) % w.num_buckets) []) == 0 then rest else some k

  pub ticks_until_next_nonempty : TimingWheel T → Option ℕ
  unfolding scan
  ticks_until_next_nonempty w = if w.len == 0 then none else scan w 1 w.num_buckets

  advance_loop : ℕ → TimingWheel T → List T → TimingWheel T × List T
  unfolding advance
  advance_loop zero w out = (w, out)
  advance_loop (suc ticks) w out =
      let (w', bucket) = advance w in advance_loop ticks w' (out ++ bucket)

  pub advance_by : TimingWheel T → ℕ → TimingWheel T × List T
  unfolding advance_loop
  advance_by w ticks = advance_loop ticks w []
