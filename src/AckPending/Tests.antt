-- ===== src/AckPending/Tests.antt =====
-- One consumer's unconfirmed numbers at concrete calls.
use arbitro.Common.{[], arith, refl, split_off, ◌∷◌, ◌≡◌}
use arbitro.AckPending.{ConsumerPending, drain_ascending, expire_older_than, purge_up_to, rebound}
use arbitro.AckPending.Gate.{IsGated}

abbrev three : ConsumerPending
three = record {
  generation = 1;
  count = 3;
  min_seq = 4;
  max_seq = 9;
  pending = 4 ∷ 6 ∷ 9 ∷ [];
  oldest_ts_ms = 70;
}

three-IsGated : IsGated three
three-IsGated = record {
  counted = refl;
  sorted = (omega arith, (omega arith, (omega arith, tt)));
  bounded =
      ((omega arith, omega arith), ((omega arith, omega arith), ((omega arith, omega arith), tt)));
}

purged :
    ((purge_up_to three 5).0.min_seq ≡ 6)
    × ((purge_up_to three 5).1 ≡ 1)
    × (drain_ascending three 2 ≡ 4 ∷ 6 ∷ [])
    × ((expire_older_than three 69).1 ≡ 0)
unfolding purge_up_to rebound split_off drain_ascending expire_older_than
purged = (refl, refl, refl, refl)
