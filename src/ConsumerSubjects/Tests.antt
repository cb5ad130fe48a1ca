-- ===== src/ConsumerSubjects/Tests.antt =====
-- One consumer's counts and suppressed numbers at concrete calls.
use arbitro.Common.{
  [], arith, contains, count_of, erase, false, length, lookup, put, refl, remove, split_off,
  sum_values, true, ℕ, ◌==◌, ◌||◌, ◌∷◌, ◌≡◌, ◌≤◌, ◌⊎◌,
}
use arbitro.ConsumerSubjects.{
  ConsumerSubjects, can, dec_by, dec_by_entry, get, inc, is_suppressed, raise_ack_floor, release,
  store, suppress, suppress_cap,
}
use arbitro.ConsumerSubjects.Counting.{
  IsCounted, count_after, count_step, dec_by_of, get-count_step,
}
use arbitro.ConsumerSubjects.Suppression.{IsPruned, suppress_conservative}

abbrev busy : ConsumerSubjects
busy = record {
  inflight = (5, 2) ∷ (9, 1) ∷ [];
  total = 3;
  ack_floor = 10;
  suppressed = 12 ∷ 15 ∷ [];
}

busy-IsCounted : IsCounted busy
busy-IsCounted = record {
  total_is_sum = unfold sum_values in refl;
  positive = (omega arith, (omega arith, tt));
  distinct = unfold lookup in (refl, (refl, tt));
  fits = omega arith;
}

busy-IsPruned : IsPruned busy
busy-IsPruned = record { beyond_floor = (omega arith, (omega arith, tt)); bounded = omega arith }

runs :
    (get (dec_by busy 5 7).0 5 ≡ 0)
    × (can busy 9 1 ≡ false)
    × (is_suppressed (release busy 12) 12 ≡ false)
    × ((raise_ack_floor busy 12).suppressed ≡ 15 ∷ [])
unfolding get dec_by dec_by_entry store can inc is_suppressed release raise_ack_floor lookup erase
    put count_of contains remove split_off
runs = (refl, refl, refl, refl)

get-count_step_example :
    get (count_step busy (dec_by_of 5 7)) 5 ≡ count_after 5 (get busy 5) (dec_by_of 5 7)
get-count_step_example = get-count_step busy (dec_by_of 5 7) 5 tt busy-IsCounted

suppress_conservative_example :
    (is_suppressed (suppress busy 13) 13 ≡ true)
    × ((is_suppressed (suppress busy 13) 12 ≡ (12 == 13 || is_suppressed busy 12))
        ⊎ ((length busy.suppressed ≡ suppress_cap)
            × ((x : ℕ) → contains x busy.suppressed ≡ true → 12 ≤ x)
            × (is_suppressed (suppress busy 13) 12 ≡ false)))
suppress_conservative_example = suppress_conservative busy 13 12 busy-IsPruned
