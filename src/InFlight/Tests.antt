-- ===== src/InFlight/Tests.antt =====
-- Counters of consumer 1 and queue 0.
use arbitro.Common.{[], false, refl, ◌∷◌, ◌≡◌}
use arbitro.InFlight.{
  InFlightCounters, consumer_scope, ensure_len, get, has_capacity, inc, inc_pending, inc_vec,
  on_scope, queue_scope, vec_of,
}

abbrev counters : InFlightCounters
counters = record { consumer = 0 ∷ 3 ∷ []; queue = 7 ∷ [] }

get-counters :
    (get (inc_pending counters 1 0) queue_scope 0 ≡ 8)
    × (get (inc counters queue_scope 20) queue_scope 20 ≡ 1)
    × (has_capacity counters consumer_scope 1 3 ≡ false)
unfolding get inc_pending inc on_scope vec_of inc_vec ensure_len has_capacity
get-counters = (refl, refl, refl)
