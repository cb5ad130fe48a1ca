-- ===== src/Action/Tests.antt =====
-- Codes at concrete actions.
use arbitro.Common.{lookup, none, refl, some, true, ◌≡◌}
use arbitro.Action.{from_u16, is_hot, nack}

reserved : (from_u16 258 ≡ none) × (from_u16 514 ≡ some nack) × (is_hot nack ≡ true)
unfolding from_u16 is_hot lookup
reserved = (refl, refl, refl)
