-- ===== src/ErrorCode.antt =====
-- crates/arbitro-proto/src/error.rs: the code of each error that is sent.
pub mod Table
use arbitro.Common.{List, Option, [], lookup, ℕ, ◌∷◌}

pub data ErrorCode : Type 0 where
  unknown_action buffer_too_short invalid_length invalid_entry_count auth_required : ErrorCode
  auth_failed stream_not_found stream_already_exists stream_full : ErrorCode
  idempotency_duplicate invalid_stream_filter stream_filter_conflict : ErrorCode
  consumer_not_found consumer_already_exists invalid_consumer_config : ErrorCode
  invalid_consumer_filter invalid_subscription_filter server_shutting_down : ErrorCode
  internal_error unimplemented : ErrorCode

-- The arms of the match in `from_u16`.
abbrev error_arms : List (ℕ × ErrorCode)
error_arms =
    (1, unknown_action)
    ∷ (2, buffer_too_short)
    ∷ (3, invalid_length)
    ∷ (4, invalid_entry_count)
    ∷ (257, auth_required)
    ∷ (258, auth_failed)
    ∷ (513, stream_not_found)
    ∷ (514, stream_already_exists)
    ∷ (515, stream_full)
    ∷ (518, idempotency_duplicate)
    ∷ (519, invalid_stream_filter)
    ∷ (520, stream_filter_conflict)
    ∷ (769, consumer_not_found)
    ∷ (770, consumer_already_exists)
    ∷ (772, invalid_consumer_config)
    ∷ (773, invalid_consumer_filter)
    ∷ (774, invalid_subscription_filter)
    ∷ (1281, server_shutting_down)
    ∷ (1282, internal_error)
    ∷ (1283, unimplemented)
    ∷ []

-- `none` for an unknown code.
pub error_from_u16 : ℕ → Option ErrorCode
error_from_u16 v = lookup v error_arms

pub error_as_u16 : ErrorCode → ℕ
error_as_u16 unknown_action = 1
error_as_u16 buffer_too_short = 2
error_as_u16 invalid_length = 3
error_as_u16 invalid_entry_count = 4
error_as_u16 auth_required = 257
error_as_u16 auth_failed = 258
error_as_u16 stream_not_found = 513
error_as_u16 stream_already_exists = 514
error_as_u16 stream_full = 515
error_as_u16 idempotency_duplicate = 518
error_as_u16 invalid_stream_filter = 519
error_as_u16 stream_filter_conflict = 520
error_as_u16 consumer_not_found = 769
error_as_u16 consumer_already_exists = 770
error_as_u16 invalid_consumer_config = 772
error_as_u16 invalid_consumer_filter = 773
error_as_u16 invalid_subscription_filter = 774
error_as_u16 server_shutting_down = 1281
error_as_u16 internal_error = 1282
error_as_u16 unimplemented = 1283
