-- ===== src/ErrorCode/Table.antt =====
-- Errors against their codes.
use arbitro.Common.{All, ap, lookup, lookup-coded, refl, some, sym, ℕ, ◌↔◌, ◌∙◌, ◌≡◌}
use arbitro.ErrorCode.{
  ErrorCode, auth_failed, auth_required, buffer_too_short, consumer_already_exists,
  consumer_not_found, error_arms, error_as_u16, error_from_u16, idempotency_duplicate,
  internal_error, invalid_consumer_config, invalid_consumer_filter, invalid_entry_count,
  invalid_length, invalid_stream_filter, invalid_subscription_filter, server_shutting_down,
  stream_already_exists, stream_filter_conflict, stream_full, stream_not_found, unimplemented,
  unknown_action,
}

-- Every error is read back from its code.
error_from_u16-error_as_u16 : (e : ErrorCode) → error_from_u16 (error_as_u16 e) ≡ some e
unfolding error_from_u16 error_as_u16 lookup
error_from_u16-error_as_u16 unknown_action = refl
error_from_u16-error_as_u16 buffer_too_short = refl
error_from_u16-error_as_u16 invalid_length = refl
error_from_u16-error_as_u16 invalid_entry_count = refl
error_from_u16-error_as_u16 auth_required = refl
error_from_u16-error_as_u16 auth_failed = refl
error_from_u16-error_as_u16 stream_not_found = refl
error_from_u16-error_as_u16 stream_already_exists = refl
error_from_u16-error_as_u16 stream_full = refl
error_from_u16-error_as_u16 idempotency_duplicate = refl
error_from_u16-error_as_u16 invalid_stream_filter = refl
error_from_u16-error_as_u16 stream_filter_conflict = refl
error_from_u16-error_as_u16 consumer_not_found = refl
error_from_u16-error_as_u16 consumer_already_exists = refl
error_from_u16-error_as_u16 invalid_consumer_config = refl
error_from_u16-error_as_u16 invalid_consumer_filter = refl
error_from_u16-error_as_u16 invalid_subscription_filter = refl
error_from_u16-error_as_u16 server_shutting_down = refl
error_from_u16-error_as_u16 internal_error = refl
error_from_u16-error_as_u16 unimplemented = refl

error_arms-coded : All (λ e. error_as_u16 e.1 ≡ e.0) error_arms
unfolding error_as_u16
error_arms-coded = (
  refl,
  (
    refl,
    (
      refl,
      (
        refl,
        (
          refl,
          (
            refl,
            (
              refl,
              (
                refl,
                (
                  refl,
                  (
                    refl,
                    (
                      refl,
                      (refl, (refl, (refl, (refl, (refl, (refl, (refl, (refl, (refl, tt))))))))),
                    ),
                  ),
                ),
              ),
            ),
          ),
        ),
      ),
    ),
  ),
)

-- `from_u16` reads a code as an error exactly if it is the code of that error: no two errors share
-- a code, and none is sent that is not read back.
pub error_from_u16_iff :
    (v : ℕ) (e : ErrorCode) → (error_from_u16 v ≡ some e) ↔ (error_as_u16 e ≡ v)
unfolding error_from_u16
error_from_u16_iff v e = (
  lookup-coded error_as_u16 error_arms v e error_arms-coded,
  λ p. ap (λ w. lookup w error_arms) (sym p) ∙ error_from_u16-error_as_u16 e,
)
