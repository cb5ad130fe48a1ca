-- ===== src/Common/Results.antt =====
-- `Result<T, E>` of the source.
pub data Result {ℓ κ} (E : Type ℓ) (A : Type κ) : Type (ℓ ⊔ κ) where
  ok : A → Result E A
  err : E → Result E A
