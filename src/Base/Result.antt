-- ===== src/Base/Result.antt =====
-- A call that returns or throws.
pub data Result {ℓ κ} (E : Type κ) (A : Type ℓ) : Type (ℓ ⊔ κ) where
  ok : A → Result E A
  thrown : E → Result E A

-- What a call returns that returns nothing.
pub data Done : Type 0 where
  done : Done
