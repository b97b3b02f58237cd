-- ===== src/Base/Int.antt =====
-- Signed integers over the native numbers, as the input lengths of the source are (`int32_t`).
use judo.Base.{ℕ}

-- `negsuc n` is -(n + 1).
pub data ℤ : Type 0 where
  pos : ℕ → ℤ
  negsuc : ℕ → ℤ
