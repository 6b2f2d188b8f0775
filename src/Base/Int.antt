-- ===== src/Base/Int.antt =====
-- Signed integers over the native numbers, as the options take them.
use Prim.Native.Nat.{ℕ, suc}

-- `negsuc n` is -(n + 1).
pub data ℤ : Type 0 where
  pos : ℕ → ℤ
  negsuc : ℕ → ℤ

-- The value of an integer above 0, and 0 for any other.
abbrev pub pos_part : ℤ → ℕ
pos_part (pos n) = n
pos_part (negsuc n) = 0

-- `if n > 0 { field = n }`.
abbrev pub set_if_pos : ℤ → ℕ → ℕ
set_if_pos (pos (suc n)) old = suc n
set_if_pos _ old = old
