-- ===== src/Base/Words.antt =====
-- Go's fixed-width integers as bit patterns: `uint64`, `uint32`, and the reading of an `int32`.
use Prim.Native.Nat.{ℕ, ◌+◌, ◌%◌}
use mathlib.Core.Bool.{Bool, ◌||◌}
use urx.Base.Tests.{ltb, leb}

abbrev pub u64_mod : ℕ
u64_mod = 18446744073709551616

abbrev pub u32_mod : ℕ
u32_mod = 4294967296

abbrev pub u64 : ℕ → ℕ
u64 n = n % 18446744073709551616

abbrev pub u32 : ℕ → ℕ
u32 n = n % 4294967296

-- `cur - 1` on an `int32`.
abbrev pub dec32 : ℕ → ℕ
dec32 n = (n + 4294967295) % 4294967296

-- Is the `int32` with this pattern negative?
abbrev pub is_negative32 : ℕ → Bool
is_negative32 n = leb 2147483648 n

-- `int(n) < bound` for an `int32` pattern `n` and a bound that is at least 0.
abbrev pub lt_int32 : ℕ → ℕ → Bool
lt_int32 n bound = is_negative32 n || ltb n bound
