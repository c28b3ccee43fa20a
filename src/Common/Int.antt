-- ===== src/Common/Int.antt =====
-- Python integers and durations as they come from a caller, before a check on their sign.
use Prim.Native.Nat.{ℕ}
use mathlib.Core.Bool.{Bool, true, false}
use lance_etl.Common.Tests.{ltb}

-- `negsuc n` is -(n + 1).
pub data ℤ : Type 0 where
  pos : ℕ → ℤ
  negsuc : ℕ → ℤ

-- The number itself, where a check has shown that it is not negative.
abbrev pub pos_part : ℤ → ℕ
pos_part (pos n) = n
pos_part (negsuc n) = 0

-- n < 0
abbrev pub is_negative : ℤ → Bool
is_negative (pos n) = false
is_negative (negsuc n) = true

-- n < 1, and d <= timedelta(0)
abbrev pub is_nonpositive : ℤ → Bool
is_nonpositive (pos n) = ltb n 1
is_nonpositive (negsuc n) = true
