-- ===== src/Base/Signed.antt =====
-- Signed numbers, for the counters that the program starts at -1. No code of the repository is
-- modelled here.
use Prim.Native.Nat.{ℕ, zero, suc}
use mathlib.Core.Bool.{Bool, true, false}

-- `negsuc n` is -(n + 1).
pub data ℤ : Type 0 where
  pos : ℕ → ℤ
  negsuc : ℕ → ℤ

abbrev pub minus_one : ℤ
minus_one = negsuc 0

-- `i > 0`
abbrev pub is_positive : ℤ → Bool
is_positive (pos (suc n)) = true
is_positive (pos zero) = false
is_positive (negsuc n) = false

-- `i - 1`
abbrev pub dec : ℤ → ℤ
dec (pos (suc n)) = pos n
dec (pos zero) = minus_one
dec (negsuc n) = negsuc (suc n)

-- `max(i, 0)`
abbrev pub to_nat : ℤ → ℕ
to_nat (pos n) = n
to_nat (negsuc n) = 0
