-- ===== src/Shared/Int.antt =====
-- Signed whole numbers over the native numbers, for seat deltas, amounts of money and spans of time.
use Prim.Native.Nat.{ℕ, zero, suc, ◌-◌, ◌/◌}
use mathlib.Core.Bool.{Bool, true, false}
use booking_availability_pla.Shared.Tests.{leb, ltb, if◌then◌else◌}

-- `negsuc n` is -(n + 1).
pub data ℤ : Type 0 where
  pos : ℕ → ℤ
  negsuc : ℕ → ℤ

abbrev pub sub_ℕ : ℕ → ℕ → ℤ
sub_ℕ a b = if leb b a then pos (a - b) else negsuc (b - a - 1)

-- `-n`
abbrev pub neg_ℕ : ℕ → ℤ
neg_ℕ zero = pos 0
neg_ℕ (suc n) = negsuc n

-- `Math.abs`
abbrev pub abs : ℤ → ℕ
abs (pos n) = n
abs (negsuc n) = suc n

-- `delta > 0`
abbrev pub is_positive : ℤ → Bool
is_positive (pos n) = ltb 0 n
is_positive (negsuc n) = false

-- `Math.floor(a / d)` for a positive `d`.
abbrev pub floor_div : ℤ → ℕ → ℤ
floor_div (pos n) d = pos (n / d)
floor_div (negsuc n) d = negsuc (n / d)

-- `a < n` for a natural number `n`.
abbrev pub ltb_ℕ : ℤ → ℕ → Bool
ltb_ℕ (pos a) n = ltb a n
ltb_ℕ (negsuc a) n = true
