-- ===== src/Common/Int.antt =====
-- Integers over the native numbers: what a subtraction of two naturals gives in the source.
use yearn_prices.Common.Tests.{leb, if◌then◌else◌}
use Prim.Native.Nat.{ℕ, ◌-◌}

-- `negsuc n` is -(n + 1).
pub data ℤ : Type 0 where
  pos : ℕ → ℤ
  negsuc : ℕ → ℤ

-- a - b, as an integer.
abbrev pub sub_ℕ : ℕ → ℕ → ℤ
sub_ℕ a b = if leb b a then pos (a - b) else negsuc (b - a - 1)

-- |a - b|
abbrev pub distance : ℕ → ℕ → ℕ
distance a b = if leb b a then a - b else b - a
