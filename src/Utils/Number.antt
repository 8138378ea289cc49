-- ===== src/Utils/Number.antt =====
-- JavaScript's numbers as src tests them: integers exactly, and of every other finite number the
-- integer below it.
use yearn_prices.Common.{
  Bool, Option, arith, false, if◌then◌else◌, leb, ltb, none, some, true, ℕ, ◌&&◌, ◌-◌, ◌==◌, ◌^◌,
  ◌≡◌,
}
use yearn_prices.Common.Int.{negsuc, pos, ℤ}

-- `fraction z k` is strictly between z and z + 1; `k` tells such numbers apart.
pub data Number : Type 0 where
  integer : ℤ → Number
  fraction : ℤ → ℕ → Number
  infinite : Bool → Number
  nan : Number

-- `Number.isFinite(n)`
abbrev pub is_finite : Number → Bool
is_finite (integer z) = true
is_finite (fraction z k) = true
is_finite _ = false

-- `n > 0`
abbrev pub exceeds_zero : Number → Bool
exceeds_zero (integer (pos n)) = ltb 0 n
exceeds_zero (fraction (pos n) k) = true
exceeds_zero (infinite positive) = positive
exceeds_zero _ = false

abbrev pub max_safe_integer : ℕ
max_safe_integer = 2 ^ 53 - 1

-- `Number.isSafeInteger(n) && n > 0`, and the integer.
abbrev pub safe_positive : Number → Option ℕ
safe_positive (integer (pos n)) = if ltb 0 n && leb n max_safe_integer then some n else none
safe_positive _ = none

abbrev pub int_beq : ℤ → ℤ → Bool
int_beq (pos n) (pos m) = n == m
int_beq (negsuc n) (negsuc m) = n == m
int_beq _ _ = false

-- `a === b`: NaN equals nothing.
abbrev pub number_beq : Number → Number → Bool
number_beq (integer z) (integer w) = int_beq z w
number_beq (fraction z k) (fraction w j) = int_beq z w && k == j
number_beq (infinite true) (infinite true) = true
number_beq (infinite false) (infinite false) = true
number_beq _ _ = false

-- On finite numbers `===` is equality.
pub number_beq-eq-true : (a b : Number) → number_beq a b ≡ true → a ≡ b
number_beq-eq-true a b h = ground (arith, h)

pub number_beq_refl : (a : Number) → is_finite a ≡ true → number_beq a a ≡ true
number_beq_refl a h = ground (arith, h)
