-- ===== src/Utils/Text/Lower.antt =====
-- `toLowerCase` and the hexadecimal digits, on ASCII.
use yearn_prices.Common.{[], all, arith, length, refl, ℕ, ◌++◌, ◌∷◌, ◌≡◌}
use yearn_prices.Utils.Text.{Text, is_hex, lower_code, to_lower_case}

lower_code_idem : (c : ℕ) → lower_code (lower_code c) ≡ lower_code c
unfolding lower_code
lower_code_idem c = ground arith

pub to_lower_case_idem : (s : Text) → to_lower_case (to_lower_case s) ≡ to_lower_case s
unfolding to_lower_case
to_lower_case_idem [] = refl
to_lower_case_idem (c ∷ s) = cc (lower_code_idem c, to_lower_case_idem s)

is_hex-lower_code : (c : ℕ) → is_hex (lower_code c) ≡ is_hex c
unfolding is_hex lower_code
is_hex-lower_code c = ground arith

-- Whether all digits are hexadecimal does not depend on case.
pub all_hex-to_lower_case : (s : Text) → all is_hex (to_lower_case s) ≡ all is_hex s
unfolding to_lower_case
all_hex-to_lower_case [] = refl
all_hex-to_lower_case (c ∷ s) = cc (is_hex-lower_code c, all_hex-to_lower_case s)

pub length-to_lower_case : (s : Text) → length (to_lower_case s) ≡ length s
unfolding to_lower_case
length-to_lower_case [] = refl
length-to_lower_case (c ∷ s) = omega (arith, length-to_lower_case s)

pub to_lower_case-append :
    (s t : Text) → to_lower_case (s ++ t) ≡ to_lower_case s ++ to_lower_case t
unfolding to_lower_case
to_lower_case-append [] t = refl
to_lower_case-append (c ∷ s) t = cc (to_lower_case-append s t)
