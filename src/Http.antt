-- ===== src/Http.antt =====
-- src/http/errors.ts: the codes of `ApiError`, their statuses, and `ensure`. Messages are left out.
use yearn_prices.Common.{Bool, if◌then◌else◌, ℕ}

pub data ErrorCode : Type 0 where
  invalid_input unauthorized not_found rate_limited internal_error unavailable : ErrorCode

unfoldable pub error_status : ErrorCode → ℕ
error_status invalid_input = 400
error_status unauthorized = 401
error_status not_found = 404
error_status rate_limited = 429
error_status internal_error = 500
error_status unavailable = 503

-- A value, or a thrown `ApiError`.
pub data Result (A : Type 0) : Type 0 where
  ok : A → Result A
  throw : ErrorCode → Result A

-- `if (!condition) throw new ApiError(code, …)`
abbrev pub ensure : Bool → ErrorCode → Result (Unit {0})
ensure condition code = if condition then ok tt else throw code

infixl 5 ◌>>=◌ ◌>>◌
-- A statement that throws ends the function.
abbrev pub ◌>>=◌ : {A B : Type 0} → Result A → (A → Result B) → Result B
throw code >>= rest = throw code
ok value >>= rest = rest value

abbrev pub ◌>>◌ : {B : Type 0} → Result (Unit {0}) → Result B → Result B
throw code >> rest = throw code
ok done >> rest = rest
