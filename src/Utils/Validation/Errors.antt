-- ===== src/Utils/Validation/Errors.antt =====
-- How a query parameter is refused.
use yearn_prices.Common.{◌≡◌}
use yearn_prices.Http.{Result, invalid_input, ok, throw}
use yearn_prices.Utils.Text.{Text}
use yearn_prices.Utils.Json.{Json}

-- What throws nothing but INVALID_INPUT.
abbrev pub IsPolite : {A : Type 0} → Result A → Type 0
IsPolite (ok a) = Unit
IsPolite (throw code) = code ≡ invalid_input
