-- ===== src/Utils/Json.antt =====
-- A value that `response.json()` may give, as src inspects it. Strings are lists of code units.
use yearn_prices.Common.{Bool, eqb, if◌then◌else◌, nat_eq, pair_eq, string_eq}
use yearn_prices.Utils.Text.{Text, text_eq}
use yearn_prices.Utils.Number.{Number}

mutual
  pub data Json : Type 0 where
    undefined null : Json
    boolean : Bool → Json
    number : Number → Json
    string : Text → Json
    array : Elements → Json
    object : Members → Json

  pub data Elements : Type 0 where
    no_elements : Elements
    element : Json → Elements → Elements

  pub data Members : Type 0 where
    no_members : Members
    member : Text → Json → Members → Members

-- `object[name]`
unfoldable pub read_member : Text → Members → Json
read_member name no_members = undefined
read_member name (member n value members) = if eqb n name then value else read_member name members
