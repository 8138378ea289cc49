-- ===== src/Utils/Collections.antt =====
-- src/utils/collections.ts: `chunk`.
pub mod Chunks
use yearn_prices.Common.{
  List, Option, [], drop, if◌then◌else◌, length, ltb, none, some, suc, take, zero, ℕ, ◌+◌, ◌∷◌,
}
use mathlib.Core.Option

module _ {ℓ} {A : Type ℓ} where
  -- `for (index = 0; index < items.length; index += size)`; `none` where the fuel runs out.
  chunk_from : ℕ → ℕ → List A → ℕ → Option (List (List A))
  chunk_from zero index items size = none
  chunk_from (suc fuel) index items size =
      let rest =
        Option.map (λ r. take size (drop index items) ∷ r)
          (chunk_from fuel (index + size) items size) in
      if ltb index (length items) then rest else some []

  -- One round for each item, and the round that fails the test.
  unfoldable pub chunk : List A → ℕ → Option (List (List A))
  unfolding chunk_from
  chunk items size = chunk_from (length items + 1) 0 items size
