-- ===== src/Tests/Registry.antt =====
-- A registry of three sources: the first has no price, the second fails, the third quotes.
use Prim.Native.String.{String}
use yearn_prices.Common.{
  List, [], if◌then◌else◌, keep, none, refl, some, true, ℕ, ◌==◌, ◌↔◌, ◌∷◌, ◌≡◌, ◌≢◌,
}
use yearn_prices.Common.Int.{pos}
use yearn_prices.Common.Sorting.{IsSorted}
use yearn_prices.Http.{not_found}
use yearn_prices.Utils.Number.{integer}
use yearn_prices.Registries.SourceRegistry.{
  Answer, NamedSource, PriceFields, api, by_priority, has_duplicate, new_registry, other, quoted,
  rejected, resolve, resolve_from, resolve_skipping, stamped,
}
use yearn_prices.Registries.SourceRegistry.Order.{
  HasUniqueNames, new_registry-eq-none_iff, new_registry-ordered,
}
use yearn_prices.Registries.SourceRegistry.Resolve.{Resolves, resolve_skipping-Resolves}

abbrev source_of : String → ℕ → NamedSource
source_of name priority = record { name = name; priority = priority; supports = λ c. true }

abbrev price_of : ℕ → PriceFields
price_of n = record {
  price = integer (pos n);
  timestamp = 86_399;
  symbol = none;
  confidence = none;
}

abbrev fetch_price : NamedSource → ℕ → String → Answer
fetch_price s chain_id token =
    if s.priority == 10
    then rejected (api not_found)
    else if s.priority == 15
    then rejected (other 1)
    else quoted (price_of 2)

abbrev sources : List NamedSource
sources = source_of "alias" 30 ∷ source_of "defillama" 10 ∷ source_of "chainlink" 15 ∷ []

abbrev registry : List NamedSource
registry = source_of "defillama" 10 ∷ source_of "chainlink" 15 ∷ source_of "alias" 30 ∷ []

new_registry-eq-none_iff_example : (new_registry sources ≢ none) ↔ HasUniqueNames sources
new_registry-eq-none_iff_example = new_registry-eq-none_iff sources

new_registry-ordered_example :
    HasUniqueNames sources
    × IsSorted by_priority registry
    × (keep (λ s. s.priority == 15) registry ≡ keep (λ s. s.priority == 15) sources)
unfolding new_registry has_duplicate
new_registry-ordered_example = new_registry-ordered sources registry 15 refl

resolve_skipping-Resolves_example :
    Resolves fetch_price
      (some "curve")
      1
      "0x"
      (api not_found)
      registry
      (resolve_skipping fetch_price (some "curve") registry 1 "0x")
resolve_skipping-Resolves_example =
    resolve_skipping-Resolves fetch_price (some "curve") 1 "0x" registry

-- The error of the second source is forgotten: the third has a price.
third_quotes : resolve fetch_price registry 1 "0x" ≡ stamped (price_of 2) "alias"
unfolding resolve resolve_skipping resolve_from
third_quotes = refl
