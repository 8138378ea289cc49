-- ===== src/Tests/Engine.antt =====
-- The engine at a vault whose adapter asks for the price of its asset, which the market has.
use yearn_prices.Common.{
  All, In, List, Option, [], arith, eqb, if◌then◌else◌, nat_eq, none, option_eq, pair_eq, refl,
  some, string_eq, ℕ, ◌∷◌, ◌≡◌, ◌≤◌, ◌⊎◌,
}
use yearn_prices.Common.Int.{pos, ℤ}
use yearn_prices.Utils.Text.{is_hex, lower_code, text, text_eq, to_lower_case}
use yearn_prices.Utils.Chains.{chain_id_to_name, is_token_address, normalize_token_address}
use yearn_prices.Utils.Number.{Number, integer}
use yearn_prices.Clients.CappedMap.{set_capped}
use yearn_prices.Db.Prices.{chainlink, is_rejected_price}
use yearn_prices.Sources.Onchain.Paths.{
  Attempt, PricePath, PriceResult, PriceTarget, budget, classify_error, dependency_error,
  is_valid_path, key_eq, normalize_target, priced, reason_rank, select_failure_reason, transport,
  unpriced, unsupported,
}
use yearn_prices.Sources.Onchain.Engine.{
  Engine, MarketAnswer, Program, Reply, Settings, asks, market_price, no_price, raises, resolve_at,
  resolve_uncached, resolved, returns, run_program, thrown, try_adapters,
}
use yearn_prices.Sources.Onchain.Engine.Cache.{IsGood, IsSoundEngine}
use yearn_prices.Sources.Onchain.Engine.Reasons.{select_failure_reason_gravest}
use yearn_prices.Sources.Onchain.Engine.Sound.{HasPlainMarket, resolve_at-IsGood}

abbrev vault : PriceTarget
vault = record {
  chain_id = 1;
  token = text "0xabcdef0123456789abcdef0123456789abcdef01";
  timestamp = some 86_399;
  block_number = none;
}

abbrev asset : PriceTarget
asset = record vault { token = text "0xabcdef0123456789abcdef0123456789abcdef02" }

abbrev asset_path : PricePath
asset_path = record {
  chain_id = 1;
  token = asset.token;
  requested_timestamp = some 86_399;
  observed_timestamp = pos 86_300;
  price_usd = integer (pos 3);
  source = chainlink;
  adapter = "chainlink";
  block_number = none;
  inputs = [];
}

abbrev market : ℕ → PriceTarget → MarketAnswer
market moment target = if eqb target.token asset.token then market_price asset_path else no_price

abbrev share_quote : Reply → Program
share_quote (resolved (priced path)) = returns (
    some (record {
      price_usd = integer (pos 6);
      inputs = path ∷ [];
      observed_timestamp = none;
      source = none;
      block_number = none;
    }))
share_quote (resolved (unpriced failure)) = raises (dependency_error failure)
share_quote (thrown error) = raises error

abbrev settings : Settings
settings = record {
  market = market;
  adapters =
      record { name = "pair"; program = λ n t. raises transport }
      ∷ record { name = "share"; program = λ n t. asks asset share_quote }
      ∷ [];
  resolution_budget = 32;
  rejected = [];
  checksum = λ t. t;
  now = 200_000;
}

abbrev idle : Engine
idle = record { successful = []; failed = []; adapter_hints = []; resolutions = 0 }

idle-IsSoundEngine : IsSoundEngine settings idle
idle-IsSoundEngine = record {
  paths = λ key path e. cc;
  failures = λ key failure e. cc;
  within = omega arith;
}

market_plain : HasPlainMarket settings
market_plain moment target error e = ground (arith, e)

resolve_at-IsGood_example : IsGood settings vault (resolve_at settings 8 vault [] idle)
resolve_at-IsGood_example =
    resolve_at-IsGood settings market_plain 8 vault [] idle idle-IsSoundEngine

abbrev price_of : PriceResult → Option (Number × ℤ)
price_of (priced path) = some (path.price_usd, path.observed_timestamp)
price_of (unpriced failure) = none

-- The vault's price is the adapter's, observed when its input was.
vault_priced : price_of (resolve_at settings 8 vault [] idle).0 ≡ some (integer (pos 6), pos 86_300)
unfolding resolve_at resolve_uncached try_adapters run_program normalize_target is_valid_path
    is_rejected_price normalize_token_address is_token_address is_hex to_lower_case lower_code
    chain_id_to_name set_capped classify_error
vault_priced = refl

abbrev attempts : List Attempt
attempts =
    record { adapter = "pair"; reason = unsupported }
    ∷ record { adapter = "share"; reason = budget }
    ∷ []

select_failure_reason_gravest_example :
    All (λ a. reason_rank (select_failure_reason attempts) ≤ reason_rank a.reason) attempts
    × (((a : Attempt) × In a attempts × (a.reason ≡ select_failure_reason attempts))
        ⊎ (select_failure_reason attempts ≡ unsupported))
select_failure_reason_gravest_example = select_failure_reason_gravest attempts
