-- ===== src/Tests/Basics.antt =====
-- Times, chunks, token keys and caches, at concrete values.
use yearn_prices.Utils.Text.Lower.{all_hex-to_lower_case, length-to_lower_case, to_lower_case_idem}
use yearn_prices.Common.{
  All, List, [], arith, length, nat_eq, option_eq, pair_eq, refl, some, string_eq, true, ℕ, ◌↔◌,
  ◌∷◌, ◌≡◌, ◌≤◌, ◌⊎◌,
}
use yearn_prices.Cache.Headers.{cache_control_for_batch, cache_control_for_range, s_maxage}
use yearn_prices.Cache.Headers.Lifetimes.{IsSettled, cache_control_for_batch_lifetime}
use yearn_prices.Common.OrderedMap.{HasUniqueKeys, get}
use yearn_prices.Http.{ok}
use yearn_prices.Utils.Text.{Text, is_hex, lower_code, split_colon, text, text_eq, to_lower_case}
use yearn_prices.Utils.Collections.{chunk}
use yearn_prices.Utils.Collections.Chunks.{CutsInto, chunk-CutsInto}
use yearn_prices.Utils.Chains.{
  ParsedTokenKey, is_supported_chain, is_token_address, join_key, normalize_token_address,
  parse_token_key,
}
use yearn_prices.Utils.Chains.Keys.{IsChecksum, parse_token_key-canonical}
use yearn_prices.Clients.CappedMap.{set_capped, set_capped-bounded}

abbrev five : List ℕ
five = 1 ∷ 2 ∷ 3 ∷ 4 ∷ 5 ∷ []

chunk-CutsInto_example : CutsInto five 2 (chunk five 2)
chunk-CutsInto_example = chunk-CutsInto five 2 (omega arith)

abbrev two_entries : List (ℕ × ℕ)
two_entries = (4, 1) ∷ (5, 2) ∷ []

set_capped-bounded_example :
    HasUniqueKeys (set_capped 9 7 2 two_entries)
    × (length (set_capped 9 7 2 two_entries) ≤ 2)
    × (get 9 (set_capped 9 7 2 two_entries) ≡ some 7)
set_capped-bounded_example =
    set_capped-bounded 9 7 2 two_entries (refl, (refl, tt)) (omega arith) (omega arith)

address-to_lower_case :
    (t : Text) → is_token_address t ≡ true → is_token_address (to_lower_case t) ≡ true
unfolding is_token_address to_lower_case lower_code
address-to_lower_case [] h = absurd (ground (arith, h))
address-to_lower_case (a ∷ []) h = absurd (ground (arith, h))
address-to_lower_case (a ∷ b ∷ digits) h =
    ground (arith, h, length-to_lower_case digits, all_hex-to_lower_case digits)

-- An address in lower case stands in for a checksummed one.
pub lower-IsChecksum : IsChecksum to_lower_case
lower-IsChecksum = record {
  address = address-to_lower_case;
  same_lower = λ t. to_lower_case_idem t;
  of_lower = λ t u e. e;
}

abbrev pub key : Text
key = text "Base:0xABcdef0123456789abcdef0123456789abcdef01"

abbrev pub parsed : ParsedTokenKey
parsed = record {
  chain = text "base";
  token = text "0xabcdef0123456789abcdef0123456789abcdef01";
  token_key = text "base:0xabcdef0123456789abcdef0123456789abcdef01";
}

parse_token_key-canonical_example :
    (is_supported_chain parsed.chain ≡ true)
    × (is_token_address parsed.token ≡ true)
    × (parsed.token_key ≡ join_key parsed.chain parsed.token)
    × (parse_token_key to_lower_case parsed.token_key ≡ ok parsed)
unfolding parse_token_key normalize_token_address is_token_address is_supported_chain to_lower_case
    lower_code split_colon is_hex
parse_token_key-canonical_example = parse_token_key-canonical lower-IsChecksum key parsed refl

-- Two days before the clock's: the answer is kept for 30 days.
cache_control_for_batch_lifetime_example :
    ((s_maxage (cache_control_for_batch 259_300 (86_399 ∷ []) true) ≡ 2_592_000)
      ↔ ((true ≡ true) × All (IsSettled 259_300) (86_399 ∷ [])))
    × ((s_maxage (cache_control_for_batch 259_300 (86_399 ∷ []) true) ≡ 2_592_000)
        ⊎ (s_maxage (cache_control_for_batch 259_300 (86_399 ∷ []) true) ≤ 300))
    × (cache_control_for_range 259_300 (86_399 ∷ []) true
        ≡ cache_control_for_batch 259_300 (86_399 ∷ []) true)
cache_control_for_batch_lifetime_example =
    cache_control_for_batch_lifetime 259_300 (86_399 ∷ []) true
