-- ===== src/Utils/Chains.antt =====
-- src/utils/chains.ts: the supported chains, token addresses and token keys. `getAddress` of viem
-- is the parameter `checksum`.
pub mod Keys
use Prim.Native.String.{String}
use yearn_prices.Common.{
  Bool, List, Option, [], all, eqb, false, if◌then◌else◌, is_some, length, ltb, nat_eq, none,
  pair_eq, some, string_eq, ℕ, ◌&&◌, ◌++◌, ◌==◌, ◌∷◌,
}
use yearn_prices.Common.OrderedMap.{get}
use yearn_prices.Utils.Text.{Text, is_hex, split_colon, text, text_eq, to_lower_case}
use yearn_prices.Http.{Result, ensure, invalid_input, ok, throw, ◌>>=◌, ◌>>◌}

abbrev pub chain_id_to_name_table : List (ℕ × Text)
chain_id_to_name_table =
    (1, text "ethereum")
    ∷ (10, text "optimism")
    ∷ (100, text "gnosis")
    ∷ (137, text "polygon")
    ∷ (146, text "sonic")
    ∷ (250, text "fantom")
    ∷ (8453, text "base")
    ∷ (42161, text "arbitrum")
    ∷ (80094, text "berachain")
    ∷ (747474, text "katana")
    ∷ (4663, text "robinhood")
    ∷ (999, text "hyperliquid")
    ∷ []

unfoldable pub chain_id_to_name : ℕ → Option Text
chain_id_to_name chain_id = get chain_id chain_id_to_name_table

-- `CHAIN_NAME_TO_ID[name]`
unfoldable pub id_of_name : Text → List (ℕ × Text) → Option ℕ
id_of_name name [] = none
id_of_name name ((id, n) ∷ table) = if eqb n name then some id else id_of_name name table

unfoldable pub chain_name_to_id : Text → Option ℕ
unfolding id_of_name to_lower_case
chain_name_to_id chain = id_of_name (to_lower_case chain) chain_id_to_name_table

-- `SUPPORTED_CHAIN_NAMES.has(chain)`
unfoldable pub is_supported_chain : Text → Bool
unfolding id_of_name
is_supported_chain chain = is_some (id_of_name chain chain_id_to_name_table)

-- `/^0x[a-fA-F0-9]{40}$/`
unfoldable pub is_token_address : Text → Bool
unfolding is_hex
is_token_address (a ∷ b ∷ digits) =
    a == b'0' && b == b'x' && length digits == 40 && all is_hex digits
is_token_address token = false

pub record ParsedTokenKey : Type 0 where
  pub chain : Text
  pub token : Text
  pub token_key : Text

-- `${chain}:${token}`
abbrev pub join_key : Text → Text → Text
join_key chain token = chain ++ b':' ∷ token

module _ (checksum : Text → Text) where
  unfoldable pub normalize_token_address : Text → Result Text
  normalize_token_address token = do
    ensure (is_token_address token) invalid_input
    ok (checksum token)

  unfoldable pub parse_token_key : Text → Result ParsedTokenKey
  parse_token_key key = elim (split_colon key) [
    | none ↦ throw invalid_input
    | some (before, after) ↦ do
      ensure (ltb 0 (length before) && ltb 0 (length after)) invalid_input
      token ← normalize_token_address after
      ensure (is_supported_chain (to_lower_case before)) invalid_input
      ok (record {
        chain = to_lower_case before;
        token = token;
        token_key = join_key (to_lower_case before) token;
      })
  ]

  unfoldable pub normalize_token_key : Text → Text → Result Text
  normalize_token_key chain token = do
    address ← normalize_token_address token
    ok (join_key (to_lower_case chain) address)
