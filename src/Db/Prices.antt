-- ===== src/Db/Prices.antt =====
-- The table `token_prices` (src/db/schema.ts) and what src/prices/rejections.ts and
-- src/types.ts say of its rows. A table is a list of rows; a time is in seconds.
use Prim.Native.String.{String}
use yearn_prices.Utils.Number.{Number}
use yearn_prices.Common.{
  Bool, Eq, List, Option, any, arith, eqb, false, ltb, nat_eq, not, option_eq, pair_eq, string_eq,
  true, ℕ, ◌&&◌, ◌*◌, ◌+◌, ◌/◌, ◌==◌, ◌↔◌, ◌≡◌,
}
use yearn_prices.Common.Int.{negsuc, pos, ℤ}
use yearn_prices.Utils.Text.{Text, text_beq_iff, text_eq, to_lower_case}

-- `SOURCE_PRIORITY`
pub data PriceSource : Type 0 where
  defillama chainlink on_chain_oracle bobs_api curve derived defillama_alias enso : PriceSource

abbrev pub source_rank : PriceSource → ℕ
source_rank defillama = 0
source_rank chainlink = 1
source_rank on_chain_oracle = 2
source_rank bobs_api = 3
source_rank curve = 4
source_rank derived = 5
source_rank defillama_alias = 6
source_rank enso = 7

abbrev pub source_beq : PriceSource → PriceSource → Bool
source_beq a b = source_rank a == source_rank b

-- A source is its place in the list.
pub source_beq_iff : (a b : PriceSource) → (source_beq a b ≡ true) ↔ (a ≡ b)
source_beq_iff a b = ground arith

-- `source.startsWith('defillama')`
abbrev pub is_defillama_source : PriceSource → Bool
is_defillama_source defillama = true
is_defillama_source defillama_alias = true
is_defillama_source _ = false

-- Postgres's `numeric`: `scaled z k` is z / 10^k.
pub data Numeric : Type 0 where
  scaled : ℤ → ℕ → Numeric
  nan infinity neg_infinity : Numeric

-- `price > 0 AND price::text NOT IN ('NaN', 'Infinity', '-Infinity')`
abbrev pub is_positive : Numeric → Bool
is_positive (scaled (pos n) k) = ltb 0 n
is_positive (scaled (negsuc n) k) = false
is_positive _ = false

pub record PriceRow : Type 0 where
  pub chain : Text
  pub token : Text
  pub timestamp : ℕ
  pub price : Numeric
  pub source : PriceSource
  pub finalized : Bool
  pub symbol : Option String
  pub confidence : Option Numeric
  pub observed_at : Option ℕ
  pub observation_endpoint : Option String

-- `TokenPriceWrite`, its finalizationIntent left out: a price that is to be stored.
pub record TokenPriceWrite : Type 0 where
  pub chain : Text
  pub token : Text
  pub timestamp : ℕ
  pub price : Number
  pub symbol : Option String
  pub confidence : Option Number
  pub source : PriceSource
  pub observed_timestamp : Option ℕ
  pub observation_endpoint : Option String

-- The primary key of the table.
pub record PriceKey : Type 0 where
  pub chain : Text
  pub token : Text
  pub timestamp : ℕ
  pub source : PriceSource

abbrev pub price_key_beq : PriceKey → PriceKey → Bool
price_key_beq a b =
    eqb a.chain b.chain
    && eqb a.token b.token
    && a.timestamp == b.timestamp
    && source_beq a.source b.source

pub price_key_beq_iff : (a b : PriceKey) → (price_key_beq a b ≡ true) ↔ (a ≡ b)
price_key_beq_iff a b = ground (
  arith,
  text_beq_iff a.chain b.chain,
  text_beq_iff a.token b.token,
  source_beq_iff a.source b.source,
)

instance abbrev pub price_key_eq : Eq PriceKey
price_key_eq = record { beq = price_key_beq; beq_iff = price_key_beq_iff }

abbrev pub key_of : PriceRow → PriceKey
key_of row = record {
  chain = row.chain;
  token = row.token;
  timestamp = row.timestamp;
  source = row.source;
}

abbrev pub write_key : TokenPriceWrite → PriceKey
write_key row = record {
  chain = row.chain;
  token = row.token;
  timestamp = row.timestamp;
  source = row.source;
}

-- A row of `rejected_price_observations`, and of the manifest that seeds it.
pub record Rejection : Type 0 where
  pub chain : Text
  pub token : Text
  pub timestamp : ℕ
  pub source : PriceSource

-- `isRejectedPrice`: only DeFiLlama's observations are quarantined, by day.
unfoldable pub is_rejected_price : List Rejection → Text → Text → ℕ → PriceSource → Bool
is_rejected_price rejected chain token timestamp source =
    is_defillama_source source
    && any
        (λ r.
          eqb r.chain (to_lower_case chain)
          && eqb r.token (to_lower_case token)
          && r.timestamp == timestamp / 86_400 * 86_400 + 86_399)
        rejected

-- `NOT_REJECTED_PRICE_SQL`
unfoldable pub not_rejected : List Rejection → PriceRow → Bool
not_rejected rejected tp = not (
    any
      (λ r.
        eqb r.chain tp.chain
        && eqb r.token (to_lower_case tp.token)
        && r.timestamp == tp.timestamp
        && source_beq r.source tp.source)
      rejected)
