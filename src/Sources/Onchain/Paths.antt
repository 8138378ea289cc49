-- ===== src/Sources/Onchain/Paths.antt =====
-- src/sources/onchain/types.ts, and the pure functions of src/sources/onchain/engine.ts on targets,
-- errors and paths. An observation time is an integer. Symbols, confidence, metadata, messages and
-- the evidence below an input are left out, as is the abort signal.
use Prim.Native.String.{String}
use yearn_prices.Common.{
  Bool, Eq, List, Option, [], all, any, arith, eqb, eqb_iff, false, if◌then◌else◌, leb, map, max,
  min, nat_eq, none, not, option_eq, or_else, pair_eq, some, string_eq, true, ℕ, ◌&&◌, ◌==◌, ◌↔◌,
  ◌∷◌, ◌≡◌,
}
use yearn_prices.Common.Int.{negsuc, pos, ℤ}
use yearn_prices.Http.{ErrorCode, Result, ok, throw}
use yearn_prices.Utils.Text.{Text, text_eq, to_lower_case}
use yearn_prices.Utils.Number.{Number, exceeds_zero, is_finite, max_safe_integer}
use yearn_prices.Utils.Chains.{chain_id_to_name, normalize_token_address}
use yearn_prices.Db.Prices.{PriceSource, Rejection, derived, is_rejected_price}

pub record PriceTarget : Type 0 where
  pub chain_id : ℕ
  pub token : Text
  pub timestamp : Option ℕ
  pub block_number : Option ℕ

pub record InputEvidence : Type 0 where
  pub chain_id : ℕ
  pub token : Text
  pub observed_timestamp : ℤ
  pub price_usd : Number
  pub source : PriceSource
  pub adapter : String

pub record PricePath : Type 0 where
  pub chain_id : ℕ
  pub token : Text
  pub requested_timestamp : Option ℕ
  pub observed_timestamp : ℤ
  pub price_usd : Number
  pub source : PriceSource
  pub adapter : String
  pub block_number : Option ℕ
  pub inputs : List InputEvidence

pub data FailureReason : Type 0 where
  cycle max_depth retryable budget unsupported invalid : FailureReason

pub record Attempt : Type 0 where
  pub adapter : String
  pub reason : FailureReason

pub record ResolutionFailure : Type 0 where
  pub reason : FailureReason
  pub token : Text
  pub attempts : List Attempt

pub data PriceResult : Type 0 where
  priced : PricePath → PriceResult
  unpriced : ResolutionFailure → PriceResult

pub record AdapterQuote : Type 0 where
  pub price_usd : Number
  pub inputs : List PricePath
  pub observed_timestamp : Option ℤ
  pub source : Option PriceSource
  pub block_number : Option ℕ

-- What is thrown, as far as `classifyError` tells it apart: `transport` is an error that
-- `isRetryablePricingError` accepts, `unrecognized` any that it does not.
pub data PricingError : Type 0 where
  dependency_error : ResolutionFailure → PricingError
  read_budget_exceeded : PricingError
  api_error : ErrorCode → PricingError
  invalid_pricing : PricingError
  transport : PricingError
  unrecognized : PricingError

unfoldable pub classify_error : PricingError → FailureReason
classify_error (dependency_error failure) = failure.reason
classify_error read_budget_exceeded = budget
classify_error (api_error code) = retryable
classify_error invalid_pricing = invalid
classify_error transport = retryable
classify_error unrecognized = unsupported

-- The place in `FAILURE_ORDER`.
abbrev pub reason_rank : FailureReason → ℕ
reason_rank retryable = 0
reason_rank budget = 1
reason_rank invalid = 2
reason_rank cycle = 3
reason_rank max_depth = 4
reason_rank unsupported = 5

abbrev pub failure_order : List FailureReason
failure_order = retryable ∷ budget ∷ invalid ∷ cycle ∷ max_depth ∷ unsupported ∷ []

abbrev pub has_reason : FailureReason → List Attempt → Bool
has_reason reason attempts = any (λ a. reason_rank a.reason == reason_rank reason) attempts

-- `FAILURE_ORDER.find(…) ?? 'unsupported'`
unfoldable pub find_reason : List FailureReason → List Attempt → FailureReason
find_reason [] attempts = unsupported
find_reason (reason ∷ reasons) attempts =
    if has_reason reason attempts then reason else find_reason reasons attempts

unfoldable pub select_failure_reason : List Attempt → FailureReason
unfolding find_reason
select_failure_reason attempts = find_reason failure_order attempts

-- The parts that `targetKey` joins.
pub record TargetKey : Type 0 where
  pub chain_id : ℕ
  pub token : Text
  pub timestamp : Option ℕ
  pub block_number : Option ℕ

abbrev pub target_key : PriceTarget → TargetKey
target_key t = record {
  chain_id = t.chain_id;
  token = to_lower_case t.token;
  timestamp = t.timestamp;
  block_number = t.block_number;
}

abbrev pub key_beq : TargetKey → TargetKey → Bool
key_beq a b =
    a.chain_id == b.chain_id
    && eqb a.token b.token
    && eqb a.timestamp b.timestamp
    && eqb a.block_number b.block_number

pub key_beq_iff : (a b : TargetKey) → (key_beq a b ≡ true) ↔ (a ≡ b)
key_beq_iff a b = ground (
  arith,
  eqb_iff a.token b.token,
  eqb_iff a.timestamp b.timestamp,
  eqb_iff a.block_number b.block_number,
)

instance abbrev pub key_eq : Eq TargetKey
key_eq = record { beq = key_beq; beq_iff = key_beq_iff }

-- A number that is absent, or a safe integer.
abbrev pub is_safe : Option ℕ → Bool
is_safe none = true
is_safe (some n) = leb n max_safe_integer

abbrev pub is_safe_time : ℤ → Bool
is_safe_time (pos n) = leb n max_safe_integer
is_safe_time (negsuc n) = false

abbrev pub is_price : Number → Bool
is_price n = is_finite n && exceeds_zero n

module _ (rejected : List Rejection) where
  abbrev pub is_quarantined : PriceTarget → PriceSource → Bool
  is_quarantined target source = elim target.timestamp [
    | none ↦ false
    | some t ↦
        is_rejected_price rejected (or_else (chain_id_to_name target.chain_id) []) target.token t
          source
  ]

  -- `validatePath`: it gives the path back, or throws where this is false.
  unfoldable pub is_valid_path : PricePath → PriceTarget → Bool
  is_valid_path path target =
      not (is_quarantined target path.source)
      && path.chain_id == target.chain_id
      && eqb (to_lower_case path.token) (to_lower_case target.token)
      && is_safe_time path.observed_timestamp
      && is_price path.price_usd
      && all (λ input. is_price input.price_usd) path.inputs

abbrev pub to_input_evidence : PricePath → InputEvidence
to_input_evidence path = record {
  chain_id = path.chain_id;
  token = path.token;
  observed_timestamp = path.observed_timestamp;
  price_usd = path.price_usd;
  source = path.source;
  adapter = path.adapter;
}

abbrev pub int_min : ℤ → ℤ → ℤ
int_min (pos n) (pos m) = pos (min n m)
int_min (pos n) (negsuc m) = negsuc m
int_min (negsuc n) (pos m) = negsuc n
int_min (negsuc n) (negsuc m) = negsuc (max n m)

-- `Math.min(...times)`, of one time at least.
abbrev pub oldest : ℤ → List PricePath → ℤ
oldest time [] = time
oldest time (path ∷ paths) = int_min time (oldest path.observed_timestamp paths)

-- The default of a quote's observation time; `now` is the clock.
abbrev pub default_time : ℕ → PriceTarget → List PricePath → ℤ
default_time now target [] = pos (or_else target.timestamp now)
default_time now target (path ∷ paths) = oldest path.observed_timestamp paths

abbrev pub first_some : Option ℕ → Option ℕ → Option ℕ
first_some none o = o
first_some (some n) o = some n

-- The path that `buildAdapterPath` validates.
abbrev pub adapter_path : ℕ → PriceTarget → String → AdapterQuote → PricePath
adapter_path now target adapter quote = record {
  chain_id = target.chain_id;
  token = target.token;
  requested_timestamp = target.timestamp;
  observed_timestamp = or_else quote.observed_timestamp (default_time now target quote.inputs);
  price_usd = quote.price_usd;
  source = or_else quote.source derived;
  adapter = adapter;
  block_number = first_some quote.block_number target.block_number;
  inputs = map to_input_evidence quote.inputs;
}

-- `normalizeTarget`: the target, or what is thrown.
pub data Normalized : Type 0 where
  normalized : PriceTarget → Normalized
  refused : PricingError → Normalized

abbrev pub with_token : PriceTarget → Result Text → Normalized
with_token target (ok token) = normalized (record target { token = token })
with_token target (throw code) = refused (api_error code)

unfoldable pub normalize_target : (Text → Text) → PriceTarget → Normalized
unfolding normalize_token_address
normalize_target checksum target =
    if is_safe target.timestamp && is_safe target.block_number
    then with_token target (normalize_token_address checksum target.token)
    else refused invalid_pricing
