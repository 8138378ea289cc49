-- ===== src/Sources/Onchain/Engine.antt =====
-- src/sources/onchain/engine.ts: `RecursivePriceEngine`, with one resolution at a time: an adapter
-- asks for its children one after another. Then no call is ever in flight for a key outside the
-- ancestry, so `inflight` and `waiting` decide nothing and are left out, as are abort signals.
-- Adapters and the market are parameters; they may answer differently at each resolution, whose
-- number they are given.
pub mod Reasons
pub mod Cache
pub mod Sound
use Prim.Native.String.{String}
use yearn_prices.Common.{
  Bool, List, Option, [], any, eqb, false, if◌then◌else◌, keep, leb, nat_eq, none, not, option_eq,
  pair_eq, some, str_eq, string_eq, suc, true, zero, ℕ, ◌++◌, ◌+◌, ◌∷◌,
}
use yearn_prices.Common.OrderedMap.{get, set}
use yearn_prices.Utils.Text.{Text, text_eq, to_lower_case}
use yearn_prices.Clients.CappedMap.{set_capped}
use yearn_prices.Db.Prices.{Rejection}
use yearn_prices.Sources.Onchain.Paths.{
  AdapterQuote, Attempt, FailureReason, Normalized, PricePath, PriceResult, PriceTarget,
  PricingError, ResolutionFailure, TargetKey, adapter_path, budget, classify_error, cycle, invalid,
  is_valid_path, key_eq, max_depth, normalize_target, normalized, priced, refused, retryable,
  select_failure_reason, target_key, unpriced, unsupported,
}

abbrev pub max_adapter_hints : ℕ
max_adapter_hints = 256

-- What `context.resolve` gives or throws. `context.require` is the same question, and an adapter
-- that raises the failure.
pub data Reply : Type 0 where
  resolved : PriceResult → Reply
  thrown : PricingError → Reply

-- An adapter's `resolve`: it asks for children, and ends with a quote, with null or by throwing.
pub data Program : Type 0 where
  returns : Option AdapterQuote → Program
  raises : PricingError → Program
  asks : PriceTarget → (Reply → Program) → Program

pub record Adapter : Type 0 where
  pub name : String
  pub program : ℕ → PriceTarget → Program

pub data MarketAnswer : Type 0 where
  market_price : PricePath → MarketAnswer
  no_price : MarketAnswer
  market_error : PricingError → MarketAnswer

pub record Settings : Type 0 where
  pub market : ℕ → PriceTarget → MarketAnswer
  pub adapters : List Adapter
  pub resolution_budget : ℕ
  pub rejected : List Rejection
  pub checksum : Text → Text
  pub now : ℕ

-- The engine's state.
pub record Engine : Type 0 where
  pub successful : List (TargetKey × PricePath)
  pub failed : List (TargetKey × ResolutionFailure)
  pub adapter_hints : List ((ℕ × Text) × String)
  pub resolutions : ℕ

abbrev pub hint_key : PriceTarget → ℕ × Text
hint_key target = (target.chain_id, to_lower_case target.token)

abbrev pub failure_of : FailureReason → PriceTarget → List Attempt → ResolutionFailure
failure_of reason target attempts = record {
  reason = reason;
  token = target.token;
  attempts = attempts;
}

abbrev pub store_path : PriceTarget → PricePath → Engine → Engine
store_path target path e = record e { successful = set (target_key target) path e.successful }

abbrev pub store_failure : PriceTarget → ResolutionFailure → Engine → Engine
store_failure target failure e = record e { failed = set (target_key target) failure e.failed }

-- 'cycle' and 'max-depth' depend on the branch.
abbrev pub depends_on_branch : FailureReason → Bool
depends_on_branch cycle = true
depends_on_branch max_depth = true
depends_on_branch _ = false

abbrev pub market_reason : PricingError → FailureReason
market_reason error = elim (classify_error error) as (λ r. FailureReason) [
  | unsupported ↦ retryable
  | r ↦ r
]

-- The hinted adapter first.
abbrev pub ordered_adapters : Option String → List Adapter → List Adapter
ordered_adapters none adapters = adapters
ordered_adapters (some hint) adapters =
    if str_eq hint ""
    then adapters
    else keep (λ a. str_eq a.name hint) adapters ++ keep (λ a. not (str_eq a.name hint)) adapters

-- How an adapter's program ends.
pub data Ending : Type 0 where
  quoted : Option AdapterQuote → Ending
  raised : PricingError → Ending

module _ (s : Settings) (resolve_child : PriceTarget → Engine → PriceResult × Engine) where
  -- `context.resolve`
  abbrev pub ask_child : Normalized → Engine → Reply × Engine
  ask_child (refused error) e = (thrown error, e)
  ask_child (normalized target) e =
      let (result, e') = resolve_child target e in (resolved result, e')

  unfoldable pub run_program : Program → Engine → Ending × Engine
  run_program (returns quote) e = (quoted quote, e)
  run_program (raises error) e = (raised error, e)
  run_program (asks child next) e =
      let (reply, e') = ask_child (normalize_target s.checksum child) e in
      run_program (next reply) e'

  -- What follows one adapter: `next` tries the others.
  abbrev pub after_adapter :
      PriceTarget
      → String
      → List Attempt
      → (List Attempt → Engine → PriceResult × Engine)
      → Ending × Engine
      → PriceResult × Engine
  after_adapter target name attempts next (raised error, e) =
      next (attempts ++ record { adapter = name; reason = classify_error error } ∷ []) e
  after_adapter target name attempts next (quoted none, e) = next attempts e
  after_adapter target name attempts next (quoted (some quote), e) =
      let path = adapter_path s.now target name quote in
      if is_valid_path s.rejected path target
      then (
        priced path,
        record (store_path target path e) {
          adapter_hints = set_capped (hint_key target) name max_adapter_hints e.adapter_hints;
        },
      )
      else next (attempts ++ record { adapter = name; reason = invalid } ∷ []) e

  -- What follows the last adapter.
  abbrev pub give_up : PriceTarget → List Attempt → Engine → PriceResult × Engine
  give_up target attempts e =
      let failure = failure_of (select_failure_reason attempts) target attempts in
      (
        unpriced failure,
        if depends_on_branch failure.reason then e else store_failure target failure e,
      )

  unfoldable pub try_adapters :
      List Adapter → ℕ → PriceTarget → List Attempt → Engine → PriceResult × Engine
  unfolding run_program
  try_adapters [] moment target attempts e = give_up target attempts e
  try_adapters (a ∷ adapters) moment target attempts e =
      after_adapter target a.name attempts (λ more. try_adapters adapters moment target more)
        (run_program (a.program moment target) e)

  abbrev pub walk : ℕ → PriceTarget → Engine → PriceResult × Engine
  walk moment target e =
      try_adapters (ordered_adapters (get (hint_key target) e.adapter_hints) s.adapters) moment
        target [] e

  abbrev pub market_failed : PriceTarget → FailureReason → Engine → PriceResult × Engine
  market_failed target reason e =
      let failure =
        failure_of reason target (record { adapter = "market-price"; reason = reason } ∷ []) in
      (unpriced failure, store_failure target failure e)

  abbrev pub after_market : ℕ → PriceTarget → Engine → MarketAnswer → PriceResult × Engine
  after_market moment target e (market_price path) =
      if is_valid_path s.rejected path target
      then (priced path, store_path target path e)
      else market_failed target invalid e
  after_market moment target e no_price = walk moment target e
  after_market moment target e (market_error error) = market_failed target (market_reason error) e

  unfoldable pub resolve_uncached : PriceTarget → Bool → Engine → PriceResult × Engine
  unfolding try_adapters
  resolve_uncached target is_root e =
      let failure = failure_of budget target [] in
      let moment = e.resolutions in
      let e' = record e { resolutions = e.resolutions + 1 } in
      if leb s.resolution_budget e.resolutions
      then (unpriced failure, store_failure target failure e)
      else if is_root
      then walk moment target e'
      else after_market moment target e' (s.market moment target)

  abbrev pub resolve_cached : PriceTarget → Bool → Engine → PriceResult × Engine
  resolve_cached target is_root e = elim (get (target_key target) e.successful) [
    | some path ↦ (priced path, e)
    | none ↦ elim (get (target_key target) e.failed) [
      | some failure ↦ (unpriced failure, e)
      | none ↦ resolve_uncached target is_root e
    ]
  ]

abbrev pub is_empty : List TargetKey → Bool
is_empty [] = true
is_empty (key ∷ keys) = false

-- `resolveAt`, with `maxDepth - ancestry.length` levels left.
unfoldable pub resolve_at :
    Settings → ℕ → PriceTarget → List TargetKey → Engine → PriceResult × Engine
unfolding resolve_uncached
resolve_at s zero target ancestry e =
    if any (λ k. eqb k (target_key target)) ancestry
    then (unpriced (failure_of cycle target []), e)
    else (unpriced (failure_of max_depth target []), e)
resolve_at s (suc left) target ancestry e =
    let child = λ (t : PriceTarget) (g : Engine).
      resolve_at s left t (ancestry ++ target_key target ∷ []) g in
    if any (λ k. eqb k (target_key target)) ancestry
    then (unpriced (failure_of cycle target []), e)
    else resolve_cached s child target (is_empty ancestry) e

-- `resolve`; `none` is a thrown error.
unfoldable pub resolve_price : Settings → ℕ → PriceTarget → Engine → Option (PriceResult × Engine)
unfolding resolve_at
resolve_price s depth target e = elim (normalize_target s.checksum target) [
  | refused error ↦ none
  | normalized t ↦ some (resolve_at s depth t [] e)
]
