-- ===== src/Sources/Chainlink.antt =====
-- src/sources/chainlink/historical.ts: the round of a feed at a point in time. Round ids and times
-- are non-negative integers and an address is its number. The chain client's replies, the tables of
-- feeds and the floating point arithmetic are parameters.
pub mod Search
pub mod Walk
pub mod Newest
pub mod Prices
pub mod Answers
use yearn_prices.Common.{
  Option, if◌then◌else◌, leb, ltb, min, none, some, suc, zero, ℕ, ◌%◌, ◌*◌, ◌+◌, ◌-◌, ◌/◌, ◌==◌,
  ◌||◌,
}
use yearn_prices.Common.Int.{ℤ}
use yearn_prices.Utils.Number.{Number}
use yearn_prices.Http.{Result, ok, throw, unavailable, ◌>>◌}
use yearn_prices.Sources.Base.{HistoricalPriceResult, is_usable_price}

abbrev pub max_staleness_seconds : ℕ
max_staleness_seconds = 172_800

-- 2^64: a round id is a phase and 64 bits of the aggregator's own round.
abbrev pub phase_size : ℕ
phase_size = 18_446_744_073_709_551_616

abbrev pub max_phase_hops : ℕ
max_phase_hops = 8

pub record RoundData : Type 0 where
  pub round_id : ℕ
  pub answer : ℤ
  pub started_at : ℕ
  pub updated_at : ℕ
  pub answered_in_round : ℕ

-- What an awaited call gives: a value, an error that escapes it, or fuel that ran out.
pub data Read (A : Type 0) : Type 0 where
  got : A → Read A
  raised : Read A
  unfinished : Read A

infixl 5 ◌>>=◌
abbrev pub ◌>>=◌ : {A B : Type 0} → Read A → (A → Read B) → Read B
got value >>= rest = rest value
raised >>= rest = raised
unfinished >>= rest = unfinished

-- A reply of the chain client: a value, or an error that `maybe` throws again.
pub data Reply (A : Type 0) : Type 0 where
  answers : A → Reply A
  fails : Reply A

abbrev pub awaited : {A : Type 0} → Reply A → Read A
awaited (answers value) = got value
awaited fails = raised

-- The contract reads, each through `maybe`: no value where the contract reverts.
pub record Client : Type 0 where
  pub get_round_data : ℕ → ℕ → Reply (Option RoundData)
  pub phase_aggregators : ℕ → ℕ → Reply (Option ℕ)
  pub latest_round_data : ℕ → Reply (Option RoundData)
  -- `Promise.all` of the newest round and the decimals
  pub latest_and_decimals : ℕ → Reply (Option (RoundData × ℕ))

abbrev pub encode_round_id : ℕ → ℕ → ℕ
encode_round_id phase aggregator_round = phase * phase_size + aggregator_round % phase_size

-- The answer of `searchPhase`: a round, `undefined` or `null`.
pub data Searched : Type 0 where
  older : RoundData → Searched
  exhausted : Searched
  unreadable : Searched

-- The variables of its loop.
pub record Window : Type 0 where
  pub lo : ℕ
  pub hi : ℕ
  pub best : Option RoundData

abbrev pub searched : Option RoundData → Searched
searched none = exhausted
searched (some round) = older round

abbrev pub positive_round : Option RoundData → Option RoundData
positive_round none = none
positive_round (some round) = if ltb 0 round.updated_at then some round else none

abbrev pub in_phase : ℕ → Option RoundData → Option RoundData
in_phase phase none = none
in_phase phase (some latest) =
    let encoded = encode_round_id phase latest.round_id in
    some (record latest { round_id = encoded; answered_in_round = encoded })

module _ (client : Client) (feed timestamp : ℕ) where
  unfoldable pub round_at : ℕ → ℕ → Read (Option RoundData)
  round_at phase aggregator_round = do
    round ← awaited (client.get_round_data feed (encode_round_id phase aggregator_round))
    got (positive_round round)

  abbrev pub narrow : Window → ℕ → Option RoundData → Window
  narrow w mid none = record w { hi = mid - 1 }
  narrow w mid (some candidate) =
      if leb candidate.updated_at timestamp
      then record w { best = some candidate; lo = mid + 1 }
      else record w { hi = mid - 1 }

  -- The `while` loop of `searchPhase`.
  unfoldable pub search_loop : ℕ → ℕ → Window → Read Searched
  search_loop zero phase w = unfinished
  search_loop (suc fuel) phase w =
      let mid = (w.lo + w.hi) / 2 in
      let rest =
        round_at phase mid >>= (λ candidate. search_loop fuel phase (narrow w mid candidate)) in
      if leb w.lo w.hi then rest else got (searched w.best)

  abbrev pub after_top : ℕ → ℕ → Option RoundData → Read Searched
  after_top phase hi none = got unreadable
  after_top phase hi (some top) =
      if leb top.updated_at timestamp
      then got (older top)
      else search_loop (hi + 1) phase (record { lo = 1; hi = hi - 1; best = none })

  unfoldable pub search_phase : ℕ → Read Searched
  unfolding search_loop round_at
  search_phase after_round_id =
      let phase = after_round_id / phase_size in
      let hi = after_round_id % phase_size - 1 in
      if ltb hi 1 then got exhausted else (round_at phase hi >>= after_top phase hi)

  abbrev pub latest_in_phase : ℕ → Option ℕ → Read (Option RoundData)
  latest_in_phase phase none = got none
  latest_in_phase phase (some aggregator) =
      if aggregator == 0
      then got none
      else (awaited (client.latest_round_data aggregator)
          >>= (λ latest. got (in_phase phase latest)))

  unfoldable pub previous_phase_round : ℕ → Read (Option RoundData)
  previous_phase_round current_round_id =
      let phase = current_round_id / phase_size in
      if leb phase 1
      then got none
      else (awaited (client.phase_aggregators feed (phase - 1)) >>= latest_in_phase (phase - 1))

  -- The body of `readFeed`'s loop after the search; `next` is the next round of the loop.
  abbrev pub after_search :
      ℕ → RoundData → (RoundData → Read (Option RoundData)) → Searched → Read (Option RoundData)
  after_search hops round next unreadable = got none
  after_search hops round next (older found) = next found
  after_search hops round next exhausted = do
    previous ← if ltb hops max_phase_hops then previous_phase_round round.round_id else got none
    elim previous [ none ↦ got none | some found ↦ next found ]

  unfoldable pub walk : ℕ → ℕ → RoundData → Read (Option RoundData)
  walk zero hops round = unfinished
  walk (suc fuel) hops round =
      let rest = search_phase round.round_id >>= after_search hops round (walk fuel (hops + 1)) in
      if ltb timestamp round.updated_at then rest else got (some round)

-- `scale answer decimals` stands for `Number(answer) / 10 ** Number(decimals)`, and `times` for the
-- product of two numbers.
module _ (scale : ℤ → ℕ → Number) (times : Number → Number → Number) where
  abbrev pub price_of : ℕ → ℕ → Option RoundData → Option HistoricalPriceResult
  price_of timestamp decimals none = none
  price_of timestamp decimals (some round) =
      let price = scale round.answer decimals in
      if ltb timestamp round.updated_at || ltb (round.updated_at + max_staleness_seconds) timestamp
      then none
      else if is_usable_price price round.updated_at
      then some
          (record { price = price; timestamp = round.updated_at; symbol = none; confidence = none })
      else none

  abbrev pub after_reads :
      Client → ℕ → ℕ → Option (RoundData × ℕ) → Read (Option HistoricalPriceResult)
  after_reads client feed timestamp none = got none
  after_reads client feed timestamp (some (latest, decimals)) = do
    round ← walk client feed timestamp (max_phase_hops + 2) 0 latest
    got (price_of timestamp decimals round)

  unfoldable pub read_feed : Client → ℕ → ℕ → Read (Option HistoricalPriceResult)
  unfolding walk search_phase previous_phase_round
  read_feed client feed timestamp =
      awaited (client.latest_and_decimals feed) >>= after_reads client feed timestamp

  abbrev pub product :
      Option HistoricalPriceResult → Option HistoricalPriceResult → Option HistoricalPriceResult
  product none eth_usd = none
  product (some base) none = none
  product (some base) (some eth_usd) =
      let observed = min base.timestamp eth_usd.timestamp in
      let price = times base.price eth_usd.price in
      if is_usable_price price observed
      then some (record { price = price; timestamp = observed; symbol = none; confidence = none })
      else none

  -- The `catch` of `getHistoricalPrice`; none where the fuel ran out.
  abbrev pub caught :
      Read (Option HistoricalPriceResult) → Option (Result (Option HistoricalPriceResult))
  caught (got price) = some (ok price)
  caught raised = some (throw unavailable)
  caught unfinished = none

  -- `feed` and `eth_quoted` are the rows of the tables for the token.
  unfoldable pub get_historical_price :
      Option Client → Option ℕ → Option (ℕ × ℕ) → ℕ → Option (Result (Option HistoricalPriceResult))
  unfolding read_feed
  get_historical_price none feed eth_quoted timestamp = some (ok none)
  get_historical_price (some client) (some feed) eth_quoted timestamp =
      caught (read_feed client feed timestamp)
  get_historical_price (some client) none none timestamp = some (ok none)
  get_historical_price (some client) none (some (feed, eth_usd_feed)) timestamp = caught (do
    base ← read_feed client feed timestamp
    eth_usd ← read_feed client eth_usd_feed timestamp
    got (product base eth_usd))
