-- ===== src/Sources/Defillama/Match.antt =====
-- src/sources/defillama/match.ts: the assignment of samples to the days that were asked for.
-- Timestamps are non-negative integers, or not finite. A sample object is its place in `samples`.
pub mod Pairs
pub mod Assign
pub mod Complete
use Prim.Native.String.{String}
use yearn_prices.Common.{
  Bool, List, Option, [], any, false, if◌then◌else◌, leb, ltb, nat_eq, none, not, option_eq,
  pair_eq, some, string_eq, suc, zero, ℕ, ◌&&◌, ◌*◌, ◌++◌, ◌+◌, ◌==◌, ◌||◌, ◌∷◌,
}
use yearn_prices.Common.Int.{distance}
use yearn_prices.Common.OrderedMap.{get, has, set}
use yearn_prices.Common.Sorting.{sort}
use yearn_prices.Utils.Text.{Text, text_eq}
use yearn_prices.Utils.Time.{normalize_to_end_of_day}
use yearn_prices.Utils.Number.{Number, exceeds_zero, is_finite}
use yearn_prices.Db.Prices.{TokenPriceWrite, defillama}

-- `none` is a timestamp that is not finite.
pub record DefillamaSample : Type 0 where
  pub timestamp : Option ℕ
  pub price : Number
  pub confidence : Option Number

abbrev pub strict_match_seconds : ℕ
strict_match_seconds = 15 * 60

abbrev pub search_width_seconds : ℕ
search_width_seconds = 6 * 60 * 60

pub record SamplePair : Type 0 where
  pub requested : ℕ
  pub sample_index : ℕ
  pub delta : ℕ

-- `matched` and `usedSamples`
pub record Assignment : Type 0 where
  pub matched : List (ℕ × ℕ)
  pub used_samples : List ℕ

-- `samples.entries()`
unfoldable pub entries_from : ℕ → List DefillamaSample → List (ℕ × DefillamaSample)
entries_from i [] = []
entries_from i (sample ∷ samples) = (i, sample) ∷ entries_from (i + 1) samples

abbrev pub is_used : ℕ → List ℕ → Bool
is_used i used = any (λ j. j == i) used

-- Whether the sample can stand for the day, whoever else uses it.
unfoldable pub fits : ℕ → ℕ → DefillamaSample → Bool
fits requested max_delta sample = elim sample.timestamp [
  | none ↦ false
  | some t ↦
      is_finite sample.price && exceeds_zero sample.price && leb (distance t requested) max_delta
]

abbrev pub delta_of : ℕ → DefillamaSample → ℕ
delta_of requested sample = elim sample.timestamp [ none ↦ 0 | some t ↦ distance t requested ]

-- The inner loop, for one day.
unfoldable pub pairs_for : ℕ → ℕ → List ℕ → List (ℕ × DefillamaSample) → List SamplePair
unfolding fits
pairs_for requested max_delta used [] = []
pairs_for requested max_delta used ((i, sample) ∷ entries) =
    let rest = pairs_for requested max_delta used entries in
    if not (is_used i used) && fits requested max_delta sample
    then record { requested = requested; sample_index = i; delta = delta_of requested sample }
      ∷ rest
    else rest

-- The outer loop.
unfoldable pub all_pairs : List ℕ → ℕ → Assignment → List (ℕ × DefillamaSample) → List SamplePair
unfolding pairs_for
all_pairs [] max_delta a entries = []
all_pairs (requested ∷ timestamps) max_delta a entries =
    let rest = all_pairs timestamps max_delta a entries in
    if has requested a.matched
    then rest
    else pairs_for requested max_delta a.used_samples entries ++ rest

-- `a.delta - b.delta || a.requested - b.requested || a.sampleIndex - b.sampleIndex`
abbrev pub by_delta : SamplePair → SamplePair → Bool
by_delta a b =
    ltb a.delta b.delta
    || a.delta == b.delta
      && (ltb a.requested b.requested
          || a.requested == b.requested && leb a.sample_index b.sample_index)

-- The last loop.
unfoldable pub take_pairs : List SamplePair → Assignment → Assignment
take_pairs [] a = a
take_pairs (pair ∷ pairs) a = take_pairs pairs (
    if has pair.requested a.matched || is_used pair.sample_index a.used_samples then a else record {
      matched = set pair.requested pair.sample_index a.matched;
      used_samples = pair.sample_index ∷ a.used_samples;
    })

unfoldable pub assign_nearest_samples : List ℕ → List DefillamaSample → ℕ → Assignment → Assignment
unfolding all_pairs take_pairs entries_from
assign_nearest_samples timestamps samples max_delta a =
    take_pairs (sort by_delta (all_pairs timestamps max_delta a (entries_from 0 samples))) a

unfoldable pub match_prices_to_requests : List ℕ → List DefillamaSample → Assignment
unfolding assign_nearest_samples
match_prices_to_requests timestamps samples =
    assign_nearest_samples timestamps samples search_width_seconds (
      assign_nearest_samples timestamps samples strict_match_seconds
        (record { matched = []; used_samples = [] }))

-- `DefiLlamaCoinResponse`: the absent fields have their defaults.
pub record CoinResponse : Type 0 where
  pub symbol : Option String
  pub prices : List DefillamaSample

abbrev pub sample_at : List DefillamaSample → ℕ → Option DefillamaSample
sample_at [] i = none
sample_at (sample ∷ samples) zero = some sample
sample_at (sample ∷ samples) (suc i) = sample_at samples i

module _ (chain token : Text) (coin : CoinResponse) where
  abbrev pub matched_sample : List (ℕ × ℕ) → ℕ → Option DefillamaSample
  matched_sample matched requested = elim (get requested matched) [
    | none ↦ none
    | some i ↦ sample_at coin.prices i
  ]

  -- The loop of `buildDefiLlamaWrites`: the writes and the days that are missing.
  unfoldable pub write_all : List (ℕ × ℕ) → List ℕ → List TokenPriceWrite × List ℕ
  write_all matched [] = ([], [])
  write_all matched (requested ∷ timestamps) =
      let (writes, missing) = write_all matched timestamps in
      elim (matched_sample matched requested) [
        | none ↦ (writes, requested ∷ missing)
        | some sample ↦ (
          record {
            chain = chain;
            token = token;
            timestamp = normalize_to_end_of_day requested;
            price = sample.price;
            symbol = coin.symbol;
            confidence = sample.confidence;
            source = defillama;
            observed_timestamp = sample.timestamp;
            observation_endpoint = some "/batchHistorical";
          }
              ∷ writes,
          missing,
        )
      ]

  unfoldable pub build_defillama_writes : List ℕ → List TokenPriceWrite × List ℕ
  unfolding write_all match_prices_to_requests normalize_to_end_of_day
  build_defillama_writes timestamps =
      write_all (match_prices_to_requests timestamps coin.prices).matched timestamps
