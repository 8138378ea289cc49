-- ===== src/Tests/Feeds.antt =====
-- A feed of two phases, each of two rounds; no other phase has an aggregator.
use yearn_prices.Common.{
  arith, if◌then◌else◌, leb, ltb, nat_eq, none, option_eq, pair_eq, refl, some, string_eq, true, ℕ,
  ◌%◌, ◌&&◌, ◌*◌, ◌+◌, ◌-◌, ◌/◌, ◌<◌, ◌≡◌,
}
use yearn_prices.Common.Int.{pos, ℤ}
use yearn_prices.Utils.Number.{Number, integer}
use yearn_prices.Sources.Chainlink.{
  Client, RoundData, answers, encode_round_id, get_historical_price, got, phase_size, price_of,
  read_feed,
}
use yearn_prices.Sources.Chainlink.Newest.{IsFeed, Rounds}
use yearn_prices.Sources.Chainlink.Answers.{Answers, get_historical_price-Answers, read_feed-newest}

abbrev round_of : ℕ → ℕ → RoundData
round_of p j = record {
  round_id = encode_round_id p j;
  answer = pos (100 * p + j);
  started_at = 0;
  updated_at = 1000 * p + 10 * j + 1;
  answered_in_round = encode_round_id p j;
}

abbrev rounds : Rounds
rounds = record {
  oldest = 1;
  phases = 2;
  count = λ _. 2;
  round = round_of;
  aggregator = λ p. p + 1;
}

abbrev client : Client
client = record {
  get_round_data = λ _ id. answers (some (round_of (id / phase_size) (id % phase_size)));
  phase_aggregators = λ _ p. answers (some (if ltb 0 p && leb p 2 then p + 1 else 0));
  latest_round_data = λ a. answers (some (record (round_of (a - 1) 2) { round_id = 2 }));
  latest_and_decimals = λ _. answers (some (round_of 2 2, 8));
}

client-IsFeed : IsFeed client 7 rounds
client-IsFeed = record {
  starts = omega arith;
  counted = λ p h. (omega arith, omega arith);
  reads = λ p j h.
      let small : j < phase_size = omega (arith, h) in
      let e : encode_round_id p j / phase_size ≡ p = omega arith in
      let d : encode_round_id p j % phase_size ≡ j = omega arith in rw (e, d) refl;
  ids = λ p j h. refl;
  dated = λ p j h. omega arith;
  ordered = λ p j k a b h. omega arith;
  aggregators = λ p (a, b).
      let e : (ltb 0 p && leb p 2) ≡ true = ground (arith, a, b) in (rw e refl, omega arith);
  lasts = λ p h.
      let e : p + 1 - 1 ≡ p = omega arith in
      (record (round_of p 2) { round_id = 2 }, rw e refl, refl);
}

abbrev dollars : ℤ → ℕ → Number
dollars answer decimals = integer answer

abbrev first : Number → Number → Number
first a b = a

read_feed-newest_example :
    read_feed dollars first client 7 1025
    ≡ got (price_of dollars first 1025 8 (some (round_of 1 2)))
read_feed-newest_example =
    read_feed-newest dollars first client 7 1025 8 rounds 1 2 client-IsFeed refl
      (record {
        has = (omega arith, omega arith, omega arith, omega arith);
        in_time = omega arith;
        later = λ k a b. absurd (omega arith);
        later_phases = λ q k a b. omega arith;
      })
      (omega arith)

read_feed_test :
    read_feed dollars first client 7 1025
    ≡ got (
        some (record {
          price = integer (pos 102);
          timestamp = 1021;
          symbol = none;
          confidence = none;
        }))
unfolding read_feed
read_feed_test = refl

get_historical_price-Answers_example :
    Answers 1025 (get_historical_price dollars first (some client) none (some (7, 8)) 1025)
get_historical_price-Answers_example =
    get_historical_price-Answers dollars first (some client) none (some (7, 8)) 1025
