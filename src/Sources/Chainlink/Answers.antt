-- ===== src/Sources/Chainlink/Answers.antt =====
-- What the source answers, whatever the chain client replies.
use yearn_prices.Common.{
  Bool-cases, Option, arith, inl, inr, ltb, min, none, refl, some, true, ℕ, ◌+◌, ◌-◌, ◌||◌, ◌≡◌,
  ◌≤◌,
}
use yearn_prices.Common.Int.{ℤ}
use yearn_prices.Utils.Number.{Number}
use yearn_prices.Http.{Result, ok, throw, unavailable}
use yearn_prices.Sources.Base.{HistoricalPriceResult, is_usable_price}
use yearn_prices.Sources.Chainlink.{
  Client, Read, Reply, RoundData, after_reads, answers, awaited, caught, fails,
  get_historical_price, got, max_phase_hops, max_staleness_seconds, price_of, product, raised,
  read_feed, unfinished, ◌>>=◌,
}
use yearn_prices.Sources.Chainlink.Walk.{IsWalked, walk-IsWalked}
use yearn_prices.Sources.Chainlink.Newest.{IsFeed, IsNewest, Rounds}
use yearn_prices.Sources.Chainlink.Prices.{walk_back}

-- A usable price that was observed at most two days before the time asked for, and not after it.
abbrev pub IsFresh : ℕ → HistoricalPriceResult → Type 0
IsFresh timestamp price =
    (is_usable_price price.price price.timestamp ≡ true)
    × (price.timestamp ≤ timestamp)
    × (timestamp ≤ price.timestamp + max_staleness_seconds)

-- The reads end, and a price that they give is fresh.
abbrev IsRead : ℕ → Read (Option HistoricalPriceResult) → Type 0
IsRead timestamp unfinished = ⊥
IsRead timestamp raised = Unit
IsRead timestamp (got none) = Unit
IsRead timestamp (got (some price)) = IsFresh timestamp price

-- The source answers: with a fresh price, with none, or with the error UNAVAILABLE.
abbrev pub Answers : ℕ → Option (Result (Option HistoricalPriceResult)) → Type 0
Answers timestamp none = ⊥
Answers timestamp (some (throw code)) = code ≡ unavailable
Answers timestamp (some (ok none)) = Unit
Answers timestamp (some (ok (some price))) = IsFresh timestamp price

module _ (scale : ℤ → ℕ → Number) (times : Number → Number → Number) where
  price_of-IsRead :
      (timestamp decimals : ℕ) (round : Option RoundData)
      → IsRead timestamp (got (price_of scale times timestamp decimals round))
  price_of-IsRead timestamp decimals none = tt
  price_of-IsRead timestamp decimals (some round) =
      elim (Bool-cases (
        ltb timestamp round.updated_at
        || ltb (round.updated_at + max_staleness_seconds) timestamp)) [
          | inl stale ↦ rw stale tt
          | inr fresh ↦
              rw fresh
                (elim (Bool-cases
                  (is_usable_price (scale round.answer decimals) round.updated_at)) [
                    | inr unusable ↦ rw unusable tt
                    | inl usable ↦ rw usable (usable, ground (arith, fresh), ground (arith, fresh))
                  ])
        ]

  walked-IsRead :
      (client : Client) (feed timestamp decimals : ℕ) (r : Read (Option RoundData))
      → IsWalked client feed timestamp r
      → IsRead timestamp (r >>= λ round. got (price_of scale times timestamp decimals round))
  walked-IsRead client feed timestamp decimals unfinished h = h
  walked-IsRead client feed timestamp decimals raised h = tt
  walked-IsRead client feed timestamp decimals (got round) h =
      price_of-IsRead timestamp decimals round

  read_feed-IsRead :
      (client : Client) (feed timestamp : ℕ)
      → IsRead timestamp (read_feed scale times client feed timestamp)
  unfolding read_feed
  read_feed-IsRead client feed timestamp = after (client.latest_and_decimals feed)
    where
      after :
          (r : Reply (Option (RoundData × ℕ)))
          → IsRead timestamp (awaited r >>= after_reads scale times client feed timestamp)
      after fails = tt
      after (answers none) = tt
      after (answers (some (latest, decimals))) = walked-IsRead client feed timestamp decimals _ (
          walk-IsWalked client feed timestamp (max_phase_hops + 2) 0 latest
            (inl (omega arith, omega arith)))

  product-IsRead :
      (timestamp : ℕ) (base eth_usd : Option HistoricalPriceResult)
      → IsRead timestamp (got base)
      → IsRead timestamp (got eth_usd)
      → IsRead timestamp (got (product scale times base eth_usd))
  product-IsRead timestamp none eth_usd h k = tt
  product-IsRead timestamp (some base) none h k = tt
  product-IsRead timestamp (some base) (some eth_usd) h k =
      elim (Bool-cases
        (is_usable_price (times base.price eth_usd.price) (min base.timestamp eth_usd.timestamp))) [
          | inr unusable ↦ rw unusable tt
          | inl usable ↦ rw usable (usable, omega (arith, h, k), omega (arith, h, k))
        ]

  both-IsRead :
      (timestamp : ℕ) (base eth_usd : Read (Option HistoricalPriceResult))
      → IsRead timestamp base
      → IsRead timestamp eth_usd
      → IsRead timestamp (base >>= λ b. eth_usd >>= λ e. got (product scale times b e))
  both-IsRead timestamp unfinished eth_usd h k = h
  both-IsRead timestamp raised eth_usd h k = tt
  both-IsRead timestamp (got b) unfinished h k = k
  both-IsRead timestamp (got b) raised h k = tt
  both-IsRead timestamp (got b) (got e) h k = product-IsRead timestamp b e h k

  caught-Answers :
      (timestamp : ℕ) (r : Read (Option HistoricalPriceResult))
      → IsRead timestamp r
      → Answers timestamp (caught scale times r)
  caught-Answers timestamp unfinished h = h
  caught-Answers timestamp raised h = refl
  caught-Answers timestamp (got none) h = tt
  caught-Answers timestamp (got (some price)) h = h

  -- Whatever the chain client replies and whichever feeds the tables hold, the source answers: with
  -- a usable price that was observed at most two days before the time asked for and not after it,
  -- with none, or with the error UNAVAILABLE.
  pub get_historical_price-Answers :
      (client : Option Client) (feed : Option ℕ) (eth_quoted : Option (ℕ × ℕ)) (timestamp : ℕ)
      → Answers timestamp (get_historical_price scale times client feed eth_quoted timestamp)
  unfolding get_historical_price
  get_historical_price-Answers none feed eth_quoted timestamp = tt
  get_historical_price-Answers (some client) (some feed) eth_quoted timestamp =
      caught-Answers timestamp _ (read_feed-IsRead client feed timestamp)
  get_historical_price-Answers (some client) none none timestamp = tt
  get_historical_price-Answers (some client) none (some (feed, eth_usd_feed)) timestamp =
      caught-Answers timestamp _ (
        both-IsRead timestamp _ _ (read_feed-IsRead client feed timestamp)
          (read_feed-IsRead client eth_usd_feed timestamp))

  -- On a feed of which each phase from an oldest one, 1 at least, to the current one has an aggregator
  -- and rounds that can all be read and are in the order of their times, and of which the newest round
  -- in time is in one of the last nine phases, the price is that of this round: none where it is stale
  -- or not usable.
  pub read_feed-newest :
      (client : Client) (feed timestamp decimals : ℕ) (f : Rounds) (q j : ℕ)
      → IsFeed client feed f
      → client.latest_and_decimals feed
        ≡ answers (some (f.round f.phases (f.count f.phases), decimals))
      → IsNewest f timestamp q j
      → f.phases ≤ q + max_phase_hops
      → read_feed scale times client feed timestamp
        ≡ got (price_of scale times timestamp decimals (some (f.round q j)))
  unfolding read_feed
  read_feed-newest client feed timestamp decimals f q j is_feed latest newest near =
      rw
        (
          latest,
          walk_back client feed timestamp f is_feed q j newest (f.phases - q) f.phases 0
              (max_phase_hops + 2) (omega (arith, newest.has)) (omega arith) (omega arith)
              (omega arith),
        )
        refl
