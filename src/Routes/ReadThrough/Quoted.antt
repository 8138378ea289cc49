-- ===== src/Routes/ReadThrough/Quoted.antt =====
-- The quotes that the fetched records carry.
use Prim.Native.String.{String}
use yearn_prices.Common.{
  All, All-append, Bool, Bool-cases, In, List, Option, [], ap, arith, false, if◌then◌else◌, inl,
  inr, length, nat_eq, none, option_eq, pair_eq, refl, some, string_eq, sym, true, ℕ, ◌==◌, ◌∙◌,
  ◌∷◌, ◌≡◌,
}
use yearn_prices.Common.OrderedMap.{get, get-All}
use yearn_prices.Utils.Text.{Text, text_eq}
use yearn_prices.Utils.Chains.{chain_id_to_name}
use yearn_prices.Utils.Validation.{HistoricalRequestTuple}
use yearn_prices.Db.Prices.{Numeric, PriceSource, Rejection, defillama, price_key_eq}
use yearn_prices.Db.PriceReads.{ExactPriceRecord}
use yearn_prices.Sources.Base.{HistoricalPriceResult}
use yearn_prices.Utils.Number.{Number}
use yearn_prices.Routes.ReadThrough.{
  ClosedTarget, CurrentTarget, ExactKey, FallbackQuote, Fetched, Targets, TokenKey, Upstream,
  closed_record, closed_records, closed_targets, current_price_key, exact_key, fallback_records,
  fallback_targets, is_superseded, live_records, mapped, missing_request, record_key, request_key,
  today_record,
}
use yearn_prices.Routes.ReadThrough.Run.{
  closed_prices, fallback_prices, fetched_records, live_prices, lp_key, settled, settled_partly,
}
use yearn_prices.Routes.ReadThrough.Collected.{FromMissing, FromToday, IsCollected}

module _ (upstream : Upstream) where
  -- An upstream has fallback_answered with the quote, for the row's token today, or for the row's place.
  pub data IsQuoteOf (row : ExactPriceRecord) : HistoricalPriceResult → Type 0 where
    by_current :
        (targets : List CurrentTarget) (answers : List (TokenKey × HistoricalPriceResult))
        (quote : HistoricalPriceResult)
        → upstream.current targets ≡ some answers
        → get (lp_key row) answers ≡ some quote
        → row.source ≡ defillama
        → IsQuoteOf row quote
    by_fallback :
        (ask : List CurrentTarget
          → List (TokenKey × HistoricalPriceResult)
          → Option (List (TokenKey × FallbackQuote) × Bool))
        (targets : List CurrentTarget) (live : List (TokenKey × HistoricalPriceResult))
        (answers : List (TokenKey × FallbackQuote)) (in_part : Bool) (q : FallbackQuote)
        → upstream.current_fallback ≡ some ask
        → ask targets live ≡ some (answers, in_part)
        → get (lp_key row) answers ≡ some q
        → row.source ≡ q.source
        → IsQuoteOf row q.quote
    by_history :
        (targets : List ClosedTarget) (answers : List (ClosedTarget × HistoricalPriceResult))
        (in_part : Bool) (target : ClosedTarget) (quote : HistoricalPriceResult) (chain : Text)
        → upstream.historical targets ≡ some (answers, in_part)
        → In (target, quote) answers
        → chain_id_to_name target.chain_id ≡ some chain
        → exact_key chain target.token target.timestamp ≡ record_key row
        → row.source ≡ defillama
        → IsQuoteOf row quote

  -- The row carries the price and the time of a quote that was given for it.
  pub record IsQuoted (row : ExactPriceRecord) : Type 0 where
    pub quote : HistoricalPriceResult
    pub price : row.price ≡ quote.price
    pub observed : row.observed_timestamp ≡ some quote.timestamp
    pub given : IsQuoteOf row quote

  module _ (now : ℕ) (stored : List (ExactKey × ExactPriceRecord))
      (requests : List HistoricalRequestTuple) where
    today_record-IsQuoted :
        (target : CurrentTarget) (price : HistoricalPriceResult) (endpoint : String)
        (source : PriceSource)
        → ((row : ExactPriceRecord)
            → lp_key row ≡ current_price_key target.chain target.token
            → row.source ≡ source
            → IsQuoteOf row price)
        → All
            (λ (f : Fetched). IsQuoted f.price)
            (today_record now stored target price endpoint source)
    today_record-IsQuoted target price endpoint source h =
        elim (Bool-cases (is_superseded now stored target.chain target.token price)) [
          | inl superseded ↦ rw superseded tt
          | inr newest ↦
              rw newest
                (record { quote = price; price = refl; observed = refl; given = h _ refl refl }, tt)
        ]

    live_records-IsQuoted :
        (live : List (TokenKey × HistoricalPriceResult)) (today : List (TokenKey × CurrentTarget))
        → ((row : ExactPriceRecord) (quote : HistoricalPriceResult)
            → get (lp_key row) live ≡ some quote
            → row.source ≡ defillama
            → IsQuoteOf row quote)
        → All (FromToday now stored requests) today
        → All (λ (f : Fetched). IsQuoted f.price) (live_records now stored live today)
    unfolding live_records
    live_records-IsQuoted live [] h t = tt
    live_records-IsQuoted live ((key, target) ∷ today) h ((_, _, _, _, _, same), t) =
        All-append (λ (f : Fetched). IsQuoted f.price) _ (live_records now stored live today)
          (one (get key live) refl) (live_records-IsQuoted live today h t)
      where
        one :
            (o : Option HistoricalPriceResult)
            → get key live ≡ o
            → All
                (λ (f : Fetched). IsQuoted f.price)
                (elim o [
                  | none ↦ []
                  | some price ↦ today_record now stored target price "/prices/current" defillama
                ])
        one none e = tt
        one (some price) e =
            today_record-IsQuoted target price "/prices/current" defillama
              (λ row k s. h row price (ap (λ j. get j live) (k ∙ sym same) ∙ e) s)

    fallback_records-IsQuoted :
        (quotes : List (TokenKey × FallbackQuote)) (targets : List (TokenKey × CurrentTarget))
        → ((row : ExactPriceRecord) (q : FallbackQuote)
            → get (lp_key row) quotes ≡ some q
            → row.source ≡ q.source
            → IsQuoteOf row q.quote)
        → All (λ (f : Fetched). IsQuoted f.price) (fallback_records now stored quotes targets)
    unfolding fallback_records
    fallback_records-IsQuoted quotes [] h = tt
    fallback_records-IsQuoted quotes ((key, target) ∷ targets) h =
        All-append (λ (f : Fetched). IsQuoted f.price) _
          (fallback_records now stored quotes targets)
          (one (get (current_price_key target.chain target.token) quotes) refl)
          (fallback_records-IsQuoted quotes targets h)
      where
        one :
            (o : Option FallbackQuote)
            → get (current_price_key target.chain target.token) quotes ≡ o
            → All
                (λ (f : Fetched). IsQuoted f.price)
                (elim o [
                  | none ↦ []
                  | some q ↦ today_record now stored target q.quote q.observation_endpoint q.source
                ])
        one none e = tt
        one (some q) e =
            today_record-IsQuoted target q.quote q.observation_endpoint q.source
              (λ row k s. h row q (ap (λ j. get j quotes) k ∙ e) s)

    closed_records-IsQuoted :
        (missing : List (ExactKey × HistoricalRequestTuple))
        (closed : List (ClosedTarget × HistoricalPriceResult))
        → ((row : ExactPriceRecord) (target : ClosedTarget) (quote : HistoricalPriceResult)
              (chain : Text)
            → In (target, quote) closed
            → chain_id_to_name target.chain_id ≡ some chain
            → exact_key chain target.token target.timestamp ≡ record_key row
            → row.source ≡ defillama
            → IsQuoteOf row quote)
        → All (FromMissing now stored requests) missing
        → All (λ (f : Fetched). IsQuoted f.price) (closed_records missing closed)
    unfolding closed_records
    closed_records-IsQuoted missing [] h m = tt
    closed_records-IsQuoted missing ((target, price) ∷ closed) h m =
        All-append (λ (f : Fetched). IsQuoted f.price) _ (closed_records missing closed)
          (one (missing_request missing target) refl)
          (closed_records-IsQuoted missing closed
            (λ row t quote chain n. h row t quote chain (inr n)) m)
      where
        named :
            (r : HistoricalRequestTuple) (o : Option Text)
            → chain_id_to_name target.chain_id ≡ o
            → elim o [
              | none ↦ none
              | some chain ↦ get (exact_key chain target.token target.timestamp) missing
            ]
              ≡ some r
            → (chain : Text) × (chain_id_to_name target.chain_id ≡ some chain)
              × (exact_key chain target.token target.timestamp ≡ request_key r)
        named r none c e = absurd (ground (arith, e))
        named r (some chain) c e =
            let (_, _, same) =
              get-All (FromMissing now stored requests)
                (exact_key chain target.token target.timestamp) r missing m e in
            (chain, c, same)

        one :
            (o : Option HistoricalRequestTuple)
            → missing_request missing target ≡ o
            → All
                (λ (f : Fetched). IsQuoted f.price)
                (elim o [ none ↦ [] | some r ↦ closed_record r price ∷ [] ])
        one none e = tt
        one (some r) e =
            let (chain, c, same) = named r (chain_id_to_name target.chain_id) refl e in
            (
              record {
                quote = price;
                price = refl;
                observed = refl;
                given = h _ target price chain (inl refl) c same refl;
              },
              tt,
            )

  module _ (numeric_of : Number → Numeric) (rejected : List Rejection) (now : ℕ) where
    live_given :
        (b : Bool) (targets : List CurrentTarget)
        (o : Option (List (TokenKey × HistoricalPriceResult)))
        → upstream.current targets ≡ o
        → (row : ExactPriceRecord) (quote : HistoricalPriceResult)
        → get
            (lp_key row)
            (if b then ([], false) else settled numeric_of rejected now upstream o []).0
          ≡ some quote
        → row.source ≡ defillama
        → IsQuoteOf row quote
    live_given true targets o e row quote g s = absurd (ground (arith, g))
    live_given false targets none e row quote g s = absurd (ground (arith, g))
    live_given false targets (some answers) e row quote g s = by_current targets answers quote e g s

    closed_given :
        (b : Bool) (targets : List ClosedTarget)
        (o : Option (List (ClosedTarget × HistoricalPriceResult) × Bool))
        → upstream.historical targets ≡ o
        → (row : ExactPriceRecord) (target : ClosedTarget) (quote : HistoricalPriceResult)
          (chain : Text)
        → In
            (target, quote)
            (if b then ([], false) else settled_partly numeric_of rejected now upstream o []).0
        → chain_id_to_name target.chain_id ≡ some chain
        → exact_key chain target.token target.timestamp ≡ record_key row
        → row.source ≡ defillama
        → IsQuoteOf row quote
    closed_given true targets o e row target quote chain n c k s = absurd n
    closed_given false targets none e row target quote chain n c k s = absurd n
    closed_given false targets (some (answers, in_part)) e row target quote chain n c k s =
        by_history targets answers in_part target quote chain e n c k s

    fallback_answered :
        (ask : List CurrentTarget
          → List (TokenKey × HistoricalPriceResult)
          → Option (List (TokenKey × FallbackQuote) × Bool))
        (b : Bool) (targets : List CurrentTarget) (live : List (TokenKey × HistoricalPriceResult))
        (o : Option (List (TokenKey × FallbackQuote) × Bool))
        → upstream.current_fallback ≡ some ask
        → ask targets live ≡ o
        → (row : ExactPriceRecord) (q : FallbackQuote)
        → get
            (lp_key row)
            (if b then ([], false) else settled_partly numeric_of rejected now upstream o []).0
          ≡ some q
        → row.source ≡ q.source
        → IsQuoteOf row q.quote
    fallback_answered ask true targets live o e a row q g s = absurd (ground (arith, g))
    fallback_answered ask false targets live none e a row q g s = absurd (ground (arith, g))
    fallback_answered ask false targets live (some (answers, in_part)) e a row q g s =
        by_fallback ask targets live answers in_part q e a g s

    fallback_given :
        (targets : List (TokenKey × CurrentTarget)) (live : List (TokenKey × HistoricalPriceResult))
        (row : ExactPriceRecord) (q : FallbackQuote)
        → get (lp_key row) (fallback_prices numeric_of rejected now upstream targets live).0
          ≡ some q
        → row.source ≡ q.source
        → IsQuoteOf row q.quote
    fallback_given targets live row q = go upstream.current_fallback refl
      where
        go :
            (f : Option (
              List CurrentTarget
              → List (TokenKey × HistoricalPriceResult)
              → Option (List (TokenKey × FallbackQuote) × Bool)))
            → upstream.current_fallback ≡ f
            → get (lp_key row) (
                (λ (p : List (TokenKey × FallbackQuote) × Bool). p.0)
                  (elim f [
                    | none ↦ ([], false)
                    | some ask ↦
                        if length targets == 0
                        then ([], false)
                        else settled_partly numeric_of rejected now upstream
                            (ask (mapped targets) live)
                            []
                  ]))
              ≡ some q
            → row.source ≡ q.source
            → IsQuoteOf row q.quote
        go none e g s = absurd (ground (arith, g))
        go (some ask) e g s =
            fallback_answered ask (length targets == 0) (mapped targets) live
              (ask (mapped targets) live) e refl row q g s

    -- What is fetched from the upstreams carries their quotes.
    pub fetched_records-IsQuoted :
        (stored : List (ExactKey × ExactPriceRecord)) (requests : List HistoricalRequestTuple)
        (targets : Targets)
        → IsCollected now stored requests targets
        → All
            (λ (f : Fetched). IsQuoted f.price)
            (fetched_records numeric_of rejected now upstream stored targets
              (live_prices numeric_of rejected now upstream targets).0
              (closed_prices numeric_of rejected now upstream targets).0
              (fallback_prices numeric_of rejected now upstream
                (fallback_targets now targets.today
                  (live_prices numeric_of rejected now upstream targets).0)
                (live_prices numeric_of rejected now upstream targets).0).0)
    fetched_records-IsQuoted stored requests targets h =
        let live = (live_prices numeric_of rejected now upstream targets).0 in
        let asked = fallback_targets now targets.today live in
        let quotes = (fallback_prices numeric_of rejected now upstream asked live).0 in
        let closed = (closed_prices numeric_of rejected now upstream targets).0 in
        All-append (λ (f : Fetched). IsQuoted f.price) _ (closed_records targets.missing closed)
          (All-append (λ (f : Fetched). IsQuoted f.price)
            (live_records now stored live targets.today) (fallback_records now stored quotes asked)
            (live_records-IsQuoted now stored requests live targets.today
              (live_given (length targets.today == 0) (mapped targets.today) _ refl) h.today)
            (fallback_records-IsQuoted now stored requests quotes asked
              (fallback_given asked live)))
          (closed_records-IsQuoted now stored requests targets.missing closed
            (closed_given (length (closed_targets targets) == 0) (closed_targets targets) _ refl)
            h.missing)
