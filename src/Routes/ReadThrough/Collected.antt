-- ===== src/Routes/ReadThrough/Collected.antt =====
-- Where the targets and the fetched records come from.
use Prim.Native.String.{String}
use yearn_prices.Utils.Chains.{chain_id_to_name}
use yearn_prices.Common.{
  All, All-append, All-drop, All-kept, All-take, Bool-cases, In, List, Option, [], arith, drop,
  false, inl, inr, keep, length, ltb_false→le, nat_eq, none, not, option_eq, pair_eq, refl, some,
  string_eq, subst, take, true, ℕ, ◌++◌, ◌∷◌, ◌≡◌, ◌≤◌, ◌⊎◌,
}
use yearn_prices.Common.OrderedMap.{get, get-All, has, set-All}
use yearn_prices.Utils.Text.{Text, text_eq}
use yearn_prices.Utils.Time.{current_utc_day_end, is_today_normalized}
use yearn_prices.Utils.Validation.{HistoricalRequestTuple}
use yearn_prices.Db.Prices.{PriceSource, defillama, price_key_eq}
use yearn_prices.Db.PriceReads.{ExactPriceRecord}
use yearn_prices.Sources.Base.{HistoricalPriceResult}
use yearn_prices.Routes.ReadThrough.{
  ClosedTarget, CurrentTarget, ExactKey, FallbackQuote, Fetched, Targets, TokenKey, add_target,
  closed_record, closed_records, collect_targets, current_price_key, exact_key, fallback_records,
  fallback_targets, is_missing, is_newer, is_newer_row, is_superseded, live_records,
  max_current_fallback_targets, missing_request, record_key, request_key, rotation, today_record,
}

module _ (now : ℕ) (stored : List (ExactKey × ExactPriceRecord))
    (requests : List HistoricalRequestTuple) where
  abbrev pub FromToday : TokenKey × CurrentTarget → Type 0
  FromToday (k, t) =
      (r : HistoricalRequestTuple) × In r requests
      × (is_today_normalized r.timestamp now ≡ true)
      × (t.chain ≡ r.chain)
      × (t.token ≡ r.token)
      × (k ≡ current_price_key t.chain t.token)

  abbrev pub FromMissing : ExactKey × HistoricalRequestTuple → Type 0
  FromMissing (k, r) = In r requests × (is_missing now stored r ≡ true) × (k ≡ request_key r)

  pub record IsCollected (targets : Targets) : Type 0 where
    pub today : All FromToday targets.today
    pub missing : All FromMissing targets.missing

  add_target-IsCollected :
      (targets : Targets) (r : HistoricalRequestTuple)
      → In r requests
      → IsCollected targets
      → IsCollected (add_target now stored targets r)
  add_target-IsCollected targets r m h = record {
    today = elim (Bool-cases (is_today_normalized r.timestamp now)) [
      | inl today ↦ rw today (
          set-All FromToday (current_price_key r.chain r.token) _ targets.today
            (r, m, today, refl, refl, refl) h.today)
      | inr other ↦ rw other h.today
    ];
    missing = elim (Bool-cases (is_missing now stored r)) [
      | inl missing ↦
          rw missing
            (set-All FromMissing (request_key r) r targets.missing (m, missing, refl) h.missing)
      | inr found ↦ rw found h.missing
    ];
  }

  collect_targets-IsCollected :
      (targets : Targets) (rest : List HistoricalRequestTuple)
      → ((r : HistoricalRequestTuple) → In r rest → In r requests)
      → IsCollected targets
      → IsCollected (collect_targets now stored targets rest)
  unfolding collect_targets
  collect_targets-IsCollected targets [] within h = h
  collect_targets-IsCollected targets (r ∷ rest) within h =
      collect_targets-IsCollected (add_target now stored targets r) rest (λ q m. within q (inr m))
        (add_target-IsCollected targets r (within r (inl refl)) h)

  pub all_targets-IsCollected :
      IsCollected (collect_targets now stored (record { today = []; missing = [] }) requests)
  all_targets-IsCollected =
      collect_targets-IsCollected _ requests (λ r m. m) (record { today = tt; missing = tt })

  -- A record that is fetched stands at the place of a request: of today, at the end of the day, and no
  -- newer observation of it is stored; or of a closed day that is not stored.
  abbrev pub IsFetched : Fetched → Type 0
  IsFetched f =
      (r : HistoricalRequestTuple) × In r requests
      × (f.price.chain ≡ r.chain)
      × (f.price.token ≡ r.token)
      × (((f.closed ≡ false)
            × (is_today_normalized r.timestamp now ≡ true)
            × (f.price.timestamp ≡ current_utc_day_end now)
            × ((row : ExactPriceRecord) (observed n : ℕ)
                → get (record_key f.price) stored ≡ some row
                → row.observed_timestamp ≡ some observed
                → f.price.observed_timestamp ≡ some n
                → observed ≤ n))
          ⊎ ((f.closed ≡ true)
              × (is_missing now stored r ≡ true)
              × (f.price.timestamp ≡ r.timestamp)))

  today_record-IsFetched :
      (k : TokenKey) (target : CurrentTarget) (price : HistoricalPriceResult) (endpoint : String)
      (source : PriceSource)
      → FromToday (k, target)
      → All IsFetched (today_record now stored target price endpoint source)
  today_record-IsFetched k target price endpoint source (r, m, today, c, t, _) =
      elim (Bool-cases (is_superseded now stored target.chain target.token price)) [
        | inl superseded ↦ rw superseded tt
        | inr newest ↦ rw newest (
          (
            r,
            m,
            c,
            t,
            inl (
              refl,
              today,
              refl,
              λ row observed n e o p.
                  let q : price.timestamp ≡ n = cc p in
                  subst (λ m. observed ≤ m) q
                    (ltb_false→le _ _ (
                      subst (λ x. is_newer price x ≡ false) o
                        (subst (λ x. is_newer_row price x ≡ false) e newest))),
            ),
          ),
          tt,
        )
      ]

  live_records-IsFetched :
      (live : List (TokenKey × HistoricalPriceResult)) (today : List (TokenKey × CurrentTarget))
      → All FromToday today
      → All IsFetched (live_records now stored live today)
  unfolding live_records
  live_records-IsFetched live [] h = tt
  live_records-IsFetched live ((key, target) ∷ today) (p, h) =
      All-append IsFetched _ (live_records now stored live today) (one (get key live))
        (live_records-IsFetched live today h)
    where
      one :
          (o : Option HistoricalPriceResult)
          → All IsFetched (elim o [
            | none ↦ []
            | some price ↦ today_record now stored target price "/prices/current" defillama
          ])
      one none = tt
      one (some price) = today_record-IsFetched key target price "/prices/current" defillama p

  fallback_records-IsFetched :
      (quotes : List (TokenKey × FallbackQuote)) (targets : List (TokenKey × CurrentTarget))
      → All FromToday targets
      → All IsFetched (fallback_records now stored quotes targets)
  unfolding fallback_records
  fallback_records-IsFetched quotes [] h = tt
  fallback_records-IsFetched quotes ((key, target) ∷ targets) (p, h) =
      All-append IsFetched _ (fallback_records now stored quotes targets)
        (one (get (current_price_key target.chain target.token) quotes))
        (fallback_records-IsFetched quotes targets h)
    where
      one :
          (o : Option FallbackQuote)
          → All IsFetched (elim o [
            | none ↦ []
            | some q ↦ today_record now stored target q.quote q.observation_endpoint q.source
          ])
      one none = tt
      one (some q) = today_record-IsFetched key target q.quote q.observation_endpoint q.source p

  closed_records-IsFetched :
      (missing : List (ExactKey × HistoricalRequestTuple))
      (closed : List (ClosedTarget × HistoricalPriceResult))
      → All FromMissing missing
      → All IsFetched (closed_records missing closed)
  unfolding closed_records
  closed_records-IsFetched missing [] h = tt
  closed_records-IsFetched missing ((target, price) ∷ closed) h =
      All-append IsFetched _ (closed_records missing closed)
        (one (missing_request missing target) refl) (closed_records-IsFetched missing closed h)
    where
      from_missing :
          (r : HistoricalRequestTuple) (o : Option Text)
          → elim o [
            | none ↦ none
            | some chain ↦ get (exact_key chain target.token target.timestamp) missing
          ]
            ≡ some r
          → In r requests × (is_missing now stored r ≡ true)
      from_missing r none e = absurd (ground (arith, e))
      from_missing r (some chain) e =
          let (m, t, _) =
            get-All FromMissing (exact_key chain target.token target.timestamp) r missing h e in
          (m, t)

      one :
          (o : Option HistoricalRequestTuple)
          → missing_request missing target ≡ o
          → All IsFetched (elim o [ none ↦ [] | some r ↦ closed_record r price ∷ [] ])
      one none e = tt
      one (some r) e =
          let (m, t) = from_missing r (chain_id_to_name target.chain_id) e in
          ((r, m, refl, refl, inr (refl, t, refl)), tt)

  pub fallback_targets-FromToday :
      (today : List (TokenKey × CurrentTarget)) (live : List (TokenKey × HistoricalPriceResult))
      → All FromToday today
      → All FromToday (fallback_targets now today live)
  fallback_targets-FromToday today live h =
      let misses = keep (λ (e : TokenKey × CurrentTarget). not (has (e.0) live)) today in
      let start = rotation now (length misses) in
      let k = All-kept FromToday (λ e. not (has (e.0) live)) today h in
      All-take FromToday max_current_fallback_targets (drop start misses ++ take start misses) (
        All-append FromToday (drop start misses) (take start misses)
          (All-drop FromToday start misses k) (All-take FromToday start misses k))

  pub candidates-IsFetched :
      (targets : Targets) (live : List (TokenKey × HistoricalPriceResult))
      (closed : List (ClosedTarget × HistoricalPriceResult))
      (quotes : List (TokenKey × FallbackQuote))
      → IsCollected targets
      → All IsFetched (
          (live_records now stored live targets.today
            ++ fallback_records now stored quotes (fallback_targets now targets.today live))
          ++ closed_records targets.missing closed)
  candidates-IsFetched targets live closed quotes h =
      All-append IsFetched _ (closed_records targets.missing closed)
        (All-append IsFetched (live_records now stored live targets.today) _
          (live_records-IsFetched live targets.today h.today)
          (fallback_records-IsFetched quotes (fallback_targets now targets.today live)
            (fallback_targets-FromToday targets.today live h.today)))
        (closed_records-IsFetched targets.missing closed h.missing)
