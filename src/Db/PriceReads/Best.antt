-- ===== src/Db/PriceReads/Best.antt =====
-- What a batch of requests is answered.
use yearn_prices.Utils.Collections.Chunks.{chunk-CutsInto, flatten}
use yearn_prices.Utils.Number.{Number}
use yearn_prices.Db.PriceReads.Candidates.{
  IsCandidate, IsCandidate-joined, joined-IsCandidate, rejoins,
}
use yearn_prices.Db.PriceReads.Distinct.{select_rows-In, select_rows-covers}
use yearn_prices.Db.PriceReads.Ordered.{RankLe}
use yearn_prices.Common.{
  Bool, Bool-cases, In, In-append_left, In-append_right, In-map, List, Option, [], append-In, arith,
  false, inl, inr, length, ltb, map-In, none, refl, some, subst, sym, true, ℕ, ◌==◌, ◌∷◌, ◌≡◌,
}
use yearn_prices.Utils.Validation.{HistoricalRequestTuple}
use yearn_prices.Db.Prices.{Numeric, PriceRow, PriceSource, Rejection}
use yearn_prices.Db.PriceReads.{
  ExactPriceRecord, get_batch_historical_prices, joined, max_exact_requests_per_query, place_of,
  query_parts, query_prices, same_place, select_rows, to_record,
}

module _ (before : PriceRow → PriceRow → Bool)
    (refl_at : (a b : PriceRow) → place_of a ≡ place_of b → before a b ≡ true)
    (number_of : Numeric → Number) (rejected : List Rejection) (now : ℕ) (table : List PriceRow)
    (source : Option PriceSource) (finalized_only : Bool) where
  -- A record of the answer: a candidate, and of those of its place the least where no source is
  -- asked for.
  abbrev pub IsBest : List HistoricalRequestTuple → ExactPriceRecord → Type 0
  IsBest requests rec =
      (x : PriceRow) × IsCandidate rejected now finalized_only source table requests x
      × (rec ≡ to_record before number_of rejected now x)
      × ((source ≡ none)
          → (y : PriceRow) → IsCandidate rejected now finalized_only source table requests y
          → same_place x y ≡ true
          → RankLe x y)

  -- The candidate's place has a record in the answer.
  abbrev pub IsAnswered : List ExactPriceRecord → PriceRow → Type 0
  IsAnswered records y =
      (x : PriceRow) × In (to_record before number_of rejected now x) records
      × (same_place x y ≡ true)

  widen :
      (part requests : List HistoricalRequestTuple) (x : PriceRow)
      → ((r : HistoricalRequestTuple) → In r part → In r requests)
      → IsCandidate rejected now finalized_only source table part x
      → IsCandidate rejected now finalized_only source table requests x
  widen part requests x within c = record {
    request = c.request;
    row = c.row;
    asked = within c.request c.asked;
    stored = c.stored;
    fits = c.fits;
    answer = c.answer;
  }

  query-IsBest :
      (part requests : List HistoricalRequestTuple)
      → ((r : HistoricalRequestTuple) → In r part → In r requests)
      → (rec : ExactPriceRecord)
      → In rec (query_prices before number_of rejected now table source finalized_only part)
      → IsBest requests rec
  unfolding query_prices
  query-IsBest part requests within rec m =
      let rows = joined rejected now finalized_only source part table in
      let (x, n, e) =
        map-In (to_record before number_of rejected now) rec (select_rows before source rows) m in
      let (k, least) = select_rows-In before refl_at source x rows n in
      let c = joined-IsCandidate rejected now finalized_only source table part x k in
      (
        x,
        widen part requests x within c,
        e,
        λ d y v s.
            least d y (rejoins rejected now finalized_only source table part requests x y c v s) s,
      )

  query-IsAnswered :
      (part : List HistoricalRequestTuple) (y : PriceRow)
      → IsCandidate rejected now finalized_only source table part y
      → IsAnswered (query_prices before number_of rejected now table source finalized_only part) y
  unfolding query_prices
  query-IsAnswered part y c =
      let rows = joined rejected now finalized_only source part table in
      let m =
        IsCandidate-joined rejected now finalized_only source table part y c.request c.row c.asked
          c.stored c.fits c.answer in
      let (x, n, s) = select_rows-covers before refl_at source y rows m in
      (x, In-map (to_record before number_of rejected now) x (select_rows before source rows) n, s)

  parts-IsBest :
      (parts : List (List HistoricalRequestTuple)) (requests : List HistoricalRequestTuple)
      → ((r : HistoricalRequestTuple) → In r (flatten parts) → In r requests)
      → (rec : ExactPriceRecord)
      → In rec (query_parts before number_of rejected now table source finalized_only parts)
      → IsBest requests rec
  unfolding query_parts
  parts-IsBest [] requests within rec m = absurd m
  parts-IsBest (part ∷ parts) requests within rec m =
      elim (append-In rec
        (query_prices before number_of rejected now table source finalized_only part) _ m) [
          | inl first ↦
              query-IsBest part requests (λ r n. within r (In-append_left r part (flatten parts) n))
                rec first
          | inr later ↦
              parts-IsBest parts requests
                (λ r n. within r (In-append_right r part (flatten parts) n)) rec later
        ]

  parts-IsAnswered :
      (parts : List (List HistoricalRequestTuple)) (y : PriceRow)
      → (c : IsCandidate rejected now finalized_only source table (flatten parts) y)
      → IsAnswered (query_parts before number_of rejected now table source finalized_only parts) y
  unfolding query_parts
  parts-IsAnswered [] y c = absurd (c.asked)
  parts-IsAnswered (part ∷ parts) y c = elim (append-In c.request part (flatten parts) c.asked) [
    | inl first ↦
        let (x, n, s) = query-IsAnswered part y (record {
          request = c.request;
          row = c.row;
          asked = first;
          stored = c.stored;
          fits = c.fits;
          answer = c.answer;
        }) in
        (
          x,
          In-append_left _
              (query_prices before number_of rejected now table source finalized_only part) _ n,
          s,
        )
    | inr later ↦
        let (x, n, s) = parts-IsAnswered parts y (record {
          request = c.request;
          row = c.row;
          asked = later;
          stored = c.stored;
          fits = c.fits;
          answer = c.answer;
        }) in
        (
          x,
          In-append_right _
              (query_prices before number_of rejected now table source finalized_only part) _ n,
          s,
        )
  ]

  -- However many requests there are, a batch is answered: each record is a stored row that a request
  -- asks for and that may be served, and where no source is asked for no such row of its place has a
  -- source of higher priority; and each such row's place has a record.
  pub get_batch_historical_prices-IsBest :
      (requests : List HistoricalRequestTuple)
      → (records : List ExactPriceRecord) × (get_batch_historical_prices before number_of rejected
            now table requests source finalized_only
          ≡ some records)
        × ((rec : ExactPriceRecord) → In rec records → IsBest requests rec)
        × ((y : PriceRow)
            → IsCandidate rejected now finalized_only source table requests y
            → IsAnswered records y)
  unfolding get_batch_historical_prices
  get_batch_historical_prices-IsBest [] = ([], refl, (λ rec m. absurd m), λ y c. absurd (c.asked))
  get_batch_historical_prices-IsBest (r ∷ requests) =
      let some_requests : (length (r ∷ requests) == 0) ≡ false = ground arith in
      elim (Bool-cases (ltb max_exact_requests_per_query (length (r ∷ requests)))) [
        | inl many ↦
            let (parts, cut, whole, sized) =
              chunk-CutsInto (r ∷ requests) max_exact_requests_per_query (omega arith) in
            (
              query_parts before number_of rejected now table source finalized_only parts,
              rw (some_requests, many, cut) refl,
              (λ rec m. parts-IsBest parts (r ∷ requests) (λ q n. subst (In q) whole n) rec m),
              λ y c.
                  parts-IsAnswered parts y
                    (widen (r ∷ requests) (flatten parts) y (λ q n. subst (In q) (sym whole) n) c),
            )
        | inr few ↦ (
          query_prices before number_of rejected now table source finalized_only (r ∷ requests),
          rw (some_requests, few) refl,
          (λ rec m. query-IsBest (r ∷ requests) (r ∷ requests) (λ q n. n) rec m),
          λ y c. query-IsAnswered (r ∷ requests) y c,
        )
      ]
