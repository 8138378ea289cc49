-- ===== src/Db/PriceReads/RoundTrip.antt =====
-- What is finalized is what is read.
use yearn_prices.Db.PriceStore.Writers.{finalizes, run-Refines}
use yearn_prices.Db.PriceStore.Merge.{last_write}
use yearn_prices.Db.PriceStore.{
  finalize_provisional, finalize_token_prices, finalized_by, row_of, updated,
}
use yearn_prices.Common.{
  Bool, Bool-cases, In, List, Option, Option-cases, [], any, ap, arith, eqb, eqb_iff, false, inl,
  inr, nat_eq, none, not, option_eq, pair_eq, refl, some, string_eq, subst, sym, true, ℕ, ◌&&◌,
  ◌==◌, ◌∙◌, ◌∷◌, ◌≡◌, ◌⊎◌,
}
use yearn_prices.Utils.Number.{Number}
use yearn_prices.Utils.Text.{text_beq_iff, text_eq, to_lower_case}
use yearn_prices.Utils.Validation.{HistoricalRequestTuple}
use yearn_prices.Db.Prices.{
  Numeric, PriceKey, PriceRow, Rejection, TokenPriceWrite, is_rejected_price, key_of, not_rejected,
  price_key_eq, source_beq, source_beq_iff, write_key,
}
use yearn_prices.Db.PriceStore.Tables.{find, merge}
use yearn_prices.Db.PriceStore.Unique.{In-find, IsUnique, finalize-IsUnique, find-In}
use yearn_prices.Db.PriceReads.{
  ExactPriceRecord, first_record, get_exact_historical_price, head, is_candidate, place_of,
  to_record,
}
use yearn_prices.Db.PriceReads.Best.{IsBest, get_batch_historical_prices-IsBest}

abbrev pub request_of : PriceKey → HistoricalRequestTuple
request_of k = record { chain = k.chain; token = k.token; timestamp = k.timestamp }

-- Quarantine goes by the key.
not_rejected-key_of :
    (rejected : List Rejection) (a b : PriceRow)
    → key_of a ≡ key_of b
    → not_rejected rejected a ≡ not_rejected rejected b
unfolding not_rejected
not_rejected-key_of rejected a b e =
    ap
      (λ (k : PriceKey). not (
        any
          (λ (r : Rejection).
            eqb r.chain k.chain
            && eqb r.token (to_lower_case k.token)
            && r.timestamp == k.timestamp
            && source_beq r.source k.source)
          rejected))
      e

module _ (before : PriceRow → PriceRow → Bool)
    (refl_at : (a b : PriceRow) → place_of a ≡ place_of b → before a b ≡ true)
    (number_of : Numeric → Number) (rejected : List Rejection) (now : ℕ)
    (table : List PriceRow) where
  fits_at :
      (row : PriceRow)
      → row.finalized ≡ true
      → not_rejected rejected row ≡ true
      → is_candidate rejected now false (some row.source) (request_of (key_of row)) row ≡ true
  fits_at row f q = ground (
    arith,
    f,
    q,
    text_beq_iff row.chain row.chain,
    text_beq_iff row.token row.token,
    source_beq_iff row.source row.source,
  )

  -- A candidate for a key's request and source has the key.
  key-fits :
      (k : PriceKey) (row : PriceRow)
      → is_candidate rejected now false (some k.source) (request_of k) row ≡ true
      → key_of row ≡ k
  key-fits k row h = ground (
    arith,
    h,
    text_beq_iff row.chain k.chain,
    text_beq_iff row.token k.token,
    source_beq_iff row.source k.source,
  )

  head-all :
      (records : List ExactPriceRecord) (rec : ExactPriceRecord)
      → In rec records
      → ((other : ExactPriceRecord) → In other records → other ≡ rec)
      → head records ≡ some rec
  head-all [] rec m h = absurd m
  head-all (first ∷ records) rec m h = ap some (h first (inl refl))

  -- The one row of a key is read back by its key, if it is final and not quarantined.
  get_exact-find :
      (row : PriceRow)
      → IsUnique table
      → In row table
      → row.finalized ≡ true
      → not_rejected rejected row ≡ true
      → get_exact_historical_price before number_of rejected now table
          (request_of (key_of row))
          (some row.source)
        ≡ some (to_record before number_of rejected now row)
  unfolding get_exact_historical_price
  get_exact-find row u m f q =
      let requests = request_of (key_of row) ∷ [] in
      let (records, e, best, covers) =
        get_batch_historical_prices-IsBest before refl_at number_of rejected now table
          (some row.source) false requests in
      let (x, n, s) = covers row (record {
        request = request_of (key_of row);
        row = row;
        asked = inl refl;
        stored = m;
        fits = fits_at row f q;
        answer = refl;
      }) in
      let only = λ (other : ExactPriceRecord) (o : In other records). is_row other (best other o) in
      let first =
        subst (λ z. In z records) (only (to_record before number_of rejected now x) n) n in
      ap first_record e ∙ head-all records (to_record before number_of rejected now row) first only
    where
      asked_one :
          (r : HistoricalRequestTuple)
          → In r (request_of (key_of row) ∷ [])
          → r ≡ request_of (key_of row)
      asked_one r (inl e) = e
      asked_one r (inr m) = elim m [ ]

      is_row :
          (other : ExactPriceRecord)
          → IsBest before refl_at number_of rejected now table
              (some row.source)
              false
              (request_of (key_of row) ∷ [])
              other
          → other ≡ to_record before number_of rejected now row
      is_row other (x, c, e, least) =
          let r = asked_one c.request c.asked in
          let k = key-fits (key_of row) c.row (
            subst
              (λ (t : HistoricalRequestTuple).
                is_candidate rejected now false (some row.source) t c.row ≡ true)
              r c.fits) in
          let found = In-find c.row table u c.stored in
          let same = sym found ∙ ap (λ (j : PriceKey). find j table) k ∙ In-find row table u m in
          let d : c.row ≡ row = cc same in
          e ∙ ap (to_record before number_of rejected now) (c.answer ∙ d)

last_write-key :
    (rejected : List Rejection) (k : PriceKey) (rows : List TokenPriceWrite) (w : TokenPriceWrite)
    → last_write rejected k rows ≡ some w
    → write_key w ≡ k
last_write-key rejected k [] w h = absurd (ground (arith, h))
last_write-key rejected k (v ∷ rows) w h = elim (Option-cases (last_write rejected k rows)) [
  | inr (later, e) ↦ last_write-key rejected k rows w (e ∙ (rw e at h))
  | inl e ↦
      elim (Bool-cases (
        not (is_rejected_price rejected v.chain v.token v.timestamp v.source)
        && eqb (write_key v) k)) [
          | inr skipped ↦ absurd (ground (arith, (rw (e, skipped) at h)))
          | inl taken ↦
              let d : v ≡ w = cc (rw (e, taken) at h) in
              subst (λ u. write_key u ≡ k) d ((eqb_iff (write_key v) k).0 (second _ _ taken))
        ]
]
  where
    second : (a b : Bool) → (a && b) ≡ true → b ≡ true
    second a b t = ground (arith, t)

module _ (before : PriceRow → PriceRow → Bool)
    (refl_at : (a b : PriceRow) → place_of a ≡ place_of b → before a b ≡ true)
    (number_of : Numeric → Number) (numeric_of : Number → Numeric) (rejected : List Rejection)
    (now : ℕ) where
  -- The row that holds a finalized write.
  record Holds (k : PriceKey) (w : TokenPriceWrite) (row : PriceRow) : Type 0 where
    key : key_of row ≡ k
    final : row.finalized ≡ true
    price : row.price ≡ numeric_of w.price
    observed : row.observed_at ≡ w.observed_timestamp

  merged-Holds :
      (k : PriceKey) (w : TokenPriceWrite) (o : Option PriceRow)
      → write_key w ≡ k
      → (o ≡ none)
        ⊎ ((row : PriceRow) × (o ≡ some row) × (key_of row ≡ k) × (row.finalized ≡ false))
      → (row : PriceRow) × (merge finalize_provisional o
            (some (row_of numeric_of rejected now finalize_provisional w))
          ≡ some row)
        × Holds k w row
  unfolding finalized_by
  merged-Holds k w o e (inl absent) = (
    row_of numeric_of rejected now finalize_provisional w,
    rw absent refl,
    record { key = e; final = refl; price = refl; observed = refl },
  )
  merged-Holds k w o e (inr (row, present, key, provisional)) = (
    updated row (row_of numeric_of rejected now finalize_provisional w),
    rw (present, provisional) refl,
    record { key = key; final = refl; price = refl; observed = refl },
  )

  -- On a table with a primary key, after a finalization that succeeds, the exact read of a key and its
  -- source, at any later time, gives the price and the observation time of the key's last accepted
  -- write, where the key had no row or a provisional one, and the observation is not quarantined.
  pub finalize-get_exact :
      (rows : List TokenPriceWrite) (table : List PriceRow) (k : PriceKey) (w : TokenPriceWrite)
      (later : ℕ)
      → IsUnique table
      → (finalize_token_prices numeric_of rejected now rows table).succeeded ≡ true
      → last_write rejected k rows ≡ some w
      → not_rejected rejected (row_of numeric_of rejected now finalize_provisional w) ≡ true
      → (find k table ≡ none)
        ⊎ ((row : PriceRow) × (find k table ≡ some row) × (row.finalized ≡ false))
      → (rec : ExactPriceRecord) × (get_exact_historical_price before number_of rejected later
            (finalize_token_prices numeric_of rejected now rows table).table
            (request_of k)
            (some k.source)
          ≡ some rec)
        × (rec.price ≡ number_of (numeric_of w.price))
        × (rec.observed_timestamp ≡ w.observed_timestamp)
  finalize-get_exact rows table k w later u succeeds last clean old =
      let after = (finalize_token_prices numeric_of rejected now rows table).table in
      let e = last_write-key rejected k rows w last in
      let (row, is_merged, h) = merged-Holds k w (find k table) e (old_key old) in
      let found =
        (run-Refines numeric_of rejected now finalizes rows table).0 succeeds k
        ∙ rw last is_merged in
      let (m, key) = find-In k row after found in
      let kept =
        not_rejected-key_of rejected row (row_of numeric_of rejected now finalize_provisional w)
          (key ∙ sym e)
        ∙ clean in
      let read =
        get_exact-find before refl_at number_of rejected later after row
          (finalize-IsUnique numeric_of rejected now rows table u) m h.final kept in
      (
        to_record before number_of rejected later row,
        subst
            (λ (j : PriceKey).
              get_exact_historical_price before number_of rejected later after (request_of j)
                (some j.source)
              ≡ some (to_record before number_of rejected later row))
            key read,
        ap number_of h.price,
        h.observed,
      )
    where
      old_key :
          (find k table ≡ none)
            ⊎ ((row : PriceRow) × (find k table ≡ some row) × (row.finalized ≡ false))
          → (find k table ≡ none)
            ⊎ ((row : PriceRow) × (find k table ≡ some row)
                × (key_of row ≡ k)
                × (row.finalized ≡ false))
      old_key (inl absent) = inl absent
      old_key (inr (row, present, provisional)) =
          inr (row, present, (find-In k row table present).1, provisional)
