-- ===== src/Routes/ReadThrough/Serves.antt =====
-- The answer of a read through and the table after it.
use yearn_prices.Common.{
  All, All-In, All-implies, Bool, Bool-cases, In, In-append_left, In-append_right, In-keep, List,
  Option, [], any, any-witness, ap, append-In, arith, eqb, eqb_iff, false, if◌then◌else◌, inl, inr,
  keep, keep-In, length, nat_eq, none, not, option_eq, pair_eq, refl, some, string_eq, sym, true, ℕ,
  ◌&&◌, ◌==◌, ◌∙◌, ◌≡◌, ◌≤◌, ◌⊎◌,
}
use yearn_prices.Utils.Number.{Number}
use yearn_prices.Utils.Text.{text_eq}
use yearn_prices.Utils.Validation.{HistoricalRequestTuple}
use yearn_prices.Db.Prices.{Numeric, PriceKey, PriceRow, PriceSource, Rejection, price_key_eq}
use yearn_prices.Db.PriceReads.{ExactPriceRecord}
use yearn_prices.Db.PriceStore.Tables.{find}
use yearn_prices.Db.PriceStore.Final.{Keeps, Reach-Keeps}
use yearn_prices.Routes.ReadThrough.{
  ExactKey, Fetched, Served, Targets, TokenKey, Upstream, closed_targets, collect_targets,
  fallback_targets, is_missing, max_guarded_records, record_key, stored_by_key,
}
use yearn_prices.Routes.ReadThrough.Run.{
  ReadThroughResult, closed_prices, fallback_prices, fetched_records, finish, is_closed_write,
  judge, known_curve_lps, live_prices, prices_of, read_through, verdict,
}
use yearn_prices.Routes.ReadThrough.Collected.{
  IsFetched, all_targets-IsCollected, candidates-IsFetched,
}
use yearn_prices.Routes.ReadThrough.Judged.{IsJudged, judge-IsJudged, judge-guarded_count}
use yearn_prices.Routes.ReadThrough.Stored.{persist-IsSource, persist-Reach, record_place}
use yearn_prices.Routes.ReadThrough.Pools.{IsAsked, is_pool, is_pool-is_known_lp, tally}
use yearn_prices.Routes.ReadThrough.Quoted.{IsQuoted, fetched_records-IsQuoted}
use yearn_prices.Routes.ReadThrough.Members.{
  All-both, All-prices_of, All-self, In-prices_of, both, guarded_tally,
}

module _ (numeric_of : Number → Numeric) (rejected : List Rejection) (now : ℕ) (upstream : Upstream)
    (requests : List HistoricalRequestTuple) (rows : List ExactPriceRecord)
    (table : List PriceRow) where
  abbrev pub is_pool_row : ExactPriceRecord → Bool
  is_pool_row = is_pool numeric_of rejected now upstream requests table

  -- A row that is not given: it stands at the place of a request, with a quote of an upstream, and the
  -- guard finds it plausible where it is of a Curve pool.
  pub record IsServable (row : ExactPriceRecord) : Type 0 where
    pub closed : Bool
    pub fetched :
        IsFetched now (stored_by_key [] rows) requests (record { price = row; closed = closed })
    pub quoted : IsQuoted upstream row
    pub plausible : is_pool_row row ≡ true → verdict numeric_of rejected now upstream row ≡ true

  abbrev IsGiven : Fetched → Type 0
  IsGiven f = IsFetched now (stored_by_key [] rows) requests f × IsQuoted upstream f.price

  -- The rows of an answer: each is a given row or a new one, all the new ones are there, and no place
  -- that had a row has none.
  pub record Serves (answer : List ExactPriceRecord) : Type 0 where
    pub new : List ExactPriceRecord
    pub servable : All IsServable new
    pub few : tally is_pool_row new ≤ max_guarded_records
    pub origin : (row : ExactPriceRecord) → In row answer → In row rows ⊎ In row new
    pub included : (row : ExactPriceRecord) → In row new → In row answer
    pub kept :
        (row : ExactPriceRecord)
        → In row rows
        → (other : ExactPriceRecord) × In other answer × (record_key other ≡ record_key row)

  -- The record is at the place of a closed day that was asked for and had no row, and the guard has
  -- found its price plausible.
  pub record IsFinalAnswer (price : ExactPriceRecord) : Type 0 where
    pub request : HistoricalRequestTuple
    pub asked : In request requests
    pub missing : is_missing now (stored_by_key [] rows) request ≡ true
    pub place :
        (price.chain ≡ request.chain)
        × (price.token ≡ request.token)
        × (price.timestamp ≡ request.timestamp)
    pub plausible : verdict numeric_of rejected now upstream price ≡ true

  -- The row has the key, the price and the time of observation of a row of the answer.
  pub record IsWritten (answer : List ExactPriceRecord) (k : PriceKey) (row : PriceRow)
      : Type 0 where
    pub written : ExactPriceRecord
    pub served : In written answer
    pub place : record_place written ≡ k
    pub price : row.price ≡ numeric_of written.price
    pub observed : row.observed_at ≡ written.observed_timestamp
    pub final : row.finalized ≡ true → IsFinalAnswer written

  pub record Stores (result : ReadThroughResult) : Type 0 where
    pub keeps :
        (k : PriceKey) (row : PriceRow)
        → find k table ≡ some row
        → Keeps numeric_of row (find k result.table)
    pub origin :
        (k : PriceKey) (row : PriceRow)
        → find k result.table ≡ some row
        → (find k table ≡ some row) ⊎ IsWritten result.rows k row

  unchanged-Serves : Serves rows
  unchanged-Serves = record {
    new = [];
    servable = tt;
    few = omega arith;
    origin = λ row m. inl m;
    included = λ row m. absurd m;
    kept = λ row m. (row, m, refl);
  }

  unchanged-Stores : (result : ReadThroughResult) → result.table ≡ table → Stores result
  unchanged-Stores result same = record {
    keeps = λ k row e. rw (same, e) (λ f. refl);
    origin = λ k row e. inl (ap (find k) (sym same) ∙ e);
  }

  module _ (fetched : List Fetched) (failed : Bool) (h : All IsGiven fetched) where
    abbrev lps : List TokenKey
    lps = known_curve_lps numeric_of rejected now upstream table fetched

    abbrev served : List Served
    served = judge numeric_of rejected now upstream lps 0 fetched

    abbrev prices : List ExactPriceRecord
    prices = prices_of served

    abbrev is_replaced : ExactPriceRecord → Bool
    is_replaced row = any (λ p. eqb (record_key p) (record_key row)) prices

    abbrev left : List ExactPriceRecord
    left = keep (λ row. not (is_replaced row)) rows

    served-IsJudged :
        All (IsJudged numeric_of rejected now upstream (λ f. In f fetched × IsGiven f) lps) served
    served-IsJudged =
        judge-IsJudged numeric_of rejected now upstream _ lps 0 fetched (All-self _ fetched h)

    asked :
        All
          (λ (f : Fetched). IsAsked numeric_of rejected now upstream requests table f.price)
          fetched
    asked = All-implies _ _ fetched (λ f given. let (r, m, c, t, _) = given.0 in (r, m, c, t)) h

    -- A pool's record is among the checked ones.
    is_checked :
        (s : Served)
        → IsJudged numeric_of rejected now upstream (λ f. In f fetched × IsGiven f) lps s
        → is_pool_row s.fetched.price ≡ true
        → s.guarded ≡ true
    is_checked s j pool =
        j.checked
        ∙ is_pool-is_known_lp numeric_of rejected now upstream requests table fetched s.fetched
            asked (j.from.0) pool

    finish-Serves : Serves (finish numeric_of rejected now upstream rows fetched failed table).rows
    unfolding finish
    finish-Serves = record {
      new = prices;
      servable = All-prices_of IsServable served (
          All-implies _ _ served
            (λ s j. record {
              closed = s.fetched.closed;
              fetched = j.from.1.0;
              quoted = j.from.1.1;
              plausible = λ pool. j.plausible (is_checked s j pool);
            })
            served-IsJudged);
      few = omega (
        arith,
        guarded_tally is_pool_row served (All-implies _ _ served is_checked served-IsJudged),
        judge-guarded_count numeric_of rejected now upstream (λ f. Unit) lps 0 fetched,
      );
      origin = λ row m. elim (append-In row left prices m) [
        | inl old ↦ inl (In-keep _ row rows old).0
        | inr new ↦ inr new
      ];
      included = λ row m. In-append_right row left prices m;
      kept = λ row m. elim (Bool-cases (is_replaced row)) [
        | inl replaced ↦
            let (other, n, e) =
              any-witness (λ p. eqb (record_key p) (record_key row)) prices replaced in
            (
              other,
              In-append_right other left prices n,
              (eqb_iff (record_key other) (record_key row)).0 e,
            )
        | inr stays ↦
            (row, In-append_left row left prices (keep-In _ row rows m (rw stays refl)), refl)
      ];
    }

    final_answer :
        (s : Served) → In s served → is_closed_write s ≡ true → IsFinalAnswer s.fetched.price
    final_answer s m closed =
        let (c, g) = both s.fetched.closed s.guarded closed in
        let j = All-In _ served served-IsJudged m in
        let (r, n, rc, rt, day) = j.from.1.0 in
        elim day [
          | inl (today, _, _, _) ↦ absurd (ground (arith, sym today ∙ c))
          | inr (_, missing, time) ↦ record {
            request = r;
            asked = n;
            missing = missing;
            place = (rc, rt, time);
            plausible = j.plausible g;
          }
        ]

    finish-Stores : Stores (finish numeric_of rejected now upstream rows fetched failed table)
    unfolding finish
    finish-Stores = record {
      keeps = λ k row e.
          Reach-Keeps numeric_of k row (persist-Reach numeric_of rejected now upstream served table)
            e;
      origin = λ k row e.
          elim (persist-IsSource numeric_of rejected now upstream served table k row e) [
            | inl old ↦ inl old
            | inr is ↦ inr (record {
              written = is.source.fetched.price;
              served =
                  In-append_right is.source.fetched.price left prices
                    (In-prices_of is.source served is.served);
              place = is.place;
              price = is.price;
              observed = is.observed;
              final = λ f. final_answer is.source is.served (is.final f);
            })
          ];
    }

  abbrev stored : List (ExactKey × ExactPriceRecord)
  stored = stored_by_key [] rows

  abbrev collected : Targets
  collected = collect_targets now stored (record { today = []; missing = [] }) requests

  -- Nothing is to be fetched.
  abbrev is_settled : Bool
  is_settled = length collected.today == 0 && length (closed_targets collected) == 0

  answers-IsGiven : All IsGiven (
      fetched_records numeric_of rejected now upstream stored collected
        (live_prices numeric_of rejected now upstream collected).0
        (closed_prices numeric_of rejected now upstream collected).0
        (fallback_prices numeric_of rejected now upstream
          (fallback_targets now collected.today
            (live_prices numeric_of rejected now upstream collected).0)
          (live_prices numeric_of rejected now upstream collected).0).0)
  answers-IsGiven =
      All-both _ _ _
        (candidates-IsFetched now stored requests collected _ _ _
          (all_targets-IsCollected now stored requests))
        (fetched_records-IsQuoted upstream numeric_of rejected now stored requests collected
          (all_targets-IsCollected now stored requests))

  either :
      (P : ReadThroughResult → Type 0) (b : Bool) (x y : ReadThroughResult)
      → P x
      → P y
      → P (if b then x else y)
  either P true x y p q = p
  either P false x y p q = q

  -- A read through, whatever its upstreams give, serves given rows and new ones. A new row carries the
  -- price and the time of a quote that an upstream gave for its token or its place, and it is of a
  -- request's token: of today, at the end of the day, no newer observation of it being stored, or of a
  -- closed day that had no row. One of a Curve pool, that is a token which in every spelling that was
  -- asked for has an accepted Curve price, is served only where the guard finds it plausible, and at most
  -- eight of these are. Where a given row is replaced, its place has another.
  pub read_through-Serves :
      (source : Option PriceSource)
      → Serves (read_through numeric_of rejected now upstream requests rows source table).rows
  unfolding read_through
  read_through-Serves (some source) = unchanged-Serves
  read_through-Serves none =
      either (λ r. Serves r.rows) is_settled _ _ unchanged-Serves
        (finish-Serves _ false answers-IsGiven)

  -- After a read through the table has every row that it had, the finalized ones unchanged. A row that
  -- is new or changed has the key, the price and the time of observation of a row of the answer; and
  -- where it is finalized, that one is of a closed day that was asked for and had no row, and the guard
  -- has found its price plausible.
  pub read_through-Stores :
      (source : Option PriceSource)
      → Stores (read_through numeric_of rejected now upstream requests rows source table)
  unfolding read_through
  read_through-Stores (some source) = unchanged-Stores _ refl
  read_through-Stores none =
      either Stores is_settled _ _ (unchanged-Stores _ refl) (finish-Stores _ _ answers-IsGiven)
