-- ===== src/Routes/ReadThrough/Stored.antt =====
-- What is stored of the records that are served.
use yearn_prices.Common.{
  Bool, Bool-cases, In, In-keep, List, Option, [], ap, arith, if◌then◌else◌, inl, inr, keep, none,
  not, refl, some, subst, sym, true, ℕ, ◌∙◌, ◌∷◌, ◌≡◌, ◌⊎◌,
}
use yearn_prices.Utils.Number.{Number}
use yearn_prices.Utils.Text.{text_eq}
use yearn_prices.Db.Prices.{Numeric, PriceKey, PriceRow, Rejection, TokenPriceWrite, write_key}
use yearn_prices.Db.PriceReads.{ExactPriceRecord}
use yearn_prices.Db.PriceStore.{
  InsertMode, Written, and_then, finalize_provisional, finalized_by, row_of, write_provisional,
}
use yearn_prices.Db.PriceStore.Tables.{find, merge}
use yearn_prices.Db.PriceStore.Merge.{last_write}
use yearn_prices.Db.PriceStore.Upserts.{new_row}
use yearn_prices.Db.PriceStore.Writers.{Writer, finalizes, mode_of, provisionally, run, run-Refines}
use yearn_prices.Db.PriceStore.Final.{Reach, Step, call, here, next}
use yearn_prices.Routes.ReadThrough.{Served, Upstream}
use yearn_prices.Routes.ReadThrough.Columns.{Protects, last_write-In, merge_cases}
use yearn_prices.Routes.ReadThrough.Run.{is_closed_write, persist, writes_of}

-- The place of a record in the table.
abbrev pub record_place : ExactPriceRecord → PriceKey
record_place row = record {
  chain = row.chain;
  token = row.token;
  timestamp = row.timestamp;
  source = row.source;
}

module _ (numeric_of : Number → Numeric) (rejected : List Rejection) (now : ℕ)
    (upstream : Upstream) where
  abbrev provisional_writes : List Served → List TokenPriceWrite
  provisional_writes served = writes_of (keep (λ s. not (is_closed_write s)) served)

  abbrev closed_writes : List Served → List TokenPriceWrite
  closed_writes served = writes_of (keep is_closed_write served)

  after :
      {t : List PriceRow} (first : Written) (rest : List PriceRow → Written)
      → Reach numeric_of t first.table
      → Step numeric_of first.table (rest first.table).table
      → Reach numeric_of t (and_then numeric_of rejected now first rest).table
  after first rest r step = elim (Bool-cases (first.succeeded)) [
    | inl done ↦ rw done (next r step)
    | inr failed ↦ rw failed r
  ]

  -- The writes are calls of writers that do not force.
  pub persist-Reach :
      (served : List Served) (table : List PriceRow)
      → Reach numeric_of table (persist numeric_of rejected now upstream served table)
  unfolding persist
  persist-Reach served table =
      let first = run numeric_of rejected now provisionally (provisional_writes served) table in
      after first (run numeric_of rejected now finalizes (closed_writes served))
        (next here (call rejected now provisionally (provisional_writes served) table (λ e. cc)))
        (call rejected now finalizes (closed_writes served) first.table (λ e. cc))

  -- A write of a record.
  abbrev IsWriteOf : ExactPriceRecord → TokenPriceWrite → Type 0
  IsWriteOf price w =
      (write_key w ≡ record_place price)
      × (w.price ≡ price.price)
      × (w.observed_timestamp ≡ price.observed_timestamp)

  -- A row is written from a record that was served; a finalized one from a record of a closed day that
  -- the guard has checked.
  pub record IsSource (all_served : List Served) (k : PriceKey) (row : PriceRow) : Type 0 where
    pub source : Served
    pub served : In source all_served
    pub place : record_place source.fetched.price ≡ k
    pub price : row.price ≡ numeric_of source.fetched.price.price
    pub observed : row.observed_at ≡ source.fetched.price.observed_timestamp
    pub final : row.finalized ≡ true → is_closed_write source ≡ true

  writes_of-In :
      (served : List Served) (w : TokenPriceWrite)
      → In w (writes_of served)
      → (s : Served) × In s served × IsWriteOf s.fetched.price w
  writes_of-In [] w m = absurd m
  writes_of-In (s ∷ served) w (inl e) = (
    s,
    inl refl,
    (
      ap write_key e,
      ap (λ (x : TokenPriceWrite). x.price) e,
      ap (λ (x : TokenPriceWrite). x.observed_timestamp) e,
    ),
  )
  writes_of-In (s ∷ served) w (inr m) = let (t, n, h) = writes_of-In served w m in (t, inr n, h)

  -- The row of the key was there, or it is written from a record that was served.
  abbrev WasOrIs : List Served → PriceKey → Option PriceRow → PriceRow → Type 0
  WasOrIs served k o row = (o ≡ some row) ⊎ IsSource served k row

  -- Only closed, checked records of the test are finalized by the mode.
  abbrev FinalOnly : InsertMode → (Served → Bool) → Type 0
  FinalOnly mode test =
      (s : Served) (time : ℕ)
      → test s ≡ true
      → finalized_by mode now time ≡ true
      → is_closed_write s ≡ true

  merged :
      (mode : InsertMode) (test : Served → Bool) (served : List Served) (k : PriceKey)
      (o : Option PriceRow) (row : PriceRow) (last : Option TokenPriceWrite)
      → Protects mode
      → FinalOnly mode test
      → last_write rejected k (writes_of (keep test served)) ≡ last
      → merge mode o (new_row numeric_of rejected now mode last) ≡ some row
      → WasOrIs served k o row
  merged mode test served k o row none h final l e = inl e
  merged mode test served k o row (some w) h final l e =
      elim (merge_cases mode o (row_of numeric_of rejected now mode w) row h e) [
        | inl same ↦ inl same
        | inr (price, observed, finalized) ↦
            let (m, at) = last_write-In rejected k w (writes_of (keep test served)) l in
            let (s, n, is) = writes_of-In (keep test served) w m in
            let (key, given, time) = is in
            let (there, passes) = In-keep test s served n in
            inr (record {
              source = s;
              served = there;
              place = sym key ∙ at;
              price = price ∙ ap numeric_of given;
              observed = observed ∙ time;
              final = λ f. final s w.timestamp passes (sym finalized ∙ f);
            })
      ]

  -- After a writer that keeps the finalized rows.
  stage :
      (writer : Writer) (mode : InsertMode) (test : Served → Bool) (served : List Served)
      (table : List PriceRow) (k : PriceKey) (row : PriceRow)
      → ((time : ℕ) → mode_of numeric_of rejected now writer time ≡ mode)
      → Protects mode
      → FinalOnly mode test
      → find k (run numeric_of rejected now writer (writes_of (keep test served)) table).table
        ≡ some row
      → WasOrIs served k (find k table) row
  stage writer mode test served table k row m h final e =
      let writes = writes_of (keep test served) in
      elim ((run-Refines numeric_of rejected now writer writes table).1 k) [
        | inl merges ↦
            merged mode test served k (find k table) row (last_write rejected k writes) h final refl
              (subst
                (λ x.
                  merge x (find k table)
                    (new_row numeric_of rejected now x (last_write rejected k writes))
                  ≡ some row)
                (m k.timestamp) (sym merges ∙ e))
        | inr stays ↦ inl (sym stays ∙ e)
      ]

  provisional_stage :
      (served : List Served) (table : List PriceRow) (k : PriceKey) (row : PriceRow)
      → find k (run numeric_of rejected now provisionally (provisional_writes served) table).table
        ≡ some row
      → WasOrIs served k (find k table) row
  unfolding finalized_by
  provisional_stage served table k row e =
      stage provisionally write_provisional (λ s. not (is_closed_write s)) served table k row
        (λ time. refl) (λ old excluded. refl) (λ s time t f. absurd (ground (arith, f))) e

  final_stage :
      (served : List Served) (table : List PriceRow) (k : PriceKey) (row : PriceRow)
      → find k (run numeric_of rejected now finalizes (closed_writes served) table).table ≡ some row
      → WasOrIs served k (find k table) row
  final_stage served table k row e =
      stage finalizes finalize_provisional is_closed_write served table k row (λ time. refl)
        (λ old excluded. refl) (λ s time t f. t) e

  split :
      (k : PriceKey) (row : PriceRow) (first : Written) (rest : List PriceRow → Written)
      → find k (and_then numeric_of rejected now first rest).table ≡ some row
      → (find k first.table ≡ some row) ⊎ (find k (rest first.table).table ≡ some row)
  split k row first rest e = elim (Bool-cases (first.succeeded)) [
    | inl done ↦
        inr (subst (λ b. find k (if b then rest first.table else first).table ≡ some row) done e)
    | inr failed ↦
        inl (subst (λ b. find k (if b then rest first.table else first).table ≡ some row) failed e)
  ]

  -- A row of the new table was there, or it is written from a record that was served.
  pub persist-IsSource :
      (served : List Served) (table : List PriceRow) (k : PriceKey) (row : PriceRow)
      → find k (persist numeric_of rejected now upstream served table) ≡ some row
      → (find k table ≡ some row) ⊎ IsSource served k row
  unfolding persist
  persist-IsSource served table k row e =
      let first = run numeric_of rejected now provisionally (provisional_writes served) table in
      elim (split k row first (run numeric_of rejected now finalizes (closed_writes served)) e) [
        | inl kept ↦ provisional_stage served table k row kept
        | inr final ↦ elim (final_stage served first.table k row final) [
          | inl kept ↦ provisional_stage served table k row kept
          | inr source ↦ inr source
        ]
      ]
