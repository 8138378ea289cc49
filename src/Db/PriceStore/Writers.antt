-- ===== src/Db/PriceStore/Writers.antt =====
-- The four writers against a map of rows by key.
use yearn_prices.Common.{
  Bool-cases, List, Option, all, any, ap, arith, false, if◌then◌else◌, inl, inr, keep, map, none,
  not, refl, sym, true, ℕ, ◌∙◌, ◌≡◌, ◌⊎◌,
}
use yearn_prices.Utils.Number.{Number}
use yearn_prices.Utils.Time.{is_today_normalized}
use yearn_prices.Db.Prices.{Numeric, PriceKey, PriceRow, Rejection, TokenPriceWrite, is_positive}
use yearn_prices.Db.PriceStore.{
  InsertMode, Written, and_then, assert_finite_positive_prices, dedupe_token_price_writes,
  finalize_provisional, finalize_token_prices, force, insert_only, insert_provisional_token_prices,
  insert_rows, insert_token_prices, mutable_current_day, row_of, unchanged, write_provisional,
}
use yearn_prices.Db.PriceStore.Tables.{find, merge}
use yearn_prices.Db.PriceStore.Merge.{
  IsDistinct, dedupe-IsDistinct, keep-IsDistinct, last_write, write_at, write_at-dedupe,
  write_at-keep,
}
use yearn_prices.Db.PriceStore.Upserts.{find-upsert_all, new_row}

-- The calls: `insertTokenPrices` without and with `forceUpdate`, and the other two.
pub data Writer : Type 0 where
  inserts forces finalizes provisionally : Writer

module _ (numeric_of : Number → Numeric) (rejected : List Rejection) (now : ℕ) where
  abbrev pub run : Writer → List TokenPriceWrite → List PriceRow → Written
  run inserts rows table = insert_token_prices numeric_of rejected now rows false table
  run forces rows table = insert_token_prices numeric_of rejected now rows true table
  run finalizes rows table = finalize_token_prices numeric_of rejected now rows table
  run provisionally rows table = insert_provisional_token_prices numeric_of rejected now rows table

  -- The mode in which a call writes a row of a time.
  abbrev pub mode_of : Writer → ℕ → InsertMode
  mode_of inserts timestamp =
      if is_today_normalized timestamp now then mutable_current_day else insert_only
  mode_of forces timestamp = force
  mode_of finalizes timestamp = finalize_provisional
  mode_of provisionally timestamp = write_provisional

  -- The row of a key after a call that writes: its old one, merged with its last accepted write.
  abbrev pub merged : Writer → List TokenPriceWrite → List PriceRow → PriceKey → Option PriceRow
  merged w rows table k =
      let mode = mode_of w k.timestamp in
      merge mode (find k table) (new_row numeric_of rejected now mode (last_write rejected k rows))

  -- Every key's row is merged where the call succeeds; where it throws, none is anything but merged
  -- or as before.
  abbrev pub Refines : Writer → List TokenPriceWrite → List PriceRow → Written → Type 0
  Refines w rows table written =
      (written.succeeded ≡ true → (k : PriceKey) → find k written.table ≡ merged w rows table k)
      × ((k : PriceKey)
          → (find k written.table ≡ merged w rows table k) ⊎ (find k written.table ≡ find k table))

  Refines-unchanged :
      (w : Writer) (rows : List TokenPriceWrite) (table : List PriceRow)
      → Refines w rows table (unchanged numeric_of rejected now false table)
  Refines-unchanged w rows table = ((λ e. absurd (ground (arith, e))), λ k. inr refl)

  -- A statement with distinct rows.
  insert_rows-cases :
      (mode : InsertMode) (writes : List TokenPriceWrite) (table : List PriceRow)
      → IsDistinct writes
      → ((insert_rows numeric_of rejected now mode writes table).succeeded ≡ false)
          × ((insert_rows numeric_of rejected now mode writes table).table ≡ table)
        ⊎ ((insert_rows numeric_of rejected now mode writes table).succeeded ≡ true)
          × ((k : PriceKey)
              → find k (insert_rows numeric_of rejected now mode writes table).table
                ≡ merge mode
                    (find k table)
                    (new_row numeric_of rejected now mode (write_at k writes)))
  unfolding insert_rows
  insert_rows-cases mode writes table h =
      elim (Bool-cases (
        all (λ (row : PriceRow). is_positive row.price)
          (map (row_of numeric_of rejected now mode) writes))) [
            | inl good ↦ inr (
              rw good refl,
              λ k. rw good (find-upsert_all numeric_of rejected now mode k writes table h),
            )
            | inr bad ↦ inl (rw bad refl, rw bad refl)
          ]

  statement-Refines :
      (w : Writer) (mode : InsertMode) (rows : List TokenPriceWrite) (table : List PriceRow)
      → ((t : ℕ) → mode_of w t ≡ mode)
      → Refines w rows table
          (insert_rows numeric_of rejected now mode (dedupe_token_price_writes rejected rows) table)
  statement-Refines w mode rows table same =
      elim (insert_rows-cases mode (dedupe_token_price_writes rejected rows) table
        (dedupe-IsDistinct rejected rows)) [
          | inl (failed, kept) ↦
              ((λ e. absurd (ground (arith, sym failed ∙ e))), λ k. inr (ap (find k) kept))
          | inr (done, all_merged) ↦
              let merges = λ (k : PriceKey). all_merged k ∙ at_key k in
              ((λ e. merges), λ k. inl (merges k))
        ]
    where
      at_key :
          (k : PriceKey)
          → merge mode (find k table) (
              new_row numeric_of rejected now mode
                (write_at k (dedupe_token_price_writes rejected rows)))
            ≡ merged w rows table k
      at_key k = rw (same k.timestamp, write_at-dedupe rejected k rows) refl

  module _ (rows : List TokenPriceWrite) (table : List PriceRow) where
    abbrev immutable_rows : List TokenPriceWrite
    immutable_rows =
        keep (λ row. not (is_today_normalized row.timestamp now))
          (dedupe_token_price_writes rejected rows)

    abbrev mutable_rows : List TokenPriceWrite
    mutable_rows =
        keep (λ row. is_today_normalized row.timestamp now)
          (dedupe_token_price_writes rejected rows)

    -- The first statement's write of a key, and the second's.
    immutable_at :
        (k : PriceKey)
        → write_at k immutable_rows
          ≡ (if not (is_today_normalized k.timestamp now) then last_write rejected k rows else none)
    immutable_at k =
        write_at-keep (λ t. not (is_today_normalized t now)) k
          (dedupe_token_price_writes rejected rows)
        ∙ rw (write_at-dedupe rejected k rows) refl

    mutable_at :
        (k : PriceKey)
        → write_at k mutable_rows
          ≡ (if is_today_normalized k.timestamp now then last_write rejected k rows else none)
    mutable_at k =
        write_at-keep (λ t. is_today_normalized t now) k (dedupe_token_price_writes rejected rows)
        ∙ rw (write_at-dedupe rejected k rows) refl

    after_first :
        (k : PriceKey)
        → (is_today_normalized k.timestamp now ≡ false)
            × (merge insert_only
                  (find k table)
                  (new_row numeric_of rejected now insert_only (write_at k immutable_rows))
                ≡ merged inserts rows table k)
          ⊎ (is_today_normalized k.timestamp now ≡ true)
            × (merge insert_only
                  (find k table)
                  (new_row numeric_of rejected now insert_only (write_at k immutable_rows))
                ≡ find k table)
    after_first k = elim (Bool-cases (is_today_normalized k.timestamp now)) [
      | inl today ↦ inr (today, rw (immutable_at k, today) refl)
      | inr other ↦ inl (other, rw (immutable_at k, other) refl)
    ]

    after_second :
        (k : PriceKey) (o : Option PriceRow)
        → (is_today_normalized k.timestamp now ≡ false)
            × (merge mutable_current_day o
                  (new_row numeric_of rejected now mutable_current_day (write_at k mutable_rows))
                ≡ o)
          ⊎ (is_today_normalized k.timestamp now ≡ true)
            × ((o ≡ find k table)
                → merge mutable_current_day o
                    (new_row numeric_of rejected now mutable_current_day (write_at k mutable_rows))
                  ≡ merged inserts rows table k)
    after_second k o = elim (Bool-cases (is_today_normalized k.timestamp now)) [
      | inl today ↦ inr (today, λ e. rw (e, mutable_at k, today) refl)
      | inr other ↦ inl (other, rw (mutable_at k, other) refl)
    ]

    both :
        (k : PriceKey) (o p : Option PriceRow)
        → o
          ≡ merge insert_only
              (find k table)
              (new_row numeric_of rejected now insert_only (write_at k immutable_rows))
        → p
          ≡ merge mutable_current_day o
              (new_row numeric_of rejected now mutable_current_day (write_at k mutable_rows))
        → p ≡ merged inserts rows table k
    both k o p e d = elim (after_first k) [
      | inl (other, first) ↦ elim (after_second k o) [
        | inl (_, second) ↦ d ∙ second ∙ e ∙ first
        | inr (today, _) ↦ absurd (ground (arith, sym other ∙ today))
      ]
      | inr (today, first) ↦ elim (after_second k o) [
        | inl (other, _) ↦ absurd (ground (arith, sym other ∙ today))
        | inr (_, second) ↦ d ∙ second (e ∙ first)
      ]
    ]

    two_statements-Refines : Refines inserts rows table (
        and_then numeric_of rejected now
          (insert_rows numeric_of rejected now insert_only immutable_rows table)
          (insert_rows numeric_of rejected now mutable_current_day mutable_rows))
    two_statements-Refines =
        let distinct = dedupe-IsDistinct rejected rows in
        let first_table =
          (insert_rows numeric_of rejected now insert_only immutable_rows table).table in
        elim (insert_rows-cases insert_only immutable_rows table
          (keep-IsDistinct (λ t. not (is_today_normalized t now)) _ distinct)) [
            | inl (failed, kept) ↦
                rw failed ((λ e. absurd (ground (arith, e))), λ k. inr (ap (find k) kept))
            | inr (done, first) ↦
                rw done
                  (elim (insert_rows-cases mutable_current_day mutable_rows first_table
                    (keep-IsDistinct (λ t. is_today_normalized t now) _ distinct)) [
                      | inl (failed, kept) ↦ (
                        (λ e. absurd (ground (arith, sym failed ∙ e))),
                        λ k. elim (after_first k) [
                          | inl (_, merges) ↦ inl (ap (find k) kept ∙ first k ∙ merges)
                          | inr (_, stays) ↦ inr (ap (find k) kept ∙ first k ∙ stays)
                        ],
                      )
                      | inr (_, second) ↦
                          let merges = λ (k : PriceKey). both k _ _ (first k) (second k) in
                          ((λ e. merges), λ k. inl (merges k))
                    ])
          ]

  -- A call of a writer is a map update: where it succeeds, each key's row is its old row merged, in
  -- the mode of the writer and of the key's day, with the last write of the key that is not of a
  -- quarantined observation; where it throws, each key's row is so merged or as before.
  pub run-Refines :
      (w : Writer) (rows : List TokenPriceWrite) (table : List PriceRow)
      → Refines w rows table (run w rows table)
  unfolding insert_token_prices finalize_token_prices insert_provisional_token_prices
  run-Refines inserts rows table =
      elim (Bool-cases (assert_finite_positive_prices (dedupe_token_price_writes rejected rows))) [
        | inl valid ↦ rw valid (two_statements-Refines rows table)
        | inr invalid ↦ rw invalid (Refines-unchanged inserts rows table)
      ]
  run-Refines forces rows table =
      elim (Bool-cases (assert_finite_positive_prices (dedupe_token_price_writes rejected rows))) [
        | inl valid ↦ rw valid (statement-Refines forces force rows table (λ t. refl))
        | inr invalid ↦ rw invalid (Refines-unchanged forces rows table)
      ]
  run-Refines finalizes rows table =
      elim (Bool-cases
        (any (λ (row : TokenPriceWrite). is_today_normalized row.timestamp now) rows)) [
          | inl early ↦ rw early (Refines-unchanged finalizes rows table)
          | inr closed ↦
              rw closed
                (elim (Bool-cases
                  (assert_finite_positive_prices (dedupe_token_price_writes rejected rows))) [
                    | inl valid ↦
                        rw valid
                          (statement-Refines finalizes finalize_provisional rows table (λ t. refl))
                    | inr invalid ↦ rw invalid (Refines-unchanged finalizes rows table)
                  ])
        ]
  run-Refines provisionally rows table =
      elim (Bool-cases (assert_finite_positive_prices (dedupe_token_price_writes rejected rows))) [
        | inl valid ↦
            rw valid (statement-Refines provisionally write_provisional rows table (λ t. refl))
        | inr invalid ↦ rw invalid (Refines-unchanged provisionally rows table)
      ]
