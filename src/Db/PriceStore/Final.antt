-- ===== src/Db/PriceStore/Final.antt =====
-- Rows over any sequence of calls that do not force.
use yearn_prices.Utils.Time.{is_today_normalized}
use yearn_prices.Common.{
  Bool-cases, List, Option, inl, inr, none, refl, some, subst, sym, true, ℕ, ◌∙◌, ◌≡◌, ◌≢◌,
}
use yearn_prices.Utils.Number.{Number}
use yearn_prices.Db.Prices.{Numeric, PriceKey, PriceRow, Rejection, TokenPriceWrite}
use yearn_prices.Db.PriceStore.{
  InsertMode, finalize_provisional, force, insert_only, mutable_current_day, on_conflict,
  write_provisional,
}
use yearn_prices.Db.PriceStore.Tables.{find, merge}
use yearn_prices.Db.PriceStore.Writers.{
  Writer, finalizes, forces, inserts, mode_of, provisionally, run, run-Refines,
}

module _ (numeric_of : Number → Numeric) where
  -- A call at any time, with any quarantine, of any writer but the forced one.
  pub data Step : List PriceRow → List PriceRow → Type 0 where
    call :
        (rejected : List Rejection) (now : ℕ) (w : Writer) (rows : List TokenPriceWrite)
        (table : List PriceRow)
        → w ≢ forces
        → Step table (run numeric_of rejected now w rows table).table

  pub data Reach (s : List PriceRow) : List PriceRow → Type 0 where
    here : Reach s s
    next : {t u : List PriceRow} → Reach s t → Step t u → Reach s u

  -- The key has a row, and it is the given one where that is finalized.
  abbrev pub Keeps : PriceRow → Option PriceRow → Type 0
  Keeps row none = ⊥
  Keeps row (some later) = row.finalized ≡ true → later ≡ row

  on_conflict_kept :
      (mode : InsertMode) (row excluded : PriceRow)
      → mode ≢ force
      → row.finalized ≡ true
      → on_conflict mode row excluded ≡ row
  on_conflict_kept insert_only row excluded m h = refl
  on_conflict_kept force row excluded m h = absurd (m refl)
  on_conflict_kept mutable_current_day row excluded m h = rw h refl
  on_conflict_kept finalize_provisional row excluded m h = rw h refl
  on_conflict_kept write_provisional row excluded m h = rw h refl

  pub merge-Keeps :
      (mode : InsertMode) (row : PriceRow) (new : Option PriceRow)
      → mode ≢ force
      → Keeps row (merge mode (some row) new)
  merge-Keeps mode row none m = λ h. refl
  merge-Keeps mode row (some excluded) m = on_conflict_kept mode row excluded m

  module _ (rejected : List Rejection) (now : ℕ) where
    mode_of-ne-force :
        (w : Writer) (t : ℕ) → w ≢ forces → mode_of numeric_of rejected now w t ≢ force
    mode_of-ne-force inserts t h = elim (Bool-cases (is_today_normalized t now)) [
      | inl today ↦ rw today (λ e. cc)
      | inr other ↦ rw other (λ e. cc)
    ]
    mode_of-ne-force forces t h = absurd (h refl)
    mode_of-ne-force finalizes t h = λ e. cc
    mode_of-ne-force provisionally t h = λ e. cc

  Step-Keeps :
      {t u : List PriceRow} (k : PriceKey) (row : PriceRow)
      → Step t u
      → find k t ≡ some row
      → Keeps row (find k u)
  Step-Keeps k row (call rejected now w rows table free) h =
      elim ((run-Refines numeric_of rejected now w rows table).1 k) [
        | inl merges ↦
            rw (merges, h) (merge-Keeps _ row _ (mode_of-ne-force rejected now w k.timestamp free))
        | inr stays ↦ rw (stays, h) (λ f. refl)
      ]

  pub Keeps-trans :
      (row later : PriceRow) (o : Option PriceRow)
      → (row.finalized ≡ true → later ≡ row)
      → Keeps later o
      → Keeps row o
  Keeps-trans row later none kept h = h
  Keeps-trans row later (some last) kept h =
      λ f. h (subst (λ (r : PriceRow). r.finalized ≡ true) (sym (kept f)) f) ∙ kept f

  Keeps-Step :
      {t u : List PriceRow} (k : PriceKey) (row : PriceRow) (o : Option PriceRow)
      → Step t u
      → find k t ≡ o
      → Keeps row o
      → Keeps row (find k u)
  Keeps-Step k row none step e h = absurd h
  Keeps-Step {t} {u} k row (some later) step e h =
      Keeps-trans row later (find k u) h (Step-Keeps k later step e)

  -- Whatever is written, by however many calls at whatever times, failed ones too: without a forced
  -- one, no row is ever removed, and a finalized row is never changed.
  pub Reach-Keeps :
      {s t : List PriceRow} (k : PriceKey) (row : PriceRow)
      → Reach s t
      → find k s ≡ some row
      → Keeps row (find k t)
  Reach-Keeps k row here h = rw h (λ f. refl)
  Reach-Keeps k row (next r step) h = Keeps-Step k row _ step refl (Reach-Keeps k row r h)
