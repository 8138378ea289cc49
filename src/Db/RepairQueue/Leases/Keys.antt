-- ===== src/Db/RepairQueue/Leases/Keys.antt =====
-- The primary key of the queue's table: rows with one key are one row.
use yearn_prices.Common.{
  All, All-In, All-implies, Bool, Bool-cases, In, List, [], ap, arith, eqb_iff, if◌then◌else◌, inl,
  inr, length, refl, suc, sym, true, ℕ, ◌+◌, ◌||◌, ◌↔◌, ◌∙◌, ◌∷◌, ◌≡◌, ◌≢◌, ◌≤◌,
}
use yearn_prices.Utils.Text.{Text, text_eq}
use yearn_prices.Db.RepairQueue.Statements.{QueueRow, key_beq, row_key}
use yearn_prices.Db.RepairQueue.Leases.{is_among}

pub key_beq_iff : (k j : ℕ × Text × ℕ) → (key_beq k j ≡ true) ↔ (k ≡ j)
key_beq_iff (a, t, s) (b, u, r) = ground (arith, eqb_iff t u)

-- No key is listed twice: the table's primary key.
abbrev pub HasPrimaryKey : List QueueRow → Type 0
HasPrimaryKey [] = Unit
HasPrimaryKey (r ∷ rows) = All (λ s. row_key r ≢ row_key s) rows × HasPrimaryKey rows

-- A relation between the rows of two tables, place by place.
abbrev pub Rowwise : (QueueRow → QueueRow → Type 0) → List QueueRow → List QueueRow → Type 0
Rowwise R [] [] = Unit
Rowwise R [] (s ∷ rows') = ⊥
Rowwise R (r ∷ rows) [] = ⊥
Rowwise R (r ∷ rows) (s ∷ rows') = R r s × Rowwise R rows rows'

abbrev pub count_rows : (QueueRow → Bool) → List QueueRow → ℕ
count_rows test [] = 0
count_rows test (r ∷ rows) = if test r then suc (count_rows test rows) else count_rows test rows

pub row-eq_of_key :
    (rows : List QueueRow) (r s : QueueRow)
    → HasPrimaryKey rows
    → In r rows
    → In s rows
    → row_key r ≡ row_key s
    → r ≡ s
row-eq_of_key [] r s u m n e = absurd m
row-eq_of_key (q ∷ rows) r s (p, u) (inl m) (inl n) e = m ∙ sym n
row-eq_of_key (q ∷ rows) r s (p, u) (inl m) (inr n) e =
    absurd (All-In (λ t. row_key q ≢ row_key t) rows p n (ap row_key (sym m) ∙ e))
row-eq_of_key (q ∷ rows) r s (p, u) (inr m) (inl n) e =
    absurd (All-In (λ t. row_key q ≢ row_key t) rows p m (ap row_key (sym n) ∙ sym e))
row-eq_of_key (q ∷ rows) r s (p, u) (inr m) (inr n) e = row-eq_of_key rows r s u m n e

count_none :
    (k : ℕ × Text × ℕ) (rows : List QueueRow)
    → All (λ s. k ≢ row_key s) rows
    → count_rows (λ s. key_beq k (row_key s)) rows ≡ 0
count_none k [] h = refl
count_none k (r ∷ rows) (p, h) = ground (arith, key_beq_iff k (row_key r), count_none k rows h)

pub count_key :
    (k : ℕ × Text × ℕ) (rows : List QueueRow)
    → HasPrimaryKey rows
    → count_rows (λ s. key_beq k (row_key s)) rows ≤ 1
count_key k [] u = omega arith
count_key k (r ∷ rows) (p, u) = elim (Bool-cases (key_beq k (row_key r))) [
  | inl here ↦ rw here (
      omega (
        arith,
        count_none k rows
            (All-implies _ _ rows (λ s ne e. ne (sym ((key_beq_iff k (row_key r)).0 here) ∙ e)) p),
      ))
  | inr other ↦ rw other (count_key k rows u)
]

count_or :
    (p q : QueueRow → Bool) (rows : List QueueRow)
    → count_rows (λ r. p r || q r) rows ≤ count_rows p rows + count_rows q rows
count_or p q [] = omega arith
count_or p q (r ∷ rows) = ground (arith, count_or p q rows)

count_nothing : (rows : List QueueRow) → count_rows (is_among []) rows ≡ 0
count_nothing [] = refl
count_nothing (r ∷ rows) = count_nothing rows

-- At most as many rows stand among some as there are of them.
pub count_among :
    (due rows : List QueueRow) → HasPrimaryKey rows → count_rows (is_among due) rows ≤ length due
count_among [] rows u = omega (arith, count_nothing rows)
count_among (d ∷ due) rows u = omega (
  arith,
  count_or (λ r. key_beq (row_key d) (row_key r)) (is_among due) rows,
  count_key (row_key d) rows u,
  count_among due rows u,
)

pub Rowwise-implies :
    (R S : QueueRow → QueueRow → Type 0) (rows rows' : List QueueRow)
    → ((r s : QueueRow) → R r s → S r s)
    → Rowwise R rows rows'
    → Rowwise S rows rows'
Rowwise-implies R S [] [] f h = tt
Rowwise-implies R S [] (s ∷ rows') f h = absurd h
Rowwise-implies R S (r ∷ rows) [] f h = absurd h
Rowwise-implies R S (r ∷ rows) (s ∷ rows') f (p, h) = (f r s p, Rowwise-implies R S rows rows' f h)
