-- ===== src/Db/RepairQueue/Workers/Growth.antt =====
-- Claims and new targets, which add leases and rows.
use Prim.Native.String.{String}
use yearn_prices.Db.RepairQueue.Workers.Sound.{IsSoundRow-of_no_lease}
use yearn_prices.Db.RepairQueue.Leases.Settlements.{lease_key}
use yearn_prices.Db.RepairQueue.{RepairTarget}
use yearn_prices.Common.{
  All, All-In, All-implies, Bool-cases, In, In-append_left, In-append_right, List, [], ap, arith,
  inl, inr, is_some, refl, sym, true, ℕ, ◌++◌, ◌∙◌, ◌∷◌, ◌≡◌, ◌≢◌, ◌⊎◌,
}
use yearn_prices.Utils.Text.{text_eq}
use yearn_prices.Db.RepairQueue.Statements.{
  QueueRow, RepairLease, fresh_row, is_reopenable, key_beq, row_key, upsert_target, upsert_targets,
}
use yearn_prices.Db.RepairQueue.Leases.{is_due, lease_of}
use yearn_prices.Db.RepairQueue.Leases.Keys.{HasPrimaryKey, key_beq_iff, row-eq_of_key}
use yearn_prices.Db.RepairQueue.Leases.Claims.{IsClaimed, IsLeaseOf}
use yearn_prices.Db.RepairQueue.Workers.{HasOneLease, IsFresh, IsSoundRow}

module _ {A : Type 0} where
  In-append : (a : A) (xs ys : List A) → In a (xs ++ ys) → In a xs ⊎ In a ys
  In-append a [] ys m = inr m
  In-append a (x ∷ xs) ys (inl e) = inl (inl e)
  In-append a (x ∷ xs) ys (inr m) = elim (In-append a xs ys m) [
    | inl n ↦ inl (inr n)
    | inr n ↦ inr n
  ]

-- Leases that are added leave the rows sound.
pub IsSoundRow-append :
    (leases issued : List RepairLease) (r : QueueRow)
    → IsSoundRow issued r
    → IsSoundRow (leases ++ issued) r
IsSoundRow-append leases issued r (done, capped, lease) = (
  done,
  capped,
  λ t e.
      let (l, m, k, same, owner, attempts) = lease t e in
      (l, In-append_right l leases issued m, k, same, owner, attempts),
)

due_open : (now : ℕ) (r : QueueRow) → is_due now r ≡ true → is_some r.completed_at ≡ true → ⊥
unfolding is_due
due_open now r due h = ground (arith, due, h)

-- A row that was due is open, so it may carry the new lease.
pub leased-IsSoundRow :
    (now seconds : ℕ) (owner token : String) (leases issued : List RepairLease) (r s : QueueRow)
    → IsClaimed now seconds owner token leases r s
    → IsSoundRow issued r
    → IsSoundRow (leases ++ issued) s
leased-IsSoundRow now seconds owner token leases issued r s (inl e) p =
    rw e (IsSoundRow-append leases issued r p)
leased-IsSoundRow now seconds owner token leases issued r s (inr (due, e, m))
      (done, capped, lease) =
    rw e (
      (λ h. absurd (due_open now r due h)),
      capped,
      λ t same. (
        lease_of owner token r,
        In-append_left _ leases issued m,
        refl,
        ground (arith, same),
        refl,
        refl,
      ),
    )

pub claimed_key :
    (now seconds : ℕ) (owner token : String) (leases : List RepairLease) (r s : QueueRow)
    → IsClaimed now seconds owner token leases r s
    → row_key s ≡ row_key r
claimed_key now seconds owner token leases r s (inl e) = ap row_key e
claimed_key now seconds owner token leases r s (inr (due, e, m)) = ap row_key e

-- Leases of one claim differ in their rows, and from all earlier ones in their token.
pub claim-HasOneLease :
    (now seconds : ℕ) (owner token : String) (rows rows' : List QueueRow)
    (leases issued : List RepairLease)
    → HasPrimaryKey rows
    → All (IsLeaseOf now seconds owner token rows rows') leases
    → IsFresh token issued
    → HasOneLease issued
    → HasOneLease (leases ++ issued)
claim-HasOneLease now seconds owner token rows rows' leases issued u given fresh single l k m n
      same_key same_token =
    elim (In-append l leases issued m) [
      | inl m' ↦ elim (In-append k leases issued n) [
        | inl n' ↦ both_new (All-In _ leases given m') (All-In _ leases given n')
        | inr n' ↦ absurd (
            All-In (λ x. x.lease_token ≢ token) issued fresh n'
              (sym same_token ∙ new_token l (All-In _ leases given m')))
      ]
      | inr m' ↦ elim (In-append k leases issued n) [
        | inl n' ↦ absurd (
            All-In (λ x. x.lease_token ≢ token) issued fresh m'
              (same_token ∙ new_token k (All-In _ leases given n')))
        | inr n' ↦ single l k m' n' same_key same_token
      ]
    ]
  where
    new_token :
        (x : RepairLease) → IsLeaseOf now seconds owner token rows rows' x → x.lease_token ≡ token
    new_token x (r, listed, due, e, carried) = ap (λ y. y.lease_token) e

    both_new :
        IsLeaseOf now seconds owner token rows rows' l
        → IsLeaseOf now seconds owner token rows rows' k
        → l ≡ k
    both_new (r, listed, due, e, carried) (q, listed', due', e', carried') =
        let same : r ≡ q =
          row-eq_of_key rows r q u listed listed'
            (sym (ap lease_key e) ∙ same_key ∙ ap lease_key e') in
        e ∙ ap (lease_of owner token) same ∙ sym e'

-- A target that is written makes its row anew or leaves it.
upsert_target-All :
    (P : QueueRow → Type 0) (now : ℕ) (t : RepairTarget) (rows : List QueueRow)
    → P (fresh_row now t)
    → All P rows
    → All P (upsert_target now t rows).0
unfolding upsert_target
upsert_target-All P now t [] f h = (f, tt)
upsert_target-All P now t (r ∷ rows) f (p, h) =
    elim (Bool-cases (key_beq (row_key r) (t.chain_id, t.token, t.timestamp))) [
      | inl same ↦ elim (Bool-cases (is_reopenable r)) [
        | inl again ↦ rw (same, again) (f, h)
        | inr kept ↦ rw (same, kept) (p, h)
      ]
      | inr other ↦ rw other (p, upsert_target-All P now t rows f h)
    ]

upsert_target-HasPrimaryKey :
    (now : ℕ) (t : RepairTarget) (rows : List QueueRow)
    → HasPrimaryKey rows
    → HasPrimaryKey (upsert_target now t rows).0
unfolding upsert_target
upsert_target-HasPrimaryKey now t [] u = (tt, tt)
upsert_target-HasPrimaryKey now t (r ∷ rows) (p, u) =
    elim (Bool-cases (key_beq (row_key r) (t.chain_id, t.token, t.timestamp))) [
      | inl same ↦ elim (Bool-cases (is_reopenable r)) [
        | inl again ↦
            rw (same, again)
              (
                All-implies _ _ rows
                    (λ s ne e.
                      ne ((key_beq_iff (row_key r) (row_key (fresh_row now t))).0 same ∙ e))
                    p,
                u,
              )
        | inr kept ↦ rw (same, kept) (p, u)
      ]
      | inr other ↦ rw other (
        upsert_target-All (λ s. row_key r ≢ row_key s) now t rows
            (λ e. cc (other, (key_beq_iff (row_key r) (row_key (fresh_row now t))).1 e)) p,
        upsert_target-HasPrimaryKey now t rows u,
      )
    ]

pub upsert_targets-keeps :
    (issued : List RepairLease) (now : ℕ) (ts : List RepairTarget) (rows : List QueueRow)
    → HasPrimaryKey rows
    → All (IsSoundRow issued) rows
    → HasPrimaryKey (upsert_targets now ts rows).0
      × All (IsSoundRow issued) (upsert_targets now ts rows).0
unfolding upsert_targets
upsert_targets-keeps issued now [] rows u h = (u, h)
upsert_targets-keeps issued now (t ∷ ts) rows u h =
    upsert_targets-keeps issued now ts (upsert_target now t rows).0
      (upsert_target-HasPrimaryKey now t rows u)
      (upsert_target-All (IsSoundRow issued) now t rows
        (IsSoundRow-of_no_lease issued (fresh_row now t) refl (λ e k. cc)) h)
