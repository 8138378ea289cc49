-- ===== src/Db/RepairQueue/Workers/Sound.antt =====
-- The updates of rows by settlements.
use Prim.Native.String.{String}
use yearn_prices.Db.RepairQueue.Leases.Settlements.{lease_key}
use yearn_prices.Common.{
  All, In, List, Option, [], ap, arith, none, refl, some, str_eq_iff, sym, true, ℕ, ◌<◌, ◌↔◌, ◌∙◌,
  ◌∷◌, ◌≡◌, ◌≢◌,
}
use yearn_prices.Utils.Text.{text_eq}
use yearn_prices.Db.RepairQueue.{RepairOutcome, invalid, max_invalid_attempts}
use yearn_prices.Db.RepairQueue.Statements.{QueueRow, RepairLease, holds, row_key}
use yearn_prices.Db.RepairQueue.Leases.{failed_with, is_held, succeeded, without_lease}
use yearn_prices.Db.RepairQueue.Leases.Keys.{HasPrimaryKey, Rowwise, key_beq_iff}
use yearn_prices.Db.RepairQueue.Workers.{HasOneLease, IsSoundRow}

pub All-Rowwise :
    (P Q : QueueRow → Type 0) (R : QueueRow → QueueRow → Type 0) (rows rows' : List QueueRow)
    → ((r s : QueueRow) → R r s → P r → Q s)
    → All P rows
    → Rowwise R rows rows'
    → All Q rows'
All-Rowwise P Q R [] [] f h w = tt
All-Rowwise P Q R [] (s ∷ rows') f h w = absurd w
All-Rowwise P Q R (r ∷ rows) [] f h w = absurd w
All-Rowwise P Q R (r ∷ rows) (s ∷ rows') f (p, h) (q, w) =
    (f r s q p, All-Rowwise P Q R rows rows' f h w)

pub Rowwise-HasPrimaryKey :
    (R : QueueRow → QueueRow → Type 0) (rows rows' : List QueueRow)
    → ((r s : QueueRow) → R r s → row_key s ≡ row_key r)
    → HasPrimaryKey rows
    → Rowwise R rows rows'
    → HasPrimaryKey rows'
Rowwise-HasPrimaryKey R [] [] f u w = tt
Rowwise-HasPrimaryKey R [] (s ∷ rows') f u w = absurd w
Rowwise-HasPrimaryKey R (r ∷ rows) [] f u w = absurd w
Rowwise-HasPrimaryKey R (r ∷ rows) (s ∷ rows') f (p, u) (q, w) = (
  All-Rowwise (λ t. row_key r ≢ row_key t) (λ t. row_key s ≢ row_key t) R rows rows'
      (λ t t' e ne same. ne (sym (f r s q) ∙ same ∙ f t t' e)) p w,
  Rowwise-HasPrimaryKey R rows rows' f u w,
)

holds_iff : (o : Option String) (t : String) → (holds o t ≡ true) ↔ (o ≡ some t)
holds_iff none t = ground arith
holds_iff (some s) t = ground (arith, str_eq_iff s t)

pub held_token :
    (l : RepairLease) (r : QueueRow)
    → is_held l r ≡ true
    → (r.lease_token ≡ some l.lease_token) × (lease_key l ≡ row_key r)
unfolding is_held
held_token l r h =
    ground (arith, holds_iff r.lease_token l.lease_token, key_beq_iff (row_key r) (lease_key l))

module _ (issued : List RepairLease) where
  -- The lease that a held row carries is the caller's own.
  pub held_attempts :
      (l : RepairLease) (r : QueueRow)
      → HasOneLease issued
      → In l issued
      → IsSoundRow issued r
      → is_held l r ≡ true
      → l.attempts ≡ r.attempts
  held_attempts l r single m (done, capped, lease) h =
      let (token, key) = held_token l r h in
      let (k, n, same_key, same_token, owner, e) = lease l.lease_token token in
      ap (λ x. x.attempts) (single l k m n (key ∙ sym same_key) (sym same_token)) ∙ e

  pub IsSoundRow-of_no_lease :
      (s : QueueRow)
      → s.lease_token ≡ none
      → (s.last_outcome ≡ some invalid → s.completed_at ≡ none → s.attempts < max_invalid_attempts)
      → IsSoundRow issued s
  IsSoundRow-of_no_lease s e capped = ((λ h. e), capped, λ t h. absurd (ground (arith, e, h)))

  pub succeeded-IsSoundRow : (now : ℕ) (r : QueueRow) → IsSoundRow issued (succeeded now r)
  succeeded-IsSoundRow now r = IsSoundRow-of_no_lease (succeeded now r) refl (λ e k. cc)

  pub without_lease-IsSoundRow :
      (now : ℕ) (r : QueueRow) → IsSoundRow issued r → IsSoundRow issued (without_lease now r)
  without_lease-IsSoundRow now r (done, capped, lease) =
      IsSoundRow-of_no_lease (without_lease now r) refl capped

  pub failed_with-IsSoundRow :
      (now : ℕ) (l : RepairLease) (outcome : RepairOutcome) (error : Option String) (r : QueueRow)
      → l.attempts ≡ r.attempts
      → IsSoundRow issued (failed_with now l outcome error r)
  failed_with-IsSoundRow now l outcome error r e =
      IsSoundRow-of_no_lease (failed_with now l outcome error r) refl (λ h k. ground (arith, e))
