-- ===== src/Db/RepairQueue/Workers.antt =====
-- The queue under any interleaving of enqueuers, workers and writers of prices: every step is one
-- statement, and a worker settles only by a lease that it was given.
pub mod Sound
pub mod Growth
pub mod Reachable
use Prim.Native.String.{String}
use yearn_prices.Common.{All, In, List, Option, is_some, none, some, true, ℕ, ◌++◌, ◌<◌, ◌≡◌, ◌≢◌}
use yearn_prices.Db.Prices.{PriceRow, Rejection}
use yearn_prices.Db.RepairQueue.{RepairOutcome, RepairTarget, invalid, max_invalid_attempts}
use yearn_prices.Db.RepairQueue.Statements.{
  Database, QueueRow, RepairLease, enqueue_repair_targets, row_key,
}
use yearn_prices.Db.RepairQueue.Leases.{
  claim_repair_queue, release_repair_lease, settle_repair_failure, settle_repair_success,
}
use yearn_prices.Db.RepairQueue.Leases.Keys.{HasPrimaryKey}
use yearn_prices.Db.RepairQueue.Leases.Settlements.{lease_key}

pub record System : Type 0 where
  pub database : Database
  pub issued : List RepairLease

abbrev pub with_queue : System → List QueueRow → System
with_queue s rows = record s { database = record (s.database) { queue = rows } }

-- No lease was given out with the token: `crypto.randomUUID` repeats none.
abbrev pub IsFresh : String → List RepairLease → Type 0
IsFresh token issued = All (λ l. l.lease_token ≢ token) issued

pub data Step : System → System → Type 0 where
  enqueue :
      (s : System) (now : ℕ) (targets : List RepairTarget) (db : Database) (n : ℕ)
      → enqueue_repair_targets now targets s.database ≡ some (db, n)
      → Step s (record s { database = db })
  claim :
      (s : System) (now limit : ℕ) (owner : String) (seconds : ℕ) (token : String)
      (rows : List QueueRow) (leases : List RepairLease)
      → IsFresh token s.issued
      → claim_repair_queue now limit owner seconds token s.database.queue ≡ some (rows, leases)
      → Step s (record (with_queue s rows) { issued = leases ++ s.issued })
  succeed :
      (s : System) (now : ℕ) (l : RepairLease)
      → In l s.issued
      → Step s (with_queue s (settle_repair_success now l s.database).0)
  fail :
      (s : System) (now : ℕ) (l : RepairLease) (outcome : RepairOutcome) (error : Option String)
      → In l s.issued
      → Step s (with_queue s (settle_repair_failure now l outcome error s.database.queue).0)
  release :
      (s : System) (now : ℕ) (l : RepairLease)
      → In l s.issued
      → Step s (with_queue s (release_repair_lease now l s.database.queue).0)
  store_prices :
      (s : System) (prices : List PriceRow) (rejected : List Rejection)
      → Step s (record s {
        database = record (s.database) { token_prices = prices; rejected = rejected };
      })

pub data Reach (s : System) : System → Type 0 where
  here : Reach s s
  next : {t u : System} → Reach s t → Step t u → Reach s u

-- What holds of every row.
abbrev pub IsSoundRow : List RepairLease → QueueRow → Type 0
IsSoundRow issued r =
    (is_some r.completed_at ≡ true → r.lease_token ≡ none)
    × (r.last_outcome ≡ some invalid → r.completed_at ≡ none → r.attempts < max_invalid_attempts)
    × ((t : String)
        → r.lease_token ≡ some t
        → (l : RepairLease) × In l issued
          × (lease_key l ≡ row_key r)
          × (l.lease_token ≡ t)
          × (r.lease_owner ≡ some l.lease_owner)
          × (l.attempts ≡ r.attempts))

-- No two leases of one row have the same token.
abbrev pub HasOneLease : List RepairLease → Type 0
HasOneLease issued =
    (l k : RepairLease)
    → In l issued
    → In k issued
    → lease_key l ≡ lease_key k
    → l.lease_token ≡ k.lease_token
    → l ≡ k

pub record IsConsistent (s : System) : Type 0 where
  pub keyed : HasPrimaryKey s.database.queue
  pub sound : All (IsSoundRow s.issued) s.database.queue
  pub single : HasOneLease s.issued
