-- ===== src/Backfill/Finalize/Retries.antt =====
-- The attempts at the lock.
use yearn_prices.Common.{ℕ, ◌+◌, ◌<◌, ◌≡◌, ◌≤◌}
use yearn_prices.Utils.Number.{Number}
use yearn_prices.Backfill.Finalize.{
  LockAttempt, BatchOutcome, acquired, committed, endless, failed, lock_error, lock_timeout,
}

-- All attempts from one number on and before another met a held lock.
abbrev pub TimedOut : (ℕ → LockAttempt) → ℕ → ℕ → Type 0
TimedOut attempt first end = (i : ℕ) → first ≤ i → i < end → attempt i ≡ lock_timeout

-- What an outcome says of the attempts, from a number of retries on, with a number of them left.
abbrev pub HasRetried : (ℕ → LockAttempt) → ℕ → ℕ → BatchOutcome → Type 0
HasRetried attempt retries left (committed tables results n) =
    (retries ≤ n) × (n ≤ retries + left) × (attempt n ≡ acquired) × TimedOut attempt retries n
HasRetried attempt retries left (lock_error n) =
    (n ≡ retries + left + 1) × TimedOut attempt retries n
HasRetried attempt retries left failed = Unit
HasRetried attempt retries left endless = Unit
