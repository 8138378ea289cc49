-- ===== src/Db/RepairQueue/Workers/Reachable.antt =====
-- The steps of the system, and what can be reached by them.
use Prim.Native.String.{String}
use yearn_prices.Db.Prices.{PriceRow, Rejection}
use yearn_prices.Db.RepairQueue.Workers.Growth.{
  claim-HasOneLease, claimed_key, leased-IsSoundRow, upsert_targets-keeps,
}
use yearn_prices.Db.RepairQueue.Leases.Claims.{claim_repair_queue-exclusive}
use yearn_prices.Db.RepairQueue.Leases.Keys.{HasPrimaryKey}
use yearn_prices.Common.{
  All, All-implies, Bool, In, List, Option, Option-cases, [], ap, arith, inl, inr, is_some, keep,
  none, not, refl, some, subst, sym, true, ℕ, ◌++◌, ◌<◌, ◌∙◌, ◌≡◌,
}
use yearn_prices.Utils.Chains.{chain_id_to_name}
use yearn_prices.Db.RepairQueue.{RepairOutcome, RepairTarget, invalid, max_invalid_attempts}
use yearn_prices.Db.RepairQueue.Statements.{
  Database, QueueRow, RepairLease, enqueue_repair_targets, is_finalized, normalize_targets, row_key,
  unique_targets, update_where, upsert_targets,
}
use yearn_prices.Db.RepairQueue.Leases.{
  claim_repair_queue, failed_with, is_held, release_repair_lease, settle_repair_failure,
  settle_repair_success, succeeded, without_lease,
}
use yearn_prices.Db.RepairQueue.Leases.Settlements.{IsUpdated, update_where-IsUpdated}
use yearn_prices.Db.RepairQueue.Workers.{
  IsConsistent, IsFresh, IsSoundRow, Reach, Step, System, claim, enqueue, fail, here, next, release,
  store_prices, succeed, with_queue,
}
use yearn_prices.Db.RepairQueue.Workers.Sound.{
  All-Rowwise, Rowwise-HasPrimaryKey, failed_with-IsSoundRow, held_attempts, held_token,
  succeeded-IsSoundRow, without_lease-IsSoundRow,
}

-- An update of rows by a lease that was issued, which keeps every row's key and its soundness.
update-IsConsistent :
    (s : System) (test : QueueRow → Bool) (change : QueueRow → QueueRow)
    → ((r : QueueRow) → row_key (change r) ≡ row_key r)
    → ((r : QueueRow) → test r ≡ true → IsSoundRow s.issued r → IsSoundRow s.issued (change r))
    → IsConsistent s
    → IsConsistent (with_queue s (update_where test change s.database.queue).0)
update-IsConsistent s test change same f c =
    let w = update_where-IsUpdated test change s.database.queue in
    record {
      keyed =
          Rowwise-HasPrimaryKey (IsUpdated test change) s.database.queue _
            (λ r t u. updated_key r t u) c.keyed w;
      sound =
          All-Rowwise (IsSoundRow s.issued) (IsSoundRow s.issued) (IsUpdated test change)
            s.database.queue _ (λ r t u p. updated_sound r t u p) c.sound w;
      single = c.single;
    }
  where
    updated_key : (r t : QueueRow) → IsUpdated test change r t → row_key t ≡ row_key r
    updated_key r t (inl (miss, e)) = ap row_key e
    updated_key r t (inr (hit, e)) = ap row_key e ∙ same r

    updated_sound :
        (r t : QueueRow) → IsUpdated test change r t → IsSoundRow s.issued r → IsSoundRow s.issued t
    updated_sound r t (inl (miss, e)) p = rw e p
    updated_sound r t (inr (hit, e)) p = rw e (f r hit p)

succeed-IsConsistent :
    (s : System) (now : ℕ) (l : RepairLease)
    → IsConsistent s
    → IsConsistent (with_queue s (settle_repair_success now l s.database).0)
unfolding settle_repair_success
succeed-IsConsistent s now l c = elim (Option-cases (chain_id_to_name l.chain_id)) [
  | inl unknown ↦ rw (unknown, settle_repair_success) c
  | inr (chain, known) ↦
      rw (known, settle_repair_success)
        (update-IsConsistent s _ (succeeded now) (λ r. refl)
          (λ r h p. succeeded-IsSoundRow s.issued now r) c)
]

fail-IsConsistent :
    (s : System) (now : ℕ) (l : RepairLease) (outcome : RepairOutcome) (error : Option String)
    → In l s.issued
    → IsConsistent s
    → IsConsistent (with_queue s (settle_repair_failure now l outcome error s.database.queue).0)
unfolding settle_repair_failure
fail-IsConsistent s now l outcome error m c =
    update-IsConsistent s (is_held l) (failed_with now l outcome error) (λ r. refl)
      (λ r h p.
        failed_with-IsSoundRow s.issued now l outcome error r
          (held_attempts s.issued l r c.single m p h))
      c

release-IsConsistent :
    (s : System) (now : ℕ) (l : RepairLease)
    → IsConsistent s
    → IsConsistent (with_queue s (release_repair_lease now l s.database.queue).0)
unfolding release_repair_lease
release-IsConsistent s now l c =
    update-IsConsistent s (is_held l) (without_lease now) (λ r. refl)
      (λ r h p. without_lease-IsSoundRow s.issued now r p) c

claim-IsConsistent :
    (s : System) (now limit : ℕ) (owner : String) (seconds : ℕ) (token : String)
    (rows : List QueueRow) (leases : List RepairLease)
    → IsFresh token s.issued
    → claim_repair_queue now limit owner seconds token s.database.queue ≡ some (rows, leases)
    → IsConsistent s
    → IsConsistent (record (with_queue s rows) { issued = leases ++ s.issued })
claim-IsConsistent s now limit owner seconds token rows leases fresh e c =
    let (changed, count, given) =
      claim_repair_queue-exclusive now limit owner seconds token s.database.queue rows leases
        c.keyed e in
    record {
      keyed =
          Rowwise-HasPrimaryKey _ s.database.queue rows (claimed_key now seconds owner token leases)
            c.keyed changed;
      sound =
          All-Rowwise (IsSoundRow s.issued) (IsSoundRow (leases ++ s.issued)) _ s.database.queue
            rows (leased-IsSoundRow now seconds owner token leases s.issued) c.sound changed;
      single =
          claim-HasOneLease now seconds owner token s.database.queue rows leases s.issued c.keyed
            given fresh c.single;
    }

-- An enqueuer only upserts targets into the queue.
enqueue_upserts :
    (now : ℕ) (targets : List RepairTarget) (before db : Database) (n : ℕ)
    → enqueue_repair_targets now targets before ≡ some (db, n)
    → (pending : List RepairTarget) × (db
        ≡ record before { queue = (upsert_targets now pending before.queue).0 })
unfolding enqueue_repair_targets
enqueue_upserts now targets before db n e = elim (Option-cases (normalize_targets now targets)) [
  | inl bad ↦ absurd (ground (arith, bad, e))
  | inr (normalized, good) ↦
      let pending = keep (λ t. not (is_finalized before t)) (unique_targets [] normalized) in
      (pending, ground (arith, good, e))
]

enqueue-IsConsistent :
    (s : System) (now : ℕ) (targets : List RepairTarget) (db : Database) (n : ℕ)
    → enqueue_repair_targets now targets s.database ≡ some (db, n)
    → IsConsistent s
    → IsConsistent (record s { database = db })
enqueue-IsConsistent s now targets db n e c =
    let (pending, same) = enqueue_upserts now targets s.database db n e in
    let (keyed, sound) =
      upsert_targets-keeps s.issued now pending s.database.queue c.keyed c.sound in
    subst (λ d. IsConsistent (record s { database = d })) (sym same)
      (record { keyed = keyed; sound = sound; single = c.single })

Step-IsConsistent : {s t : System} → Step s t → IsConsistent s → IsConsistent t
Step-IsConsistent (enqueue s now targets db n e) c = enqueue-IsConsistent s now targets db n e c
Step-IsConsistent (claim s now limit owner seconds token rows leases fresh e) c =
    claim-IsConsistent s now limit owner seconds token rows leases fresh e c
Step-IsConsistent (succeed s now l m) c = succeed-IsConsistent s now l c
Step-IsConsistent (fail s now l outcome error m) c = fail-IsConsistent s now l outcome error m c
Step-IsConsistent (release s now l m) c = release-IsConsistent s now l c
Step-IsConsistent (store_prices s prices rejected) c = record {
  keyed = c.keyed;
  sound = c.sound;
  single = c.single;
}

Reach-IsConsistent : {s t : System} → IsConsistent s → Reach s t → IsConsistent t
Reach-IsConsistent c here = c
Reach-IsConsistent c (next r st) = Step-IsConsistent st (Reach-IsConsistent c r)

-- What the code relies on about one row of the queue.
pub record IsSafeRow (issued : List RepairLease) (r : QueueRow) : Type 0 where
  -- Of all leases given out, at most one can settle the row.
  pub one_holder :
      (l k : RepairLease)
      → In l issued
      → In k issued
      → is_held l r ≡ true
      → is_held k r ≡ true
      → l ≡ k
  -- The attempts that its holder was told are the row's.
  pub attempts_known :
      (l : RepairLease) → In l issued → is_held l r ≡ true → l.attempts ≡ r.attempts
  -- A finished or parked row is leased to nobody.
  pub done_unleased : is_some r.completed_at ≡ true → r.lease_token ≡ none
  -- An open row whose last outcome is invalid has attempts left.
  pub invalid_capped :
      r.last_outcome ≡ some invalid → r.completed_at ≡ none → r.attempts < max_invalid_attempts

-- From an empty queue, whatever enqueuers, workers and writers of prices do and in whatever order,
-- with a fresh lease token for every claim and with settlements only by leases that were given
-- out: no two rows have one key, and of every row, at most one lease can settle it, its holder
-- knows its attempts, it carries no lease once it is finished or parked, and it has fewer than
-- three attempts while it is open after an invalid outcome.
pub Reach-IsSafeRow :
    {prices : List PriceRow} {rejected : List Rejection} {t : System}
    → Reach
        (record {
          database = record { queue = []; token_prices = prices; rejected = rejected };
          issued = [];
        })
        t
    → HasPrimaryKey t.database.queue × All (IsSafeRow t.issued) t.database.queue
Reach-IsSafeRow {t} r =
    let c =
      Reach-IsConsistent (record { keyed = tt; sound = tt; single = λ l k m n. absurd m }) r in
    (
      c.keyed,
      All-implies (IsSoundRow t.issued) (IsSafeRow t.issued) t.database.queue (λ q p. safe c q p)
          c.sound,
    )
  where
    safe : IsConsistent t → (q : QueueRow) → IsSoundRow t.issued q → IsSafeRow t.issued q
    safe c q p = record {
      one_holder = λ l k m n h h'.
          let (token, key) = held_token l q h in
          let (token', key') = held_token k q h' in
          c.single l k m n (key ∙ sym key') (ground (arith, token, token'));
      attempts_known = λ l m h. held_attempts t.issued l q c.single m p h;
      done_unleased = p.0;
      invalid_capped = p.1;
    }
