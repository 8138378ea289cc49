-- ===== src/Db/RepairQueue/Policy.antt =====
-- The retry policy, and what a normalised target is.
use yearn_prices.Utils.Text.Lower.{length-to_lower_case, to_lower_case_idem}
use yearn_prices.Utils.Chains.{chain_id_to_name, is_token_address}
use yearn_prices.Utils.Time.{day_seconds, is_closed_day}
use yearn_prices.Utils.Time.Days.{day_order}
use yearn_prices.Utils.Text.{Text, is_hex, lower_code, to_lower_case}
use yearn_prices.Common.{
  ==_iff, Bool, Option, [], all, ap, arith, false, if◌then◌else◌, is_some, length, ltb, ltb→lt,
  lt→ltb, min, none, refl, some, subst, suc, sym, true, zero, ℕ, ◌%◌, ◌&&◌, ◌*◌, ◌+◌, ◌/◌, ◌<◌,
  ◌==◌, ◌↔◌, ◌∙◌, ◌∷◌, ◌≡◌, ◌≢◌, ◌≤◌,
}
use yearn_prices.Db.RepairQueue.{
  RepairOutcome, RepairTarget, missing, missing_backoff_seconds, normalize_target, nth,
  repair_retry_delay_seconds, schedule, target_key,
}

nth_bounds :
    (outcome : RepairOutcome) (i : ℕ)
    → i ≤ 5
    → (60 ≤ nth (schedule outcome) i)
      × (nth (schedule outcome) i ≤ 604_800)
      × (nth (schedule outcome) i ≤ nth (schedule outcome) (min (suc i) 5))
      × (nth (schedule outcome) i ≤ nth missing_backoff_seconds i)
nth_bounds o zero h = ground arith
nth_bounds o (suc zero) h = ground arith
nth_bounds o (suc (suc zero)) h = ground arith
nth_bounds o (suc (suc (suc zero))) h = ground arith
nth_bounds o (suc (suc (suc (suc zero)))) h = ground arith
nth_bounds o (suc (suc (suc (suc (suc zero))))) h = ground arith
nth_bounds o (suc (suc (suc (suc (suc (suc i)))))) h = absurd (omega arith)

length-schedule : (outcome : RepairOutcome) → length (schedule outcome) ≡ 6
length-schedule outcome = ground arith

-- A retry waits between one minute and a week, never less after more attempts, and after a missing
-- price at least as long as after any other outcome.
pub repair_retry_delay_seconds-bounds :
    (outcome : RepairOutcome) (attempts : ℕ)
    → (60 ≤ repair_retry_delay_seconds outcome attempts)
      × (repair_retry_delay_seconds outcome attempts ≤ 604_800)
      × (repair_retry_delay_seconds outcome attempts
          ≤ repair_retry_delay_seconds outcome (suc attempts))
      × (repair_retry_delay_seconds outcome attempts ≤ repair_retry_delay_seconds missing attempts)
unfolding repair_retry_delay_seconds
repair_retry_delay_seconds-bounds outcome attempts =
    let next : min (suc (min attempts 5)) 5 ≡ min (suc attempts) 5 = omega arith in
    let (low, high, grows, less) = nth_bounds outcome (min attempts 5) (omega arith) in
    simp length-schedule (low, high, rw next at grows, less)

lower_code-x : (c : ℕ) → c ≡ b'x' → lower_code c ≡ b'x'
unfolding lower_code
lower_code-x c e = ground (arith, e)

lower_code-zero : (c : ℕ) → c ≡ b'0' → lower_code c ≡ b'0'
unfolding lower_code
lower_code-zero c e = ground (arith, e)

is_hex-lower_code : (c : ℕ) → is_hex c ≡ true → is_hex (lower_code c) ≡ true
unfolding is_hex lower_code
is_hex-lower_code c h = ground (arith, h)

all-is_hex-lower :
    (digits : Text) → all is_hex digits ≡ true → all is_hex (to_lower_case digits) ≡ true
unfolding to_lower_case
all-is_hex-lower [] h = refl
all-is_hex-lower (c ∷ digits) h = ground (arith, h, is_hex-lower_code c, all-is_hex-lower digits)

is_token_address-lower :
    (token : Text) → is_token_address token ≡ true → is_token_address (to_lower_case token) ≡ true
unfolding is_token_address to_lower_case
is_token_address-lower [] h = absurd (ground (arith, h))
is_token_address-lower (a ∷ []) h = absurd (ground (arith, h))
is_token_address-lower (a ∷ b ∷ digits) h = ground (
  arith,
  h,
  lower_code-zero a,
  lower_code-x b,
  length-to_lower_case digits,
  all-is_hex-lower digits,
)

-- What a repair target is: a token's address on a supported chain, and the last second of a closed
-- day.
pub record IsRepairTarget (now : ℕ) (target : RepairTarget) : Type 0 where
  pub chain : chain_id_to_name target.chain_id ≢ none
  pub positive : 0 < target.chain_id
  pub token : is_token_address target.token ≡ true
  pub day_end : target.timestamp % day_seconds ≡ 86_399
  pub closed : target.timestamp / day_seconds < now / day_seconds

day_end_iff :
    (timestamp : ℕ)
    → ((timestamp / 86_400 * 86_400 + 86_399 == timestamp) ≡ true)
      ↔ (timestamp % day_seconds ≡ 86_399)
day_end_iff timestamp =
    (λ h. omega (arith, (==_iff _ _).0 h), λ h. (==_iff _ _).1 (omega (arith, h)))

is_some-defined : {A : Type 0} (o : Option A) → (is_some o ≡ true) ↔ (o ≢ none)
is_some-defined none = ((λ h. absurd (ground (arith, h))), λ h. absurd (h refl))
is_some-defined (some a) = ((λ h e. absurd (ground (arith, e))), λ h. refl)

-- The tests of `normalize_target`.
abbrev is_accepted_target : ℕ → RepairTarget → Bool
is_accepted_target now target =
    ltb 0 target.chain_id
    && is_some (chain_id_to_name target.chain_id)
    && is_token_address target.token
    && ltb 0 target.timestamp
    && is_closed_day target.timestamp now
    && target.timestamp / 86_400 * 86_400 + 86_399 == target.timestamp

all_six :
    (a b c d e f : Bool)
    → (a && b && c && d && e && f) ≡ true
    → (a ≡ true) × (b ≡ true) × (c ≡ true) × (d ≡ true) × (e ≡ true) × (f ≡ true)
all_six a b c d e f h = ground (arith, h)

is_accepted_target-IsRepairTarget :
    (now : ℕ) (target : RepairTarget)
    → (is_accepted_target now target ≡ true) ↔ IsRepairTarget now target
is_accepted_target-IsRepairTarget now target = (
  λ h.
      let (a, b, c, d, e, f) = all_six _ _ _ _ _ _ h in
      record {
        chain = (is_some-defined (chain_id_to_name target.chain_id)).0 b;
        positive = ltb→lt _ _ a;
        token = c;
        day_end = (day_end_iff target.timestamp).0 f;
        closed = (day_order target.timestamp now).0.0 e;
      },
  λ h.
      rw
        (
          lt→ltb _ _ h.positive,
          (is_some-defined (chain_id_to_name target.chain_id)).1 h.chain,
          h.token,
          lt→ltb 0 target.timestamp (omega (arith, h.day_end)),
          (day_order target.timestamp now).0.1 h.closed,
          (day_end_iff target.timestamp).1 h.day_end,
        )
        refl,
)

accepted_iff :
    {A : Type 0} (b : Bool) (x y : A)
    → ((if b then some x else none) ≡ some y) ↔ ((b ≡ true) × (y ≡ x))
accepted_iff true x y = ((λ h. (refl, cc h)), λ (_, e). ap some (sym e))
accepted_iff false x y = ((λ h. absurd (ground (arith, h))), λ (e, _). absurd (ground (arith, e)))

normalize_target_iff :
    (now : ℕ) (target t : RepairTarget)
    → (normalize_target now target ≡ some t)
      ↔ (IsRepairTarget now target × (t ≡ record target { token = to_lower_case target.token }))
unfolding normalize_target
normalize_target_iff now target t =
    let (there, back) =
      accepted_iff (is_accepted_target now target)
        (record target { token = to_lower_case target.token }) t in
    let (is, from) = is_accepted_target-IsRepairTarget now target in
    ((λ h. let (a, b) = there h in (is a, b)), λ (h, e). back (from h, e))

-- The target in lower case is a repair target too.
lower_target :
    (now : ℕ) (target : RepairTarget)
    → IsRepairTarget now target
    → IsRepairTarget now (record target { token = to_lower_case target.token })
lower_target now target h = record {
  chain = h.chain;
  positive = h.positive;
  token = is_token_address-lower target.token h.token;
  day_end = h.day_end;
  closed = h.closed;
}

-- A target is accepted exactly where it is a repair target, that is a token's address on a supported
-- chain and the last second of a closed day, with its token in lower case; and what is accepted has the
-- key of what was given, is a repair target, and is accepted as it is.
pub normalize_target-canonical :
    (now : ℕ) (target t : RepairTarget)
    → ((normalize_target now target ≡ some t)
        ↔ (IsRepairTarget now target × (t ≡ record target { token = to_lower_case target.token })))
      × (normalize_target now target ≡ some t
          → IsRepairTarget now t
            × (target_key t ≡ target_key target)
            × (normalize_target now t ≡ some t))
normalize_target-canonical now target t = (
  normalize_target_iff now target t,
  λ h.
      let (is, e) = (normalize_target_iff now target t).0 h in
      let lower = to_lower_case_idem target.token in
      let is_t = subst (IsRepairTarget now) (sym e) (lower_target now target is) in
      (
        is_t,
        ap target_key e ∙ ap (λ token. (target.chain_id, token, target.timestamp)) lower,
        (normalize_target_iff now t t).1 (
          is_t,
          subst (λ (x : RepairTarget). x ≡ record x { token = to_lower_case x.token }) (sym e)
              (ap (λ token. record target { token = token }) (sym lower)),
        ),
      ),
)
