-- ===== src/Utils/Validation/Accepted.antt =====
-- What the requests are that come of an accepted parameter.
use yearn_prices.Common.{
  All, All-append, Bool, Bool-cases, List, Option, Option-cases, [], any, arith, false, inl, inr,
  leb, leb→le, length, length-append, not, refl, subst, true, ℕ, ◌%◌, ◌*◌, ◌++◌, ◌+◌, ◌-◌, ◌/◌,
  ◌==◌, ◌∷◌, ◌≡◌, ◌≤◌,
}
use yearn_prices.Http.{ErrorCode, Result, ensure, ok, throw, ◌>>=◌, ◌>>◌}
use yearn_prices.Utils.Text.{Text, to_lower_case}
use yearn_prices.Utils.Time.{day_seconds, normalize_to_end_of_day}
use yearn_prices.Utils.Json.{Elements, Json, Members, element, member, no_elements, no_members}
use yearn_prices.Utils.Chains.{
  ParsedTokenKey, is_supported_chain, is_token_address, parse_token_key,
}
use yearn_prices.Utils.Chains.Keys.{IsChecksum, parse_token_key-canonical}
use yearn_prices.Utils.Validation.{
  HistoricalRequestTuple, RangeRequest, batch_requests, bounded_array, count_elements,
  count_members, entries_of, is_seen, max_batch_timestamps_per_token, max_batch_tokens, max_date,
  max_range_days, max_range_tokens, normalize_request_timestamp, normalize_timestamps,
  parse_batch_coins, parse_range_coins, range_requests, request_timestamp, tuples_of, two_elements,
}

>>=-eq-ok :
    {A B : Type 0} (m : Result A) (f : A → Result B) (b : B)
    → (m >>= f) ≡ ok b
    → (a : A) × (m ≡ ok a) × (f a ≡ ok b)
>>=-eq-ok (throw code) f b h = cc
>>=-eq-ok (ok a) f b h = (a, refl, h)

-- The last second of a day that a `Date` can hold.
abbrev pub IsDayEnd : ℕ → Type 0
IsDayEnd t = (t % day_seconds ≡ 86_399) × (t * 1000 ≤ max_date)

normalize_request_timestamp-IsDayEnd :
    (value : Json) (t : ℕ) → normalize_request_timestamp value ≡ ok t → IsDayEnd t
unfolding normalize_request_timestamp normalize_to_end_of_day
normalize_request_timestamp-IsDayEnd value t h = elim (Option-cases (request_timestamp value)) [
  | inl bad ↦ absurd (ground (arith, bad, h))
  | inr (n, good) ↦ ground (arith, good, h)
]

normalize_timestamps-IsDayEnd :
    (values : Elements) (seen timestamps : List ℕ)
    → All IsDayEnd seen
    → normalize_timestamps values seen ≡ ok timestamps
    → All IsDayEnd timestamps × (length timestamps ≤ count_elements values + length seen)
unfolding normalize_timestamps
normalize_timestamps-IsDayEnd no_elements seen timestamps a h =
    let same : seen ≡ timestamps = ground (arith, h) in
    subst (λ ts. All IsDayEnd ts × (length ts ≤ 0 + length seen)) same (a, omega arith)
normalize_timestamps-IsDayEnd (element value values) seen timestamps a h =
    let (t, e, f) = >>=-eq-ok (normalize_request_timestamp value) _ timestamps h in
    let day = normalize_request_timestamp-IsDayEnd value t e in
    elim (Bool-cases (any (λ s. s == t) seen)) [
      | inl again ↦
          let (days, n) = normalize_timestamps-IsDayEnd values seen timestamps a (rw again at f) in
          (days, omega (arith, n))
      | inr new ↦
          let (days, n) =
            normalize_timestamps-IsDayEnd values (seen ++ t ∷ []) timestamps
              (All-append IsDayEnd seen (t ∷ []) a (day, tt)) (rw new at f) in
          (days, omega (arith, n, length-append seen (t ∷ [])))
    ]

-- A tuple that a route may ask the store for.
abbrev pub IsBatchRequest : HistoricalRequestTuple → Type 0
IsBatchRequest r =
    (is_supported_chain r.chain ≡ true) × (is_token_address r.token ≡ true) × IsDayEnd r.timestamp

tuples_of-IsBatchRequest :
    (key : ParsedTokenKey) (timestamps : List ℕ)
    → is_supported_chain key.chain ≡ true
    → is_token_address key.token ≡ true
    → All IsDayEnd timestamps
    → All IsBatchRequest (tuples_of key timestamps)
      × (length (tuples_of key timestamps) ≡ length timestamps)
tuples_of-IsBatchRequest key [] c k h = (tt, refl)
tuples_of-IsBatchRequest key (t ∷ timestamps) c k (p, h) =
    let (all_good, n) = tuples_of-IsBatchRequest key timestamps c k h in
    (((c, k, p), all_good), omega (arith, n))

ensure-eq-ok :
    {B : Type 0} (test : Bool) (code : ErrorCode) (k : Result B) (b : B)
    → (ensure test code >> k) ≡ ok b
    → (test ≡ true) × (k ≡ ok b)
ensure-eq-ok true code k b h = (refl, h)
ensure-eq-ok false code k b h = absurd (ground (arith, h))

ok-injective : {A : Type 0} (a b : A) → ok a ≡ ok b → a ≡ b
ok-injective a b h = ground (arith, h)

entries_of-bounded :
    (raw : Option Json) (most : ℕ) (entries : Members)
    → entries_of raw most ≡ ok entries
    → count_members entries ≤ most
entries_of-bounded raw most entries h = ground (arith, h)

bounded_array-bounded :
    (value : Json) (most : ℕ) (values : Elements)
    → bounded_array value most ≡ ok values
    → count_elements values ≤ most
bounded_array-bounded value most values h = ground (arith, h)

-- A range of days that a route may ask the store for.
abbrev pub IsRangeRequest : RangeRequest → Type 0
IsRangeRequest r =
    (is_supported_chain r.chain ≡ true)
    × (is_token_address r.token ≡ true)
    × IsDayEnd r.start_timestamp
    × IsDayEnd r.end_timestamp
    × (r.start_timestamp ≤ r.end_timestamp)
    × ((r.end_timestamp - r.start_timestamp) / day_seconds + 1 ≤ max_range_days)

module _ {checksum : Text → Text} (law : IsChecksum checksum) where
  batch_requests-IsBatchRequest :
      (entries : Members) (seen : List Text) (requests : List HistoricalRequestTuple)
      → batch_requests checksum entries seen ≡ ok requests
      → All IsBatchRequest requests
        × (length requests ≤ count_members entries * max_batch_timestamps_per_token)
  unfolding batch_requests
  batch_requests-IsBatchRequest no_members seen requests h =
      subst (λ rs. All IsBatchRequest rs × (length rs ≤ 0)) (ok-injective [] requests h)
        (tt, omega arith)
  batch_requests-IsBatchRequest (member token_key timestamps others) seen requests h =
      let (values, e, h1) =
        >>=-eq-ok (bounded_array timestamps max_batch_timestamps_per_token) _ requests h in
      let (key, known, h2) = >>=-eq-ok (parse_token_key checksum token_key) _ requests h1 in
      let (fresh, h3) =
        ensure-eq-ok (not (is_seen (to_lower_case key.token_key) seen)) _ _ requests h2 in
      let (times, normal, h4) = >>=-eq-ok (normalize_timestamps values []) _ requests h3 in
      let (rest, e', h5) =
        >>=-eq-ok (batch_requests checksum others (to_lower_case key.token_key ∷ seen)) _ requests
          h4 in
      let (chain, token, joined, again) = parse_token_key-canonical law token_key key known in
      let (days, n) = normalize_timestamps-IsDayEnd values [] times tt normal in
      let (good, m) = tuples_of-IsBatchRequest key times chain token days in
      let (good', m') =
        batch_requests-IsBatchRequest others (to_lower_case key.token_key ∷ seen) rest e' in
      let few = bounded_array-bounded timestamps max_batch_timestamps_per_token values e in
      subst
        (λ rs.
          All IsBatchRequest rs
          × (length rs ≤ (count_members others + 1) * max_batch_timestamps_per_token))
        (ok-injective (tuples_of key times ++ rest) requests h5)
        (
          All-append IsBatchRequest (tuples_of key times) rest good good',
          omega (arith, length-append (tuples_of key times) rest, n, m, m', few),
        )

  -- Every request of an accepted batch is for a token address on a supported chain, at the last
  -- second of a day that a `Date` can hold; there are 4500 of them at most.
  pub parse_batch_coins-IsBatchRequest :
      (raw : Option Json) (requests : List HistoricalRequestTuple)
      → parse_batch_coins checksum raw ≡ ok requests
      → All IsBatchRequest requests × (length requests ≤ 4500)
  unfolding parse_batch_coins
  parse_batch_coins-IsBatchRequest raw requests h =
      let (entries, e, h') = >>=-eq-ok (entries_of raw max_batch_tokens) _ requests h in
      let (good, n) = batch_requests-IsBatchRequest entries [] requests h' in
      (good, omega (arith, n, entries_of-bounded raw max_batch_tokens entries e))

  range_requests-IsRangeRequest :
      (entries : Members) (seen : List Text) (requests : List RangeRequest)
      → range_requests checksum entries seen ≡ ok requests
      → All IsRangeRequest requests × (length requests ≤ count_members entries)
  unfolding range_requests
  range_requests-IsRangeRequest no_members seen requests h =
      subst (λ rs. All IsRangeRequest rs × (length rs ≤ 0)) (ok-injective [] requests h)
        (tt, omega arith)
  range_requests-IsRangeRequest (member token_key range others) seen requests h =
      let (two, e, h1) = >>=-eq-ok (two_elements range) _ requests h in
      let (start, e1, h2) = >>=-eq-ok (normalize_request_timestamp (two.0)) _ requests h1 in
      let (end, e2, h3) = >>=-eq-ok (normalize_request_timestamp (two.1)) _ requests h2 in
      let (order, h4) = ensure-eq-ok (leb start end) _ _ requests h3 in
      let (short, h5) =
        ensure-eq-ok (leb ((end - start) / day_seconds + 1) max_range_days) _ _ requests h4 in
      let (key, known, h6) = >>=-eq-ok (parse_token_key checksum token_key) _ requests h5 in
      let (fresh, h7) =
        ensure-eq-ok (not (is_seen (to_lower_case key.token_key) seen)) _ _ requests h6 in
      let (rest, e', h8) =
        >>=-eq-ok (range_requests checksum others (to_lower_case key.token_key ∷ seen)) _ requests
          h7 in
      let (chain, token, joined, again) = parse_token_key-canonical law token_key key known in
      let (good, n) =
        range_requests-IsRangeRequest others (to_lower_case key.token_key ∷ seen) rest e' in
      subst (λ rs. All IsRangeRequest rs × (length rs ≤ count_members others + 1))
        (ok-injective
          (record {
            chain = key.chain;
            token = key.token;
            start_timestamp = start;
            end_timestamp = end;
          }
            ∷ rest)
          requests h8)
        (
          (
            (
              chain,
              token,
              normalize_request_timestamp-IsDayEnd (two.0) start e1,
              normalize_request_timestamp-IsDayEnd (two.1) end e2,
              leb→le _ _ order,
              leb→le _ _ short,
            ),
            good,
          ),
          omega (arith, n),
        )

  -- Every request of an accepted range is for a token address on a supported chain, from the last
  -- second of one day to that of the same or a later one, over 366 days at most; there are 50 of
  -- them at most.
  pub parse_range_coins-IsRangeRequest :
      (raw : Option Json) (requests : List RangeRequest)
      → parse_range_coins checksum raw ≡ ok requests
      → All IsRangeRequest requests × (length requests ≤ 50)
  unfolding parse_range_coins
  parse_range_coins-IsRangeRequest raw requests h =
      let (entries, e, h') = >>=-eq-ok (entries_of raw max_range_tokens) _ requests h in
      let (good, n) = range_requests-IsRangeRequest entries [] requests h' in
      (good, omega (arith, n, entries_of-bounded raw max_range_tokens entries e))
