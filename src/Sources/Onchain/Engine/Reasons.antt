-- ===== src/Sources/Onchain/Engine/Reasons.antt =====
-- The reason of a failure.
use yearn_prices.Common.{
  All, Bool-cases, In, List, [], arith, inl, inr, refl, true, ◌==◌, ◌∷◌, ◌≡◌, ◌≤◌, ◌⊎◌,
}
use yearn_prices.Sources.Onchain.Paths.{
  Attempt, FailureReason, find_reason, has_reason, reason_rank, select_failure_reason, unsupported,
}

attempt_of_reason :
    (reason : FailureReason) (attempts : List Attempt)
    → has_reason reason attempts ≡ true
    → (a : Attempt) × In a attempts × (a.reason ≡ reason)
attempt_of_reason reason [] h = absurd (ground (arith, h))
attempt_of_reason reason (a ∷ attempts) h =
    elim (Bool-cases (reason_rank a.reason == reason_rank reason)) [
      | inl same ↦ (a, inl refl, ground (arith, same))
      | inr other ↦
          let (b, m, e) = attempt_of_reason reason attempts (ground (arith, h, other)) in
          (b, inr m, e)
    ]

gravest_of :
    (attempts : List Attempt) (r : FailureReason)
    → has_reason r attempts ≡ true
    → reason_rank (select_failure_reason attempts) ≤ reason_rank r
unfolding select_failure_reason find_reason
gravest_of attempts r h = ground (arith, h)

-- Either some attempt has the reason, or there is none to choose from.
found_reason :
    (attempts : List Attempt)
    → (has_reason (select_failure_reason attempts) attempts ≡ true)
      ⊎ (select_failure_reason attempts ≡ unsupported)
unfolding select_failure_reason find_reason
found_reason attempts = ground arith

All-gravest :
    (attempts all_attempts : List Attempt)
    → ((r : FailureReason) → has_reason r attempts ≡ true → has_reason r all_attempts ≡ true)
    → All (λ a. reason_rank (select_failure_reason all_attempts) ≤ reason_rank a.reason) attempts
All-gravest [] all_attempts f = tt
All-gravest (a ∷ attempts) all_attempts f = (
  gravest_of all_attempts a.reason (f a.reason (ground arith)),
  All-gravest attempts all_attempts (λ r h. f r (ground (arith, h))),
)

-- The reason of a failure comes first, in the order of gravity, among the reasons of its attempts;
-- it is the reason of one of them or, at worst, 'unsupported'.
pub select_failure_reason_gravest :
    (attempts : List Attempt)
    → All (λ a. reason_rank (select_failure_reason attempts) ≤ reason_rank a.reason) attempts
      × (((a : Attempt) × In a attempts × (a.reason ≡ select_failure_reason attempts))
          ⊎ (select_failure_reason attempts ≡ unsupported))
select_failure_reason_gravest attempts = (
  All-gravest attempts attempts (λ r h. h),
  elim (found_reason attempts) [
    | inl found ↦ inl (attempt_of_reason (select_failure_reason attempts) attempts found)
    | inr last ↦ inr last
  ],
)
