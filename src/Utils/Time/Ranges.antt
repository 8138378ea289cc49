-- ===== src/Utils/Time/Ranges.antt =====
-- The days of a range: which they are, and how many.
use yearn_prices.Common.{
  Bool-cases, In, arith, inl, inr, leb, leb_false→lt, leb→le, length, le→leb, refl, suc, true, zero,
  ℕ, ℕ_discrete, ◌%◌, ◌*◌, ◌+◌, ◌-◌, ◌/◌, ◌<◌, ◌↔◌, ◌≡◌, ◌≤◌, ◌⊎◌,
}
use yearn_prices.Common.Int.{pos}
use yearn_prices.Utils.Time.{
  day_seconds, days_from, normalized_days_in_range, normalized_range_day_count,
}

length-days_from_past :
    (fuel cursor end : ℕ) → end < cursor → length (days_from fuel cursor end) ≡ 0
unfolding days_from
length-days_from_past zero cursor end h = refl
length-days_from_past (suc fuel) cursor end h = ground arith

length-days_from :
    (fuel cursor end : ℕ)
    → cursor ≤ end
    → end < cursor + fuel * day_seconds
    → length (days_from fuel cursor end) ≡ (end - cursor) / day_seconds + 1
unfolding days_from
length-days_from zero cursor end h f = absurd (omega arith)
length-days_from (suc fuel) cursor end h f = elim (Bool-cases (leb (cursor + day_seconds) end)) [
  | inl more ↦ rw (le→leb _ _ h) (
      omega (
        arith,
        leb→le _ _ more,
        length-days_from fuel (cursor + day_seconds) end (leb→le _ _ more) (omega arith),
      ))
  | inr last ↦ rw (le→leb _ _ h) (
      omega (
        arith,
        leb_false→lt _ _ last,
        length-days_from_past fuel (cursor + day_seconds) end (leb_false→lt _ _ last),
      ))
]

-- Where a range is in order, the list of its days is as long as the count says.
pub length-normalized_days_in_range :
    (start end : ℕ)
    → start ≤ end
    → normalized_range_day_count start end ≡ pos (length (normalized_days_in_range start end))
unfolding normalized_days_in_range normalized_range_day_count
length-normalized_days_in_range start end h =
    rw (le→leb _ _ h, length-days_from ((end - start) / day_seconds + 2) start end h (omega arith))

later_day :
    (fuel cursor end day : ℕ)
    → In day (days_from (suc fuel) cursor end)
    → leb cursor end ≡ true
    → (day ≡ cursor) ⊎ In day (days_from fuel (cursor + day_seconds) end)
unfolding days_from
later_day fuel cursor end day h more = rw more at h

day_of_days_from :
    (fuel cursor end day : ℕ)
    → In day (days_from fuel cursor end)
    → (cursor ≤ day) × (day ≤ end) × ((day - cursor) % day_seconds ≡ 0)
unfolding days_from
day_of_days_from zero cursor end day h = absurd h
day_of_days_from (suc fuel) cursor end day h = elim (Bool-cases (leb cursor end)) [
  | inl more ↦ elim (later_day fuel cursor end day h more) [
    | inl e ↦ omega (arith, leb→le _ _ more)
    | inr later ↦ omega (arith, day_of_days_from fuel (cursor + day_seconds) end day later)
  ]
  | inr last ↦ absurd (rw last at h)
]

days_from_of_day :
    (fuel cursor end day : ℕ)
    → end < cursor + fuel * day_seconds
    → cursor ≤ day
    → day ≤ end
    → (day - cursor) % day_seconds ≡ 0
    → In day (days_from fuel cursor end)
unfolding days_from
days_from_of_day zero cursor end day f h k e = absurd (omega arith)
days_from_of_day (suc fuel) cursor end day f h k e =
    rw (le→leb cursor end (omega arith)) (elim (ℕ_discrete day cursor) [
      | yes same ↦ inl same
      | no later ↦ inr (
          days_from_of_day fuel (cursor + day_seconds) end day (omega arith) (omega arith) k
            (omega arith))
    ])

-- The days of a range are exactly the times from its start to its end that are whole days after
-- the start.
pub normalized_days_in_range_iff :
    (start end day : ℕ)
    → In day (normalized_days_in_range start end)
      ↔ ((start ≤ day) × (day ≤ end) × ((day - start) % day_seconds ≡ 0))
unfolding normalized_days_in_range
normalized_days_in_range_iff start end day = (
  day_of_days_from _ start end day,
  λ h. days_from_of_day ((end - start) / day_seconds + 2) start end day (omega arith) h.0 h.1 h.2,
)
