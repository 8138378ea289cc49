-- ===== src/Tests/Observations.antt =====
-- Observations of a day at concrete values.
use yearn_prices.Common.{
  In, List, [], inl, inr, nat_eq, none, option_eq, pair_eq, refl, some, string_eq, true, ℕ, ◌∷◌,
  ◌≡◌, ◌⊎◌,
}
use yearn_prices.Common.Int.{pos}
use yearn_prices.Common.OrderedMap.{has}
use yearn_prices.Utils.Text.{text, text_eq}
use yearn_prices.Utils.Number.{integer}
use yearn_prices.Utils.Json.{
  Elements, Json, Members, array, element, member, no_elements, no_members, null, number, object,
  read_member,
}
use yearn_prices.Backfill.Matcher.{
  MatchOptions, collect, match_chart_observation, matched, read_observation, select,
  window_eligible_observations,
}
use yearn_prices.Backfill.Matcher.Correct.{Describes, match_chart_observation-Describes}
use yearn_prices.Sources.Defillama.Match.{
  DefillamaSample, all_pairs, assign_nearest_samples, entries_from, fits, match_prices_to_requests,
  pairs_for, search_width_seconds, take_pairs,
}
use yearn_prices.Sources.Defillama.Match.Assign.{IsAssignment}
use yearn_prices.Sources.Defillama.Match.Complete.{
  match_prices_to_requests-IsAssignment, match_prices_to_requests-maximal,
}

abbrev observed : ℕ → ℕ → Json
observed t p = object (
    member (text "timestamp") (number (integer (pos t)))
      (member (text "price") (number (integer (pos p))) no_members))

abbrev observations : Elements
observations = element (observed 86_000 5) (element null (element (observed 86_500 6) no_elements))

abbrev entry : Members
entry = member (text "prices") (array observations) no_members

abbrev options : MatchOptions
options = record { maximum_offset_seconds = 21_600; is_eligible_observation = λ t. true }

match_chart_observation-Describes_example :
    Describes 86_399 options observations
      (window_eligible_observations 86_399 options (object entry))
      (match_chart_observation 86_399 options (object entry))
unfolding read_member
match_chart_observation-Describes_example =
    match_chart_observation-Describes 86_399 options entry observations refl refl refl

-- The observation 101 seconds after the day's end is nearer than the one 399 seconds before it.
nearest_matched :
    match_chart_observation 86_399 options (object entry)
    ≡ matched (integer (pos 6)) none none 86_500 (pos 101)
unfolding match_chart_observation collect select read_observation read_member
nearest_matched = refl

abbrev sample_of : ℕ → ℕ → DefillamaSample
sample_of t p = record { timestamp = some t; price = integer (pos p); confidence = none }

abbrev days : List ℕ
days = 86_399 ∷ 172_799 ∷ []

abbrev samples : List DefillamaSample
samples = sample_of 86_400 5 ∷ sample_of 170_000 6 ∷ sample_of 172_000 7 ∷ []

match_prices_to_requests-IsAssignment_example :
    IsAssignment days samples search_width_seconds (match_prices_to_requests days samples)
match_prices_to_requests-IsAssignment_example = match_prices_to_requests-IsAssignment days samples

match_prices_to_requests-maximal_example :
    (has 172_799 (match_prices_to_requests days samples).matched ≡ true)
    ⊎ ((s : ℕ) × In (s, 1) (match_prices_to_requests days samples).matched)
unfolding fits entries_from
match_prices_to_requests-maximal_example =
    match_prices_to_requests-maximal days samples 172_799 1 (inr (inl refl))
      (sample_of 170_000 6, inr (inl refl), refl)

-- The strict pass takes the sample one second away; the wider one takes the nearest for the other day.
two_matched : (match_prices_to_requests days samples).matched ≡ (86_399, 0) ∷ (172_799, 2) ∷ []
unfolding match_prices_to_requests assign_nearest_samples all_pairs pairs_for take_pairs fits
    entries_from
two_matched = refl
