-- ===== src/Tests/Manifests.antt =====
-- A manifest with a duplicate, and lower case in the place of a checksum.
use yearn_prices.Common.{[], refl, some, ℕ, ◌∷◌, ◌≡◌}
use yearn_prices.Common.Int.{pos}
use yearn_prices.Utils.Number.{integer}
use yearn_prices.Utils.Text.{Text, text, to_lower_case}
use yearn_prices.Utils.Json.{
  Elements, Json, array, element, member, no_elements, no_members, number, object, string,
}
use yearn_prices.Backfill.Manifest.{
  NormalizedTarget, ParseManifestOptions, not_a_closed_day, of_target, parse_manifest, parsed,
  refused,
}
use yearn_prices.Backfill.Manifest.Parsed.{IsManifest, parse_manifest-IsManifest}

abbrev address_text : Text
address_text = text "0xabcdefabcdefabcdefabcdefabcdefabcdefabcd"

abbrev listed : ℕ → Json
listed eod = object (
    member (text "chainId") (number (integer (pos 8_453))) (
      member (text "token") (string address_text)
        (member (text "eodTimestamp") (number (integer (pos eod))) no_members)))

abbrev document_of : Elements → Json
document_of targets = object (
    member (text "version") (number (integer (pos 1)))
      (member (text "targets") (array targets) no_members))

abbrev three_listed : Elements
three_listed =
    element (listed 86_399) (element (listed 172_799) (element (listed 86_399) no_elements))

abbrev limits : ParseManifestOptions
limits = record { now = 300_000; maximum_bytes = 8_388_608; maximum_targets = 200_000 }

abbrev base_target : ℕ → NormalizedTarget
base_target eod = record {
  chain_id = 8_453;
  chain = text "base";
  token = address_text;
  token_lowercase = address_text;
  eod_timestamp = eod;
}

-- Today is refused.
parse_manifest_test :
    (parse_manifest to_lower_case limits 400 (some (document_of three_listed))
      ≡ parsed (record {
        requested_count = 3;
        duplicate_count = 1;
        targets = base_target 86_399 ∷ base_target 172_799 ∷ [];
      }))
    × (parse_manifest to_lower_case limits 400
          (some (document_of (element (listed 345_599) no_elements)))
        ≡ refused (of_target 0 not_a_closed_day ∷ []))
unfolding parse_manifest
parse_manifest_test = (refl, refl)

parse_manifest-IsManifest_example :
    IsManifest to_lower_case limits 400
      (parse_manifest to_lower_case limits 400 (some (document_of three_listed)))
parse_manifest-IsManifest_example =
    parse_manifest-IsManifest to_lower_case limits 400 (some (document_of three_listed))
