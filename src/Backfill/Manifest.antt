-- ===== src/Backfill/Manifest.antt =====
-- src/backfill/manifest.ts: the targets of a backfill, read from a document. JSON.parse, the digest and
-- the count of bytes are outside; an issue is told by its kind and its target's index.
pub mod Targets
pub mod Parsed
use yearn_prices.Common.{
  Bool, List, Option, [], false, if◌then◌else◌, leb, ltb, map, nat_eq, none, option_eq, pair_eq,
  some, string_eq, ℕ, ◌%◌, ◌++◌, ◌+◌, ◌==◌, ◌∷◌,
}
use yearn_prices.Common.OrderedMap.{has, set}
use yearn_prices.Common.Int.{pos}
use yearn_prices.Utils.Number.{integer, number_beq, safe_positive}
use yearn_prices.Utils.Text.{Text, text, text_eq, to_lower_case}
use yearn_prices.Utils.Json.{
  Elements, Json, array, element, no_elements, number, object, read_member, string,
}
use yearn_prices.Utils.Time.{current_utc_day_end}
use yearn_prices.Utils.Chains.{chain_id_to_name, is_token_address}
use yearn_prices.Utils.Validation.{count_elements}

pub record NormalizedTarget : Type 0 where
  pub chain_id : ℕ
  pub chain : Text
  pub token : Text
  pub token_lowercase : Text
  pub eod_timestamp : ℕ

pub data TargetIssue : Type 0 where
  not_an_object chain_id_not_positive unsupported_chain_id token_invalid timestamp_not_positive
        not_end_of_day not_a_closed_day :
      TargetIssue

pub data Issue : Type 0 where
  above_maximum_bytes not_json not_json_object unsupported_version targets_not_array
        above_maximum_targets :
      Issue
  of_target : ℕ → TargetIssue → Issue

pub record ParsedManifest : Type 0 where
  pub requested_count : ℕ
  pub duplicate_count : ℕ
  pub targets : List NormalizedTarget

-- `ParsedManifest`, or a thrown `ManifestError`.
pub data ManifestOutcome : Type 0 where
  parsed : ParsedManifest → ManifestOutcome
  refused : List Issue → ManifestOutcome

pub record ParseManifestOptions : Type 0 where
  pub now : ℕ
  pub maximum_bytes : ℕ
  pub maximum_targets : ℕ

-- A field that is valid, or the issue that it has.
pub data Field (A : Type 0) : Type 0 where
  valid : A → Field A
  broken : TargetIssue → Field A

abbrev pub issue_of : {A : Type 0} → Field A → List TargetIssue
issue_of (valid a) = []
issue_of (broken issue) = issue ∷ []

abbrev pub supported : ℕ → Option Text → Field (ℕ × Text)
supported chain_id none = broken unsupported_chain_id
supported chain_id (some chain) = valid (chain_id, chain)

abbrev pub chain_of_id : Option ℕ → Field (ℕ × Text)
chain_of_id none = broken chain_id_not_positive
chain_of_id (some chain_id) = supported chain_id (chain_id_to_name chain_id)

unfoldable pub read_chain_id : Json → Field (ℕ × Text)
unfolding chain_id_to_name
read_chain_id (number n) = chain_of_id (safe_positive n)
read_chain_id _ = broken chain_id_not_positive

unfoldable pub read_token : Json → Field Text
unfolding is_token_address
read_token (string token) = if is_token_address token then valid token else broken token_invalid
read_token _ = broken token_invalid

abbrev pub closed_day : ℕ → Option ℕ → Field ℕ
closed_day closed_before none = broken timestamp_not_positive
closed_day closed_before (some eod) =
    if eod % 86_400 == 86_399
    then if leb closed_before eod then broken not_a_closed_day else valid eod
    else broken not_end_of_day

unfoldable pub read_timestamp : ℕ → Json → Field ℕ
read_timestamp closed_before (number n) = closed_day closed_before (safe_positive n)
read_timestamp closed_before _ = broken timestamp_not_positive

-- A target, or its issues.
pub data Normalized : Type 0 where
  normalized : NormalizedTarget → Normalized
  faulty : TargetIssue → List TargetIssue → Normalized

abbrev pub Identity : Type 0
Identity = ℕ × (Text × ℕ)

abbrev pub identity : NormalizedTarget → Identity
identity t = (t.chain_id, (t.token_lowercase, t.eod_timestamp))

pub record Reading : Type 0 where
  pub problems : List Issue
  pub seen : List (Identity × NormalizedTarget)
  pub duplicate_count : ℕ

abbrev pub targets_of : List (Identity × NormalizedTarget) → List NormalizedTarget
targets_of [] = []
targets_of ((_, t) ∷ seen) = t ∷ targets_of seen

-- `checksum` stands for viem's getAddress: the token has the pattern, so `normalizeTokenAddress` gives
-- it.
module _ (checksum : Text → Text) where
  abbrev pub of_fields : Field (ℕ × Text) → Field Text → Field ℕ → Normalized
  of_fields (valid (chain_id, chain)) (valid token) (valid eod) = normalized (record {
    chain_id = chain_id;
    chain = chain;
    token = checksum token;
    token_lowercase = to_lower_case token;
    eod_timestamp = eod;
  })
  of_fields (valid chain) (valid token) (broken issue) = faulty issue []
  of_fields (valid chain) (broken issue) timestamp = faulty issue (issue_of timestamp)
  of_fields (broken issue) token timestamp = faulty issue (issue_of token ++ issue_of timestamp)

  unfoldable pub normalize_manifest_target : ℕ → Json → Normalized
  unfolding read_chain_id read_token read_timestamp read_member to_lower_case
  normalize_manifest_target closed_before (object entry) =
      of_fields (read_chain_id (read_member (text "chainId") entry))
        (read_token (read_member (text "token") entry))
        (read_timestamp closed_before (read_member (text "eodTimestamp") entry))
  normalize_manifest_target closed_before _ = faulty not_an_object []

  abbrev pub add_normalized : ℕ → Reading → Normalized → Reading
  add_normalized index r (faulty issue more) = record r {
    problems = r.problems ++ of_target index issue ∷ map (of_target index) more;
  }
  add_normalized index r (normalized t) =
      if has (identity t) r.seen
      then record r { duplicate_count = r.duplicate_count + 1 }
      else record r { seen = set (identity t) t r.seen }

  unfoldable pub read_targets : ℕ → ℕ → Elements → Reading → Reading
  unfolding normalize_manifest_target
  read_targets closed_before index no_elements r = r
  read_targets closed_before index (element raw rest) r =
      read_targets closed_before (index + 1) rest
        (add_normalized index r (normalize_manifest_target closed_before raw))

  abbrev pub conclude_manifest : ℕ → Reading → ManifestOutcome
  conclude_manifest requested r = elim r.problems [
    | [] ↦ parsed (record {
      requested_count = requested;
      duplicate_count = r.duplicate_count;
      targets = targets_of r.seen;
    })
    | problem ∷ more ↦ refused (problem ∷ more)
  ]

  abbrev pub is_manifest_version : Json → Bool
  is_manifest_version (number n) = number_beq n (integer (pos 1))
  is_manifest_version _ = false

  abbrev pub parse_targets : ParseManifestOptions → Json → ManifestOutcome
  parse_targets o (array targets) =
      if ltb o.maximum_targets (count_elements targets)
      then refused (above_maximum_targets ∷ [])
      else conclude_manifest (count_elements targets) (
          read_targets (current_utc_day_end o.now) 0 targets
            (record { problems = []; seen = []; duplicate_count = 0 }))
  parse_targets o _ = refused (targets_not_array ∷ [])

  abbrev pub parse_document : ParseManifestOptions → Option Json → ManifestOutcome
  parse_document o none = refused (not_json ∷ [])
  parse_document o (some (object document)) =
      if is_manifest_version (read_member (text "version") document)
      then parse_targets o (read_member (text "targets") document)
      else refused (unsupported_version ∷ [])
  parse_document o (some _) = refused (not_json_object ∷ [])

  -- No document where it is not JSON.
  unfoldable pub parse_manifest : ParseManifestOptions → ℕ → Option Json → ManifestOutcome
  unfolding read_targets read_member current_utc_day_end
  parse_manifest o byte_length document =
      if ltb o.maximum_bytes byte_length
      then refused (above_maximum_bytes ∷ [])
      else parse_document o document
