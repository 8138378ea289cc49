-- ===== src/Backfill/Manifest/Targets.antt =====
-- What a target that is accepted is.
use yearn_prices.Common.{
  Bool-cases, Option, arith, inl, inr, leb, none, refl, some, true, ℕ, ◌%◌, ◌<◌, ◌==◌, ◌≡◌,
}
use yearn_prices.Utils.Number.{safe_positive}
use yearn_prices.Utils.Text.{Text, text, to_lower_case}
use yearn_prices.Utils.Json.{
  Json, array, boolean, null, number, object, read_member, string, undefined,
}
use yearn_prices.Utils.Chains.{chain_id_to_name, is_token_address}
use yearn_prices.Backfill.Manifest.{
  Field, Normalized, NormalizedTarget, broken, chain_of_id, closed_day, faulty,
  normalize_manifest_target, normalized, of_fields, read_chain_id, read_timestamp, read_token,
  supported, valid,
}

module _ (checksum : Text → Text) (closed_before : ℕ) where
  -- A supported chain, an address, and the last second of a closed day.
  pub record IsManifestTarget (t : NormalizedTarget) : Type 0 where
    pub address : Text
    pub pattern : is_token_address address ≡ true
    pub token : t.token ≡ checksum address
    pub token_lowercase : t.token_lowercase ≡ to_lower_case address
    pub chain : chain_id_to_name t.chain_id ≡ some t.chain
    pub day_end : t.eod_timestamp % 86_400 ≡ 86_399
    pub closed : t.eod_timestamp < closed_before

  abbrev pub IsSound : Normalized → Type 0
  IsSound (normalized t) = IsManifestTarget t
  IsSound (faulty issue more) = Unit

  abbrev IsChain : Field (ℕ × Text) → Type 0
  IsChain (valid (id, chain)) = chain_id_to_name id ≡ some chain
  IsChain (broken issue) = Unit

  abbrev IsToken : Field Text → Type 0
  IsToken (valid token) = is_token_address token ≡ true
  IsToken (broken issue) = Unit

  abbrev IsDay : Field ℕ → Type 0
  IsDay (valid eod) = (eod % 86_400 ≡ 86_399) × (eod < closed_before)
  IsDay (broken issue) = Unit

  IsChain-supported :
      (id : ℕ) (o : Option Text) → chain_id_to_name id ≡ o → IsChain (supported id o)
  IsChain-supported id none e = tt
  IsChain-supported id (some chain) e = e

  read_chain_id-IsChain : (raw : Json) → IsChain (read_chain_id raw)
  unfolding read_chain_id
  read_chain_id-IsChain (number n) = go (safe_positive n)
    where
      go : (o : Option ℕ) → IsChain (chain_of_id o)
      go none = tt
      go (some id) = IsChain-supported id (chain_id_to_name id) refl
  read_chain_id-IsChain undefined = tt
  read_chain_id-IsChain null = tt
  read_chain_id-IsChain (boolean b) = tt
  read_chain_id-IsChain (string t) = tt
  read_chain_id-IsChain (array a) = tt
  read_chain_id-IsChain (object o) = tt

  read_token-IsToken : (raw : Json) → IsToken (read_token raw)
  unfolding read_token
  read_token-IsToken (string t) = elim (Bool-cases (is_token_address t)) [
    | inl good ↦ rw good good
    | inr bad ↦ rw bad tt
  ]
  read_token-IsToken undefined = tt
  read_token-IsToken null = tt
  read_token-IsToken (boolean b) = tt
  read_token-IsToken (number n) = tt
  read_token-IsToken (array a) = tt
  read_token-IsToken (object o) = tt

  IsDay-closed_day : (o : Option ℕ) → IsDay (closed_day closed_before o)
  IsDay-closed_day none = tt
  IsDay-closed_day (some eod) = elim (Bool-cases (eod % 86_400 == 86_399)) [
    | inr other ↦ rw other tt
    | inl end ↦ elim (Bool-cases (leb closed_before eod)) [
      | inl late ↦ rw (end, late) tt
      | inr early ↦ rw (end, early) (ground (arith, end), ground (arith, early))
    ]
  ]

  read_timestamp-IsDay : (raw : Json) → IsDay (read_timestamp closed_before raw)
  unfolding read_timestamp
  read_timestamp-IsDay (number n) = IsDay-closed_day (safe_positive n)
  read_timestamp-IsDay undefined = tt
  read_timestamp-IsDay null = tt
  read_timestamp-IsDay (boolean b) = tt
  read_timestamp-IsDay (string t) = tt
  read_timestamp-IsDay (array a) = tt
  read_timestamp-IsDay (object o) = tt

  of_fields-IsSound :
      (c : Field (ℕ × Text)) (t : Field Text) (d : Field ℕ)
      → IsChain c
      → IsToken t
      → IsDay d
      → IsSound (of_fields checksum c t d)
  of_fields-IsSound (valid (id, chain)) (valid token) (valid eod) c t (d, e) = record {
    address = token;
    pattern = t;
    token = refl;
    token_lowercase = refl;
    chain = c;
    day_end = d;
    closed = e;
  }
  of_fields-IsSound (valid (id, chain)) (valid token) (broken issue) c t d = tt
  of_fields-IsSound (valid (id, chain)) (broken issue) (valid eod) c t d = tt
  of_fields-IsSound (valid (id, chain)) (broken issue) (broken other) c t d = tt
  of_fields-IsSound (broken issue) t d c e f = tt

  pub normalize-IsSound :
      (raw : Json) → IsSound (normalize_manifest_target checksum closed_before raw)
  unfolding normalize_manifest_target
  normalize-IsSound (object entry) =
      of_fields-IsSound _ _ _ (read_chain_id-IsChain (read_member (text "chainId") entry))
        (read_token-IsToken (read_member (text "token") entry))
        (read_timestamp-IsDay (read_member (text "eodTimestamp") entry))
  normalize-IsSound undefined = tt
  normalize-IsSound null = tt
  normalize-IsSound (boolean b) = tt
  normalize-IsSound (number n) = tt
  normalize-IsSound (string t) = tt
  normalize-IsSound (array a) = tt
