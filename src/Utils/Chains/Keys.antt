-- ===== src/Utils/Chains/Keys.antt =====
-- Token keys: what parsing accepts.
use yearn_prices.Utils.Text.Lower.{length-to_lower_case, to_lower_case_idem}
use yearn_prices.Common.{
  Bool-cases, Option-cases, [], arith, inl, inr, length, none, refl, some, true, ℕ, ◌<◌, ◌==◌, ◌∷◌,
  ◌≡◌,
}
use yearn_prices.Utils.Text.{Text, lower_code, split_colon, text_eq, to_lower_case}
use yearn_prices.Http.{ok}
use yearn_prices.Utils.Chains.{
  ParsedTokenKey, is_supported_chain, is_token_address, join_key, normalize_token_address,
  parse_token_key,
}

-- What EIP-55 documents of a checksummed address: it is an address, the same one in another case,
-- and depends on the address and not on the case that it was given in.
pub record IsChecksum (checksum : Text → Text) : Type 0 where
  pub address : (t : Text) → is_token_address t ≡ true → is_token_address (checksum t) ≡ true
  pub same_lower : (t : Text) → to_lower_case (checksum t) ≡ to_lower_case t
  pub of_lower : (t u : Text) → to_lower_case t ≡ to_lower_case u → checksum t ≡ checksum u

split_colon-eq-some :
    (s before after : Text)
    → split_colon s ≡ some (before, after)
    → (s ≡ join_key before after) × (split_colon before ≡ none)
unfolding split_colon
split_colon-eq-some [] before after h = cc
split_colon-eq-some (c ∷ s) before after h = elim (Bool-cases (c == b':')) [
  | inl colon ↦ ground (arith, colon)
  | inr other ↦ elim (Option-cases (split_colon s)) [
    | inl absent ↦ absurd (ground (arith, absent, other))
    | inr ((before', after'), found) ↦
        ground (arith, found, other, split_colon-eq-some s before' after' found)
  ]
]

split_colon-join_key :
    (before after : Text)
    → split_colon before ≡ none
    → split_colon (join_key before after) ≡ some (before, after)
unfolding split_colon
split_colon-join_key [] after h = refl
split_colon-join_key (c ∷ before) after h = ground (arith, split_colon-join_key before after)

lower_code-colon : (c : ℕ) → (lower_code c == b':') ≡ (c == b':')
unfolding lower_code
lower_code-colon c = ground arith

split_colon-to_lower_case : (s : Text) → split_colon s ≡ none → split_colon (to_lower_case s) ≡ none
unfolding split_colon to_lower_case
split_colon-to_lower_case [] h = refl
split_colon-to_lower_case (c ∷ s) h =
    ground (arith, lower_code-colon c, split_colon-to_lower_case s)

length_of_address : (token : Text) → is_token_address token ≡ true → 0 < length token
unfolding is_token_address
length_of_address [] h = cc
length_of_address (a ∷ token) h = omega arith

module _ {checksum : Text → Text} (law : IsChecksum checksum) where
  -- The canonical key parses to itself.
  parse_canonical :
      (chain token : Text)
      → split_colon chain ≡ none
      → 0 < length chain
      → is_supported_chain (to_lower_case chain) ≡ true
      → is_token_address token ≡ true
      → let canonical = join_key (to_lower_case chain) (checksum token) in
        parse_token_key checksum canonical
        ≡ ok (record { chain = to_lower_case chain; token = checksum token; token_key = canonical })
  unfolding parse_token_key normalize_token_address
  parse_canonical chain token colon p known address = ground (
    arith,
    split_colon-join_key (to_lower_case chain) (checksum token)
        (split_colon-to_lower_case chain colon),
    law.address token address,
    law.of_lower (checksum token) token (law.same_lower token),
    to_lower_case_idem chain,
    length-to_lower_case chain,
    length_of_address (checksum token),
  )

  -- A key that parses names a supported chain in lower case and a token address, and its canonical
  -- form `chain:token` parses to the very same result.
  pub parse_token_key-canonical :
      (key : Text) (p : ParsedTokenKey)
      → parse_token_key checksum key ≡ ok p
      → (is_supported_chain p.chain ≡ true)
        × (is_token_address p.token ≡ true)
        × (p.token_key ≡ join_key p.chain p.token)
        × (parse_token_key checksum p.token_key ≡ ok p)
  unfolding parse_token_key normalize_token_address
  parse_token_key-canonical key p h = elim (Option-cases (split_colon key)) [
    | inl none_found ↦ absurd (ground (arith, none_found))
    | inr ((before, after), found) ↦ ground (
      arith,
      found,
      split_colon-eq-some key before after found,
      parse_canonical before after,
      law.address after,
      to_lower_case_idem before,
    )
  ]
