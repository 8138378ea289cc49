-- ===== src/Backfill/Manifest/Parsed.antt =====
-- What a manifest that is accepted holds.
use yearn_prices.Common.{
  All, Bool-cases, List, Option, [], all, ap, arith, eqb, eqb_iff, false, inl, inr, length, ltb,
  ltb_false→le, map, nat_eq, none, option_eq, pair_eq, refl, some, string_eq, subst, suc, sym, ℕ,
  ◌++◌, ◌+◌, ◌∙◌, ◌∷◌, ◌≡◌, ◌≢◌, ◌≤◌,
}
use yearn_prices.Common.OrderedMap.{HasUniqueKeys, get, has, set, set-All, set-HasUniqueKeys}
use yearn_prices.Utils.Text.{Text, text, text_eq}
use yearn_prices.Utils.Json.{
  Elements, Json, array, boolean, element, no_elements, null, number, object, read_member, string,
  undefined,
}
use yearn_prices.Utils.Time.{current_utc_day_end}
use yearn_prices.Utils.Validation.{count_elements}
use yearn_prices.Backfill.Manifest.{
  Identity, Issue, ManifestOutcome, Normalized, NormalizedTarget, ParseManifestOptions, Reading,
  above_maximum_targets, add_normalized, conclude_manifest, faulty, identity, is_manifest_version,
  normalize_manifest_target, normalized, of_target, parse_document, parse_manifest, parse_targets,
  parsed, read_targets, refused, targets_of, targets_not_array, unsupported_version,
  not_json_object, not_json, above_maximum_bytes,
}
use yearn_prices.Backfill.Manifest.Targets.{IsManifestTarget, IsSound, normalize-IsSound}

module _ (checksum : Text → Text) (closed_before : ℕ) where
  -- After a number of targets: those that are seen are sound and one of each identity, and without an
  -- issue every target is seen or counted as a duplicate.
  pub record IsReading (n : ℕ) (r : Reading) : Type 0 where
    pub sound :
        All (λ e. IsManifestTarget checksum closed_before (e.1) × (e.0 ≡ identity (e.1))) r.seen
    pub unique : HasUniqueKeys r.seen
    pub counted : r.problems ≡ [] → length r.seen + r.duplicate_count ≡ n

  length-set :
      (k : Identity) (t : NormalizedTarget) (m : List (Identity × NormalizedTarget))
      → has k m ≡ false
      → length (set k t m) ≡ length m + 1
  length-set k t [] h = omega arith
  length-set k t ((j, u) ∷ m) h = elim (Bool-cases (eqb j k)) [
    | inl same ↦ absurd (ground (arith, rw same at h))
    | inr other ↦ rw other (omega (arith, length-set k t m (rw other at h)))
  ]

  add_normalized-IsReading :
      (index n : ℕ) (r : Reading) (x : Normalized)
      → IsSound checksum closed_before x
      → IsReading n r
      → IsReading (n + 1) (add_normalized checksum index r x)
  add_normalized-IsReading index n r (faulty issue more) s h = record {
    sound = h.sound;
    unique = h.unique;
    counted = λ e. absurd (ends r.problems e);
  }
    where
      ends : (ps : List Issue) → ps ++ of_target index issue ∷ map (of_target index) more ≢ []
      ends [] e = ground (arith, e)
      ends (p ∷ ps) e = ground (arith, e)
  add_normalized-IsReading index n r (normalized t) s h =
      elim (Bool-cases (has (identity t) r.seen)) [
        | inl again ↦ rw again (record {
          sound = h.sound;
          unique = h.unique;
          counted = λ e. omega (arith, h.counted e);
        })
        | inr new ↦ rw new (record {
          sound = set-All _ (identity t) t r.seen (s, refl) h.sound;
          unique = set-HasUniqueKeys (identity t) t r.seen h.unique;
          counted = λ e. omega (arith, h.counted e, length-set (identity t) t r.seen new);
        })
      ]

  pub read_targets-IsReading :
      (index n : ℕ) (elements : Elements) (r : Reading)
      → IsReading n r
      → IsReading
          (n + count_elements elements)
          (read_targets checksum closed_before index elements r)
  unfolding read_targets
  read_targets-IsReading index n no_elements r h = subst (λ m. IsReading m r) (omega arith) h
  read_targets-IsReading index n (element raw rest) r h =
      let next =
        add_normalized checksum index r (normalize_manifest_target checksum closed_before raw) in
      subst (λ m. IsReading m (read_targets checksum closed_before (index + 1) rest next))
        (omega arith)
        (read_targets-IsReading (index + 1) (n + 1) rest next (
          add_normalized-IsReading index n r (normalize_manifest_target checksum closed_before raw)
            (normalize-IsSound checksum closed_before raw) h))

  -- No two targets of one chain, token and day.
  abbrev pub HasDistinct : List NormalizedTarget → Type 0
  HasDistinct [] = Unit
  HasDistinct (t ∷ targets) = All (λ u. identity u ≢ identity t) targets × HasDistinct targets

  apart :
      (k : Identity) (seen : List (Identity × NormalizedTarget))
      → get k seen ≡ none
      → All (λ e. IsManifestTarget checksum closed_before (e.1) × (e.0 ≡ identity (e.1))) seen
      → All (λ u. identity u ≢ k) (targets_of seen)
  apart k [] e h = tt
  apart k ((j, t) ∷ seen) e ((_, same), h) = elim (Bool-cases (eqb j k)) [
    | inl found ↦ absurd (ground (arith, rw found at e))
    | inr other ↦ (
      λ d. absurd (ground (arith, sym other ∙ (eqb_iff j k).1 (same ∙ d))),
      apart k seen (rw other at e) h,
    )
  ]

  distinct :
      (seen : List (Identity × NormalizedTarget))
      → HasUniqueKeys seen
      → All (λ e. IsManifestTarget checksum closed_before (e.1) × (e.0 ≡ identity (e.1))) seen
      → All (IsManifestTarget checksum closed_before) (targets_of seen)
        × HasDistinct (targets_of seen)
        × (length (targets_of seen) ≡ length seen)
  distinct [] u h = (tt, tt, refl)
  distinct ((j, t) ∷ seen) (new, u) ((s, same), h) =
      let (a, b, c) = distinct seen u h in
      (
        (s, a),
        (subst (λ k. All (λ u. identity u ≢ k) (targets_of seen)) same (apart j seen new h), b),
        ap suc c,
      )

module _ (checksum : Text → Text) (o : ParseManifestOptions) (byte_length : ℕ) where
  -- An accepted manifest, or at least one issue.
  abbrev pub IsManifest : ManifestOutcome → Type 0
  IsManifest (parsed m) =
      All (IsManifestTarget checksum (current_utc_day_end o.now)) m.targets
      × HasDistinct checksum (current_utc_day_end o.now) m.targets
      × (length m.targets + m.duplicate_count ≡ m.requested_count)
      × (m.requested_count ≤ o.maximum_targets)
      × (byte_length ≤ o.maximum_bytes)
  IsManifest (refused all) = all ≢ []

  IsManifest-conclude :
      (n : ℕ) (r : Reading)
      → IsReading checksum (current_utc_day_end o.now) n r
      → n ≤ o.maximum_targets
      → byte_length ≤ o.maximum_bytes
      → IsManifest (conclude_manifest checksum n r)
  IsManifest-conclude n r h small fits = go r.problems refl
    where
      go :
          (ps : List Issue)
          → r.problems ≡ ps
          → IsManifest (elim ps [
            | [] ↦ parsed (record {
              requested_count = n;
              duplicate_count = r.duplicate_count;
              targets = targets_of r.seen;
            })
            | problem ∷ more ↦ refused (problem ∷ more)
          ])
      go [] e =
          let (a, b, c) = distinct checksum (current_utc_day_end o.now) r.seen h.unique h.sound in
          (a, b, omega (arith, c, h.counted e), small, fits)
      go (p ∷ ps) e = λ d. ground (arith, d)

  IsManifest-one : (issue : Issue) → IsManifest (refused (issue ∷ []))
  IsManifest-one issue d = ground (arith, d)

  parse_targets-IsManifest :
      (targets : Json)
      → byte_length ≤ o.maximum_bytes
      → IsManifest (parse_targets checksum o targets)
  parse_targets-IsManifest (array targets) fits =
      elim (Bool-cases (ltb o.maximum_targets (count_elements targets))) [
        | inl many ↦ rw many (IsManifest-one above_maximum_targets)
        | inr few ↦ rw few (
            IsManifest-conclude (count_elements targets) _
              (subst
                (λ n. IsReading checksum (current_utc_day_end o.now) n (
                  read_targets checksum (current_utc_day_end o.now) 0 targets
                    (record { problems = []; seen = []; duplicate_count = 0 })))
                (omega arith)
                (read_targets-IsReading checksum (current_utc_day_end o.now) 0 0 targets _
                  (record { sound = tt; unique = tt; counted = λ e. omega arith })))
              (ltb_false→le _ _ few) fits)
      ]
  parse_targets-IsManifest undefined fits = IsManifest-one targets_not_array
  parse_targets-IsManifest null fits = IsManifest-one targets_not_array
  parse_targets-IsManifest (boolean b) fits = IsManifest-one targets_not_array
  parse_targets-IsManifest (number n) fits = IsManifest-one targets_not_array
  parse_targets-IsManifest (string t) fits = IsManifest-one targets_not_array
  parse_targets-IsManifest (object t) fits = IsManifest-one targets_not_array

  parse_document-IsManifest :
      (document : Option Json)
      → byte_length ≤ o.maximum_bytes
      → IsManifest (parse_document checksum o document)
  parse_document-IsManifest none fits = IsManifest-one not_json
  parse_document-IsManifest (some (object d)) fits =
      elim (Bool-cases (is_manifest_version checksum (read_member (text "version") d))) [
        | inl right ↦ rw right (parse_targets-IsManifest (read_member (text "targets") d) fits)
        | inr wrong ↦ rw wrong (IsManifest-one unsupported_version)
      ]
  parse_document-IsManifest (some undefined) fits = IsManifest-one not_json_object
  parse_document-IsManifest (some null) fits = IsManifest-one not_json_object
  parse_document-IsManifest (some (boolean b)) fits = IsManifest-one not_json_object
  parse_document-IsManifest (some (number n)) fits = IsManifest-one not_json_object
  parse_document-IsManifest (some (string t)) fits = IsManifest-one not_json_object
  parse_document-IsManifest (some (array a)) fits = IsManifest-one not_json_object

  -- Every target of an accepted manifest is an address on a supported chain and the last second of a
  -- closed day; no two are of one chain, token and day; with the duplicates they are as many as were
  -- requested, at most the maximum, and the bytes are at most theirs. A refusal has an issue.
  pub parse_manifest-IsManifest :
      (document : Option Json) → IsManifest (parse_manifest checksum o byte_length document)
  unfolding parse_manifest
  parse_manifest-IsManifest document = elim (Bool-cases (ltb o.maximum_bytes byte_length)) [
    | inl large ↦ rw large (IsManifest-one above_maximum_bytes)
    | inr small ↦ rw small (parse_document-IsManifest document (ltb_false→le _ _ small))
  ]
