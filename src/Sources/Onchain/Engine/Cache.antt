-- ===== src/Sources/Onchain/Engine/Cache.antt =====
-- What the engine's state promises.
use yearn_prices.Common.{
  Bool-cases, List, arith, false, inl, inr, nat_eq, option_eq, pair_eq, some, string_eq, sym, true,
  ◌∙◌, ◌≡◌, ◌≤◌,
}
use yearn_prices.Common.OrderedMap.{get, get-set, set}
use yearn_prices.Utils.Text.{text_eq}
use yearn_prices.Db.Prices.{Rejection, is_rejected_price}
use yearn_prices.Sources.Onchain.Paths.{
  PricePath, PriceResult, PriceTarget, ResolutionFailure, TargetKey, is_valid_path, key_beq,
  key_beq_iff, key_eq, priced, target_key, unpriced,
}
use yearn_prices.Sources.Onchain.Engine.{
  Engine, Settings, depends_on_branch, store_failure, store_path,
}

-- Whether a path is valid depends on the target's key alone.
is_valid_path-target_key :
    (rejected : List Rejection) (path : PricePath) (t u : PriceTarget)
    → target_key t ≡ target_key u
    → is_valid_path rejected path t ≡ is_valid_path rejected path u
unfolding is_valid_path is_rejected_price
is_valid_path-target_key rejected path t u e = ground (arith, e)

module _ (s : Settings) where
  -- A stored path is valid for every target of its key.
  abbrev pub IsStoredPath : TargetKey → PricePath → Type 0
  IsStoredPath key path =
      (t : PriceTarget) → target_key t ≡ key → is_valid_path s.rejected path t ≡ true

  pub record IsSoundEngine (e : Engine) : Type 0 where
    pub paths :
        (key : TargetKey) (path : PricePath)
        → get key e.successful ≡ some path
        → IsStoredPath key path
    -- No stored failure has a reason of the branch that it was met in: cycle or max-depth.
    pub failures :
        (key : TargetKey) (failure : ResolutionFailure)
        → get key e.failed ≡ some failure
        → depends_on_branch failure.reason ≡ false
    pub within : e.resolutions ≤ s.resolution_budget

  -- What an answer promises: a sound engine, and a path that is valid for the target.
  abbrev pub IsGood : PriceTarget → PriceResult × Engine → Type 0
  IsGood target (priced path, e) = IsSoundEngine e × (is_valid_path s.rejected path target ≡ true)
  IsGood target (unpriced failure, e) = IsSoundEngine e

  pub IsGood-sound :
      (target : PriceTarget) (r : PriceResult × Engine) → IsGood target r → IsSoundEngine (r.1)
  IsGood-sound target (priced path, e) g = g.0
  IsGood-sound target (unpriced failure, e) g = g

  pub store_path-IsSoundEngine :
      (target : PriceTarget) (path : PricePath) (e : Engine)
      → is_valid_path s.rejected path target ≡ true
      → IsSoundEngine e
      → IsSoundEngine (store_path target path e)
  store_path-IsSoundEngine target path e v h = record {
    paths = λ key p g t same. stored key p g t same;
    failures = h.failures;
    within = h.within;
  }
    where
      stored :
          (key : TargetKey) (p : PricePath)
          → get key (set (target_key target) path e.successful) ≡ some p
          → IsStoredPath key p
      stored key p g t same = elim (Bool-cases (key_beq (target_key target) key)) [
        | inl new ↦
            let is_path : path ≡ p =
              ground (arith, g, new, get-set key (target_key target) path e.successful) in
            let is_key : target_key target ≡ key = (key_beq_iff (target_key target) key).0 new in
            rw (← is_path)
              (is_valid_path-target_key s.rejected path t target (same ∙ sym is_key) ∙ v)
        | inr old ↦
            h.paths key p
              (ground (arith, g, old, get-set key (target_key target) path e.successful)) t same
      ]

  pub store_failure-IsSoundEngine :
      (target : PriceTarget) (failure : ResolutionFailure) (e : Engine)
      → depends_on_branch failure.reason ≡ false
      → IsSoundEngine e
      → IsSoundEngine (store_failure target failure e)
  store_failure-IsSoundEngine target failure e d h = record {
    paths = h.paths;
    failures = λ key f g.
        ground (arith, g, d, h.failures key f, get-set key (target_key target) failure e.failed);
    within = h.within;
  }
