-- ===== src/Sources/Onchain/Engine/Sound.antt =====
-- A resolution, from an adapter's program to `resolveAt`.
use Prim.Native.String.{String}
use yearn_prices.Common.{
  Bool, Bool-cases, List, Option-cases, [], any, arith, eqb, false, inl, inr, leb, leb_false→lt,
  nat_eq, none, option_eq, pair_eq, refl, some, string_eq, subst, suc, sym, zero, ℕ, ◌++◌, ◌+◌, ◌∷◌,
  ◌≡◌,
}
use yearn_prices.Common.OrderedMap.{get}
use yearn_prices.Utils.Text.{text_eq}
use yearn_prices.Sources.Onchain.Paths.{
  Attempt, Normalized, PriceResult, PriceTarget, PricingError, TargetKey, adapter_path,
  classify_error, is_valid_path, key_eq, normalize_target, normalized, priced, refused,
  select_failure_reason, target_key, unpriced,
}
use yearn_prices.Sources.Onchain.Engine.{
  Adapter, Ending, Engine, MarketAnswer, Program, Settings, after_adapter, after_market, ask_child,
  asks, depends_on_branch, give_up, hint_key, is_empty, market_error, market_price, no_price,
  ordered_adapters, quoted, raised, raises, resolve_at, resolve_cached, resolve_uncached, returns,
  run_program, try_adapters, walk,
}
use yearn_prices.Sources.Onchain.Engine.Cache.{
  IsGood, IsGood-sound, IsSoundEngine, store_failure-IsSoundEngine, store_path-IsSoundEngine,
}

-- The market resolver reports no failure of a branch: it never asks the engine.
abbrev pub HasPlainMarket : Settings → Type 0
HasPlainMarket s =
    (moment : ℕ) (target : PriceTarget) (error : PricingError)
    → s.market moment target ≡ market_error error
    → depends_on_branch (classify_error error) ≡ false

module _ (s : Settings) (resolve_child : PriceTarget → Engine → PriceResult × Engine)
    (child_good : (t : PriceTarget) (e : Engine)
      → IsSoundEngine s e
      → IsGood s t (resolve_child t e)) where
  ask_child-IsSoundEngine :
      (n : Normalized) (e : Engine)
      → IsSoundEngine s e
      → IsSoundEngine s (ask_child s resolve_child n e).1
  ask_child-IsSoundEngine (refused error) e h = h
  ask_child-IsSoundEngine (normalized target) e h =
      IsGood-sound s target (resolve_child target e) (child_good target e h)

  run_program-IsSoundEngine :
      (p : Program) (e : Engine)
      → IsSoundEngine s e
      → IsSoundEngine s (run_program s resolve_child p e).1
  unfolding run_program
  run_program-IsSoundEngine (returns quote) e h = h
  run_program-IsSoundEngine (raises error) e h = h
  run_program-IsSoundEngine (asks child next) e h =
      run_program-IsSoundEngine
        (next (ask_child s resolve_child (normalize_target s.checksum child) e).0)
        (ask_child s resolve_child (normalize_target s.checksum child) e).1
        (ask_child-IsSoundEngine (normalize_target s.checksum child) e h)

  after_adapter-IsGood :
      (target : PriceTarget) (name : String) (attempts : List Attempt)
      (next : List Attempt → Engine → PriceResult × Engine)
      → ((more : List Attempt) (e : Engine) → IsSoundEngine s e → IsGood s target (next more e))
      → (ending : Ending × Engine) → IsSoundEngine s (ending.1)
      → IsGood s target (after_adapter s resolve_child target name attempts next ending)
  after_adapter-IsGood target name attempts next rest (raised error, e) h = rest _ e h
  after_adapter-IsGood target name attempts next rest (quoted none, e) h = rest attempts e h
  after_adapter-IsGood target name attempts next rest (quoted (some quote), e) h =
      elim (Bool-cases (is_valid_path s.rejected (adapter_path s.now target name quote) target)) [
        | inl valid ↦
            let kept =
              store_path-IsSoundEngine s target (adapter_path s.now target name quote) e valid h in
            rw valid
              (record { paths = kept.paths; failures = kept.failures; within = kept.within }, valid)
        | inr bad ↦ rw bad (rest _ e h)
      ]

  give_up-IsGood :
      (target : PriceTarget) (attempts : List Attempt) (e : Engine)
      → IsSoundEngine s e
      → IsGood s target (give_up s resolve_child target attempts e)
  give_up-IsGood target attempts e h =
      elim (Bool-cases (depends_on_branch (select_failure_reason attempts))) [
        | inl branch ↦ rw branch h
        | inr plain ↦ rw plain (store_failure-IsSoundEngine s target _ e plain h)
      ]

  try_adapters-IsGood :
      (adapters : List Adapter) (moment : ℕ) (target : PriceTarget) (attempts : List Attempt)
      (e : Engine)
      → IsSoundEngine s e
      → IsGood s target (try_adapters s resolve_child adapters moment target attempts e)
  unfolding try_adapters
  try_adapters-IsGood [] moment target attempts e h = give_up-IsGood target attempts e h
  try_adapters-IsGood (a ∷ adapters) moment target attempts e h =
      after_adapter-IsGood target a.name attempts _
        (λ more g k. try_adapters-IsGood adapters moment target more g k)
        (run_program s resolve_child (a.program moment target) e)
        (run_program-IsSoundEngine (a.program moment target) e h)

  walk-IsGood :
      (moment : ℕ) (target : PriceTarget) (e : Engine)
      → IsSoundEngine s e
      → IsGood s target (walk s resolve_child moment target e)
  walk-IsGood moment target e h =
      try_adapters-IsGood (ordered_adapters (get (hint_key target) e.adapter_hints) s.adapters)
        moment target [] e h

  module _ (plain : HasPlainMarket s) where
    after_market-IsGood :
        (moment : ℕ) (target : PriceTarget) (e : Engine) (m : MarketAnswer)
        → s.market moment target ≡ m
        → IsSoundEngine s e
        → IsGood s target (after_market s resolve_child moment target e m)
    after_market-IsGood moment target e (market_price path) same h =
        elim (Bool-cases (is_valid_path s.rejected path target)) [
          | inl valid ↦ rw valid (store_path-IsSoundEngine s target path e valid h, valid)
          | inr bad ↦ rw bad (store_failure-IsSoundEngine s target _ e refl h)
        ]
    after_market-IsGood moment target e no_price same h = walk-IsGood moment target e h
    after_market-IsGood moment target e (market_error error) same h =
        store_failure-IsSoundEngine s target _ e (ground (arith, plain moment target error same)) h

    resolve_uncached-IsGood :
        (target : PriceTarget) (is_root : Bool) (e : Engine)
        → IsSoundEngine s e
        → IsGood s target (resolve_uncached s resolve_child target is_root e)
    unfolding resolve_uncached
    resolve_uncached-IsGood target is_root e h =
        elim (Bool-cases (leb s.resolution_budget e.resolutions)) [
          | inl spent ↦ rw spent (store_failure-IsSoundEngine s target _ e refl h)
          | inr left ↦
              let counted : IsSoundEngine s (record e { resolutions = e.resolutions + 1 }) =
                record {
                  paths = h.paths;
                  failures = h.failures;
                  within = omega (arith, leb_false→lt _ _ left);
                } in
              elim (Bool-cases is_root) [
                | inl root ↦ rw (left, root) (walk-IsGood e.resolutions target _ counted)
                | inr below ↦
                    rw (left, below)
                      (after_market-IsGood e.resolutions target _ (s.market e.resolutions target)
                        refl counted)
              ]
        ]

    resolve_cached-IsGood :
        (target : PriceTarget) (is_root : Bool) (e : Engine)
        → IsSoundEngine s e
        → IsGood s target (resolve_cached s resolve_child target is_root e)
    resolve_cached-IsGood target is_root e h =
        let whole = resolve_cached s resolve_child target is_root e in
        elim (Option-cases (get (target_key target) e.successful)) [
          | inr (path, known) ↦
              let step : whole ≡ (priced path, e) = ground (arith, known) in
              subst (IsGood s target) (sym step)
                (h, h.paths (target_key target) path known target refl)
          | inl unknown ↦ elim (Option-cases (get (target_key target) e.failed)) [
            | inr (failure, known) ↦
                let step : whole ≡ (unpriced failure, e) = ground (arith, unknown, known) in
                subst (IsGood s target) (sym step) h
            | inl new ↦
                let step : whole ≡ resolve_uncached s resolve_child target is_root e =
                  ground (arith, unknown, new) in
                subst (IsGood s target) (sym step) (resolve_uncached-IsGood target is_root e h)
          ]
        ]

module _ (s : Settings) (plain : HasPlainMarket s) where
  -- At any depth and below any ancestry, a resolution ends; it keeps the engine sound, so that the
  -- budget holds, stored paths are valid for their keys and no stored failure has the reason cycle or
  -- max-depth; and a path that it answers with is valid for the target: of its chain and token, with a
  -- positive finite price and inputs, and not quarantined.
  pub resolve_at-IsGood :
      (left : ℕ) (target : PriceTarget) (ancestry : List TargetKey) (e : Engine)
      → IsSoundEngine s e
      → IsGood s target (resolve_at s left target ancestry e)
  unfolding resolve_at
  resolve_at-IsGood zero target ancestry e h =
      elim (Bool-cases (any (λ k. eqb k (target_key target)) ancestry)) [
        | inl met ↦ rw met h
        | inr new ↦ rw new h
      ]
  resolve_at-IsGood (suc left) target ancestry e h =
      elim (Bool-cases (any (λ k. eqb k (target_key target)) ancestry)) [
        | inl met ↦ rw met h
        | inr new ↦ rw new (
            resolve_cached-IsGood s _
              (λ t g k. resolve_at-IsGood left t (ancestry ++ target_key target ∷ []) g k) plain
              target (is_empty ancestry) e h)
      ]
