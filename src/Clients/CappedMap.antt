-- ===== src/Clients/CappedMap.antt =====
-- `setCapped` of src/clients/rpc.ts (src/sources/onchain/engine.ts has a copy): a `Map` used as a
-- cache that drops its oldest entry.
use yearn_prices.Common.{
  Eq, List, [], arith, eqb_iff, eqb_refl, if◌then◌else◌, length, ltb, map, none, some, ℕ, ◌+◌, ◌-◌,
  ◌<◌, ◌∷◌, ◌≡◌, ◌≤◌, ◌⊎◌,
}
use yearn_prices.Common.OrderedMap.{
  HasUniqueKeys, delete, delete-HasUniqueKeys, get, get-delete, get-set, has, length-delete, set,
  set-HasUniqueKeys,
}

module _ {K V : Type 0} ⦃e : Eq K⦄ where
  -- `map.keys().next()` and `map.delete` of that key
  drop_oldest : List (K × V) → List (K × V)
  drop_oldest [] = []
  drop_oldest ((oldest, v) ∷ m) = delete oldest ((oldest, v) ∷ m)

  unfoldable pub set_capped : K → V → ℕ → List (K × V) → List (K × V)
  unfolding drop_oldest
  set_capped key value most map =
      let fresh = set key value (if has key map then delete key map else map) in
      if ltb most (length fresh) then drop_oldest fresh else fresh

  length-set_new :
      (k : K) (v : V) (m : List (K × V)) → get k m ≡ none → length (set k v m) ≡ length m + 1
  length-set_new k v [] h = omega arith
  length-set_new k v ((i, w) ∷ m) h = ground (arith, length-set_new k v m)

  -- The map that the value is written to: the key is not in it.
  abbrev without : K → List (K × V) → List (K × V)
  without key map = if has key map then delete key map else map

  get-without : (k : K) (m : List (K × V)) → HasUniqueKeys m → get k (without k m) ≡ none
  get-without k m h = ground (arith, get-delete k k m h, eqb_refl k)

  without-HasUniqueKeys : (k : K) (m : List (K × V)) → HasUniqueKeys m → HasUniqueKeys (without k m)
  without-HasUniqueKeys k m h = ground (arith, delete-HasUniqueKeys k m h)

  length-drop_oldest : (m : List (K × V)) → length (drop_oldest m) ≡ length m - 1
  unfolding drop_oldest
  length-drop_oldest [] = omega arith
  length-drop_oldest ((i, w) ∷ m) = rw (eqb_refl i) (omega arith)

  drop_oldest-HasUniqueKeys : (m : List (K × V)) → HasUniqueKeys m → HasUniqueKeys (drop_oldest m)
  unfolding drop_oldest
  drop_oldest-HasUniqueKeys [] h = tt
  drop_oldest-HasUniqueKeys ((i, w) ∷ m) h = rw (eqb_refl i) h.1

  get-drop_oldest-set :
      (k : K) (v : V) (m : List (K × V))
      → 0 < length m
      → get k m ≡ none
      → get k (drop_oldest (set k v m)) ≡ some v
  unfolding drop_oldest
  get-drop_oldest-set k v [] p h = absurd (omega arith)
  get-drop_oldest-set k v ((i, w) ∷ m) p h =
      ground (arith, h, get-set k k v m, eqb_refl k, eqb_refl i)

  -- What is written into a map without the key, and cut if it has become too long.
  set_new-bounded :
      (k : K) (v : V) (most : ℕ) (m : List (K × V))
      → HasUniqueKeys m
      → get k m ≡ none
      → 0 < most
      → length m ≤ most
      → let m' = if ltb most (length (set k v m)) then drop_oldest (set k v m) else set k v m in
        HasUniqueKeys m' × (length m' ≤ most) × (get k m' ≡ some v)
  set_new-bounded k v most m u new p h = ground (
    arith,
    length-set_new k v m new,
    set-HasUniqueKeys k v m u,
    get-set k k v m,
    eqb_refl k,
    length-drop_oldest (set k v m),
    drop_oldest-HasUniqueKeys (set k v m),
    get-drop_oldest-set k v m,
  )

  length-without : (k : K) (m : List (K × V)) → length (without k m) ≤ length m
  length-without k m = ground (arith, length-delete k m)

  -- A cache keeps its keys unique and its size within a positive bound, and the value just written
  -- is found in it.
  pub set_capped-bounded :
      (k : K) (v : V) (most : ℕ) (m : List (K × V))
      → HasUniqueKeys m
      → 0 < most
      → length m ≤ most
      → HasUniqueKeys (set_capped k v most m)
        × (length (set_capped k v most m) ≤ most)
        × (get k (set_capped k v most m) ≡ some v)
  unfolding set_capped
  set_capped-bounded k v most m u p h =
      set_new-bounded k v most (without k m) (without-HasUniqueKeys k m u) (get-without k m u) p
        (omega (arith, length-without k m))

  get-drop_oldest :
      (j : K) (w : V) (m : List (K × V))
      → HasUniqueKeys m
      → get j (drop_oldest m) ≡ some w
      → get j m ≡ some w
  unfolding drop_oldest
  get-drop_oldest j w [] u h = h
  get-drop_oldest j w ((i, x) ∷ m) u h = ground (arith, eqb_refl i, eqb_iff i j)

  -- A cache makes no entry up: each is the one just written or was there before.
  pub get-set_capped :
      (k j : K) (v w : V) (most : ℕ) (m : List (K × V))
      → HasUniqueKeys m
      → get j (set_capped k v most m) ≡ some w
      → ((k ≡ j) × (v ≡ w)) ⊎ (get j m ≡ some w)
  unfolding set_capped
  get-set_capped k j v w most m u h = ground (
    arith,
    get-set j k v (without k m),
    get-delete j k m u,
    eqb_iff k j,
    set-HasUniqueKeys k v (without k m) (without-HasUniqueKeys k m u),
    get-drop_oldest j w (set k v (without k m)),
  )
