-- ===== src/Utils/Collections/Chunks.antt =====
-- What the chunks of a list are.
use yearn_prices.Common.{
  Bool-cases, List, Option, [], ap, arith, drop, inl, inr, length, length-drop, length-take, ltb,
  ltb_false→le, ltb→lt, refl, some, suc, sym, take, take-append-drop, zero, ℕ, ◌++◌, ◌+◌, ◌-◌, ◌<◌,
  ◌∷◌, ◌≡◌, ◌≤◌,
}
use yearn_prices.Utils.Collections.{chunk, chunk_from}
use Prim.Native.Nat.add

module _ {ℓ} {A : Type ℓ} where
  abbrev pub flatten : List (List A) → List A
  flatten [] = []
  flatten (c ∷ cs) = c ++ flatten cs

  drop-drop : (n m : ℕ) (xs : List A) → drop n (drop m xs) ≡ drop (m + n) xs
  drop-drop n zero xs = rw add.zero
  drop-drop zero (suc m) [] = rw add.suc
  drop-drop (suc n) (suc m) [] = rw add.suc
  drop-drop n (suc m) (x ∷ xs) = rw add.suc (drop-drop n m xs)

  drop_past : (n : ℕ) (xs : List A) → length xs ≤ n → drop n xs ≡ []
  drop_past zero [] h = refl
  drop_past zero (x ∷ xs) h = absurd (omega arith)
  drop_past (suc n) [] h = refl
  drop_past (suc n) (x ∷ xs) h = drop_past n xs (omega arith)

  -- Every chunk that more items follow has `size` items; the last has between one and `size`.
  abbrev pub HasSize : ℕ → List (List A) → Type 0
  HasSize size [] = Unit
  HasSize size (c ∷ cs) =
      (0 < length c)
      × (length c ≤ size)
      × (0 < length (flatten cs) → length c ≡ size)
      × HasSize size cs

  abbrev pub CutsInto : List A → ℕ → Option (List (List A)) → Type ℓ
  CutsInto items size result =
      (chunks : List (List A)) × (result ≡ some chunks)
      × (flatten chunks ≡ items)
      × HasSize size chunks

  chunk_from-CutsInto :
      (fuel index : ℕ) (items : List A) (size : ℕ)
      → 0 < size
      → length items - index < fuel
      → CutsInto (drop index items) size (chunk_from fuel index items size)
  unfolding chunk_from
  chunk_from-CutsInto zero index items size p f =
      ([], absurd (omega arith), absurd (omega arith), tt)
  chunk_from-CutsInto (suc fuel) index items size p f =
      elim (Bool-cases (ltb index (length items))) [
        | inl more ↦
            let (chunks, e, whole, sized) =
              chunk_from-CutsInto fuel (index + size) items size p
                (omega (arith, ltb→lt _ _ more)) in
            (
              take size (drop index items) ∷ chunks,
              rw (more, e),
              rw (whole, ← drop-drop size index items) (take-append-drop size (drop index items)),
              (
                omega (
                  arith,
                  ltb→lt _ _ more,
                  length-take size (drop index items),
                  length-drop index items,
                ),
                omega (arith, length-take size (drop index items)),
                (λ later. omega (
                  arith,
                  later,
                  ap length whole,
                  length-take size (drop index items),
                  length-drop index items,
                  length-drop (index + size) items,
                )),
                sized,
              ),
            )
        | inr last ↦ ([], rw last, sym (drop_past index items (ltb_false→le _ _ last)), tt)
      ]

-- With a positive size, `chunk` ends and returns chunks whose concatenation is the list of items,
-- each with at least one and at most `size` items, and all but the last with exactly `size`.
pub chunk-CutsInto {ℓ} :
    {A : Type ℓ} (items : List A) (size : ℕ) → 0 < size → CutsInto items size (chunk items size)
unfolding chunk
chunk-CutsInto items size p = chunk_from-CutsInto (length items + 1) 0 items size p (omega arith)
