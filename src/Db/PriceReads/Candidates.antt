-- ===== src/Db/PriceReads/Candidates.antt =====
-- The rows of FROM and WHERE, by the requests that they answer.
use yearn_prices.Db.PriceReads.Ordered.{place_eq}
use yearn_prices.Utils.Text.{text_beq_iff, to_lower_case}
use yearn_prices.Common.{
  Bool, In, In-append_left, In-append_right, In-keep, In-map, List, Option, [], ap, append-In,
  arith, false, inl, inr, keep, keep-In, map, map-In, refl, subst, sym, true, ℕ, ◌&&◌, ◌∙◌, ◌∷◌,
  ◌≡◌,
}
use yearn_prices.Utils.Validation.{HistoricalRequestTuple}
use yearn_prices.Db.Prices.{PriceRow, PriceSource, Rejection}
use yearn_prices.Db.PriceReads.{
  Place, answered, has_source, is_accepted_for, is_candidate, joined, joins, same_place,
}

module _ (rejected : List Rejection) (now : ℕ) (finalized_only : Bool) (source : Option PriceSource)
    (table : List PriceRow) where
  -- A row, under the token of the answer, that one of the requests asks for and that may be served.
  pub record IsCandidate (requests : List HistoricalRequestTuple) (x : PriceRow) : Type 0 where
    pub request : HistoricalRequestTuple
    pub row : PriceRow
    pub asked : In request requests
    pub stored : In row table
    pub fits : is_candidate rejected now finalized_only source request row ≡ true
    pub answer : x ≡ answered finalized_only request row

  pub joined-IsCandidate :
      (requests : List HistoricalRequestTuple) (x : PriceRow)
      → In x (joined rejected now finalized_only source requests table)
      → IsCandidate requests x
  unfolding joined
  joined-IsCandidate [] x m = absurd m
  joined-IsCandidate (r ∷ requests) x m =
      let test = is_candidate rejected now finalized_only source r in
      elim (append-In x (map (answered finalized_only r) (keep test table)) _ m) [
        | inl first ↦
            let (row, n, e) = map-In (answered finalized_only r) x (keep test table) first in
            let (stored, fits) = In-keep test row table n in
            record {
              request = r;
              row = row;
              asked = inl refl;
              stored = stored;
              fits = fits;
              answer = e;
            }
        | inr later ↦
            let c = joined-IsCandidate requests x later in
            record {
              request = c.request;
              row = c.row;
              asked = inr c.asked;
              stored = c.stored;
              fits = c.fits;
              answer = c.answer;
            }
      ]

  pub IsCandidate-joined :
      (requests : List HistoricalRequestTuple) (x : PriceRow) (request : HistoricalRequestTuple)
      (row : PriceRow)
      → In request requests
      → In row table
      → is_candidate rejected now finalized_only source request row ≡ true
      → x ≡ answered finalized_only request row
      → In x (joined rejected now finalized_only source requests table)
  unfolding joined
  IsCandidate-joined [] x request row m n t e = absurd m
  IsCandidate-joined (r ∷ requests) x request row (inl same) n t e =
      let test = is_candidate rejected now finalized_only source r in
      let found =
        keep-In test row table n
          (subst (λ q. is_candidate rejected now finalized_only source q row ≡ true) same t) in
      let d = e ∙ ap (λ q. answered finalized_only q row) same in
      In-append_left x (map (answered finalized_only r) (keep test table)) _ (
        subst (λ z. In z (map (answered finalized_only r) (keep test table))) (sym d)
          (In-map (answered finalized_only r) row (keep test table) found))
  IsCandidate-joined (r ∷ requests) x request row (inr m) n t e =
      In-append_right x _ _ (IsCandidate-joined requests x request row m n t e)

  abbrev request_at : PriceRow → HistoricalRequestTuple
  request_at x = record { chain = x.chain; token = x.token; timestamp = x.timestamp }

  -- The place of an answer is that of its request.
  request-answered :
      (only : Bool) (r : HistoricalRequestTuple) (tp : PriceRow)
      → joins only r tp ≡ true
      → r ≡ request_at (answered only r tp)
  request-answered true r tp h = ground (
    arith,
    h,
    text_beq_iff tp.chain r.chain,
    text_beq_iff (to_lower_case tp.token) (to_lower_case r.token),
  )
  request-answered false r tp h =
      ground (arith, h, text_beq_iff tp.chain r.chain, text_beq_iff tp.token r.token)

  request-IsCandidate :
      (requests : List HistoricalRequestTuple) (x : PriceRow) (c : IsCandidate requests x)
      → c.request ≡ request_at x
  request-IsCandidate requests x c =
      request-answered finalized_only c.request c.row (
        first_test (joins finalized_only c.request c.row)
          (is_accepted_for rejected now finalized_only c.row) (has_source source c.row) c.fits)
      ∙ ap request_at (sym c.answer)
    where
      first_test : (a b d : Bool) → (a && b && d) ≡ true → a ≡ true
      first_test a b d h = ground (arith, h)

  -- A candidate of the place of another's is one for the same request.
  pub rejoins :
      (part requests : List HistoricalRequestTuple) (x y : PriceRow)
      → IsCandidate part x
      → IsCandidate requests y
      → same_place x y ≡ true
      → In y (joined rejected now finalized_only source part table)
  rejoins part requests x y c d s =
      let e = place_eq x y s in
      let same : request_at x ≡ request_at y =
        ap (λ (p : Place). record { chain = p.0; token = p.1.0; timestamp = p.1.1 }) e in
      let r = request-IsCandidate requests y d ∙ sym same ∙ sym (request-IsCandidate part x c) in
      IsCandidate-joined part y d.request d.row (subst (λ q. In q part) (sym r) c.asked) d.stored
        d.fits d.answer
