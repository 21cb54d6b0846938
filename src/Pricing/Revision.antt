-- ===== src/Pricing/Revision.antt =====
-- packages/pricing/src/revision.ts: P1 = P0 × (a + b × S1 / S0).
use contrats.Base.{not, ◌||◌, List, or_else}
use contrats.Base.Result.{Result, ok, refuse, ◌>>=◌, ◌>>◌}
use contrats.Formula.Evaluator.{Decimals}
use contrats.Pricing.Dates.{
  PricingError, invalid_revision_coefficients, revision_division_by_zero, parse_iso_date,
}
use contrats.Pricing.Indexes.{PriceIndex, IndexLookupRule, IndexObservation, lookup_index_value}
use contrats.Pricing.Money.{parse_decimal_within}
use contrats.Pricing.Types.{RevisionSpec}

module _ (A : Decimals) where
  unfoldable pub assert_revision_coefficients :
      A.Decimal → A.Decimal → Result PricingError (Unit {0})
  assert_revision_coefficients a b = do
    refuse (A.is_negative a || A.is_negative b) invalid_revision_coefficients
    refuse (not (A.eq (A.plus a b) A.one)) invalid_revision_coefficients

  unfoldable pub revision_coefficient :
      A.Decimal → A.Decimal → A.Decimal → A.Decimal → Result PricingError A.Decimal
  unfolding assert_revision_coefficients
  revision_coefficient a b s0 s1 = do
    assert_revision_coefficients a b
    refuse (A.is_zero s0) revision_division_by_zero
    ok (A.plus a (A.times b (A.div s1 s0)))

  pub record RevisionComputation : Type 0 where
    pub p0 : A.Decimal
    pub a : A.Decimal
    pub b : A.Decimal
    pub s0 : IndexObservation
    pub s1 : IndexObservation
    pub ratio : A.Decimal
    pub coefficient : A.Decimal
    pub exact : A.Decimal

  -- What follows the readings of the index.
  abbrev pub revised :
      A.Decimal → A.Decimal → A.Decimal → IndexObservation → IndexObservation → RevisionComputation
  revised p0 a b first last =
      let ratio = A.div (A.of_text last.value) (A.of_text first.value) in
      let coefficient = A.plus a (A.times b ratio) in
      record {
        p0 = p0;
        a = a;
        b = b;
        s0 = first;
        s1 = last;
        ratio = ratio;
        coefficient = coefficient;
        exact = A.times p0 coefficient;
      }

  unfoldable pub compute_revision :
      A.Decimal
      → RevisionSpec
      → List PriceIndex
      → IndexLookupRule
      → Result PricingError RevisionComputation
  unfolding assert_revision_coefficients parse_decimal_within
  compute_revision p0 spec indexes default_lookup = do
    let rule = or_else spec.lookup default_lookup
    a ← parse_decimal_within A 6 spec.a
    b ← parse_decimal_within A 6 spec.b
    assert_revision_coefficients a b
    reference ← parse_iso_date spec.reference_date
    first ← lookup_index_value indexes spec.index_code reference rule
    revision ← parse_iso_date spec.revision_date
    last ← lookup_index_value indexes spec.index_code revision rule
    refuse (A.is_zero (A.of_text first.value)) revision_division_by_zero
    ok (revised p0 a b first last)
