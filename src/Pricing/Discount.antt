-- ===== src/Pricing/Discount.antt =====
-- packages/pricing/src/price-at.ts: priceDiscountLine. The priced lines are those of the schedule that
-- are no discounts, in its order.
pub mod Granted
use contrats.Base.{
  ℕ, Bool, true, false, not, ◌&&◌, ◌||◌, Option, none, some, List, [], ◌∷◌, map, any, if◌then◌else◌,
}
use contrats.Base.Int.{ℤ, pos, ◌+ℤ◌}
use contrats.Base.Text.{Text}
use contrats.Base.Order.{text_eqb}
use contrats.Base.Result.{Result, ok, err, refuse, ◌>>=◌, ◌>>◌}
use contrats.Formula.Evaluator.{Decimals}
use contrats.Pricing.Dates.{
  PricingError, refused_line, discount_target_mismatch, discount_exceeds_base,
}
use contrats.Pricing.Line.{Ctx, parse_vat}
use contrats.Pricing.Line.Price.{PricedLine}
use contrats.Pricing.Money.{
  Printing, whole, parse_decimal_within, to_cents, cents_to_euros, format_cents,
}
use contrats.Pricing.Trace.{TraceStep, discount_step, rounding, line_total}
use contrats.Pricing.Types.{
  LineKind, discount, PricingMode, manual, Recurrence, DiscountKind, percent, amount, DiscountSpec,
  DiscountTarget, on_lines, subtotal, PricingLine, is_kind, is_recurrence,
}

abbrev pub is_manual : PricingMode → Bool
is_manual manual = true
is_manual mode = false

abbrev pub differs_from : Option Recurrence → Recurrence → Bool
differs_from none r = false
differs_from (some asked) r = not (is_recurrence asked r)

-- `new Set(ids).size !== ids.length`
abbrev pub has_repeats : List Text → Bool
has_repeats [] = false
has_repeats (id ∷ ids) = any (text_eqb id) ids || has_repeats ids

-- `schedLines.get(id)`
unfoldable pub line_with_id : Text → List PricingLine → Option PricingLine
line_with_id id [] = none
line_with_id id (l ∷ lines) =
    let rest = line_with_id id lines in if text_eqb l.id id then some l else rest

module _ (A : Decimals) (P : Printing A) where
  -- `priced.get(id)`
  unfoldable pub priced_with_id : Text → List (PricedLine A) → Option (PricedLine A)
  priced_with_id id [] = none
  priced_with_id id (p ∷ priced) =
      let rest = priced_with_id id priced in if text_eqb p.line_id id then some p else rest

  -- The target `id` of a discount. Every line that is no discount has been priced.
  unfoldable pub target_of :
      PricingLine
      → List PricingLine
      → List (PricedLine A)
      → Text
      → Result PricingError (PricedLine A)
  unfolding line_with_id priced_with_id
  target_of line lines priced id = elim (line_with_id id lines) [
    | none ↦ err (refused_line line.id)
    | some target ↦
        refuse (is_kind target.kind discount) (refused_line line.id)
        >> elim (priced_with_id id priced) [ none ↦ err (refused_line line.id) | some p ↦ ok p ]
  ]

  unfoldable pub targets_of :
      PricingLine
      → List PricingLine
      → List (PricedLine A)
      → List Text
      → Result PricingError (List (PricedLine A))
  unfolding target_of
  targets_of line lines priced [] = ok []
  targets_of line lines priced (id ∷ ids) = do
    p ← target_of line lines priced id
    rest ← targets_of line lines priced ids
    ok (p ∷ rest)

  unfoldable pub targets :
      PricingLine
      → List PricingLine
      → List (PricedLine A)
      → DiscountTarget
      → Result PricingError (List (PricedLine A))
  unfolding targets_of
  targets line lines priced subtotal = ok priced
  targets line lines priced (on_lines ids) =
      refuse (has_repeats ids) (refused_line line.id) >> targets_of line lines priced ids

  -- `D(t.vatRatePercent).eq(first.vatRatePercent)`
  abbrev pub same_rate : Text → Text → Bool
  same_rate a b = A.eq (A.of_text a) (A.of_text b)

  -- The loop over the targets.
  unfoldable pub check_targets :
      PricingLine → PricedLine A → List (PricedLine A) → Result PricingError (Unit {0})
  check_targets line first [] = ok tt
  check_targets line first (t ∷ targets) = do
    refuse (not (same_rate t.vat_rate_percent first.vat_rate_percent))
        (discount_target_mismatch line.id)
    refuse (not (is_recurrence t.recurrence first.recurrence)) (discount_target_mismatch line.id)
    check_targets line first targets

  unfoldable pub check_discount :
      PricingLine → A.Decimal → PricedLine A → List (PricedLine A) → Result PricingError (Unit {0})
  unfolding check_targets
  check_discount line vat first targets = do
    check_targets line first targets
    refuse (not (A.eq vat (A.of_text first.vat_rate_percent))) (discount_target_mismatch line.id)
    refuse (differs_from line.recurrence first.recurrence) (discount_target_mismatch line.id)

  -- `targets.reduce((s, t) => s + t.totalHtCents, 0n)`
  unfoldable pub sum_cents : ℤ → List (PricedLine A) → ℤ
  sum_cents total [] = total
  sum_cents total (t ∷ targets) = sum_cents (total +ℤ t.total_ht_cents) targets

  -- The decimals that a discount may have.
  abbrev pub max_scale_of : DiscountKind → ℕ
  max_scale_of percent = 4
  max_scale_of amount = 6

  unfoldable pub discount_amount :
      Text → DiscountKind → A.Decimal → A.Decimal → Result PricingError A.Decimal
  discount_amount id percent value base =
      refuse (A.gt value (whole A P 100)) (discount_exceeds_base id)
      >> ok (A.neg (A.div (A.times base value) (whole A P 100)))
  discount_amount id amount value base =
      refuse (A.gt value base) (discount_exceeds_base id) >> ok (A.neg value)

  unfoldable pub discount_line :
      PricingLine
      → DiscountSpec
      → A.Decimal
      → PricedLine A
      → List (PricedLine A)
      → A.Decimal
      → A.Decimal
      → Ctx A P
      → PricedLine A
  discount_line line d vat first targets value exact ctx =
      let cents = to_cents A P exact ctx.settings.rounding in
      record {
        line_id = line.id;
        code = line.code;
        label = line.label;
        unit_label = line.unit_label;
        kind = discount;
        mode = line.mode;
        recurrence = first.recurrence;
        quantity = 49 ∷ [];
        unit_price = format_cents A P cents;
        vat_rate_percent = P.to_text vat;
        total_ht_cents = cents;
        trace =
            discount_step d.kind (P.to_text value) (map (λ t. t.line_id) targets)
              (P.to_text (P.of_int (sum_cents (pos 0) targets))) (P.to_text exact)
            ∷ rounding line_total (P.to_text exact) (format_cents A P cents) 2 ctx.settings.rounding
            ∷ [];
      }

  -- What follows the test that there are targets.
  unfoldable pub discount_on :
      PricingLine
      → DiscountSpec
      → A.Decimal
      → Ctx A P
      → List (PricedLine A)
      → Result PricingError (PricedLine A)
  unfolding check_discount sum_cents discount_amount discount_line
  discount_on line d vat ctx [] = err (refused_line line.id)
  discount_on line d vat ctx (first ∷ more) = do
    check_discount line vat first (first ∷ more)
    value ← parse_decimal_within A (max_scale_of d.kind) d.value
    exact ←
        discount_amount line.id d.kind value (cents_to_euros A P (sum_cents (pos 0) (first ∷ more)))
    ok (discount_line line d vat first (first ∷ more) value exact ctx)

  unfoldable pub discount_by :
      PricingLine
      → Option DiscountSpec
      → List PricingLine
      → List (PricedLine A)
      → Ctx A P
      → Result PricingError (PricedLine A)
  unfolding targets discount_on
  discount_by line none lines priced ctx = err (refused_line line.id)
  discount_by line (some d) lines priced ctx = do
    vat ← parse_vat A P line
    found ← targets line lines priced d.applies_to
    discount_on line d vat ctx found

  unfoldable pub price_discount_line :
      PricingLine
      → List PricingLine
      → List (PricedLine A)
      → Ctx A P
      → Result PricingError (PricedLine A)
  unfolding discount_by
  price_discount_line line lines priced ctx =
      refuse (not (is_manual line.mode)) (refused_line line.id)
      >> discount_by line line.discount_spec lines priced ctx
