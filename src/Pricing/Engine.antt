-- ===== src/Pricing/Engine.antt =====
-- packages/pricing/src/price-at.ts: priceAt; schedule.ts: resolveSettings.
pub mod Loops
pub mod InOrder
pub mod Failing
use contrats.Base.{
  ℕ, Bool, true, false, not, Option, none, some, List, [], ◌∷◌, any, ltb, or_else, if◌then◌else◌,
}
use contrats.Base.Text.{Text}
use contrats.Base.Order.{text_eqb}
use contrats.Base.Result.{Result, ok, err, refuse, ◌>>=◌, ◌>>◌}
use contrats.Formula.Evaluator.{Decimals}
use contrats.Pricing.Dates.{
  PricingError, invalid_settings, refused_line, with_line, is_decimal_within, parse_iso_date,
}
use contrats.Pricing.Discount.{price_discount_line, priced_with_id}
use contrats.Pricing.Line.{Ctx}
use contrats.Pricing.Line.Price.{PricedLine, price_regular_line}
use contrats.Pricing.Money.{Printing}
use contrats.Pricing.Schedule.{PricingSchedule, select_schedule}
use contrats.Pricing.Totals.{PricingTotals, compute_totals}
use contrats.Pricing.Types.{
  LineKind, discount, PricingLine, PricingSettings, PartialSettings, PricingInput,
  default_pricing_settings, is_kind,
}

-- `{ ...DEFAULT_PRICING_SETTINGS, ...(partial ?? {}) }`
abbrev pub merged : PartialSettings → PricingSettings
merged p = record {
  rounding = or_else p.rounding default_pricing_settings.rounding;
  unit_price_scale = or_else p.unit_price_scale default_pricing_settings.unit_price_scale;
  approval_threshold = or_else p.approval_threshold default_pricing_settings.approval_threshold;
  index_lookup = or_else p.index_lookup default_pricing_settings.index_lookup;
}

unfoldable pub resolve_settings : PartialSettings → Result PricingError PricingSettings
resolve_settings partial = do
  let s = merged partial
  refuse (ltb 6 s.unit_price_scale) invalid_settings
  refuse (not (is_decimal_within 4 s.approval_threshold)) invalid_settings
  ok s

-- « EUR »
abbrev pub euro_code : Text
euro_code = 69 ∷ 85 ∷ 82 ∷ []

-- The loop that fills `schedLines`, with the identifiers seen.
unfoldable pub check_ids : List Text → List PricingLine → Result PricingError (Unit {0})
check_ids seen [] = ok tt
check_ids seen (l ∷ lines) =
    refuse (any (λ id. text_eqb id l.id) seen) (refused_line l.id) >> check_ids (l.id ∷ seen) lines

-- `catch (e) { throw withLine(e, l.id) }`
abbrev pub or_with_line : {T : Type 0} → Text → Result PricingError T → Result PricingError T
or_with_line id (ok value) = ok value
or_with_line id (err e) = err (with_line id e)

module _ (A : Decimals) (P : Printing A) where
  pub record PricingResult : Type 0 where
    pub date : Text
    pub schedule_id : Text
    pub schedule_valid_from : Text
    pub schedule_valid_to : Option Text
    pub settings : PricingSettings
    pub lines : List (PricedLine A)
    pub totals : PricingTotals

  abbrev pub context_of : PricingInput → PricingSettings → Text → Ctx A P
  context_of input settings date = record {
    date = date;
    settings = settings;
    threshold = A.of_text settings.approval_threshold;
    indexes = input.indexes;
    catalog = input.rule_catalog;
    commitment_months = input.commitment_months;
    overrides = input.overrides;
    quantities = input.quantities;
  }

  -- Both loops over the lines: those that fail the test are left out, `price` prices the others, and
  -- what it throws is attached to the line.
  unfoldable pub price_each :
      (PricingLine → Bool)
      → (PricingLine → Result PricingError (PricedLine A))
      → List PricingLine
      → Result PricingError (List (PricedLine A))
  price_each test price [] = ok []
  price_each test price (l ∷ lines) =
      let rest = price_each test price lines in
      if test l
      then (or_with_line l.id (price l) >>= λ p. rest >>= λ priced. ok (p ∷ priced))
      else rest

  abbrev pub is_regular : PricingLine → Bool
  is_regular l = not (is_kind l.kind discount)

  abbrev pub is_discount : PricingLine → Bool
  is_discount l = is_kind l.kind discount

  abbrev pub price_regular_lines :
      List PricingLine → Ctx A P → Result PricingError (List (PricedLine A))
  price_regular_lines lines ctx = price_each is_regular (λ l. price_regular_line A P l ctx) lines

  -- The targets are among all lines of the schedule, and the regular ones are priced.
  abbrev pub price_discount_lines :
      List PricingLine → List (PricedLine A) → Ctx A P → Result PricingError (List (PricedLine A))
  price_discount_lines lines priced ctx =
      price_each is_discount (λ l. price_discount_line A P l lines priced ctx) lines

  -- `schedule.lines.map((l) => priced.get(l.id) ?? discounts.get(l.id))`, of which one is there.
  unfoldable pub in_order :
      List (PricedLine A) → List (PricedLine A) → List PricingLine → List (PricedLine A)
  unfolding priced_with_id
  in_order priced discounts [] = []
  in_order priced discounts (l ∷ lines) = elim (priced_with_id A P l.id priced) [
    | some p ↦ p ∷ in_order priced discounts lines
    | none ↦ elim (priced_with_id A P l.id discounts) [
      | some d ↦ d ∷ in_order priced discounts lines
      | none ↦ in_order priced discounts lines
    ]
  ]

  unfoldable pub price_lines :
      List PricingLine → Ctx A P → Result PricingError (List (PricedLine A))
  unfolding price_each in_order
  price_lines lines ctx = do
    priced ← price_regular_lines lines ctx
    discounts ← price_discount_lines lines priced ctx
    ok (in_order priced discounts lines)

  -- What follows the choice of the schedule.
  unfoldable pub price_schedule :
      PricingInput
      → Text
      → PricingSettings
      → PricingSchedule PricingLine
      → Result PricingError PricingResult
  unfolding check_ids price_lines
  price_schedule input date settings schedule = do
    refuse (not (text_eqb schedule.currency euro_code)) invalid_settings
    check_ids [] schedule.lines
    lines ← price_lines schedule.lines (context_of input settings date)
    ok (record {
      date = date;
      schedule_id = schedule.id;
      schedule_valid_from = schedule.valid_from;
      schedule_valid_to = schedule.valid_to;
      settings = settings;
      lines = lines;
      totals = compute_totals A P lines settings;
    })

  abbrev pub price_with : PricingInput → Text → PricingSettings → Result PricingError PricingResult
  price_with input date settings =
      select_schedule PricingLine input.schedules date >>= price_schedule input date settings

  unfoldable pub price_at : PricingInput → Text → Result PricingError PricingResult
  unfolding resolve_settings price_schedule
  price_at input date = do
    day ← parse_iso_date date
    settings ← resolve_settings input.settings
    price_with input date settings
