-- ===== src/Tests/Engine.antt =====
-- The price of a schedule with two lines and a discount, on decimals with two places.
use contrats.Base.{
  ℕ, ◌+◌, ◌-◌, ◌*◌, ◌/◌, ◌%◌, ◌==◌, ltb, ◌≡◌, refl, Bool, true, false, not, ◌⊎◌, Option, none, some,
  List, [], ◌∷◌, map, if◌then◌else◌,
}
use contrats.Base.Int.{ℤ, pos, negsuc, pos_part, neg_part, sub_ℕ, ◌+ℤ◌, scale}
use contrats.Base.Decimal.{to_text}
use contrats.Base.Text.{Text}
use contrats.Base.Result.{Result, ok, err}
use contrats.Formula.Evaluator.{Decimals, half_away_from_zero}
use contrats.Pricing.Dates.{
  PricingError, invalid_decimal, at_line, has_line, parse_iso_date, is_decimal_within,
}
use contrats.Pricing.Discount.{price_discount_line}
use contrats.Pricing.Discount.Granted.{IsDiscount, price_discount_line-IsDiscount}
use contrats.Pricing.Engine.{
  is_regular, is_discount, price_lines, price_at, price_regular_lines, context_of, PricingResult,
}
use contrats.Pricing.Engine.Failing.{FailsAt, price_lines-FailsAt}
use contrats.Pricing.Engine.InOrder.{ArePriced, price_at-ArePriced}
use contrats.Pricing.Line.{fixed_source, Ctx, parse_vat, resolve_recurrence, resolve_quantity}
use contrats.Pricing.Line.Price.{BasePrice, arithmetic, PricedLine, price_regular_line}
use contrats.Pricing.Line.Price.Justified.{IsComputed, IsPricedBy, price_regular_line-IsPricedBy}
use contrats.Pricing.Money.{
  Printing, parse_decimal_within, round_to_scale, to_cents, cents_to_euros, format_cents, fmt,
}
use contrats.Pricing.Trace
use contrats.Pricing.Trace.{base_price, rounding, unit_price, line_total, total_step, discount_step}
use contrats.Pricing.Overrides.{AppliedOverride, select_override}
use contrats.Pricing.Rules.{
  Threshold, Best, AdjustmentResult, by_commitment, month_bounds, percent_of, threshold_text,
  adjustment_for, read_month_threshold, parse_percent,
}
use contrats.Pricing.Rules.Highest.{read_all, IsHighest, adjustment_for-IsHighest}
use contrats.Pricing.Schedule.{PricingSchedule, select_schedule}
use contrats.Pricing.Totals.{compute_totals}
use contrats.Pricing.Totals.Conserved.{AreTotals, compute_totals-AreTotals}
use contrats.Pricing.Types.{
  flat_monthly, discount, unit, manual, PricingLine, percent, subtotal, commitment_discount,
  PricingInput, fixed, default_pricing_settings, monthly, MonthThreshold, PricingRule,
}

-- A number of hundredths, with its sign.
abbrev size : ℤ → ℕ
size x = pos_part x + neg_part x

abbrev is_below_zero : ℤ → Bool
is_below_zero x = ltb 0 (neg_part x)

abbrev signed : Bool → ℕ → ℤ
signed negative n = if negative then sub_ℕ 0 n else pos n

abbrev differs : Bool → Bool → Bool
differs true b = not b
differs false b = b

abbrev negate : ℤ → ℤ
negate x = sub_ℕ (neg_part x) (pos_part x)

abbrev digits_value : ℕ → Text → ℕ
digits_value n [] = 100 * n
digits_value n (c ∷ s) = digits_value (10 * n + (c - 48)) s

abbrev multiply : ℤ → ℤ → ℤ
multiply x y = signed (differs (is_below_zero x) (is_below_zero y)) (size x * size y / 100)

abbrev divide : ℤ → ℤ → ℤ
divide x y = signed (differs (is_below_zero x) (is_below_zero y)) (100 * size x / size y)

abbrev is_less : ℤ → ℤ → Bool
is_less x y = ltb (pos_part x + neg_part y) (pos_part y + neg_part x)

abbrev is_same : ℤ → ℤ → Bool
is_same x y = pos_part x + neg_part y == pos_part y + neg_part x

-- Half away from zero.
abbrev round_at : ℕ → ℤ → ℤ
round_at places x = if places == 0 then signed (is_below_zero x) ((size x + 50) / 100 * 100) else x

abbrev hundredths : Decimals
hundredths = record {
  Decimal = ℤ;
  of_text = λ s. pos (digits_value 0 s);
  zero = pos 0;
  one = pos 100;
  neg = negate;
  plus = λ x y. x +ℤ y;
  minus = λ x y. x +ℤ negate y;
  times = multiply;
  div = divide;
  pow = λ x y. x;
  abs = λ x. pos (size x);
  floor = λ x. x;
  ceil = λ x. x;
  min = λ xs. pos 0;
  max = λ xs. pos 0;
  lt = is_less;
  lte = λ x y. not (is_less y x);
  gt = λ x y. is_less y x;
  gte = λ x y. not (is_less x y);
  eq = is_same;
  above = λ x n. ltb (100 * n) (pos_part x);
  is_zero = λ x. size x == 0;
  is_integer = λ x. size x % 100 == 0;
  is_negative = is_below_zero;
  is_finite = λ x. true;
  to_number = λ x. size x / 100;
  to_decimal_places = λ x places mode. round_at places x;
}

abbrev print_whole : ℤ → Text
print_whole x = to_text (size x / 100)

abbrev printing : Printing hundredths
printing = record {
  to_text = print_whole;
  to_fixed = λ x places. print_whole x;
  decimal_places = λ x. 2;
  of_int = λ n. signed (is_below_zero n) (100 * size n);
  to_int = λ x. signed (is_below_zero x) (size x / 100);
}

-- « 2026-03-01 », and the first day of that year.
abbrev march : Text
march = 50 ∷ 48 ∷ 50 ∷ 54 ∷ 45 ∷ 48 ∷ 51 ∷ 45 ∷ 48 ∷ 49 ∷ []

abbrev new_year : Text
new_year = 50 ∷ 48 ∷ 50 ∷ 54 ∷ 45 ∷ 48 ∷ 49 ∷ 45 ∷ 48 ∷ 49 ∷ []

-- A line at 12 euros for 3 units, with a tax of 20 percent.
abbrev seats : PricingLine
seats = record {
  id = 65 ∷ [];
  code = 65 ∷ [];
  label = [];
  unit_label = [];
  kind = unit;
  mode = manual;
  vat_rate_percent = 50 ∷ 48 ∷ [];
  quantity = some (fixed (51 ∷ []));
  recurrence = none;
  unit_price = some (49 ∷ 50 ∷ []);
  tiers = none;
  rule = none;
  formula = none;
  revision = none;
  hours_per_pack = none;
  discount_spec = none;
}

abbrev backup : PricingLine
backup = record seats {
  id = 66 ∷ [];
  kind = flat_monthly;
  quantity = none;
  unit_price = some (52 ∷ []);
}

-- 25 percent of both.
abbrev rebate_line : PricingLine
rebate_line = record seats {
  id = 67 ∷ [];
  kind = discount;
  quantity = none;
  unit_price = none;
  discount_spec = some (record { kind = percent; value = 50 ∷ 53 ∷ []; applies_to = subtotal });
}

abbrev no_price : PricingLine
no_price = record backup { unit_price = some (46 ∷ []) }

abbrev schedule_of : List PricingLine → PricingSchedule PricingLine
schedule_of lines = record {
  id = 83 ∷ [];
  valid_from = new_year;
  valid_to = none;
  currency = 69 ∷ 85 ∷ 82 ∷ [];
  lines = lines;
}

abbrev input_of : List PricingLine → PricingInput
input_of lines = record {
  schedules = schedule_of lines ∷ [];
  indexes = [];
  overrides = [];
  quantities = [];
  rule_catalog = [];
  settings = record {
    rounding = none;
    unit_price_scale = none;
    approval_threshold = none;
    index_lookup = none;
  };
  commitment_months = none;
}

abbrev totals_at : Result PricingError (PricingResult hundredths printing) → List ℤ
totals_at (ok r) =
    r.totals.ht_cents
    ∷ r.totals.vat_cents
    ∷ r.totals.ttc_cents
    ∷ r.totals.annual_recurring_cents
    ∷ map (λ l. l.total_ht_cents) r.lines
totals_at (err e) = []

-- 3 × 12 and 4 euros, less a quarter, and a fifth of the rest as tax.
three_lines :
    totals_at (price_at hundredths printing (input_of (rebate_line ∷ seats ∷ backup ∷ [])) march)
    ≡ pos 3000 ∷ pos 600 ∷ pos 3600 ∷ pos 36000 ∷ negsuc 999 ∷ pos 3600 ∷ pos 400 ∷ []
unfolding price_at parse_vat resolve_recurrence resolve_quantity parse_decimal_within round_to_scale
    to_cents cents_to_euros format_cents fmt price_regular_line price_discount_line compute_totals
    select_override select_schedule parse_iso_date is_decimal_within to_text ◌+ℤ◌ scale
three_lines = refl

abbrev usual : Ctx hundredths printing
usual = context_of hundredths printing (input_of []) default_pricing_settings march

abbrev priced_backup : PricedLine hundredths
priced_backup = record {
  line_id = 66 ∷ [];
  code = 65 ∷ [];
  label = [];
  unit_label = [];
  kind = flat_monthly;
  mode = manual;
  recurrence = monthly;
  quantity = 49 ∷ [];
  unit_price = 52 ∷ [];
  vat_rate_percent = 50 ∷ 48 ∷ [];
  total_ht_cents = pos 400;
  trace =
      Trace.quantity fixed_source (49 ∷ []) none
      ∷ base_price manual (52 ∷ [])
      ∷ rounding unit_price (52 ∷ []) (52 ∷ []) 6 half_away_from_zero
      ∷ total_step (52 ∷ []) (49 ∷ []) (52 ∷ [])
      ∷ rounding line_total (52 ∷ []) (52 ∷ []) 2 half_away_from_zero
      ∷ [];
}

abbrev priced_rebate : PricedLine hundredths
priced_rebate = record priced_backup {
  line_id = 67 ∷ [];
  kind = discount;
  unit_price = 49 ∷ [];
  total_ht_cents = negsuc 99;
  trace =
      discount_step percent (50 ∷ 53 ∷ []) ((66 ∷ []) ∷ []) (52 ∷ 48 ∷ 48 ∷ []) (49 ∷ [])
      ∷ rounding line_total (49 ∷ []) (49 ∷ []) 2 half_away_from_zero
      ∷ [];
}

backup-priced : price_regular_line hundredths printing backup usual ≡ ok priced_backup
unfolding price_regular_line parse_vat resolve_recurrence resolve_quantity parse_decimal_within
    round_to_scale to_cents cents_to_euros format_cents fmt select_override is_decimal_within
    to_text
backup-priced = refl

rebate-priced :
    price_discount_line hundredths printing rebate_line
      (rebate_line ∷ backup ∷ [])
      (priced_backup ∷ [])
      usual
    ≡ ok priced_rebate
unfolding price_discount_line parse_vat parse_decimal_within to_cents cents_to_euros format_cents
    is_decimal_within to_text ◌+ℤ◌
rebate-priced = refl

abbrev result : PricingResult hundredths printing
result = record {
  date = march;
  schedule_id = 83 ∷ [];
  schedule_valid_from = new_year;
  schedule_valid_to = none;
  settings = default_pricing_settings;
  lines = priced_rebate ∷ priced_backup ∷ [];
  totals =
      compute_totals hundredths printing (priced_rebate ∷ priced_backup ∷ [])
        default_pricing_settings;
}

two_lines : price_at hundredths printing (input_of (rebate_line ∷ backup ∷ [])) march ≡ ok result
unfolding price_at parse_vat resolve_recurrence resolve_quantity parse_decimal_within round_to_scale
    to_cents cents_to_euros format_cents fmt price_regular_line price_discount_line select_override
    select_schedule parse_iso_date is_decimal_within to_text compute_totals ◌+ℤ◌ scale
two_lines = refl

price_at-ArePriced_example :
    (s : PricingSchedule PricingLine) × (select_schedule PricingLine
        (schedule_of (rebate_line ∷ backup ∷ []) ∷ [])
        march
      ≡ ok s)
    × ArePriced hundredths printing s.lines usual (priced_rebate ∷ priced_backup ∷ [])
    × (result.totals
        ≡ compute_totals hundredths printing
            (priced_rebate ∷ priced_backup ∷ [])
            default_pricing_settings)
price_at-ArePriced_example =
    price_at-ArePriced hundredths printing (input_of (rebate_line ∷ backup ∷ [])) march result
      two_lines

compute_totals-AreTotals_example :
    AreTotals hundredths printing (priced_rebate ∷ priced_backup ∷ []) result.totals
compute_totals-AreTotals_example =
    compute_totals-AreTotals hundredths printing (priced_rebate ∷ priced_backup ∷ [])
      default_pricing_settings

price_regular_line-IsPricedBy_example :
    (qty : ℤ) × (base : BasePrice hundredths printing) × IsComputed hundredths printing backup usual
      qty base
    × (applied : Option (AppliedOverride (arithmetic hundredths printing))) × IsPricedBy hundredths
        printing backup usual qty base applied priced_backup
price_regular_line-IsPricedBy_example =
    price_regular_line-IsPricedBy hundredths printing backup usual priced_backup backup-priced

price_discount_line-IsDiscount_example :
    IsDiscount hundredths printing rebate_line
      (rebate_line ∷ backup ∷ [])
      (priced_backup ∷ [])
      usual
      priced_rebate
price_discount_line-IsDiscount_example =
    price_discount_line-IsDiscount hundredths printing rebate_line (rebate_line ∷ backup ∷ [])
      (priced_backup ∷ []) usual priced_rebate rebate-priced

-- The price « . » is refused, at its line.
abbrev no_decimal : PricingError
no_decimal = at_line (66 ∷ []) (invalid_decimal (46 ∷ []))

unpriced : price_lines hundredths printing (no_price ∷ []) usual ≡ err no_decimal
unfolding price_lines price_regular_line parse_vat resolve_recurrence resolve_quantity
    parse_decimal_within is_decimal_within
unpriced = refl

price_lines-FailsAt_example :
    (has_line no_decimal ≡ true)
    × (FailsAt hundredths printing
          (is_regular hundredths printing)
          (λ l. price_regular_line hundredths printing l usual)
          (no_price ∷ [])
          no_decimal
        ⊎ ((priced : List (PricedLine hundredths)) × (price_regular_lines hundredths printing
                (no_price ∷ [])
                usual
              ≡ ok priced)
            × FailsAt hundredths printing
                (is_discount hundredths printing)
                (λ l. price_discount_line hundredths printing l (no_price ∷ []) priced usual)
                (no_price ∷ [])
                no_decimal))
price_lines-FailsAt_example =
    price_lines-FailsAt hundredths printing (no_price ∷ []) usual no_decimal unpriced

-- 10 percent from 12 months on, 15 from 24.
abbrev year_threshold : MonthThreshold
year_threshold = record { min_months = 12; percent = 49 ∷ 48 ∷ [] }

abbrev two_year_threshold : MonthThreshold
two_year_threshold = record { min_months = 24; percent = 49 ∷ 53 ∷ [] }

abbrev commitment : PricingRule
commitment = record {
  id = 82 ∷ [];
  body = commitment_discount (two_year_threshold ∷ year_threshold ∷ []);
}

abbrev fifteen : AdjustmentResult hundredths printing
fifteen = record {
  rule_id = 82 ∷ [];
  rule_type = by_commitment;
  threshold = some (50 ∷ 52 ∷ []);
  percent = pos 1500;
  basis = 51 ∷ 48 ∷ [];
}

thirty_months :
    adjustment_for hundredths printing commitment (pos 100) (some 30) (65 ∷ []) ≡ ok fifteen
unfolding adjustment_for parse_percent parse_decimal_within is_decimal_within to_text
thirty_months = refl

adjustment_for-IsHighest_example :
    (us : List (Threshold hundredths ℕ)) × (chosen : Best hundredths ℕ) × (read_all hundredths
        (read_month_threshold hundredths printing (82 ∷ []))
        (two_year_threshold ∷ year_threshold ∷ [])
      ≡ ok us)
    × IsHighest hundredths (month_bounds hundredths) 30 us chosen
    × (pos 1500 ≡ percent_of hundredths printing chosen)
    × (some (50 ∷ 52 ∷ []) ≡ threshold_text hundredths printing to_text chosen)
adjustment_for-IsHighest_example =
    adjustment_for-IsHighest hundredths printing commitment
      (two_year_threshold ∷ year_threshold ∷ []) (pos 100) 30 (65 ∷ []) fifteen refl thirty_months
