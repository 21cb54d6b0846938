-- ===== src/Pricing/Dates.antt =====
-- packages/pricing/src/money.ts and errors.ts: the dates and the decimals of the engine,
-- as the texts that it receives.
use contrats.Base.{
  ℕ, ◌+◌, ◌-◌, ◌*◌, ◌%◌, Bool, true, false, not, ◌&&◌, ◌||◌, ◌==◌, leb, length, List, [], ◌∷◌,
  if◌then◌else◌,
}
use contrats.Base.Text.{Text}
use contrats.Base.Result.{Result, ok, err}
use contrats.Formula.Outcome.{FormulaError}

-- The `code` of a `PricingError`, with the data that the engine compares. A line number among its
-- details is the first text; `at_line` adds one.
pub data PricingError : Type 0 where
  invalid_decimal invalid_date : Text → PricingError
  inverted_period : Text → PricingError
  no_schedule : Text → PricingError
  index_not_found invalid_line : Text → PricingError
  index_value_not_found duplicate_index_value : Text → Text → PricingError
  overlapping_schedules ambiguous_override : Text → List Text → PricingError
  invalid_settings invalid_revision_coefficients revision_division_by_zero : PricingError
  refused_line missing_quantity negative_price discount_target_mismatch discount_exceeds_base :
      Text → PricingError
  rule_not_found missing_context : Text → Text → PricingError
  article_not_found quantity_unavailable : Text → Text → Text → PricingError
  formula_error : FormulaError → PricingError
  formula_unfinished : PricingError
  at_line : Text → PricingError → PricingError

-- `e.details.lineId !== undefined`
abbrev pub has_line : PricingError → Bool
has_line (ambiguous_override id ids) = true
has_line (refused_line id) = true
has_line (missing_quantity id) = true
has_line (negative_price id) = true
has_line (discount_target_mismatch id) = true
has_line (discount_exceeds_base id) = true
has_line (rule_not_found id rule) = true
has_line (missing_context id rule) = true
has_line (article_not_found id rule article) = true
has_line (at_line id e) = true
has_line e = false

-- `withLine`: the same code, with the line in its details.
abbrev pub with_line : Text → PricingError → PricingError
with_line id e = if has_line e then e else at_line id e

-- `\d`
abbrev is_digit : ℕ → Bool
is_digit c = leb 48 c && leb c 57

abbrev digit : ℕ → ℕ
digit c = c - 48

abbrev is_leap : ℕ → Bool
is_leap y = y % 4 == 0 && (not (y % 100 == 0) || y % 400 == 0)

-- The length of a month from 1 to 12, of no month otherwise.
abbrev days_in_month : ℕ → ℕ → ℕ
days_in_month y mo =
    if mo == 2
    then (if is_leap y then 29 else 28)
    else if mo == 4 || mo == 6 || mo == 9 || mo == 11
    then 30
    else if leb 1 mo && leb mo 12
    then 31
    else 0

-- Whether `new Date(Date.UTC(y, mo - 1, d))` has this year, month and day: `Date.UTC` reads a year
-- below 100 as one of the 20th century, and carries a month or a day out of range over.
abbrev is_calendar_date : ℕ → ℕ → ℕ → Bool
is_calendar_date y mo d = leb 100 y && leb 1 d && leb d (days_in_month y mo)

-- The test of `parseIsoDate` on a value: `DATE_RE` and the probe.
is_iso_date : Text → Bool
is_iso_date (y1 ∷ y2 ∷ y3 ∷ y4 ∷ h1 ∷ m1 ∷ m2 ∷ h2 ∷ d1 ∷ d2 ∷ []) =
    is_digit y1
    && is_digit y2
    && is_digit y3
    && is_digit y4
    && h1 == 45
    && is_digit m1
    && is_digit m2
    && h2 == 45
    && is_digit d1
    && is_digit d2
    && is_calendar_date (1000 * digit y1 + 100 * digit y2 + 10 * digit y3 + digit y4)
        (10 * digit m1 + digit m2) (10 * digit d1 + digit d2)
is_iso_date _ = false

unfoldable pub parse_iso_date : Text → Result PricingError Text
unfolding is_iso_date
parse_iso_date value = if is_iso_date value then ok value else err (invalid_date value)

count_digits : Text → ℕ
count_digits [] = 0
count_digits (c ∷ s) = let rest = count_digits s in if is_digit c then rest + 1 else 0

after_digits : Text → Text
after_digits [] = []
after_digits (c ∷ s) = let rest = after_digits s in if is_digit c then rest else c ∷ s

-- `(?:\.(\d+))?$`, with at most `max_scale` decimals
is_scale : ℕ → Text → Bool
unfolding count_digits
is_scale max_scale [] = true
is_scale max_scale (c ∷ s) =
    c == 46 && leb 1 (length s) && leb (length s) max_scale && count_digits s == length s

-- The tests of `parseDecimal` without `allowNegative`: `DECIMAL_RE`, no sign, the decimals.
unfoldable pub is_decimal_within : ℕ → Text → Bool
unfolding count_digits after_digits is_scale
is_decimal_within max_scale value =
    leb 1 (count_digits value)
    && leb (count_digits value) 20
    && is_scale max_scale (after_digits value)

unfoldable pub is_decimal : Text → Bool
unfolding is_decimal_within
is_decimal value = is_decimal_within 6 value

-- The test of `parsePeriod`: `PERIOD_RE`.
unfoldable pub is_period : Text → Bool
is_period (y1 ∷ y2 ∷ y3 ∷ y4 ∷ h ∷ m1 ∷ m2 ∷ []) =
    is_digit y1
    && is_digit y2
    && is_digit y3
    && is_digit y4
    && h == 45
    && ((m1 == 48 && leb 49 m2 && leb m2 57) || (m1 == 49 && leb 48 m2 && leb m2 50))
is_period _ = false
