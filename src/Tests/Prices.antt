-- ===== src/Tests/Prices.antt =====
-- Prices of a grid and versions of a schedule, around the year 2026.
use contrats.Base.{
  ℕ, ◌+◌, ◌-◌, ◌*◌, ◌/◌, ◌==◌, ltb, ◌≡◌, refl, true, none, some, List, [], ◌∷◌, All,
}
use contrats.Base.Text.{Text, is_blank}
use contrats.Base.Result.{ok, err, is_ok}
use contrats.PriceGrid.{DatedPrice, price_in_effect}
use contrats.Pricing.Dates.{parse_iso_date, is_decimal, invalid_date}
use contrats.Pricing.Schedule.{PricingSchedule, IsDated}
use contrats.Pricing.Overrides.{
  Arithmetic, PriceOverride, AppliedOverride, requires_second_approval, override_gap_percent,
  select_override, IsAllowed,
}
use contrats.Pricing.Overrides.Allowed.{select_override-IsAllowed}

-- « 2025-01-01 », « 2026-01-01 » and « 2026-02-29 », which is no date.
abbrev new_year_2025 : Text
new_year_2025 = 50 ∷ 48 ∷ 50 ∷ 53 ∷ 45 ∷ 48 ∷ 49 ∷ 45 ∷ 48 ∷ 49 ∷ []

abbrev new_year_2026 : Text
new_year_2026 = 50 ∷ 48 ∷ 50 ∷ 54 ∷ 45 ∷ 48 ∷ 49 ∷ 45 ∷ 48 ∷ 49 ∷ []

abbrev no_day : Text
no_day = 50 ∷ 48 ∷ 50 ∷ 54 ∷ 45 ∷ 48 ∷ 50 ∷ 45 ∷ 50 ∷ 57 ∷ []

parse_no_day : parse_iso_date no_day ≡ err (invalid_date no_day)
unfolding parse_iso_date
parse_no_day = refl

abbrev old_price : DatedPrice
old_price = record { id = 65 ∷ []; effective_from = new_year_2025 }

abbrev new_price : DatedPrice
new_price = record { id = 66 ∷ []; effective_from = new_year_2026 }

abbrev prices : List DatedPrice
prices = new_price ∷ old_price ∷ []

price_of_2025 : price_in_effect prices new_year_2025 ≡ some old_price
unfolding price_in_effect
price_of_2025 = refl

abbrev euro : Text
euro = 69 ∷ 85 ∷ 82 ∷ []

abbrev first_version : PricingSchedule (Unit {0})
first_version = record {
  id = 65 ∷ [];
  valid_from = new_year_2025;
  valid_to = none;
  currency = euro;
  lines = [];
}

abbrev second_version : PricingSchedule (Unit {0})
second_version = record {
  id = 66 ∷ [];
  valid_from = new_year_2026;
  valid_to = none;
  currency = euro;
  lines = [];
}

abbrev versions : List (PricingSchedule (Unit {0}))
versions = first_version ∷ second_version ∷ []

versions-IsDated : All (IsDated (Unit {0})) versions
unfolding parse_iso_date
versions-IsDated = ((refl, tt), ((refl, tt), tt))

parse_2025 : is_ok (parse_iso_date new_year_2025) ≡ true
unfolding parse_iso_date
parse_2025 = refl

parse_2026 : is_ok (parse_iso_date new_year_2026) ≡ true
unfolding parse_iso_date
parse_2026 = refl

abbrev number_from : ℕ → Text → ℕ
number_from n [] = n
number_from n (c ∷ s) = number_from (10 * n + (c - 48)) s

-- Whole numbers, where a quotient is a whole number of hundredths.
abbrev whole_numbers : Arithmetic
whole_numbers = record {
  Decimal = ℕ;
  of_text = number_from 0;
  zero = 0;
  hundred = 1;
  minus = λ a b. (a - b) + (b - a);
  abs = λ a. a;
  div = λ a b. 100 * a / b;
  times = λ a b. a * b;
  is_zero = λ a. a == 0;
  gt = λ a b. ltb b a;
}

-- 90 in place of 100, by user A and approved by user B.
abbrev rebate : PriceOverride
rebate = record {
  id = 49 ∷ [];
  line_id = 76 ∷ [];
  unit_price = 57 ∷ 48 ∷ [];
  valid_from = new_year_2025;
  valid_to = new_year_2026;
  reason = 82 ∷ [];
  author_id = 65 ∷ [];
  approved_by = some (66 ∷ []);
}

abbrev applied_rebate : AppliedOverride whole_numbers
applied_rebate = record {
  override = rebate;
  unit_price = 90;
  gap_percent = some 10;
  requires_approval = true;
}

rebate_selected :
    select_override whole_numbers (rebate ∷ []) new_year_2025 100 5
    ≡ ok (record { applied = some applied_rebate; skipped = [] })
unfolding select_override override_gap_percent is_decimal is_blank
rebate_selected = refl

-- Without the second approval the rebate is not applied.
rebate_skipped :
    select_override whole_numbers (record rebate { approved_by = none } ∷ []) new_year_2025 100 5
    ≡ ok (record {
      applied = none;
      skipped =
          record { override_id = 49 ∷ []; reason = requires_second_approval; gap_percent = some 10 }
          ∷ [];
    })
unfolding select_override override_gap_percent is_decimal is_blank
rebate_skipped = refl

select_override-IsAllowed_example :
    IsAllowed whole_numbers new_year_2025 100 5 (rebate ∷ []) applied_rebate
select_override-IsAllowed_example =
    select_override-IsAllowed whole_numbers (rebate ∷ []) new_year_2025 100 5 applied_rebate
      rebate_selected refl
