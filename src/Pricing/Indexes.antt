-- ===== src/Pricing/Indexes.antt =====
-- packages/pricing/src/indexes.ts: the value of an index at a date.
pub mod Replay
use contrats.Base.{
  Bool, true, false, not, ◌&&◌, Option, none, some, List, [], ◌∷◌, filter, any, if◌then◌else◌,
}
use contrats.Base.Text.{Text}
use contrats.Base.Order.{text_ltb, text_eqb}
use contrats.Base.Result.{Result, ok, err, refuse, ◌>>=◌, ◌>>◌}
use contrats.Pricing.Dates.{
  PricingError, invalid_decimal, invalid_date, index_not_found, index_value_not_found,
  duplicate_index_value, parse_iso_date, is_decimal_within, is_period,
}

pub record PriceIndexValue : Type 0 where
  pub period : Text
  pub value : Text
  pub published_at : Text

pub record PriceIndex : Type 0 where
  pub code : Text
  pub name : Text
  pub values : List PriceIndexValue

pub data IndexLookupRule : Type 0 where
  latest_published exact_period : IndexLookupRule

pub record IndexObservation : Type 0 where
  pub index_code : Text
  pub index_name : Text
  pub requested_date : Text
  pub rule : IndexLookupRule
  pub period : Text
  pub value : Text
  pub published_at : Text

-- `indexes.find((i) => i.code === indexCode)`
unfoldable pub find_index : Text → List PriceIndex → Option PriceIndex
find_index code [] = none
find_index code (i ∷ indexes) =
    let rest = find_index code indexes in if text_eqb i.code code then some i else rest

-- One turn of the loop over the values, with the periods seen before.
unfoldable pub check_value : Text → List Text → PriceIndexValue → Result PricingError (Unit {0})
check_value code seen v = do
  refuse (not (is_period v.period)) (invalid_date v.period)
  (parse_iso_date v.published_at >>= λ d. ok tt)
  refuse (not (is_decimal_within 10 v.value)) (invalid_decimal v.value)
  refuse (any (text_eqb v.period) seen) (duplicate_index_value code v.period)

unfoldable pub check_values :
    Text → List Text → List PriceIndexValue → Result PricingError (Unit {0})
unfolding check_value
check_values code seen [] = ok tt
check_values code seen (v ∷ values) =
    check_value code seen v >> check_values code (v.period ∷ seen) values

-- `date.slice(0, 7)`
abbrev pub month_of : Text → Text
month_of (y1 ∷ y2 ∷ y3 ∷ y4 ∷ h ∷ m1 ∷ m2 ∷ day) = y1 ∷ y2 ∷ y3 ∷ y4 ∷ h ∷ m1 ∷ m2 ∷ []
month_of short = short

-- `v.period <= targetPeriod && v.publishedAt <= date`
abbrev pub is_known : Text → PriceIndexValue → Bool
is_known date v = not (text_ltb (month_of date) v.period) && not (text_ltb date v.published_at)

-- `!best || v.period > best.period`
abbrev pub is_later : PriceIndexValue → Option PriceIndexValue → Bool
is_later v none = true
is_later v (some best) = text_ltb best.period v.period

-- The `reduce`, from `best` on.
unfoldable pub latest_from : Option PriceIndexValue → List PriceIndexValue → Option PriceIndexValue
latest_from best [] = best
latest_from best (v ∷ values) = latest_from (if is_later v best then some v else best) values

-- `index.values.find((v) => v.period === targetPeriod)`
unfoldable pub value_of_period : Text → List PriceIndexValue → Option PriceIndexValue
value_of_period period [] = none
value_of_period period (v ∷ values) =
    let rest = value_of_period period values in if text_eqb v.period period then some v else rest

unfoldable pub find_value : IndexLookupRule → Text → List PriceIndexValue → Option PriceIndexValue
unfolding latest_from value_of_period
find_value exact_period date values = value_of_period (month_of date) values
find_value latest_published date values = latest_from none (filter (is_known date) values)

unfoldable pub observation :
    PriceIndex
    → Text
    → Text
    → IndexLookupRule
    → Option PriceIndexValue
    → Result PricingError IndexObservation
observation index code date rule none = err (index_value_not_found code date)
observation index code date rule (some v) = ok (record {
  index_code = code;
  index_name = index.name;
  requested_date = date;
  rule = rule;
  period = v.period;
  value = v.value;
  published_at = v.published_at;
})

-- What follows the search of the index.
unfoldable pub lookup_in :
    Option PriceIndex → Text → Text → IndexLookupRule → Result PricingError IndexObservation
unfolding check_values find_value observation
lookup_in none code date rule = err (index_not_found code)
lookup_in (some index) code date rule =
    check_values code [] index.values
    >> observation index code date rule (find_value rule date index.values)

unfoldable pub lookup_index_value :
    List PriceIndex → Text → Text → IndexLookupRule → Result PricingError IndexObservation
unfolding find_index lookup_in
lookup_index_value indexes code date rule =
    parse_iso_date date >>= λ d. lookup_in (find_index code indexes) code date rule
