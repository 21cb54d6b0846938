-- ===== src/Pricing/Line.antt =====
-- packages/pricing/src/price-at.ts: what a line is priced with, its quantity and its formula; the price
-- itself is in Price, a child of this module.
pub mod Price
use contrats.Base.{
  ℕ, Bool, true, false, not, ◌&&◌, ◌||◌, Option, none, some, List, [], ◌∷◌, ◌++◌, any, filter, map,
  is_some, or_else, if◌then◌else◌,
}
use contrats.Base.Text.{Text}
use contrats.Base.Order.{text_eqb, text_ltb}
use contrats.Base.Result.{Result, ok, err, refuse, ◌>>=◌, ◌>>◌}
use contrats.Formula.Outcome.{FormulaResult, done, failed, out_of_fuel}
use contrats.Formula.Tokenizer.{is_ident_start, is_ident_part}
use contrats.Formula.Evaluator.{Decimals, RoundingMode, Variables, evaluate_expression}
use contrats.Pricing.Dates.{
  PricingError, refused_line, missing_quantity, negative_price, formula_error, formula_unfinished,
  parse_iso_date,
}
use contrats.Pricing.Indexes.{PriceIndex, IndexObservation, lookup_index_value}
use contrats.Pricing.Money.{Printing, whole, parse_decimal_within, parse_signed_within}
use contrats.Pricing.Overrides.{PriceOverride}
use contrats.Pricing.Trace.{TraceStep, quantity, index_value, formula_result}
use contrats.Pricing.Types.{
  LineKind, flat_monthly, flat_yearly, unit, hourly, hour_pack, setup_fee, tiered, discount,
  Recurrence, monthly, yearly, one_off, QuantitySpec, fixed, provider, IndexDate, pricing_date,
  on_date, IndexBinding, FormulaSpec, PricingLine, PricingRule, ResolvedQuantity, PricingSettings,
  is_recurrence,
}

-- `FORCED_RECURRENCE`
abbrev pub forced_recurrence : LineKind → Option Recurrence
forced_recurrence flat_monthly = some monthly
forced_recurrence flat_yearly = some yearly
forced_recurrence setup_fee = some one_off
forced_recurrence kind = none

-- `DEFAULT_RECURRENCE`; no discount is asked for its own.
abbrev pub default_recurrence : LineKind → Recurrence
default_recurrence flat_monthly = monthly
default_recurrence flat_yearly = yearly
default_recurrence setup_fee = one_off
default_recurrence unit = monthly
default_recurrence tiered = monthly
default_recurrence hourly = one_off
default_recurrence hour_pack = one_off
default_recurrence discount = one_off

-- `forced && line.recurrence !== undefined && line.recurrence !== forced`
abbrev pub contradicts : Option Recurrence → Option Recurrence → Bool
contradicts none asked = false
contradicts (some forced) none = false
contradicts (some forced) (some asked) = not (is_recurrence asked forced)

unfoldable pub resolve_recurrence : PricingLine → Result PricingError Recurrence
resolve_recurrence line = do
  refuse (contradicts (forced_recurrence line.kind) line.recurrence) (refused_line line.id)
  ok (or_else line.recurrence (default_recurrence line.kind))

-- `IDENT_RE`
abbrev pub are_ident_parts : Text → Bool
are_ident_parts [] = true
are_ident_parts (c ∷ s) = is_ident_part c && are_ident_parts s

abbrev pub is_identifier : Text → Bool
is_identifier [] = false
is_identifier (c ∷ s) = is_ident_start c && are_ident_parts s

-- `ctx.quantities.get(line.id)`: of several quantities of a line the map keeps the last.
unfoldable pub quantity_of : Text → List ResolvedQuantity → Option ResolvedQuantity
quantity_of id [] = none
quantity_of id (q ∷ quantities) = elim (quantity_of id quantities) [
  | some later ↦ some later
  | none ↦ if text_eqb q.line_id id then some q else none
]

-- `ctx.overridesByLine.get(line.id) ?? []`
abbrev pub overrides_of : Text → List PriceOverride → List PriceOverride
overrides_of id overrides = filter (λ o. text_eqb o.line_id id) overrides

-- « FIXED », « qty » and « P0 »
abbrev pub fixed_source : Text
fixed_source = 70 ∷ 73 ∷ 88 ∷ 69 ∷ 68 ∷ []

abbrev pub qty_name : Text
qty_name = 113 ∷ 116 ∷ 121 ∷ []

abbrev pub base_name : Text
base_name = 80 ∷ 48 ∷ []

abbrev pub from_formula : {T : Type 0} → FormulaResult T → Result PricingError T
from_formula (done value) = ok value
from_formula (failed e) = err (formula_error e)
from_formula out_of_fuel = err formula_unfinished

module _ (A : Decimals) (P : Printing A) where
  pub record Ctx : Type 0 where
    pub date : Text
    pub settings : PricingSettings
    pub threshold : A.Decimal
    pub indexes : List PriceIndex
    pub catalog : List PricingRule
    pub commitment_months : Option ℕ
    pub overrides : List PriceOverride
    pub quantities : List ResolvedQuantity

  -- A value, and the steps that were pushed on the trace on the way to it.
  abbrev pub Traced : Type 0 → Type 0
  Traced T = T × List (TraceStep A)

  unfoldable pub parse_vat : PricingLine → Result PricingError A.Decimal
  parse_vat line = parse_decimal_within A 4 line.vat_rate_percent >>= λ v.
      refuse (A.gt v (whole A P 100)) (refused_line line.id) >> ok v

  abbrev pub read_quantity : Text → Text → Option Text → Result PricingError (Traced A.Decimal)
  read_quantity value source observed_at =
      parse_decimal_within A 6 value >>= λ q. ok (q, quantity source (P.to_text q) observed_at ∷ [])

  abbrev pub provided_quantity :
      Text → Option ResolvedQuantity → Result PricingError (Traced A.Decimal)
  provided_quantity id none = err (missing_quantity id)
  provided_quantity id (some r) = read_quantity r.quantity r.source r.observed_at

  abbrev pub quantity_by :
      Text → QuantitySpec → List ResolvedQuantity → Result PricingError (Traced A.Decimal)
  quantity_by id (fixed value) quantities = read_quantity value fixed_source none
  quantity_by id (provider article) quantities = provided_quantity id (quantity_of id quantities)

  unfoldable pub resolve_quantity : PricingLine → Ctx → Result PricingError (Traced A.Decimal)
  resolve_quantity line ctx =
      quantity_by line.id (or_else line.quantity (fixed (49 ∷ []))) ctx.quantities

  -- `define`
  unfoldable pub define :
      PricingLine → Variables A → Text → A.Decimal → Result PricingError (Variables A)
  define line names name value = do
    refuse (not (is_identifier name)) (refused_line line.id)
    refuse (any (λ v. text_eqb v.0 name) names) (refused_line line.id)
    ok (names ++ (name, value) ∷ [])

  unfoldable pub define_base :
      PricingLine → Variables A → Option Text → Result PricingError (Variables A)
  unfolding define
  define_base line names none = ok names
  define_base line names (some price) =
      parse_decimal_within A 6 price >>= λ p. define line names base_name p

  -- The loop over `f.variables`
  unfoldable pub define_variables :
      PricingLine → Variables A → List (Text × Text) → Result PricingError (Variables A)
  unfolding define
  define_variables line names [] = ok names
  define_variables line names ((name, value) ∷ variables) = do
    x ← parse_signed_within A 10 value
    more ← define line names name x
    define_variables line more variables

  abbrev pub binding_date : Text → IndexDate → Result PricingError Text
  binding_date today pricing_date = ok today
  binding_date today (on_date date) = parse_iso_date date

  -- The loop over `f.indexVariables`
  unfoldable pub define_indexes :
      PricingLine
      → Ctx
      → Variables A
      → List (Text × IndexBinding)
      → Result PricingError (Traced (Variables A))
  unfolding define
  define_indexes line ctx names [] = ok (names, [])
  define_indexes line ctx names ((name, b) ∷ bindings) = do
    at ← binding_date ctx.date b.at
    observation ←
        lookup_index_value ctx.indexes b.index_code at (or_else b.lookup ctx.settings.index_lookup)
    more ← define line names name (A.of_text observation.value)
    (all, steps) ← define_indexes line ctx more bindings
    ok (all, index_value name observation ∷ steps)

  -- The sort of the entries by their names.
  unfoldable pub insert_entry : Text × Text → List (Text × Text) → List (Text × Text)
  insert_entry e [] = e ∷ []
  insert_entry e (f ∷ entries) =
      if text_ltb f.0 e.0 then f ∷ insert_entry e entries else e ∷ f ∷ entries

  unfoldable pub sort_entries : List (Text × Text) → List (Text × Text)
  unfolding insert_entry
  sort_entries [] = []
  sort_entries (e ∷ entries) = insert_entry e (sort_entries entries)

  unfoldable pub variables_of :
      PricingLine → FormulaSpec → A.Decimal → Ctx → Result PricingError (Traced (Variables A))
  unfolding define define_base define_variables define_indexes
  variables_of line f qty ctx = do
    one ← define line [] qty_name qty
    two ← define_base line one f.base_price
    three ← define_variables line two f.variables
    define_indexes line ctx three f.index_variables

  unfoldable pub evaluate_spec :
      PricingLine → FormulaSpec → A.Decimal → Ctx → Result PricingError (Traced A.Decimal)
  unfolding variables_of sort_entries
  evaluate_spec line f qty ctx = do
    (names, steps) ← variables_of line f qty ctx
    result ← from_formula (evaluate_expression A ctx.settings.rounding f.expression names)
    ok (
      result,
      steps
          ++ formula_result f.expression (sort_entries (map (λ v. (v.0, P.to_text v.1)) names))
              (P.to_text result)
            ∷ [],
    )

  unfoldable pub evaluate_line_formula :
      PricingLine → A.Decimal → Ctx → Result PricingError (Traced A.Decimal)
  unfolding evaluate_spec
  evaluate_line_formula line qty ctx = elim (line.formula) [
    | none ↦ err (refused_line line.id)
    | some f ↦ evaluate_spec line f qty ctx
  ]
