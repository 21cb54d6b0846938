-- ===== src/Pricing/Types.antt =====
-- packages/pricing/src/types.ts: the lines of a schedule, the catalogue of rules, what the engine is
-- given. A value that is not of its type does not occur: the tests of unknown kinds, modes and sources
-- never throw.
use contrats.Base.{ℕ, Bool, Option, List, [], ◌∷◌, ◌==◌}
use contrats.Base.Text.{Text}
use contrats.Formula.Evaluator.{RoundingMode, half_away_from_zero}
use contrats.Pricing.Indexes.{PriceIndex, IndexLookupRule, latest_published}
use contrats.Pricing.Overrides.{PriceOverride}
use contrats.Pricing.Schedule.{PricingSchedule}
use contrats.Pricing.Tiers.{TierTable}

pub data LineKind : Type 0 where
  flat_monthly flat_yearly unit hourly hour_pack setup_fee tiered discount : LineKind

pub data PricingMode : Type 0 where
  by_rule by_formula manual : PricingMode

pub data Recurrence : Type 0 where
  monthly quarterly yearly one_off : Recurrence

pub data QuantitySpec : Type 0 where
  fixed : Text → QuantitySpec
  provider : Option Text → QuantitySpec

pub record RevisionSpec : Type 0 where
  pub index_code : Text
  pub a : Text
  pub b : Text
  pub reference_date : Text
  pub revision_date : Text
  pub lookup : Option IndexLookupRule

-- `'PRICING_DATE'`, or a date
pub data IndexDate : Type 0 where
  pricing_date : IndexDate
  on_date : Text → IndexDate

pub record IndexBinding : Type 0 where
  pub index_code : Text
  pub at : IndexDate
  pub lookup : Option IndexLookupRule

-- The entries of an object, in their order.
pub record FormulaSpec : Type 0 where
  pub expression : Text
  pub base_price : Option Text
  pub variables : List (Text × Text)
  pub index_variables : List (Text × IndexBinding)

pub record RuleRef : Type 0 where
  pub price_rule_id : Text
  pub adjustment_rule_ids : List Text

pub data DiscountTarget : Type 0 where
  on_lines : List Text → DiscountTarget
  subtotal : DiscountTarget

pub data DiscountKind : Type 0 where
  percent amount : DiscountKind

pub record DiscountSpec : Type 0 where
  pub kind : DiscountKind
  pub value : Text
  pub applies_to : DiscountTarget

pub record PricingLine : Type 0 where
  pub id : Text
  pub code : Text
  pub label : Text
  pub unit_label : Text
  pub kind : LineKind
  pub mode : PricingMode
  pub vat_rate_percent : Text
  pub quantity : Option QuantitySpec
  pub recurrence : Option Recurrence
  pub unit_price : Option Text
  pub tiers : Option TierTable
  pub rule : Option RuleRef
  pub formula : Option FormulaSpec
  pub revision : Option RevisionSpec
  pub hours_per_pack : Option Text
  pub discount_spec : Option DiscountSpec

pub record GridEntry : Type 0 where
  pub article_code : Text
  pub unit_price : Text

pub record QuantityThreshold : Type 0 where
  pub min_quantity : Text
  pub percent : Text

pub record MonthThreshold : Type 0 where
  pub min_months : ℕ
  pub percent : Text

pub data RuleBody : Type 0 where
  grid : List GridEntry → RuleBody
  tier_rule : TierTable → RuleBody
  volume_discount : List QuantityThreshold → RuleBody
  commitment_discount : List MonthThreshold → RuleBody

pub record PricingRule : Type 0 where
  pub id : Text
  pub body : RuleBody

pub record ResolvedQuantity : Type 0 where
  pub line_id : Text
  pub quantity : Text
  pub source : Text
  pub observed_at : Option Text

pub record PricingSettings : Type 0 where
  pub rounding : RoundingMode
  pub unit_price_scale : ℕ
  pub approval_threshold : Text
  pub index_lookup : IndexLookupRule

pub record PartialSettings : Type 0 where
  pub rounding : Option RoundingMode
  pub unit_price_scale : Option ℕ
  pub approval_threshold : Option Text
  pub index_lookup : Option IndexLookupRule

abbrev pub default_pricing_settings : PricingSettings
default_pricing_settings = record {
  rounding = half_away_from_zero;
  unit_price_scale = 6;
  approval_threshold = 49 ∷ 48 ∷ [];
  index_lookup = latest_published;
}

-- `commitmentMonths`, where it is an integer that is not negative, is all that a context holds.
pub record PricingInput : Type 0 where
  pub schedules : List (PricingSchedule PricingLine)
  pub indexes : List PriceIndex
  pub overrides : List PriceOverride
  pub quantities : List ResolvedQuantity
  pub rule_catalog : List PricingRule
  pub settings : PartialSettings
  pub commitment_months : Option ℕ

-- The place of a kind, a mode or a recurrence in its union type.
abbrev pub kind_code : LineKind → ℕ
kind_code flat_monthly = 0
kind_code flat_yearly = 1
kind_code unit = 2
kind_code hourly = 3
kind_code hour_pack = 4
kind_code setup_fee = 5
kind_code tiered = 6
kind_code discount = 7

abbrev pub recurrence_code : Recurrence → ℕ
recurrence_code monthly = 0
recurrence_code quarterly = 1
recurrence_code yearly = 2
recurrence_code one_off = 3

abbrev pub is_kind : LineKind → LineKind → Bool
is_kind a b = kind_code a == kind_code b

abbrev pub is_recurrence : Recurrence → Recurrence → Bool
is_recurrence a b = recurrence_code a == recurrence_code b
