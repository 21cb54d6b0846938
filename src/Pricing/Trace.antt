-- ===== src/Pricing/Trace.antt =====
-- packages/pricing/src/trace.ts: what the engine writes down of each line, in order.
use contrats.Base.{ℕ, Bool, Option, List}
use contrats.Base.Text.{Text}
use contrats.Formula.Evaluator.{Decimals, RoundingMode}
use contrats.Pricing.Indexes.{IndexObservation}
use contrats.Pricing.Overrides.{PriceOverride, OverrideSkipReason}
use contrats.Pricing.Rules.{AdjustmentType}
use contrats.Pricing.Tiers.{TierMode, TierBand}
use contrats.Pricing.Types.{PricingMode, DiscountKind}

pub data RevisionTarget : Type 0 where
  to_unit_price to_amount : RevisionTarget

pub data RoundingTarget : Type 0 where
  unit_price line_total average_unit_price : RoundingTarget

module _ (A : Decimals) where
  pub data TraceStep : Type 0 where
    quantity : Text → Text → Option Text → TraceStep
    base_price : PricingMode → Text → TraceStep
    rule_price : Text → Text → Text → TraceStep
    tier_bands : Option Text → TierMode → List (TierBand A) → Text → TraceStep
    index_value : Text → IndexObservation → TraceStep
    formula_result : Text → List (Text × Text) → Text → TraceStep
    revision :
        RevisionTarget
        → Text
        → Text
        → Text
        → IndexObservation
        → IndexObservation
        → Text
        → Text
        → Text
        → TraceStep
    revision_not_effective : Text → Text → TraceStep
    adjustment : Text → AdjustmentType → Text → Option Text → Text → Text → Text → TraceStep
    rounding : RoundingTarget → Text → Text → ℕ → RoundingMode → TraceStep
    override_applied : PriceOverride → Text → Option Text → Bool → TraceStep
    override_skipped : Text → OverrideSkipReason → Option A.Decimal → TraceStep
    hour_pack_rate : Text → Text → TraceStep
    discount_step : DiscountKind → Text → List Text → Text → Text → TraceStep
    total_step : Text → Text → Text → TraceStep
