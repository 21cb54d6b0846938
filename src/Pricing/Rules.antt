-- ===== src/Pricing/Rules.antt =====
-- packages/pricing/src/rules.ts: the catalogue of rules, the price of a grid and the discounts.
pub mod Highest
use contrats.Base.{
  ℕ, Bool, true, false, not, ◌&&◌, ◌||◌, Option, none, some, List, [], ◌∷◌, leb, ltb, if◌then◌else◌,
}
use contrats.Base.Text.{Text}
use contrats.Base.Decimal.{to_text}
use contrats.Base.Order.{text_eqb}
use contrats.Base.Result.{Result, ok, err, refuse, ◌>>=◌, ◌>>◌}
use contrats.Formula.Evaluator.{Decimals}
use contrats.Pricing.Dates.{
  PricingError, rule_not_found, article_not_found, invalid_line, missing_context, refused_line,
}
use contrats.Pricing.Money.{Printing, parse_decimal_within, whole}
use contrats.Pricing.Types.{
  PricingRule, GridEntry, QuantityThreshold, MonthThreshold, RuleBody, grid, tier_rule,
  volume_discount, commitment_discount,
}

-- `catalog?.rules.find((r) => r.id === ruleId)`
unfoldable pub rule_with_id : Text → List PricingRule → Option PricingRule
rule_with_id rule_id [] = none
rule_with_id rule_id (r ∷ rules) =
    let rest = rule_with_id rule_id rules in if text_eqb r.id rule_id then some r else rest

unfoldable pub find_rule : List PricingRule → Text → Text → Result PricingError PricingRule
unfolding rule_with_id
find_rule rules rule_id line_id = elim (rule_with_id rule_id rules) [
  | none ↦ err (rule_not_found line_id rule_id)
  | some r ↦ ok r
]

-- `rule.entries.find((e) => e.articleCode === articleCode)`
unfoldable pub entry_of : Text → List GridEntry → Option GridEntry
entry_of article [] = none
entry_of article (e ∷ entries) =
    let rest = entry_of article entries in if text_eqb e.article_code article then some e else rest

pub data AdjustmentType : Type 0 where
  by_volume by_commitment : AdjustmentType

module _ (A : Decimals) where
  unfoldable pub grid_unit_price :
      Text → List GridEntry → Text → Text → Result PricingError A.Decimal
  unfolding entry_of parse_decimal_within
  grid_unit_price rule_id entries article line_id = elim (entry_of article entries) [
    | none ↦ err (article_not_found line_id rule_id article)
    | some e ↦ parse_decimal_within A 6 e.unit_price
  ]

  -- A threshold that the loop has read: its bound and its percentage.
  pub record Threshold (B : Type 0) : Type 0 where
    pub min : B
    pub percent : A.Decimal

  abbrev pub Best : Type 0 → Type 0
  Best B = Option (Threshold B)

  -- The orders of the bounds: `<=` and `>`.
  pub record Bounds (B : Type 0) : Type 0 where
    pub at_most : B → B → Bool
    pub above : B → B → Bool

  -- `min <= value && (!best || min > best.min)`
  abbrev pub improves : {B : Type 0} → Bounds B → B → Threshold B → Best B → Bool
  improves o value t none = o.at_most t.min value
  improves o value t (some best) = o.at_most t.min value && o.above t.min best.min

  abbrev pub next_best : {B : Type 0} → Bounds B → B → Best B → Threshold B → Best B
  next_best o value best t = if improves o value t best then some t else best

  abbrev pub quantity_bounds : Bounds A.Decimal
  quantity_bounds = record { at_most = A.lte; above = A.gt }

  abbrev pub month_bounds : Bounds ℕ
  month_bounds = record { at_most = leb; above = λ a b. ltb b a }

  module _ (P : Printing A) where
    pub record AdjustmentResult : Type 0 where
      pub rule_id : Text
      pub rule_type : AdjustmentType
      pub threshold : Option Text
      pub percent : A.Decimal
      pub basis : Text

    unfoldable pub assert_percent : A.Decimal → Text → Result PricingError A.Decimal
    assert_percent p field = refuse (A.gt p (whole A P 100)) (invalid_line field) >> ok p

    unfoldable pub parse_percent : Text → Text → Result PricingError A.Decimal
    unfolding assert_percent parse_decimal_within
    parse_percent value field = parse_decimal_within A 6 value >>= λ p. assert_percent p field

    unfoldable pub read_quantity_threshold :
        Text → QuantityThreshold → Result PricingError (Threshold A.Decimal)
    unfolding parse_percent parse_decimal_within
    read_quantity_threshold rule_id t = do
      min ← parse_decimal_within A 6 t.min_quantity
      percent ← parse_percent t.percent rule_id
      ok (record { min = min; percent = percent })

    unfoldable pub read_month_threshold : Text → MonthThreshold → Result PricingError (Threshold ℕ)
    unfolding parse_percent
    read_month_threshold rule_id t = parse_percent t.percent rule_id >>= λ percent.
        ok (record { min = t.min_months; percent = percent })

    -- The loop over the thresholds, with the best one so far.
    unfoldable pub best_threshold :
        {T B : Type 0}
        → (T → Result PricingError (Threshold B))
        → Bounds B
        → B
        → Best B
        → List T
        → Result PricingError (Best B)
    best_threshold read o value best [] = ok best
    best_threshold read o value best (t ∷ thresholds) =
        read t >>= λ next. best_threshold read o value (next_best o value best next) thresholds

    -- `chosen?.percent ?? D(0)`
    abbrev pub percent_of : {B : Type 0} → Best B → A.Decimal
    percent_of none = A.zero
    percent_of (some t) = t.percent

    abbrev pub threshold_text : {B : Type 0} → (B → Text) → Best B → Option Text
    threshold_text print none = none
    threshold_text print (some t) = some (print t.min)

    unfoldable pub volume_adjustment :
        Text → List QuantityThreshold → A.Decimal → Result PricingError AdjustmentResult
    unfolding best_threshold read_quantity_threshold
    volume_adjustment rule_id thresholds quantity =
        best_threshold (read_quantity_threshold rule_id) quantity_bounds quantity none thresholds
        >>= λ chosen. ok (record {
          rule_id = rule_id;
          rule_type = by_volume;
          threshold = threshold_text P.to_text chosen;
          percent = percent_of chosen;
          basis = P.to_text quantity;
        })

    unfoldable pub commitment_adjustment :
        Text → List MonthThreshold → ℕ → Result PricingError AdjustmentResult
    unfolding best_threshold read_month_threshold to_text
    commitment_adjustment rule_id thresholds months =
        best_threshold (read_month_threshold rule_id) month_bounds months none thresholds
        >>= λ chosen. ok (record {
          rule_id = rule_id;
          rule_type = by_commitment;
          threshold = threshold_text to_text chosen;
          percent = percent_of chosen;
          basis = to_text months;
        })

    abbrev pub with_commitment :
        Text → List MonthThreshold → Option ℕ → Text → Result PricingError AdjustmentResult
    with_commitment rule_id thresholds none line_id = err (missing_context line_id rule_id)
    with_commitment rule_id thresholds (some months) line_id =
        commitment_adjustment rule_id thresholds months

    abbrev pub adjust_by :
        Text → RuleBody → A.Decimal → Option ℕ → Text → Result PricingError AdjustmentResult
    adjust_by rule_id (volume_discount thresholds) quantity months line_id =
        volume_adjustment rule_id thresholds quantity
    adjust_by rule_id (commitment_discount thresholds) quantity months line_id =
        with_commitment rule_id thresholds months line_id
    adjust_by rule_id (grid entries) quantity months line_id = err (refused_line line_id)
    adjust_by rule_id (tier_rule table) quantity months line_id = err (refused_line line_id)

    unfoldable pub adjustment_for :
        PricingRule → A.Decimal → Option ℕ → Text → Result PricingError AdjustmentResult
    unfolding volume_adjustment commitment_adjustment
    adjustment_for rule quantity months line_id =
        adjust_by rule.id rule.body quantity months line_id
