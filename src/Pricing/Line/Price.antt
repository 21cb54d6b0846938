-- ===== src/Pricing/Line/Price.antt =====
-- packages/pricing/src/price-at.ts: priceRegularLine, a function for each of its numbered stages.
pub mod Justified
use contrats.Base.{
  ℕ, Bool, true, false, not, ◌&&◌, ◌||◌, Option, none, some, List, [], ◌∷◌, ◌++◌, map, is_some,
  if◌then◌else◌,
}
use contrats.Base.Int.{ℤ}
use contrats.Base.Text.{Text}
use contrats.Base.Order.{text_ltb}
use contrats.Base.Result.{Result, ok, err, refuse, ◌>>=◌, ◌>>◌}
use contrats.Formula.Evaluator.{Decimals}
use contrats.Pricing.Dates.{PricingError, refused_line, negative_price, parse_iso_date}
use contrats.Pricing.Line.{
  Ctx, Traced, parse_vat, resolve_recurrence, resolve_quantity, evaluate_line_formula, overrides_of,
}
use contrats.Pricing.Money.{
  Printing, whole, parse_decimal_within, round_to_scale, to_cents, format_cents, fmt,
}
use contrats.Pricing.Overrides.{
  Arithmetic, PriceOverride, AppliedOverride, SkippedOverride, OverrideSelection, select_override,
}
use contrats.Pricing.Revision.{RevisionComputation, compute_revision}
use contrats.Pricing.Rules.{AdjustmentResult, find_rule, grid_unit_price, adjustment_for}
use contrats.Pricing.Tiers.{TierTable, TierComputation, compute_tiered}
use contrats.Pricing.Trace.{
  TraceStep, base_price, rule_price, tier_bands, revision, revision_not_effective, adjustment,
  rounding, override_applied, override_skipped, hour_pack_rate, total_step, to_unit_price,
  to_amount, RevisionTarget, unit_price, line_total, average_unit_price,
}
use contrats.Pricing.Types.{
  LineKind, hour_pack, tiered, PricingMode, by_rule, by_formula, manual, Recurrence, RevisionSpec,
  RuleRef, PricingLine, PricingRule, RuleBody, grid, tier_rule, volume_discount,
  commitment_discount, is_kind,
}

pub record PricedLine (A : Decimals) : Type 0 where
  pub line_id : Text
  pub code : Text
  pub label : Text
  pub unit_label : Text
  pub kind : LineKind
  pub mode : PricingMode
  pub recurrence : Recurrence
  pub quantity : Text
  pub unit_price : Text
  pub vat_rate_percent : Text
  pub total_ht_cents : ℤ
  pub trace : List (TraceStep A)

abbrev pub is_by_formula : PricingMode → Bool
is_by_formula by_formula = true
is_by_formula mode = false

abbrev pub is_by_rule : PricingMode → Bool
is_by_rule by_rule = true
is_by_rule mode = false

module _ (A : Decimals) (P : Printing A) where
  -- The variables `unit` and `amount`, of which one is `null`.
  pub data BasePrice : Type 0 where
    per_unit amount : A.Decimal → BasePrice

  -- `unit ?? amount`
  abbrev pub base_value : BasePrice → A.Decimal
  base_value (per_unit x) = x
  base_value (amount x) = x

  abbrev pub with_value : BasePrice → A.Decimal → BasePrice
  with_value (per_unit x) y = per_unit y
  with_value (amount x) y = amount y

  abbrev pub revision_target : BasePrice → RevisionTarget
  revision_target (per_unit x) = to_unit_price
  revision_target (amount x) = to_amount

  abbrev pub Priced : Type 0
  Priced = Result PricingError (Traced A P BasePrice)

  -- The tests of a pack of hours and of a revision.
  unfoldable pub check_hour_pack : PricingLine → Result PricingError (Unit {0})
  check_hour_pack line =
      if not (is_kind line.kind hour_pack) then ok tt else elim (line.hours_per_pack) [
        | none ↦ err (refused_line line.id)
        | some hours ↦ parse_decimal_within A 6 hours >>= λ h.
            refuse (not (A.gt h A.zero)) (refused_line line.id)
      ]

  unfoldable pub check_line : PricingLine → Result PricingError (Unit {0})
  unfolding check_hour_pack
  check_line line = do
    check_hour_pack line
    refuse (is_some line.revision && is_by_formula line.mode) (refused_line line.id)

  -- 2. The base price, by tiers,
  unfoldable pub tiered_price : Text → Option Text → TierTable → A.Decimal → Priced
  tiered_price line_id rule_id table qty = compute_tiered A table qty line_id >>= λ t.
      ok (amount t.exact, tier_bands rule_id t.mode t.bands (P.to_text t.exact) ∷ [])

  -- typed in,
  unfoldable pub manual_price : PricingLine → A.Decimal → Priced
  unfolding tiered_price
  manual_price line qty =
      if is_kind line.kind tiered
      then elim (line.tiers) [
        | none ↦ err (refused_line line.id)
        | some table ↦ tiered_price line.id none table qty
      ]
      else elim (line.unit_price) [
        | none ↦ err (refused_line line.id)
        | some price ↦ parse_decimal_within A 6 price >>= λ x.
            ok (per_unit x, base_price manual (P.to_text x) ∷ [])
      ]

  -- of a rule,
  unfoldable pub price_by : PricingLine → A.Decimal → Text → RuleBody → Priced
  unfolding tiered_price
  price_by line qty rule_id (grid entries) =
      refuse (is_kind line.kind tiered) (refused_line line.id)
      >> (grid_unit_price A rule_id entries line.code line.id >>= λ x.
          ok (per_unit x, rule_price rule_id line.code (P.to_text x) ∷ []))
  price_by line qty rule_id (tier_rule table) =
      refuse (not (is_kind line.kind tiered)) (refused_line line.id)
      >> tiered_price line.id (some rule_id) table qty
  price_by line qty rule_id (volume_discount thresholds) = err (refused_line line.id)
  price_by line qty rule_id (commitment_discount thresholds) = err (refused_line line.id)

  unfoldable pub rule_base_price : PricingLine → A.Decimal → Ctx A P → Priced
  unfolding price_by
  rule_base_price line qty ctx = elim (line.rule) [
    | none ↦ err (refused_line line.id)
    | some r ↦ find_rule ctx.catalog r.price_rule_id line.id >>= λ rule.
        price_by line qty rule.id rule.body
  ]

  -- or of a formula.
  unfoldable pub formula_price : PricingLine → A.Decimal → Ctx A P → Priced
  formula_price line qty ctx =
      refuse (is_kind line.kind tiered) (refused_line line.id)
      >> (evaluate_line_formula A P line qty ctx >>= λ r.
          refuse (A.is_negative r.0) (negative_price line.id) >> ok (per_unit r.0, r.1))

  unfoldable pub price_in_mode : PricingMode → PricingLine → A.Decimal → Ctx A P → Priced
  unfolding manual_price rule_base_price formula_price
  price_in_mode manual line qty ctx = manual_price line qty
  price_in_mode by_rule line qty ctx = rule_base_price line qty ctx
  price_in_mode by_formula line qty ctx = formula_price line qty ctx

  -- 3. The revision.
  abbrev pub revision_step : BasePrice → RevisionComputation A → TraceStep A
  revision_step base r =
      revision (revision_target base) (P.to_text r.p0) (P.to_text r.a) (P.to_text r.b) r.s0 r.s1
        (P.to_text r.ratio) (P.to_text r.coefficient) (P.to_text r.exact)

  unfoldable pub revise_from : Text → RevisionSpec → Ctx A P → BasePrice → Priced
  revise_from at rev ctx base =
      if text_ltb ctx.date at
      then ok (base, revision_not_effective at ctx.date ∷ [])
      else compute_revision A (base_value base) rev ctx.indexes ctx.settings.index_lookup >>= λ r.
          ok (with_value base r.exact, revision_step base r ∷ [])

  unfoldable pub revise_by : PricingLine → RevisionSpec → Ctx A P → BasePrice → Priced
  unfolding revise_from
  revise_by line rev ctx base = do
    from ← parse_iso_date rev.reference_date
    at ← parse_iso_date rev.revision_date
    refuse (text_ltb at from) (refused_line line.id)
    revise_from at rev ctx base

  unfoldable pub revise : PricingLine → Ctx A P → BasePrice → Priced
  unfolding revise_by
  revise line ctx base = elim (line.revision) [
    | none ↦ ok (base, [])
    | some rev ↦ revise_by line rev ctx base
  ]

  -- 4. The adjustments, one after the other.
  abbrev pub discounted : A.Decimal → A.Decimal → A.Decimal
  discounted before percent =
      A.div (A.times before (A.minus (whole A P 100) percent)) (whole A P 100)

  abbrev pub adjustment_step : AdjustmentResult A P → A.Decimal → A.Decimal → TraceStep A
  adjustment_step adj before after =
      adjustment adj.rule_id adj.rule_type adj.basis adj.threshold (P.to_text adj.percent)
        (P.to_text before) (P.to_text after)

  unfoldable pub adjust : PricingLine → A.Decimal → Ctx A P → BasePrice → List Text → Priced
  adjust line qty ctx base [] = ok (base, [])
  adjust line qty ctx base (rule_id ∷ rule_ids) = do
    rule ← find_rule ctx.catalog rule_id line.id
    adj ← adjustment_for A P rule qty ctx.commitment_months line.id
    let after = discounted (base_value base) adj.percent
    (final, steps) ← adjust line qty ctx (with_value base after) rule_ids
    ok (final, adjustment_step adj (base_value base) after ∷ steps)

  -- `line.rule?.adjustmentRuleIds ?? []`, in mode RULE only
  abbrev pub adjustments_of : Option RuleRef → List Text
  adjustments_of none = []
  adjustments_of (some r) = r.adjustment_rule_ids

  abbrev pub adjustment_ids : PricingLine → List Text
  adjustment_ids line = if is_by_rule line.mode then adjustments_of line.rule else []

  -- 5. The rounding of the unit price, or of the mean price of tiers.
  abbrev pub exact_unit : BasePrice → A.Decimal → A.Decimal
  exact_unit (per_unit x) qty = x
  exact_unit (amount x) qty = if A.is_zero qty then A.zero else A.div x qty

  unfoldable pub rounded_unit : BasePrice → A.Decimal → Ctx A P → A.Decimal
  rounded_unit base qty ctx =
      round_to_scale A (exact_unit base qty) ctx.settings.unit_price_scale ctx.settings.rounding

  abbrev pub rounding_step : BasePrice → A.Decimal → A.Decimal → Ctx A P → TraceStep A
  rounding_step base exact rounded ctx =
      rounding (elim base [ per_unit x ↦ unit_price | amount x ↦ average_unit_price ])
        (P.to_text exact) (fmt A P rounded ctx.settings.unit_price_scale)
        ctx.settings.unit_price_scale ctx.settings.rounding

  -- 6. The manual price.
  abbrev pub arithmetic : Arithmetic
  arithmetic = record {
    Decimal = A.Decimal;
    of_text = A.of_text;
    zero = A.zero;
    hundred = whole A P 100;
    minus = A.minus;
    abs = A.abs;
    div = A.div;
    times = A.times;
    is_zero = A.is_zero;
    gt = A.gt;
  }

  abbrev pub gap_text : Option A.Decimal → Option Text
  gap_text none = none
  gap_text (some gap) = some (P.to_text gap)

  abbrev pub skipped_steps : List (SkippedOverride arithmetic) → List (TraceStep A)
  skipped_steps skipped = map (λ s. override_skipped s.override_id s.reason s.gap_percent) skipped

  abbrev pub applied_steps :
      Option (AppliedOverride arithmetic) → A.Decimal → Ctx A P → List (TraceStep A)
  applied_steps none computed ctx = []
  applied_steps (some a) computed ctx =
      override_applied a.override (fmt A P computed ctx.settings.unit_price_scale)
        (gap_text a.gap_percent) a.requires_approval
      ∷ []

  -- `unitPrice` after the stage, and `amount`, which a manual price takes away.
  abbrev pub final_unit : Option (AppliedOverride arithmetic) → A.Decimal → A.Decimal
  final_unit none computed = computed
  final_unit (some a) computed = a.unit_price

  abbrev pub final_amount : Option (AppliedOverride arithmetic) → BasePrice → Option A.Decimal
  final_amount (some a) base = none
  final_amount none (per_unit x) = none
  final_amount none (amount x) = some x

  -- The hourly rate of a pack, for the trace only.
  abbrev pub pack_steps : PricingLine → A.Decimal → Ctx A P → List (TraceStep A)
  pack_steps line price ctx =
      if not (is_kind line.kind hour_pack) then [] else elim (line.hours_per_pack) [
        | none ↦ []
        | some hours ↦
            let rate =
              round_to_scale A (A.div price (A.of_text hours)) ctx.settings.unit_price_scale
                ctx.settings.rounding in
            hour_pack_rate (P.to_text (A.of_text hours))
              (fmt A P rate ctx.settings.unit_price_scale)
            ∷ []
      ]

  -- 7. The total, `amount ?? unitPrice.times(qty)`.
  abbrev pub exact_total : Option A.Decimal → A.Decimal → A.Decimal → A.Decimal
  exact_total none price qty = A.times price qty
  exact_total (some x) price qty = x

  abbrev pub total_steps : A.Decimal → A.Decimal → A.Decimal → Ctx A P → List (TraceStep A)
  total_steps price qty exact ctx =
      total_step (fmt A P price ctx.settings.unit_price_scale) (P.to_text qty) (P.to_text exact)
      ∷ rounding line_total (P.to_text exact)
          (format_cents A P (to_cents A P exact ctx.settings.rounding)) 2 ctx.settings.rounding
      ∷ []

  unfoldable pub finish :
      PricingLine
      → A.Decimal
      → Recurrence
      → A.Decimal
      → Ctx A P
      → BasePrice
      → OverrideSelection arithmetic
      → List (TraceStep A)
      → PricedLine A
  finish line vat recurrence qty ctx base selection steps =
      let computed = rounded_unit base qty ctx in
      let price = final_unit selection.applied computed in
      let exact = exact_total (final_amount selection.applied base) price qty in
      record {
        line_id = line.id;
        code = line.code;
        label = line.label;
        unit_label = line.unit_label;
        kind = line.kind;
        mode = line.mode;
        recurrence = recurrence;
        quantity = P.to_text qty;
        unit_price = fmt A P price ctx.settings.unit_price_scale;
        vat_rate_percent = P.to_text vat;
        total_ht_cents = to_cents A P exact ctx.settings.rounding;
        trace =
            steps
            ++ rounding_step base (exact_unit base qty) computed ctx
              ∷ skipped_steps selection.skipped
            ++ applied_steps selection.applied computed ctx
            ++ pack_steps line price ctx
            ++ total_steps price qty exact ctx;
      }

  -- Stages 6 and 7.
  unfoldable pub conclude :
      PricingLine
      → A.Decimal
      → Recurrence
      → A.Decimal
      → Ctx A P
      → List (TraceStep A)
      → Traced A P BasePrice
      → Result PricingError (PricedLine A)
  unfolding rounded_unit finish
  conclude line vat recurrence qty ctx steps (base, more) =
      select_override arithmetic (overrides_of line.id ctx.overrides) ctx.date
        (rounded_unit base qty ctx) ctx.threshold
      >>= λ selection. ok (finish line vat recurrence qty ctx base selection (steps ++ more))

  -- Stages 4 to 7, from the revised price; 3 to 7, from the base price; 2 to 7, from the quantity.
  unfoldable pub from_revised :
      PricingLine
      → A.Decimal
      → Recurrence
      → A.Decimal
      → Ctx A P
      → List (TraceStep A)
      → Traced A P BasePrice
      → Result PricingError (PricedLine A)
  unfolding adjust conclude
  from_revised line vat recurrence qty ctx steps (base, more) =
      adjust line qty ctx base (adjustment_ids line)
      >>= conclude line vat recurrence qty ctx (steps ++ more)

  unfoldable pub from_base :
      PricingLine
      → A.Decimal
      → Recurrence
      → A.Decimal
      → Ctx A P
      → List (TraceStep A)
      → Traced A P BasePrice
      → Result PricingError (PricedLine A)
  unfolding revise from_revised
  from_base line vat recurrence qty ctx steps (base, more) =
      revise line ctx base >>= from_revised line vat recurrence qty ctx (steps ++ more)

  unfoldable pub from_quantity :
      PricingLine
      → A.Decimal
      → Recurrence
      → Ctx A P
      → Traced A P A.Decimal
      → Result PricingError (PricedLine A)
  unfolding price_in_mode from_base
  from_quantity line vat recurrence ctx (qty, steps) =
      price_in_mode line.mode line qty ctx >>= from_base line vat recurrence qty ctx steps

  unfoldable pub price_regular_line : PricingLine → Ctx A P → Result PricingError (PricedLine A)
  unfolding check_line from_quantity
  price_regular_line line ctx = do
    vat ← parse_vat A P line
    recurrence ← resolve_recurrence line
    check_line line
    counted ← resolve_quantity A P line ctx
    from_quantity line vat recurrence ctx counted
