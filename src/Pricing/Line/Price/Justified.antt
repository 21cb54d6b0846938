-- ===== src/Pricing/Line/Price/Justified.antt =====
-- packages/pricing/src/price-at.ts, priceRegularLine: where the price of a line comes from.
use mathlib.Core.Path.{subst}
use contrats.Base.{◌≡◌, refl, Option, none, some, List, ◌++◌}
use contrats.Base.Result.{ok, ◌>>=◌, ◌>>◌, bind-ok, then-ok, ok-injective}
use contrats.Formula.Evaluator.{Decimals}
use contrats.Pricing.Line.{Ctx, parse_vat, resolve_recurrence, resolve_quantity, overrides_of}
use contrats.Pricing.Line.Price.{
  PricedLine, BasePrice, amount, per_unit, check_line, price_in_mode, revise, adjust,
  adjustment_ids, rounded_unit, arithmetic, finish, conclude, from_revised, from_base,
  from_quantity, price_regular_line,
}
use contrats.Pricing.Money.{Printing, to_cents, fmt}
use contrats.Pricing.Overrides.{AppliedOverride, OverrideSelection, IsAllowed, select_override}
use contrats.Pricing.Overrides.Allowed.{select_override-IsAllowed}
use contrats.Pricing.Trace.{TraceStep}
use contrats.Pricing.Types.{PricingLine, Recurrence}

module _ (A : Decimals) (P : Printing A) where
  -- The stages of the computation of a line, before a manual price.
  pub record IsComputed (line : PricingLine) (ctx : Ctx A P) (qty : A.Decimal)
      (base : BasePrice A P) : Type 0 where
    pub counted : List (TraceStep A)
    pub quantity : resolve_quantity A P line ctx ≡ ok (qty, counted)
    pub first : BasePrice A P
    pub first_steps : List (TraceStep A)
    pub chosen : price_in_mode A P line.mode line qty ctx ≡ ok (first, first_steps)
    pub second : BasePrice A P
    pub second_steps : List (TraceStep A)
    pub revised : revise A P line ctx first ≡ ok (second, second_steps)
    pub last_steps : List (TraceStep A)
    pub adjusted : adjust A P line qty ctx second (adjustment_ids A P line) ≡ ok (base, last_steps)

  -- The computed price, rounded, is the price, or an override that the rules allow against it is.
  abbrev pub IsPricedBy :
      PricingLine
      → Ctx A P
      → A.Decimal
      → BasePrice A P
      → Option (AppliedOverride (arithmetic A P))
      → PricedLine A
      → Type 0
  IsPricedBy line ctx qty (per_unit x) none p =
      (p.unit_price ≡ fmt A P (rounded_unit A P (per_unit x) qty ctx) ctx.settings.unit_price_scale)
      × (p.total_ht_cents
          ≡ to_cents A P (A.times (rounded_unit A P (per_unit x) qty ctx) qty)
              ctx.settings.rounding)
  IsPricedBy line ctx qty (amount x) none p =
      (p.unit_price ≡ fmt A P (rounded_unit A P (amount x) qty ctx) ctx.settings.unit_price_scale)
      × (p.total_ht_cents ≡ to_cents A P x ctx.settings.rounding)
  IsPricedBy line ctx qty base (some a) p =
      IsAllowed (arithmetic A P) ctx.date (rounded_unit A P base qty ctx) ctx.threshold
        (overrides_of line.id ctx.overrides) a
      × (p.unit_price ≡ fmt A P a.unit_price ctx.settings.unit_price_scale)
      × (p.total_ht_cents ≡ to_cents A P (A.times a.unit_price qty) ctx.settings.rounding)

  finish-IsPricedBy :
      (line : PricingLine) (vat : A.Decimal) (recurrence : Recurrence) (qty : A.Decimal)
      (ctx : Ctx A P) (base : BasePrice A P) (selection : OverrideSelection (arithmetic A P))
      (steps : List (TraceStep A)) (applied : Option (AppliedOverride (arithmetic A P)))
      → selection.applied ≡ applied
      → select_override
          (arithmetic A P)
          (overrides_of line.id ctx.overrides)
          ctx.date
          (rounded_unit A P base qty ctx)
          ctx.threshold
        ≡ ok selection
      → IsPricedBy line ctx qty base applied
          (finish A P line vat recurrence qty ctx base selection steps)
  unfolding finish
  finish-IsPricedBy line vat recurrence qty ctx (per_unit x) selection steps none e h =
      rw e (refl, refl)
  finish-IsPricedBy line vat recurrence qty ctx (amount x) selection steps none e h =
      rw e (refl, refl)
  finish-IsPricedBy line vat recurrence qty ctx base selection steps (some a) e h = (
    select_override-IsAllowed (arithmetic A P) (overrides_of line.id ctx.overrides) ctx.date
        (rounded_unit A P base qty ctx) ctx.threshold a h e,
    rw e refl,
    rw e refl,
  )

  conclude-IsPricedBy :
      (line : PricingLine) (vat : A.Decimal) (recurrence : Recurrence) (qty : A.Decimal)
      (ctx : Ctx A P) (steps : List (TraceStep A)) (base : BasePrice A P)
      (more : List (TraceStep A)) (p : PricedLine A)
      → conclude A P line vat recurrence qty ctx steps (base, more) ≡ ok p
      → (applied : Option (AppliedOverride (arithmetic A P))) × IsPricedBy line ctx qty base applied
          p
  unfolding conclude
  conclude-IsPricedBy line vat recurrence qty ctx steps base more p h =
      let (selection, selected, same) =
        bind-ok
          (select_override (arithmetic A P) (overrides_of line.id ctx.overrides) ctx.date
            (rounded_unit A P base qty ctx) ctx.threshold)
          (λ selection. ok (finish A P line vat recurrence qty ctx base selection (steps ++ more)))
          h in
      (
        selection.applied,
        subst (IsPricedBy line ctx qty base selection.applied) (ok-injective same) (
            finish-IsPricedBy line vat recurrence qty ctx base selection (steps ++ more)
              selection.applied refl selected),
      )

  -- A line that is no discount is priced by its quantity, a base price, the revision of that price and
  -- the adjustments of the revised price, in this order; the computed price, rounded, stands, unless
  -- an override does, which is one of the line, in force, justified and approved by another person
  -- where it is far from the computed price; the total is that of tiers where no override stands,
  -- else the price times the quantity, rounded to cents once.
  pub price_regular_line-IsPricedBy :
      (line : PricingLine) (ctx : Ctx A P) (p : PricedLine A)
      → price_regular_line A P line ctx ≡ ok p
      → (qty : A.Decimal) × (base : BasePrice A P) × IsComputed line ctx qty base
        × (applied : Option (AppliedOverride (arithmetic A P))) × IsPricedBy line ctx qty base
            applied p
  unfolding price_regular_line from_quantity from_base from_revised
  price_regular_line-IsPricedBy line ctx p h =
      let (vat, e, h1) =
        bind-ok (parse_vat A P line)
          (λ vat. resolve_recurrence line >>= λ r.
            check_line A P line
            >> (resolve_quantity A P line ctx >>= from_quantity A P line vat r ctx))
          h in
      let (r, e, h2) =
        bind-ok (resolve_recurrence line)
          (λ r.
            check_line A P line
            >> (resolve_quantity A P line ctx >>= from_quantity A P line vat r ctx))
          h1 in
      let (e, h3) =
        then-ok (check_line A P line)
          (resolve_quantity A P line ctx >>= from_quantity A P line vat r ctx) h2 in
      let ((qty, s0), quantity, h4) =
        bind-ok (resolve_quantity A P line ctx) (from_quantity A P line vat r ctx) h3 in
      let ((first, s1), chosen, h5) =
        bind-ok (price_in_mode A P line.mode line qty ctx) (from_base A P line vat r qty ctx s0)
          h4 in
      let ((second, s2), revised, h6) =
        bind-ok (revise A P line ctx first) (from_revised A P line vat r qty ctx (s0 ++ s1)) h5 in
      let ((base, s3), adjusted, h7) =
        bind-ok (adjust A P line qty ctx second (adjustment_ids A P line))
          (conclude A P line vat r qty ctx ((s0 ++ s1) ++ s2)) h6 in
      let (applied, priced) =
        conclude-IsPricedBy line vat r qty ctx ((s0 ++ s1) ++ s2) base s3 p h7 in
      (
        qty,
        base,
        record {
          counted = s0;
          quantity = quantity;
          first = first;
          first_steps = s1;
          chosen = chosen;
          second = second;
          second_steps = s2;
          revised = revised;
          last_steps = s3;
          adjusted = adjusted;
        },
        applied,
        priced,
      )
