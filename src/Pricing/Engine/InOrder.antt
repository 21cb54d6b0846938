-- ===== src/Pricing/Engine/InOrder.antt =====
-- packages/pricing/src/price-at.ts, priceAt: every line of the schedule has its price, in its place.
use mathlib.Core.Path.{subst}
use contrats.Base.{
  true, not, ◌≡◌, refl, sym, ap, Option, none, some, List, [], ◌∷◌, All, arith, inl, inr,
  Bool-cases,
}
use contrats.Base.Text.{Text}
use contrats.Base.Order.{text_eqb}
use contrats.Base.Result.{Result, ok, ◌>>=◌, ◌>>◌, bind-ok, then-ok, refuse-ok, ok-injective}
use contrats.Formula.Evaluator.{Decimals}
use contrats.Pricing.Dates.{PricingError, invalid_settings, parse_iso_date}
use contrats.Pricing.Discount.{
  price_discount_line, priced_with_id, discount_by, discount_on, discount_line,
}
use contrats.Pricing.Engine.{
  check_ids, is_regular, is_discount, price_regular_lines, price_discount_lines, in_order,
  price_lines, resolve_settings, euro_code, context_of, PricingResult, price_schedule, price_with,
  price_at,
}
use contrats.Pricing.Engine.Loops.{Distinct, Zip, check_ids-unseen, Found, price_each-Found}
use contrats.Pricing.Line.{Ctx, Traced}
use contrats.Pricing.Line.Price.{
  PricedLine, price_regular_line, from_quantity, from_base, from_revised, conclude, finish,
}
use contrats.Pricing.Money.{Printing}
use contrats.Pricing.Schedule.{PricingSchedule, select_schedule}
use contrats.Pricing.Totals.{compute_totals}
use contrats.Pricing.Types.{PricingLine, PricingInput, PricingSettings, DiscountSpec, Recurrence}

module _ (A : Decimals) (P : Printing A) where
  from_quantity-id :
      (l : PricingLine) (vat : A.Decimal) (recurrence : Recurrence) (ctx : Ctx A P)
      (counted : Traced A P A.Decimal) (p : PricedLine A)
      → from_quantity A P l vat recurrence ctx counted ≡ ok p
      → p.line_id ≡ l.id
  unfolding from_quantity from_base from_revised conclude finish
  from_quantity-id l vat recurrence ctx (qty, steps) p h = ground arith

  price_regular_line-id :
      (l : PricingLine) (ctx : Ctx A P) (p : PricedLine A)
      → price_regular_line A P l ctx ≡ ok p
      → p.line_id ≡ l.id
  unfolding price_regular_line
  price_regular_line-id l ctx p h = grind (arith, from_quantity-id)

  discount_on-id :
      (l : PricingLine) (d : DiscountSpec) (vat : A.Decimal) (ctx : Ctx A P)
      (targets : List (PricedLine A)) (p : PricedLine A)
      → discount_on A P l d vat ctx targets ≡ ok p
      → p.line_id ≡ l.id
  unfolding discount_on discount_line
  discount_on-id l d vat ctx [] p h = cc
  discount_on-id l d vat ctx (t ∷ more) p h = ground arith

  discount_by-id :
      (l : PricingLine) (d : Option DiscountSpec) (lines : List PricingLine)
      (priced : List (PricedLine A)) (ctx : Ctx A P) (p : PricedLine A)
      → discount_by A P l d lines priced ctx ≡ ok p
      → p.line_id ≡ l.id
  unfolding discount_by
  discount_by-id l none lines priced ctx p h = cc
  discount_by-id l (some d) lines priced ctx p h = grind (arith, discount_on-id)

  price_discount_line-id :
      (lines : List PricingLine) (priced : List (PricedLine A)) (ctx : Ctx A P) (l : PricingLine)
      (p : PricedLine A)
      → price_discount_line A P l lines priced ctx ≡ ok p
      → p.line_id ≡ l.id
  unfolding price_discount_line
  price_discount_line-id lines priced ctx l p h =
      ground (arith, discount_by-id l l.discount_spec lines priced ctx p)

  -- The priced line of a line: by its own price, if it is no discount, and by the other priced lines.
  abbrev pub PricedAs :
      List PricingLine → List (PricedLine A) → Ctx A P → PricingLine → PricedLine A → Type 0
  PricedAs lines priced ctx l p =
      (is_regular A P l ≡ true → price_regular_line A P l ctx ≡ ok p)
      × (is_discount A P l ≡ true → price_discount_line A P l lines priced ctx ≡ ok p)

  in_order_regular :
      (l : PricingLine) (p : PricedLine A) (lines : List PricingLine)
      (priced discounts : List (PricedLine A))
      → priced_with_id A P l.id priced ≡ some p
      → in_order A P priced discounts (l ∷ lines) ≡ p ∷ in_order A P priced discounts lines
  unfolding in_order
  in_order_regular l p lines priced discounts h = rw (h, in_order) refl

  in_order_discount :
      (l : PricingLine) (d : PricedLine A) (lines : List PricingLine)
      (priced discounts : List (PricedLine A))
      → priced_with_id A P l.id priced ≡ none
      → priced_with_id A P l.id discounts ≡ some d
      → in_order A P priced discounts (l ∷ lines) ≡ d ∷ in_order A P priced discounts lines
  unfolding in_order
  in_order_discount l d lines priced discounts h k = rw (h, k, in_order) refl

  in_order-Zip :
      (all : List PricingLine) (priced discounts : List (PricedLine A)) (ctx : Ctx A P)
      (lines : List PricingLine)
      → All
          (Found A P
            (is_regular A P)
            (λ l. price_regular_line A P l ctx)
            (λ l. price_regular_line-id l ctx)
            priced)
          lines
      → All
          (Found A P
            (is_discount A P)
            (λ l. price_discount_line A P l all priced ctx)
            (price_discount_line-id all priced ctx)
            discounts)
          lines
      → Zip (PricedAs all priced ctx) lines (in_order A P priced discounts lines)
  unfolding in_order
  in_order-Zip all priced discounts ctx [] f g = tt
  in_order-Zip all priced discounts ctx (l ∷ lines) f g = elim (Bool-cases (is_discount A P l)) [
    | inl e ↦
        let (d, here, of) = g.0.0 e in
        subst (Zip (PricedAs all priced ctx) (l ∷ lines))
          (sym (in_order_discount l d lines priced discounts (f.0.1 (ap not e)) here))
          ((λ no. cc, λ yes. of), in_order-Zip all priced discounts ctx lines f.1 g.1)
    | inr e ↦
        let (p, here, of) = f.0.0 (ap not e) in
        subst (Zip (PricedAs all priced ctx) (l ∷ lines))
          (sym (in_order_regular l p lines priced discounts here))
          ((λ yes. of, λ no. cc (e, no)), in_order-Zip all priced discounts ctx lines f.1 g.1)
  ]

  -- What the prices of the lines of a schedule are.
  pub record ArePriced (lines : List PricingLine) (ctx : Ctx A P) (out : List (PricedLine A))
      : Type 0 where
    pub regular : List (PricedLine A)
    pub regular_priced : price_regular_lines A P lines ctx ≡ ok regular
    pub in_place : Zip (PricedAs lines regular ctx) lines out

  price_lines-ArePriced :
      (lines : List PricingLine) (ctx : Ctx A P) {out : List (PricedLine A)}
      → Distinct lines
      → price_lines A P lines ctx ≡ ok out
      → ArePriced lines ctx out
  unfolding price_lines
  price_lines-ArePriced lines ctx d h =
      let after : List (PricedLine A) → Result PricingError (List (PricedLine A)) = λ priced.
        price_discount_lines A P lines priced ctx >>= λ discounts.
        ok (in_order A P priced discounts lines) in
      let (priced, one, k) = bind-ok (price_regular_lines A P lines ctx) after h in
      let (discounts, two, same) =
        bind-ok (price_discount_lines A P lines priced ctx)
          (λ discounts. ok (in_order A P priced discounts lines)) k in
      record {
        regular = priced;
        regular_priced = one;
        in_place = subst (Zip (PricedAs lines priced ctx) lines) (ok-injective same) (
            in_order-Zip lines priced discounts ctx lines
              (price_each-Found A P (is_regular A P) (λ l. price_regular_line A P l ctx)
                (λ l. price_regular_line-id l ctx) lines d one)
              (price_each-Found A P (is_discount A P)
                (λ l. price_discount_line A P l lines priced ctx)
                (price_discount_line-id lines priced ctx) lines d two));
      }

  price_schedule-ArePriced :
      (input : PricingInput) (date : Text) (settings : PricingSettings)
      (s : PricingSchedule PricingLine) (out : PricingResult A P)
      → price_schedule A P input date settings s ≡ ok out
      → ArePriced s.lines (context_of A P input settings date) out.lines
        × (out.settings ≡ settings)
        × (out.totals ≡ compute_totals A P out.lines settings)
  unfolding price_schedule
  price_schedule-ArePriced input date settings s out h =
      let ctx : Ctx A P = context_of A P input settings date in
      let finish : List (PricedLine A) → Result PricingError (PricingResult A P) = λ lines.
        ok (record {
          date = date;
          schedule_id = s.id;
          schedule_valid_from = s.valid_from;
          schedule_valid_to = s.valid_to;
          settings = settings;
          lines = lines;
          totals = compute_totals A P lines settings;
        }) in
      let checked = check_ids [] s.lines in
      let run = price_lines A P s.lines ctx >>= finish in
      let (euro, k) =
        refuse-ok (not (text_eqb s.currency euro_code)) invalid_settings (checked >> run) h in
      let (apart, m) = then-ok checked run k in
      let (lines, priced, same) = bind-ok (price_lines A P s.lines ctx) finish m in
      subst
        (λ o.
          ArePriced s.lines ctx o.lines
          × (o.settings ≡ settings)
          × (o.totals ≡ compute_totals A P o.lines settings))
        (ok-injective same)
        (price_lines-ArePriced s.lines ctx (check_ids-unseen [] s.lines apart).1 priced, refl, refl)

  -- `priceAt` prices every line of the schedule that applies, each once and in its place: a line that
  -- is no discount by its own price, a discount by the prices of all the others; the totals are those
  -- of the priced lines.
  pub price_at-ArePriced :
      (input : PricingInput) (date : Text) (out : PricingResult A P)
      → price_at A P input date ≡ ok out
      → (s : PricingSchedule PricingLine) × (select_schedule PricingLine input.schedules date
          ≡ ok s)
        × ArePriced s.lines (context_of A P input out.settings date) out.lines
        × (out.totals ≡ compute_totals A P out.lines out.settings)
  unfolding price_at
  price_at-ArePriced input date out h =
      let with_settings = resolve_settings input.settings >>= price_with A P input date in
      let (day, at, k) = bind-ok (parse_iso_date date) (λ day. with_settings) h in
      let (settings, at, m) =
        bind-ok (resolve_settings input.settings) (price_with A P input date) k in
      let (s, chosen, last) =
        bind-ok (select_schedule PricingLine input.schedules date)
          (price_schedule A P input date settings) m in
      let (priced, same, totals) = price_schedule-ArePriced input date settings s out last in
      (s, chosen, rw same (priced), rw same totals)
