-- ===== src/Pricing/Discount/Granted.antt =====
-- packages/pricing/src/price-at.ts, priceDiscountLine: what a discount that is priced takes off.
use mathlib.Core.Path.{subst}
use contrats.Base.{
  true, false, not, ◌≡◌, refl, sym, Option, none, some, some-injective, List, [], ◌∷◌, All, All-map,
  IsIn, arith, inl, inr, Bool-cases,
}
use contrats.Base.Int.{pos}
use contrats.Base.Text.{Text}
use contrats.Base.Order.{text_eqb}
use contrats.Base.Result.{
  Result, ok, refuse, ◌>>=◌, ◌>>◌, bind-ok, then-ok, refuse-ok, ok-injective,
}
use contrats.Formula.Evaluator.{Decimals}
use contrats.Pricing.Dates.{PricingError, refused_line, discount_target_mismatch}
use contrats.Pricing.Discount.{
  is_manual, differs_from, has_repeats, priced_with_id, target_of, targets_of, targets, same_rate,
  check_targets, check_discount, sum_cents, max_scale_of, discount_amount, discount_line,
  discount_on, discount_by, price_discount_line,
}
use contrats.Pricing.Line.{Ctx, parse_vat}
use contrats.Pricing.Line.Price.{PricedLine}
use contrats.Pricing.Money.{Printing, whole, parse_decimal_within, to_cents, cents_to_euros}
use contrats.Pricing.Types.{
  Recurrence, monthly, quarterly, yearly, one_off, DiscountKind, percent, amount, DiscountSpec,
  DiscountTarget, on_lines, subtotal, PricingLine, is_recurrence,
}

is_recurrence_sound : (a b : Recurrence) → is_recurrence a b ≡ true → a ≡ b
is_recurrence_sound monthly monthly h = refl
is_recurrence_sound quarterly quarterly h = refl
is_recurrence_sound yearly yearly h = refl
is_recurrence_sound one_off one_off h = refl
is_recurrence_sound _ _ h = cc

All-self : {T : Type 0} (xs : List T) → All (λ x. IsIn x xs) xs
All-self [] = tt
All-self (x ∷ xs) =
    (inl refl, All-map (λ y. IsIn y xs) (λ y. IsIn y (x ∷ xs)) xs (λ y h. inr h) (All-self xs))

module _ (A : Decimals) (P : Printing A) where
  priced_with_id-IsIn :
      (id : Text) (priced : List (PricedLine A)) (p : PricedLine A)
      → priced_with_id A P id priced ≡ some p
      → IsIn p priced
  unfolding priced_with_id
  priced_with_id-IsIn id [] p h = cc
  priced_with_id-IsIn id (q ∷ priced) p h = elim (Bool-cases (text_eqb q.line_id id)) [
    | inl e ↦ inl (sym (some-injective (rw e at h)))
    | inr e ↦ inr (priced_with_id-IsIn id priced p (rw e at h))
  ]

  target_of-IsIn :
      (line : PricingLine) (lines : List PricingLine) (priced : List (PricedLine A)) (id : Text)
      (p : PricedLine A)
      → target_of A P line lines priced id ≡ ok p
      → IsIn p priced
  unfolding target_of
  target_of-IsIn line lines priced id p h = priced_with_id-IsIn id priced p (ground arith)

  targets_of-IsIn :
      (line : PricingLine) (lines : List PricingLine) (priced : List (PricedLine A))
      (ids : List Text) {found : List (PricedLine A)}
      → targets_of A P line lines priced ids ≡ ok found
      → All (λ t. IsIn t priced) found
  unfolding targets_of
  targets_of-IsIn line lines priced [] h = rw (← ok-injective h) tt
  targets_of-IsIn line lines priced (id ∷ ids) h =
      let (p, at, k) =
        bind-ok (target_of A P line lines priced id)
          (λ p. targets_of A P line lines priced ids >>= λ rest. ok (p ∷ rest)) h in
      let (rest, all, same) =
        bind-ok (targets_of A P line lines priced ids) (λ rest. ok (p ∷ rest)) k in
      rw (← ok-injective same)
        (target_of-IsIn line lines priced id p at, targets_of-IsIn line lines priced ids all)

  targets-IsIn :
      (line : PricingLine) (lines : List PricingLine) (priced : List (PricedLine A))
      (target : DiscountTarget) {found : List (PricedLine A)}
      → targets A P line lines priced target ≡ ok found
      → All (λ t. IsIn t priced) found
  unfolding targets
  targets-IsIn line lines priced subtotal h = rw (← ok-injective h) (All-self priced)
  targets-IsIn line lines priced (on_lines ids) h =
      targets_of-IsIn line lines priced ids
        (refuse-ok (has_repeats ids) (refused_line line.id) (targets_of A P line lines priced ids)
          h).1

  check_targets-All :
      (line : PricingLine) (first : PricedLine A) (ts : List (PricedLine A))
      → check_targets A P line first ts ≡ ok tt
      → All
          (λ t.
            (same_rate A P t.vat_rate_percent first.vat_rate_percent ≡ true)
            × (t.recurrence ≡ first.recurrence))
          ts
  unfolding check_targets
  check_targets-All line first [] h = tt
  check_targets-All line first (t ∷ ts) h =
      let e = discount_target_mismatch line.id in
      let differs = not (is_recurrence t.recurrence first.recurrence) in
      let (rate, k) =
        refuse-ok (not (same_rate A P t.vat_rate_percent first.vat_rate_percent)) e
          (refuse differs e >> check_targets A P line first ts) h in
      let (recurring, rest) = refuse-ok differs e (check_targets A P line first ts) k in
      (
        (
          ground (arith, rate),
          is_recurrence_sound t.recurrence first.recurrence (ground (arith, recurring)),
        ),
        check_targets-All line first ts rest,
      )

  -- The amount that is taken off a base: a share of at most 100 percent, or at most the base.
  abbrev pub IsReduction : DiscountKind → A.Decimal → A.Decimal → A.Decimal → Type 0
  IsReduction percent value base exact =
      (A.gt value (whole A P 100) ≡ false)
      × (exact ≡ A.neg (A.div (A.times base value) (whole A P 100)))
  IsReduction amount value base exact = (A.gt value base ≡ false) × (exact ≡ A.neg value)

  discount_amount-IsReduction :
      (id : Text) (kind : DiscountKind) (value base exact : A.Decimal)
      → discount_amount A P id kind value base ≡ ok exact
      → IsReduction kind value base exact
  unfolding discount_amount
  discount_amount-IsReduction id percent value base exact h = ground arith
  discount_amount-IsReduction id amount value base exact h = ground arith

  -- A discount on the priced lines `first ∷ more`.
  pub record IsGranted (line : PricingLine) (spec : DiscountSpec) (ctx : Ctx A P)
      (first : PricedLine A) (more : List (PricedLine A)) (p : PricedLine A) : Type 0 where
    pub alike :
        All
          (λ t.
            (same_rate A P t.vat_rate_percent first.vat_rate_percent ≡ true)
            × (t.recurrence ≡ p.recurrence))
          (first ∷ more)
    pub vat : A.Decimal
    pub vat_read : parse_vat A P line ≡ ok vat
    pub vat_alike : A.eq vat (A.of_text first.vat_rate_percent) ≡ true
    pub value : A.Decimal
    pub value_read : parse_decimal_within A (max_scale_of A P spec.kind) spec.value ≡ ok value
    pub exact : A.Decimal
    pub reduction :
        IsReduction spec.kind value
          (cents_to_euros A P (sum_cents A P (pos 0) (first ∷ more)))
          exact
    pub total : p.total_ht_cents ≡ to_cents A P exact ctx.settings.rounding

  check_discount-All :
      (line : PricingLine) (vat : A.Decimal) (first : PricedLine A) (ts : List (PricedLine A))
      → check_discount A P line vat first ts ≡ ok tt
      → All
          (λ t.
            (same_rate A P t.vat_rate_percent first.vat_rate_percent ≡ true)
            × (t.recurrence ≡ first.recurrence))
          ts
        × (A.eq vat (A.of_text first.vat_rate_percent) ≡ true)
  unfolding check_discount
  check_discount-All line vat first ts h =
      let e = discount_target_mismatch line.id in
      let own = not (A.eq vat (A.of_text first.vat_rate_percent)) in
      let last = refuse (differs_from line.recurrence first.recurrence) e in
      let (all, k) = then-ok (check_targets A P line first ts) (refuse own e >> last) h in
      let (rate, rest) = refuse-ok own e last k in
      (check_targets-All line first ts all, ground (arith, rate))

  discount_on-IsGranted :
      (line : PricingLine) (spec : DiscountSpec) (vat : A.Decimal) (ctx : Ctx A P)
      (first : PricedLine A) (more : List (PricedLine A)) (p : PricedLine A)
      → parse_vat A P line ≡ ok vat
      → discount_on A P line spec vat ctx (first ∷ more) ≡ ok p
      → IsGranted line spec ctx first more p
  unfolding discount_on
  discount_on-IsGranted line spec vat ctx first more p read h =
      let base = cents_to_euros A P (sum_cents A P (pos 0) (first ∷ more)) in
      let price : A.Decimal → A.Decimal → Result PricingError (PricedLine A) =
        λ value exact. ok (discount_line A P line spec vat first (first ∷ more) value exact ctx) in
      let cut : A.Decimal → Result PricingError (PricedLine A) =
        λ value. discount_amount A P line.id spec.kind value base >>= price value in
      let parsed = parse_decimal_within A (max_scale_of A P spec.kind) spec.value in
      let (checked, k) =
        then-ok (check_discount A P line vat first (first ∷ more)) (parsed >>= cut) h in
      let (value, value_is, m) = bind-ok parsed cut k in
      let (exact, exact_is, same) =
        bind-ok (discount_amount A P line.id spec.kind value base) (price value) m in
      let (alike, own) = check_discount-All line vat first (first ∷ more) checked in
      subst (IsGranted line spec ctx first more) (ok-injective same) (record {
        alike = unfold discount_line in alike;
        vat = vat;
        vat_read = read;
        vat_alike = own;
        value = value;
        value_read = value_is;
        exact = exact;
        reduction = discount_amount-IsReduction line.id spec.kind value base exact exact_is;
        total = unfold discount_line in refl;
      })

  -- A discount with its targets `first ∷ more`, which are priced lines.
  pub record IsDiscount (line : PricingLine) (lines : List PricingLine)
      (priced : List (PricedLine A)) (ctx : Ctx A P) (p : PricedLine A) : Type 0 where
    pub spec : DiscountSpec
    pub given : line.discount_spec ≡ some spec
    pub first : PricedLine A
    pub more : List (PricedLine A)
    pub found : targets A P line lines priced spec.applies_to ≡ ok (first ∷ more)
    pub among : All (λ t. IsIn t priced) (first ∷ more)
    pub granted : IsGranted line spec ctx first more p

  discount_on-IsDiscount :
      (line : PricingLine) (lines : List PricingLine) (priced : List (PricedLine A)) (ctx : Ctx A P)
      (p : PricedLine A) (spec : DiscountSpec) (vat : A.Decimal) (ts : List (PricedLine A))
      → line.discount_spec ≡ some spec
      → parse_vat A P line ≡ ok vat
      → targets A P line lines priced spec.applies_to ≡ ok ts
      → discount_on A P line spec vat ctx ts ≡ ok p
      → IsDiscount line lines priced ctx p
  unfolding discount_on
  discount_on-IsDiscount line lines priced ctx p spec vat [] given read found h = cc
  discount_on-IsDiscount line lines priced ctx p spec vat (t ∷ more) given read found h = record {
    spec = spec;
    given = given;
    first = t;
    more = more;
    found = found;
    among = targets-IsIn line lines priced spec.applies_to found;
    granted = discount_on-IsGranted line spec vat ctx t more p read h;
  }

  discount_by-IsDiscount :
      (line : PricingLine) (lines : List PricingLine) (priced : List (PricedLine A)) (ctx : Ctx A P)
      (p : PricedLine A) (given : Option DiscountSpec)
      → line.discount_spec ≡ given
      → discount_by A P line given lines priced ctx ≡ ok p
      → IsDiscount line lines priced ctx p
  unfolding discount_by
  discount_by-IsDiscount line lines priced ctx p none e h = cc
  discount_by-IsDiscount line lines priced ctx p (some spec) e h =
      let (vat, read, m) =
        bind-ok (parse_vat A P line)
          (λ vat.
            targets A P line lines priced spec.applies_to >>= discount_on A P line spec vat ctx)
          h in
      let (ts, found, last) =
        bind-ok (targets A P line lines priced spec.applies_to) (discount_on A P line spec vat ctx)
          m in
      discount_on-IsDiscount line lines priced ctx p spec vat ts e read found last

  -- A discount that is priced has targets, which are among the lines priced before, all of one
  -- recurrence, which becomes its own, and of one rate of tax, which is its own too; it takes off a
  -- share of at most a hundred percent of the sum of their totals, or an amount that is at most that
  -- sum, rounded to cents once.
  pub price_discount_line-IsDiscount :
      (line : PricingLine) (lines : List PricingLine) (priced : List (PricedLine A)) (ctx : Ctx A P)
      (p : PricedLine A)
      → price_discount_line A P line lines priced ctx ≡ ok p
      → IsDiscount line lines priced ctx p
  unfolding price_discount_line
  price_discount_line-IsDiscount line lines priced ctx p h =
      discount_by-IsDiscount line lines priced ctx p line.discount_spec refl
        (refuse-ok (not (is_manual line.mode)) (refused_line line.id)
          (discount_by A P line line.discount_spec lines priced ctx) h).1
