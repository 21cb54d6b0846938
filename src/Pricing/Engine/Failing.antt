-- ===== src/Pricing/Engine/Failing.antt =====
-- packages/pricing/src/price-at.ts, priceAt and withLine: which line an error is about.
use contrats.Base.{
  Bool, true, false, ◌≡◌, refl, ◌∙◌, List, [], ◌∷◌, IsIn, ◌⊎◌, inl, inr, Bool-cases,
}
use mathlib.Core.Path.{subst}
use contrats.Base.Text.{Text}
use contrats.Base.Result.{Result, ok, err, ◌>>=◌, err-injective, map-err}
use contrats.Formula.Evaluator.{Decimals}
use contrats.Pricing.Dates.{PricingError, has_line, with_line, at_line}
use contrats.Pricing.Discount.{price_discount_line}
use contrats.Pricing.Engine.{
  or_with_line, price_each, is_regular, is_discount, price_regular_lines, price_discount_lines,
  in_order, price_lines,
}
use contrats.Pricing.Line.{Ctx}
use contrats.Pricing.Line.Price.{PricedLine, price_regular_line}
use contrats.Pricing.Money.{Printing}
use contrats.Pricing.Types.{PricingLine}

-- The error of a line: the one that was thrown, if that names a line already, or that one, its code
-- and its details, with the line added.
abbrev pub IsErrorOf : Text → PricingError → PricingError → Type 0
IsErrorOf id cause e =
    ((has_line cause ≡ true) × (e ≡ cause)) ⊎ ((has_line cause ≡ false) × (e ≡ at_line id cause))

with_line-IsErrorOf : (id : Text) (cause : PricingError) → IsErrorOf id cause (with_line id cause)
with_line-IsErrorOf id cause = elim (Bool-cases (has_line cause)) [
  | inl h ↦ inl (h, rw h refl)
  | inr h ↦ inr (h, rw h refl)
]

IsErrorOf-has_line : (id : Text) (cause e : PricingError) → IsErrorOf id cause e → has_line e ≡ true
IsErrorOf-has_line id cause e (inl (h, k)) = rw k h
IsErrorOf-has_line id cause e (inr (h, k)) = rw k refl

module _ (A : Decimals) (P : Printing A) where
  -- The error is the one of a line that passes the test, which `price` was asked for.
  pub record FailsAt (test : PricingLine → Bool)
      (price : PricingLine → Result PricingError (PricedLine A)) (lines : List PricingLine)
      (e : PricingError) : Type 0 where
    pub line : PricingLine
    pub among : IsIn line lines
    pub chosen : test line ≡ true
    pub cause : PricingError
    pub thrown : price line ≡ err cause
    pub attached : IsErrorOf line.id cause e

  later-FailsAt :
      (test : PricingLine → Bool) (price : PricingLine → Result PricingError (PricedLine A))
      (l : PricingLine) (lines : List PricingLine) (e : PricingError)
      → FailsAt test price lines e
      → FailsAt test price (l ∷ lines) e
  later-FailsAt test price l lines e f = record {
    line = f.line;
    among = inr f.among;
    chosen = f.chosen;
    cause = f.cause;
    thrown = f.thrown;
    attached = f.attached;
  }

  first-FailsAt :
      (test : PricingLine → Bool) (price : PricingLine → Result PricingError (PricedLine A))
      (l : PricingLine) (lines : List PricingLine)
      (rest : Result PricingError (List (PricedLine A))) (e : PricingError)
      (r : Result PricingError (PricedLine A))
      → test l ≡ true
      → price l ≡ r
      → (rest ≡ err e → FailsAt test price lines e)
      → (or_with_line l.id r >>= λ p. rest >>= λ priced. ok (p ∷ priced)) ≡ err e
      → FailsAt test price (l ∷ lines) e
  first-FailsAt test price l lines rest e (ok p) on at ih h =
      later-FailsAt test price l lines e (ih (map-err rest (λ priced. p ∷ priced) h))
  first-FailsAt test price l lines rest e (err d) on at ih h = record {
    line = l;
    among = inl refl;
    chosen = on;
    cause = d;
    thrown = at;
    attached = subst (IsErrorOf l.id d) (err-injective h) (with_line-IsErrorOf l.id d);
  }

  price_each-FailsAt :
      (test : PricingLine → Bool) (price : PricingLine → Result PricingError (PricedLine A))
      (lines : List PricingLine) (e : PricingError)
      → price_each A P test price lines ≡ err e
      → FailsAt test price lines e
  unfolding price_each
  price_each-FailsAt test price [] e h = cc
  price_each-FailsAt test price (l ∷ lines) e h =
      let ih = price_each-FailsAt test price lines e in
      elim (Bool-cases (test l)) [
        | inr off ↦ later-FailsAt test price l lines e (ih (rw off at h))
        | inl on ↦
            first-FailsAt test price l lines (price_each A P test price lines) e (price l) on refl
              ih (rw on at h)
      ]

  FailsAt-has_line :
      (test : PricingLine → Bool) (price : PricingLine → Result PricingError (PricedLine A))
      (lines : List PricingLine) (e : PricingError)
      → FailsAt test price lines e
      → has_line e ≡ true
  FailsAt-has_line test price lines e f = IsErrorOf-has_line f.line.id f.cause e f.attached

  -- An error that is thrown while the lines of a schedule are priced names a line, and it is the error
  -- of a line of the schedule: of the own price of one that is no discount, or, once these are all
  -- priced, of a discount by their prices; its code and its details are kept, and the line is added
  -- where it was missing.
  pub price_lines-FailsAt :
      (lines : List PricingLine) (ctx : Ctx A P) (e : PricingError)
      → price_lines A P lines ctx ≡ err e
      → (has_line e ≡ true)
        × (FailsAt (is_regular A P) (λ l. price_regular_line A P l ctx) lines e
            ⊎ ((priced : List (PricedLine A)) × (price_regular_lines A P lines ctx ≡ ok priced)
                × FailsAt
                    (is_discount A P)
                    (λ l. price_discount_line A P l lines priced ctx)
                    lines
                    e))
  unfolding price_lines
  price_lines-FailsAt lines ctx e h = by_stage (price_regular_lines A P lines ctx) refl h
    where
      after : List (PricedLine A) → Result PricingError (List (PricedLine A))
      after priced = price_discount_lines A P lines priced ctx >>= λ discounts.
          ok (in_order A P priced discounts lines)

      by_stage :
          (r : Result PricingError (List (PricedLine A)))
          → price_regular_lines A P lines ctx ≡ r
          → (r >>= after) ≡ err e
          → (has_line e ≡ true)
            × (FailsAt (is_regular A P) (λ l. price_regular_line A P l ctx) lines e
                ⊎ ((priced : List (PricedLine A)) × (price_regular_lines A P lines ctx ≡ ok priced)
                    × FailsAt
                        (is_discount A P)
                        (λ l. price_discount_line A P l lines priced ctx)
                        lines
                        e))
      by_stage (err d) at k =
          let f =
            price_each-FailsAt (is_regular A P) (λ l. price_regular_line A P l ctx) lines e
              (at ∙ k) in
          (FailsAt-has_line (is_regular A P) (λ l. price_regular_line A P l ctx) lines e f, inl f)
      by_stage (ok priced) at k =
          let f =
            price_each-FailsAt (is_discount A P) (λ l. price_discount_line A P l lines priced ctx)
              lines e
              (map-err (price_discount_lines A P lines priced ctx)
                (λ discounts. in_order A P priced discounts lines) k) in
          (
            FailsAt-has_line (is_discount A P) (λ l. price_discount_line A P l lines priced ctx)
                lines e f,
            inr (priced, at, f),
          )
