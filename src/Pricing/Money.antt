-- ===== src/Pricing/Money.antt =====
-- packages/pricing/src/money.ts: decimals read from texts, rounding, cents. What decimal.js prints and
-- converts is the parameter `Printing`, beside `Decimals`, which computes.
use contrats.Base.{ℕ, [], ◌∷◌, ltb, ◌==◌, if◌then◌else◌}
use contrats.Base.Int.{ℤ, pos}
use contrats.Base.Text.{Text}
use contrats.Base.Result.{Result, ok, err}
use contrats.Formula.Evaluator.{Decimals, RoundingMode}
use contrats.Pricing.Dates.{PricingError, invalid_decimal, is_decimal_within}

-- `of_int` is `D(n.toString())`, `to_int` is `BigInt(x.toFixed(0))`, for an integer.
pub record Printing (A : Decimals) : Type 0 where
  pub to_text : A.Decimal → Text
  pub to_fixed : A.Decimal → ℕ → Text
  pub decimal_places : A.Decimal → ℕ
  pub of_int : ℤ → A.Decimal
  pub to_int : A.Decimal → ℤ

-- A sign that `DECIMAL_RE` admits before the digits.
abbrev pub without_sign : Text → Text
without_sign [] = []
without_sign (c ∷ s) = if c == 45 then s else c ∷ s

module _ (A : Decimals) where
  -- `parseDecimal` with its options: the greatest number of decimals, `allowNegative`.
  unfoldable pub parse_decimal_within : ℕ → Text → Result PricingError A.Decimal
  parse_decimal_within max_scale value =
      if is_decimal_within max_scale value
      then ok (A.of_text value)
      else err (invalid_decimal value)

  unfoldable pub parse_signed_within : ℕ → Text → Result PricingError A.Decimal
  parse_signed_within max_scale value =
      if is_decimal_within max_scale (without_sign value)
      then ok (A.of_text value)
      else err (invalid_decimal value)

  unfoldable pub round_to_scale : A.Decimal → ℕ → RoundingMode → A.Decimal
  round_to_scale x scale mode = A.to_decimal_places x scale mode

  module _ (P : Printing A) where
    abbrev pub whole : ℕ → A.Decimal
    whole n = P.of_int (pos n)

    unfoldable pub to_cents : A.Decimal → RoundingMode → ℤ
    to_cents euros mode = P.to_int (A.to_decimal_places (A.times euros (whole 100)) 0 mode)

    unfoldable pub cents_to_euros : ℤ → A.Decimal
    cents_to_euros cents = A.div (P.of_int cents) (whole 100)

    unfoldable pub format_cents : ℤ → Text
    unfolding cents_to_euros
    format_cents cents = P.to_fixed (cents_to_euros cents) 2

    -- `fmt` of price-at.ts
    unfoldable pub fmt : A.Decimal → ℕ → Text
    fmt x scale =
        P.to_fixed x (if ltb scale (P.decimal_places x) then P.decimal_places x else scale)
