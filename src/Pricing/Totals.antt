-- ===== src/Pricing/Totals.antt =====
-- packages/pricing/src/price-at.ts: computeTotals.
pub mod Conserved
use contrats.Base.{ℕ, Bool, Option, none, some, List, [], ◌∷◌, map, if◌then◌else◌}
use contrats.Base.Int.{ℤ, pos, ◌+ℤ◌, scale}
use contrats.Base.Text.{Text}
use contrats.Base.Order.{text_eqb}
use contrats.Formula.Evaluator.{Decimals, RoundingMode}
use contrats.Pricing.Line.Price.{PricedLine}
use contrats.Pricing.Money.{Printing, whole, to_cents, cents_to_euros}
use contrats.Pricing.Types.{
  Recurrence, monthly, quarterly, yearly, one_off, PricingSettings, is_recurrence,
}

pub record VatBreakdown : Type 0 where
  pub rate_percent : Text
  pub base_ht_cents : ℤ
  pub vat_cents : ℤ

pub record PricingTotals : Type 0 where
  pub ht_cents : ℤ
  pub vat_cents : ℤ
  pub ttc_cents : ℤ
  pub vat_by_rate : List VatBreakdown
  pub monthly_lines_cents : ℤ
  pub quarterly_lines_cents : ℤ
  pub yearly_lines_cents : ℤ
  pub one_off_cents : ℤ
  pub monthly_recurring_cents : ℤ
  pub annual_recurring_cents : ℤ

-- `vatByRate.reduce((s, v) => s + v.vatCents, 0n)`
unfoldable pub sum_vat : ℤ → List VatBreakdown → ℤ
sum_vat total [] = total
sum_vat total (v ∷ rates) = sum_vat (total +ℤ v.vat_cents) rates

module _ (A : Decimals) (P : Printing A) where
  -- An entry of `byRate`, under the key `rate.toString()`.
  pub record Group : Type 0 where
    pub rate : A.Decimal
    pub base : ℤ

  abbrev pub key_of : Group → Text
  key_of g = P.to_text g.rate

  -- The variables of the loop.
  pub record Sums : Type 0 where
    pub ht : ℤ
    pub monthly_lines : ℤ
    pub quarterly_lines : ℤ
    pub yearly_lines : ℤ
    pub one_off_lines : ℤ
    pub by_rate : List Group

  -- `byRate.set(key, { rate, base: g.base + total })`, which keeps the place of a key that is there.
  unfoldable pub add_to_group : A.Decimal → ℤ → List Group → List Group
  add_to_group rate total [] = record { rate = rate; base = pos 0 +ℤ total } ∷ []
  add_to_group rate total (g ∷ groups) =
      let rest = add_to_group rate total groups in
      if text_eqb (key_of g) (P.to_text rate)
      then record { rate = rate; base = g.base +ℤ total } ∷ groups
      else g ∷ rest

  abbrev pub add_to : Recurrence → ℤ → Sums → Sums
  add_to monthly total s = record s { monthly_lines = s.monthly_lines +ℤ total }
  add_to quarterly total s = record s { quarterly_lines = s.quarterly_lines +ℤ total }
  add_to yearly total s = record s { yearly_lines = s.yearly_lines +ℤ total }
  add_to one_off total s = record s { one_off_lines = s.one_off_lines +ℤ total }

  -- One turn of the loop over the lines.
  unfoldable pub add_line : Sums → PricedLine A → Sums
  unfolding add_to_group
  add_line s l =
      let sums = add_to l.recurrence l.total_ht_cents s in
      record sums {
        ht = s.ht +ℤ l.total_ht_cents;
        by_rate = add_to_group (A.of_text l.vat_rate_percent) l.total_ht_cents s.by_rate;
      }

  unfoldable pub add_lines : Sums → List (PricedLine A) → Sums
  unfolding add_line
  add_lines s [] = s
  add_lines s (l ∷ lines) = add_lines (add_line s l) lines

  abbrev pub no_sums : Sums
  no_sums = record {
    ht = pos 0;
    monthly_lines = pos 0;
    quarterly_lines = pos 0;
    yearly_lines = pos 0;
    one_off_lines = pos 0;
    by_rate = [];
  }

  -- The stable sort by rate.
  unfoldable pub insert_group : Group → List Group → List Group
  insert_group g [] = g ∷ []
  insert_group g (h ∷ groups) =
      if A.lt h.rate g.rate then h ∷ insert_group g groups else g ∷ h ∷ groups

  unfoldable pub sort_groups : List Group → List Group
  unfolding insert_group
  sort_groups [] = []
  sort_groups (g ∷ groups) = insert_group g (sort_groups groups)

  unfoldable pub breakdown : RoundingMode → Group → VatBreakdown
  breakdown mode g = record {
    rate_percent = P.to_text g.rate;
    base_ht_cents = g.base;
    vat_cents =
        to_cents A P (A.div (A.times (cents_to_euros A P g.base) g.rate) (whole A P 100)) mode;
  }

  -- The shares of quarterly and yearly lines in a month, rounded once.
  unfoldable pub monthly_share : ℤ → ℤ → RoundingMode → ℤ
  monthly_share quarterly_cents yearly_cents mode =
      to_cents A P
        (A.plus (A.div (cents_to_euros A P quarterly_cents) (whole A P 3))
          (A.div (cents_to_euros A P yearly_cents) (whole A P 12)))
        mode

  unfoldable pub totals_of : PricingSettings → Sums → List VatBreakdown → PricingTotals
  unfolding sum_vat monthly_share
  totals_of settings s rates = record {
    ht_cents = s.ht;
    vat_cents = sum_vat (pos 0) rates;
    ttc_cents = s.ht +ℤ sum_vat (pos 0) rates;
    vat_by_rate = rates;
    monthly_lines_cents = s.monthly_lines;
    quarterly_lines_cents = s.quarterly_lines;
    yearly_lines_cents = s.yearly_lines;
    one_off_cents = s.one_off_lines;
    monthly_recurring_cents =
        s.monthly_lines +ℤ monthly_share s.quarterly_lines s.yearly_lines settings.rounding;
    annual_recurring_cents =
        scale 12 s.monthly_lines +ℤ scale 4 s.quarterly_lines +ℤ s.yearly_lines;
  }

  unfoldable pub compute_totals : List (PricedLine A) → PricingSettings → PricingTotals
  unfolding add_lines sort_groups breakdown totals_of
  compute_totals lines settings =
      let s = add_lines no_sums lines in
      totals_of settings s (map (breakdown settings.rounding) (sort_groups s.by_rate))
