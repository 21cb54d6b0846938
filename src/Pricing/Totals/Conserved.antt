-- ===== src/Pricing/Totals/Conserved.antt =====
-- packages/pricing/src/price-at.ts, computeTotals: no cent is lost between the lines and the totals.
use contrats.Base.{
  ◌≡◌, refl, ap, ◌∙◌, Bool, true, false, List, [], ◌∷◌, map, filter, if◌then◌else◌, Bool-cases, inl,
  inr,
}
use contrats.Base.Int.{ℤ, pos, ◌+ℤ◌, int_laws}
use contrats.Base.Text.{Text}
use contrats.Base.Order.{text_eqb, text_eqb_sound}
use contrats.Formula.Evaluator.{Decimals, RoundingMode}
use contrats.Pricing.Line.Price.{PricedLine}
use contrats.Pricing.Money.{Printing}
use contrats.Pricing.Totals.{
  VatBreakdown, PricingTotals, Group, key_of, Sums, add_to_group, add_to, add_line, add_lines,
  no_sums, insert_group, sort_groups, breakdown, sum_vat, totals_of, compute_totals,
}
use contrats.Pricing.Types.{
  Recurrence, monthly, quarterly, yearly, one_off, PricingSettings, is_recurrence,
}

-- The sum of a list of amounts.
abbrev pub total_of : List ℤ → ℤ
total_of [] = pos 0
total_of (x ∷ xs) = x +ℤ total_of xs

-- The total of the lines of one recurrence, among the totals.
abbrev pub lines_cents : Recurrence → PricingTotals → ℤ
lines_cents monthly t = t.monthly_lines_cents
lines_cents quarterly t = t.quarterly_lines_cents
lines_cents yearly t = t.yearly_lines_cents
lines_cents one_off t = t.one_off_cents

sum_vat-total_of :
    (c : ℤ) (rates : List VatBreakdown)
    → sum_vat c rates ≡ c +ℤ total_of (map (λ v. v.vat_cents) rates)
unfolding sum_vat
sum_vat-total_of c [] = omega int_laws
sum_vat-total_of c (v ∷ rates) = sum_vat-total_of (c +ℤ v.vat_cents) rates ∙ omega int_laws

module _ (A : Decimals) (P : Printing A) where
  -- The rate of a line, as `byRate` keys it.
  abbrev pub rate_key : PricedLine A → Text
  rate_key l = P.to_text (A.of_text l.vat_rate_percent)

  abbrev pub totals_where : (PricedLine A → Bool) → List (PricedLine A) → ℤ
  totals_where test lines = total_of (map (λ l. l.total_ht_cents) (filter test lines))

  abbrev bases_where : (Text → Bool) → List (Group A P) → ℤ
  bases_where test groups = total_of (map (λ g. g.base) (filter (λ g. test (key_of A P g)) groups))

  abbrev of_recurrence : Recurrence → Sums A P → ℤ
  of_recurrence monthly s = s.monthly_lines
  of_recurrence quarterly s = s.quarterly_lines
  of_recurrence yearly s = s.yearly_lines
  of_recurrence one_off s = s.one_off_lines

  when : Bool → ℤ → ℤ
  when b x = if b then x else pos 0

  totals_where-cons :
      (test : PricedLine A → Bool) (l : PricedLine A) (lines : List (PricedLine A))
      → totals_where test (l ∷ lines) ≡ when (test l) l.total_ht_cents +ℤ totals_where test lines
  unfolding when
  totals_where-cons test l lines = elim (Bool-cases (test l)) [
    | inl e ↦ rw e refl
    | inr e ↦ rw e (omega int_laws)
  ]

  bases_where-cons :
      (test : Text → Bool) (g : Group A P) (groups : List (Group A P))
      → bases_where test (g ∷ groups) ≡ when (test (key_of A P g)) g.base +ℤ bases_where test groups
  unfolding when
  bases_where-cons test g groups = elim (Bool-cases (test (key_of A P g))) [
    | inl e ↦ rw e refl
    | inr e ↦ rw e (omega int_laws)
  ]

  when-add : (b : Bool) (x y : ℤ) → when b (x +ℤ y) ≡ when b x +ℤ when b y
  unfolding when
  when-add true x y = refl
  when-add false x y = omega int_laws

  when-zero : (b : Bool) (x : ℤ) → when b (pos 0) +ℤ x +ℤ pos 0 ≡ pos 0 +ℤ x
  unfolding when
  when-zero true x = omega int_laws
  when-zero false x = omega int_laws

  bases_where-add_to_group :
      (test : Text → Bool) (rate : A.Decimal) (total : ℤ) (groups : List (Group A P))
      → bases_where test (add_to_group A P rate total groups)
        ≡ bases_where test groups +ℤ when (test (P.to_text rate)) total
  unfolding add_to_group when
  bases_where-add_to_group test rate total [] =
      bases_where-cons test (record { rate = rate; base = pos 0 +ℤ total }) []
      ∙ rw (when-add (test (P.to_text rate)) (pos 0) total)
          (when-zero (test (P.to_text rate)) (when (test (P.to_text rate)) total))
  bases_where-add_to_group test rate total (g ∷ groups) =
      elim (Bool-cases (text_eqb (key_of A P g) (P.to_text rate))) [
        | inl e ↦ rw e (
            bases_where-cons test (record { rate = rate; base = g.base +ℤ total }) groups
            ∙ rw
                (
                  when-add (test (P.to_text rate)) g.base total,
                  bases_where-cons test g groups,
                  text_eqb_sound (key_of A P g) (P.to_text rate) e,
                )
                (omega int_laws))
        | inr e ↦ rw e (
            bases_where-cons test g (add_to_group A P rate total groups)
            ∙ rw (bases_where-add_to_group test rate total groups, bases_where-cons test g groups)
                (omega int_laws))
      ]

  -- What the loop keeps: each sum has grown by what the lines so far add to it.
  pub record Grown (lines : List (PricedLine A)) (s t : Sums A P) : Type 0 where
    pub whole : t.ht ≡ s.ht +ℤ totals_where (λ l. true) lines
    pub recurring :
        (r : Recurrence)
        → of_recurrence r t
          ≡ of_recurrence r s +ℤ totals_where (λ l. is_recurrence l.recurrence r) lines
    pub rates :
        (test : Text → Bool)
        → bases_where test t.by_rate
          ≡ bases_where test s.by_rate +ℤ totals_where (λ l. test (rate_key l)) lines

  of_recurrence-add_to :
      (asked r : Recurrence) (total h : ℤ) (groups : List (Group A P)) (s : Sums A P)
      → of_recurrence asked (record (add_to A P r total s) { ht = h; by_rate = groups })
        ≡ of_recurrence asked s +ℤ when (is_recurrence r asked) total
  unfolding when
  of_recurrence-add_to monthly monthly total h groups s = refl
  of_recurrence-add_to quarterly quarterly total h groups s = refl
  of_recurrence-add_to yearly yearly total h groups s = refl
  of_recurrence-add_to one_off one_off total h groups s = refl
  of_recurrence-add_to _ _ total h groups s = omega int_laws

  add_lines-Grown :
      (lines : List (PricedLine A)) (s : Sums A P) → Grown lines s (add_lines A P s lines)
  unfolding add_lines
  add_lines-Grown [] s = record {
    whole = omega int_laws;
    recurring = λ r. omega int_laws;
    rates = λ test. omega int_laws;
  }
  add_lines-Grown (l ∷ lines) s =
      let ih = add_lines-Grown lines (add_line A P s l) in
      record {
        whole = unfold add_line in ih.whole ∙ omega int_laws;
        recurring = λ r.
            unfold add_line in
            ih.recurring r
            ∙ rw
                (
                  of_recurrence-add_to r l.recurrence l.total_ht_cents (s.ht +ℤ l.total_ht_cents)
                      (add_to_group A P (A.of_text l.vat_rate_percent) l.total_ht_cents s.by_rate)
                      s,
                  totals_where-cons (λ x. is_recurrence x.recurrence r) l lines,
                )
                (omega int_laws);
        rates = λ test.
            unfold add_line in
            ih.rates test
            ∙ rw
                (
                  bases_where-add_to_group test (A.of_text l.vat_rate_percent) l.total_ht_cents
                      s.by_rate,
                  totals_where-cons (λ x. test (rate_key x)) l lines,
                )
                (omega int_laws);
      }

  bases_where-insert_group :
      (test : Text → Bool) (g : Group A P) (groups : List (Group A P))
      → bases_where test (insert_group A P g groups) ≡ bases_where test (g ∷ groups)
  unfolding insert_group
  bases_where-insert_group test g [] = refl
  bases_where-insert_group test g (h ∷ groups) = elim (Bool-cases (A.lt h.rate g.rate)) [
    | inl e ↦ rw e (
        bases_where-cons test h (insert_group A P g groups)
        ∙ rw
            (
              bases_where-insert_group test g groups,
              bases_where-cons test g groups,
              bases_where-cons test g (h ∷ groups),
              bases_where-cons test h groups,
            )
            (omega int_laws))
    | inr e ↦ rw e refl
  ]

  bases_where-sort_groups :
      (test : Text → Bool) (groups : List (Group A P))
      → bases_where test (sort_groups A P groups) ≡ bases_where test groups
  unfolding sort_groups
  bases_where-sort_groups test [] = refl
  bases_where-sort_groups test (g ∷ groups) =
      bases_where-insert_group test g (sort_groups A P groups)
      ∙ rw
          (
            bases_where-cons test g (sort_groups A P groups),
            bases_where-sort_groups test groups,
            bases_where-cons test g groups,
          )
          refl

  split :
      (r : Recurrence) (x m q y o : ℤ)
      → x +ℤ (m +ℤ q +ℤ y +ℤ o)
        ≡ (when (is_recurrence r monthly) x +ℤ m)
          +ℤ (when (is_recurrence r quarterly) x +ℤ q)
          +ℤ (when (is_recurrence r yearly) x +ℤ y)
          +ℤ (when (is_recurrence r one_off) x +ℤ o)
  unfolding when
  split monthly x m q y o = omega int_laws
  split _ x m q y o = omega int_laws

  totals_where-Recurrence :
      (lines : List (PricedLine A))
      → totals_where (λ l. true) lines
        ≡ totals_where (λ l. is_recurrence l.recurrence monthly) lines
          +ℤ totals_where (λ l. is_recurrence l.recurrence quarterly) lines
          +ℤ totals_where (λ l. is_recurrence l.recurrence yearly) lines
          +ℤ totals_where (λ l. is_recurrence l.recurrence one_off) lines
  totals_where-Recurrence [] = omega int_laws
  totals_where-Recurrence (l ∷ lines) =
      rw
        (
          totals_where-Recurrence lines,
          totals_where-cons (λ x. is_recurrence x.recurrence monthly) l lines,
          totals_where-cons (λ x. is_recurrence x.recurrence quarterly) l lines,
          totals_where-cons (λ x. is_recurrence x.recurrence yearly) l lines,
          totals_where-cons (λ x. is_recurrence x.recurrence one_off) l lines,
        )
        (split l.recurrence l.total_ht_cents
          (totals_where (λ x. is_recurrence x.recurrence monthly) lines)
          (totals_where (λ x. is_recurrence x.recurrence quarterly) lines)
          (totals_where (λ x. is_recurrence x.recurrence yearly) lines)
          (totals_where (λ x. is_recurrence x.recurrence one_off) lines))

  -- The bases of the rates that a test admits, among the totals.
  abbrev pub vat_bases_where : (Text → Bool) → List VatBreakdown → ℤ
  vat_bases_where test rates =
      total_of (map (λ v. v.base_ht_cents) (filter (λ v. test v.rate_percent) rates))

  vat_bases_where-breakdown :
      (test : Text → Bool) (mode : RoundingMode) (groups : List (Group A P))
      → vat_bases_where test (map (breakdown A P mode) groups) ≡ bases_where test groups
  unfolding breakdown
  vat_bases_where-breakdown test mode [] = refl
  vat_bases_where-breakdown test mode (g ∷ groups) = elim (Bool-cases (test (key_of A P g))) [
    | inl e ↦ rw e (ap (λ x. g.base +ℤ x) (vat_bases_where-breakdown test mode groups))
    | inr e ↦ rw e (vat_bases_where-breakdown test mode groups)
  ]

  -- What the totals owe to the lines.
  pub record AreTotals (lines : List (PricedLine A)) (t : PricingTotals) : Type 0 where
    pub ht : t.ht_cents ≡ total_of (map (λ l. l.total_ht_cents) lines)
    pub by_recurrence :
        (r : Recurrence) → lines_cents r t ≡ totals_where (λ l. is_recurrence l.recurrence r) lines
    pub parts :
        t.ht_cents
        ≡ t.monthly_lines_cents +ℤ t.quarterly_lines_cents +ℤ t.yearly_lines_cents
          +ℤ t.one_off_cents
    pub bases :
        (test : Text → Bool)
        → vat_bases_where test t.vat_by_rate ≡ totals_where (λ l. test (rate_key l)) lines
    pub vat : t.vat_cents ≡ total_of (map (λ v. v.vat_cents) t.vat_by_rate)
    pub ttc : t.ttc_cents ≡ t.ht_cents +ℤ t.vat_cents

  filter_all : (lines : List (PricedLine A)) → filter (λ l. true) lines ≡ lines
  filter_all [] = refl
  filter_all (l ∷ lines) = ap (λ x. l ∷ x) (filter_all lines)

  from_zero : (x : ℤ) → pos 0 +ℤ x ≡ x
  from_zero x = omega int_laws

  lines_cents-totals_of :
      (r : Recurrence) (settings : PricingSettings) (s : Sums A P) (rates : List VatBreakdown)
      → lines_cents r (totals_of A P settings s rates) ≡ of_recurrence r s
  unfolding totals_of
  lines_cents-totals_of monthly settings s rates = refl
  lines_cents-totals_of quarterly settings s rates = refl
  lines_cents-totals_of yearly settings s rates = refl
  lines_cents-totals_of one_off settings s rates = refl

  none_yet : (r : Recurrence) → of_recurrence r (no_sums A P) ≡ pos 0
  none_yet monthly = refl
  none_yet quarterly = refl
  none_yet yearly = refl
  none_yet one_off = refl

  -- The totals of any lines lose no cent and count none twice: the amount before tax is the sum of
  -- the totals of the lines, and the sum of its monthly, quarterly, yearly and one-off parts, each
  -- of which is the sum of the lines of that recurrence; for any set of rates, the bases of these
  -- rates add up to the totals of the lines that bear them; the tax is the sum of the taxes of the
  -- rates, and the amount with tax is the amount before tax and the tax.
  pub compute_totals-AreTotals :
      (lines : List (PricedLine A)) (settings : PricingSettings)
      → AreTotals lines (compute_totals A P lines settings)
  unfolding compute_totals totals_of
  compute_totals-AreTotals lines settings =
      let s = add_lines A P (no_sums A P) lines in
      let grown = add_lines-Grown lines (no_sums A P) in
      record {
        ht =
            grown.whole
            ∙ from_zero _
            ∙ ap (λ x. total_of (map (λ l. l.total_ht_cents) x)) (filter_all lines);
        by_recurrence = λ r.
            lines_cents-totals_of r settings s
              (map (breakdown A P settings.rounding) (sort_groups A P s.by_rate))
            ∙ grown.recurring r
            ∙ ap (λ x. x +ℤ totals_where (λ l. is_recurrence l.recurrence r) lines) (none_yet r)
            ∙ from_zero _;
        parts =
            rw
              (
                grown.whole,
                grown.recurring monthly,
                grown.recurring quarterly,
                grown.recurring yearly,
                grown.recurring one_off,
                totals_where-Recurrence lines,
              )
              (omega int_laws);
        bases = λ test.
            vat_bases_where-breakdown test settings.rounding (sort_groups A P s.by_rate)
            ∙ bases_where-sort_groups test s.by_rate
            ∙ grown.rates test
            ∙ from_zero _;
        vat = sum_vat-total_of (pos 0) _ ∙ from_zero _;
        ttc = refl;
      }
