-- ===== src/Pricing/Overrides.antt =====
-- packages/pricing/src/overrides.ts: manual prices, which a second person approves when they are far
-- from the computed price. The arithmetic of decimal.js is a parameter.
pub mod Allowed
use mathlib.Core.Path.{subst}
use contrats.Base.{
  IsIn, Bool, true, false, not, ◌&&◌, ◌||◌, ◌≡◌, refl, sym, ap, ◌∙◌, Option, none, some, List, [],
  ◌∷◌, ◌++◌, All, All-map, length, ltb, map, filter, arith, ◌⊎◌, inl, inr, if◌then◌else◌,
  Bool-cases,
}
use contrats.Base.Text.{Text, is_blank}
use contrats.Base.Order.{text_ltb, text_eqb}
use contrats.Base.Result.{Result, ok, err, ◌>>=◌, bind-ok, ok-injective}
use contrats.Pricing.Dates.{PricingError, invalid_decimal, ambiguous_override, is_decimal}

-- What the engine calls of decimal.js.
pub record Arithmetic : Type 1 where
  pub Decimal : Type 0
  pub of_text : Text → Decimal
  pub zero : Decimal
  pub hundred : Decimal
  pub minus : Decimal → Decimal → Decimal
  pub abs : Decimal → Decimal
  pub div : Decimal → Decimal → Decimal
  pub times : Decimal → Decimal → Decimal
  pub is_zero : Decimal → Bool
  pub gt : Decimal → Decimal → Bool

pub record PriceOverride : Type 0 where
  pub id : Text
  pub line_id : Text
  pub unit_price : Text
  pub valid_from : Text
  pub valid_to : Text
  pub reason : Text
  pub author_id : Text
  pub approved_by : Option Text

pub data OverrideSkipReason : Type 0 where
  empty_reason requires_second_approval self_approval superseded not_applicable : OverrideSkipReason

-- `o.approvedBy == null || o.approvedBy === ''`
abbrev pub is_unapproved : Option Text → Bool
is_unapproved none = true
is_unapproved (some []) = true
is_unapproved (some (c ∷ user)) = false

-- `o.approvedBy === o.authorId`
abbrev pub is_author : Option Text → Text → Bool
is_author none author = false
is_author (some user) author = text_eqb user author

-- `o.validFrom <= date && date <= o.validTo`
abbrev pub in_force : Text → PriceOverride → Bool
in_force date o = not (text_ltb date o.valid_from) && not (text_ltb o.valid_to date)

module _ (A : Arithmetic) where
  pub record AppliedOverride : Type 0 where
    pub override : PriceOverride
    pub unit_price : A.Decimal
    pub gap_percent : Option A.Decimal
    pub requires_approval : Bool

  pub record SkippedOverride : Type 0 where
    pub override_id : Text
    pub reason : OverrideSkipReason
    pub gap_percent : Option A.Decimal

  pub record OverrideSelection : Type 0 where
    pub applied : Option AppliedOverride
    pub skipped : List SkippedOverride

  -- `overrideGapPercent`
  unfoldable pub override_gap_percent : A.Decimal → A.Decimal → Option A.Decimal
  override_gap_percent price computed =
      let diff = A.abs (A.minus price computed) in
      if A.is_zero computed
      then (if A.is_zero diff then some A.zero else none)
      else some (A.times (A.div diff (A.abs computed)) A.hundred)

  -- `gap === null || gap.gt(thresholdPercent)`
  abbrev pub exceeds : Option A.Decimal → A.Decimal → Bool
  exceeds none threshold = true
  exceeds (some gap) threshold = A.gt gap threshold

  -- What the loop does with an override in force.
  pub data Verdict : Type 0 where
    skip : OverrideSkipReason → Verdict
    keep : Verdict

  pub verdict : PriceOverride → Option A.Decimal → A.Decimal → Verdict
  verdict o gap threshold =
      if is_blank o.reason
      then skip empty_reason
      else if exceeds gap threshold && is_unapproved o.approved_by
      then skip requires_second_approval
      else if exceeds gap threshold && is_author o.approved_by o.author_id
      then skip self_approval
      else keep

  parse_decimal : Text → Result PricingError A.Decimal
  parse_decimal value =
      if is_decimal value then ok (A.of_text value) else err (invalid_decimal value)

  -- The overrides that the loop has skipped, and those that are eligible.
  pub record Sorted : Type 0 where
    pub skipped : List SkippedOverride
    pub eligible : List AppliedOverride

  add_verdict : PriceOverride → A.Decimal → Option A.Decimal → A.Decimal → Verdict → Sorted → Sorted
  add_verdict o price gap threshold (skip reason) rest = record rest {
    skipped = record { override_id = o.id; reason = reason; gap_percent = gap } ∷ rest.skipped;
  }
  add_verdict o price gap threshold keep rest = record rest {
    eligible =
        record {
          override = o;
          unit_price = price;
          gap_percent = gap;
          requires_approval = exceeds gap threshold;
        }
        ∷ rest.eligible;
  }

  -- The loop over the overrides of a line.
  sort_overrides : Text → A.Decimal → A.Decimal → List PriceOverride → Result PricingError Sorted
  unfolding verdict add_verdict parse_decimal
  sort_overrides date computed threshold [] = ok (record { skipped = []; eligible = [] })
  sort_overrides date computed threshold (o ∷ overrides) =
      let rest = sort_overrides date computed threshold overrides in
      if not (in_force date o)
      then rest
      else parse_decimal o.unit_price >>= λ price.
          let gap = override_gap_percent price computed in
          rest >>= λ sorted. ok (add_verdict o price gap threshold (verdict o gap threshold) sorted)

  -- `eligible.reduce((a, b) => b.override.validFrom > a.override.validFrom ? b : a)`
  latest_of : AppliedOverride → List AppliedOverride → AppliedOverride
  latest_of a [] = a
  latest_of a (b ∷ eligible) =
      latest_of (if text_ltb a.override.valid_from b.override.valid_from then b else a) eligible

  abbrev starts_with : AppliedOverride → AppliedOverride → Bool
  starts_with latest e = text_eqb e.override.valid_from latest.override.valid_from

  abbrev supersede : AppliedOverride → SkippedOverride
  supersede e = record {
    override_id = e.override.id;
    reason = superseded;
    gap_percent = e.gap_percent;
  }

  -- Without a tie, `e !== latest` holds of the overrides that start on another day.
  choose_latest : Sorted → List AppliedOverride → Result PricingError OverrideSelection
  unfolding latest_of
  choose_latest sorted [] = ok (record { applied = none; skipped = sorted.skipped })
  choose_latest sorted (a ∷ eligible) =
      let latest = latest_of a eligible in
      let ties = filter (starts_with latest) (a ∷ eligible) in
      if ltb 1 (length ties)
      then err (ambiguous_override latest.override.line_id (map (λ t. t.override.id) ties))
      else ok (record {
        applied = some latest;
        skipped =
            sorted.skipped
            ++ map supersede (filter (λ e. not (starts_with latest e)) (a ∷ eligible));
      })

  unfoldable pub select_override :
      List PriceOverride → Text → A.Decimal → A.Decimal → Result PricingError OverrideSelection
  unfolding sort_overrides choose_latest
  select_override overrides date computed threshold = do
    sorted ← sort_overrides date computed threshold overrides
    choose_latest sorted sorted.eligible

  -- The conditions under which an override may replace the computed price.
  pub record IsAllowed (date : Text) (computed threshold : A.Decimal)
      (overrides : List PriceOverride) (a : AppliedOverride) : Type 0 where
    pub given : IsIn a.override overrides
    pub applicable : in_force date a.override ≡ true
    pub justified : is_blank a.override.reason ≡ false
    pub gap : a.gap_percent ≡ override_gap_percent a.unit_price computed
    pub approved :
        exceeds a.gap_percent threshold ≡ true
        → (is_unapproved a.override.approved_by ≡ false)
          × (is_author a.override.approved_by a.override.author_id ≡ false)
