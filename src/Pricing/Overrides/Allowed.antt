-- ===== src/Pricing/Overrides/Allowed.antt =====
-- The override that is applied meets the conditions of the engine.
use mathlib.Core.Path.{subst}
use contrats.Base.{
  some-injective, Bool, true, false, not, ◌≡◌, refl, ap, ◌∙◌, Option, some, List, [], ◌∷◌, All,
  All-map, arith, inl, inr, if◌then◌else◌, Bool-cases,
}
use contrats.Base.Text.{Text, is_blank}
use contrats.Base.Order.{text_ltb}
use contrats.Base.Result.{Result, ok, err, ◌>>=◌, bind-ok, ok-injective}
use contrats.Pricing.Dates.{PricingError}
use contrats.Pricing.Overrides.{
  Arithmetic, PriceOverride, AppliedOverride, OverrideSelection, Sorted, Verdict, skip, keep,
  in_force, is_unapproved, is_author, exceeds, verdict, add_verdict, override_gap_percent,
  parse_decimal, sort_overrides, latest_of, choose_latest, select_override, IsAllowed,
}

module _ (A : Arithmetic) where
  verdict-keep :
      (o : PriceOverride) (gap : Option A.Decimal) (threshold : A.Decimal)
      → verdict A o gap threshold ≡ keep
      → (is_blank o.reason ≡ false)
        × (exceeds A gap threshold ≡ true
            → (is_unapproved o.approved_by ≡ false) × (is_author o.approved_by o.author_id ≡ false))
  unfolding verdict
  verdict-keep o gap threshold h = (ground (arith, h), λ e. ground (arith, h, e))

  add_verdict-All :
      (P : AppliedOverride A → Type 0) (o : PriceOverride) (price : A.Decimal)
      (gap : Option A.Decimal) (threshold : A.Decimal) (v : Verdict A) (sorted : Sorted A)
      → (v ≡ keep
          → P (record {
            override = o;
            unit_price = price;
            gap_percent = gap;
            requires_approval = exceeds A gap threshold;
          }))
      → All P sorted.eligible
      → All P (add_verdict A o price gap threshold v sorted).eligible
  unfolding add_verdict
  add_verdict-All P o price gap threshold (skip reason) sorted k h = h
  add_verdict-All P o price gap threshold keep sorted k h = (k refl, h)

  later-IsAllowed :
      (date : Text) (computed threshold : A.Decimal) (o : PriceOverride)
      (overrides : List PriceOverride) (a : AppliedOverride A)
      → IsAllowed A date computed threshold overrides a
      → IsAllowed A date computed threshold (o ∷ overrides) a
  later-IsAllowed date computed threshold o overrides a v = record {
    given = inr v.given;
    applicable = v.applicable;
    justified = v.justified;
    gap = v.gap;
    approved = v.approved;
  }

  eligible-IsAllowed :
      (date : Text) (computed threshold : A.Decimal) (overrides : List PriceOverride)
      {sorted : Sorted A}
      → sort_overrides A date computed threshold overrides ≡ ok sorted
      → All (IsAllowed A date computed threshold overrides) sorted.eligible
  unfolding sort_overrides
  eligible-IsAllowed date computed threshold [] h =
      subst (λ s. All (IsAllowed A date computed threshold []) s.eligible) (ok-injective h) tt
  eligible-IsAllowed date computed threshold (o ∷ overrides) {sorted = sorted} h =
      let rest = sort_overrides A date computed threshold overrides in
      let finish : A.Decimal → Sorted A → Result PricingError (Sorted A) = λ price s.
        let gap = override_gap_percent A price computed in
        ok (add_verdict A o price gap threshold (verdict A o gap threshold) s) in
      let run : Result PricingError (Sorted A) =
        parse_decimal A o.unit_price >>= λ price. rest >>= finish price in
      let P = IsAllowed A date computed threshold overrides in
      elim (Bool-cases (in_force date o)) [
        | inr e ↦
            All-map P (IsAllowed A date computed threshold (o ∷ overrides)) sorted.eligible
              (later-IsAllowed date computed threshold o overrides)
              (eligible-IsAllowed date computed threshold overrides
                (subst (λ b. (if not b then rest else run) ≡ ok sorted) e h))
        | inl e ↦
            let (price, parsed, k) =
              bind-ok (parse_decimal A o.unit_price) (λ price. rest >>= finish price)
                (subst (λ b. (if not b then rest else run) ≡ ok sorted) e h) in
            let (before, m, done) = bind-ok rest (finish price) k in
            let gap = override_gap_percent A price computed in
            subst (λ s. All (IsAllowed A date computed threshold (o ∷ overrides)) s.eligible)
              (ok-injective done)
              (add_verdict-All (IsAllowed A date computed threshold (o ∷ overrides)) o price gap
                threshold (verdict A o gap threshold) before
                (λ kept.
                  let (justified, approved) = verdict-keep o gap threshold kept in
                  record {
                    given = inl refl;
                    applicable = e;
                    justified = justified;
                    gap = refl;
                    approved = approved;
                  })
                (All-map P (IsAllowed A date computed threshold (o ∷ overrides)) before.eligible
                  (later-IsAllowed date computed threshold o overrides)
                  (eligible-IsAllowed date computed threshold overrides m)))
      ]

  latest_of-All :
      (P : AppliedOverride A → Type 0) (a : AppliedOverride A) (eligible : List (AppliedOverride A))
      → P a
      → All P eligible
      → P (latest_of A a eligible)
  unfolding latest_of
  latest_of-All P a [] h k = h
  latest_of-All P a (b ∷ eligible) h k =
      elim (Bool-cases (text_ltb a.override.valid_from b.override.valid_from)) [
        | inl e ↦ rw e (latest_of-All P b eligible k.0 k.1)
        | inr e ↦ rw e (latest_of-All P a eligible h k.1)
      ]

  answered :
      (test : Bool) (e : PricingError) (chosen : OverrideSelection A)
      {selection : OverrideSelection A}
      → (if test then err e else ok chosen) ≡ ok selection
      → chosen ≡ selection
  answered true e chosen h = cc
  answered false e chosen h = ok-injective h

  chosen-All :
      (P : AppliedOverride A → Type 0) (sorted : Sorted A) (eligible : List (AppliedOverride A))
      {selection : OverrideSelection A} {a : AppliedOverride A}
      → All P eligible
      → choose_latest A sorted eligible ≡ ok selection
      → selection.applied ≡ some a
      → P a
  unfolding choose_latest
  chosen-All P sorted [] all h e = cc
  chosen-All P sorted (b ∷ eligible) {selection = selection} {a = a} all h e =
      let same = answered _ _ _ h in
      subst P (some-injective (ap (λ (s : OverrideSelection A). s.applied) same ∙ e))
        (latest_of-All P b eligible all.0 all.1)

  -- An override that is applied was given, is in force on the date and has a reason; and when its gap
  -- to the computed price exceeds the threshold, or is infinite, someone else than its author has
  -- approved it.
  pub select_override-IsAllowed :
      (overrides : List PriceOverride) (date : Text) (computed threshold : A.Decimal)
      {selection : OverrideSelection A} (a : AppliedOverride A)
      → select_override A overrides date computed threshold ≡ ok selection
      → selection.applied ≡ some a
      → IsAllowed A date computed threshold overrides a
  unfolding select_override
  select_override-IsAllowed overrides date computed threshold a h e =
      let (sorted, m, k) =
        bind-ok (sort_overrides A date computed threshold overrides)
          (λ s. choose_latest A s s.eligible) h in
      chosen-All (IsAllowed A date computed threshold overrides) sorted sorted.eligible
        (eligible-IsAllowed date computed threshold overrides m) k e
