-- ===== src/Pricing/Tiers/Shares.antt =====
-- The shares of a quantity that packages/pricing/src/tiers.ts charges by tiers.
use mathlib.Core.Path.{subst}
use contrats.Base.{
  Bool, true, false, not, none, some, List, [], ◌∷◌, map, ◌≡◌, refl, sym, ap, ◌∙◌, Bool-cases,
  Option-cases, inl, inr,
}
use contrats.Base.Text.{Text}
use contrats.Base.Result.{ok, bind-ok, refuse-ok, ok-injective}
use contrats.Formula.Evaluator.{Decimals}
use contrats.Pricing.Dates.{is_decimal}
use contrats.Pricing.Tiers.{
  graduated, Tier, ParsedTier, TierComputation, parsed_tier, tier_decimal, unlimited, parse_tiers,
  parse_tier_table, is_beyond, sum_amounts, graduated_bands, compute_graduated, compute_tiered,
}
use contrats.Pricing.Tiers.Bands.{Ordered, bound_of, tier_of, AreBandsOf, AscendsFrom, bands_of}

module _ (A : Decimals) where
  kept_true : (b : Bool) → not b ≡ false → b ≡ true
  kept_true true h = refl
  kept_true false h = cc

  tier_decimal-ok :
      (v : Text) {d : A.Decimal}
      → tier_decimal A v ≡ ok d
      → (is_decimal v ≡ true) × (d ≡ A.of_text v)
  unfolding tier_decimal
  tier_decimal-ok v h = elim (Bool-cases (is_decimal v)) [
    | inl e ↦ (e, sym (ok-injective (rw e at h)))
    | inr e ↦ let k = rw e at h in cc k
  ]

  unlimited-tier :
      (field : Text) (price : A.Decimal) (tiers : List Tier) (parsed : List (ParsedTier A))
      → unlimited A field price tiers ≡ ok parsed
      → (tiers ≡ []) × (parsed ≡ parsed_tier A none price ∷ [])
  unlimited-tier field price [] parsed h = (refl, sym (ok-injective h))
  unlimited-tier field price (t ∷ tiers) parsed h = cc

  module _ (laws : Ordered A) where
    -- The table is read as it is written, and its bounds ascend.
    abbrev IsRead : A.Decimal → List Tier → List (ParsedTier A) → Type 0
    IsRead low tiers parsed = (parsed ≡ map (tier_of A) tiers) × AscendsFrom A laws low parsed

    IsRead-last :
        (low price : A.Decimal) (t : Tier) (tiers : List Tier) (parsed : List (ParsedTier A))
        → t.up_to ≡ none
        → price ≡ A.of_text t.unit_price
        → tiers ≡ []
        → parsed ≡ parsed_tier A none price ∷ []
        → IsRead low (t ∷ tiers) parsed
    IsRead-last low price t tiers parsed e cost last only =
        let unbounded : none ≡ bound_of A t.up_to = rw e refl in
        (
          only
              ∙ ap (λ o. parsed_tier A o price ∷ []) unbounded
              ∙ ap (λ p. parsed_tier A (bound_of A t.up_to) p ∷ []) cost
              ∙ ap (λ ts. tier_of A t ∷ map (tier_of A) ts) (sym last),
          subst (AscendsFrom A laws low) (sym only) tt,
        )

    IsRead-next :
        (low price up : A.Decimal) (bound : Text) (t : Tier) (tiers : List Tier)
        (parsed rest : List (ParsedTier A))
        → t.up_to ≡ some bound
        → price ≡ A.of_text t.unit_price
        → up ≡ A.of_text bound
        → is_decimal bound ≡ true
        → A.gt up low ≡ true
        → IsRead up tiers rest
        → parsed ≡ parsed_tier A (some up) price ∷ rest
        → IsRead low (t ∷ tiers) parsed
    IsRead-next low price up bound t tiers parsed rest e cost is_up short above (read, ascends)
          only =
        let bounded : some up ≡ bound_of A t.up_to = rw e (ap some is_up) in
        (
          only
              ∙ ap (λ o. parsed_tier A o price ∷ rest) bounded
              ∙ ap (λ p. parsed_tier A (bound_of A t.up_to) p ∷ rest) cost
              ∙ ap (λ ts. tier_of A t ∷ ts) read,
          subst (AscendsFrom A laws low) (sym only)
              (subst laws.IsShort (sym is_up) (laws.of_text-IsShort bound short), above, ascends),
        )

    parse_tiers-IsRead :
        (field : Text) (low : A.Decimal) (tiers : List Tier) (parsed : List (ParsedTier A))
        → parse_tiers A field low tiers ≡ ok parsed
        → IsRead low tiers parsed
    unfolding parse_tiers
    parse_tiers-IsRead field low [] parsed h = subst (IsRead low []) (ok-injective h) (refl, tt)
    parse_tiers-IsRead field low (t ∷ tiers) parsed h =
        let (price, priced, run) = bind-ok (tier_decimal A t.unit_price) _ h in
        let (_, cost) = tier_decimal-ok t.unit_price priced in
        elim (Option-cases t.up_to) [
          | inl e ↦
              let (last, only) = unlimited-tier field price tiers parsed (rw e at run) in
              IsRead-last low price t tiers parsed e cost last only
          | inr (bound, e) ↦
              let (up, upper, bounded) = bind-ok (tier_decimal A bound) _ (rw e at run) in
              let (short, is_up) = tier_decimal-ok bound upper in
              let (above, tail) = refuse-ok (not (A.gt up low)) _ _ bounded in
              let (rest, tail_run, same) = bind-ok (parse_tiers A field up tiers) _ tail in
              IsRead-next low price up bound t tiers parsed rest e cost is_up short
                (kept_true (A.gt up low) above) (parse_tiers-IsRead field up tiers rest tail_run)
                (sym (ok-injective same))
        ]

  -- By tranches, a positive quantity is cut into bands that follow one another from zero, without a
  -- gap, up to the whole quantity. They are those of the first tiers of the table, in its order, each
  -- ends at the bound of its tier or below, and is charged at its price; the price is the sum of
  -- their amounts. The quantity and the bounds have 20 digits before the point and 6 after it at most.
  pub compute_tiered-AreBandsOf :
      (laws : Ordered A) (tiers : List Tier) (quantity : A.Decimal) (field : Text)
      (c : TierComputation A)
      → laws.IsShort quantity
      → A.gt quantity A.zero ≡ true
      → compute_tiered A (record { mode = graduated; tiers = tiers }) quantity field ≡ ok c
      → AreBandsOf A A.zero (map (tier_of A) tiers) c.bands quantity
        × (c.exact ≡ sum_amounts A A.zero c.bands)
  unfolding compute_tiered compute_graduated parse_tier_table
  compute_tiered-AreBandsOf laws [] quantity field c short h run = cc
  compute_tiered-AreBandsOf laws (t ∷ tiers) quantity field c short h run =
      let (parsed, read, checked) = bind-ok (parse_tiers A field A.zero (t ∷ tiers)) _ run in
      let (within, same) = refuse-ok (is_beyond A quantity parsed) _ _ checked in
      let (is_read, ascends) = parse_tiers-IsRead laws field A.zero (t ∷ tiers) parsed read in
      let ascending = subst (AscendsFrom A laws A.zero) is_read ascends in
      let bounded = subst (λ ps. is_beyond A quantity ps ≡ false) is_read within in
      let bands =
        bands_of A laws quantity A.zero (A.of_text t.unit_price) (bound_of A t.up_to)
          (map (tier_of A) tiers) short laws.zero-IsShort h ascending bounded in
      let table = map (tier_of A) (t ∷ tiers) in
      subst
        (λ x. AreBandsOf A A.zero table x.bands quantity × (x.exact ≡ sum_amounts A A.zero x.bands))
        (ok-injective same)
        (
          subst (λ ps. AreBandsOf A A.zero table (graduated_bands A quantity A.zero ps) quantity)
              (sym is_read) bands,
          refl,
        )
