-- ===== src/Pricing/Tiers/Bands.antt =====
-- The bands that packages/pricing/src/tiers.ts cuts a quantity into, for tiers that are read.
use mathlib.Core.Path.{subst}
use contrats.Base.{
  true, false, Option, none, some, List, [], ◌∷◌, ◌≡◌, refl, sym, Bool-cases, ◌⊎◌, inl, inr,
}
use contrats.Base.Text.{Text}
use contrats.Formula.Evaluator.{Decimals}
use contrats.Pricing.Dates.{is_decimal}
use contrats.Pricing.Tiers.{
  Tier, ParsedTier, TierBand, band, parsed_tier, is_beyond, graduated_bands,
}

-- What the theorem relies on of decimal.js at its precision of 40 digits: among the numbers that a
-- text of the program writes, from 0 on, with 20 digits before the point and 6 after it at most,
-- subtraction undoes addition, and the two comparisons order the numbers.
pub record Ordered (A : Decimals) : Type 1 where
  pub IsShort : A.Decimal → Type 0
  pub zero-IsShort : IsShort A.zero
  pub of_text-IsShort : (v : Text) → is_decimal v ≡ true → IsShort (A.of_text v)
  pub plus-minus :
      (a b : A.Decimal) → IsShort a → IsShort b → A.gt b a ≡ true → A.plus a (A.minus b a) ≡ b
  pub gt_of_lt : (a b : A.Decimal) → IsShort a → IsShort b → A.lt a b ≡ true → A.gt a b ≡ false
  pub same : (a b : A.Decimal) → IsShort a → IsShort b → A.lt a b ≡ false → A.gt a b ≡ false → a ≡ b

module _ (A : Decimals) where
  -- A tier of the table, its numbers read.
  abbrev pub bound_of : Option Text → Option A.Decimal
  bound_of none = none
  bound_of (some v) = some (A.of_text v)

  abbrev pub tier_of : Tier → ParsedTier A
  tier_of t = record { up_to = bound_of t.up_to; unit_price = A.of_text t.unit_price }

  abbrev EndsWithin : Option A.Decimal → A.Decimal → Type 0
  EndsWithin none end = Unit
  EndsWithin (some up) end = (end ≡ up) ⊎ (A.lt end up ≡ true)

  -- The band of a tier that begins at a number: it is charged at the price of the tier, and ends at
  -- its bound or below.
  pub record IsBandOf (low : A.Decimal) (t : ParsedTier A) (b : TierBand A) : Type 0 where
    pub begins : b.low ≡ low
    pub bound : b.high ≡ t.up_to
    pub price : b.unit_price ≡ t.unit_price
    pub charged : b.amount ≡ A.times b.quantity t.unit_price
    pub within : EndsWithin t.up_to (A.plus low b.quantity)

  -- Bands of the first tiers, each from where the one before it ends, up to a quantity.
  abbrev pub AreBandsOf : A.Decimal → List (ParsedTier A) → List (TierBand A) → A.Decimal → Type 0
  AreBandsOf low tiers [] quantity = low ≡ quantity
  AreBandsOf low [] (b ∷ bands) quantity = ⊥
  AreBandsOf low (t ∷ tiers) (b ∷ bands) quantity =
      IsBandOf low t b × AreBandsOf (A.plus low b.quantity) tiers bands quantity

  graduated_bands-none :
      (quantity low : A.Decimal) (tiers : List (ParsedTier A))
      → A.gt quantity low ≡ false
      → graduated_bands A quantity low tiers ≡ []
  unfolding graduated_bands
  graduated_bands-none quantity low [] h = refl
  graduated_bands-none quantity low (t ∷ tiers) h = rw h refl

  module _ (laws : Ordered A) where
    abbrev pub AscendsFrom : A.Decimal → List (ParsedTier A) → Type 0
    AscendsFrom low [] = Unit
    AscendsFrom low (t ∷ tiers) = elim (t.up_to) [
      | none ↦ Unit
      | some up ↦ laws.IsShort up × (A.gt up low ≡ true) × AscendsFrom up tiers
    ]

    -- The last band, cut at the quantity.
    cut_band :
        (low quantity price : A.Decimal) (up : Option A.Decimal) (tiers : List (ParsedTier A))
        → A.plus low (A.minus quantity low) ≡ quantity
        → EndsWithin up quantity
        → AreBandsOf low
            (parsed_tier A up price ∷ tiers)
            (band A low up (A.minus quantity low) price ∷ [])
            quantity
    cut_band low quantity price up tiers e within = (
      record {
        begins = refl;
        bound = refl;
        price = refl;
        charged = refl;
        within = subst (EndsWithin up) (sym e) within;
      },
      e,
    )

    -- A band that is full, and those after it.
    full_band :
        (low up quantity price : A.Decimal) (tiers : List (ParsedTier A))
        (bands : List (TierBand A))
        → A.plus low (A.minus up low) ≡ up
        → AreBandsOf up tiers bands quantity
        → AreBandsOf low
            (parsed_tier A (some up) price ∷ tiers)
            (band A low (some up) (A.minus up low) price ∷ bands)
            quantity
    full_band low up quantity price tiers bands e rest = (
      record { begins = refl; bound = refl; price = refl; charged = refl; within = inl e },
      subst (λ end. AreBandsOf end tiers bands quantity) (sym e) rest,
    )

    -- The quantity is all in the bands before.
    no_bands :
        (quantity up : A.Decimal) (tiers : List (ParsedTier A))
        → laws.IsShort quantity
        → laws.IsShort up
        → A.lt quantity up ≡ false
        → A.gt quantity up ≡ false
        → AreBandsOf up tiers (graduated_bands A quantity up tiers) quantity
    no_bands quantity up tiers short bounded s g =
        rw (graduated_bands-none quantity up tiers g)
          (sym (laws.same quantity up short bounded s g))

    -- A tier with a bound, and the bands of those after it.
    bands_with :
        (quantity low price up : A.Decimal) (tiers : List (ParsedTier A))
        → laws.IsShort quantity
        → laws.IsShort low
        → A.gt quantity low ≡ true
        → laws.IsShort up
        → A.gt up low ≡ true
        → (A.lt quantity up ≡ false
            → A.gt quantity up ≡ true
            → AreBandsOf up tiers (graduated_bands A quantity up tiers) quantity)
        → AreBandsOf low
            (parsed_tier A (some up) price ∷ tiers)
            (graduated_bands A quantity low (parsed_tier A (some up) price ∷ tiers))
            quantity
    unfolding graduated_bands
    bands_with quantity low price up tiers short from h bounded above rest =
        elim (Bool-cases (A.lt quantity up)) [
          | inl s ↦
              let none_left =
                graduated_bands-none quantity up tiers
                  (laws.gt_of_lt quantity up short bounded s) in
              rw (h, s, none_left)
                (cut_band low quantity price (some up) tiers
                  (laws.plus-minus low quantity from short h) (inr s))
          | inr s ↦
              let tail : AreBandsOf up tiers (graduated_bands A quantity up tiers) quantity =
                elim (Bool-cases (A.gt quantity up)) [
                  | inl g ↦ rest s g
                  | inr g ↦ no_bands quantity up tiers short bounded s g
                ] in
              rw (h, s)
                (full_band low up quantity price tiers (graduated_bands A quantity up tiers)
                  (laws.plus-minus low up from bounded above) tail)
        ]

    pub bands_of :
        (quantity low price : A.Decimal) (up : Option A.Decimal) (tiers : List (ParsedTier A))
        → laws.IsShort quantity
        → laws.IsShort low
        → A.gt quantity low ≡ true
        → AscendsFrom low (parsed_tier A up price ∷ tiers)
        → is_beyond A quantity (parsed_tier A up price ∷ tiers) ≡ false
        → AreBandsOf low
            (parsed_tier A up price ∷ tiers)
            (graduated_bands A quantity low (parsed_tier A up price ∷ tiers))
            quantity
    unfolding graduated_bands
    bands_of quantity low price none tiers short from h k l =
        rw h (cut_band low quantity price none tiers (laws.plus-minus low quantity from short h) tt)
    bands_of quantity low price (some up) [] short from h (bounded, above, k) l =
        bands_with quantity low price up [] short from h bounded above (λ s g. cc (g, l))
    bands_of quantity low price (some up) (u ∷ tiers) short from h (bounded, above, k) l =
        bands_with quantity low price up (u ∷ tiers) short from h bounded above
          (λ s g. bands_of quantity up u.unit_price u.up_to tiers short bounded g k l)
