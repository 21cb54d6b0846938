-- ===== src/Pricing/Tiers.antt =====
-- packages/pricing/src/tiers.ts: prices by tiers. decimal.js is the parameter `Decimals`; a decimal
-- stands for the text that the program prints of it.
pub mod Bands
pub mod Shares
use contrats.Base.{Bool, true, false, not, Option, none, some, List, [], ◌∷◌, if◌then◌else◌}
use contrats.Base.Text.{Text}
use contrats.Base.Result.{Result, ok, err, refuse, ◌>>=◌, ◌>>◌}
use contrats.Pricing.Dates.{PricingError, invalid_decimal, invalid_line, is_decimal}
use contrats.Formula.Evaluator.{Decimals}

pub data TierMode : Type 0 where
  graduated volume : TierMode

pub record Tier : Type 0 where
  pub up_to : Option Text
  pub unit_price : Text

pub record TierTable : Type 0 where
  pub mode : TierMode
  pub tiers : List Tier

module _ (A : Decimals) where
  pub record ParsedTier : Type 0 where
    pub up_to : Option A.Decimal
    pub unit_price : A.Decimal

  pub record TierBand : Type 0 where
    pub low : A.Decimal
    pub high : Option A.Decimal
    pub quantity : A.Decimal
    pub unit_price : A.Decimal
    pub amount : A.Decimal

  pub record TierComputation : Type 0 where
    pub mode : TierMode
    pub exact : A.Decimal
    pub bands : List TierBand

  unfoldable pub tier_decimal : Text → Result PricingError A.Decimal
  tier_decimal value =
      if is_decimal value then ok (A.of_text value) else err (invalid_decimal value)

  abbrev pub parsed_tier : Option A.Decimal → A.Decimal → ParsedTier
  parsed_tier up price = record { up_to = up; unit_price = price }

  -- A tier without a bound is the last.
  abbrev pub unlimited : Text → A.Decimal → List Tier → Result PricingError (List ParsedTier)
  unlimited field price [] = ok (parsed_tier none price ∷ [])
  unlimited field price (t ∷ tiers) = err (invalid_line field)

  -- The loop over the tiers, past the bound `prev`.
  unfoldable pub parse_tiers : Text → A.Decimal → List Tier → Result PricingError (List ParsedTier)
  unfolding tier_decimal
  parse_tiers field prev [] = ok []
  parse_tiers field prev (t ∷ tiers) = tier_decimal t.unit_price >>= λ price. elim (t.up_to) [
    | none ↦ unlimited field price tiers
    | some bound ↦ tier_decimal bound >>= λ up.
        refuse (not (A.gt up prev)) (invalid_line field)
        >> (parse_tiers field up tiers >>= λ rest. ok (parsed_tier (some up) price ∷ rest))
  ]

  unfoldable pub parse_tier_table : TierTable → Text → Result PricingError (List ParsedTier)
  unfolding parse_tiers
  parse_tier_table table field = elim (table.tiers) [
    | [] ↦ err (invalid_line field)
    | t ∷ tiers ↦ parse_tiers field A.zero (t ∷ tiers)
  ]

  -- `last.upTo !== null && quantity.gt(last.upTo)`
  abbrev pub is_beyond : A.Decimal → List ParsedTier → Bool
  is_beyond quantity [] = false
  is_beyond quantity (t ∷ []) = elim (t.up_to) [ none ↦ false | some up ↦ A.gt quantity up ]
  is_beyond quantity (t ∷ u ∷ tiers) = is_beyond quantity (u ∷ tiers)

  abbrev pub band : A.Decimal → Option A.Decimal → A.Decimal → A.Decimal → TierBand
  band low high quantity price = record {
    low = low;
    high = high;
    quantity = quantity;
    unit_price = price;
    amount = A.times quantity price;
  }

  abbrev pub min_of : A.Decimal → A.Decimal → A.Decimal
  min_of a b = if A.lt a b then a else b

  -- The loop of GRADUATED.
  unfoldable pub graduated_bands : A.Decimal → A.Decimal → List ParsedTier → List TierBand
  graduated_bands quantity low [] = []
  graduated_bands quantity low (t ∷ tiers) =
      let share : List TierBand = elim (t.up_to) [
        | none ↦ band low none (A.minus quantity low) t.unit_price ∷ []
        | some up ↦
            band low (some up) (A.minus (min_of quantity up) low) t.unit_price
            ∷ graduated_bands quantity up tiers
      ] in
      if not (A.gt quantity low) then [] else share

  -- `total`, the sum of the amounts of the bands.
  unfoldable pub sum_amounts : A.Decimal → List TierBand → A.Decimal
  sum_amounts total [] = total
  sum_amounts total (b ∷ bands) = sum_amounts (A.plus total b.amount) bands

  unfoldable pub compute_graduated : A.Decimal → List ParsedTier → TierComputation
  unfolding graduated_bands sum_amounts
  compute_graduated quantity tiers = record {
    mode = graduated;
    exact = sum_amounts A.zero (graduated_bands quantity A.zero tiers);
    bands = graduated_bands quantity A.zero tiers;
  }

  abbrev pub volume_computation :
      A.Decimal → Option A.Decimal → A.Decimal → A.Decimal → TierComputation
  volume_computation low high quantity price = record {
    mode = volume;
    exact = A.times quantity price;
    bands = band low high quantity price ∷ [];
  }

  -- The loop of VOLUME, of which the end is never reached past the test of the last tier.
  unfoldable pub find_volume : A.Decimal → A.Decimal → List ParsedTier → Option TierComputation
  find_volume quantity low [] = none
  find_volume quantity low (t ∷ tiers) = elim (t.up_to) [
    | none ↦ some (volume_computation low none quantity t.unit_price)
    | some up ↦
        let later = find_volume quantity up tiers in
        if A.lte quantity up
        then some (volume_computation low (some up) quantity t.unit_price)
        else later
  ]

  abbrev pub volume_or_graduated :
      A.Decimal → List ParsedTier → Option TierComputation → TierComputation
  volume_or_graduated quantity tiers none = compute_graduated quantity tiers
  volume_or_graduated quantity tiers (some c) = c

  abbrev pub compute_by : TierMode → A.Decimal → List ParsedTier → TierComputation
  compute_by graduated quantity tiers = compute_graduated quantity tiers
  compute_by volume quantity tiers =
      volume_or_graduated quantity tiers (find_volume quantity A.zero tiers)

  unfoldable pub compute_tiered : TierTable → A.Decimal → Text → Result PricingError TierComputation
  unfolding parse_tier_table compute_graduated find_volume
  compute_tiered table quantity field = parse_tier_table table field >>= λ tiers.
      refuse (is_beyond quantity tiers) (invalid_line field)
      >> ok (compute_by table.mode quantity tiers)
