-- ===== src/Tests/Codes.antt =====
-- Codes of a price grid, numbers of proposals, and an index of prices.
use contrats.Base.{◌≡◌, refl, true, none, some, [], ◌∷◌, ◌++◌, arith}
use contrats.Base.Text.{Text}
use contrats.Base.Decimal.{to_text, digits_from, run_of, after_run}
use contrats.Base.Result.{ok}
use contrats.GridCode.{
  is_valid_prefix, format_grid_item_code, format_grid_variant_code, commitment_suffix,
  parse_grid_code, parse_after_prefix, match_months, switch_variant_code, ParsedGridCode,
}
use contrats.GridCode.RoundTrip.{
  parse_grid_code-format_grid_variant_code, switch_variant_code-IsVariant,
}
use contrats.Pricing.Dates.{parse_iso_date, is_decimal_within, is_period}
use contrats.Pricing.Indexes.{
  PriceIndexValue, PriceIndex, IndexObservation, latest_published, find_index, check_value,
  check_values, latest_from, find_value, observation, lookup_in, lookup_index_value,
}
use contrats.Pricing.Indexes.Replay.{lookup_index_value-replay}

-- « INF », « INF-0007-E24 »
abbrev prefix : Text
prefix = 73 ∷ 78 ∷ 70 ∷ []

abbrev item_code : Text
item_code = 73 ∷ 78 ∷ 70 ∷ 45 ∷ 48 ∷ 48 ∷ 48 ∷ 55 ∷ []

abbrev code : Text
code = item_code ++ 45 ∷ 69 ∷ 50 ∷ 52 ∷ []

abbrev read_code : ParsedGridCode
read_code = record { prefix = prefix; number = 7; item_code = item_code; months = some 24 }

code-read : parse_grid_code code ≡ some read_code
unfolding parse_grid_code parse_after_prefix match_months run_of after_run
code-read = refl

code-written : format_grid_variant_code item_code 24 ≡ ok code
unfolding format_grid_variant_code commitment_suffix to_text digits_from
code-written = refl

prefix-valid : is_valid_prefix prefix ≡ true
unfolding is_valid_prefix run_of after_run
prefix-valid = refl

parse_grid_code-format_grid_variant_code_example :
    (item full : Text) × (format_grid_item_code prefix 7 ≡ ok item)
    × (parse_grid_code item
        ≡ some (record { prefix = prefix; number = 7; item_code = item; months = none }))
    × (format_grid_variant_code item 24 ≡ ok full)
    × (parse_grid_code full
        ≡ some (record { prefix = prefix; number = 7; item_code = item; months = some 24 }))
parse_grid_code-format_grid_variant_code_example =
    parse_grid_code-format_grid_variant_code prefix 7 24 prefix-valid (omega arith) (omega arith)

switch_variant_code-IsVariant_example :
    (switched : Text) × (switch_variant_code code 36 ≡ ok (some switched))
    × (parse_grid_code switched ≡ some (record read_code { months = some 36 }))
switch_variant_code-IsVariant_example =
    switch_variant_code-IsVariant code 36 read_code code-read (omega arith)

-- « 2026-01 » and « 2026-02 », published on the 15th of the month after, and « 2026-03-01 ».
abbrev january : PriceIndexValue
january = record {
  period = 50 ∷ 48 ∷ 50 ∷ 54 ∷ 45 ∷ 48 ∷ 49 ∷ [];
  value = 51 ∷ 49 ∷ 48 ∷ 46 ∷ 53 ∷ [];
  published_at = 50 ∷ 48 ∷ 50 ∷ 54 ∷ 45 ∷ 48 ∷ 50 ∷ 45 ∷ 49 ∷ 53 ∷ [];
}

abbrev february : PriceIndexValue
february = record {
  period = 50 ∷ 48 ∷ 50 ∷ 54 ∷ 45 ∷ 48 ∷ 50 ∷ [];
  value = 51 ∷ 49 ∷ 49 ∷ [];
  published_at = 50 ∷ 48 ∷ 50 ∷ 54 ∷ 45 ∷ 48 ∷ 51 ∷ 45 ∷ 49 ∷ 53 ∷ [];
}

abbrev march_first : Text
march_first = 50 ∷ 48 ∷ 50 ∷ 54 ∷ 45 ∷ 48 ∷ 51 ∷ 45 ∷ 48 ∷ 49 ∷ []

abbrev syntec : PriceIndex
syntec = record { code = 83 ∷ []; name = 83 ∷ []; values = january ∷ [] }

abbrev observed : IndexObservation
observed = record {
  index_code = 83 ∷ [];
  index_name = 83 ∷ [];
  requested_date = march_first;
  rule = latest_published;
  period = january.period;
  value = january.value;
  published_at = january.published_at;
}

january-observed :
    lookup_index_value (syntec ∷ []) (83 ∷ []) march_first latest_published ≡ ok observed
unfolding lookup_index_value lookup_in find_index check_values check_value find_value latest_from
    observation parse_iso_date is_decimal_within is_period
january-observed = refl

syntec-found : find_index (83 ∷ []) (syntec ∷ []) ≡ some syntec
unfolding find_index
syntec-found = refl

longer-checked : check_values (83 ∷ []) [] (january ∷ february ∷ []) ≡ ok tt
unfolding check_values check_value parse_iso_date is_decimal_within is_period
longer-checked = refl

lookup_index_value-replay_example :
    lookup_index_value
      (record syntec { values = january ∷ february ∷ [] } ∷ [])
      (83 ∷ [])
      march_first
      latest_published
    ≡ ok observed
lookup_index_value-replay_example =
    lookup_index_value-replay syntec [] (february ∷ []) march_first observed (refl, tt)
      longer-checked january-observed
