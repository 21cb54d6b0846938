-- ===== src/GridCode.antt =====
-- packages/domain/src/price-grid/price-grid.ts: the codes of the lines of a price grid; and
-- packages/domain/src/proposal/numbering.ts: the numbers of proposals.
pub mod RoundTrip
use contrats.Base.{
  ℕ, ◌+◌, ◌-◌, ◌*◌, Bool, true, false, not, ◌&&◌, ◌||◌, ◌==◌, ltb, leb, Option, none, some, List,
  [], ◌∷◌, ◌++◌, length, if◌then◌else◌,
}
use contrats.Base.Text.{Text, is_empty}
use contrats.Base.Decimal.{is_decimal_digit, to_text, to_number, pad_start, run_of, after_run}
use contrats.Base.Result.{Result, ok, err, refuse, ◌>>=◌, ◌>>◌}

-- What the functions throw.
pub data CodeError : Type 0 where
  invalid_commitment invalid_prefix invalid_number invalid_year invalid_sequence : CodeError

-- `[A-Z0-9]`
abbrev pub is_prefix_char : ℕ → Bool
is_prefix_char c = (leb 65 c && leb c 90) || (leb 48 c && leb c 57)

-- `^[A-Z0-9]{2,6}$`
unfoldable pub is_valid_prefix : Text → Bool
unfolding run_of after_run
is_valid_prefix prefix =
    leb 2 (length (run_of is_prefix_char prefix))
    && leb (length (run_of is_prefix_char prefix)) 6
    && is_empty (after_run is_prefix_char prefix)

abbrev pub max_commitment_months : ℕ
max_commitment_months = 99

unfoldable pub commitment_suffix : ℕ → Result CodeError Text
commitment_suffix months = do
  refuse (ltb max_commitment_months months) invalid_commitment
  ok (69 ∷ pad_start 2 (to_text months))

unfoldable pub format_grid_item_code : Text → ℕ → Result CodeError Text
unfolding is_valid_prefix
format_grid_item_code prefix n = do
  refuse (not (is_valid_prefix prefix)) invalid_prefix
  refuse (ltb n 1) invalid_number
  ok (prefix ++ 45 ∷ pad_start 4 (to_text n))

unfoldable pub format_grid_variant_code : Text → ℕ → Result CodeError Text
unfolding commitment_suffix
format_grid_variant_code item_code months =
    commitment_suffix months >>= λ suffix. ok (item_code ++ 45 ∷ suffix)

pub record ParsedGridCode : Type 0 where
  pub prefix : Text
  pub number : ℕ
  pub item_code : Text
  pub months : Option ℕ

-- `(?:-E(\d{2}))?$`: no match, no months, or the months.
unfoldable pub match_months : Text → Option (Option ℕ)
match_months [] = some none
match_months (c ∷ e ∷ a ∷ b ∷ []) =
    if c == 45 && e == 69 && is_decimal_digit a && is_decimal_digit b
    then some (some (to_number (a ∷ b ∷ [])))
    else none
match_months _ = none

abbrev pub parsed_code : Text → Text → Option (Option ℕ) → Option ParsedGridCode
parsed_code prefix num none = none
parsed_code prefix num (some months) =
    if ltb (to_number num) 1
    then none
    else some (record {
      prefix = prefix;
      number = to_number num;
      item_code = prefix ++ 45 ∷ num;
      months = months;
    })

-- `-(\d{4,})` and what follows, after the prefix.
unfoldable pub parse_after_prefix : Text → Text → Option ParsedGridCode
unfolding match_months
parse_after_prefix prefix [] = none
parse_after_prefix prefix (c ∷ s) =
    if c == 45 && leb 4 (length (run_of is_decimal_digit s))
    then parsed_code prefix (run_of is_decimal_digit s)
        (match_months (after_run is_decimal_digit s))
    else none

unfoldable pub parse_grid_code : Text → Option ParsedGridCode
unfolding parse_after_prefix
parse_grid_code code =
    if leb 2 (length (run_of is_prefix_char code)) && leb (length (run_of is_prefix_char code)) 6
    then parse_after_prefix (run_of is_prefix_char code) (after_run is_prefix_char code)
    else none

-- A code that is none of a grid gives `null`.
unfoldable pub switch_parsed : Option ParsedGridCode → ℕ → Result CodeError (Option Text)
unfolding format_grid_variant_code
switch_parsed none months = ok none
switch_parsed (some p) months = format_grid_variant_code p.item_code months >>= λ c. ok (some c)

unfoldable pub switch_variant_code : Text → ℕ → Result CodeError (Option Text)
unfolding switch_parsed
switch_variant_code code months = switch_parsed (parse_grid_code code) months

-- « PROP- »
abbrev pub proposal_mark : Text
proposal_mark = 80 ∷ 82 ∷ 79 ∷ 80 ∷ 45 ∷ []

unfoldable pub format_proposal_number : ℕ → ℕ → Result CodeError Text
format_proposal_number year sequence = do
  refuse (ltb year 2000 || ltb 9999 year) invalid_year
  refuse (ltb sequence 1) invalid_sequence
  ok (proposal_mark ++ to_text year ++ 45 ∷ pad_start 4 (to_text sequence))

pub record ProposalNumber : Type 0 where
  pub year : ℕ
  pub sequence : ℕ

-- `(\d{4,})$`
unfoldable pub parse_sequence : ℕ → Text → Option ProposalNumber
parse_sequence year s =
    if leb 4 (length (run_of is_decimal_digit s)) && is_empty (after_run is_decimal_digit s)
    then some (record { year = year; sequence = to_number (run_of is_decimal_digit s) })
    else none

-- `^PROP-(\d{4})-(\d{4,})$`
unfoldable pub parse_proposal_number : Text → Option ProposalNumber
unfolding parse_sequence
parse_proposal_number (p ∷ r ∷ o ∷ q ∷ h ∷ y1 ∷ y2 ∷ y3 ∷ y4 ∷ k ∷ s) =
    if p == 80
      && r == 82
      && o == 79
      && q == 80
      && h == 45
      && is_decimal_digit y1
      && is_decimal_digit y2
      && is_decimal_digit y3
      && is_decimal_digit y4
      && k == 45
    then parse_sequence (to_number (y1 ∷ y2 ∷ y3 ∷ y4 ∷ [])) s
    else none
parse_proposal_number _ = none
