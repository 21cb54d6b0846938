-- ===== src/Tests/Formulas.antt =====
-- Formulas of a schedule of prices and prices by tiers, on whole numbers.
use contrats.Base.{
  map, ℕ, ◌+◌, ◌-◌, ◌*◌, ◌/◌, ◌^◌, ◌≤◌, ◌==◌, ltb, leb, length, ◌≡◌, ◌≢◌, ◌↔◌, refl, true, false,
  none, some, List, [], ◌∷◌, IsIn, inl, inr, arith, if◌then◌else◌,
}
use contrats.Base.Text.{Text}
use contrats.Formula.Outcome.{formula_syntax, done, failed, Yields}
use contrats.Formula.Tokenizer.{
  tokenize, scan, next_turn, taken, left, number_turn, op_turn, sign_turn,
}
use contrats.Formula.Ast.{FormulaNode, number, variable, unary, binary, minus, add, divide, power}
use contrats.Formula.Parser.{
  formula_max_length, parse_comparison, parse_tokens, parse_ast, enter, comparison_table,
  additive_table, term_table, unary_table, power_table,
}
use contrats.Formula.Parser.Sound.{IsFormula, IsParsed, parse_ast-IsParsed}
use contrats.Formula.Parser.Exact.{parse_ast_iff}
use contrats.Formula.Names.{
  has, collect, insert_name, sort_names, ParsedFormula, parsed, parse_formula,
}
use contrats.Formula.Names.Collected.{NamesOf, parse_formula-NamesOf}
use contrats.Formula.Evaluator.{
  Decimals, half_away_from_zero, Variables, lookup, apply_binary, eval_node, evaluate_formula,
  evaluate_expression,
}
use contrats.Formula.Evaluator.Relevant.{evaluate_formula-agree}
use contrats.Formula.Validate.{walk, sort_issues, judge, validate_formula}
use contrats.Formula.Validate.Safe.{IsArithmetic, validate_formula-IsSafe}
use contrats.Base.Result.{ok}
use contrats.Pricing.Dates.{is_decimal, is_decimal_within}
use contrats.Pricing.Tiers.{
  Tier, TierComputation, graduated, volume, tier_decimal, parse_tiers, parse_tier_table, band,
  graduated_bands, sum_amounts, compute_graduated, find_volume, compute_tiered,
}
use contrats.Pricing.Tiers.Bands.{Ordered, tier_of, AreBandsOf}
use contrats.Pricing.Tiers.Shares.{compute_tiered-AreBandsOf}

-- « p », « q » and « p/q+12 ».
abbrev p_name : Text
p_name = 112 ∷ []

abbrev q_name : Text
q_name = 113 ∷ []

abbrev ratio : Text
ratio = 112 ∷ 47 ∷ 113 ∷ 43 ∷ 49 ∷ 50 ∷ []

abbrev ratio_ast : FormulaNode
ratio_ast =
    binary add (binary divide (variable p_name 0) (variable q_name 2) 1) (number (49 ∷ 50 ∷ []) 4) 3

abbrev ratio_formula : ParsedFormula
ratio_formula = record {
  source = ratio;
  ast = ratio_ast;
  variables = p_name ∷ q_name ∷ [];
  functions = [];
}

ratio-parsed : parse_formula ratio ≡ done ratio_formula
unfolding parse_formula parsed collect sort_names insert_name parse_ast parse_tokens
    parse_comparison enter comparison_table additive_table term_table unary_table power_table
    tokenize scan next_turn taken left number_turn op_turn sign_turn
ratio-parsed = refl

-- « -2^2 » is the opposite of a square, and « 1<2<3 » is refused.
power_first :
    parse_ast (45 ∷ 50 ∷ 94 ∷ 50 ∷ [])
    ≡ done (unary minus (binary power (number (50 ∷ []) 1) (number (50 ∷ []) 3) 2) 0)
unfolding parse_ast parse_tokens parse_comparison enter comparison_table additive_table term_table
    unary_table power_table tokenize scan next_turn taken left number_turn op_turn sign_turn
power_first = refl

chained_comparison :
    parse_ast (49 ∷ 60 ∷ 50 ∷ 60 ∷ 51 ∷ [])
    ≡ failed (record { code = formula_syntax; position = some 3; name = none })
unfolding parse_ast parse_tokens parse_comparison enter comparison_table additive_table term_table
    unary_table power_table tokenize scan next_turn taken left number_turn op_turn sign_turn
chained_comparison = refl

-- Whole numbers in place of decimals.
abbrev read_digits : ℕ → Text → ℕ
read_digits n [] = n
read_digits n (c ∷ s) = read_digits (10 * n + (c - 48)) s

abbrev maximum_of : List ℕ → ℕ
maximum_of [] = 0
maximum_of (x ∷ xs) = let rest = maximum_of xs in if ltb x rest then rest else x

abbrev minimum_of : List ℕ → ℕ
minimum_of [] = 0
minimum_of (x ∷ []) = x
minimum_of (x ∷ y ∷ xs) = let rest = minimum_of (y ∷ xs) in if ltb x rest then x else rest

abbrev whole_numbers : Decimals
whole_numbers = record {
  Decimal = ℕ;
  of_text = read_digits 0;
  zero = 0;
  one = 1;
  neg = λ x. 0 - x;
  plus = λ x y. x + y;
  minus = λ x y. x - y;
  times = λ x y. x * y;
  div = λ x y. x / y;
  pow = λ x y. x ^ y;
  abs = λ x. x;
  floor = λ x. x;
  ceil = λ x. x;
  min = minimum_of;
  max = maximum_of;
  lt = ltb;
  lte = leb;
  gt = λ x y. ltb y x;
  gte = λ x y. leb y x;
  eq = λ x y. x == y;
  above = λ x n. ltb n x;
  is_zero = λ x. x == 0;
  is_integer = λ x. true;
  is_negative = λ x. false;
  is_finite = λ x. true;
  to_number = λ x. x;
  to_decimal_places = λ x n mode. x;
}

abbrev values : Variables whole_numbers
values = (p_name, 30) ∷ (q_name, 10) ∷ []

abbrev more_values : Variables whole_numbers
more_values = (q_name, 10) ∷ (p_name, 30) ∷ ([], 7) ∷ []

ratio-evaluated : evaluate_expression whole_numbers half_away_from_zero ratio values ≡ done 15
unfolding evaluate_expression evaluate_formula eval_node lookup apply_binary parse_formula parsed
    collect sort_names insert_name parse_ast parse_tokens parse_comparison enter comparison_table
    additive_table term_table unary_table power_table tokenize scan next_turn taken left number_turn
    op_turn sign_turn
ratio-evaluated = refl

parse_ast-IsParsed_example : Yields (IsParsed ratio) (parse_ast ratio)
parse_ast-IsParsed_example = parse_ast-IsParsed ratio

parse_ast_iff_example : (parse_ast ratio ≡ done ratio_ast) ↔ (
    (length ratio ≤ formula_max_length)
    × ((ts : _) × (tokenize ratio ≡ done ts) × IsFormula ratio_ast ts))
parse_ast_iff_example = parse_ast_iff ratio ratio_ast

parse_formula-NamesOf_example : NamesOf ratio_formula
parse_formula-NamesOf_example = parse_formula-NamesOf ratio ratio_formula ratio-parsed

same_values :
    (x : Text)
    → IsIn x ratio_formula.variables
    → lookup whole_numbers x values ≡ lookup whole_numbers x more_values
unfolding lookup
same_values x (inl e) = rw e refl
same_values x (inr (inl e)) = rw e refl
same_values x (inr (inr e)) = elim e [ ]

evaluate_formula-agree_example :
    evaluate_formula whole_numbers half_away_from_zero ratio_formula values
    ≡ evaluate_formula whole_numbers half_away_from_zero ratio_formula more_values
evaluate_formula-agree_example =
    evaluate_formula-agree whole_numbers half_away_from_zero values more_values ratio ratio_formula
      ratio-parsed same_values

all_bound : (x : Text) → has x (p_name ∷ q_name ∷ []) ≡ true → lookup whole_numbers x values ≢ none
unfolding lookup
all_bound x h e = ground (arith, h, e)

ratio-valid : (validate_formula ratio (p_name ∷ q_name ∷ [])).valid ≡ true
unfolding validate_formula judge walk sort_issues parse_formula parsed collect sort_names
    insert_name parse_ast parse_tokens parse_comparison enter comparison_table additive_table
    term_table unary_table power_table tokenize scan next_turn taken left number_turn op_turn
    sign_turn
ratio-valid = refl

validate_formula-IsSafe_example :
    IsArithmetic (evaluate_expression whole_numbers half_away_from_zero ratio values)
validate_formula-IsSafe_example =
    validate_formula-IsSafe whole_numbers half_away_from_zero values (p_name ∷ q_name ∷ [])
      all_bound ratio ratio-valid

-- Ten at 30, and the rest at 25: twelve cost 350 by tranches and 300 at the tier that is reached.
abbrev ten_then_more : List Tier
ten_then_more =
    record { up_to = some (49 ∷ 48 ∷ []); unit_price = 51 ∷ 48 ∷ [] }
    ∷ record { up_to = none; unit_price = 50 ∷ 53 ∷ [] }
    ∷ []

abbrev twelve_by_tranches : TierComputation whole_numbers
twelve_by_tranches = record {
  mode = graduated;
  exact = 350;
  bands = band whole_numbers 0 (some 10) 10 30 ∷ band whole_numbers 10 none 2 25 ∷ [];
}

twelve-graduated :
    compute_tiered whole_numbers (record { mode = graduated; tiers = ten_then_more }) 12 []
    ≡ ok twelve_by_tranches
unfolding compute_tiered parse_tier_table parse_tiers tier_decimal is_decimal is_decimal_within
    compute_graduated graduated_bands sum_amounts
twelve-graduated = refl

twelve-volume :
    compute_tiered whole_numbers (record { mode = volume; tiers = ten_then_more }) 12 []
    ≡ ok (record { mode = volume; exact = 300; bands = band whole_numbers 10 none 12 25 ∷ [] })
unfolding compute_tiered parse_tier_table parse_tiers tier_decimal is_decimal is_decimal_within
    find_volume
twelve-volume = refl

abbrev whole_numbers_laws : Ordered whole_numbers
whole_numbers_laws = record {
  IsShort = λ a. Unit;
  zero-IsShort = tt;
  of_text-IsShort = λ v h. tt;
  plus-minus = λ a b p q h. ground (arith, h);
  gt_of_lt = λ a b p q h. ground (arith, h);
  same = λ a b p q h k. ground (arith, h, k);
}

compute_tiered-AreBandsOf_example :
    AreBandsOf whole_numbers 0
      (map (tier_of whole_numbers) ten_then_more)
      twelve_by_tranches.bands
      12
    × (350 ≡ sum_amounts whole_numbers 0 twelve_by_tranches.bands)
compute_tiered-AreBandsOf_example =
    compute_tiered-AreBandsOf whole_numbers whole_numbers_laws ten_then_more 12 []
      twelve_by_tranches tt refl twelve-graduated
