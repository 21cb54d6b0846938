-- ===== src/Formula/Evaluator.antt =====
-- packages/pricing/src/formula/evaluator.ts. decimal.js, which computes, is a parameter.
pub mod Relevant
use contrats.Base.{
  ℕ, Bool, true, false, not, ◌&&◌, ◌||◌, Option, none, some, List, [], ◌∷◌, ltb, if◌then◌else◌,
}
use contrats.Base.Text.{Text}
use contrats.Base.Order.{text_eqb}
use contrats.Formula.Outcome.{
  FormulaErrorCode, formula_unknown_variable, formula_unknown_function, formula_arity,
  formula_evaluation, division_by_zero, FormulaResult, done, failed, bind,
}
use contrats.Formula.Ast.{
  UnaryOp, BinaryOp, FormulaNode, Arguments, minus, plus, add, subtract, multiply, divide, power,
  less, less_equal, greater, greater_equal, equal, unequal, number, variable, unary, binary, call,
  no_argument, argument, count,
}
use contrats.Formula.Names.{ParsedFormula, parse_formula}

pub data RoundingMode : Type 0 where
  half_away_from_zero half_even : RoundingMode

-- What the evaluator calls of decimal.js.
pub record Decimals : Type 1 where
  pub Decimal : Type 0
  pub of_text : Text → Decimal
  pub zero : Decimal
  pub one : Decimal
  pub neg : Decimal → Decimal
  pub plus : Decimal → Decimal → Decimal
  pub minus : Decimal → Decimal → Decimal
  pub times : Decimal → Decimal → Decimal
  pub div : Decimal → Decimal → Decimal
  pub pow : Decimal → Decimal → Decimal
  pub abs : Decimal → Decimal
  pub floor : Decimal → Decimal
  pub ceil : Decimal → Decimal
  pub min : List Decimal → Decimal
  pub max : List Decimal → Decimal
  pub lt : Decimal → Decimal → Bool
  pub lte : Decimal → Decimal → Bool
  pub gt : Decimal → Decimal → Bool
  pub gte : Decimal → Decimal → Bool
  pub eq : Decimal → Decimal → Bool
  pub above : Decimal → ℕ → Bool
  pub is_zero : Decimal → Bool
  pub is_integer : Decimal → Bool
  pub is_negative : Decimal → Bool
  pub is_finite : Decimal → Bool
  pub to_number : Decimal → ℕ
  pub to_decimal_places : Decimal → ℕ → RoundingMode → Decimal

-- The functions of `FORMULA_FUNCTIONS`.
pub data Function : Type 0 where
  min_of max_of round_of floor_of ceil_of abs_of if_of : Function

-- `FORMULA_FUNCTIONS.get(name)`: the names are « min », « max », « round », « floor », « ceil »,
-- « abs » and « if ».
unfoldable pub function_named : Text → Option Function
function_named name =
    if text_eqb name (109 ∷ 105 ∷ 110 ∷ [])
    then some min_of
    else if text_eqb name (109 ∷ 97 ∷ 120 ∷ [])
    then some max_of
    else if text_eqb name (114 ∷ 111 ∷ 117 ∷ 110 ∷ 100 ∷ [])
    then some round_of
    else if text_eqb name (102 ∷ 108 ∷ 111 ∷ 111 ∷ 114 ∷ [])
    then some floor_of
    else if text_eqb name (99 ∷ 101 ∷ 105 ∷ 108 ∷ [])
    then some ceil_of
    else if text_eqb name (97 ∷ 98 ∷ 115 ∷ [])
    then some abs_of
    else if text_eqb name (105 ∷ 102 ∷ [])
    then some if_of
    else none

abbrev pub min_args : Function → ℕ
min_args if_of = 3
min_args _ = 1

-- No bound is `Number.POSITIVE_INFINITY`.
abbrev pub max_args : Function → Option ℕ
max_args min_of = none
max_args max_of = none
max_args round_of = some 2
max_args if_of = some 3
max_args _ = some 1

abbrev exceeds_max : ℕ → Option ℕ → Bool
exceeds_max n none = false
exceeds_max n (some m) = ltb m n

-- `n < spec.minArgs || n > spec.maxArgs`
abbrev pub is_bad_arity : Function → ℕ → Bool
is_bad_arity fn n = ltb n (min_args fn) || exceeds_max n (max_args fn)

-- `node.name === 'if'`
abbrev pub is_if : Function → Bool
is_if if_of = true
is_if _ = false

abbrev pub formula_max_exponent : ℕ
formula_max_exponent = 100

abbrev pub formula_max_round_decimals : ℕ
formula_max_round_decimals = 10

abbrev pub fail_at : {A : Type 0} → FormulaErrorCode → ℕ → Option Text → FormulaResult A
fail_at code pos name = failed (record { code = code; position = some pos; name = name })

module _ (A : Decimals) where
  -- `new Map`, filled from an object, and its `get`.
  abbrev pub Variables : Type 0
  Variables = List (Text × A.Decimal)

  unfoldable pub lookup : Text → Variables → Option A.Decimal
  lookup name [] = none
  lookup name ((key, value) ∷ vars) =
      let rest = lookup name vars in if text_eqb name key then some value else rest

  abbrev truth : Bool → A.Decimal
  truth b = if b then A.one else A.zero

  unfoldable pub apply_unary : UnaryOp → A.Decimal → A.Decimal
  apply_unary minus x = A.neg x
  apply_unary plus x = x

  unfoldable pub apply_binary : BinaryOp → A.Decimal → A.Decimal → ℕ → FormulaResult A.Decimal
  apply_binary add l r pos = done (A.plus l r)
  apply_binary subtract l r pos = done (A.minus l r)
  apply_binary multiply l r pos = done (A.times l r)
  apply_binary divide l r pos =
      if A.is_zero r then fail_at division_by_zero pos none else done (A.div l r)
  apply_binary power l r pos =
      if not (A.is_integer r) || A.above (A.abs r) formula_max_exponent
      then fail_at formula_evaluation pos none
      else if A.is_zero l && A.is_negative r
      then fail_at division_by_zero pos none
      else done (A.pow l r)
  apply_binary less l r pos = done (truth (A.lt l r))
  apply_binary less_equal l r pos = done (truth (A.lte l r))
  apply_binary greater l r pos = done (truth (A.gt l r))
  apply_binary greater_equal l r pos = done (truth (A.gte l r))
  apply_binary equal l r pos = done (truth (A.eq l r))
  apply_binary unequal l r pos = done (truth (not (A.eq l r)))

  -- `args[0]`; a call has one argument at least.
  abbrev first_value : List A.Decimal → A.Decimal
  first_value [] = A.zero
  first_value (x ∷ xs) = x

  -- `args[1] ?? ZERO`
  abbrev places : List A.Decimal → A.Decimal
  places (x ∷ n ∷ xs) = n
  places _ = A.zero

  -- The switch on the name, the arguments evaluated. `if` is evaluated before it.
  unfoldable pub apply_function :
      RoundingMode → Function → List A.Decimal → Text → ℕ → FormulaResult A.Decimal
  apply_function mode min_of xs name pos = done (A.min xs)
  apply_function mode max_of xs name pos = done (A.max xs)
  apply_function mode floor_of xs name pos = done (A.floor (first_value xs))
  apply_function mode ceil_of xs name pos = done (A.ceil (first_value xs))
  apply_function mode abs_of xs name pos = done (A.abs (first_value xs))
  apply_function mode round_of xs name pos =
      if not (A.is_integer (places xs))
        || A.is_negative (places xs)
        || A.above (places xs) formula_max_round_decimals
      then fail_at formula_evaluation pos none
      else done (A.to_decimal_places (first_value xs) (A.to_number (places xs)) mode)
  apply_function mode if_of xs name pos = fail_at formula_unknown_function pos (some name)

  unfoldable mutual
    pub eval_node : RoundingMode → Variables → FormulaNode → FormulaResult A.Decimal
    eval_node mode vars (number value pos) = done (A.of_text value)
    eval_node mode vars (variable name pos) = elim (lookup name vars) [
      | none ↦ fail_at formula_unknown_variable pos (some name)
      | some v ↦ done v
    ]
    eval_node mode vars (unary o operand pos) =
        bind (eval_node mode vars operand) λ x. done (apply_unary o x)
    eval_node mode vars (binary o left right pos) =
        bind (eval_node mode vars left)
          λ l. bind (eval_node mode vars right) λ r. apply_binary o l r pos
    eval_node mode vars (call name args pos) =
        let chosen = eval_if mode vars args name pos in
        let values = eval_arguments mode vars args in
        elim (function_named name) [
          | none ↦ fail_at formula_unknown_function pos (some name)
          | some fn ↦
              if is_bad_arity fn (count args)
              then fail_at formula_arity pos (some name)
              else if is_if fn
              then chosen
              else bind values λ xs. apply_function mode fn xs name pos
        ]

    -- `if(c, a, b)`, of which one branch is evaluated: on three arguments, by the test of the arity.
    pub eval_if : RoundingMode → Variables → Arguments → Text → ℕ → FormulaResult A.Decimal
    eval_if mode vars (argument c (argument a (argument b no_argument))) name pos =
        let on_true = eval_node mode vars a in
        let on_false = eval_node mode vars b in
        bind (eval_node mode vars c) λ x. if A.is_zero x then on_false else on_true
    eval_if mode vars _ name pos = fail_at formula_arity pos (some name)

    pub eval_arguments : RoundingMode → Variables → Arguments → FormulaResult (List A.Decimal)
    eval_arguments mode vars no_argument = done []
    eval_arguments mode vars (argument a more) =
        bind (eval_node mode vars a) λ x. bind (eval_arguments mode vars more) λ xs. done (x ∷ xs)

  unfoldable pub evaluate_formula :
      RoundingMode → ParsedFormula → Variables → FormulaResult A.Decimal
  unfolding eval_node
  evaluate_formula mode formula vars = bind (eval_node mode vars formula.ast) λ x.
      if not (A.is_finite x)
      then failed (record { code = formula_evaluation; position = none; name = none })
      else done x

  unfoldable pub evaluate_expression : RoundingMode → Text → Variables → FormulaResult A.Decimal
  unfolding evaluate_formula
  evaluate_expression mode source vars =
      bind (parse_formula source) λ formula. evaluate_formula mode formula vars
