-- ===== src/Formula/Validate.antt =====
-- packages/pricing/src/formula/validate.ts: all the errors of a formula at once, for its editor.
pub mod Safe
use contrats.Base.{
  ℕ, Bool, true, false, not, Option, none, some, List, [], ◌∷◌, ◌++◌, leb, or_else, if◌then◌else◌,
}
use contrats.Base.Text.{Text, is_empty}
use contrats.Formula.Outcome.{
  FormulaErrorCode, FormulaError, formula_unknown_variable, formula_unknown_function, formula_arity,
  FormulaResult, done, failed, out_of_fuel,
}
use contrats.Formula.Ast.{
  FormulaNode, Arguments, number, variable, unary, binary, call, no_argument, argument, count,
}
use contrats.Formula.Names.{has, ParsedFormula, parse_formula}
use contrats.Formula.Evaluator.{function_named, is_bad_arity}

-- An issue has the data of a `FormulaError`.
abbrev pub issue : FormulaErrorCode → ℕ → Text → FormulaError
issue code pos name = record { code = code; position = some pos; name = some name }

-- What the call itself pushes.
unfoldable pub call_issues : Text → ℕ → ℕ → List FormulaError
call_issues name given pos = elim (function_named name) [
  | none ↦ issue formula_unknown_function pos name ∷ []
  | some fn ↦ if is_bad_arity fn given then issue formula_arity pos name ∷ [] else []
]

-- The issues that `walk` pushes, in its order.
unfoldable mutual
  pub walk : List Text → FormulaNode → List FormulaError
  walk allowed (number value pos) = []
  walk allowed (variable name pos) =
      if not (has name allowed) then issue formula_unknown_variable pos name ∷ [] else []
  walk allowed (unary o operand pos) = walk allowed operand
  walk allowed (binary o left right pos) = walk allowed left ++ walk allowed right
  walk allowed (call name args pos) =
      call_issues name (count args) pos ++ walk_arguments allowed args

  pub walk_arguments : List Text → Arguments → List FormulaError
  walk_arguments allowed no_argument = []
  walk_arguments allowed (argument a more) = walk allowed a ++ walk_arguments allowed more

-- `errors.sort((a, b) => (a.position ?? 0) - (b.position ?? 0))`, which is stable.
abbrev position : FormulaError → ℕ
position e = or_else e.position 0

unfoldable pub insert_issue : FormulaError → List FormulaError → List FormulaError
insert_issue e [] = e ∷ []
insert_issue e (f ∷ fs) =
    let rest = insert_issue e fs in if leb (position e) (position f) then e ∷ f ∷ fs else f ∷ rest

unfoldable pub sort_issues : List FormulaError → List FormulaError
unfolding insert_issue
sort_issues [] = []
sort_issues (e ∷ es) = insert_issue e (sort_issues es)

pub record FormulaValidationResult : Type 0 where
  pub valid : Bool
  pub variables : List Text
  pub functions : List Text
  pub errors : List FormulaError

abbrev pub is_nil : List FormulaError → Bool
is_nil [] = true
is_nil (e ∷ es) = false

-- The result for a formula that was analysed, and for one that was refused.
unfoldable pub judge : List Text → FormulaResult ParsedFormula → FormulaValidationResult
unfolding walk sort_issues
judge allowed (done formula) = record {
  valid = is_nil (sort_issues (walk allowed formula.ast));
  variables = formula.variables;
  functions = formula.functions;
  errors = sort_issues (walk allowed formula.ast);
}
judge allowed (failed e) = record { valid = false; variables = []; functions = []; errors = e ∷ [] }
judge allowed out_of_fuel = record { valid = false; variables = []; functions = []; errors = [] }

unfoldable pub validate_formula : Text → List Text → FormulaValidationResult
unfolding judge
validate_formula expr allowed = judge allowed (parse_formula expr)
