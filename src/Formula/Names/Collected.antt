-- ===== src/Formula/Names/Collected.antt =====
-- What packages/pricing/src/formula/parser.ts, `collect`, finds in a tree.
use mathlib.Core.Path.{subst}
use contrats.Base.{List, IsIn, ◌≡◌, ◌↔◌, ◌⊎◌, arith}
use contrats.Base.Text.{Text}
use contrats.Formula.Ast.{
  FormulaNode, Arguments, number, variable, unary, binary, call, no_argument, argument,
}
use contrats.Formula.Outcome.{done, bind-steps, done-injective}
use contrats.Formula.Parser.{parse_ast}
use contrats.Formula.Names.{
  Names, collect, collect_arguments, add_name, ParsedFormula, parsed, no_names, parse_formula,
}
use contrats.Formula.Names.Sorted.{
  IsAscending, AreDistinct, add_name_iff, add_name-AreDistinct, sort_names_iff,
  sort_names-IsAscending,
}

-- The name stands in the tree: as a variable, or as a function that is called.
unfoldable mutual
  pub Uses : Text → FormulaNode → Type 0
  Uses x (number value pos) = ⊥
  Uses x (variable name pos) = x ≡ name
  Uses x (unary o operand pos) = Uses x operand
  Uses x (binary o left right pos) = Uses x left ⊎ Uses x right
  Uses x (call name args pos) = UsesAny x args

  pub UsesAny : Text → Arguments → Type 0
  UsesAny x no_argument = ⊥
  UsesAny x (argument a more) = Uses x a ⊎ UsesAny x more

unfoldable mutual
  pub Calls : Text → FormulaNode → Type 0
  Calls x (number value pos) = ⊥
  Calls x (variable name pos) = ⊥
  Calls x (unary o operand pos) = Calls x operand
  Calls x (binary o left right pos) = Calls x left ⊎ Calls x right
  Calls x (call name args pos) = (x ≡ name) ⊎ CallsAny x args

  pub CallsAny : Text → Arguments → Type 0
  CallsAny x no_argument = ⊥
  CallsAny x (argument a more) = Calls x a ⊎ CallsAny x more

-- What a set of names gives beside those that it held before.
abbrev Gains : (Text → Type 0) → List Text → List Text → Type 0
Gains P before after = (x : Text) → IsIn x after ↔ (IsIn x before ⊎ P x)

mutual
  unfolding collect Uses Calls

  collect-Gains :
      (n : FormulaNode) (names : Names)
      → Gains (λ x. Uses x n) names.variables (collect n names).variables
        × Gains (λ x. Calls x n) names.functions (collect n names).functions
  collect-Gains (number value pos) names = (λ x. ground arith, λ x. ground arith)
  collect-Gains (variable name pos) names =
      (λ x. ground (arith, add_name_iff name x names.variables), λ x. ground arith)
  collect-Gains (unary o operand pos) names = collect-Gains operand names
  collect-Gains (binary o left right pos) names =
      let (lv, lf) = collect-Gains left names in
      let (rv, rf) = collect-Gains right (collect left names) in
      (λ x. ground (arith, lv x, rv x), λ x. ground (arith, lf x, rf x))
  collect-Gains (call name args pos) names =
      let (av, af) =
        collect_arguments-Gains args (record names { functions = add_name name names.functions }) in
      (av, λ x. ground (arith, af x, add_name_iff name x names.functions))

  collect_arguments-Gains :
      (args : Arguments) (names : Names)
      → Gains (λ x. UsesAny x args) names.variables (collect_arguments args names).variables
        × Gains (λ x. CallsAny x args) names.functions (collect_arguments args names).functions
  collect_arguments-Gains no_argument names = (λ x. ground arith, λ x. ground arith)
  collect_arguments-Gains (argument a more) names =
      let (lv, lf) = collect-Gains a names in
      let (rv, rf) = collect_arguments-Gains more (collect a names) in
      (λ x. ground (arith, lv x, rv x), λ x. ground (arith, lf x, rf x))

abbrev HasDistinctNames : Names → Type 0
HasDistinctNames names = AreDistinct names.variables × AreDistinct names.functions

mutual
  unfolding collect

  collect-HasDistinctNames :
      (n : FormulaNode) (names : Names)
      → HasDistinctNames names
      → HasDistinctNames (collect n names)
  collect-HasDistinctNames (number value pos) names h = h
  collect-HasDistinctNames (variable name pos) names h =
      (add_name-AreDistinct name names.variables h.0, h.1)
  collect-HasDistinctNames (unary o operand pos) names h = collect-HasDistinctNames operand names h
  collect-HasDistinctNames (binary o left right pos) names h =
      collect-HasDistinctNames right (collect left names) (collect-HasDistinctNames left names h)
  collect-HasDistinctNames (call name args pos) names h =
      collect_arguments-HasDistinctNames args
        (record names { functions = add_name name names.functions })
        (h.0, add_name-AreDistinct name names.functions h.1)

  collect_arguments-HasDistinctNames :
      (args : Arguments) (names : Names)
      → HasDistinctNames names
      → HasDistinctNames (collect_arguments args names)
  collect_arguments-HasDistinctNames no_argument names h = h
  collect_arguments-HasDistinctNames (argument a more) names h =
      collect_arguments-HasDistinctNames more (collect a names) (collect-HasDistinctNames a names h)

-- The names of a formula are those of its tree, each once, in the order of their code units.
pub record NamesOf (f : ParsedFormula) : Type 0 where
  pub variables_are : (x : Text) → IsIn x f.variables ↔ Uses x f.ast
  pub functions_are : (x : Text) → IsIn x f.functions ↔ Calls x f.ast
  pub variables_sorted : IsAscending f.variables
  pub functions_sorted : IsAscending f.functions

pub parsed-NamesOf : (source : Text) (ast : FormulaNode) → NamesOf (parsed source ast)
unfolding parsed
parsed-NamesOf source ast =
    let found = collect ast no_names in
    let (vs, fs) = collect-Gains ast no_names in
    let (dv, df) = collect-HasDistinctNames ast no_names (tt, tt) in
    record {
      variables_are = λ x. ground (arith, sort_names_iff x found.variables, vs x);
      functions_are = λ x. ground (arith, sort_names_iff x found.functions, fs x);
      variables_sorted = sort_names-IsAscending found.variables dv;
      functions_sorted = sort_names-IsAscending found.functions df;
    }

-- The variables and the functions of a formula that `parseFormula` accepts are the names that its tree
-- uses and calls, each named once, in strictly ascending order of their code units.
pub parse_formula-NamesOf :
    (source : Text) (f : ParsedFormula) → parse_formula source ≡ done f → NamesOf f
unfolding parse_formula
parse_formula-NamesOf source f h =
    let (ast, (run, e)) = bind-steps (parse_ast source) (λ ast. done (parsed source ast)) h in
    subst NamesOf (done-injective e) (parsed-NamesOf source ast)
