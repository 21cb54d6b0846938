-- ===== src/Formula/Names.antt =====
-- packages/pricing/src/formula/parser.ts: the names that a formula refers to, and `parseFormula`.
pub mod Sorted
pub mod Collected
use contrats.Base.{Bool, true, false, List, [], ◌∷◌, any, if◌then◌else◌}
use contrats.Base.Text.{Text}
use contrats.Base.Order.{text_ltb, text_eqb}
use contrats.Formula.Outcome.{FormulaResult, done, bind}
use contrats.Formula.Ast.{
  FormulaNode, Arguments, number, variable, unary, binary, call, no_argument, argument,
}
use contrats.Formula.Parser.{parse_ast}

-- `set.has(x)`
abbrev pub has : Text → List Text → Bool
has x xs = any (text_eqb x) xs

-- `set.add(x)`: the order of a set is not used, since each set is sorted.
abbrev pub add_name : Text → List Text → List Text
add_name x xs = if has x xs then xs else x ∷ xs

pub record Names : Type 0 where
  pub variables : List Text
  pub functions : List Text

unfoldable mutual
  pub collect : FormulaNode → Names → Names
  collect (number value pos) names = names
  collect (variable name pos) names = record names { variables = add_name name names.variables }
  collect (unary o operand pos) names = collect operand names
  collect (binary o left right pos) names = collect right (collect left names)
  collect (call name args pos) names =
      collect_arguments args (record names { functions = add_name name names.functions })

  pub collect_arguments : Arguments → Names → Names
  collect_arguments no_argument names = names
  collect_arguments (argument a more) names = collect_arguments more (collect a names)

-- `[...set].sort(byCodeUnit)`
unfoldable pub insert_name : Text → List Text → List Text
insert_name x [] = x ∷ []
insert_name x (y ∷ ys) =
    let rest = insert_name x ys in if text_ltb y x then y ∷ rest else x ∷ y ∷ ys

unfoldable pub sort_names : List Text → List Text
unfolding insert_name
sort_names [] = []
sort_names (x ∷ xs) = insert_name x (sort_names xs)

pub record ParsedFormula : Type 0 where
  pub source : Text
  pub ast : FormulaNode
  pub variables : List Text
  pub functions : List Text

abbrev pub no_names : Names
no_names = record { variables = []; functions = [] }

unfoldable pub parsed : Text → FormulaNode → ParsedFormula
unfolding collect sort_names
parsed source ast = record {
  source = source;
  ast = ast;
  variables = sort_names (collect ast no_names).variables;
  functions = sort_names (collect ast no_names).functions;
}

unfoldable pub parse_formula : Text → FormulaResult ParsedFormula
unfolding parsed
parse_formula source = bind (parse_ast source) λ ast. done (parsed source ast)
