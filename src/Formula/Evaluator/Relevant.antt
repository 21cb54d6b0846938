-- ===== src/Formula/Evaluator/Relevant.antt =====
-- The variables that packages/pricing/src/formula/evaluator.ts reads.
use contrats.Base.{ℕ, Option-cases, IsIn, ◌≡◌, refl, inl, inr}
use contrats.Base.Text.{Text}
use contrats.Formula.Outcome.{done}
use contrats.Formula.Ast.{
  FormulaNode, Arguments, number, variable, unary, binary, call, no_argument, argument,
}
use contrats.Formula.Names.{ParsedFormula, parse_formula}
use contrats.Formula.Names.Collected.{Uses, UsesAny, parse_formula-NamesOf}
use contrats.Formula.Evaluator.{
  Decimals, RoundingMode, function_named, Variables, lookup, eval_node, eval_if, eval_arguments,
  evaluate_formula,
}

module _ (A : Decimals) (mode : RoundingMode) (vs ws : Variables A) where
  mutual
    unfolding eval_node Uses

    eval_node-agree :
        (n : FormulaNode)
        → ((x : Text) → Uses x n → lookup A x vs ≡ lookup A x ws)
        → eval_node A mode vs n ≡ eval_node A mode ws n
    eval_node-agree (number value pos) h = refl
    eval_node-agree (variable name pos) h = rw (h name refl, eval_node) refl
    eval_node-agree (unary o operand pos) h = rw (eval_node-agree operand h, eval_node) refl
    eval_node-agree (binary o left right pos) h =
        rw
          (
            eval_node-agree left (λ x u. h x (inl u)),
            eval_node-agree right (λ x u. h x (inr u)),
            eval_node,
          )
          refl
    eval_node-agree (call name args pos) h = elim (Option-cases (function_named name)) [
      | inl e ↦ rw (e, eval_node) refl
      | inr (fn, e) ↦
          rw (e, eval_node, eval_if-agree args name pos h, eval_arguments-agree args h) refl
    ]

    eval_if-agree :
        (args : Arguments) (name : Text) (pos : ℕ)
        → ((x : Text) → UsesAny x args → lookup A x vs ≡ lookup A x ws)
        → eval_if A mode vs args name pos ≡ eval_if A mode ws args name pos
    eval_if-agree (argument c (argument a (argument b no_argument))) name pos h =
        rw
          (
            eval_node-agree c (λ x u. h x (inl u)),
            eval_node-agree a (λ x u. h x (inr (inl u))),
            eval_node-agree b (λ x u. h x (inr (inr (inl u)))),
            eval_node,
          )
          refl
    eval_if-agree no_argument name pos h = refl
    eval_if-agree (argument c no_argument) name pos h = refl
    eval_if-agree (argument c (argument a no_argument)) name pos h = refl
    eval_if-agree (argument c (argument a (argument b (argument d more)))) name pos h = refl

    eval_arguments-agree :
        (args : Arguments)
        → ((x : Text) → UsesAny x args → lookup A x vs ≡ lookup A x ws)
        → eval_arguments A mode vs args ≡ eval_arguments A mode ws args
    eval_arguments-agree no_argument h = refl
    eval_arguments-agree (argument a more) h =
        rw
          (
            eval_node-agree a (λ x u. h x (inl u)),
            eval_arguments-agree more (λ x u. h x (inr u)),
            eval_node,
          )
          refl

  -- Two sets of values that agree on the variables which `parseFormula` lists for a formula give the
  -- same result.
  pub evaluate_formula-agree :
      (source : Text) (f : ParsedFormula)
      → parse_formula source ≡ done f
      → ((x : Text) → IsIn x f.variables → lookup A x vs ≡ lookup A x ws)
      → evaluate_formula A mode f vs ≡ evaluate_formula A mode f ws
  unfolding evaluate_formula
  evaluate_formula-agree source f e h =
      let names = parse_formula-NamesOf source f e in
      rw (eval_node-agree f.ast (λ x u. h x ((names.variables_are x).1 u))) refl
