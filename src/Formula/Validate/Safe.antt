-- ===== src/Formula/Validate/Safe.antt =====
-- A formula that packages/pricing/src/formula/validate.ts accepts, evaluated by evaluator.ts.
use contrats.Base.{
  ℕ, Bool, true, false, not, ◌&&◌, ◌||◌, none, some, List, [], ◌∷◌, ◌++◌, ◌≡◌, ◌≢◌, refl, arith,
  Bool-cases, Option-cases, inl, inr, if◌then◌else◌,
}
use contrats.Base.Text.{Text}
use contrats.Formula.Outcome.{
  FormulaErrorCode, FormulaError, formula_evaluation, division_by_zero, FormulaResult, done, failed,
  out_of_fuel, bind,
}
use contrats.Formula.Ast.{
  BinaryOp, FormulaNode, Arguments, number, variable, unary, binary, call, no_argument, argument,
  count, divide, power,
}
use contrats.Formula.Names.{has, ParsedFormula, parse_formula}
use contrats.Formula.Evaluator.{
  Decimals, RoundingMode, formula_max_exponent, Function, min_of, round_of, if_of, is_if,
  function_named, is_bad_arity, Variables, lookup, apply_binary, apply_function, eval_node, eval_if,
  eval_arguments, evaluate_formula, evaluate_expression,
}
use contrats.Formula.Validate.{
  call_issues, walk, walk_arguments, insert_issue, sort_issues, is_nil, judge, validate_formula,
}

-- The errors that the values cause, and no other.
abbrev pub IsArithmeticCode : FormulaErrorCode → Type 0
IsArithmeticCode formula_evaluation = Unit
IsArithmeticCode division_by_zero = Unit
IsArithmeticCode _ = ⊥

-- A value, or an error that the values cause.
pub data IsArithmetic {D : Type 0} : FormulaResult D → Type 0 where
  answers : {x : D} → IsArithmetic (done x)
  is_refused : {e : FormulaError} → IsArithmeticCode e.code → IsArithmetic (failed e)

bind-IsArithmetic :
    {C D : Type 0} {r : FormulaResult C} {f : C → FormulaResult D}
    → IsArithmetic r
    → ((x : C) → IsArithmetic (f x))
    → IsArithmetic (bind r f)
bind-IsArithmetic (answers {x}) k = k x
bind-IsArithmetic (is_refused h) k = is_refused h

if-IsArithmetic :
    {D : Type 0} (b : Bool) {r s : FormulaResult D}
    → IsArithmetic r
    → IsArithmetic s
    → IsArithmetic (if b then r else s)
if-IsArithmetic true h k = h
if-IsArithmetic false h k = k

append-nil_both : {D : Type 0} (xs ys : List D) → xs ++ ys ≡ [] → (xs ≡ []) × (ys ≡ [])
append-nil_both [] ys h = (refl, h)
append-nil_both (x ∷ xs) ys h = cc

-- A call without an issue names a function of the list, with arguments as many as it takes.
call_issues-none :
    (name : Text) (given pos : ℕ)
    → call_issues name given pos ≡ []
    → (fn : Function) × ((function_named name ≡ some fn) × (is_bad_arity fn given ≡ false))
unfolding call_issues
call_issues-none name given pos h = elim (Option-cases (function_named name)) [
  | inl e ↦ absurd (ground (arith, h, e))
  | inr (fn, e) ↦ (fn, (e, ground (arith, h, e)))
]

if_arity : (fn : Function) (n : ℕ) → is_if fn ≡ true → is_bad_arity fn n ≡ false → n ≡ 3
if_arity if_of n h k = ground (arith, k)
if_arity min_of n h k = cc
if_arity _ n h k = cc

module _ (A : Decimals) (mode : RoundingMode) (vars : Variables A) (allowed : List Text)
    (bound : (x : Text) → has x allowed ≡ true → lookup A x vars ≢ none) where
  apply_binary-IsArithmetic :
      (o : BinaryOp) (l r : A.Decimal) (pos : ℕ) → IsArithmetic (apply_binary A o l r pos)
  unfolding apply_binary
  apply_binary-IsArithmetic divide l r pos = if-IsArithmetic (A.is_zero r) (is_refused tt) answers
  apply_binary-IsArithmetic power l r pos =
      if-IsArithmetic (not (A.is_integer r) || A.above (A.abs r) formula_max_exponent)
        (is_refused tt) (if-IsArithmetic (A.is_zero l && A.is_negative r) (is_refused tt) answers)
  apply_binary-IsArithmetic _ l r pos = answers

  apply_function-IsArithmetic :
      (fn : Function) (xs : List A.Decimal) (name : Text) (pos : ℕ)
      → is_if fn ≡ false
      → IsArithmetic (apply_function A mode fn xs name pos)
  unfolding apply_function
  apply_function-IsArithmetic if_of xs name pos h = cc
  apply_function-IsArithmetic round_of xs name pos h = if-IsArithmetic _ (is_refused tt) answers
  apply_function-IsArithmetic _ xs name pos h = answers

  mutual
    unfolding walk eval_node

    eval_node-IsArithmetic :
        (n : FormulaNode) → walk allowed n ≡ [] → IsArithmetic (eval_node A mode vars n)
    eval_node-IsArithmetic (number value pos) h = answers
    eval_node-IsArithmetic (variable name pos) h = elim (Option-cases (lookup A name vars)) [
      | inl e ↦ absurd (bound name (ground (arith, h)) e)
      | inr (v, e) ↦ rw (e, eval_node) answers
    ]
    eval_node-IsArithmetic (unary o operand pos) h =
        bind-IsArithmetic (eval_node-IsArithmetic operand h) λ x. answers
    eval_node-IsArithmetic (binary o left right pos) h =
        let (l, r) = append-nil_both (walk allowed left) (walk allowed right) h in
        bind-IsArithmetic (eval_node-IsArithmetic left l) λ x.
          bind-IsArithmetic (eval_node-IsArithmetic right r)
            λ y. apply_binary-IsArithmetic o x y pos
    eval_node-IsArithmetic (call name args pos) h =
        let (own, inner) =
          append-nil_both (call_issues name (count args) pos) (walk_arguments allowed args) h in
        let (fn, (e, k)) = call_issues-none name (count args) pos own in
        rw (e, k, eval_node)
          (elim (Bool-cases (is_if fn)) [
            | inl i ↦ rw i (eval_if-IsArithmetic args name pos (if_arity fn (count args) i k) inner)
            | inr i ↦ rw i (
                bind-IsArithmetic (eval_arguments-IsArithmetic args inner)
                  λ xs. apply_function-IsArithmetic fn xs name pos i)
          ])

    eval_if-IsArithmetic :
        (args : Arguments) (name : Text) (pos : ℕ)
        → count args ≡ 3
        → walk_arguments allowed args ≡ []
        → IsArithmetic (eval_if A mode vars args name pos)
    eval_if-IsArithmetic (argument c (argument a (argument b no_argument))) name pos k h =
        let (hc, rest) = append-nil_both (walk allowed c) _ h in
        let (ha, last) = append-nil_both (walk allowed a) _ rest in
        let (hb, nothing) = append-nil_both (walk allowed b) [] last in
        bind-IsArithmetic (eval_node-IsArithmetic c hc) λ x.
          if-IsArithmetic (A.is_zero x) (eval_node-IsArithmetic b hb) (eval_node-IsArithmetic a ha)
    eval_if-IsArithmetic no_argument name pos k h = absurd (omega (arith, k))
    eval_if-IsArithmetic (argument c no_argument) name pos k h = absurd (omega (arith, k))
    eval_if-IsArithmetic (argument c (argument a no_argument)) name pos k h =
        absurd (omega (arith, k))
    eval_if-IsArithmetic (argument c (argument a (argument b (argument d more)))) name pos k h =
        absurd (omega (arith, k))

    eval_arguments-IsArithmetic :
        (args : Arguments)
        → walk_arguments allowed args ≡ []
        → IsArithmetic (eval_arguments A mode vars args)
    eval_arguments-IsArithmetic no_argument h = answers
    eval_arguments-IsArithmetic (argument a more) h =
        let (ha, hm) = append-nil_both (walk allowed a) (walk_arguments allowed more) h in
        bind-IsArithmetic (eval_node-IsArithmetic a ha)
          λ x. bind-IsArithmetic (eval_arguments-IsArithmetic more hm) λ xs. answers

insert_issue-ne : (e : FormulaError) (es : List FormulaError) → is_nil (insert_issue e es) ≡ false
unfolding insert_issue
insert_issue-ne e [] = refl
insert_issue-ne e (f ∷ fs) = ground arith

sort_issues-nil : (es : List FormulaError) → is_nil (sort_issues es) ≡ true → es ≡ []
unfolding sort_issues
sort_issues-nil [] h = refl
sort_issues-nil (e ∷ es) h = absurd (ground (arith, h, insert_issue-ne e (sort_issues es)))

module _ (A : Decimals) (mode : RoundingMode) (vars : Variables A) (allowed : List Text)
    (bound : (x : Text) → has x allowed ≡ true → lookup A x vars ≢ none) where
  judged-IsArithmetic :
      (r : FormulaResult ParsedFormula)
      → (judge allowed r).valid ≡ true
      → IsArithmetic (bind r λ formula. evaluate_formula A mode formula vars)
  unfolding judge evaluate_formula
  judged-IsArithmetic (done formula) h =
      bind-IsArithmetic
        (eval_node-IsArithmetic A mode vars allowed bound formula.ast
          (sort_issues-nil (walk allowed formula.ast) h))
        λ x. if-IsArithmetic (not (A.is_finite x)) (is_refused tt) answers
  judged-IsArithmetic (failed e) h = cc
  judged-IsArithmetic out_of_fuel h = cc

  -- A formula that the validation accepts, evaluated where each of the allowed variables has a value,
  -- gives a value or fails by its values only: by a division by zero, or by an exponent, a number of
  -- decimals or a result that is out of bounds.
  pub validate_formula-IsSafe :
      (expr : Text)
      → (validate_formula expr allowed).valid ≡ true
      → IsArithmetic (evaluate_expression A mode expr vars)
  unfolding validate_formula evaluate_expression
  validate_formula-IsSafe expr h = judged-IsArithmetic (parse_formula expr) h
