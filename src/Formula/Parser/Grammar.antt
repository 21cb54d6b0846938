-- ===== src/Formula/Parser/Grammar.antt =====
-- The grammar that the comment of packages/pricing/src/formula/parser.ts states, with the depth at
-- which a form begins: « comparaison », the operand of a sign and the exponent lie one deeper.
use contrats.Base.{ℕ, suc, ◌<◌, some, List, [], ◌∷◌, ◌++◌, ◌≡◌}
use contrats.Formula.Tokenizer.{Token, number, ident, lparen, rparen, comma}
use contrats.Formula.Ast.{
  UnaryOp, BinaryOp, FormulaNode, Arguments, variable, unary, binary, call, no_argument, argument,
}
use contrats.Formula.Parser.{
  formula_max_depth, comparison_op, additive_op, term_op, unary_op, power_op,
}

-- `IsTerm d n ts`: the tokens `ts` are a « terme » with the tree `n`, begun at depth `d`.
mutual
  pub data IsComparison : ℕ → FormulaNode → List Token → Type 0 where
    alone :
        {d : ℕ} (n : FormulaNode) (ts : List Token)
        → d < formula_max_depth
        → IsAdditive (suc d) n ts
        → IsComparison d n ts
    compared :
        {d : ℕ} (o : BinaryOp) (l r : FormulaNode) (t : Token) (ts us : List Token)
        → d < formula_max_depth
        → IsAdditive (suc d) l ts
        → comparison_op t ≡ some o
        → IsAdditive (suc d) r us
        → IsComparison d (binary o l r t.pos) (ts ++ t ∷ us)

  pub data IsAdditive : ℕ → FormulaNode → List Token → Type 0 where
    one_term : {d : ℕ} (n : FormulaNode) (ts : List Token) → IsTerm d n ts → IsAdditive d n ts
    added :
        {d : ℕ} (o : BinaryOp) (l r : FormulaNode) (t : Token) (ts us : List Token)
        → IsAdditive d l ts
        → additive_op t ≡ some o
        → IsTerm d r us
        → IsAdditive d (binary o l r t.pos) (ts ++ t ∷ us)

  pub data IsTerm : ℕ → FormulaNode → List Token → Type 0 where
    one_unary : {d : ℕ} (n : FormulaNode) (ts : List Token) → IsUnary d n ts → IsTerm d n ts
    multiplied :
        {d : ℕ} (o : BinaryOp) (l r : FormulaNode) (t : Token) (ts us : List Token)
        → IsTerm d l ts
        → term_op t ≡ some o
        → IsUnary d r us
        → IsTerm d (binary o l r t.pos) (ts ++ t ∷ us)

  pub data IsUnary : ℕ → FormulaNode → List Token → Type 0 where
    unsigned : {d : ℕ} (n : FormulaNode) (ts : List Token) → IsPower d n ts → IsUnary d n ts
    signed :
        {d : ℕ} (o : UnaryOp) (n : FormulaNode) (t : Token) (ts : List Token)
        → unary_op t ≡ some o
        → d < formula_max_depth
        → IsUnary (suc d) n ts
        → IsUnary d (unary o n t.pos) (t ∷ ts)

  pub data IsPower : ℕ → FormulaNode → List Token → Type 0 where
    base : {d : ℕ} (n : FormulaNode) (ts : List Token) → IsPrimary d n ts → IsPower d n ts
    raised :
        {d : ℕ} (o : BinaryOp) (b e : FormulaNode) (t : Token) (ts us : List Token)
        → IsPrimary d b ts
        → power_op t ≡ some o
        → d < formula_max_depth
        → IsUnary (suc d) e us
        → IsPower d (binary o b e t.pos) (ts ++ t ∷ us)

  pub data IsPrimary : ℕ → FormulaNode → List Token → Type 0 where
    literal :
        {d : ℕ} (t : Token)
        → t.kind ≡ number
        → IsPrimary d (FormulaNode.number t.value t.pos) (t ∷ [])
    named : {d : ℕ} (t : Token) → t.kind ≡ ident → IsPrimary d (variable t.value t.pos) (t ∷ [])
    grouped :
        {d : ℕ} (n : FormulaNode) (t u : Token) (ts : List Token)
        → t.kind ≡ lparen
        → IsComparison d n ts
        → u.kind ≡ rparen
        → IsPrimary d n (t ∷ ts ++ u ∷ [])
    called :
        {d : ℕ} (args : Arguments) (t u : Token) (ts : List Token)
        → t.kind ≡ ident
        → u.kind ≡ lparen
        → AreArguments d args ts
        → IsPrimary d (call t.value args t.pos) (t ∷ u ∷ ts)

  -- What stands in a call after the opening parenthesis, the closing one with it.
  pub data AreArguments : ℕ → Arguments → List Token → Type 0 where
    none_given : {d : ℕ} (t : Token) → t.kind ≡ rparen → AreArguments d no_argument (t ∷ [])
    some_given :
        {d : ℕ} (args : Arguments) (ts : List Token)
        → AreMoreArguments d args ts
        → AreArguments d args ts

  pub data AreMoreArguments : ℕ → Arguments → List Token → Type 0 where
    last_one :
        {d : ℕ} (a : FormulaNode) (u : Token) (ts : List Token)
        → IsComparison d a ts
        → u.kind ≡ rparen
        → AreMoreArguments d (argument a no_argument) (ts ++ u ∷ [])
    one_more :
        {d : ℕ} (a : FormulaNode) (more : Arguments) (u : Token) (ts us : List Token)
        → IsComparison d a ts
        → u.kind ≡ comma
        → AreMoreArguments d more us
        → AreMoreArguments d (argument a more) (ts ++ u ∷ us)
