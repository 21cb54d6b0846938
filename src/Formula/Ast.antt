-- ===== src/Formula/Ast.antt =====
-- packages/pricing/src/formula/parser.ts: the syntax trees.
use contrats.Base.{ℕ, suc}
use contrats.Base.Text.{Text}

pub data UnaryOp : Type 0 where
  minus plus : UnaryOp

pub data BinaryOp : Type 0 where
  add subtract multiply divide power less less_equal greater greater_equal equal unequal : BinaryOp

-- The last field of a node is the position of its token.
mutual
  pub data FormulaNode : Type 0 where
    number : Text → ℕ → FormulaNode
    variable : Text → ℕ → FormulaNode
    unary : UnaryOp → FormulaNode → ℕ → FormulaNode
    binary : BinaryOp → FormulaNode → FormulaNode → ℕ → FormulaNode
    call : Text → Arguments → ℕ → FormulaNode

  pub data Arguments : Type 0 where
    no_argument : Arguments
    argument : FormulaNode → Arguments → Arguments

-- `args.length`
abbrev pub count : Arguments → ℕ
count no_argument = 0
count (argument a more) = suc (count more)
