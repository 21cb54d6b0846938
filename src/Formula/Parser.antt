-- ===== src/Formula/Parser.antt =====
-- packages/pricing/src/formula/parser.ts: the recursive descent. The state of the class `Parser` is
-- the list of the tokens from index `i` on, and the depth.
pub mod Grammar
pub mod Steps
pub mod Sound
pub mod Follows
pub mod Runs
pub mod Complete
pub mod Exact
use contrats.Base.{
  ℕ, zero, suc, ◌+◌, ◌-◌, ◌*◌, Bool, true, false, Option, none, some, List, [], ◌∷◌, length, ltb,
  if◌then◌else◌,
}
use contrats.Base.Text.{Text}
use contrats.Base.Order.{text_eqb}
use contrats.Formula.Outcome.{
  formula_syntax, formula_limit, FormulaResult, done, failed, out_of_fuel, bind,
}
use contrats.Formula.Tokenizer.{
  TokenType, Token, number, ident, op, lparen, rparen, comma, eof, token, tokenize,
}
use contrats.Formula.Ast.{
  UnaryOp, BinaryOp, FormulaNode, Arguments, minus, plus, add, subtract, multiply, divide, power,
  less, less_equal, greater, greater_equal, equal, unequal, variable, unary, binary, call,
  no_argument, argument,
}

abbrev pub formula_max_length : ℕ
formula_max_length = 1000

abbrev pub formula_max_depth : ℕ
formula_max_depth = 32

pub record Cursor : Type 0 where
  pub tokens : List Token
  pub depth : ℕ

abbrev pub cursor : List Token → ℕ → Cursor
cursor ts d = record { tokens = ts; depth = d }

-- The list is never empty, since its last token is the mark of the end.
abbrev pub first : List Token → Token
first [] = token eof [] 0
first (t ∷ ts) = t

abbrev pub after_first : List Token → List Token
after_first [] = []
after_first (t ∷ []) = t ∷ []
after_first (t ∷ u ∷ ts) = u ∷ ts

abbrev pub peek : Cursor → Token
peek s = first s.tokens

-- What `next` leaves: it stays on the last token.
abbrev pub advance : Cursor → Cursor
advance s = record s { tokens = after_first s.tokens }

abbrev pub unexpected : {A : Type 0} → Token → FormulaResult A
unexpected t = failed (record { code = formula_syntax; position = some t.pos; name = none })

unfoldable pub enter : ℕ → Cursor → FormulaResult Cursor
enter pos s =
    if ltb formula_max_depth (s.depth + 1)
    then failed (record { code = formula_limit; position = some pos; name = none })
    else done (record s { depth = s.depth + 1 })

abbrev pub leave : Cursor → Cursor
leave s = record s { depth = s.depth - 1 }

-- `t.type === kind`
abbrev pub same_kind : TokenType → TokenType → Bool
same_kind number number = true
same_kind ident ident = true
same_kind op op = true
same_kind lparen lparen = true
same_kind rparen rparen = true
same_kind comma comma = true
same_kind eof eof = true
same_kind _ _ = false

abbrev pub has_kind : TokenType → Token → Bool
has_kind kind t = same_kind t.kind kind

-- The operators of one level, by the text of an `op` token.
abbrev pub op_among : {O : Type 0} → (Text → Option O) → Token → Option O
op_among table t = if has_kind op t then table t.value else none

unfoldable pub comparison_table : Text → Option BinaryOp
comparison_table v =
    if text_eqb v (60 ∷ [])
    then some less
    else if text_eqb v (60 ∷ 61 ∷ [])
    then some less_equal
    else if text_eqb v (62 ∷ [])
    then some greater
    else if text_eqb v (62 ∷ 61 ∷ [])
    then some greater_equal
    else if text_eqb v (61 ∷ 61 ∷ [])
    then some equal
    else if text_eqb v (33 ∷ 61 ∷ [])
    then some unequal
    else none

unfoldable pub additive_table : Text → Option BinaryOp
additive_table v =
    if text_eqb v (43 ∷ []) then some add else if text_eqb v (45 ∷ []) then some subtract else none

unfoldable pub term_table : Text → Option BinaryOp
term_table v =
    if text_eqb v (42 ∷ [])
    then some multiply
    else if text_eqb v (47 ∷ [])
    then some divide
    else none

unfoldable pub unary_table : Text → Option UnaryOp
unary_table v =
    if text_eqb v (45 ∷ []) then some minus else if text_eqb v (43 ∷ []) then some plus else none

unfoldable pub power_table : Text → Option BinaryOp
power_table v = if text_eqb v (94 ∷ []) then some power else none

abbrev pub comparison_op : Token → Option BinaryOp
comparison_op t = op_among comparison_table t

abbrev pub additive_op : Token → Option BinaryOp
additive_op t = op_among additive_table t

abbrev pub term_op : Token → Option BinaryOp
term_op t = op_among term_table t

abbrev pub unary_op : Token → Option UnaryOp
unary_op t = op_among unary_table t

abbrev pub power_op : Token → Option BinaryOp
power_op t = op_among power_table t

-- What is left of the input is no structural part of it: each call and each turn of a loop costs a
-- unit of fuel.
unfoldable mutual
  pub parse_comparison : ℕ → Cursor → FormulaResult (FormulaNode × Cursor)
  parse_comparison zero s = out_of_fuel
  parse_comparison (suc f) s = bind (enter (peek s).pos s) λ s1.
      bind (parse_additive f s1) λ (left, s2). elim (comparison_op (peek s2)) [
        | none ↦ done (left, leave s2)
        | some o ↦
            bind (parse_additive f (advance s2))
              λ (right, s3). done (binary o left right (peek s2).pos, leave s3)
      ]

  pub parse_additive : ℕ → Cursor → FormulaResult (FormulaNode × Cursor)
  parse_additive zero s = out_of_fuel
  parse_additive (suc f) s = bind (parse_term f s) λ (node, s1). additive_loop f node s1

  pub additive_loop : ℕ → FormulaNode → Cursor → FormulaResult (FormulaNode × Cursor)
  additive_loop zero node s = out_of_fuel
  additive_loop (suc f) node s = elim (additive_op (peek s)) [
    | none ↦ done (node, s)
    | some o ↦
        bind (parse_term f (advance s))
          λ (right, s1). additive_loop f (binary o node right (peek s).pos) s1
  ]

  pub parse_term : ℕ → Cursor → FormulaResult (FormulaNode × Cursor)
  parse_term zero s = out_of_fuel
  parse_term (suc f) s = bind (parse_unary f s) λ (node, s1). term_loop f node s1

  pub term_loop : ℕ → FormulaNode → Cursor → FormulaResult (FormulaNode × Cursor)
  term_loop zero node s = out_of_fuel
  term_loop (suc f) node s = elim (term_op (peek s)) [
    | none ↦ done (node, s)
    | some o ↦
        bind (parse_unary f (advance s))
          λ (right, s1). term_loop f (binary o node right (peek s).pos) s1
  ]

  pub parse_unary : ℕ → Cursor → FormulaResult (FormulaNode × Cursor)
  parse_unary zero s = out_of_fuel
  parse_unary (suc f) s = elim (unary_op (peek s)) [
    | none ↦ parse_power f s
    | some o ↦
        bind (enter (peek s).pos (advance s)) λ s1.
          bind (parse_unary f s1) λ (operand, s2). done (unary o operand (peek s).pos, leave s2)
  ]

  pub parse_power : ℕ → Cursor → FormulaResult (FormulaNode × Cursor)
  parse_power zero s = out_of_fuel
  parse_power (suc f) s = bind (parse_primary f s) λ (base, s1). elim (power_op (peek s1)) [
    | none ↦ done (base, s1)
    | some o ↦ bind (enter (peek s1).pos (advance s1)) λ s2.
        bind (parse_unary f s2)
          λ (exponent, s3). done (binary o base exponent (peek s1).pos, leave s3)
  ]

  pub parse_primary : ℕ → Cursor → FormulaResult (FormulaNode × Cursor)
  parse_primary zero s = out_of_fuel
  parse_primary (suc f) s =
      let group = bind (parse_comparison f (advance s)) λ (inner, s1).
        if has_kind rparen (peek s1) then done (inner, advance s1) else unexpected (peek s1) in
      let application =
        bind (parse_arguments f (advance (advance s)))
          λ (args, s1). done (call (peek s).value args (peek s).pos, s1) in
      if has_kind number (peek s)
      then done (FormulaNode.number (peek s).value (peek s).pos, advance s)
      else if has_kind lparen (peek s)
      then group
      else if has_kind ident (peek s)
      then (if has_kind lparen (peek (advance s))
          then application
          else done (variable (peek s).value (peek s).pos, advance s))
      else unexpected (peek s)

  -- From the opening parenthesis of a call on.
  pub parse_arguments : ℕ → Cursor → FormulaResult (Arguments × Cursor)
  parse_arguments zero s = out_of_fuel
  parse_arguments (suc f) s =
      let given = parse_more_arguments f s in
      if has_kind rparen (peek s) then done (no_argument, advance s) else given

  -- The loop over the arguments.
  pub parse_more_arguments : ℕ → Cursor → FormulaResult (Arguments × Cursor)
  parse_more_arguments zero s = out_of_fuel
  parse_more_arguments (suc f) s = bind (parse_comparison f s) λ (a, s1).
      let next_ones =
        bind (parse_more_arguments f (advance s1)) λ (more, s2). done (argument a more, s2) in
      if has_kind rparen (peek s1)
      then done (argument a no_argument, advance s1)
      else if has_kind comma (peek s1)
      then next_ones
      else unexpected (peek s1)

-- The comparison and the mark of the end, on a fresh parser.
unfoldable pub parse_tokens : List Token → FormulaResult FormulaNode
unfolding parse_comparison
parse_tokens ts =
    bind (parse_comparison (8 * length ts + 6) (cursor ts 0))
      λ (node, s). if has_kind eof (peek s) then done node else unexpected (peek s)

-- The syntax tree that `parseFormula` answers, or its error.
unfoldable pub parse_ast : Text → FormulaResult FormulaNode
unfolding parse_tokens
parse_ast source =
    if ltb formula_max_length (length source)
    then failed (record { code = formula_limit; position = some formula_max_length; name = none })
    else bind (tokenize source) parse_tokens
