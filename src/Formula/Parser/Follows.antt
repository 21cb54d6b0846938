-- ===== src/Formula/Parser/Follows.antt =====
-- What may follow a form of the grammar, and how a form begins: the tests by which the recursive
-- descent of packages/pricing/src/formula/parser.ts goes on or stops.
use mathlib.Core.List.{append_assoc}
use contrats.Base.{
  ℕ, true, false, Option, none, some, List, [], ◌∷◌, ◌++◌, ◌≡◌, ◌≢◌, refl, ap, arith,
}
use contrats.Base.Text.{Text}
use contrats.Formula.Tokenizer.{TokenType, Token, number, ident, lparen, rparen, comma, eof}
use contrats.Formula.Ast.{BinaryOp, FormulaNode}
use contrats.Formula.Parser.{
  first, has_kind, op_among, comparison_table, additive_table, term_table, unary_table, power_table,
  comparison_op, additive_op, term_op, unary_op, power_op,
}
use contrats.Formula.Parser.Grammar.{
  IsComparison, IsAdditive, IsTerm, IsUnary, IsPower, IsPrimary, alone, compared, one_term, added,
  one_unary, multiplied, unsigned, signed, base, raised, literal, named, grouped, called,
}

-- The tokens that end a form of each level.
abbrev pub EndsPrimary : Token → Type 0
EndsPrimary t = has_kind lparen t ≡ false

abbrev pub EndsPower : Token → Type 0
EndsPower t = EndsPrimary t × (power_op t ≡ none)

abbrev pub EndsTerm : Token → Type 0
EndsTerm t = EndsPower t × (term_op t ≡ none)

abbrev pub EndsAdditive : Token → Type 0
EndsAdditive t = EndsTerm t × (additive_op t ≡ none)

abbrev pub EndsComparison : Token → Type 0
EndsComparison t = EndsAdditive t × (comparison_op t ≡ none)

-- No operator stands at two levels.
term_table-power_table : (v : Text) (o : BinaryOp) → term_table v ≡ some o → power_table v ≡ none
unfolding term_table power_table
term_table-power_table [] o h = ground (arith, h)
term_table-power_table (c ∷ []) o h = ground (arith, h)
term_table-power_table (c ∷ d ∷ []) o h = ground (arith, h)
term_table-power_table (c ∷ d ∷ e ∷ v) o h = ground (arith, h)

additive_table-term_table :
    (v : Text) (o : BinaryOp)
    → additive_table v ≡ some o
    → (term_table v ≡ none) × (power_table v ≡ none)
unfolding additive_table term_table power_table
additive_table-term_table [] o h = ground (arith, h)
additive_table-term_table (c ∷ []) o h = ground (arith, h)
additive_table-term_table (c ∷ d ∷ []) o h = ground (arith, h)
additive_table-term_table (c ∷ d ∷ e ∷ v) o h = ground (arith, h)

comparison_table-additive_table :
    (v : Text) (o : BinaryOp)
    → comparison_table v ≡ some o
    → (additive_table v ≡ none) × (term_table v ≡ none) × (power_table v ≡ none)
unfolding comparison_table additive_table term_table power_table
comparison_table-additive_table [] o h = ground (arith, h)
comparison_table-additive_table (c ∷ []) o h = ground (arith, h)
comparison_table-additive_table (c ∷ d ∷ []) o h = ground (arith, h)
comparison_table-additive_table (c ∷ d ∷ e ∷ v) o h = ground (arith, h)

pub power_op-EndsPrimary : (t : Token) (o : BinaryOp) → power_op t ≡ some o → EndsPrimary t
power_op-EndsPrimary t o h = ground (arith, h)

pub term_op-EndsPower : (t : Token) (o : BinaryOp) → term_op t ≡ some o → EndsPower t
term_op-EndsPower t o h = ground (arith, h, term_table-power_table t.value o)

pub additive_op-EndsTerm : (t : Token) (o : BinaryOp) → additive_op t ≡ some o → EndsTerm t
additive_op-EndsTerm t o h = ground (arith, h, additive_table-term_table t.value o)

pub comparison_op-EndsAdditive :
    (t : Token) (o : BinaryOp) → comparison_op t ≡ some o → EndsAdditive t
comparison_op-EndsAdditive t o h = ground (arith, h, comparison_table-additive_table t.value o)

pub has_kind_refl : (t : Token) (kind : TokenType) → t.kind ≡ kind → has_kind kind t ≡ true
has_kind_refl t kind h = ground (arith, h)

pub rparen-EndsComparison : (t : Token) → t.kind ≡ rparen → EndsComparison t
rparen-EndsComparison t h = ground (arith, h)

pub comma-EndsComparison : (t : Token) → t.kind ≡ comma → EndsComparison t
comma-EndsComparison t h = ground (arith, h)

pub eof-EndsComparison : (t : Token) → t.kind ≡ eof → EndsComparison t
eof-EndsComparison t h = ground (arith, h)

-- The first token of a form.
pub record Starts (ts : List Token) : Type 0 where
  pub head : Token
  pub rest : List Token
  pub whole : ts ≡ head ∷ rest
  pub opens : has_kind rparen head ≡ false

pub Starts-append : {ts : List Token} (us : List Token) → Starts ts → Starts (ts ++ us)
Starts-append us s = record {
  head = s.head;
  rest = s.rest ++ us;
  whole = ap (λ x. x ++ us) s.whole;
  opens = s.opens;
}

op-opens :
    {O : Type 0} (table : Text → Option O) (t : Token) (o : O)
    → op_among table t ≡ some o
    → has_kind rparen t ≡ false
op-opens table t o h = ground (arith, h)

kind-opens :
    (t : Token) (kind : TokenType) → kind ≢ rparen → t.kind ≡ kind → has_kind rparen t ≡ false
kind-opens t kind n h = ground (arith, h, n)

IsPrimary-Starts : {d : ℕ} {n : FormulaNode} {ts : List Token} → IsPrimary d n ts → Starts ts
IsPrimary-Starts (literal t k) = record {
  head = t;
  rest = [];
  whole = refl;
  opens = kind-opens t number (λ e. cc) k;
}
IsPrimary-Starts (named t k) = record {
  head = t;
  rest = [];
  whole = refl;
  opens = kind-opens t ident (λ e. cc) k;
}
IsPrimary-Starts (grouped n t u ts k f j) = record {
  head = t;
  rest = ts ++ u ∷ [];
  whole = refl;
  opens = kind-opens t lparen (λ e. cc) k;
}
IsPrimary-Starts (called args t u ts k j f) = record {
  head = t;
  rest = u ∷ ts;
  whole = refl;
  opens = kind-opens t ident (λ e. cc) k;
}

IsPower-Starts : {d : ℕ} {n : FormulaNode} {ts : List Token} → IsPower d n ts → Starts ts
IsPower-Starts (base n ts p) = IsPrimary-Starts p
IsPower-Starts (raised o b e t ts us p h lt u) = Starts-append (t ∷ us) (IsPrimary-Starts p)

IsUnary-Starts : {d : ℕ} {n : FormulaNode} {ts : List Token} → IsUnary d n ts → Starts ts
IsUnary-Starts (unsigned n ts p) = IsPower-Starts p
IsUnary-Starts (signed o n t ts h lt u) = record {
  head = t;
  rest = ts;
  whole = refl;
  opens = op-opens unary_table t o h;
}

IsTerm-Starts : {d : ℕ} {n : FormulaNode} {ts : List Token} → IsTerm d n ts → Starts ts
IsTerm-Starts (one_unary n ts u) = IsUnary-Starts u
IsTerm-Starts (multiplied o l r t ts us p h q) = Starts-append (t ∷ us) (IsTerm-Starts p)

IsAdditive-Starts : {d : ℕ} {n : FormulaNode} {ts : List Token} → IsAdditive d n ts → Starts ts
IsAdditive-Starts (one_term n ts u) = IsTerm-Starts u
IsAdditive-Starts (added o l r t ts us p h q) = Starts-append (t ∷ us) (IsAdditive-Starts p)

pub IsComparison-Starts :
    {d : ℕ} {n : FormulaNode} {ts : List Token} → IsComparison d n ts → Starts ts
IsComparison-Starts (alone n ts lt u) = IsAdditive-Starts u
IsComparison-Starts (compared o l r t ts us lt p h q) = Starts-append (t ∷ us) (IsAdditive-Starts p)

-- A form without a sign does not begin by an operator.
primary-unary_op :
    {d : ℕ} {n : FormulaNode} {ts : List Token} (us : List Token)
    → IsPrimary d n ts
    → unary_op (first (ts ++ us)) ≡ none
primary-unary_op us (literal t k) = ground (arith, k)
primary-unary_op us (named t k) = ground (arith, k)
primary-unary_op us (grouped n t u ts k f j) = ground (arith, k)
primary-unary_op us (called args t u ts k j f) = ground (arith, k)

pub power-unary_op :
    {d : ℕ} {n : FormulaNode} {ts : List Token} (us : List Token)
    → IsPower d n ts
    → unary_op (first (ts ++ us)) ≡ none
power-unary_op us (base n ts p) = primary-unary_op us p
power-unary_op us (raised o b e t ts vs p h lt u) =
    rw (append_assoc ts (t ∷ vs) us) (primary-unary_op (t ∷ vs ++ us) p)
