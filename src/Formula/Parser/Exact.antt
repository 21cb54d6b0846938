-- ===== src/Formula/Parser/Exact.antt =====
-- The analysis of packages/pricing/src/formula/parser.ts beside its grammar.
use contrats.Base.{◌+◌, ◌*◌, ◌≤◌, List, [], ◌∷◌, ◌++◌, length, ◌≡◌, ◌↔◌, ◌∙◌, arith, ltb}
use contrats.Base.Text.{Text}
use contrats.Formula.Outcome.{done, Yields-done, bind-steps, refused-steps}
use contrats.Formula.Tokenizer.{Token, eof, tokenize}
use contrats.Formula.Tokenizer.Faithful.{tokenize-Spells}
use contrats.Formula.Ast.{FormulaNode}
use contrats.Formula.Parser.{formula_max_length, parse_tokens, parse_ast}
use contrats.Formula.Parser.Steps.{IsTerminated}
use contrats.Formula.Parser.Sound.{IsFormula, Spells-IsTerminated, parse_tokens-IsFormula}
use contrats.Formula.Parser.Follows.{eof-EndsComparison, has_kind_refl}
use contrats.Formula.Parser.Runs.{bind-done, if-true, if-false}
use contrats.Formula.Parser.Complete.{parse_comparison-Finds}

parse_tokens-finds : (n : FormulaNode) (ts : List Token) → IsFormula n ts → parse_tokens ts ≡ done n
unfolding parse_tokens
parse_tokens-finds n ts f = rw f.whole (
    bind-done _ (
      parse_comparison-Finds f.last [] f.comparison (eof-EndsComparison f.last f.is_last)
        (8 * length (f.body ++ f.last ∷ []) + 6) (omega arith))
    ∙ if-true _ _ (has_kind_refl f.last eof f.is_last))

-- On tokens of which the last and no other is the mark of the end, the parser answers a tree exactly
-- when the grammar derives that tree from the tokens, with no form begun deeper than the limit.
pub parse_tokens_iff :
    (ts : List Token) (n : FormulaNode)
    → IsTerminated ts
    → (parse_tokens ts ≡ done n) ↔ IsFormula n ts
parse_tokens_iff ts n h =
    (λ e. Yields-done (parse_tokens-IsFormula ts h) e, parse_tokens-finds n ts)

-- `parseFormula` answers a tree exactly for a text of at most 1000 characters whose tokens the grammar
-- derives that tree from, with no form begun deeper than the limit that its rules carry.
pub parse_ast_iff :
    (source : Text) (n : FormulaNode)
    → (parse_ast source ≡ done n) ↔ (
        (length source ≤ formula_max_length)
        × ((ts : List Token) × (tokenize source ≡ done ts) × IsFormula n ts))
unfolding parse_ast
parse_ast_iff source n = (there, back)
  where
    there :
        parse_ast source ≡ done n
        → (length source ≤ formula_max_length)
          × ((ts : List Token) × (tokenize source ≡ done ts) × IsFormula n ts)
    there e =
        let (short, run) = refused-steps (ltb formula_max_length (length source)) _ _ e in
        let (ts, (tokens, parsed)) = bind-steps (tokenize source) parse_tokens run in
        let h = Spells-IsTerminated 0 source ts (Yields-done (tokenize-Spells source) tokens) in
        (ground (arith, short), (ts, tokens, Yields-done (parse_tokens-IsFormula ts h) parsed))

    back :
        (length source ≤ formula_max_length)
          × ((ts : List Token) × (tokenize source ≡ done ts) × IsFormula n ts)
        → parse_ast source ≡ done n
    back (short, (ts, e, f)) =
        if-false {b = ltb formula_max_length (length source)} _ _ (ground (arith, short))
        ∙ bind-done _ e
        ∙ parse_tokens-finds n ts f
