-- ===== src/Formula/Parser/Sound.antt =====
-- The recursive descent of packages/pricing/src/formula/parser.ts: its end, and its answers beside the
-- grammar.
use mathlib.Core.Path.{subst}
use contrats.Base.{
  ℕ, zero, suc, ◌+◌, ◌*◌, ◌<◌, ◌≤◌, List, [], ◌∷◌, ◌++◌, length, ◌≡◌, ◌≢◌, refl, ap, ◌∙◌, arith,
  ltb,
}
use contrats.Base.Text.{Text}
use contrats.Formula.Outcome.{
  Yields, gives, throws, Yields-if, Yields-option, Yields-bind, Yields-map,
}
use contrats.Formula.Tokenizer.{TokenType, Token, number, ident, lparen, rparen, comma, eof, token}
use contrats.Formula.Tokenizer.Lexemes.{
  Lexeme, integer, decimal, identifier, two_chars, one_char, mark, Spells, ends, skips, reads,
}
use contrats.Formula.Tokenizer.Faithful.{tokenize-Spells}
use contrats.Formula.Ast.{FormulaNode, unary, binary, argument}
use contrats.Formula.Parser.{
  formula_max_depth, formula_max_length, Cursor, cursor, peek, advance, leave, has_kind,
  comparison_table, additive_table, term_table, unary_table, power_table, comparison_op,
  additive_op, term_op, unary_op, power_op, parse_comparison, parse_additive, additive_loop,
  parse_term, term_loop, parse_unary, parse_power, parse_primary, parse_arguments,
  parse_more_arguments, parse_tokens, parse_ast,
}
use contrats.Formula.Parser.Grammar.{
  IsComparison, IsAdditive, IsTerm, IsUnary, IsPower, IsPrimary, AreArguments, AreMoreArguments,
  alone, compared, one_term, added, one_unary, multiplied, unsigned, signed, base, raised, literal,
  named, grouped, called, none_given, some_given, last_one, one_more,
}
use contrats.Formula.Parser.Steps.{
  IsTerminated, IsTerminated-last, IsTerminated-cons, Reads, Takes-op, Takes-kind, Yields-enter,
  at_depth, deeper, one_deeper, left_depth, left_last, left_inner, joined, prefixed, closed, around,
  prefixed_twice, single, as_form, same_kind_sound,
}

mutual
  unfolding parse_comparison

  parse_comparison-Reads :
      (f : ℕ) (s : Cursor)
      → IsTerminated s.tokens
      → 8 * length s.tokens + 6 ≤ f
      → Yields (Reads IsComparison s) (parse_comparison f s)
  parse_comparison-Reads zero s h k = absurd (omega arith)
  parse_comparison-Reads (suc f) s h k = Yields-enter (peek s).pos s _ λ lt.
      Yields-bind (parse_additive-Reads f (cursor s.tokens (s.depth + 1)) h (omega arith))
        λ (l, s2) r.
          Yields-option (comparison_op (peek s2))
            (λ e. gives (
              as_form l (leave s2) r refl refl (left_depth r.same_depth)
                (alone l r.consumed lt (at_depth IsAdditive (deeper refl) r.form))))
            λ o e.
              let t = Takes-op comparison_table s2 o r.terminated e in
              Yields-bind
                (parse_additive-Reads f (advance s2) t.terminated
                  (omega (arith, t.shorter, r.shorter)))
                λ (n, s3) q. gives (
                  joined (binary o l n (peek s2).pos) (leave s3) r refl t refl q refl
                    (left_last q.same_depth r.same_depth)
                    (compared o l n (peek s2) r.consumed q.consumed lt
                      (at_depth IsAdditive (deeper refl) r.form) e
                      (at_depth IsAdditive (one_deeper r.same_depth) q.form)))

  parse_additive-Reads :
      (f : ℕ) (s : Cursor)
      → IsTerminated s.tokens
      → 8 * length s.tokens + 5 ≤ f
      → Yields (Reads IsAdditive s) (parse_additive f s)
  parse_additive-Reads zero s h k = absurd (omega arith)
  parse_additive-Reads (suc f) s h k =
      Yields-bind (parse_term-Reads f s h (omega arith)) λ (n, s1) r.
        additive_loop-Reads f n s s1
          (as_form n s1 r refl refl r.same_depth (one_term n r.consumed r.form))
          (omega (arith, r.shorter))

  additive_loop-Reads :
      (f : ℕ) (l : FormulaNode) (s s1 : Cursor)
      → Reads IsAdditive s (l, s1)
      → 8 * length s1.tokens + 1 ≤ f
      → Yields (Reads IsAdditive s) (additive_loop f l s1)
  additive_loop-Reads zero l s s1 r k = absurd (omega arith)
  additive_loop-Reads (suc f) l s s1 r k =
      Yields-option (additive_op (peek s1)) (λ e. gives r)
        λ o e.
          let t = Takes-op additive_table s1 o r.terminated e in
          Yields-bind (parse_term-Reads f (advance s1) t.terminated (omega (arith, t.shorter)))
            λ (n, s2) q.
              additive_loop-Reads f (binary o l n (peek s1).pos) s s2
                (joined (binary o l n (peek s1).pos) s2 r refl t refl q refl
                  (q.same_depth ∙ r.same_depth)
                  (added o l n (peek s1) r.consumed q.consumed r.form e
                    (at_depth IsTerm r.same_depth q.form)))
                (omega (arith, q.shorter, t.shorter))

  parse_term-Reads :
      (f : ℕ) (s : Cursor)
      → IsTerminated s.tokens
      → 8 * length s.tokens + 4 ≤ f
      → Yields (Reads IsTerm s) (parse_term f s)
  parse_term-Reads zero s h k = absurd (omega arith)
  parse_term-Reads (suc f) s h k = Yields-bind (parse_unary-Reads f s h (omega arith)) λ (n, s1) r.
      term_loop-Reads f n s s1
        (as_form n s1 r refl refl r.same_depth (one_unary n r.consumed r.form))
        (omega (arith, r.shorter))

  term_loop-Reads :
      (f : ℕ) (l : FormulaNode) (s s1 : Cursor)
      → Reads IsTerm s (l, s1)
      → 8 * length s1.tokens + 1 ≤ f
      → Yields (Reads IsTerm s) (term_loop f l s1)
  term_loop-Reads zero l s s1 r k = absurd (omega arith)
  term_loop-Reads (suc f) l s s1 r k =
      Yields-option (term_op (peek s1)) (λ e. gives r)
        λ o e.
          let t = Takes-op term_table s1 o r.terminated e in
          Yields-bind (parse_unary-Reads f (advance s1) t.terminated (omega (arith, t.shorter)))
            λ (n, s2) q.
              term_loop-Reads f (binary o l n (peek s1).pos) s s2
                (joined (binary o l n (peek s1).pos) s2 r refl t refl q refl
                  (q.same_depth ∙ r.same_depth)
                  (multiplied o l n (peek s1) r.consumed q.consumed r.form e
                    (at_depth IsUnary r.same_depth q.form)))
                (omega (arith, q.shorter, t.shorter))

  parse_unary-Reads :
      (f : ℕ) (s : Cursor)
      → IsTerminated s.tokens
      → 8 * length s.tokens + 3 ≤ f
      → Yields (Reads IsUnary s) (parse_unary f s)
  parse_unary-Reads zero s h k = absurd (omega arith)
  parse_unary-Reads (suc f) s h k =
      Yields-option (unary_op (peek s))
        (λ e.
          Yields-map (parse_power-Reads f s h (omega arith))
            λ (n, s1) r. as_form n s1 r refl refl r.same_depth (unsigned n r.consumed r.form))
        λ o e.
          let t = Takes-op unary_table s o h e in
          Yields-enter (peek s).pos (advance s) _ λ lt.
            Yields-bind
              (parse_unary-Reads f (cursor (advance s).tokens (s.depth + 1)) t.terminated
                (omega (arith, t.shorter)))
              λ (n, s2) r. gives (
                prefixed (unary o n (peek s).pos) (leave s2) t refl r refl (left_depth r.same_depth)
                  (signed o n (peek s) r.consumed e lt (at_depth IsUnary (deeper refl) r.form)))

  parse_power-Reads :
      (f : ℕ) (s : Cursor)
      → IsTerminated s.tokens
      → 8 * length s.tokens + 2 ≤ f
      → Yields (Reads IsPower s) (parse_power f s)
  parse_power-Reads zero s h k = absurd (omega arith)
  parse_power-Reads (suc f) s h k =
      Yields-bind (parse_primary-Reads f s h (omega arith)) λ (b, s1) r.
        Yields-option (power_op (peek s1))
          (λ e. gives (as_form b s1 r refl refl r.same_depth (base b r.consumed r.form)))
          λ o e.
            let t = Takes-op power_table s1 o r.terminated e in
            Yields-enter (peek s1).pos (advance s1) _ λ lt.
              Yields-bind
                (parse_unary-Reads f (cursor (advance s1).tokens (s1.depth + 1)) t.terminated
                  (omega (arith, t.shorter, r.shorter)))
                λ (n, s3) q. gives (
                  joined (binary o b n (peek s1).pos) (leave s3) r refl t refl q refl
                    (left_inner q.same_depth r.same_depth)
                    (raised o b n (peek s1) r.consumed q.consumed r.form e
                      (subst (λ d. d < formula_max_depth) r.same_depth lt)
                      (at_depth IsUnary (deeper r.same_depth) q.form)))

  parse_primary-Reads :
      (f : ℕ) (s : Cursor)
      → IsTerminated s.tokens
      → 8 * length s.tokens + 1 ≤ f
      → Yields (Reads IsPrimary s) (parse_primary f s)
  parse_primary-Reads zero s h k = absurd (omega arith)
  parse_primary-Reads (suc f) s h k =
      Yields-if (has_kind number (peek s))
        (λ e. gives (
          single (Takes-kind number s (λ x. cc) h e)
            (literal (peek s) (same_kind_sound (peek s).kind number e))))
        λ e1.
          Yields-if (has_kind lparen (peek s))
            (λ e.
              let t = Takes-kind lparen s (λ x. cc) h e in
              Yields-bind
                (parse_comparison-Reads f (advance s) t.terminated (omega (arith, t.shorter)))
                λ (n, s1) r.
                  Yields-if (has_kind rparen (peek s1))
                    (λ j. gives (
                      around t r (Takes-kind rparen s1 (λ x. cc) r.terminated j) (
                        grouped n (peek s) (peek s1) r.consumed
                          (same_kind_sound (peek s).kind lparen e) r.form
                          (same_kind_sound (peek s1).kind rparen j))))
                    λ j. throws)
            λ e2.
              Yields-if (has_kind ident (peek s))
                (λ e.
                  let t = Takes-kind ident s (λ x. cc) h e in
                  Yields-if (has_kind lparen (peek (advance s)))
                    (λ j.
                      let u = Takes-kind lparen (advance s) (λ x. cc) t.terminated j in
                      Yields-bind
                        (parse_arguments-Reads f (advance (advance s)) u.terminated
                          (omega (arith, t.shorter, u.shorter)))
                        λ (args, s1) r. gives (
                          prefixed_twice t u r (
                            called args (peek s) (peek (advance s)) r.consumed
                              (same_kind_sound (peek s).kind ident e)
                              (same_kind_sound (peek (advance s)).kind lparen j) r.form)))
                    λ j. gives (single t (named (peek s) (same_kind_sound (peek s).kind ident e))))
                λ e3. throws

  parse_arguments-Reads :
      (f : ℕ) (s : Cursor)
      → IsTerminated s.tokens
      → 8 * length s.tokens + 8 ≤ f
      → Yields (Reads AreArguments s) (parse_arguments f s)
  parse_arguments-Reads zero s h k = absurd (omega arith)
  parse_arguments-Reads (suc f) s h k =
      Yields-if (has_kind rparen (peek s))
        (λ e. gives (
          single (Takes-kind rparen s (λ x. cc) h e)
            (none_given (peek s) (same_kind_sound (peek s).kind rparen e))))
        λ e. Yields-map (parse_more_arguments-Reads f s h (omega arith)) λ (args, s1) r.
          as_form args s1 r refl refl r.same_depth (some_given args r.consumed r.form)

  parse_more_arguments-Reads :
      (f : ℕ) (s : Cursor)
      → IsTerminated s.tokens
      → 8 * length s.tokens + 7 ≤ f
      → Yields (Reads AreMoreArguments s) (parse_more_arguments f s)
  parse_more_arguments-Reads zero s h k = absurd (omega arith)
  parse_more_arguments-Reads (suc f) s h k =
      Yields-bind (parse_comparison-Reads f s h (omega arith)) λ (a, s1) r.
        Yields-if (has_kind rparen (peek s1))
          (λ e. gives (
            closed r (Takes-kind rparen s1 (λ x. cc) r.terminated e)
              (last_one a (peek s1) r.consumed r.form (same_kind_sound (peek s1).kind rparen e))))
          λ e1.
            Yields-if (has_kind comma (peek s1))
              (λ e.
                let t = Takes-kind comma s1 (λ x. cc) r.terminated e in
                Yields-bind
                  (parse_more_arguments-Reads f (advance s1) t.terminated
                    (omega (arith, t.shorter, r.shorter)))
                  λ (more, s2) q. gives (
                    joined (argument a more) s2 r refl t refl q refl (q.same_depth ∙ r.same_depth) (
                      one_more a more (peek s1) r.consumed q.consumed r.form
                        (same_kind_sound (peek s1).kind comma e)
                        (at_depth AreMoreArguments r.same_depth q.form))))
              λ e2. throws

Lexeme-kind : (kind : TokenType) (value : Text) → Lexeme kind value → kind ≢ eof
Lexeme-kind _ _ (mark c h) = ground arith
Lexeme-kind _ _ (one_char c h) = λ e. cc
Lexeme-kind _ _ (two_chars c d h) = λ e. cc
Lexeme-kind _ _ (identifier c s h a) = λ e. cc
Lexeme-kind _ _ (integer c s h a) = λ e. cc
Lexeme-kind _ _ (decimal c s d t h a k b) = λ e. cc

pub Spells-IsTerminated : (i : ℕ) (s : Text) (ts : List Token) → Spells i s ts → IsTerminated ts
Spells-IsTerminated _ _ _ (ends i) = refl
Spells-IsTerminated _ _ _ (skips i c s ts b h) = Spells-IsTerminated (suc i) s ts h
Spells-IsTerminated _ _ _ (reads i kind value s ts l h) =
    IsTerminated-cons (token kind value i) ts (Lexeme-kind kind value l)
      (Spells-IsTerminated (i + length value) s ts h)

-- The tokens of a formula: a comparison of the grammar, then the mark of the end.
pub record IsFormula (n : FormulaNode) (ts : List Token) : Type 0 where
  pub body : List Token
  pub last : Token
  pub whole : ts ≡ body ++ last ∷ []
  pub comparison : IsComparison 0 n body
  pub is_last : last.kind ≡ eof

pub parse_tokens-IsFormula :
    (ts : List Token) → IsTerminated ts → Yields (λ n. IsFormula n ts) (parse_tokens ts)
unfolding parse_tokens
parse_tokens-IsFormula ts h =
    Yields-bind (parse_comparison-Reads (8 * length ts + 6) (cursor ts 0) h (omega arith))
      λ (n, s) r.
        Yields-if (has_kind eof (peek s))
          (λ e.
            let k = same_kind_sound (peek s).kind eof e in
            let whole =
              r.whole ∙ ap (λ x. r.consumed ++ x) (IsTerminated-last s.tokens r.terminated k) in
            gives (record {
              body = r.consumed;
              last = peek s;
              whole = whole;
              comparison = r.form;
              is_last = k;
            }))
          λ e. throws

-- What `parseFormula` says of a text when it answers the tree `n`.
pub record IsParsed (source : Text) (n : FormulaNode) : Type 0 where
  pub tokens : List Token
  pub short : length source ≤ formula_max_length
  pub spells : Spells 0 source tokens
  pub formula : IsFormula n tokens

-- The analysis of any text ends: it refuses the text with an error, or the text has at most 1000
-- characters, is spelled by tokens of the alphabet, and the grammar derives the tree from them with no
-- form begun deeper than the limit.
pub parse_ast-IsParsed : (source : Text) → Yields (IsParsed source) (parse_ast source)
unfolding parse_ast
parse_ast-IsParsed source =
    Yields-if (ltb formula_max_length (length source)) (λ e. throws)
      λ e. Yields-bind (tokenize-Spells source) λ ts h.
        Yields-map (parse_tokens-IsFormula ts (Spells-IsTerminated 0 source ts h))
          λ n f. record { tokens = ts; short = ground (arith, e); spells = h; formula = f }
