-- ===== src/Formula/Parser/Complete.antt =====
-- The recursive descent of packages/pricing/src/formula/parser.ts on the forms of the grammar.
use mathlib.Core.List.{append_assoc}
use contrats.Base.{
  ℕ, zero, suc, ◌+◌, ◌*◌, ◌≤◌, List, [], ◌∷◌, ◌++◌, length, length-append, refl, ap, ◌∙◌, arith,
}
use contrats.Formula.Outcome.{done}
use contrats.Formula.Tokenizer.{Token, number, ident, lparen, rparen, comma}
use contrats.Formula.Ast.{FormulaNode, Arguments, unary, binary}
use contrats.Formula.Parser.{
  cursor, parse_comparison, parse_additive, additive_loop, parse_term, term_loop, parse_unary,
  parse_power, parse_primary, parse_arguments, parse_more_arguments,
}
use contrats.Formula.Parser.Grammar.{
  IsComparison, IsAdditive, IsTerm, IsUnary, IsPower, IsPrimary, AreArguments, AreMoreArguments,
  alone, compared, one_term, added, one_unary, multiplied, unsigned, signed, base, raised, literal,
  named, grouped, called, none_given, some_given, last_one, one_more,
}
use contrats.Formula.Parser.Follows.{
  EndsPrimary, EndsPower, EndsTerm, EndsComparison, power_op-EndsPrimary, term_op-EndsPower,
  additive_op-EndsTerm, comparison_op-EndsAdditive, has_kind_refl, rparen-EndsComparison,
  comma-EndsComparison, power-unary_op,
}
use contrats.Formula.Parser.Runs.{
  bind-done, option-none, option-some, if-true, if-false, enter-done, leave-suc, after_first-cons,
  predecessor, other_kind, AreMoreArguments-Starts, Starts-opens, additive_stops, term_stops, Finds,
  GoesTo,
}

mutual
  unfolding parse_comparison

  pub parse_comparison-Finds :
      {d : ℕ} {n : FormulaNode} {ts : List Token} (z : Token) (zs : List Token)
      → IsComparison d n ts
      → EndsComparison z
      → Finds parse_comparison 6 d n ts z zs
  parse_comparison-Finds z zs p e zero h = absurd (omega arith)
  parse_comparison-Finds {d} z zs (alone n ts lt p) e (suc f) h =
      enter-done _ _ d _ lt
      ∙ bind-done _ (additive_stops ts (parse_additive-GoesTo z zs p e.0.0) e.0.1 f (omega arith))
      ∙ option-none _ _ e.1
      ∙ ap (λ s. done (n, s)) (leave-suc (z ∷ zs) d)
  parse_comparison-Finds {d} z zs (compared o l r t ts us lt p k q) e (suc f) h =
      let h' : 8 * length (ts ++ (t ∷ us ++ z ∷ zs)) + 6 ≤ suc f =
        rw (append_assoc ts (t ∷ us) (z ∷ zs)) at h in
      rw (append_assoc ts (t ∷ us) (z ∷ zs)) (
        enter-done _ _ d _ lt
        ∙ bind-done _ (
            additive_stops ts
              (parse_additive-GoesTo t (us ++ z ∷ zs) p (comparison_op-EndsAdditive t o k).0)
              (comparison_op-EndsAdditive t o k).1 f (omega arith))
        ∙ option-some _ _ k
        ∙ bind-done _ (
            ap (λ x. parse_additive f (cursor x (suc d))) (after_first-cons t z us zs)
            ∙ additive_stops us (parse_additive-GoesTo z zs q e.0.0) e.0.1 f
                (omega (arith, h', length-append ts (t ∷ us ++ z ∷ zs))))
        ∙ ap (λ s. done (binary o l r t.pos, s)) (leave-suc (z ∷ zs) d))

  parse_additive-GoesTo :
      {d : ℕ} {n : FormulaNode} {ts : List Token} (z : Token) (zs : List Token)
      → IsAdditive d n ts
      → EndsTerm z
      → GoesTo parse_additive additive_loop 5 d n ts z zs
  parse_additive-GoesTo z zs (one_term n ts p) e zero h = absurd (omega arith)
  parse_additive-GoesTo z zs (one_term n ts p) e (suc zero) h = absurd (omega arith)
  parse_additive-GoesTo z zs (one_term n ts p) e (suc (suc g)) h = (
    g,
    omega (arith, h, length-append ts (z ∷ zs)),
    bind-done _ (term_stops ts (parse_term-GoesTo z zs p e.0) e.1 (suc g) (omega arith)),
  )
  parse_additive-GoesTo {d} z zs (added o l r t ts us p k q) e f h =
      let h' : 8 * length (ts ++ (t ∷ us ++ z ∷ zs)) + 5 ≤ f =
        rw (append_assoc ts (t ∷ us) (z ∷ zs)) at h in
      let (g, lt, run) =
        parse_additive-GoesTo t (us ++ z ∷ zs) p (additive_op-EndsTerm t o k) f h' in
      let (j, e') = predecessor g (omega (arith, lt)) in
      (
        j,
        omega (arith, lt, e', length-append us (z ∷ zs)),
        rw (append_assoc ts (t ∷ us) (z ∷ zs)) (
            run
            ∙ option-some _ _ k
            ∙ bind-done _ (
                ap (λ x. parse_term g (cursor x d)) (after_first-cons t z us zs)
                ∙ term_stops us (parse_term-GoesTo z zs q e.0) e.1 g (omega (arith, lt)))
            ∙ ap (λ x. additive_loop x (binary o l r t.pos) (cursor (z ∷ zs) d)) e'),
      )

  parse_term-GoesTo :
      {d : ℕ} {n : FormulaNode} {ts : List Token} (z : Token) (zs : List Token)
      → IsTerm d n ts
      → EndsPower z
      → GoesTo parse_term term_loop 4 d n ts z zs
  parse_term-GoesTo z zs (one_unary n ts p) e zero h = absurd (omega arith)
  parse_term-GoesTo z zs (one_unary n ts p) e (suc zero) h = absurd (omega arith)
  parse_term-GoesTo z zs (one_unary n ts p) e (suc (suc g)) h = (
    g,
    omega (arith, h, length-append ts (z ∷ zs)),
    bind-done _ (parse_unary-Finds z zs p e (suc g) (omega arith)),
  )
  parse_term-GoesTo {d} z zs (multiplied o l r t ts us p k q) e f h =
      let h' : 8 * length (ts ++ (t ∷ us ++ z ∷ zs)) + 4 ≤ f =
        rw (append_assoc ts (t ∷ us) (z ∷ zs)) at h in
      let (g, lt, run) = parse_term-GoesTo t (us ++ z ∷ zs) p (term_op-EndsPower t o k) f h' in
      let (j, e') = predecessor g (omega (arith, lt)) in
      (
        j,
        omega (arith, lt, e', length-append us (z ∷ zs)),
        rw (append_assoc ts (t ∷ us) (z ∷ zs)) (
            run
            ∙ option-some _ _ k
            ∙ bind-done _ (
                ap (λ x. parse_unary g (cursor x d)) (after_first-cons t z us zs)
                ∙ parse_unary-Finds z zs q e g (omega (arith, lt)))
            ∙ ap (λ x. term_loop x (binary o l r t.pos) (cursor (z ∷ zs) d)) e'),
      )

  parse_unary-Finds :
      {d : ℕ} {n : FormulaNode} {ts : List Token} (z : Token) (zs : List Token)
      → IsUnary d n ts
      → EndsPower z
      → Finds parse_unary 3 d n ts z zs
  parse_unary-Finds z zs p e zero h = absurd (omega arith)
  parse_unary-Finds z zs (unsigned n ts p) e (suc f) h =
      option-none _ _ (power-unary_op (z ∷ zs) p) ∙ parse_power-Finds z zs p e f (omega arith)
  parse_unary-Finds {d} z zs (signed o n t ts k lt p) e (suc f) h =
      option-some _ _ k
      ∙ enter-done _ _ d _ lt
      ∙ bind-done _ (
          ap (λ x. parse_unary f (cursor x (suc d))) (after_first-cons t z ts zs)
          ∙ parse_unary-Finds z zs p e f (omega arith))
      ∙ ap (λ s. done (unary o n t.pos, s)) (leave-suc (z ∷ zs) d)

  parse_power-Finds :
      {d : ℕ} {n : FormulaNode} {ts : List Token} (z : Token) (zs : List Token)
      → IsPower d n ts
      → EndsPower z
      → Finds parse_power 2 d n ts z zs
  parse_power-Finds z zs p e zero h = absurd (omega arith)
  parse_power-Finds z zs (base n ts p) e (suc f) h =
      bind-done _ (parse_primary-Finds z zs p e.0 f (omega arith)) ∙ option-none _ _ e.1
  parse_power-Finds {d} z zs (raised o b x t ts us p k lt q) e (suc f) h =
      let h' : 8 * length (ts ++ (t ∷ us ++ z ∷ zs)) + 2 ≤ suc f =
        rw (append_assoc ts (t ∷ us) (z ∷ zs)) at h in
      rw (append_assoc ts (t ∷ us) (z ∷ zs)) (
        bind-done _
          (parse_primary-Finds t (us ++ z ∷ zs) p (power_op-EndsPrimary t o k) f (omega arith))
        ∙ option-some _ _ k
        ∙ enter-done _ _ d _ lt
        ∙ bind-done _ (
            ap (λ x. parse_unary f (cursor x (suc d))) (after_first-cons t z us zs)
            ∙ parse_unary-Finds z zs q e f (omega (arith, h', length-append ts (t ∷ us ++ z ∷ zs))))
        ∙ ap (λ s. done (binary o b x t.pos, s)) (leave-suc (z ∷ zs) d))

  parse_primary-Finds :
      {d : ℕ} {n : FormulaNode} {ts : List Token} (z : Token) (zs : List Token)
      → IsPrimary d n ts
      → EndsPrimary z
      → Finds parse_primary 1 d n ts z zs
  parse_primary-Finds z zs p e zero h = absurd (omega arith)
  parse_primary-Finds z zs (literal t k) e (suc f) h = if-true _ _ (has_kind_refl t number k)
  parse_primary-Finds z zs (named t k) e (suc f) h =
      if-false _ _ (other_kind t ident number k refl)
      ∙ if-false _ _ (other_kind t ident lparen k refl)
      ∙ if-true _ _ (has_kind_refl t ident k)
      ∙ if-false _ _ e
  parse_primary-Finds {d} z zs (grouped n t u ts k p j) e (suc f) h =
      let h' : 8 * suc (length (ts ++ u ∷ z ∷ zs)) + 1 ≤ suc f =
        rw (append_assoc ts (u ∷ []) (z ∷ zs)) at h in
      rw (append_assoc ts (u ∷ []) (z ∷ zs)) (
        if-false _ _ (other_kind t lparen number k refl)
        ∙ if-true _ _ (has_kind_refl t lparen k)
        ∙ bind-done _ (
            ap (λ x. parse_comparison f (cursor x d)) (after_first-cons t u ts (z ∷ zs))
            ∙ parse_comparison-Finds u (z ∷ zs) p (rparen-EndsComparison u j) f (omega (arith, h')))
        ∙ if-true _ _ (has_kind_refl u rparen j))
  parse_primary-Finds {d} z zs (called args t u ts k j p) e (suc f) h =
      if-false _ _ (other_kind t ident number k refl)
      ∙ if-false _ _ (other_kind t ident lparen k refl)
      ∙ if-true _ _ (has_kind_refl t ident k)
      ∙ if-true _ _ (has_kind_refl u lparen j)
      ∙ bind-done _ (
          ap (λ x. parse_arguments f (cursor x d)) (after_first-cons u z ts zs)
          ∙ parse_arguments-Finds z zs p f (omega arith))

  parse_arguments-Finds :
      {d : ℕ} {args : Arguments} {ts : List Token} (z : Token) (zs : List Token)
      → AreArguments d args ts
      → Finds parse_arguments 8 d args ts z zs
  parse_arguments-Finds z zs p zero h = absurd (omega arith)
  parse_arguments-Finds z zs (none_given t k) (suc f) h = if-true _ _ (has_kind_refl t rparen k)
  parse_arguments-Finds z zs (some_given args ts p) (suc f) h =
      if-false _ _ (Starts-opens (z ∷ zs) (AreMoreArguments-Starts p))
      ∙ parse_more_arguments-Finds z zs p f (omega arith)

  parse_more_arguments-Finds :
      {d : ℕ} {args : Arguments} {ts : List Token} (z : Token) (zs : List Token)
      → AreMoreArguments d args ts
      → Finds parse_more_arguments 7 d args ts z zs
  parse_more_arguments-Finds z zs p zero h = absurd (omega arith)
  parse_more_arguments-Finds {d} z zs (last_one a u ts p k) (suc f) h =
      let h' : 8 * length (ts ++ u ∷ z ∷ zs) + 7 ≤ suc f =
        rw (append_assoc ts (u ∷ []) (z ∷ zs)) at h in
      rw (append_assoc ts (u ∷ []) (z ∷ zs)) (
        bind-done _
          (parse_comparison-Finds u (z ∷ zs) p (rparen-EndsComparison u k) f (omega arith))
        ∙ if-true _ _ (has_kind_refl u rparen k))
  parse_more_arguments-Finds {d} z zs (one_more a more u ts us p k q) (suc f) h =
      let h' : 8 * length (ts ++ (u ∷ us ++ z ∷ zs)) + 7 ≤ suc f =
        rw (append_assoc ts (u ∷ us) (z ∷ zs)) at h in
      rw (append_assoc ts (u ∷ us) (z ∷ zs)) (
        bind-done _
          (parse_comparison-Finds u (us ++ z ∷ zs) p (comma-EndsComparison u k) f (omega arith))
        ∙ if-false _ _ (other_kind u comma rparen k refl)
        ∙ if-true _ _ (has_kind_refl u comma k)
        ∙ bind-done _ (
            ap (λ x. parse_more_arguments f (cursor x d)) (after_first-cons u z us zs)
            ∙ parse_more_arguments-Finds z zs q f
                (omega (arith, h', length-append ts (u ∷ us ++ z ∷ zs)))))
