-- ===== src/Formula/Parser/Runs.antt =====
-- The steps of a run of packages/pricing/src/formula/parser.ts on a form and what follows it.
use contrats.Base.{
  ℕ, zero, suc, ◌+◌, ◌*◌, ◌<◌, ◌≤◌, Bool, true, false, Option, none, some, List, [], ◌∷◌, ◌++◌,
  length, ◌≡◌, refl, ap, ◌∙◌, arith, ltb, if◌then◌else◌,
}
use contrats.Formula.Outcome.{FormulaResult, done, bind}
use contrats.Formula.Tokenizer.{TokenType, Token, rparen}
use contrats.Formula.Ast.{FormulaNode, Arguments}
use contrats.Formula.Parser.{
  formula_max_depth, Cursor, cursor, first, after_first, enter, leave, same_kind, has_kind,
  additive_op, term_op, parse_additive, additive_loop, parse_term, term_loop,
}
use contrats.Formula.Parser.Grammar.{AreMoreArguments, last_one, one_more}
use contrats.Formula.Parser.Follows.{Starts, Starts-append, IsComparison-Starts}

-- One step of a run.
pub bind-done :
    {A B : Type 0} {r : FormulaResult A} {a : A} (f : A → FormulaResult B)
    → r ≡ done a
    → bind r f ≡ f a
bind-done f h = ap (λ x. bind x f) h

pub option-none :
    {O A : Type 0} {o : Option O} (x : A) (f : O → A)
    → o ≡ none
    → elim o [ none ↦ x | some a ↦ f a ] ≡ x
option-none x f h = rw h refl

pub option-some :
    {O A : Type 0} {o : Option O} {a : O} (x : A) (f : O → A)
    → o ≡ some a
    → elim o [ none ↦ x | some b ↦ f b ] ≡ f a
option-some x f h = rw h refl

pub if-true : {A : Type 0} {b : Bool} (x y : A) → b ≡ true → (if b then x else y) ≡ x
if-true x y h = rw h refl

pub if-false : {A : Type 0} {b : Bool} (x y : A) → b ≡ false → (if b then x else y) ≡ y
if-false x y h = rw h refl

pub enter-done :
    {A : Type 0} (pos : ℕ) (ts : List Token) (d : ℕ) (f : Cursor → FormulaResult A)
    → d < formula_max_depth
    → bind (enter pos (cursor ts d)) f ≡ f (cursor ts (suc d))
unfolding enter
enter-done pos ts d f lt =
    ap (λ r. bind r f)
      (if-false {b = ltb formula_max_depth (d + 1)} _ _ (ground (arith, lt))
        ∙ ap (λ e. done (cursor ts e)) (omega arith))

pub leave-suc : (ts : List Token) (d : ℕ) → leave (cursor ts (suc d)) ≡ cursor ts d
leave-suc ts d = ap (λ e. cursor ts e) (omega arith)

pub after_first-cons :
    (t z : Token) (us zs : List Token) → after_first (t ∷ us ++ z ∷ zs) ≡ us ++ z ∷ zs
after_first-cons t z [] zs = refl
after_first-cons t z (u ∷ us) zs = refl

-- With the fuel `bound` for the tokens, the call answers the tree `n` and leaves `z ∷ zs`.
abbrev pub Finds :
    {N : Type 0}
    → (ℕ → Cursor → FormulaResult (N × Cursor))
    → ℕ
    → ℕ
    → N
    → List Token
    → Token
    → List Token
    → Type 0
Finds p k d n ts z zs =
    (f : ℕ)
    → 8 * length (ts ++ z ∷ zs) + k ≤ f
    → p f (cursor (ts ++ z ∷ zs) d) ≡ done (n, cursor (z ∷ zs) d)

-- The same up to the loop of a level.
abbrev pub GoesTo :
    (ℕ → Cursor → FormulaResult (FormulaNode × Cursor))
    → (ℕ → FormulaNode → Cursor → FormulaResult (FormulaNode × Cursor))
    → ℕ
    → ℕ
    → FormulaNode
    → List Token
    → Token
    → List Token
    → Type 0
GoesTo p loop k d n ts z zs =
    (f : ℕ)
    → 8 * length (ts ++ z ∷ zs) + k ≤ f
    → (g : ℕ) × (8 * length (z ∷ zs) ≤ g)
      × (p f (cursor (ts ++ z ∷ zs) d) ≡ loop (suc g) n (cursor (z ∷ zs) d))

pub predecessor : (g : ℕ) → 1 ≤ g → (k : ℕ) × (g ≡ suc k)
predecessor zero h = absurd (omega arith)
predecessor (suc k) h = (k, refl)

pub other_kind :
    (t : Token) (kind other : TokenType)
    → t.kind ≡ kind
    → same_kind kind other ≡ false
    → has_kind other t ≡ false
other_kind t kind other h k = rw h k

pub AreMoreArguments-Starts :
    {d : ℕ} {args : Arguments} {ts : List Token} → AreMoreArguments d args ts → Starts ts
AreMoreArguments-Starts (last_one a u ts p k) = Starts-append (u ∷ []) (IsComparison-Starts p)
AreMoreArguments-Starts (one_more a more u ts us p k q) =
    Starts-append (u ∷ us) (IsComparison-Starts p)

pub Starts-opens :
    {ts : List Token} (us : List Token) → Starts ts → has_kind rparen (first (ts ++ us)) ≡ false
Starts-opens us s = rw s.whole s.opens

pub additive_stops :
    {d : ℕ} {n : FormulaNode} (ts : List Token) {z : Token} {zs : List Token}
    → GoesTo parse_additive additive_loop 5 d n ts z zs
    → additive_op z ≡ none
    → Finds parse_additive 5 d n ts z zs
unfolding additive_loop
additive_stops ts goes e f h = let (g, lt, run) = goes f h in run ∙ option-none _ _ e

pub term_stops :
    {d : ℕ} {n : FormulaNode} (ts : List Token) {z : Token} {zs : List Token}
    → GoesTo parse_term term_loop 4 d n ts z zs
    → term_op z ≡ none
    → Finds parse_term 4 d n ts z zs
unfolding term_loop
term_stops ts goes e f h = let (g, lt, run) = goes f h in run ∙ option-none _ _ e
