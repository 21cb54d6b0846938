-- ===== src/Formula/Tokenizer/Faithful.antt =====
-- The tokens of packages/pricing/src/formula/tokenizer.ts beside the text, and the end of its loop.
use mathlib.Core.Path.{subst}
use mathlib.Core.List.{append_assoc}
use contrats.Base.{
  ◌==◌, ℕ, zero, suc, ◌+◌, ◌<◌, Bool, true, List, [], ◌∷◌, ◌++◌, length, length-append, ◌≡◌, refl,
  sym, ap, ◌∙◌, arith, Bool-cases, inl, inr,
}
use contrats.Base.Text.{Text}
use contrats.Formula.Outcome.{Yields, gives, throws, Yields-if, Yields-bind}
use contrats.Formula.Tokenizer.{
  TokenType, Token, number, ident, op, token, Turn, turn, punctuation, is_digit, is_ident_start,
  is_ident_part, is_blank_char, is_two_char_op, is_one_char_op, is_punctuation, taken, left, push,
  number_turn, sign_turn, op_turn, next_turn, scan, tokenize,
}
use contrats.Formula.Tokenizer.Lexemes.{
  AreAll, Lexeme, integer, decimal, identifier, two_chars, one_char, mark, Spells, ends, skips,
  reads,
}

taken-left : (test : ℕ → Bool) (s : Text) → s ≡ taken test s ++ left test s
unfolding taken left
taken-left test [] = refl
taken-left test (c ∷ s) = ground (arith, taken-left test s)

taken-AreAll : (test : ℕ → Bool) (s : Text) → AreAll test (taken test s)
unfolding taken
taken-AreAll test [] = tt
taken-AreAll test (c ∷ s) = elim (Bool-cases (test c)) [
  | inl e ↦ rw e (e, taken-AreAll test s)
  | inr e ↦ rw e tt
]

-- What one turn of the loop does with the text from index `i` on.
data IsTurn (i : ℕ) (text : Text) : Turn → Type 0 where
  blank_turn :
      (c : ℕ) (s : Text)
      → is_blank_char c ≡ true
      → text ≡ c ∷ s
      → IsTurn i text (turn [] (c ∷ []) s)
  token_turn :
      (kind : TokenType) (c : ℕ) (value s : Text)
      → Lexeme kind (c ∷ value)
      → text ≡ c ∷ value ++ s
      → IsTurn i text (turn (token kind (c ∷ value) i ∷ []) (c ∷ value) s)

point : {p : ℕ} → (p == 46) ≡ true → p ≡ 46
point e = ground (arith, e)

split_decimal :
    (c : ℕ) (int : Text) (d : ℕ) (s : Text)
    → c ∷ int ++ 46 ∷ d ∷ s ≡ c ∷ (int ++ 46 ∷ d ∷ taken is_digit s) ++ left is_digit s
split_decimal c int d s =
    ap (λ t. c ∷ t)
      (ap (λ t. int ++ 46 ∷ d ∷ t) (taken-left is_digit s) ∙ sym (append_assoc int _ _))

decimal-IsTurn :
    (i c : ℕ) (int : Text) (d : ℕ) (s : Text)
    → is_digit c ≡ true
    → AreAll is_digit int
    → is_digit d ≡ true
    → Yields
        (IsTurn i (c ∷ int ++ 46 ∷ d ∷ s))
        (push number i (c ∷ int ++ 46 ∷ taken is_digit (d ∷ s)) (left is_digit (d ∷ s)))
unfolding taken left
decimal-IsTurn i c int d s h k j = rw j (
    gives (
      token_turn number c (int ++ 46 ∷ d ∷ taken is_digit s) (left is_digit s)
        (decimal c int d (taken is_digit s) h k j (taken-AreAll is_digit s))
        (split_decimal c int d s)))

number_turn-IsTurn :
    (i c : ℕ) (int s : Text)
    → is_digit c ≡ true
    → AreAll is_digit int
    → Yields (IsTurn i (c ∷ int ++ s)) (number_turn i (c ∷ int) s)
unfolding number_turn
number_turn-IsTurn i c int [] h k = gives (token_turn number c int [] (integer c int h k) refl)
number_turn-IsTurn i c int (p ∷ []) h k =
    Yields-if (p == 46) (λ e. throws)
      λ e. gives (token_turn number c int (p ∷ []) (integer c int h k) refl)
number_turn-IsTurn i c int (p ∷ d ∷ s) h k =
    Yields-if (p == 46)
      (λ e.
        Yields-if (is_digit d) (λ j. rw (point e) (decimal-IsTurn i c int d s h k j)) λ j. throws)
      λ e. gives (token_turn number c int (p ∷ d ∷ s) (integer c int h k) refl)

sign_turn-IsTurn : (i c : ℕ) (s : Text) → Yields (IsTurn i (c ∷ s)) (sign_turn i c s)
unfolding sign_turn
sign_turn-IsTurn i c s =
    Yields-if (is_one_char_op c) (λ h. gives (token_turn op c [] s (one_char c h) refl))
      λ h.
        Yields-if (is_punctuation c)
          (λ k. gives (token_turn (punctuation c) c [] s (mark c k) refl)) λ k. throws

op_turn-IsTurn : (i c : ℕ) (s : Text) → Yields (IsTurn i (c ∷ s)) (op_turn i c s)
unfolding op_turn
op_turn-IsTurn i c [] = sign_turn-IsTurn i c []
op_turn-IsTurn i c (d ∷ s) =
    Yields-if (is_two_char_op c d) (λ h. gives (token_turn op c (d ∷ []) s (two_chars c d h) refl))
      λ h. sign_turn-IsTurn i c (d ∷ s)

next_turn-IsTurn : (i c : ℕ) (s : Text) → Yields (IsTurn i (c ∷ s)) (next_turn i c s)
unfolding next_turn
next_turn-IsTurn i c s =
    Yields-if (is_blank_char c) (λ h. gives (blank_turn c s h refl))
      λ b.
        Yields-if (is_digit c)
          (λ h. rw (ap (λ t. c ∷ t) (taken-left is_digit s)) (
            number_turn-IsTurn i c (taken is_digit s) (left is_digit s) h
              (taken-AreAll is_digit s)))
          λ d.
            Yields-if (is_ident_start c)
              (λ h. gives (
                token_turn ident c (taken is_ident_part s) (left is_ident_part s)
                  (identifier c (taken is_ident_part s) h (taken-AreAll is_ident_part s))
                  (ap (λ t. c ∷ t) (taken-left is_ident_part s))))
              λ h. op_turn-IsTurn i c s

IsTurn-shorter :
    (i c : ℕ) (s : Text) (fuel : ℕ) (t : Turn)
    → IsTurn i (c ∷ s) t
    → suc (length s) < suc fuel
    → length t.rest < fuel
IsTurn-shorter i c s fuel _ (blank_turn d r b e) h = omega (arith, ap length e)
IsTurn-shorter i c s fuel _ (token_turn kind d value r l e) h =
    omega (arith, ap length e, length-append value r)

IsTurn-Spells :
    (i : ℕ) (text : Text) (t : Turn) (ts : List Token)
    → IsTurn i text t
    → Spells (i + length t.passed) t.rest ts
    → Spells i text (t.pushed ++ ts)
IsTurn-Spells i text _ ts (blank_turn c s b e) h =
    rw e (skips i c s ts b (subst (λ j. Spells j s ts) (omega arith) h))
IsTurn-Spells i text _ ts (token_turn kind c value s l e) h =
    rw e (reads i kind (c ∷ value) s ts l h)

scan-Spells : (fuel i : ℕ) (s : Text) → length s < fuel → Yields (Spells i s) (scan fuel i s)
unfolding scan
scan-Spells zero i s h = absurd (omega arith)
scan-Spells (suc fuel) i [] h = gives (ends i)
scan-Spells (suc fuel) i (c ∷ s) h = Yields-bind (next_turn-IsTurn i c s) λ t step.
    Yields-bind (scan-Spells fuel (i + length t.passed) t.rest (IsTurn-shorter i c s fuel t step h))
      λ ts more. gives (IsTurn-Spells i (c ∷ s) t ts step more)

-- With a unit of fuel for each character and one more the loop ends: the formula is refused, or
-- the tokens spell it.
pub tokenize-Spells : (src : Text) → Yields (Spells 0 src) (tokenize src)
unfolding tokenize
tokenize-Spells src = scan-Spells (length src + 1) 0 src (omega arith)
