-- ===== src/Formula/Tokenizer/Lexemes.antt =====
-- The alphabet of packages/pricing/src/formula/tokenizer.ts, as its comment describes it, and what a
-- list of tokens says of a text.
use contrats.Base.{ℕ, suc, ◌+◌, Bool, true, List, [], ◌∷◌, ◌++◌, length, All, ◌≡◌}
use contrats.Base.Text.{Text}
use contrats.Formula.Tokenizer.{
  TokenType, Token, number, ident, op, eof, token, punctuation, is_digit, is_ident_start,
  is_ident_part, is_blank_char, is_two_char_op, is_one_char_op, is_punctuation,
}

abbrev pub AreAll : (ℕ → Bool) → Text → Type 0
AreAll test s = All (λ c. test c ≡ true) s

-- The texts of each kind of token. A number is made of digits, with a point between digits at most.
pub data Lexeme : TokenType → Text → Type 0 where
  integer : (c : ℕ) (s : Text) → is_digit c ≡ true → AreAll is_digit s → Lexeme number (c ∷ s)
  decimal :
      (c : ℕ) (s : Text) (d : ℕ) (t : Text)
      → is_digit c ≡ true
      → AreAll is_digit s
      → is_digit d ≡ true
      → AreAll is_digit t
      → Lexeme number (c ∷ s ++ 46 ∷ d ∷ t)
  identifier :
      (c : ℕ) (s : Text) → is_ident_start c ≡ true → AreAll is_ident_part s → Lexeme ident (c ∷ s)
  two_chars : (c d : ℕ) → is_two_char_op c d ≡ true → Lexeme op (c ∷ d ∷ [])
  one_char : (c : ℕ) → is_one_char_op c ≡ true → Lexeme op (c ∷ [])
  mark : (c : ℕ) → is_punctuation c ≡ true → Lexeme (punctuation c) (c ∷ [])

-- The text from index `i` on is made of the tokens, each at its position, with blanks between them,
-- and the mark of the end comes last.
pub data Spells : ℕ → Text → List Token → Type 0 where
  ends : (i : ℕ) → Spells i [] (token eof [] i ∷ [])
  skips :
      (i c : ℕ) (s : Text) (ts : List Token)
      → is_blank_char c ≡ true
      → Spells (suc i) s ts
      → Spells i (c ∷ s) ts
  reads :
      (i : ℕ) (kind : TokenType) (value s : Text) (ts : List Token)
      → Lexeme kind value
      → Spells (i + length value) s ts
      → Spells i (value ++ s) (token kind value i ∷ ts)
