-- ===== src/Formula/Tokenizer.antt =====
-- packages/pricing/src/formula/tokenizer.ts. What the loop has left of the text, `src.slice(i)`,
-- is kept beside the index `i`.
pub mod Lexemes
pub mod Faithful
use contrats.Base.{
  ℕ, zero, suc, ◌+◌, Bool, true, false, ◌&&◌, ◌||◌, ◌==◌, leb, none, some, List, [], ◌∷◌, ◌++◌,
  length, if◌then◌else◌,
}
use contrats.Base.Text.{Text}
use contrats.Formula.Outcome.{formula_syntax, FormulaResult, done, failed, out_of_fuel, bind}

pub data TokenType : Type 0 where
  number ident op lparen rparen comma eof : TokenType

pub record Token : Type 0 where
  pub kind : TokenType
  pub value : Text
  pub pos : ℕ

abbrev pub token : TokenType → Text → ℕ → Token
token t v p = record { kind = t; value = v; pos = p }

abbrev pub is_digit : ℕ → Bool
is_digit c = leb 48 c && leb c 57

abbrev pub is_ident_start : ℕ → Bool
is_ident_start c = (leb 97 c && leb c 122) || (leb 65 c && leb c 90) || c == 95

abbrev pub is_ident_part : ℕ → Bool
is_ident_part c = is_ident_start c || is_digit c

abbrev pub is_blank_char : ℕ → Bool
is_blank_char c = c == 32 || c == 9 || c == 10 || c == 13

-- `<= >= == !=`
abbrev pub is_two_char_op : ℕ → ℕ → Bool
is_two_char_op c d = (c == 60 || c == 62 || c == 61 || c == 33) && d == 61

-- `+ - * / ^ < >`
abbrev pub is_one_char_op : ℕ → Bool
is_one_char_op c = c == 43 || c == 45 || c == 42 || c == 47 || c == 94 || c == 60 || c == 62

-- `( ) ,`
abbrev pub is_punctuation : ℕ → Bool
is_punctuation c = c == 40 || c == 41 || c == 44

abbrev pub punctuation : ℕ → TokenType
punctuation c = if c == 40 then lparen else if c == 41 then rparen else comma

-- The loops `while (i < src.length && test(src.charAt(i))) i++`: what they pass over, and the rest.
unfoldable pub taken : (ℕ → Bool) → Text → Text
taken test [] = []
taken test (c ∷ s) = let more = taken test s in if test c then c ∷ more else []

unfoldable pub left : (ℕ → Bool) → Text → Text
left test [] = []
left test (c ∷ s) = let more = left test s in if test c then more else c ∷ s

-- One turn of the main loop: what it pushes, the characters that it passes over, and the rest.
pub record Turn : Type 0 where
  pub pushed : List Token
  pub passed : Text
  pub rest : Text

abbrev pub turn : List Token → Text → Text → Turn
turn ts p s = record { pushed = ts; passed = p; rest = s }

abbrev pub push : TokenType → ℕ → Text → Text → FormulaResult Turn
push kind i value s = done (turn (token kind value i ∷ []) value s)

abbrev pub syntax_error : {A : Type 0} → ℕ → FormulaResult A
syntax_error pos = failed (record { code = formula_syntax; position = some pos; name = none })

-- `isDigit(src.charAt(i))`: past the end there is no character.
abbrev pub digit_next : Text → Bool
digit_next [] = false
digit_next (c ∷ s) = is_digit c

-- A number that starts at `i`, after its integer part.
unfoldable pub number_turn : ℕ → Text → Text → FormulaResult Turn
unfolding taken left
number_turn i int [] = push number i int []
number_turn i int (c ∷ s) =
    if c == 46
    then (if digit_next s
        then push number i (int ++ c ∷ taken is_digit s) (left is_digit s)
        else syntax_error i)
    else push number i int (c ∷ s)

-- The operators and the punctuation, of one character.
unfoldable pub sign_turn : ℕ → ℕ → Text → FormulaResult Turn
sign_turn i c s =
    if is_one_char_op c
    then push op i (c ∷ []) s
    else if is_punctuation c
    then push (punctuation c) i (c ∷ []) s
    else syntax_error i

-- The operators: two characters are tried before one.
unfoldable pub op_turn : ℕ → ℕ → Text → FormulaResult Turn
unfolding sign_turn
op_turn i c [] = sign_turn i c []
op_turn i c (d ∷ s) = if is_two_char_op c d then push op i (c ∷ d ∷ []) s else sign_turn i c (d ∷ s)

unfoldable pub next_turn : ℕ → ℕ → Text → FormulaResult Turn
unfolding taken left number_turn op_turn
next_turn i c s =
    if is_blank_char c
    then done (turn [] (c ∷ []) s)
    else if is_digit c
    then number_turn i (c ∷ taken is_digit s) (left is_digit s)
    else if is_ident_start c
    then push ident i (c ∷ taken is_ident_part s) (left is_ident_part s)
    else op_turn i c s

-- The main loop from `i` on; each turn costs a unit of fuel.
unfoldable pub scan : ℕ → ℕ → Text → FormulaResult (List Token)
unfolding next_turn
scan zero i s = out_of_fuel
scan (suc fuel) i [] = done (token eof [] i ∷ [])
scan (suc fuel) i (c ∷ s) =
    bind (next_turn i c s)
      λ t. bind (scan fuel (i + length t.passed) t.rest) λ more. done (t.pushed ++ more)

unfoldable pub tokenize : Text → FormulaResult (List Token)
unfolding scan
tokenize src = scan (length src + 1) 0 src
