-- ===== src/Formula/Parser/Steps.antt =====
-- What a call of the recursive descent has read, and how the reads of its parts make up its own.
use mathlib.Core.Path.{subst}
use mathlib.Core.List.{append_assoc}
use contrats.Base.{
  ℕ, suc, ◌+◌, ◌-◌, ◌<◌, true, Option, some, List, [], ◌∷◌, ◌++◌, length, ◌≡◌, ◌≢◌, refl, sym, ap,
  ◌∙◌, arith, ltb, Bool-cases, inl, inr,
}
use contrats.Base.Text.{Text}
use contrats.Formula.Outcome.{FormulaResult, Yields, throws, bind}
use contrats.Formula.Tokenizer.{TokenType, Token, eof}
use contrats.Formula.Parser.{
  formula_max_depth, Cursor, cursor, first, after_first, peek, advance, enter, same_kind, has_kind,
  op_among,
}

-- The last token is the mark of the end, and no other is.
abbrev pub IsTerminated : List Token → Type 0
IsTerminated [] = ⊥
IsTerminated (t ∷ []) = t.kind ≡ eof
IsTerminated (t ∷ u ∷ ts) = (t.kind ≢ eof) × IsTerminated (u ∷ ts)

pub IsTerminated-cons :
    (t : Token) (ts : List Token) → t.kind ≢ eof → IsTerminated ts → IsTerminated (t ∷ ts)
IsTerminated-cons t [] k h = absurd h
IsTerminated-cons t (u ∷ ts) k h = (k, h)

-- A token of another kind is not the last one: `next` takes it off.
taken_off :
    (ts : List Token)
    → IsTerminated ts
    → (first ts).kind ≢ eof
    → (ts ≡ first ts ∷ after_first ts) × IsTerminated (after_first ts)
taken_off [] h k = absurd h
taken_off (t ∷ []) h k = absurd (k h)
taken_off (t ∷ u ∷ ts) h k = (refl, h.1)

-- The mark of the end is the last token.
pub IsTerminated-last :
    (ts : List Token) → IsTerminated ts → (first ts).kind ≡ eof → ts ≡ first ts ∷ []
IsTerminated-last [] h k = absurd h
IsTerminated-last (t ∷ []) h k = refl
IsTerminated-last (t ∷ u ∷ ts) h k = absurd (h.0 k)

op_among-kind :
    {O : Type 0} (table : Text → Option O) (t : Token) (o : O)
    → op_among table t ≡ some o
    → t.kind ≢ eof
op_among-kind table t o h e = ground (arith, h, e)

pub same_kind_sound : (a b : TokenType) → same_kind a b ≡ true → a ≡ b
same_kind_sound a b h = ground (arith, h)

-- From `s` to the cursor beside the tree the parser has read a form `R`.
pub record Reads {N : Type 0} (R : ℕ → N → List Token → Type 0) (s : Cursor) (out : N × Cursor)
    : Type 0 where
  pub consumed : List Token
  pub whole : s.tokens ≡ consumed ++ out.1.tokens
  pub form : R s.depth out.0 consumed
  pub same_depth : out.1.depth ≡ s.depth
  pub terminated : IsTerminated out.1.tokens
  pub shorter : length out.1.tokens < length s.tokens

-- The first token of the cursor is not the last.
pub record Takes (s : Cursor) : Type 0 where
  pub whole : s.tokens ≡ peek s ∷ (advance s).tokens
  pub terminated : IsTerminated (advance s).tokens
  pub shorter : suc (length (advance s).tokens) ≡ length s.tokens

takes : (s : Cursor) → IsTerminated s.tokens → (peek s).kind ≢ eof → Takes s
takes s h k =
    let (e, t) = taken_off s.tokens h k in
    record { whole = e; terminated = t; shorter = sym (ap length e) }

pub Takes-op :
    {O : Type 0} (table : Text → Option O) (s : Cursor) (o : O)
    → IsTerminated s.tokens
    → op_among table (peek s) ≡ some o
    → Takes s
Takes-op table s o h e = takes s h (op_among-kind table (peek s) o e)

pub Takes-kind :
    (kind : TokenType) (s : Cursor)
    → kind ≢ eof
    → IsTerminated s.tokens
    → has_kind kind (peek s) ≡ true
    → Takes s
Takes-kind kind s n h e = takes s h λ k. n (sym (same_kind_sound (peek s).kind kind e) ∙ k)

pub Yields-enter :
    {A : Type 0} {P : A → Type 0} (pos : ℕ) (s : Cursor) (f : Cursor → FormulaResult A)
    → (s.depth < formula_max_depth → Yields P (f (cursor s.tokens (s.depth + 1))))
    → Yields P (bind (enter pos s) f)
unfolding enter
Yields-enter pos s f h = elim (Bool-cases (ltb formula_max_depth (s.depth + 1))) [
  | inl e ↦ rw e throws
  | inr e ↦ rw e (h (ground (arith, e)))
]

pub at_depth :
    {N : Type 0} (R : ℕ → N → List Token → Type 0) {d e : ℕ} {n : N} {ts : List Token}
    → d ≡ e
    → R d n ts
    → R e n ts
at_depth R {n} {ts} p h = subst (λ d. R d n ts) p h

-- The depth of a form that lies one deeper, and of what is left past it.
pub deeper : {d e : ℕ} → e ≡ d → e + 1 ≡ suc d
deeper h = omega (arith, h)

pub one_deeper : {d e : ℕ} → e ≡ d + 1 → e ≡ suc d
one_deeper h = omega (arith, h)

pub left_depth : {d e : ℕ} → e ≡ d + 1 → e - 1 ≡ d
left_depth h = omega (arith, h)

pub left_last : {d e f : ℕ} → f ≡ e → e ≡ d + 1 → f - 1 ≡ d
left_last h k = omega (arith, h, k)

pub left_inner : {d e f : ℕ} → f ≡ e + 1 → e ≡ d → f - 1 ≡ d
left_inner h k = omega (arith, h, k)

-- A form, a token and a form after it.
pub joined :
    {M N K : Type 0} {Q : ℕ → M → List Token → Type 0} {R : ℕ → N → List Token → Type 0}
    {S : ℕ → K → List Token → Type 0} {s v : Cursor} {m : M} {n : N} {s1 u s2 : Cursor} (k : K)
    (s3 : Cursor) (q : Reads Q v (m, s1))
    → v.tokens ≡ s.tokens
    → Takes s1
    → u.tokens ≡ (advance s1).tokens
    → (r : Reads R u (n, s2)) → s3.tokens ≡ s2.tokens
    → s3.depth ≡ s.depth
    → S s.depth k (q.consumed ++ peek s1 ∷ r.consumed)
    → Reads S s (k, s3)
joined {s1} {s2} k s3 q e0 t e r e' d f = record {
  consumed = q.consumed ++ peek s1 ∷ r.consumed;
  whole =
      sym e0
      ∙ q.whole
      ∙ ap (λ x. q.consumed ++ x)
          (t.whole ∙ ap (λ x. peek s1 ∷ x) (sym e ∙ r.whole ∙ ap (λ x. r.consumed ++ x) (sym e')))
      ∙ sym (append_assoc q.consumed (peek s1 ∷ r.consumed) s3.tokens);
  form = f;
  same_depth = d;
  terminated = subst IsTerminated (sym e') r.terminated;
  shorter = omega (arith, q.shorter, r.shorter, t.shorter, ap length e0, ap length e, ap length e');
}

-- A token and a form after it.
pub prefixed :
    {N K : Type 0} {R : ℕ → N → List Token → Type 0} {S : ℕ → K → List Token → Type 0}
    {s u s2 : Cursor} {n : N} (k : K) (s3 : Cursor)
    → Takes s
    → u.tokens ≡ (advance s).tokens
    → (r : Reads R u (n, s2)) → s3.tokens ≡ s2.tokens
    → s3.depth ≡ s.depth
    → S s.depth k (peek s ∷ r.consumed)
    → Reads S s (k, s3)
prefixed {s} k s3 t e r e' d f = record {
  consumed = peek s ∷ r.consumed;
  whole = t.whole ∙ ap (λ x. peek s ∷ x) (sym e ∙ r.whole ∙ ap (λ x. r.consumed ++ x) (sym e'));
  form = f;
  same_depth = d;
  terminated = subst IsTerminated (sym e') r.terminated;
  shorter = omega (arith, r.shorter, t.shorter, ap length e, ap length e');
}

-- A form and a token after it.
pub closed :
    {N K : Type 0} {R : ℕ → N → List Token → Type 0} {S : ℕ → K → List Token → Type 0}
    {s s1 : Cursor} {n : N} {k : K} (r : Reads R s (n, s1))
    → Takes s1
    → S s.depth k (r.consumed ++ peek s1 ∷ [])
    → Reads S s (k, advance s1)
closed {s1} r t f = record {
  consumed = r.consumed ++ peek s1 ∷ [];
  whole =
      r.whole
      ∙ ap (λ x. r.consumed ++ x) t.whole
      ∙ sym (append_assoc r.consumed (peek s1 ∷ []) (advance s1).tokens);
  form = f;
  same_depth = r.same_depth;
  terminated = t.terminated;
  shorter = omega (arith, r.shorter, t.shorter);
}

-- A token alone.
pub single :
    {K : Type 0} {S : ℕ → K → List Token → Type 0} {s : Cursor} {k : K}
    → Takes s
    → S s.depth k (peek s ∷ [])
    → Reads S s (k, advance s)
single {s} t f = record {
  consumed = peek s ∷ [];
  whole = t.whole;
  form = f;
  same_depth = refl;
  terminated = t.terminated;
  shorter = omega (arith, t.shorter);
}

-- The same tokens, read as another form.
pub as_form :
    {N K : Type 0} {R : ℕ → N → List Token → Type 0} {S : ℕ → K → List Token → Type 0}
    {s u s1 : Cursor} {n : N} (k : K) (s2 : Cursor) (r : Reads R u (n, s1))
    → u.tokens ≡ s.tokens
    → s2.tokens ≡ s1.tokens
    → s2.depth ≡ s.depth
    → S s.depth k r.consumed
    → Reads S s (k, s2)
as_form k s2 r e e' d f = record {
  consumed = r.consumed;
  whole = sym e ∙ r.whole ∙ ap (λ x. r.consumed ++ x) (sym e');
  form = f;
  same_depth = d;
  terminated = subst IsTerminated (sym e') r.terminated;
  shorter = omega (arith, r.shorter, ap length e, ap length e');
}

-- A token, a form and a token.
pub around :
    {N K : Type 0} {R : ℕ → N → List Token → Type 0} {S : ℕ → K → List Token → Type 0}
    {s s1 : Cursor} {n : N} {k : K}
    → Takes s
    → (r : Reads R (advance s) (n, s1)) → Takes s1
    → S s.depth k (peek s ∷ r.consumed ++ peek s1 ∷ [])
    → Reads S s (k, advance s1)
around {s} {s1} t r u f = record {
  consumed = peek s ∷ r.consumed ++ peek s1 ∷ [];
  whole =
      t.whole
      ∙ ap (λ x. peek s ∷ x)
          (r.whole
            ∙ ap (λ x. r.consumed ++ x) u.whole
            ∙ sym (append_assoc r.consumed (peek s1 ∷ []) (advance s1).tokens));
  form = f;
  same_depth = r.same_depth;
  terminated = u.terminated;
  shorter = omega (arith, r.shorter, t.shorter, u.shorter);
}

-- Two tokens and a form after them.
pub prefixed_twice :
    {N K : Type 0} {R : ℕ → N → List Token → Type 0} {S : ℕ → K → List Token → Type 0}
    {s s1 : Cursor} {n : N} {k : K}
    → Takes s
    → Takes (advance s)
    → (r : Reads R (advance (advance s)) (n, s1))
    → S s.depth k (peek s ∷ peek (advance s) ∷ r.consumed)
    → Reads S s (k, s1)
prefixed_twice {s} t u r f = record {
  consumed = peek s ∷ peek (advance s) ∷ r.consumed;
  whole = t.whole ∙ ap (λ x. peek s ∷ x) (u.whole ∙ ap (λ x. peek (advance s) ∷ x) r.whole);
  form = f;
  same_depth = r.same_depth;
  terminated = r.terminated;
  shorter = omega (arith, r.shorter, t.shorter, u.shorter);
}
