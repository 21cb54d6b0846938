-- ===== src/Formula/Outcome.antt =====
-- packages/pricing/src/errors.ts: the errors of a formula, and the outcome of a run.
use mathlib.Core.Path.{subst}
use contrats.Base.{ℕ, Bool, true, false, Option, none, some, ◌≡◌, refl, if◌then◌else◌}
use contrats.Base.Text.{Text}

-- The codes that the analysis and the evaluation of a formula throw.
pub data FormulaErrorCode : Type 0 where
  formula_syntax formula_limit formula_unknown_variable formula_unknown_function formula_arity
        formula_evaluation division_by_zero :
      FormulaErrorCode

-- The code, the position and the name of the details; the message is for a reader only.
pub record FormulaError : Type 0 where
  pub code : FormulaErrorCode
  pub position : Option ℕ
  pub name : Option Text

-- `failed` is a `FormulaError` thrown; a loop of the model that has used up its fuel is `out_of_fuel`.
pub data FormulaResult (A : Type 0) : Type 0 where
  done : A → FormulaResult A
  failed : FormulaError → FormulaResult A
  out_of_fuel : FormulaResult A

abbrev pub bind : {T U : Type 0} → FormulaResult T → (T → FormulaResult U) → FormulaResult U
bind (failed e) next = failed e
bind (done value) next = next value
bind out_of_fuel next = out_of_fuel

-- The loops of the run ended, and `Q` is true of the value that it gave, if it gave one.
pub data Yields {V : Type 0} (Q : V → Type 0) : FormulaResult V → Type 0 where
  throws : {e : FormulaError} → Yields Q (failed e)
  gives : {v : V} → Q v → Yields Q (done v)

module _ {A : Type 0} {P : A → Type 0} where
  pub Yields-map :
      {Q : A → Type 0} {r : FormulaResult A} → Yields P r → ((a : A) → P a → Q a) → Yields Q r
  Yields-map (gives {v} h) k = gives (k v h)
  Yields-map throws k = throws

  pub Yields-if :
      (test : Bool) {r s : FormulaResult A}
      → (test ≡ true → Yields P r)
      → (test ≡ false → Yields P s)
      → Yields P (if test then r else s)
  Yields-if true on_true on_false = on_true refl
  Yields-if false on_true on_false = on_false refl

  pub Yields-option :
      {O : Type 0} (o : Option O) {x : FormulaResult A} {f : O → FormulaResult A}
      → (o ≡ none → Yields P x)
      → ((a : O) → o ≡ some a → Yields P (f a))
      → Yields P (elim o [ none ↦ x | some a ↦ f a ])
  Yields-option none hx hf = hx refl
  Yields-option (some a) hx hf = hf a refl

  pub Yields-done : {run : FormulaResult A} {v : A} → Yields P run → run ≡ done v → P v
  Yields-done throws e = cc
  Yields-done (gives {v} h) e = subst P (cc) h

  pub Yields-bind :
      {B : Type 0} {Q : B → Type 0} {run : FormulaResult A} {next : A → FormulaResult B}
      → Yields P run
      → ((v : A) → P v → Yields Q (next v))
      → Yields Q (bind run next)
  Yields-bind throws k = throws
  Yields-bind (gives {v} h) k = k v h

-- What a run that answers says of its steps.
pub bind-steps :
    {A B : Type 0} (r : FormulaResult A) (f : A → FormulaResult B) {b : B}
    → bind r f ≡ done b
    → (a : A) × ((r ≡ done a) × (f a ≡ done b))
bind-steps (done a) f h = (a, (refl, h))
bind-steps (failed e) f h = cc
bind-steps out_of_fuel f h = cc

pub refused-steps :
    {A : Type 0} (test : Bool) (e : FormulaError) (r : FormulaResult A) {a : A}
    → (if test then failed e else r) ≡ done a
    → (test ≡ false) × (r ≡ done a)
refused-steps true e r h = cc
refused-steps false e r h = (refl, h)

pub done-injective : {A : Type 0} {a b : A} → ◌≡◌ {A = FormulaResult A} (done a) (done b) → a ≡ b
done-injective h = cc
