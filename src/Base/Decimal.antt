-- ===== src/Base/Decimal.antt =====
-- `String(n)`, `padStart`, `Number(text)` and the runs of a regular expression, on natural numbers
-- below 2 ^ 53, which a `number` holds exactly.
use Prim.Native.Nat.{ℕ, zero, suc, ◌+◌, ◌-◌, ◌*◌, ◌/◌, ◌%◌, ◌≤◌, ◌<◌}
use mathlib.Core.Path.{◌≡◌, refl, ap, ◌∙◌}
use mathlib.Core.Bool.{Bool, true, false, ◌&&◌}
use mathlib.Core.List.{[], ◌∷◌, ◌++◌}
use native.Mathlib.Omega.{arith}
use mathlib.Core.Logic.{inl, inr}
use contrats.Base.Tests.{ltb, leb, if◌then◌else◌, Bool-cases}
use contrats.Base.Lists.{length, length-append, All, All-append}
use contrats.Base.Text.{Text}

abbrev pub is_decimal_digit : ℕ → Bool
is_decimal_digit c = leb 48 c && leb c 57

abbrev pub AreDigits : Text → Type 0
AreDigits s = All (λ c. is_decimal_digit c ≡ true) s

-- `String(n)`, with fuel for its digits.
unfoldable pub digits_from : ℕ → ℕ → Text
digits_from zero n = []
digits_from (suc fuel) n =
    let rest = digits_from fuel (n / 10) in
    if ltb n 10 then (48 + n) ∷ [] else rest ++ (48 + n % 10) ∷ []

unfoldable pub to_text : ℕ → Text
unfolding digits_from
to_text n = digits_from (n + 1) n

-- `Number(text)` of a text of digits.
abbrev pub number_from : ℕ → Text → ℕ
number_from n [] = n
number_from n (c ∷ s) = number_from (10 * n + (c - 48)) s

abbrev pub to_number : Text → ℕ
to_number s = number_from 0 s

abbrev pub zeros : ℕ → Text
zeros zero = []
zeros (suc n) = 48 ∷ zeros n

-- `s.padStart(width, '0')`
abbrev pub pad_start : ℕ → Text → Text
pad_start width s = zeros (width - length s) ++ s

-- What a class of characters of a regular expression matches greedily, and what is left.
unfoldable pub run_of : (ℕ → Bool) → Text → Text
run_of test [] = []
run_of test (c ∷ s) = let more = run_of test s in if test c then c ∷ more else []

unfoldable pub after_run : (ℕ → Bool) → Text → Text
after_run test [] = []
after_run test (c ∷ s) = let more = after_run test s in if test c then more else c ∷ s

-- A run ends at the end of the text or at a character of another class.
abbrev pub Stops : (ℕ → Bool) → Text → Type 0
Stops test [] = Unit
Stops test (c ∷ s) = test c ≡ false

pub run_of-append :
    (test : ℕ → Bool) (s t : Text)
    → All (λ c. test c ≡ true) s
    → Stops test t
    → (run_of test (s ++ t) ≡ s) × (after_run test (s ++ t) ≡ t)
unfolding run_of after_run
run_of-append test [] [] h k = (refl, refl)
run_of-append test [] (c ∷ t) h k = rw k (refl, refl)
run_of-append test (c ∷ s) t h k =
    let (taken, rest) = run_of-append test s t h.1 k in rw h.0 (ap (λ x. c ∷ x) taken, rest)

pub run_of-All : (test : ℕ → Bool) (s : Text) → All (λ c. test c ≡ true) (run_of test s)
unfolding run_of
run_of-All test [] = tt
run_of-All test (c ∷ s) = elim (Bool-cases (test c)) [
  | inl e ↦ rw e (e, run_of-All test s)
  | inr e ↦ rw e tt
]

number_from-append : (n : ℕ) (s t : Text) → number_from n (s ++ t) ≡ number_from (number_from n s) t
number_from-append n [] t = refl
number_from-append n (c ∷ s) t = number_from-append (10 * n + (c - 48)) s t

number_from-zeros : (k : ℕ) (s : Text) → number_from 0 (zeros k ++ s) ≡ number_from 0 s
number_from-zeros zero s = refl
number_from-zeros (suc k) s = number_from-zeros k s

number_from-digits : (fuel n : ℕ) → n < fuel → number_from 0 (digits_from fuel n) ≡ n
unfolding digits_from
number_from-digits zero n h = absurd (omega arith)
number_from-digits (suc fuel) n h = elim (Bool-cases (ltb n 10)) [
  | inl e ↦ rw e (ground (arith, e))
  | inr e ↦ rw e (
      number_from-append 0 (digits_from fuel (n / 10)) ((48 + n % 10) ∷ [])
      ∙ ap (λ m. 10 * m + (48 + n % 10 - 48)) (number_from-digits fuel (n / 10) (ground (arith, e)))
      ∙ omega arith)
]

digits_from-AreDigits : (fuel n : ℕ) → AreDigits (digits_from fuel n)
unfolding digits_from
digits_from-AreDigits zero n = tt
digits_from-AreDigits (suc fuel) n = elim (Bool-cases (ltb n 10)) [
  | inl e ↦ rw e (ground (arith, e), tt)
  | inr e ↦ rw e (
      All-append (λ c. is_decimal_digit c ≡ true) (digits_from fuel (n / 10)) ((48 + n % 10) ∷ [])
        (digits_from-AreDigits fuel (n / 10)) (ground arith, tt))
]

-- The number of digits, by the power of ten that is above the number.
length-digits_from :
    (fuel n : ℕ)
    → n < fuel
    → (n < 10 → length (digits_from fuel n) ≡ 1)
      × (10 ≤ n → n < 100 → length (digits_from fuel n) ≡ 2)
      × (100 ≤ n → n < 1000 → length (digits_from fuel n) ≡ 3)
      × (1000 ≤ n → n < 10000 → length (digits_from fuel n) ≡ 4)
unfolding digits_from
length-digits_from zero n h = absurd (omega arith)
length-digits_from (suc fuel) n h = elim (Bool-cases (ltb n 10)) [
  | inl e ↦ rw e (ground (arith, e))
  | inr e ↦
      rw (e, length-append (digits_from fuel (n / 10)) ((48 + n % 10) ∷ []))
        (ground (arith, e, length-digits_from fuel (n / 10)))
]

zeros-AreDigits : (k : ℕ) → AreDigits (zeros k)
zeros-AreDigits zero = tt
zeros-AreDigits (suc k) = (refl, zeros-AreDigits k)

length-zeros : (k : ℕ) → length (zeros k) ≡ k
length-zeros zero = refl
length-zeros (suc k) = omega (arith, length-zeros k)

pub to_text-AreDigits : (n : ℕ) → AreDigits (to_text n)
unfolding to_text
to_text-AreDigits n = digits_from-AreDigits (n + 1) n

pub to_number-to_text : (n : ℕ) → to_number (to_text n) ≡ n
unfolding to_text
to_number-to_text n = number_from-digits (n + 1) n (omega arith)

pub pad_start-AreDigits : (width n : ℕ) → AreDigits (pad_start width (to_text n))
pad_start-AreDigits width n =
    All-append (λ c. is_decimal_digit c ≡ true) (zeros (width - length (to_text n))) (to_text n)
      (zeros-AreDigits (width - length (to_text n))) (to_text-AreDigits n)

pub to_number-pad_start : (width n : ℕ) → to_number (pad_start width (to_text n)) ≡ n
to_number-pad_start width n =
    number_from-zeros (width - length (to_text n)) (to_text n) ∙ to_number-to_text n

pub length-pad_start :
    (width : ℕ) (s : Text)
    → (width ≤ length (pad_start width s)) × (length s ≤ width → length (pad_start width s) ≡ width)
length-pad_start width s =
    rw (length-append (zeros (width - length s)) s, length-zeros (width - length s))
      (omega arith, λ h. omega arith)

pub length-to_text_four : (n : ℕ) → 1000 ≤ n → n < 10000 → length (to_text n) ≡ 4
unfolding to_text
length-to_text_four n h k =
    let (one, two, three, four) = length-digits_from (n + 1) n (omega arith) in four h k

pub length-to_text_two : (n : ℕ) → n < 100 → length (to_text n) ≤ 2
unfolding to_text
length-to_text_two n h = ground (arith, length-digits_from (n + 1) n)
