-- ===== src/GridCode/RoundTrip.antt =====
-- The codes of packages/domain/src/price-grid/price-grid.ts and the numbers of
-- packages/domain/src/proposal/numbering.ts, written and read.
use mathlib.Core.List.{append_assoc, append-nil}
use contrats.Base.{
  ℕ, ◌≤◌, Bool, true, false, ◌&&◌, ◌==◌, ltb, leb, Option, none, some, some-injective, [], ◌∷◌,
  ◌++◌, length, All, ◌≡◌, refl, sym, ap, ◌∙◌, arith, Bool-cases, inl, inr, if◌then◌else◌,
}
use contrats.Base.Text.{Text, is_empty}
use contrats.Base.Decimal.{
  is_decimal_digit, AreDigits, to_text, to_number, pad_start, run_of, after_run, Stops,
  run_of-append, run_of-All, to_text-AreDigits, to_number-to_text, pad_start-AreDigits,
  to_number-pad_start, length-pad_start, length-to_text_four, length-to_text_two,
}
use contrats.Base.Result.{ok, ◌>>=◌}
use contrats.GridCode.{
  is_prefix_char, is_valid_prefix, max_commitment_months, commitment_suffix, format_grid_item_code,
  format_grid_variant_code, ParsedGridCode, match_months, parsed_code, parse_after_prefix,
  parse_grid_code, switch_parsed, switch_variant_code, format_proposal_number, parse_sequence,
  parse_proposal_number, proposal_mark,
}

whole_run :
    (test : ℕ → Bool) (s : Text)
    → is_empty (after_run test s) ≡ true
    → (run_of test s ≡ s) × All (λ c. test c ≡ true) s
unfolding run_of after_run
whole_run test [] h = (refl, tt)
whole_run test (c ∷ s) h = elim (Bool-cases (test c)) [
  | inl e ↦
      let (same, all) = whole_run test s (rw e at h) in rw e (ap (λ x. c ∷ x) same, (refl, all))
  | inr e ↦ absurd (ground (arith, rw e at h))
]

record IsPrefix (p : Text) : Type 0 where
  chars : All (λ c. is_prefix_char c ≡ true) p
  long_enough : 2 ≤ length p
  short_enough : length p ≤ 6

is_valid_prefix-IsPrefix : (p : Text) → is_valid_prefix p ≡ true → IsPrefix p
unfolding is_valid_prefix
is_valid_prefix-IsPrefix p h =
    let (same, all) = whole_run is_prefix_char p (ground (arith, h)) in
    record {
      chars = all;
      long_enough = ground (arith, rw same at h);
      short_enough = ground (arith, rw same at h);
    }

abbrev code_of : Text → Text → Option ℕ → ParsedGridCode
code_of p num months = record {
  prefix = p;
  number = to_number num;
  item_code = p ++ 45 ∷ num;
  months = months;
}

parse_parts :
    (p num tail : Text) (months : Option ℕ)
    → IsPrefix p
    → AreDigits num
    → 4 ≤ length num
    → 1 ≤ to_number num
    → Stops is_decimal_digit tail
    → match_months tail ≡ some months
    → parse_grid_code (p ++ 45 ∷ (num ++ tail)) ≡ some (code_of p num months)
unfolding parse_grid_code parse_after_prefix
parse_parts p num tail months v digits long positive stops matches =
    let (run, rest) = run_of-append is_prefix_char p (45 ∷ (num ++ tail)) v.chars refl in
    let (run', rest') = run_of-append is_decimal_digit num tail digits stops in
    rw (run, rest, run', rest', matches)
      (ground (arith, v.long_enough, v.short_enough, long, positive))

two_of : (s : Text) → length s ≡ 2 → (a : ℕ) × (b : ℕ) × (s ≡ a ∷ b ∷ [])
two_of [] h = absurd (omega (arith, h))
two_of (a ∷ []) h = absurd (omega (arith, h))
two_of (a ∷ b ∷ []) h = (a, b, refl)
two_of (a ∷ b ∷ c ∷ s) h = absurd (omega (arith, h))

four_of :
    (s : Text) → length s ≡ 4 → (a : ℕ) × (b : ℕ) × (c : ℕ) × (d : ℕ) × (s ≡ a ∷ b ∷ c ∷ d ∷ [])
four_of [] h = absurd (omega (arith, h))
four_of (a ∷ []) h = absurd (omega (arith, h))
four_of (a ∷ b ∷ []) h = absurd (omega (arith, h))
four_of (a ∷ b ∷ c ∷ []) h = absurd (omega (arith, h))
four_of (a ∷ b ∷ c ∷ d ∷ []) h = (a, b, c, d, refl)
four_of (a ∷ b ∷ c ∷ d ∷ e ∷ s) h = absurd (omega (arith, h))

match_months-pad_start :
    (months : ℕ)
    → months ≤ max_commitment_months
    → match_months (45 ∷ 69 ∷ pad_start 2 (to_text months)) ≡ some (some months)
unfolding match_months
match_months-pad_start months h =
    let long =
      (length-pad_start 2 (to_text months)).1 (length-to_text_two months (omega (arith, h))) in
    let (a, b, e) = two_of (pad_start 2 (to_text months)) long in
    let digits : AreDigits (a ∷ b ∷ []) = rw e at (pad_start-AreDigits 2 months) in
    let value : to_number (a ∷ b ∷ []) ≡ months = rw e at (to_number-pad_start 2 months) in
    rw e (rw (digits.0, digits.1.0, value) refl)

not_above : (months : ℕ) → months ≤ max_commitment_months → ltb max_commitment_months months ≡ false
not_above months h = ground (arith, h)

passed :
    (test : Bool) (r : Option ParsedGridCode) (q : ParsedGridCode)
    → (if test then r else none) ≡ some q
    → (test ≡ true) × (r ≡ some q)
passed true r q h = (refl, h)
passed false r q h = cc

above_zero :
    (n : ℕ) (p q : ParsedGridCode) → (if ltb n 1 then none else some p) ≡ some q → (1 ≤ n) × (p ≡ q)
above_zero n p q h = elim (Bool-cases (ltb n 1)) [
  | inl e ↦ absurd (ground (arith, h, e))
  | inr e ↦ (ground (arith, e), some-injective (rw e at h))
]

-- What is written after a code of a line, and read back.
variant_of :
    (p num : Text) (months : ℕ)
    → IsPrefix p
    → AreDigits num
    → 4 ≤ length num
    → 1 ≤ to_number num
    → months ≤ max_commitment_months
    → (code : Text) × (format_grid_variant_code (p ++ 45 ∷ num) months ≡ ok code)
      × (parse_grid_code code ≡ some (code_of p num (some months)))
unfolding format_grid_variant_code commitment_suffix
variant_of p num months v digits long positive h =
    let tail = 45 ∷ 69 ∷ pad_start 2 (to_text months) in
    (
      (p ++ 45 ∷ num) ++ tail,
      rw (not_above months h) refl,
      rw (append_assoc p (45 ∷ num) tail) (
          parse_parts p num tail (some months) v digits long positive refl
            (match_months-pad_start months h)),
    )

-- For a valid prefix, a number from 1 on and a commitment of at most 99 months, the code of the line
-- and that of its version can be written, and each is read back as the prefix, the number and, for the
-- version, the months that it was written from.
pub parse_grid_code-format_grid_variant_code :
    (prefix : Text) (n months : ℕ)
    → is_valid_prefix prefix ≡ true
    → 1 ≤ n
    → months ≤ max_commitment_months
    → (item code : Text) × (format_grid_item_code prefix n ≡ ok item)
      × (parse_grid_code item
          ≡ some (record { prefix = prefix; number = n; item_code = item; months = none }))
      × (format_grid_variant_code item months ≡ ok code)
      × (parse_grid_code code
          ≡ some (record { prefix = prefix; number = n; item_code = item; months = some months }))
unfolding format_grid_item_code match_months
parse_grid_code-format_grid_variant_code prefix n months valid h k =
    let v = is_valid_prefix-IsPrefix prefix valid in
    let num = pad_start 4 (to_text n) in
    let long = (length-pad_start 4 (to_text n)).0 in
    let value : to_number num ≡ n = to_number-pad_start 4 n in
    let (code, written, read) =
      variant_of prefix num months v (pad_start-AreDigits 4 n) long (omega (arith, value, h)) k in
    (
      prefix ++ 45 ∷ num,
      code,
      ground (arith, valid, h),
      rw (append-nil num, value) at
          (parse_parts prefix num [] none v (pad_start-AreDigits 4 n) long (omega (arith, value, h))
            tt refl),
      written,
      rw value at read,
    )

-- The parts that a code was read from.
record IsCode (q : ParsedGridCode) : Type 0 where
  prefix : Text
  num : Text
  valid : IsPrefix prefix
  digits : AreDigits num
  long : 4 ≤ length num
  positive : 1 ≤ to_number num
  prefix_is : q.prefix ≡ prefix
  number_is : q.number ≡ to_number num
  item_is : q.item_code ≡ prefix ++ 45 ∷ num

parsed_code-IsCode :
    (p num : Text) (m : Option (Option ℕ)) (q : ParsedGridCode)
    → IsPrefix p
    → AreDigits num
    → 4 ≤ length num
    → parsed_code p num m ≡ some q
    → IsCode q
parsed_code-IsCode p num none q v d long h = cc
parsed_code-IsCode p num (some months) q v d long h =
    let (positive, e) = above_zero (to_number num) _ q h in
    record {
      prefix = p;
      num = num;
      valid = v;
      digits = d;
      long = long;
      positive = positive;
      prefix_is = ap (λ x. x.prefix) (sym e);
      number_is = ap (λ x. x.number) (sym e);
      item_is = ap (λ x. x.item_code) (sym e);
    }

parse_after_prefix-IsCode :
    (p s : Text) (q : ParsedGridCode) → IsPrefix p → parse_after_prefix p s ≡ some q → IsCode q
unfolding parse_after_prefix
parse_after_prefix-IsCode p [] q v h = cc
parse_after_prefix-IsCode p (c ∷ s) q v h =
    let (tests, e) = passed (c == 45 && leb 4 (length (run_of is_decimal_digit s))) _ q h in
    parsed_code-IsCode p (run_of is_decimal_digit s) (match_months (after_run is_decimal_digit s)) q
      v (run_of-All is_decimal_digit s) (ground (arith, tests)) e

parse_grid_code-IsCode :
    (code : Text) (q : ParsedGridCode) → parse_grid_code code ≡ some q → IsCode q
unfolding parse_grid_code
parse_grid_code-IsCode code q h =
    let p = run_of is_prefix_char code in
    let (tests, e) = passed (leb 2 (length p) && leb (length p) 6) _ q h in
    parse_after_prefix-IsCode p (after_run is_prefix_char code) q
      (record {
        chars = run_of-All is_prefix_char code;
        long_enough = ground (arith, tests);
        short_enough = ground (arith, tests);
      })
      e

switch_parsed-ok :
    (switched : Text) (months : ℕ) (q : ParsedGridCode)
    → format_grid_variant_code q.item_code months ≡ ok switched
    → switch_parsed (some q) months ≡ ok (some switched)
unfolding switch_parsed
switch_parsed-ok switched months q f = ap (λ r. r >>= λ c. ok (some c)) f

switch_variant_code-ok :
    (code switched : Text) (months : ℕ) (q : ParsedGridCode)
    → parse_grid_code code ≡ some q
    → format_grid_variant_code q.item_code months ≡ ok switched
    → switch_variant_code code months ≡ ok (some switched)
unfolding switch_variant_code
switch_variant_code-ok code switched months q e f =
    ap (λ r. switch_parsed r months) e ∙ switch_parsed-ok switched months q f

same_code :
    (q : ParsedGridCode) (p num : Text) (months : ℕ)
    → q.prefix ≡ p
    → q.number ≡ to_number num
    → q.item_code ≡ p ++ 45 ∷ num
    → code_of p num (some months) ≡ record q { months = some months }
same_code q p num months e f g = rw (e, f, g) refl

-- A grid code switched to another commitment of at most 99 months is the code of the same line, with
-- the same prefix and number, and with those months.
pub switch_variant_code-IsVariant :
    (code : Text) (months : ℕ) (q : ParsedGridCode)
    → parse_grid_code code ≡ some q
    → months ≤ max_commitment_months
    → (switched : Text) × (switch_variant_code code months ≡ ok (some switched))
      × (parse_grid_code switched ≡ some (record q { months = some months }))
switch_variant_code-IsVariant code months q e h =
    let c = parse_grid_code-IsCode code q e in
    let (switched, written, read) =
      variant_of c.prefix c.num months c.valid c.digits c.long c.positive h in
    (
      switched,
      switch_variant_code-ok code switched months q e
          (ap (λ x. format_grid_variant_code x months) c.item_is ∙ written),
      read ∙ ap some (same_code q c.prefix c.num months c.prefix_is c.number_is c.item_is),
    )

-- The number of a proposal of a year from 2000 to 9999, with a sequence from 1 on, can be written, and
-- is read back as this year and this sequence.
pub parse_proposal_number-format_proposal_number :
    (year sequence : ℕ)
    → 2000 ≤ year
    → year ≤ 9999
    → 1 ≤ sequence
    → (number : Text) × (format_proposal_number year sequence ≡ ok number)
      × (parse_proposal_number number ≡ some (record { year = year; sequence = sequence }))
unfolding format_proposal_number parse_proposal_number parse_sequence
parse_proposal_number-format_proposal_number year sequence h k l =
    let num = pad_start 4 (to_text sequence) in
    let (a, b, c, d, e) =
      four_of (to_text year) (length-to_text_four year (omega (arith, h)) (omega (arith, k))) in
    let digits : AreDigits (a ∷ b ∷ c ∷ d ∷ []) = rw e at (to_text-AreDigits year) in
    let value : to_number (a ∷ b ∷ c ∷ d ∷ []) ≡ year = rw e at (to_number-to_text year) in
    let (run, rest) = run_of-append is_decimal_digit num [] (pad_start-AreDigits 4 sequence) tt in
    let run' : run_of is_decimal_digit num ≡ num = rw append-nil at run in
    let rest' : after_run is_decimal_digit num ≡ [] = rw append-nil at rest in
    (
      proposal_mark ++ (a ∷ b ∷ c ∷ d ∷ []) ++ 45 ∷ num,
      ground (arith, h, k, l, e),
      rw (digits.0, digits.1.0, digits.1.1.0, digits.1.1.1.0, value, run', rest')
          (rw (to_number-pad_start 4 sequence)
            (ground (arith, length-pad_start 4 (to_text sequence)))),
    )
