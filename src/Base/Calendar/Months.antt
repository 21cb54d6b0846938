-- ===== src/Base/Calendar/Months.antt =====
-- The calendar goes both ways: a day has one month and one place in it.
use Prim.Native.Nat.{ℕ, suc, ◌+◌, ◌-◌, ◌*◌, ◌/◌, ◌%◌, ◌≤◌, ◌<◌}
use mathlib.Core.Path.{◌≡◌, refl, sym, ap, subst, ◌∙◌}
use mathlib.Core.Bool.{Bool, true, false}
use native.Mathlib.Omega.{arith}
use native.Mathlib.Decide.{dec_lt, le_ind}
use native.Mathlib.Nat.{le_refl}
use native.Mathlib.Numerals.{add-one}
use contrats.Base.Calendar.{
  is_leap_year, days_before_year, year_of, days_before_month, month_length, month_in, first_day,
  length_of_month, month_of_day,
}

abbrev year_length : Bool → ℕ
year_length true = 366
year_length false = 365

days_before_year-suc :
    (y : ℕ) → days_before_year (y + 1) ≡ days_before_year y + year_length (is_leap_year y)
unfolding days_before_year is_leap_year
days_before_year-suc y = ground arith

days_before_year_mono : (y z : ℕ) → y ≤ z → days_before_year y ≤ days_before_year z
unfolding days_before_year
days_before_year_mono y z h = omega arith

year_of_bounds :
    (n : ℕ) → (days_before_year (year_of n) ≤ n) × (n < days_before_year (year_of n + 1))
unfolding year_of days_before_year
year_of_bounds n = ground arith

month_in_bounds :
    (leap : Bool) (r : ℕ)
    → r < year_length leap
    → (month_in leap r < 12)
      × (days_before_month leap (month_in leap r) ≤ r)
      × (r < days_before_month leap (month_in leap r) + month_length leap (month_in leap r))
unfolding month_in days_before_month month_length
month_in_bounds true r h = ground arith
month_in_bounds false r h = ground arith

-- The bounds of the month that a day falls in.
abbrev pub IsMonthOf : ℕ → ℕ → Type 0
IsMonthOf m n = (first_day m ≤ n) × (n < first_day m + length_of_month m)

year_at : (y r : ℕ) → r < 12 → (12 * y + r) / 12 ≡ y
year_at y r h = omega arith

month_at : (y r : ℕ) → r < 12 → (12 * y + r) % 12 ≡ r
month_at y r h = omega arith

first_day_at :
    (y r : ℕ)
    → r < 12
    → (first_day (12 * y + r) ≡ days_before_year y + days_before_month (is_leap_year y) r)
      × (length_of_month (12 * y + r) ≡ month_length (is_leap_year y) r)
unfolding first_day length_of_month
first_day_at y r h = rw (year_at y r h, month_at y r h) (refl, refl)

pub month_of_day-IsMonthOf : (n : ℕ) → IsMonthOf (month_of_day n) n
unfolding month_of_day
month_of_day-IsMonthOf n =
    let y = year_of n in
    let r = n - days_before_year y in
    let (start, end) = year_of_bounds n in
    let (small, from, below) =
      month_in_bounds (is_leap_year y) r (omega (arith, days_before_year-suc y)) in
    let (first, length) = first_day_at y (month_in (is_leap_year y) r) small in
    rw (first, length) (omega arith, omega arith)

month_step :
    (leap : Bool) (r : ℕ)
    → r < 11
    → days_before_month leap (r + 1) ≡ days_before_month leap r + month_length leap r
unfolding days_before_month month_length
month_step true r h = ground arith
month_step false r h = ground arith

last_month : (leap : Bool) → days_before_month leap 11 + month_length leap 11 ≡ year_length leap
unfolding days_before_month month_length
last_month true = refl
last_month false = refl

january : (leap : Bool) → days_before_month leap 0 ≡ 0
unfolding days_before_month
january leap = refl

december :
    (leap : Bool) (r : ℕ)
    → r ≡ 11
    → days_before_month leap r + month_length leap r ≡ year_length leap
december leap r e = rw e (last_month leap)

next_in_year : (y r : ℕ) → 12 * y + r + 1 ≡ 12 * y + (r + 1)
next_in_year y r = omega arith

next_year : (y r : ℕ) → r ≡ 11 → 12 * y + r + 1 ≡ 12 * (y + 1) + 0
next_year y r e = omega arith

first_day_step :
    (y r : ℕ)
    → r < 12
    → first_day (12 * y + r + 1) ≡ first_day (12 * y + r) + length_of_month (12 * y + r)
first_day_step y r h = elim (dec_lt r 11) [
  | yes inside ↦
      ap first_day (next_in_year y r)
      ∙ (first_day_at y (r + 1) (omega arith)).0
      ∙ omega (arith, month_step (is_leap_year y) r inside, first_day_at y r h)
  | no last ↦
      ap first_day (next_year y r (omega arith))
      ∙ (first_day_at (y + 1) 0 (omega arith)).0
      ∙ omega (
        arith,
        january (is_leap_year (y + 1)),
        days_before_year-suc y,
        first_day_at y r h,
        december (is_leap_year y) r (omega arith),
      )
]

pub first_day-suc : (m : ℕ) → first_day (m + 1) ≡ first_day m + length_of_month m
first_day-suc m =
    let e : 12 * (m / 12) + m % 12 ≡ m = omega arith in
    ap (λ x. first_day (x + 1)) (sym e)
    ∙ first_day_step (m / 12) (m % 12) (omega arith)
    ∙ ap (λ x. first_day x + length_of_month x) e

suc_day : (k : ℕ) → first_day k ≤ first_day (suc k)
suc_day k = subst (λ n. first_day k ≤ first_day n) (add-one k) (omega (arith, first_day-suc k))

pub first_day_mono : (m n : ℕ) → m ≤ n → first_day m ≤ first_day n
first_day_mono m n h =
    le_ind (λ k. first_day m ≤ first_day k) (le_refl _) (λ k le ih. omega (arith, suc_day k)) n h

-- A day has one month only.
pub month_unique : (m n d : ℕ) → IsMonthOf m d → IsMonthOf n d → m ≡ n
month_unique m n d h k = elim (dec_lt m n) [
  | yes less ↦ absurd (omega (arith, first_day-suc m, first_day_mono (m + 1) n (omega arith)))
  | no not_less ↦ elim (dec_lt n m) [
    | yes more ↦ absurd (omega (arith, first_day-suc n, first_day_mono (n + 1) m (omega arith)))
    | no not_more ↦ omega arith
  ]
]

pub month_of_day_at : (m d : ℕ) → IsMonthOf m d → month_of_day d ≡ m
month_of_day_at m d h = month_unique (month_of_day d) m d (month_of_day-IsMonthOf d) h
