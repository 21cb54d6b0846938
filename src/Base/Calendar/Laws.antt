-- ===== src/Base/Calendar/Laws.antt =====
-- The dates of `Date.UTC`, read back, and the days of a month.
use Prim.Native.Nat.{ℕ, ◌+◌, ◌-◌, ◌*◌, ◌/◌, ◌%◌, ◌≤◌}
use mathlib.Core.Path.{◌≡◌, ap, ◌∙◌}
use native.Mathlib.Omega.{arith}
use native.Mathlib.Nat.{le_refl}
use contrats.Base.Instant.{midnight, day_of}
use contrats.Base.Int.{ℤ, pos}
use contrats.Base.Calendar.{
  first_date, month_length, first_day, length_of_month, month_of_day, month_index, year, month,
  date_of, in_month, shift, full_year, utc,
}
use contrats.Base.Calendar.Months.{
  first_day-suc, first_day_mono, month_of_day_at, month_of_day-IsMonthOf,
}

-- The days of the months that a `Date` holds in full, from May -271821 on.
abbrev pub first_month : ℕ
first_month = 2152

first_month_start : first_date ≤ first_day first_month
unfolding first_day
first_month_start = omega arith

pub day_of-midnight : (d : ℕ) → day_of (midnight d) ≡ d
day_of-midnight d = omega arith

pub first_date_le : (m : ℕ) → first_month ≤ m → first_date ≤ first_day m
first_date_le m h = omega (arith, first_month_start, first_day_mono first_month m h)

-- A date that its month has, read back.
pub in_month_day :
    (m d : ℕ) → first_month ≤ m → 1 ≤ d → day_of (in_month m d) + first_date ≡ first_day m + d - 1
unfolding in_month
in_month_day m d h one =
    ap (λ n. n + first_date) (day_of-midnight _) ∙ omega (arith, first_date_le m h)

pub month_index-in_month :
    (m d : ℕ) → first_month ≤ m → 1 ≤ d → d ≤ length_of_month m → month_index (in_month m d) ≡ m
unfolding month_index
month_index-in_month m d h one last =
    ap month_of_day (in_month_day m d h one)
    ∙ month_of_day_at m (first_day m + d - 1) (omega arith, omega arith)

pub date_of-in_month :
    (m d : ℕ) → first_month ≤ m → 1 ≤ d → d ≤ length_of_month m → date_of (in_month m d) ≡ d
unfolding date_of
date_of-in_month m d h one last =
    rw (month_index-in_month m d h one last) (omega (arith, in_month_day m d h one))

-- The day before a month is the last one of the month before.
pub in_month-zero : (m : ℕ) → in_month (m + 1) 0 ≡ in_month m (length_of_month m)
unfolding in_month
in_month-zero m = ap (λ n. midnight (n - first_date)) (omega (arith, first_day-suc m))

pub length_of_month_bounds : (m : ℕ) → (28 ≤ length_of_month m) × (length_of_month m ≤ 31)
unfolding length_of_month month_length
length_of_month_bounds m = ground arith

pub date_of-last_day : (m : ℕ) → first_month ≤ m → date_of (in_month (m + 1) 0) ≡ length_of_month m
date_of-last_day m h =
    let (short, _) = length_of_month_bounds m in
    ap date_of (in_month-zero m)
    ∙ date_of-in_month m (length_of_month m) h (omega arith) (le_refl _)

pub date_of_bounds : (t : ℕ) → (1 ≤ date_of t) × (date_of t ≤ length_of_month (month_index t))
unfolding date_of month_index
date_of_bounds t =
    let (from, below) = month_of_day-IsMonthOf (day_of t + first_date) in (omega arith, omega arith)

-- A day is the day of its own month and date.
pub in_month-month_index : (t : ℕ) → in_month (month_index t) (date_of t) ≡ midnight (day_of t)
unfolding in_month date_of month_index
in_month-month_index t =
    let (from, _) = month_of_day-IsMonthOf (day_of t + first_date) in ap midnight (omega arith)

-- January of the year 100: from then on `Date.UTC` takes a year as it is.
abbrev pub january_100 : ℕ
january_100 = 3_265_200

full_year_late : (y : ℕ) → 272_100 ≤ y → full_year y ≡ y
unfolding full_year
full_year_late y h = ground arith

pub utc_full : (y d : ℕ) (k : ℤ) → 272_100 ≤ y → utc y k d ≡ in_month (shift (12 * y) k) d
unfolding utc
utc_full y d k h = ap (λ n. in_month (shift (12 * n) k) d) (full_year_late y h)

shift_of_month : (m : ℕ) (k : ℕ) → shift (12 * (m / 12)) (pos (m % 12 + k)) ≡ m + k
unfolding shift
shift_of_month m k = omega arith

-- `Date.UTC(d.getUTCFullYear(), d.getUTCMonth() + k, date)`, for `k` from 0 on.
pub utc_of :
    (t k d : ℕ)
    → january_100 ≤ month_index t
    → utc (year t) (pos (month t + k)) d ≡ in_month (month_index t + k) d
unfolding year month
utc_of t k d h =
    utc_full (month_index t / 12) d (pos (month_index t % 12 + k)) (omega arith)
    ∙ ap (λ m. in_month m d) (shift_of_month (month_index t) k)
