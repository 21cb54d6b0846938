-- ===== src/Contract/Dates/Shift.antt =====
-- Days and months added to a date.
use contrats.Base.{ℕ, ◌+◌, ◌-◌, ◌*◌, ◌/◌, ◌%◌, ◌≤◌, ◌<◌, ◌≡◌, sym, ap, ◌∙◌, ◌⊎◌, inl, inr, arith}
use native.Mathlib.Decide.{dec_lt}
use contrats.Base.Int.{ℤ, pos, pos_part, neg_part, sub_ℕ}
use contrats.Base.Instant.{Instant, midnight, day_of}
use contrats.Base.Calendar.{
  first_date, first_day, month_of_day, year, month, month_index, date_of, in_month, shift, utc,
  length_of_month,
}
use contrats.Base.Calendar.Laws.{
  january_100, utc_full, utc_of, month_index-in_month, date_of-in_month, date_of-last_day,
  in_month-month_index, length_of_month_bounds, date_of_bounds, day_of-midnight,
}
use contrats.Base.Calendar.Months.{month_of_day-IsMonthOf, first_day-suc, first_day_mono}
use contrats.Contract.Dates.{utc_day, min_of, month_plus, add_months_clamped}

pub sub_ℕ_parts : (a b : ℕ) → (pos_part (sub_ℕ a b) ≡ a - b) × (neg_part (sub_ℕ a b) ≡ b - a)
sub_ℕ_parts a b = ground arith

-- From the year 100 on.
abbrev pub IsCurrent : Instant → Type 0
IsCurrent t = january_100 ≤ month_index t

pub utc_of_month :
    (t d : ℕ) → IsCurrent t → utc (year t) (pos (month t)) d ≡ in_month (month_index t) d
utc_of_month t d h =
    let to : month t ≡ month t + 0 = omega arith in
    let from : month_index t + 0 ≡ month_index t = omega arith in
    ap (λ m. utc (year t) (pos m) d) to ∙ utc_of t 0 d h ∙ ap (λ m. in_month m d) from

pub utc_day-midnight : (t : Instant) → IsCurrent t → utc_day t ≡ midnight (day_of t)
unfolding utc_day
utc_day-midnight t h = utc_of_month t (date_of t) h ∙ in_month-month_index t

shift-month_plus :
    (m : ℕ) (k : ℤ) → shift (12 * (m / 12)) (sub_ℕ (m % 12 + pos_part k) (neg_part k)) ≡ shift m k
unfolding shift
shift-month_plus m k = omega (arith, sub_ℕ_parts (m % 12 + pos_part k) (neg_part k))

utc-month_plus :
    (t : Instant) (k : ℤ)
    → IsCurrent t
    → utc (year t) (month_plus t k) 1 ≡ in_month (shift (month_index t) k) 1
unfolding year month
utc-month_plus t k h =
    utc_full (month_index t / 12) 1 (month_plus t k) (omega arith)
    ∙ ap (λ m. in_month m 1) (shift-month_plus (month_index t) k)

-- The date of the month that is meant, or the last one of it.
pub add_months_clamped-in_month :
    (t : Instant) (k : ℤ)
    → IsCurrent t
    → january_100 ≤ shift (month_index t) k
    → add_months_clamped t k
      ≡ in_month
          (shift (month_index t) k)
          (min_of (date_of t) (length_of_month (shift (month_index t) k)))
unfolding add_months_clamped
add_months_clamped-in_month t k h late =
    let m = shift (month_index t) k in
    let target = in_month m 1 in
    let (long, _) = length_of_month_bounds m in
    let at : month_index target ≡ m =
      month_index-in_month m 1 (omega arith) (omega arith) (omega arith) in
    let current : IsCurrent target = omega arith in
    let last : date_of (utc (year target) (pos (month target + 1)) 0) ≡ length_of_month m =
      ap date_of (utc_of target 1 0 current ∙ ap (λ n. in_month (n + 1) 0) at)
      ∙ date_of-last_day m (omega arith) in
    rw (utc-month_plus t k h, last)
      (utc_of_month target (min_of (date_of t) (length_of_month m)) current
        ∙ ap (λ n. in_month n (min_of (date_of t) (length_of_month m))) at)

min_of_bounds :
    (a b : ℕ)
    → (min_of a b ≤ a)
      × (min_of a b ≤ b)
      × ((min_of a b ≡ a) ⊎ ((min_of a b ≡ b) × (min_of a b < a)))
min_of_bounds a b = elim (dec_lt b a) [ yes less ↦ ground arith | no not_less ↦ ground arith ]

-- `r` is `t` moved by `k` months: the month so many months later, in it the date of `t`, or the last
-- one of a month that is too short for that, at midnight.
abbrev pub IsMonthsFrom : Instant → ℤ → Instant → Type 0
IsMonthsFrom t k r =
    (month_index r + neg_part k ≡ month_index t + pos_part k)
    × ((date_of r ≡ date_of t)
        ⊎ ((date_of r ≡ length_of_month (month_index r)) × (date_of r < date_of t)))
    × (r ≡ midnight (day_of r))

midnight_of_month : (m d : ℕ) → in_month m d ≡ midnight (day_of (in_month m d))
unfolding in_month
midnight_of_month m d = ap midnight (sym (day_of-midnight _))

-- Months added to a date of the year 100 or later, or taken from it, give the month so many months
-- later or earlier, if that month is of the year 100 or later, and in it the same date, or its last
-- one if it is shorter: never a date of the month after it.
pub add_months_clamped-IsMonthsFrom :
    (t : Instant) (k : ℤ)
    → january_100 ≤ month_index t
    → january_100 + neg_part k ≤ month_index t + pos_part k
    → IsMonthsFrom t k (add_months_clamped t k)
unfolding shift
add_months_clamped-IsMonthsFrom t k h late =
    let m = shift (month_index t) k in
    let d = min_of (date_of t) (length_of_month m) in
    let (one, _) = date_of_bounds t in
    let (long, _) = length_of_month_bounds m in
    let (_, last, which) = min_of_bounds (date_of t) (length_of_month m) in
    let positive : 1 ≤ d = ground arith in
    let at : month_index (in_month m d) ≡ m =
      month_index-in_month m d (omega arith) positive last in
    let on : date_of (in_month m d) ≡ d = date_of-in_month m d (omega arith) positive last in
    rw (add_months_clamped-in_month t k h (omega arith))
      (rw (at, on) (omega arith, which, midnight_of_month m d))

-- A date lies in its month.
day_of-month : (t : Instant) → day_of t + first_date + 1 ≡ first_day (month_index t) + date_of t
unfolding date_of month_index
day_of-month t = let (from, _) = month_of_day-IsMonthOf (day_of t + first_date) in omega arith

pub day_of_earlier : (s t : Instant) → month_index s < month_index t → day_of s < day_of t
day_of_earlier s t h =
    let (_, last) = date_of_bounds s in
    let (one, _) = date_of_bounds t in
    omega (
      arith,
      day_of-month s,
      day_of-month t,
      first_day-suc (month_index s),
      first_day_mono (month_index s + 1) (month_index t) (omega arith),
    )

day_of_same :
    (s t : Instant) → month_index s ≡ month_index t → date_of s ≤ date_of t → day_of s ≤ day_of t
day_of_same s t e h =
    let same : first_day (month_index s) ≡ first_day (month_index t) = ap first_day e in
    omega (arith, day_of-month s, day_of-month t, same)

date_of-from : (t r : Instant) (k : ℤ) → IsMonthsFrom t k r → date_of r ≤ date_of t
date_of-from t r k (_, inl same, _) = omega arith
date_of-from t r k (_, inr (_, short), _) = omega arith

-- Months taken from a date give a date that is not later.
pub months_back :
    (t r : Instant) (k : ℤ) → pos_part k ≡ 0 → IsMonthsFrom t k r → day_of r ≤ day_of t
months_back t r k back from = elim (dec_lt (month_index r) (month_index t)) [
  | yes less ↦ omega (arith, day_of_earlier r t less)
  | no not_less ↦ day_of_same r t (omega arith) (date_of-from t r k from)
]

-- Months added to it give a later date.
pub months_ahead :
    (t r : Instant) (k : ℤ) → 1 + neg_part k ≤ pos_part k → IsMonthsFrom t k r → day_of t < day_of r
months_ahead t r k ahead from = day_of_earlier t r (omega arith)

length_same :
    (s t : Instant) → month_index s ≡ month_index t → date_of s ≤ length_of_month (month_index t)
length_same s t e =
    let same : length_of_month (month_index s) ≡ length_of_month (month_index t) =
      ap length_of_month e in
    let (_, last) = date_of_bounds s in omega arith

date_of-same_month :
    (t r : Instant) (k : ℤ)
    → month_index t ≡ month_index r
    → IsMonthsFrom t k r
    → date_of t ≤ date_of r
date_of-same_month t r k e (_, inl same, _) = omega arith
date_of-same_month t r k e (_, inr (full, short), _) = omega (arith, length_same t r e)

pub months_not_back :
    (t r : Instant) (k : ℤ) → neg_part k ≤ pos_part k → IsMonthsFrom t k r → day_of t ≤ day_of r
months_not_back t r k ahead from = elim (dec_lt (month_index t) (month_index r)) [
  | yes less ↦ omega (arith, day_of_earlier t r less)
  | no not_less ↦
      let e : month_index t ≡ month_index r = omega arith in
      day_of_same t r e (date_of-same_month t r k e from)
]

pub IsCurrent-later : (s t : Instant) → day_of s ≤ day_of t → IsCurrent s → IsCurrent t
IsCurrent-later s t h current = elim (dec_lt (month_index t) (month_index s)) [
  | yes less ↦ absurd (omega (arith, day_of_earlier t s less))
  | no not_less ↦ omega arith
]

month_index_of_day : (s t : Instant) → day_of s ≡ day_of t → month_index s ≡ month_index t
unfolding month_index
month_index_of_day s t e = ap (λ n. month_of_day (n + first_date)) e

pub month_index-midnight : (t : Instant) → month_index (midnight (day_of t)) ≡ month_index t
month_index-midnight t = month_index_of_day (midnight (day_of t)) t (day_of-midnight (day_of t))

-- A midnight is its own day.
pub utc_day_again : (d : ℕ) → IsCurrent (midnight d) → utc_day (midnight d) ≡ midnight d
utc_day_again d h = utc_day-midnight (midnight d) h ∙ ap midnight (day_of-midnight d)
