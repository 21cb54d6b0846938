-- ===== src/Contract/Dates/Periods.antt =====
-- Renewal and notice: the periods that `nextPeriodEnd` and `noticeDeadline` give.
use contrats.Base.{ℕ, ◌+◌, ◌-◌, ◌*◌, ◌≤◌, ◌<◌, ◌≡◌, refl, sym, ap, ◌∙◌, arith}
use mathlib.Core.Path.{subst}
use contrats.Base.Int.{ℤ, pos, pos_part, neg_part}
use contrats.Base.Instant.{Instant, midnight, day_of, day_ms}
use contrats.Base.Calendar.{month_index, date_of, in_month, shift, length_of_month}
use contrats.Base.Calendar.Laws.{
  january_100, month_index-in_month, date_of-in_month, length_of_month_bounds, day_of-midnight,
  in_month_day, first_date_le,
}
use contrats.Base.Calendar.Months.{first_day-suc}
use contrats.Contract.Dates.{add_days, min_of, negative, add_months_clamped, next_period_end}
use contrats.Contract.Dates.Shift.{
  IsCurrent, IsMonthsFrom, IsCurrent-later, months_not_back, utc_day-midnight,
  add_months_clamped-in_month, add_months_clamped-IsMonthsFrom, months_ahead,
}

days_from : (d p n : ℕ) → d * day_ms + p * day_ms - n * day_ms ≡ (d + p - n) * day_ms
days_from d p n = omega arith

-- Days are added to the day of a date, whatever its time.
pub add_days-midnight :
    (t : Instant) (n : ℤ)
    → IsCurrent t
    → add_days t n ≡ midnight (day_of t + pos_part n - neg_part n)
unfolding add_days
add_days-midnight t n h = rw (utc_day-midnight t h) (days_from (day_of t) (pos_part n) (neg_part n))

-- The last day of a month.
abbrev pub month_end : ℕ → Instant
month_end m = in_month m (length_of_month m)

month_end-IsCurrent : (m : ℕ) → january_100 ≤ m → IsCurrent (month_end m)
month_end-IsCurrent m h =
    let (long, _) = length_of_month_bounds m in
    let at : month_index (month_end m) ≡ m =
      month_index-in_month m (length_of_month m) (omega arith) (omega arith) (omega arith) in
    omega arith

day_after : (m : ℕ) → january_100 ≤ m → add_days (month_end m) (pos 1) ≡ in_month (m + 1) 1
unfolding in_month
day_after m h =
    let (long, _) = length_of_month_bounds m in
    add_days-midnight (month_end m) (pos 1) (month_end-IsCurrent m h)
    ∙ ap midnight (
        omega (
          arith,
          in_month_day m (length_of_month m) (omega arith) (omega arith),
          first_day-suc m,
          first_date_le m (omega arith),
        ))

first_fits : (m : ℕ) → min_of 1 (length_of_month m) ≡ 1
first_fits m = let (long, _) = length_of_month_bounds m in ground arith

shift_ahead : (m k : ℕ) → shift m (pos k) ≡ m + k
unfolding shift
shift_ahead m k = omega arith

first-IsCurrent : (m : ℕ) → january_100 ≤ m → month_index (in_month m 1) ≡ m
first-IsCurrent m h =
    let (long, _) = length_of_month_bounds m in
    month_index-in_month m 1 (omega arith) (omega arith) (omega arith)

month_after :
    (m k : ℕ) → january_100 ≤ m → add_months_clamped (in_month m 1) (pos k) ≡ in_month (m + k) 1
month_after m k h =
    let t = in_month m 1 in
    let (long, _) = length_of_month_bounds m in
    let at : month_index t ≡ m = first-IsCurrent m h in
    let on : date_of t ≡ 1 = date_of-in_month m 1 (omega arith) (omega arith) (omega arith) in
    let to : shift (month_index t) (pos k) ≡ m + k =
      shift_ahead (month_index t) k ∙ ap (λ n. n + k) at in
    let late : january_100 ≤ shift (month_index t) (pos k) = omega arith in
    add_months_clamped-in_month t (pos k) (omega arith) late ∙ rw (to, on, first_fits (m + k)) refl

day_before : (m : ℕ) → january_100 ≤ m → add_days (in_month (m + 1) 1) (negative 1) ≡ month_end m
unfolding in_month
day_before m h =
    let t = in_month (m + 1) 1 in
    let at = first-IsCurrent (m + 1) (omega arith) in
    add_days-midnight t (negative 1) (omega arith)
    ∙ ap midnight (
        omega (
          arith,
          in_month_day (m + 1) 1 (omega arith) (omega arith),
          first_day-suc m,
          first_date_le m (omega arith),
          length_of_month_bounds m,
        ))

-- A contract that ends with a month is renewed to the end of a month, after 30 June and six months
-- to 31 December: `k` months later, from the year 100 on.
pub next_period_end-month_end :
    (m k : ℕ) → january_100 ≤ m → next_period_end (month_end m) k ≡ month_end (m + k)
unfolding next_period_end
next_period_end-month_end m k h =
    let e : m + 1 + k ≡ m + k + 1 = omega arith in
    rw (day_after m h, month_after (m + 1) k (omega arith), e) (day_before (m + k) (omega arith))

start_of_next : (t : Instant) → IsCurrent t → add_days t (pos 1) ≡ midnight (day_of t + 1)
start_of_next t h = add_days-midnight t (pos 1) h ∙ ap midnight (omega arith)

-- The day after the end of the next period.
next_period_end-day :
    (t r : Instant) (k : ℕ)
    → IsCurrent t
    → r ≡ add_months_clamped (midnight (day_of t + 1)) (pos k)
    → 1 ≤ day_of r
    → IsCurrent r
    → day_of (next_period_end t k) + 1 ≡ day_of r
unfolding next_period_end
next_period_end-day t r k h e one current =
    rw (start_of_next t h, sym e, add_days-midnight r (negative 1) current)
      (ap (λ n. n + 1) (day_of-midnight _) ∙ omega arith)

-- A period is renewed by its length: the next one begins on the day after its end, and ends on the
-- day before the day that is `k` months later; it ends later, if `k` is not 0.
pub next_period_end-IsMonthsFrom :
    (t : Instant) (k : ℕ)
    → january_100 ≤ month_index t
    → IsMonthsFrom (midnight (day_of t + 1)) (pos k) (midnight (day_of (next_period_end t k) + 1))
      × (1 ≤ k → day_of t < day_of (next_period_end t k))
next_period_end-IsMonthsFrom t k h =
    let start = midnight (day_of t + 1) in
    let r = add_months_clamped start (pos k) in
    let day : day_of start ≡ day_of t + 1 = day_of-midnight (day_of t + 1) in
    let current : IsCurrent start = IsCurrent-later t start (omega arith) h in
    let from = add_months_clamped-IsMonthsFrom start (pos k) current (omega arith) in
    let after : day_of start ≤ day_of r = months_not_back start r (pos k) (omega arith) from in
    let next : day_of (next_period_end t k) + 1 ≡ day_of r =
      next_period_end-day t r k h refl (omega arith) (IsCurrent-later start r after current) in
    (
      subst (IsMonthsFrom start (pos k)) (from.2 ∙ ap midnight (sym next)) from,
      λ some_months. omega (arith, months_ahead start r (pos k) some_months from),
    )
