-- ===== src/Base/Calendar.antt =====
-- The Gregorian calendar of a `Date` in UTC: `Date.UTC`, `getUTCFullYear`, `getUTCMonth`,
-- `getUTCDate`. Years are counted from 272000 BC, the beginning of a cycle of 400 years, and months
-- from the first month of that year, so that no number is negative.
pub mod Months
pub mod Laws
use Prim.Native.Nat.{ℕ, ◌+◌, ◌-◌, ◌*◌, ◌/◌, ◌%◌}
use mathlib.Core.Bool.{Bool, true, false, not, ◌&&◌, ◌||◌}
use contrats.Base.Tests.{ltb, leb, ◌==◌, if◌then◌else◌}
use contrats.Base.Int.{ℤ, pos_part, neg_part}
use contrats.Base.Instant.{Instant, midnight, day_of}

-- The day of the earliest `Date`, 20 April -271821, in this count.
abbrev pub first_date : ℕ
first_date = 65488

unfoldable pub is_leap_year : ℕ → Bool
is_leap_year y = y % 4 == 0 && (not (y % 100 == 0) || y % 400 == 0)

unfoldable pub days_before_year : ℕ → ℕ
days_before_year y = 365 * y + (y + 3) / 4 + (y + 399) / 400 - (y + 99) / 100

-- The year of a day: a guess by the mean length of a year, and its correction.
unfoldable pub year_of : ℕ → ℕ
unfolding days_before_year
year_of n =
    let guess = n * 400 / 146097 in
    if ltb n (days_before_year guess)
    then guess - 1
    else if leb (days_before_year (guess + 1)) n
    then guess + 1
    else guess

-- The days of a year before its month `m`, from 0 on, and the length of the month.
unfoldable pub days_before_month : Bool → ℕ → ℕ
days_before_month leap m =
    let february = if leap then 29 else 28 in
    if m == 0
    then 0
    else if m == 1
    then 31
    else if m == 2
    then 31 + february
    else if m == 3
    then 62 + february
    else if m == 4
    then 92 + february
    else if m == 5
    then 123 + february
    else if m == 6
    then 153 + february
    else if m == 7
    then 184 + february
    else if m == 8
    then 215 + february
    else if m == 9
    then 245 + february
    else if m == 10
    then 276 + february
    else 306 + february

unfoldable pub month_length : Bool → ℕ → ℕ
month_length leap m =
    if m == 1
    then (if leap then 29 else 28)
    else if m == 3 || m == 5 || m == 8 || m == 10
    then 30
    else 31

-- The month of a day of a year.
unfoldable pub month_in : Bool → ℕ → ℕ
unfolding days_before_month
month_in leap r =
    if ltb r (days_before_month leap 1)
    then 0
    else if ltb r (days_before_month leap 2)
    then 1
    else if ltb r (days_before_month leap 3)
    then 2
    else if ltb r (days_before_month leap 4)
    then 3
    else if ltb r (days_before_month leap 5)
    then 4
    else if ltb r (days_before_month leap 6)
    then 5
    else if ltb r (days_before_month leap 7)
    then 6
    else if ltb r (days_before_month leap 8)
    then 7
    else if ltb r (days_before_month leap 9)
    then 8
    else if ltb r (days_before_month leap 10)
    then 9
    else if ltb r (days_before_month leap 11)
    then 10
    else 11

-- The first day of a month, of all months, and its length.
unfoldable pub first_day : ℕ → ℕ
unfolding days_before_year days_before_month is_leap_year
first_day m = days_before_year (m / 12) + days_before_month (is_leap_year (m / 12)) (m % 12)

unfoldable pub length_of_month : ℕ → ℕ
unfolding month_length is_leap_year
length_of_month m = month_length (is_leap_year (m / 12)) (m % 12)

unfoldable pub month_of_day : ℕ → ℕ
unfolding year_of month_in is_leap_year days_before_year
month_of_day n = let y = year_of n in 12 * y + month_in (is_leap_year y) (n - days_before_year y)

-- `12 * d.getUTCFullYear() + d.getUTCMonth()`
unfoldable pub month_index : Instant → ℕ
unfolding month_of_day
month_index d = month_of_day (day_of d + first_date)

-- `d.getUTCFullYear()` and `d.getUTCMonth()`
unfoldable pub year : Instant → ℕ
unfolding month_index
year d = month_index d / 12

unfoldable pub month : Instant → ℕ
unfolding month_index
month d = month_index d % 12

-- `d.getUTCDate()`
unfoldable pub date_of : Instant → ℕ
unfolding month_index first_day
date_of d = day_of d + first_date + 1 - first_day (month_index d)

-- Midnight of day `date` of a month; 0 is the day before the month.
unfoldable pub in_month : ℕ → ℕ → Instant
unfolding first_day
in_month m date = midnight (first_day m + date - 1 - first_date)

-- The month `k` of a year, which may lie before or after the year.
unfoldable pub shift : ℕ → ℤ → ℕ
shift m k = m + pos_part k - neg_part k

-- The years 0 to 99 of `Date.UTC` stand for 1900 to 1999.
unfoldable pub full_year : ℕ → ℕ
full_year y = if leb 272000 y && ltb y 272100 then y + 1900 else y

-- `new Date(Date.UTC(y, k, date))`
unfoldable pub utc : ℕ → ℤ → ℕ → Instant
unfolding in_month shift full_year
utc y k date = in_month (shift (12 * full_year y) k) date
