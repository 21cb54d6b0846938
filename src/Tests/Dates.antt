-- ===== src/Tests/Dates.antt =====
-- The dates of contracts on examples: a fixed term to the end of 2026 with two months of notice, and
-- a contract without an end.
use contrats.Base.{◌+◌, ◌≤◌, ◌<◌, List, [], ◌∷◌, ◌≡◌, refl, arith, none, some, inl, true, false}
use contrats.Base.Int.{pos}
use contrats.Base.Instant.{Instant, midnight, day_of}
use contrats.Base.Calendar.{
  year, month, month_index, month_of_day, year_of, days_before_year, month_in, days_before_month,
  is_leap_year, month_length, first_day, date_of, in_month, shift, full_year, utc,
}
use contrats.Base.Calendar.Laws.{january_100}
use contrats.Base.Result.{ok}
use contrats.Contract.Types.{active}
use contrats.Contract.Dates.Window.{window_in_order}
use contrats.Contract.Deadlines.{
  DeadlineFacts, ComputedDeadline, deadline, period_end, notice_limit, chatel_notice, no_details,
  of_period, of_window, tacit, renewal_deadlines, notice_deadlines, period_deadlines,
  engaged_deadlines, compute_deadlines,
}
use contrats.Contract.Deadlines.Schedule.{AreExactlyDue, compute_deadlines-AreExactlyDue}
use contrats.Contract.Dates.{
  ChatelWindow, chatel_notice_window, Notice, utc_day, add_months_clamped, subtract_days_or_months,
  subtract_notice, notice_deadline, next_period_end, TerminationInput, TerminationDates,
  compute_termination_effective_date,
}
use contrats.Contract.Dates.Shift.{IsMonthsFrom, add_months_clamped-IsMonthsFrom}
use contrats.Contract.Dates.Periods.{next_period_end-month_end, month_end}
use contrats.Contract.Dates.Effective.{IsEndOfPeriod, period_termination}
use contrats.Contract.Dates.Open.{IsNoticeEnd, IsLaterOf, open_termination}

-- 2026-01-31, 2026-02-28, 2026-06-30, 2026-11-15 and 2026-12-31, as days from the earliest `Date`.
abbrev january_31 : Instant
january_31 = midnight 100_020_484

abbrev february_28 : Instant
february_28 = midnight 100_020_512

abbrev october_31 : Instant
october_31 = midnight 100_020_757

abbrev november_15 : Instant
november_15 = midnight 100_020_772

abbrev december_31 : Instant
december_31 = midnight 100_020_818

abbrev two_months : Notice
two_months = record { days = none; months = some 2 }

one_month_clamped : add_months_clamped january_31 (pos 1) ≡ february_28
unfolding add_months_clamped utc_day year month month_index month_of_day year_of days_before_year
    month_in days_before_month is_leap_year month_length first_day date_of in_month shift full_year
    utc
one_month_clamped = refl

-- The deadline of a period that ends with the year is 31 October: 15 November is too late.
abbrev late_termination : TerminationInput
late_termination = record {
  today = november_15;
  notice = two_months;
  period_end = some december_31;
  renewal_period_months = some 12;
  requested_date = none;
}

deadline_october : notice_deadline (utc_day december_31) two_months ≡ ok october_31
unfolding add_months_clamped subtract_notice subtract_days_or_months notice_deadline utc_day year
    month month_index month_of_day year_of days_before_year month_in days_before_month is_leap_year
    month_length first_day date_of in_month shift full_year utc
deadline_october = refl

january_31_is_late : january_100 ≤ month_index january_31
unfolding month_index month_of_day year_of days_before_year month_in days_before_month is_leap_year
january_31_is_late = omega arith

november_15_is_late : january_100 ≤ month_index november_15
unfolding month_index month_of_day year_of days_before_year month_in days_before_month is_leap_year
november_15_is_late = omega arith

december_31_is_late : january_100 + 2 ≤ month_index december_31
unfolding month_index month_of_day year_of days_before_year month_in days_before_month is_leap_year
december_31_is_late = omega arith

period_termination_example :
    (r : TerminationDates) × (compute_termination_effective_date late_termination ≡ ok r)
    × IsEndOfPeriod 100_020_772 100_020_757 100_020_818 12 r
period_termination_example =
    period_termination late_termination december_31 october_31 refl november_15_is_late
      december_31_is_late deadline_october

abbrev open_ended : TerminationInput
open_ended = record {
  today = november_15;
  notice = two_months;
  period_end = none;
  renewal_period_months = none;
  requested_date = some december_31;
}

open_termination_example :
    (r : TerminationDates) × (d : Instant) × (compute_termination_effective_date open_ended ≡ ok r)
    × (r.deadline_missed ≡ false)
    × IsNoticeEnd 100_020_772 none (some 2) d
    × IsLaterOf (some december_31) d r.effective_date
open_termination_example = open_termination open_ended refl november_15_is_late (inl refl)

add_months_clamped-IsMonthsFrom_example :
    IsMonthsFrom january_31 (pos 1) (add_months_clamped january_31 (pos 1))
add_months_clamped-IsMonthsFrom_example =
    add_months_clamped-IsMonthsFrom january_31 (pos 1) january_31_is_late
      (omega (arith, january_31_is_late))

-- From the end of June 2026.
next_period_end-month_end_example :
    next_period_end (month_end 3_288_317) 6 ≡ month_end (3_288_317 + 6)
next_period_end-month_end_example = next_period_end-month_end 3_288_317 6 (omega arith)

october_31_is_late : january_100 + 3 ≤ month_index october_31
unfolding month_index month_of_day year_of days_before_year month_in days_before_month is_leap_year
october_31_is_late = omega arith

october_from_december : notice_deadline december_31 two_months ≡ ok october_31
unfolding add_months_clamped subtract_notice subtract_days_or_months notice_deadline utc_day year
    month month_index month_of_day year_of days_before_year month_in days_before_month is_leap_year
    month_length first_day date_of in_month shift full_year utc
october_from_december = refl

window_in_order_example :
    (w : ChatelWindow) × (chatel_notice_window december_31 two_months ≡ ok w)
    × (w.deadline ≡ october_31)
    × (day_of w.earliest < day_of w.latest)
    × (day_of w.latest < day_of october_31)
    × (day_of october_31 ≤ day_of december_31)
window_in_order_example =
    window_in_order december_31 october_31 two_months december_31_is_late october_31_is_late
      october_from_december

-- A subscription of a consumer that is renewed by itself.
abbrev subscription : DeadlineFacts
subscription = record {
  status = active;
  start_date = none;
  end_date = some december_31;
  notice = two_months;
  renewal_mode = tacit;
  renewal_period_months = some 12;
  chatel_applies = true;
  termination_effective_date = none;
  next_price_revision_date = none;
}

subscription_deadlines :
    compute_deadlines subscription november_15
    ≡ ok (
        deadline period_end december_31 no_details
        ∷ deadline notice_limit october_31 (of_period 100_020_818)
        ∷ deadline chatel_notice
            (midnight 100_020_665)
            (of_window 100_020_726 100_020_757 100_020_818)
        ∷ [])
unfolding compute_deadlines engaged_deadlines period_deadlines notice_deadlines renewal_deadlines
    chatel_notice_window add_months_clamped subtract_notice subtract_days_or_months notice_deadline
    utc_day year month month_index month_of_day year_of days_before_year month_in days_before_month
    is_leap_year month_length first_day date_of in_month shift full_year utc
subscription_deadlines = refl

compute_deadlines-AreExactlyDue_example :
    (xs : List ComputedDeadline) × (compute_deadlines subscription november_15 ≡ ok xs)
    × (true ≡ false → xs ≡ [])
    × (true ≡ true → AreExactlyDue subscription xs)
compute_deadlines-AreExactlyDue_example =
    compute_deadlines-AreExactlyDue subscription november_15 (inl refl)
