-- ===== src/Contract/Dates/Window.antt =====
-- The window in which the notice of a renewal is due.
use contrats.Base.{ℕ, ◌+◌, ◌-◌, ◌*◌, ◌≤◌, ◌<◌, ◌≡◌, refl, sym, ap, ◌∙◌, arith, Option, none, some}
use contrats.Base.Int.{pos_part, neg_part}
use contrats.Base.Instant.{Instant, midnight, day_of, day_ms}
use contrats.Base.Calendar.{month_index}
use contrats.Base.Calendar.Laws.{january_100}
use contrats.Base.Result.{ok}
use contrats.Contract.Dates.{
  Notice, utc_day, add_days, negative, add_months_clamped, subtract_days_or_months, subtract_notice,
  notice_deadline, months_of, ChatelWindow, chatel_notice_window,
}
use contrats.Contract.Dates.Shift.{
  IsCurrent, utc_day-midnight, utc_day_again, add_months_clamped-IsMonthsFrom, month_index-midnight,
  day_of_earlier,
}
use contrats.Contract.Dates.Effective.{deadline_of_notice}

-- A deadline depends on the day of the end, and not on its time.
subtract_from_day :
    (end : Instant) (days months : Option ℕ)
    → utc_day end ≡ utc_day (midnight (day_of end))
    → subtract_days_or_months end days months
      ≡ subtract_days_or_months (midnight (day_of end)) days months
unfolding subtract_days_or_months add_days
subtract_from_day end (some n) (some m) h = refl
subtract_from_day end (some n) none h =
    ap (λ t. ok (t + pos_part (negative n) * day_ms - neg_part (negative n) * day_ms)) h
subtract_from_day end none (some m) h = ap (λ t. ok (add_months_clamped t (negative m))) h
subtract_from_day end none none h = ap ok h

deadline_of_day :
    (end : Instant) (n : Notice)
    → IsCurrent end
    → notice_deadline end n ≡ notice_deadline (midnight (day_of end)) n
unfolding notice_deadline subtract_notice
deadline_of_day end n h =
    let same = month_index-midnight end in
    let day : utc_day end ≡ utc_day (midnight (day_of end)) =
      utc_day-midnight end h ∙ sym (utc_day_again (day_of end) (omega arith)) in
    subtract_from_day end n.days n.months day

-- For a period that ends in the year 100 or later, even before its notice, and whose deadline is
-- three months into that year at least: the customer is told from a day on that lies before the last
-- day to tell, which lies before the deadline, which is not after the end of the period.
pub window_in_order :
    (end d : Instant) (n : Notice)
    → january_100 + months_of n.months ≤ month_index end
    → january_100 + 3 ≤ month_index d
    → notice_deadline end n ≡ ok d
    → (w : ChatelWindow) × (chatel_notice_window end n ≡ ok w)
      × (w.deadline ≡ d)
      × (day_of w.earliest < day_of w.latest)
      × (day_of w.latest < day_of d)
      × (day_of d ≤ day_of end)
unfolding chatel_notice_window
window_in_order end d n late three h =
    let same = month_index-midnight end in
    let first = add_months_clamped-IsMonthsFrom d (negative 3) (omega arith) (omega arith) in
    let last = add_months_clamped-IsMonthsFrom d (negative 1) (omega arith) (omega arith) in
    let earliest = add_months_clamped d (negative 3) in
    let latest = add_months_clamped d (negative 1) in
    (
      record { deadline = d; earliest = earliest; latest = latest },
      rw h refl,
      refl,
      day_of_earlier earliest latest (omega arith),
      day_of_earlier latest d (omega arith),
      deadline_of_notice (day_of end) n d (omega arith)
          (sym (deadline_of_day end n (omega arith)) ∙ h),
    )
