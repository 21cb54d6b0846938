-- ===== src/Contract/Dates/Open.antt =====
-- The termination of a contract without an end: today and the notice, or the date asked for.
use contrats.Base.{ℕ, ◌+◌, ◌≤◌, ◌≡◌, refl, ap, ◌∙◌, ◌⊎◌, inl, inr, arith, false, Option, none, some}
use native.Mathlib.Decide.{dec_lt}
use contrats.Base.Int.{pos}
use contrats.Base.Instant.{Instant, midnight, day_of}
use contrats.Base.Calendar.{month_index}
use contrats.Base.Calendar.Laws.{january_100, day_of-midnight}
use contrats.Base.Result.{ok}
use contrats.Contract.Dates.{
  utc_day, add_days, add_months_clamped, add_days_or_months, add_notice, TerminationInput,
  TerminationDates, later_of, day_of_request, compute_termination_effective_date,
}
use contrats.Contract.Dates.Shift.{
  IsCurrent, IsMonthsFrom, utc_day-midnight, utc_day_again, add_months_clamped-IsMonthsFrom,
  month_index-midnight,
}
use contrats.Contract.Dates.Periods.{add_days-midnight}

-- The end of a notice that begins on day `t`: so many days or months later, or the day itself.
abbrev pub IsNoticeEnd : ℕ → Option ℕ → Option ℕ → Instant → Type 0
IsNoticeEnd t (some n) (some m) d = ⊥
IsNoticeEnd t (some n) none d = d ≡ midnight (t + n)
IsNoticeEnd t none (some m) d = IsMonthsFrom (midnight t) (pos m) d
IsNoticeEnd t none none d = d ≡ midnight t

add_notice-IsNoticeEnd :
    (t : ℕ) (days months : Option ℕ)
    → IsCurrent (midnight t)
    → (days ≡ none) ⊎ (months ≡ none)
    → (d : Instant) × (add_days_or_months (midnight t) days months ≡ ok d)
      × IsNoticeEnd t days months d
unfolding add_days_or_months
add_notice-IsNoticeEnd t (some n) (some m) h (inl one) = cc
add_notice-IsNoticeEnd t (some n) (some m) h (inr one) = cc
add_notice-IsNoticeEnd t (some n) none h one =
    let day = day_of-midnight t in
    (
      add_days (midnight t) (pos n),
      refl,
      add_days-midnight (midnight t) (pos n) h ∙ ap midnight (omega arith),
    )
add_notice-IsNoticeEnd t none none h one = (utc_day (midnight t), refl, utc_day_again t h)
add_notice-IsNoticeEnd t none (some m) h one =
    let day : utc_day (midnight t) ≡ midnight t = utc_day_again t h in
    (
      add_months_clamped (midnight t) (pos m),
      ap (λ d. ok (add_months_clamped d (pos m))) day,
      add_months_clamped-IsMonthsFrom (midnight t) (pos m) h (omega arith),
    )

-- The later of the end of the notice and of the day asked for, if one is asked for.
abbrev pub IsLaterOf : Option Instant → Instant → Instant → Type 0
IsLaterOf none d r = r ≡ d
IsLaterOf (some asked) d r = (d ≤ r) × (utc_day asked ≤ r) × ((r ≡ d) ⊎ (r ≡ utc_day asked))

later_of-IsLaterOf :
    (asked : Option Instant) (d : Instant) → IsLaterOf asked d (later_of (day_of_request asked) d)
later_of-IsLaterOf none d = refl
later_of-IsLaterOf (some s) d = elim (dec_lt d (utc_day s)) [
  | yes later ↦ ground arith
  | no earlier ↦ ground arith
]

compute_open :
    (i : TerminationInput) (today d : Instant)
    → i.period_end ≡ none
    → utc_day i.today ≡ today
    → add_days_or_months today i.notice.days i.notice.months ≡ ok d
    → compute_termination_effective_date i
      ≡ ok (record {
        effective_date = later_of (day_of_request i.requested_date) d;
        deadline_missed = false;
      })
unfolding compute_termination_effective_date add_notice
compute_open i today d period day notice = rw (period, day, notice) refl

-- The termination, on a day of the year 100 or later, of a contract without an end, whose notice is
-- not in days and in months: no deadline is missed, and it takes effect when the notice ends that
-- begins today, or on the day asked for, if that is later.
pub open_termination :
    (i : TerminationInput)
    → i.period_end ≡ none
    → january_100 ≤ month_index i.today
    → (i.notice.days ≡ none) ⊎ (i.notice.months ≡ none)
    → (r : TerminationDates) × (d : Instant) × (compute_termination_effective_date i ≡ ok r)
      × (r.deadline_missed ≡ false)
      × IsNoticeEnd (day_of i.today) i.notice.days i.notice.months d
      × IsLaterOf i.requested_date d r.effective_date
open_termination i period now one =
    let today = day_of i.today in
    let same = month_index-midnight i.today in
    let (d, added, ends) =
      add_notice-IsNoticeEnd today i.notice.days i.notice.months (omega arith) one in
    (
      _,
      d,
      compute_open i (midnight today) d period (utc_day-midnight i.today now) added,
      refl,
      ends,
      later_of-IsLaterOf i.requested_date d,
    )
