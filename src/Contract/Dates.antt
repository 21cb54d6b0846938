-- ===== src/Contract/Dates.antt =====
-- packages/domain/src/contract/dates.ts: notice periods, renewal and the window of the notice of
-- renewal. A `Date` is valid here: a date before the earliest one is not modelled. Days and months
-- are numbers from 0 on, as the requests that store them have it.
pub mod Shift
pub mod Periods
pub mod Effective
pub mod Open
pub mod Window
use contrats.Base.{
  ℕ, ◌+◌, ◌-◌, ◌*◌, Bool, true, false, not, ◌||◌, Option, none, some, ltb, ◌==◌, if◌then◌else◌,
}
use contrats.Base.Int.{ℤ, pos, pos_part, neg_part, sub_ℕ}
use contrats.Base.Instant.{Instant, day_ms}
use contrats.Base.Calendar.{year, month, date_of, utc}
use contrats.Base.Result.{Result, ok, err, ◌>>=◌}

pub record Notice : Type 0 where
  pub days : Option ℕ
  pub months : Option ℕ

-- The one `Error` of the file: a notice in days and in months.
pub data NoticeError : Type 0 where
  days_and_months : NoticeError

unfoldable pub utc_day : Instant → Instant
utc_day d = utc (year d) (pos (month d)) (date_of d)

unfoldable pub add_days : Instant → ℤ → Instant
add_days d n = utc_day d + pos_part n * day_ms - neg_part n * day_ms

abbrev pub min_of : ℕ → ℕ → ℕ
min_of a b = if ltb b a then b else a

-- `-n`
abbrev pub negative : ℕ → ℤ
negative n = sub_ℕ 0 n

-- `d.getUTCMonth() + months`
abbrev pub month_plus : Instant → ℤ → ℤ
month_plus d months = sub_ℕ (month d + pos_part months) (neg_part months)

unfoldable pub add_months_clamped : Instant → ℤ → Instant
add_months_clamped d months =
    let target = utc (year d) (month_plus d months) 1 in
    let last_day = date_of (utc (year target) (pos (month target + 1)) 0) in
    utc (year target) (pos (month target)) (min_of (date_of d) last_day)

-- The two with the fields of the notice taken apart, days first.
unfoldable pub subtract_days_or_months : Instant → Option ℕ → Option ℕ → Result NoticeError Instant
subtract_days_or_months date (some n) (some m) = err days_and_months
subtract_days_or_months date none (some m) = ok (add_months_clamped (utc_day date) (negative m))
subtract_days_or_months date (some n) none = ok (add_days date (negative n))
subtract_days_or_months date none none = ok (utc_day date)

unfoldable pub subtract_notice : Instant → Notice → Result NoticeError Instant
subtract_notice date notice = subtract_days_or_months date notice.days notice.months

unfoldable pub add_days_or_months : Instant → Option ℕ → Option ℕ → Result NoticeError Instant
add_days_or_months date (some n) (some m) = err days_and_months
add_days_or_months date none (some m) = ok (add_months_clamped (utc_day date) (pos m))
add_days_or_months date (some n) none = ok (add_days date (pos n))
add_days_or_months date none none = ok (utc_day date)

unfoldable pub add_notice : Instant → Notice → Result NoticeError Instant
add_notice date notice = add_days_or_months date notice.days notice.months

unfoldable pub notice_deadline : Instant → Notice → Result NoticeError Instant
notice_deadline period_end notice = subtract_notice period_end notice

unfoldable pub next_period_end : Instant → ℕ → Instant
next_period_end current_end months =
    let start = add_days current_end (pos 1) in
    add_days (add_months_clamped start (pos months)) (negative 1)

pub record TerminationInput : Type 0 where
  pub today : Instant
  pub notice : Notice
  pub period_end : Option Instant
  pub renewal_period_months : Option ℕ
  pub requested_date : Option Instant

pub record TerminationDates : Type 0 where
  pub effective_date : Instant
  pub deadline_missed : Bool

-- `i.requestedDate ? utcDay(i.requestedDate) : null`
abbrev pub day_of_request : Option Instant → Option Instant
day_of_request (some d) = some (utc_day d)
day_of_request none = none

-- `requested && requested > min ? requested : min`
abbrev pub later_of : Option Instant → Instant → Instant
later_of (some requested) min = if ltb min requested then requested else min
later_of none min = min

-- `!i.renewalPeriodMonths`: none, or 0.
abbrev pub months_of : Option ℕ → ℕ
months_of (some n) = n
months_of none = 0

-- The last two statements, `missed` and the months of a renewal known.
unfoldable pub period_dates : Bool → ℕ → Instant → TerminationDates
period_dates missed months end =
    if not missed || months == 0
    then record { effective_date = end; deadline_missed = missed }
    else record { effective_date = next_period_end end months; deadline_missed = true }

unfoldable pub end_of_period : TerminationInput → Instant → Instant → TerminationDates
end_of_period i end deadline =
    period_dates (ltb deadline (utc_day i.today)) (months_of i.renewal_period_months) end

unfoldable pub compute_termination_effective_date :
    TerminationInput → Result NoticeError TerminationDates
compute_termination_effective_date i = elim i.period_end [
  | none ↦ do
    min ← add_notice (utc_day i.today) i.notice
    ok (record {
      effective_date = later_of (day_of_request i.requested_date) min;
      deadline_missed = false;
    })
  | some period_end ↦ do
    deadline ← notice_deadline (utc_day period_end) i.notice
    ok (end_of_period i (utc_day period_end) deadline)
]

pub record ChatelWindow : Type 0 where
  pub deadline : Instant
  pub earliest : Instant
  pub latest : Instant

unfoldable pub chatel_notice_window : Instant → Notice → Result NoticeError ChatelWindow
chatel_notice_window period_end notice = do
  deadline ← notice_deadline period_end notice
  ok (record {
    deadline = deadline;
    earliest = add_months_clamped deadline (negative 3);
    latest = add_months_clamped deadline (negative 1);
  })
