-- ===== src/Contract/Dates/Effective.antt =====
-- The effective date of a termination, against the period and the date asked for.
use contrats.Base.{
  ℕ, ◌+◌, ◌-◌, ◌≤◌, ◌<◌, ◌≡◌, refl, sym, ap, ◌∙◌, ◌↔◌, arith, Bool, true, false, ltb, zero, suc,
  Option, none, some,
}
use mathlib.Core.Path.{subst}
use native.Mathlib.Decide.{dec_lt}
use contrats.Base.Int.{pos, pos_part, neg_part}
use contrats.Base.Instant.{Instant, midnight, day_of}
use contrats.Base.Calendar.{month_index}
use contrats.Base.Calendar.Laws.{january_100, day_of-midnight}
use contrats.Base.Result.{ok, ok-injective}
use contrats.Contract.Dates.{
  Notice, utc_day, negative, add_months_clamped, subtract_days_or_months, subtract_notice,
  notice_deadline, next_period_end, TerminationInput, TerminationDates, months_of, period_dates,
  end_of_period, compute_termination_effective_date,
}
use contrats.Contract.Dates.Shift.{
  IsCurrent, IsMonthsFrom, utc_day-midnight, add_months_clamped-IsMonthsFrom, months_back,
  month_index-midnight, sub_ℕ_parts, utc_day_again,
}
use contrats.Contract.Dates.Periods.{add_days-midnight, next_period_end-IsMonthsFrom}

negative_parts : (n : ℕ) → (pos_part (negative n) ≡ 0) × (neg_part (negative n) ≡ n)
negative_parts n = let (p, q) = sub_ℕ_parts 0 n in (omega arith, omega arith)

deadline_not_after :
    (e : ℕ) (days months : Option ℕ) (d : Instant)
    → january_100 + months_of months ≤ month_index (midnight e)
    → subtract_days_or_months (midnight e) days months ≡ ok d
    → day_of d ≤ e
unfolding subtract_days_or_months
deadline_not_after e (some n) (some m) d h k = cc
deadline_not_after e (some n) none d h k =
    let is : midnight (day_of (midnight e) + pos_part (negative n) - neg_part (negative n)) ≡ d =
      sym (add_days-midnight (midnight e) (negative n) (omega arith)) ∙ ok-injective k in
    omega (arith, day_of-midnight e, negative_parts n)
deadline_not_after e none none d h k =
    let is : midnight e ≡ d = sym (utc_day_again e (omega arith)) ∙ ok-injective k in
    omega (arith, day_of-midnight e)
deadline_not_after e none (some m) d h k =
    let (p, q) = negative_parts m in
    let is : add_months_clamped (midnight e) (negative m) ≡ d =
      ap (λ t. add_months_clamped t (negative m)) (sym (utc_day_again e (omega arith)))
      ∙ ok-injective k in
    let from =
      add_months_clamped-IsMonthsFrom (midnight e) (negative m) (omega arith) (omega arith) in
    subst (λ t. day_of t ≤ e) is
      (omega (arith, day_of-midnight e, months_back (midnight e) _ (negative m) p from))

pub deadline_of_notice :
    (e : ℕ) (n : Notice) (d : Instant)
    → january_100 + months_of n.months ≤ month_index (midnight e)
    → notice_deadline (midnight e) n ≡ ok d
    → day_of d ≤ e
unfolding notice_deadline subtract_notice
deadline_of_notice e n d h k = deadline_not_after e n.days n.months d h k

before_midnight : (d n : ℕ) → day_of d < n → ltb d (midnight n) ≡ true
before_midnight d n h = ground arith

midnight_before : (d n : ℕ) → (ltb d (midnight n) ≡ true) ↔ (day_of d < n)
midnight_before d n = (λ h. ground arith, before_midnight d n)

-- The effective date of a termination that comes in time, and of one that comes late, for a period
-- that ends on day `e`, with no renewal or one of some months.
abbrev pub IsEndOfPeriod : ℕ → ℕ → ℕ → ℕ → TerminationDates → Type 0
IsEndOfPeriod today deadline e months r =
    ((r.deadline_missed ≡ true) ↔ (deadline < today))
    × (deadline ≤ e)
    × (r.deadline_missed ≡ false → (today ≤ e) × (r.effective_date ≡ midnight e))
    × (r.deadline_missed ≡ true → months ≡ 0 → r.effective_date ≡ midnight e)
    × (r.deadline_missed ≡ true
        → 1 ≤ months
        → (e < day_of r.effective_date)
          × IsMonthsFrom (midnight (e + 1)) (pos months) (midnight (day_of r.effective_date + 1)))

next_period :
    (e months : ℕ)
    → IsCurrent (midnight e)
    → 1 ≤ months
    → let r = next_period_end (midnight e) months in
      (e < day_of r) × IsMonthsFrom (midnight (e + 1)) (pos months) (midnight (day_of r + 1))
next_period e months h some_months =
    let (from, later) = next_period_end-IsMonthsFrom (midnight e) months h in
    let day = day_of-midnight e in
    (
      omega (arith, later some_months),
      subst
          (λ d.
            IsMonthsFrom (midnight (d + 1)) (pos months)
              (midnight (day_of (next_period_end (midnight e) months) + 1)))
          day from,
    )

not_both : false ≡ true → ⊥
not_both h = cc

renewed :
    (m : ℕ) (end : Instant)
    → 1 ≤ m
    → period_dates true m end
      ≡ record { effective_date = next_period_end end m; deadline_missed = true }
unfolding period_dates
renewed m end h = ground arith

in_time : (d today : ℕ) → (false ≡ true) ↔ (d < today) → today ≤ d
in_time d today late = elim (dec_lt d today) [
  | yes less ↦ absurd (not_both (late.1 less))
  | no not_less ↦ omega arith
]

period_dates-IsEndOfPeriod :
    (missed : Bool) (today deadline e months : ℕ)
    → IsCurrent (midnight e)
    → (missed ≡ true) ↔ (deadline < today)
    → deadline ≤ e
    → IsEndOfPeriod today deadline e months (period_dates missed months (midnight e))
unfolding period_dates
period_dates-IsEndOfPeriod false today deadline e months h late before =
    (late, before, λ k. (omega (arith, in_time deadline today late), refl), λ k. cc, λ k. cc)
period_dates-IsEndOfPeriod true today deadline e zero h late before =
    (late, before, λ k. cc, λ k z. refl, λ k z. absurd (omega arith))
period_dates-IsEndOfPeriod true today deadline e (suc m) h late before =
    rw (renewed (suc m) (midnight e) (omega arith)) (
      late,
      before,
      λ k. absurd (not_both (sym k)),
      λ k z. absurd (omega arith),
      λ k some_months. next_period e (suc m) h some_months,
    )

end_of_period-IsEndOfPeriod :
    (i : TerminationInput) (e today : ℕ) (d : Instant)
    → IsCurrent (midnight e)
    → utc_day i.today ≡ midnight today
    → day_of d ≤ e
    → IsEndOfPeriod today
        (day_of d)
        e
        (months_of i.renewal_period_months)
        (end_of_period i (midnight e) d)
unfolding end_of_period
end_of_period-IsEndOfPeriod i e today d h now before = rw now (
    period_dates-IsEndOfPeriod _ today (day_of d) e (months_of i.renewal_period_months) h
      (midnight_before d today) before)

compute_at :
    (i : TerminationInput) (period_end end d : Instant)
    → i.period_end ≡ some period_end
    → utc_day period_end ≡ end
    → notice_deadline (utc_day period_end) i.notice ≡ ok d
    → compute_termination_effective_date i ≡ ok (end_of_period i end d)
unfolding compute_termination_effective_date
compute_at i period_end end d period day deadline = rw (period, deadline, day) refl

-- A termination that is asked for in the year 100 or later, of a contract whose period ends in that
-- year or later, even before the months of its notice, and whose notice has a deadline, has an
-- effective date. The deadline is missed exactly when it lies before today, and it is not after the
-- end of the period. If it is not missed, today is not after the end and the contract ends there; if
-- it is and no renewal is agreed, or one of 0 months, it ends there too; with a renewal of some months
-- it ends with the next period, later than the end, on the day before the day that is so many months
-- after the day after the end.
pub period_termination :
    (i : TerminationInput) (end d : Instant)
    → i.period_end ≡ some end
    → january_100 ≤ month_index i.today
    → january_100 + months_of i.notice.months ≤ month_index end
    → notice_deadline (utc_day end) i.notice ≡ ok d
    → (r : TerminationDates) × (compute_termination_effective_date i ≡ ok r)
      × IsEndOfPeriod (day_of i.today) (day_of d) (day_of end) (months_of i.renewal_period_months) r
period_termination i end d period now late deadline =
    let e = day_of end in
    let day : utc_day end ≡ midnight e = utc_day-midnight end (omega arith) in
    let same = month_index-midnight end in
    let before = deadline_of_notice e i.notice d (omega arith) (rw (sym day) deadline) in
    (
      end_of_period i (midnight e) d,
      compute_at i end (midnight e) d period day deadline,
      end_of_period-IsEndOfPeriod i e (day_of i.today) d (omega arith)
          (utc_day-midnight i.today now) before,
    )
