-- ===== src/Contract/Deadlines/Schedule.antt =====
-- `computeDeadlines` as a whole.
use contrats.Base.{
  ℕ, ◌≡◌, refl, ◌⊎◌, inl, inr, Bool, true, false, if◌then◌else◌, Option, none, some, List, [],
}
use contrats.Base.Instant.{Instant}
use contrats.Base.Result.{Result, ok, ◌>>=◌}
use contrats.Contract.Dates.{
  Notice, NoticeError, subtract_days_or_months, subtract_notice, notice_deadline,
  chatel_notice_window,
}
use contrats.Contract.Deadlines.{
  DeadlineKind, RenewalMode, tacit, express, no_renewal, DeadlineFacts, ComputedDeadline,
  is_engaged, is_terminating, renewal_deadlines, notice_deadlines, period_deadlines,
  engaged_deadlines, compute_deadlines,
}
use contrats.Contract.Deadlines.Due.{IsDue, AreOrdered, AreDue}
use contrats.Contract.Deadlines.Listed.{IsListed, engaged_deadlines-AreExactlyDue}

-- A notice that is not in days and in months.
abbrev pub IsOneNotice : Notice → Type 0
IsOneNotice n = (n.days ≡ none) ⊎ (n.months ≡ none)

subtract-ok :
    (end : Instant) (days months : Option ℕ)
    → (days ≡ none) ⊎ (months ≡ none)
    → (d : Instant) × (subtract_days_or_months end days months ≡ ok d)
unfolding subtract_days_or_months
subtract-ok end (some n) (some m) (inl h) = cc
subtract-ok end (some n) (some m) (inr h) = cc
subtract-ok end (some n) none h = (_, refl)
subtract-ok end none (some m) h = (_, refl)
subtract-ok end none none h = (_, refl)

notice_deadline-ok :
    (end : Instant) (n : Notice) → IsOneNotice n → (d : Instant) × (notice_deadline end n ≡ ok d)
unfolding notice_deadline subtract_notice
notice_deadline-ok end n h = subtract-ok end n.days n.months h

then_ok :
    {A B : Type 0} (r : Result NoticeError A) (f : A → Result NoticeError B)
    → (a : A) × (r ≡ ok a)
    → ((a : A) → (b : B) × (f a ≡ ok b))
    → (b : B) × (r >>= f ≡ ok b)
then_ok r f (a, h) next = let (b, k) = next a in (b, rw h k)

renewal_deadlines-ok :
    (mode : RenewalMode) (chatel : Bool) (end : Instant) (n : Notice) (limit : Instant)
    → IsOneNotice n
    → (xs : List ComputedDeadline) × (renewal_deadlines mode chatel end n limit ≡ ok xs)
unfolding renewal_deadlines chatel_notice_window
renewal_deadlines-ok express chatel end n limit h = (_, refl)
renewal_deadlines-ok tacit true end n limit h =
    then_ok _ _ (then_ok (notice_deadline end n) _ (notice_deadline-ok end n h) (λ d. (_, refl)))
      (λ w. (_, refl))
renewal_deadlines-ok tacit false end n limit h = (_, refl)
renewal_deadlines-ok no_renewal chatel end n limit h = (_, refl)

notice_deadlines-ok :
    (terminating : Bool) (f : DeadlineFacts) (end limit : Instant)
    → IsOneNotice f.notice
    → (xs : List ComputedDeadline) × (notice_deadlines terminating f end limit ≡ ok xs)
unfolding notice_deadlines
notice_deadlines-ok true f end limit h = (_, refl)
notice_deadlines-ok false f end limit h =
    then_ok _ _ (renewal_deadlines-ok f.renewal_mode f.chatel_applies end f.notice limit h)
      (λ rest. (_, refl))

period_deadlines-ok :
    (f : DeadlineFacts) (date : Option Instant)
    → IsOneNotice f.notice
    → (xs : List ComputedDeadline) × (period_deadlines f date ≡ ok xs)
unfolding period_deadlines
period_deadlines-ok f none h = (_, refl)
period_deadlines-ok f (some end) h = then_ok _ _ (notice_deadline-ok end f.notice h) (λ limit.
    then_ok _ _ (notice_deadlines-ok (is_terminating f.status) f end limit h) (λ rest. (_, refl)))

engaged_deadlines-ok :
    (f : DeadlineFacts)
    → IsOneNotice f.notice
    → (xs : List ComputedDeadline) × (engaged_deadlines f ≡ ok xs)
unfolding engaged_deadlines
engaged_deadlines-ok f h = then_ok _ _ (period_deadlines-ok f f.end_date h) (λ p. (_, refl))

-- The deadlines that a list is to hold.
abbrev pub AreExactlyDue : DeadlineFacts → List ComputedDeadline → Type 0
AreExactlyDue f xs =
    AreOrdered 0 xs 6
    × AreDue f xs
    × ((k : DeadlineKind) (d : Instant) → IsDue f k d → IsListed k d xs)

schedule_at :
    (f : DeadlineFacts) (engaged : Bool)
    → IsOneNotice f.notice
    → (xs : List ComputedDeadline) × ((if engaged then engaged_deadlines f else ok []) ≡ ok xs)
      × (engaged ≡ false → xs ≡ [])
      × (engaged ≡ true → AreExactlyDue f xs)
schedule_at f false h = ([], refl, λ _. refl, λ e. cc)
schedule_at f true h =
    let (xs, done) = engaged_deadlines-ok f h in
    (xs, done, λ e. cc, λ _. engaged_deadlines-AreExactlyDue f xs done)

-- A contract whose notice is not in days and in months has its deadlines: none as long as it does not
-- bind the parties, or no more. While it does, each kind comes at most once, and the kinds in one
-- order; every deadline is due by the facts of the contract, and every one that is due is there.
pub compute_deadlines-AreExactlyDue :
    (f : DeadlineFacts) (now : Instant)
    → (f.notice.days ≡ none) ⊎ (f.notice.months ≡ none)
    → (xs : List ComputedDeadline) × (compute_deadlines f now ≡ ok xs)
      × (is_engaged f.status ≡ false → xs ≡ [])
      × (is_engaged f.status ≡ true → AreExactlyDue f xs)
unfolding compute_deadlines
compute_deadlines-AreExactlyDue f now h = schedule_at f (is_engaged f.status) h
