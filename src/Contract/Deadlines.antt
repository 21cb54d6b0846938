-- ===== src/Contract/Deadlines.antt =====
-- packages/domain/src/contract/deadlines.ts: the deadlines of a contract that binds its parties.
pub mod Due
pub mod Listed
pub mod Schedule
use contrats.Base.{
  Bool, true, false, not, ◌&&◌, if◌then◌else◌, Option, none, some, List, [], ◌∷◌, ◌++◌, ℕ,
}
use contrats.Base.Instant.{Instant, day_of}
use contrats.Base.Result.{Result, ok, err, ◌>>=◌}
use contrats.Contract.Types.{ContractStatus, signed, active, renewal_due, termination_pending}
use contrats.Contract.Dates.{
  Notice, NoticeError, notice_deadline, ChatelWindow, chatel_notice_window,
}

-- `NOTICE_DEADLINE` is `notice_limit`, since `notice_deadline` is the function.
pub data DeadlineKind : Type 0 where
  period_end notice_limit price_revision renewal_decision chatel_notice termination_effective :
      DeadlineKind

-- `NONE` is `no_renewal`.
pub data RenewalMode : Type 0 where
  no_renewal tacit express : RenewalMode

pub record DeadlineFacts : Type 0 where
  pub status : ContractStatus
  pub start_date : Option Instant
  pub end_date : Option Instant
  pub notice : Notice
  pub renewal_mode : RenewalMode
  pub renewal_period_months : Option ℕ
  pub chatel_applies : Bool
  pub termination_effective_date : Option Instant
  pub next_price_revision_date : Option Instant

-- The three forms of the texts that go with a deadline; `iso` keeps the day of a date.
pub data Details : Type 0 where
  no_details : Details
  of_period : (period_end : ℕ) → Details
  of_window : (latest notice_deadline period_end : ℕ) → Details

pub record ComputedDeadline : Type 0 where
  pub kind : DeadlineKind
  pub due_date : Instant
  pub details : Details

-- `ENGAGED.includes(f.status)`
abbrev pub is_engaged : ContractStatus → Bool
is_engaged signed = true
is_engaged active = true
is_engaged renewal_due = true
is_engaged termination_pending = true
is_engaged _ = false

abbrev pub is_terminating : ContractStatus → Bool
is_terminating termination_pending = true
is_terminating _ = false

abbrev pub deadline : DeadlineKind → Instant → Details → ComputedDeadline
deadline k d details = record { kind = k; due_date = d; details = details }

abbrev pub termination_deadlines : Bool → Option Instant → List ComputedDeadline
termination_deadlines true (some d) = deadline termination_effective d no_details ∷ []
termination_deadlines _ _ = []

abbrev pub revision_deadlines : Option Instant → List ComputedDeadline
revision_deadlines (some d) = deadline price_revision d no_details ∷ []
revision_deadlines none = []

abbrev pub chatel_deadline : Instant → ChatelWindow → ComputedDeadline
chatel_deadline end w =
    deadline chatel_notice w.earliest (of_window (day_of w.latest) (day_of w.deadline) (day_of end))

-- The decision that a renewal asks for, or the notice that the law asks for.
unfoldable pub renewal_deadlines :
    RenewalMode → Bool → Instant → Notice → Instant → Result NoticeError (List ComputedDeadline)
renewal_deadlines express chatel end notice limit =
    ok (deadline renewal_decision limit (of_period (day_of end)) ∷ [])
renewal_deadlines tacit true end notice limit = do
  w ← chatel_notice_window end notice
  ok (chatel_deadline end w ∷ [])
renewal_deadlines _ _ end notice limit = ok []

-- What a termination that is scheduled leaves without object.
unfoldable pub notice_deadlines :
    Bool → DeadlineFacts → Instant → Instant → Result NoticeError (List ComputedDeadline)
notice_deadlines true f end limit = ok []
notice_deadlines false f end limit = do
  renewal ← renewal_deadlines f.renewal_mode f.chatel_applies end f.notice limit
  ok (deadline notice_limit limit (of_period (day_of end)) ∷ renewal)

unfoldable pub period_deadlines :
    DeadlineFacts → Option Instant → Result NoticeError (List ComputedDeadline)
period_deadlines f none = ok []
period_deadlines f (some end) = do
  limit ← notice_deadline end f.notice
  rest ← notice_deadlines (is_terminating f.status) f end limit
  ok (deadline period_end end no_details ∷ rest)

unfoldable pub engaged_deadlines : DeadlineFacts → Result NoticeError (List ComputedDeadline)
engaged_deadlines f = do
  period ← period_deadlines f f.end_date
  ok (
      termination_deadlines (is_terminating f.status) f.termination_effective_date
      ++ (period ++ revision_deadlines f.next_price_revision_date))

-- The second argument of the code, the time of the call, is not used.
unfoldable pub compute_deadlines :
    DeadlineFacts → Instant → Result NoticeError (List ComputedDeadline)
compute_deadlines f now = if is_engaged f.status then engaged_deadlines f else ok []
