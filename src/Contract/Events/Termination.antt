-- ===== src/Contract/Events/Termination.antt =====
-- Termination and its notice period (RM-20).
use contrats.Base.{
  ℕ, ◌+◌, ◌≤◌, ◌<◌, Bool, true, false, ◌≡◌, ◌↔◌, ◌⊎◌, Option, none, some, arith, leb, or_else,
}
use contrats.Base.Text.{is_blank}
use contrats.Base.Instant.{Instant, midnight, day_of}
use contrats.Base.Result.{ok, is_ok}
use contrats.Contract.Types.{
  ContractStatus, ContractSnapshot, TerminateEvent, ContractEvent, signed, active, terminated,
  renewal_due, termination_pending,
}
use contrats.Contract.Machine.{is_notice_respected}
use contrats.Contract.Events.{apply_event, lacks_override}

-- Notice is counted in days: for a date of effect at midnight the time of day of `now` is of no
-- account, and the notice is respected exactly when the day of effect lies at least the notice
-- period after today.
pub is_notice_respected_iff :
    (notice : Option ℕ) (day now : ℕ)
    → (is_notice_respected notice (midnight day) now ≡ true) ↔ (day_of now + or_else notice 0 ≤ day)
unfolding is_notice_respected
is_notice_respected_iff notice day now = (λ h. ground arith, λ h. ground arith)

-- The date of effect keeps the notice: from the due date where the event names one, else by the
-- notice period of the contract.
abbrev pub KeepsNotice : ContractSnapshot → TerminateEvent → Instant → Option Instant → Type 0
KeepsNotice c event now none =
    midnight (day_of now + or_else c.notice_period_days 0) ≤ event.effective_date
KeepsNotice c event now (some due) = day_of due ≤ day_of event.effective_date

-- An administrator who gives a reason for it may set the notice aside.
abbrev pub IsOverridden : TerminateEvent → Type 0
IsOverridden event = (event.is_admin ≡ true) × (lacks_override event.override_reason ≡ false)

abbrev pub in_force : ContractStatus → Bool
in_force signed = true
in_force active = true
in_force renewal_due = true
in_force _ = false

-- What an accepted termination leaves: the date of effect, and the status that it calls for.
abbrev pub IsTerminatedFrom : TerminateEvent → Instant → ContractSnapshot → Type 0
IsTerminatedFrom event now c' =
    (c'.termination_effective_date ≡ some event.effective_date)
    × ((now < event.effective_date) × (c'.status ≡ termination_pending)
        ⊎ (event.effective_date ≤ now) × (c'.status ≡ terminated) × (c'.terminated_at ≡ some now))

-- A termination that is accepted is one of a contract in force, has a reason, and keeps the notice
-- or is overridden; the contract is then terminating until the date of effect, or terminated at
-- once where that date has come.
pub terminate-accepted :
    (c : ContractSnapshot) (event : TerminateEvent) (now : Instant) {c' : ContractSnapshot}
    → apply_event c (ContractEvent.terminate event) now ≡ ok c'
    → (in_force c.status ≡ true)
      × (is_blank event.reason ≡ false)
      × (KeepsNotice c event now event.min_effective_date ⊎ IsOverridden event)
      × IsTerminatedFrom event now c'
unfolding apply_event is_notice_respected
terminate-accepted c event now h = ground arith

-- Conversely every termination that meets these conditions is accepted.
pub terminate_complete :
    (c : ContractSnapshot) (event : TerminateEvent) (now : Instant)
    → in_force c.status ≡ true
    → is_blank event.reason ≡ false
    → (KeepsNotice c event now event.min_effective_date ⊎ IsOverridden event)
    → is_ok (apply_event c (ContractEvent.terminate event) now) ≡ true
unfolding apply_event is_notice_respected
terminate_complete c event now f r k = ground arith

-- A termination that was scheduled takes effect from its date on, and not before.
pub scheduled_termination :
    (c : ContractSnapshot) (event : TerminateEvent) (now later : Instant) {c' : ContractSnapshot}
    → apply_event c (ContractEvent.terminate event) now ≡ ok c'
    → c'.status ≡ termination_pending
    → is_ok (apply_event c' ContractEvent.complete_termination later)
      ≡ leb event.effective_date later
unfolding apply_event
scheduled_termination c event now later h p = ground arith
