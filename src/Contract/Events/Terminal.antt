-- ===== src/Contract/Events/Terminal.antt =====
-- The ends of the life cycle, and what no event changes.
use contrats.Base.{true, ◌≡◌, none, some, List, [], ◌∷◌, arith, ◌⊎◌, ◌<◌, Option}
use contrats.Base.Text.{Text, is_blank}
use contrats.Base.Instant.{Instant}
use contrats.Base.Result.{ok, err, ◌>>=◌}
use contrats.Contract.Types.{
  ContractStatus, ContractSnapshot, ContractEvent, event_type, is_terminal, signed, active, expired,
  terminated, renewed, cancelled, renewal_due, termination_pending,
}
use contrats.Contract.Machine.{invalid_transition, allowed_events}
use contrats.Contract.Events.{Outcome, apply_event}

-- A contract in a terminal status refuses every event, and names none as possible.
pub terminal_absorbs :
    (c : ContractSnapshot) (event : ContractEvent) (now : Instant)
    → is_terminal c.status ≡ true
    → (apply_event c event now ≡ err (invalid_transition c.status (event_type event) []))
      × (allowed_events c (some now) ≡ [])
unfolding apply_event allowed_events
terminal_absorbs c event now h = (ground arith, ground arith)

-- The term after an event lies later than the term before it.
abbrev pub Extends : Option Instant → Option Instant → Type 0
Extends (some before) (some after) = before < after
Extends _ _ = ⊥

-- What an event may not change: whose contract it is and what it holds.
pub record HasSameContent (c c' : ContractSnapshot) : Type 0 where
  pub same_id : c'.id ≡ c.id
  pub same_type : c'.type ≡ c.type
  pub same_start : c'.start_date ≡ c.start_date
  pub same_notice : c'.notice_period_days ≡ c.notice_period_days
  pub same_version : c'.current_version_id ≡ c.current_version_id
  pub same_missing : c'.has_missing_variables ≡ c.has_missing_variables
  pub same_end : (c'.end_date ≡ c.end_date) ⊎ Extends c.end_date c'.end_date
  pub same_unreviewed : c'.has_unreviewed_ai_clauses ≡ c.has_unreviewed_ai_clauses

-- No event changes the identity, the type, the start, the notice period or the current version of a
-- contract, nor whether it has missing variables or clauses that nobody reviewed; an event that
-- changes the end date moves it to a later one.
pub apply_event-HasSameContent :
    (c : ContractSnapshot) (event : ContractEvent) (now : Instant) {c' : ContractSnapshot}
    → apply_event c event now ≡ ok c'
    → HasSameContent c c'
unfolding apply_event
apply_event-HasSameContent c (ContractEvent.approve a) now h = ground arith
apply_event-HasSameContent c _ now h = ground arith

-- Events one after another, at one instant.
unfoldable pub apply_all : ContractSnapshot → List ContractEvent → Instant → Outcome
apply_all c [] now = ok c
apply_all c (event ∷ events) now = apply_event c event now >>= λ c'. apply_all c' events now

abbrev motive : Text
motive = 120 ∷ []

abbrev closing_terminate : Instant → ContractEvent
closing_terminate now = ContractEvent.terminate (record {
  actor_user_id = 1;
  reason = motive;
  effective_date = now;
  is_admin = true;
  override_reason = some motive;
  min_effective_date = none;
})

-- Events with which an administrator closes a contract.
abbrev pub closing_events : ContractStatus → Instant → List ContractEvent
closing_events signed now = closing_terminate now ∷ []
closing_events active now = closing_terminate now ∷ []
closing_events renewal_due now = closing_terminate now ∷ []
closing_events termination_pending now =
    ContractEvent.withdraw_termination 1 motive ∷ closing_terminate now ∷ []
closing_events expired now = ContractEvent.mark_renewed 1 ∷ []
closing_events terminated now = []
closing_events renewed now = []
closing_events cancelled now = []
closing_events _ now = ContractEvent.cancel 1 motive ∷ []

abbrev pub IsClosed : Outcome → Type 0
IsClosed (ok c) = is_terminal c.status ≡ true
IsClosed (err e) = ⊥

-- No status is a dead end: from any contract, at any instant, an administrator reaches a terminal
-- status by at most two events.
pub closing_events-IsClosed :
    (c : ContractSnapshot) (now : Instant)
    → IsClosed (apply_all c (closing_events c.status now) now)
unfolding apply_event apply_all is_blank
closing_events-IsClosed c now = ground arith
