-- ===== src/Proposal/Events/Possible.antt =====
-- The list of possible events against the machine, expiry, and the ends of the life cycle.
use contrats.Base.{Bool, true, false, not, ◌≡◌, some, [], arith, ◌⊎◌}
use contrats.Base.Instant.{Instant}
use contrats.Base.Result.{ok, err, is_ok}
use contrats.Proposal.Types.{
  EntityId, ProposalSnapshot, ProposalEvent, event_type, includes, is_proposal_terminal, viewed,
  in_discussion,
}
use contrats.Proposal.Machine.{readiness_issue, invalid_transition, allowed_proposal_events}
use contrats.Proposal.Events.{apply_proposal_event}
use contrats.Proposal.Events.Presented.{IsConsistent}

-- The list of possible events is complete: it names every event that the machine accepts.
pub allowed_proposal_events_complete :
    (p : ProposalSnapshot) (event : ProposalEvent) (now : Instant) {p' : ProposalSnapshot}
    → apply_proposal_event p event now ≡ ok p'
    → includes (allowed_proposal_events p now) (event_type event) ≡ true
unfolding apply_proposal_event allowed_proposal_events readiness_issue
allowed_proposal_events_complete p (ProposalEvent.view) now h = ground arith
allowed_proposal_events_complete p _ now h = ground arith

-- Events whose outcome does not turn on what they carry.
abbrev pub is_decided : ProposalEvent → Bool
is_decided (ProposalEvent.approve_review _) = false
is_decided (ProposalEvent.reject_review _ _) = false
is_decided (ProposalEvent.send _) = false
is_decided (ProposalEvent.accept _) = false
is_decided (ProposalEvent.decline _ _) = false
is_decided (ProposalEvent.withdraw _) = false
is_decided (ProposalEvent.reactivate _ _) = false
is_decided _ = true

-- For the other events, on a proposal that meets the invariant, the list is exact: what it names at
-- an instant, the machine accepts then.
pub allowed_proposal_events_sound :
    (p : ProposalSnapshot) (event : ProposalEvent) (now : Instant)
    → IsConsistent p
    → is_decided event ≡ true
    → includes (allowed_proposal_events p now) (event_type event) ≡ true
    → is_ok (apply_proposal_event p event now) ≡ true
unfolding apply_proposal_event allowed_proposal_events readiness_issue
allowed_proposal_events_sound p (ProposalEvent.view) now v d h = ground arith
allowed_proposal_events_sound p _ now v d h = ground arith

-- A proposal under the client's eyes can at each instant either be accepted in its current version
-- or be declared expired, never both and never neither.
pub accept_or_expire :
    (p : ProposalSnapshot) (version : EntityId) (now : Instant)
    → (p.status ≡ viewed) ⊎ (p.status ≡ in_discussion)
    → p.current_version_id ≡ some version
    → is_ok (apply_proposal_event p (ProposalEvent.accept version) now)
      ≡ not (is_ok (apply_proposal_event p ProposalEvent.expire now))
unfolding apply_proposal_event allowed_proposal_events
accept_or_expire p version now s c = ground arith

-- A proposal in a terminal status refuses every event, and names none as possible.
pub proposal_terminal_absorbs :
    (p : ProposalSnapshot) (event : ProposalEvent) (now : Instant)
    → is_proposal_terminal p.status ≡ true
    → (apply_proposal_event p event now ≡ err (invalid_transition p.status (event_type event) []))
      × (allowed_proposal_events p now ≡ [])
unfolding apply_proposal_event allowed_proposal_events
proposal_terminal_absorbs p event now h = (ground arith, ground arith)
