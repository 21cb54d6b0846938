-- ===== src/Proposal/Types.antt =====
-- packages/domain/src/proposal/proposal.types.ts: statuses, the snapshot and the events. An
-- identifier is numbered, with 0 for the empty text, and the counters are natural numbers.
use contrats.Base.{ℕ, Bool, true, false, Option, List, any, ◌==◌}
use contrats.Base.Text.{Text}
use contrats.Base.Instant.{Instant}

pub data ProposalStatus : Type 0 where
  draft in_internal_review ready sent viewed in_discussion accepted pending_signature signed
        converted expired declined withdrawn :
      ProposalStatus

-- `PROPOSAL_TERMINAL_STATUSES.includes(s)`, `isProposalTerminal`
abbrev pub is_proposal_terminal : ProposalStatus → Bool
is_proposal_terminal converted = true
is_proposal_terminal declined = true
is_proposal_terminal withdrawn = true
is_proposal_terminal _ = false

pub data AcceptanceMode : Type 0 where
  docuseal_signature click_accept : AcceptanceMode

abbrev pub EntityId : Type 0
EntityId = ℕ

pub record ProposalSnapshot : Type 0 where
  pub id : EntityId
  pub status : ProposalStatus
  pub current_version_id : Option EntityId
  pub acceptance_mode : AcceptanceMode
  pub expires_at : Option Instant
  pub review_required : Bool
  pub review_submitted_by_user_id : Option EntityId
  pub review_approved_version_id : Option EntityId
  pub accepted_version_id : Option EntityId
  pub has_recipients : Bool
  pub has_signer : Bool
  pub unresolved_merge_tags : ℕ
  pub blocking_validations : ℕ
  pub pricing_errors : ℕ

pub data ProposalEvent : Type 0 where
  submit_for_review : EntityId → ProposalEvent
  approve_review : EntityId → ProposalEvent
  reject_review : EntityId → Text → ProposalEvent
  mark_ready : EntityId → ProposalEvent
  send : Instant → ProposalEvent
  view open_discussion close_discussion : ProposalEvent
  accept : EntityId → ProposalEvent
  start_signature complete_click_accept signature_completed : ProposalEvent
  signature_declined : Text → ProposalEvent
  signature_expired : ProposalEvent
  convert : EntityId → ProposalEvent
  expire : ProposalEvent
  decline : Text → Text → ProposalEvent
  withdraw : Text → ProposalEvent
  reactivate : Instant → Text → ProposalEvent
  revise : Text → ProposalEvent

pub data ProposalEventType : Type 0 where
  submit_for_review approve_review reject_review mark_ready send view open_discussion
        close_discussion accept start_signature complete_click_accept signature_completed
        signature_declined signature_expired convert expire decline withdraw reactivate revise :
      ProposalEventType

-- `event.type`
abbrev pub event_type : ProposalEvent → ProposalEventType
event_type (ProposalEvent.submit_for_review _) = ProposalEventType.submit_for_review
event_type (ProposalEvent.approve_review _) = ProposalEventType.approve_review
event_type (ProposalEvent.reject_review _ _) = ProposalEventType.reject_review
event_type (ProposalEvent.mark_ready _) = ProposalEventType.mark_ready
event_type (ProposalEvent.send _) = ProposalEventType.send
event_type ProposalEvent.view = ProposalEventType.view
event_type ProposalEvent.open_discussion = ProposalEventType.open_discussion
event_type ProposalEvent.close_discussion = ProposalEventType.close_discussion
event_type (ProposalEvent.accept _) = ProposalEventType.accept
event_type ProposalEvent.start_signature = ProposalEventType.start_signature
event_type ProposalEvent.complete_click_accept = ProposalEventType.complete_click_accept
event_type ProposalEvent.signature_completed = ProposalEventType.signature_completed
event_type (ProposalEvent.signature_declined _) = ProposalEventType.signature_declined
event_type ProposalEvent.signature_expired = ProposalEventType.signature_expired
event_type (ProposalEvent.convert _) = ProposalEventType.convert
event_type ProposalEvent.expire = ProposalEventType.expire
event_type (ProposalEvent.decline _ _) = ProposalEventType.decline
event_type (ProposalEvent.withdraw _) = ProposalEventType.withdraw
event_type (ProposalEvent.reactivate _ _) = ProposalEventType.reactivate
event_type (ProposalEvent.revise _) = ProposalEventType.revise

abbrev pub event_code : ProposalEventType → ℕ
event_code ProposalEventType.submit_for_review = 0
event_code ProposalEventType.approve_review = 1
event_code ProposalEventType.reject_review = 2
event_code ProposalEventType.mark_ready = 3
event_code ProposalEventType.send = 4
event_code ProposalEventType.view = 5
event_code ProposalEventType.open_discussion = 6
event_code ProposalEventType.close_discussion = 7
event_code ProposalEventType.accept = 8
event_code ProposalEventType.start_signature = 9
event_code ProposalEventType.complete_click_accept = 10
event_code ProposalEventType.signature_completed = 11
event_code ProposalEventType.signature_declined = 12
event_code ProposalEventType.signature_expired = 13
event_code ProposalEventType.convert = 14
event_code ProposalEventType.expire = 15
event_code ProposalEventType.decline = 16
event_code ProposalEventType.withdraw = 17
event_code ProposalEventType.reactivate = 18
event_code ProposalEventType.revise = 19

-- `types.includes(type)`
abbrev pub includes : List ProposalEventType → ProposalEventType → Bool
includes types type = any (λ t. event_code t == event_code type) types
