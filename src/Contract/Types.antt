-- ===== src/Contract/Types.antt =====
-- packages/domain/src/contract/contract.types.ts: statuses, the snapshot and the events.
-- An identifier is a text that the machine compares and tests for emptiness; it is numbered, with
-- 0 for the empty text. A field that is absent reads as `null` or `false`.
use contrats.Base.{ℕ, Bool, true, false, Option, List, [], ◌∷◌}
use contrats.Base.Text.{Text}
use contrats.Base.Instant.{Instant}
use contrats.Contract.EventType.{ContractEventType}

pub data ContractStatus : Type 0 where
  draft in_review changes_requested approved pending_signature partially_signed signed active
        expired terminated renewed cancelled declined sent_to_client in_negotiation accepted
        signature_expired renewal_due termination_pending imported_pending_validation :
      ContractStatus

-- `CONTRACT_STATUSES`
abbrev pub contract_statuses : List ContractStatus
contract_statuses =
    draft ∷ in_review ∷ changes_requested ∷ approved ∷ pending_signature ∷ partially_signed ∷ signed
    ∷ active ∷ expired ∷ terminated ∷ renewed ∷ cancelled ∷ declined ∷ sent_to_client
    ∷ in_negotiation ∷ accepted ∷ signature_expired ∷ renewal_due ∷ termination_pending
    ∷ imported_pending_validation ∷ []

-- `TERMINAL_STATUSES.includes(s)`
abbrev pub is_terminal : ContractStatus → Bool
is_terminal terminated = true
is_terminal renewed = true
is_terminal cancelled = true
is_terminal _ = false

-- `EDITABLE_STATUSES.includes(s)`
abbrev pub is_editable : ContractStatus → Bool
is_editable draft = true
is_editable changes_requested = true
is_editable in_negotiation = true
is_editable _ = false

pub data ContractType : Type 0 where
  main amendment : ContractType

abbrev pub EntityId : Type 0
EntityId = ℕ

pub record ContractSnapshot : Type 0 where
  pub id : EntityId
  pub type : ContractType
  pub status : ContractStatus
  pub start_date : Option Instant
  pub end_date : Option Instant
  pub notice_period_days : Option ℕ
  pub current_version_id : Option EntityId
  pub approved_version_id : Option EntityId
  pub submitted_by_user_id : Option EntityId
  pub has_lsi_signer : Bool
  pub has_client_signer : Bool
  pub has_required_attachments : Bool
  pub open_amendment_exists : Bool
  pub has_signed_successor : Bool
  pub signed_at : Option Instant
  pub activated_at : Option Instant
  pub terminated_at : Option Instant
  pub accepted_version_id : Option EntityId
  pub has_unreviewed_ai_clauses : Bool
  pub termination_effective_date : Option Instant
  pub has_missing_variables : Bool

-- The payload of TERMINATE.
pub record TerminateEvent : Type 0 where
  pub actor_user_id : EntityId
  pub reason : Text
  pub effective_date : Instant
  pub is_admin : Bool
  pub override_reason : Option Text
  pub min_effective_date : Option Instant

pub data ContractEvent : Type 0 where
  submit_for_review : EntityId → ContractEvent
  approve : EntityId → ContractEvent
  request_changes : EntityId → Text → ContractEvent
  edit_content : EntityId → ContractEvent
  send_to_client : EntityId → ContractEvent
  client_accept : EntityId → ContractEvent
  open_negotiation : EntityId → Text → ContractEvent
  reopen_negotiation : EntityId → Text → ContractEvent
  send_for_signature : EntityId → ContractEvent
  revoke_signature : EntityId → ContractEvent
  signer_signed : Bool → ContractEvent
  signer_declined : Text → ContractEvent
  signature_expire : ContractEvent
  activate : ContractEvent
  validate_import : EntityId → ContractEvent
  expire : ContractEvent
  open_renewal : ContractEvent
  renew_period : Instant → ContractEvent
  close_renewal : EntityId → Text → ContractEvent
  mark_renewed : EntityId → ContractEvent
  cancel : EntityId → Text → ContractEvent
  terminate : TerminateEvent → ContractEvent
  complete_termination : ContractEvent
  withdraw_termination : EntityId → Text → ContractEvent

-- `event.type`
abbrev pub event_type : ContractEvent → ContractEventType
event_type (submit_for_review _) = ContractEventType.submit_for_review
event_type (approve _) = ContractEventType.approve
event_type (request_changes _ _) = ContractEventType.request_changes
event_type (edit_content _) = ContractEventType.edit_content
event_type (send_to_client _) = ContractEventType.send_to_client
event_type (client_accept _) = ContractEventType.client_accept
event_type (open_negotiation _ _) = ContractEventType.open_negotiation
event_type (reopen_negotiation _ _) = ContractEventType.reopen_negotiation
event_type (send_for_signature _) = ContractEventType.send_for_signature
event_type (revoke_signature _) = ContractEventType.revoke_signature
event_type (signer_signed _) = ContractEventType.signer_signed
event_type (signer_declined _) = ContractEventType.signer_declined
event_type signature_expire = ContractEventType.signature_expire
event_type activate = ContractEventType.activate
event_type (validate_import _) = ContractEventType.validate_import
event_type expire = ContractEventType.expire
event_type open_renewal = ContractEventType.open_renewal
event_type (renew_period _) = ContractEventType.renew_period
event_type (close_renewal _ _) = ContractEventType.close_renewal
event_type (mark_renewed _) = ContractEventType.mark_renewed
event_type (cancel _ _) = ContractEventType.cancel
event_type (terminate _) = ContractEventType.terminate
event_type complete_termination = ContractEventType.complete_termination
event_type (withdraw_termination _ _) = ContractEventType.withdraw_termination
