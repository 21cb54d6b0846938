-- ===== src/Contract/Rows.antt =====
-- apps/api/src/contracts/snapshot.ts and apps/api/src/webhooks-out/contract-producers.ts: the rows
-- of one contract in the database, the snapshot that the machine reads, and the writing of a
-- transition. The columns that name the tenant and the customer are left out: they are copied.
use contrats.Base.{
  ℕ, Bool, true, false, not, ◌&&◌, Option, none, some, List, any, ltb, if◌then◌else◌,
}
use contrats.Base.Text.{Text, trim, is_empty}
use contrats.Base.Instant.{Instant}
use contrats.Signature.Order.{SignerParty, is_client}
use contrats.Contract.EventType.{ContractEventType}
use contrats.Contract.Types.{
  EntityId, ContractStatus, ContractType, ContractSnapshot, ContractEvent, event_type, signed,
  active, expired, terminated, renewed, cancelled, declined, renewal_due, termination_pending,
}

pub data ContractOrigin : Type 0 where
  native imported ai proposal : ContractOrigin

-- A row of `contracts`, with the parties of its signers and the statuses of its amendments where
-- they were loaded.
pub record ContractRow : Type 0 where
  pub id : EntityId
  pub type : ContractType
  pub status : ContractStatus
  pub origin : ContractOrigin
  pub start_date : Option Instant
  pub end_date : Option Instant
  pub notice_period_days : Option ℕ
  pub current_version_id : Option EntityId
  pub approved_version_id : Option EntityId
  pub accepted_version_id : Option EntityId
  pub signed_at : Option Instant
  pub activated_at : Option Instant
  pub terminated_at : Option Instant
  pub termination_effective_date : Option Instant
  pub archived_at : Option Instant
  pub unreviewed_ai_clauses : ℕ
  pub missing_variables : ℕ
  pub signers : Option (List SignerParty)
  pub amendments : List ContractStatus
  pub updated_at : Instant
  pub updated_by_user_id : EntityId

-- `SnapshotExtras`
pub record SnapshotExtras : Type 0 where
  pub submitted_by_user_id : Option EntityId
  pub has_signed_successor : Bool

-- `CLOSED_AMENDMENT.includes(status)`
abbrev pub is_closed_amendment : ContractStatus → Bool
is_closed_amendment cancelled = true
is_closed_amendment declined = true
is_closed_amendment terminated = true
is_closed_amendment expired = true
is_closed_amendment renewed = true
is_closed_amendment _ = false

-- `signers ? signers.some(test) : true`
abbrev pub some_signer : (SignerParty → Bool) → Option (List SignerParty) → Bool
some_signer test none = true
some_signer test (some signers) = any test signers

abbrev pub to_contract_snapshot : ContractRow → SnapshotExtras → ContractSnapshot
to_contract_snapshot c extras = record {
  id = c.id;
  type = c.type;
  status = c.status;
  start_date = c.start_date;
  end_date = c.end_date;
  notice_period_days = c.notice_period_days;
  current_version_id = c.current_version_id;
  approved_version_id = c.approved_version_id;
  submitted_by_user_id = extras.submitted_by_user_id;
  has_lsi_signer = some_signer (λ p. not (is_client p)) c.signers;
  has_client_signer = some_signer is_client c.signers;
  has_required_attachments = true;
  open_amendment_exists = any (λ s. not (is_closed_amendment s)) c.amendments;
  has_signed_successor = extras.has_signed_successor;
  signed_at = c.signed_at;
  activated_at = c.activated_at;
  terminated_at = c.terminated_at;
  accepted_version_id = c.accepted_version_id;
  has_unreviewed_ai_clauses = ltb 0 c.unreviewed_ai_clauses;
  termination_effective_date = c.termination_effective_date;
  has_missing_variables = ltb 0 c.missing_variables;
}

-- The `data` of the `update` of `persistTransition`.
abbrev pub updated_row : ContractRow → ContractSnapshot → Instant → EntityId → ContractRow
updated_row c next now user = record c {
  status = next.status;
  approved_version_id = next.approved_version_id;
  accepted_version_id = next.accepted_version_id;
  end_date = next.end_date;
  signed_at = next.signed_at;
  activated_at = next.activated_at;
  terminated_at = next.terminated_at;
  termination_effective_date = next.termination_effective_date;
  updated_at = now;
  updated_by_user_id = user;
}

pub record TransitionContext : Type 0 where
  pub event : ContractEventType
  pub reason : Option Text

-- `text.trim() || null`
abbrev trimmed : Text → Option Text
trimmed s = let t = trim s in if is_empty t then none else some t

-- `'reason' in event && typeof event.reason === 'string' ? event.reason.trim() || null : null`
reason_of : ContractEvent → Option Text
reason_of (ContractEvent.request_changes actor reason) = trimmed reason
reason_of (ContractEvent.open_negotiation actor reason) = trimmed reason
reason_of (ContractEvent.reopen_negotiation actor reason) = trimmed reason
reason_of (ContractEvent.signer_declined reason) = trimmed reason
reason_of (ContractEvent.close_renewal actor reason) = trimmed reason
reason_of (ContractEvent.cancel actor reason) = trimmed reason
reason_of (ContractEvent.withdraw_termination actor reason) = trimmed reason
reason_of (ContractEvent.terminate event) = trimmed event.reason
reason_of _ = none

unfoldable pub transition_context : ContractEvent → TransitionContext
unfolding reason_of
transition_context event = record { event = event_type event; reason = reason_of event }

-- The contract events of `WebhookEventType`.
pub data WebhookEventType : Type 0 where
  contract_signed contract_activated contract_renewal_due contract_renewed contract_terminated :
      WebhookEventType

-- `CONTRACT_STATUS_EVENTS`
abbrev pub contract_status_events : ContractStatus → Option WebhookEventType
contract_status_events signed = some contract_signed
contract_status_events active = some contract_activated
contract_status_events renewal_due = some contract_renewal_due
contract_status_events renewed = some contract_renewed
contract_status_events terminated = some contract_terminated
contract_status_events _ = none

-- `previousStatus && RESUMED_FROM.has(previousStatus)`
abbrev pub is_resumed_from : Option ContractStatus → Bool
is_resumed_from (some renewal_due) = true
is_resumed_from (some termination_pending) = true
is_resumed_from _ = false

abbrev is_active : ContractStatus → Bool
is_active active = true
is_active _ = false

abbrev is_renew_period : ContractEventType → Bool
is_renew_period ContractEventType.renew_period = true
is_renew_period _ = false

abbrev pub contract_event_for :
    ContractStatus → ContractEventType → Option ContractStatus → Option WebhookEventType
contract_event_for status event previous =
    if is_renew_period event
    then some contract_renewed
    else if is_active status && is_resumed_from previous
    then none
    else contract_status_events status
