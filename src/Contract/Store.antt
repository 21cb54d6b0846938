-- ===== src/Contract/Store.antt =====
-- The rows of one contract that a session sees, and the writing of a transition:
-- `persistTransition` of apps/api/src/contracts/snapshot.ts and `publishContractTransition` of
-- apps/api/src/webhooks-out/contract-producers.ts. A transaction that throws writes nothing.
use contrats.Base.{
  ℕ, ◌==◌, Bool, true, false, Option, none, some, is_some, List, [], ◌∷◌, map, leb, if◌then◌else◌,
}
use contrats.Base.Text.{Text}
use contrats.Base.Instant.{Instant}
use contrats.Contract.Types.{EntityId, ContractStatus, ContractSnapshot, ContractEvent, event_type}
use contrats.Contract.Rows.{
  ContractRow, TransitionContext, WebhookEventType, updated_row, transition_context,
  contract_event_for,
}

-- `ApprovalDecision`
pub data Decision : Type 0 where
  pending approved changes_requested : Decision

-- A row of `contract_approvals`
pub record Approval : Type 0 where
  pub id : EntityId
  pub version_id : Option EntityId
  pub submitted_by_user_id : EntityId
  pub decision : Decision
  pub submitted_at : Instant
  pub decided_by_user_id : Option EntityId
  pub decided_at : Option Instant
  pub reason : Option Text

-- A row of `cancellations` of the type CANCELLATION
pub record Cancellation : Type 0 where
  pub id : EntityId
  pub reason : Text
  pub effective_date : Instant
  pub created_by_user_id : EntityId
  pub created_at : Instant

-- A row of `contract_versions`
pub record Version : Type 0 where
  pub id : EntityId
  pub version_number : ℕ
  pub body_html : Text
  pub change_summary : Option Text
  pub created_at : Instant
  pub created_by_user_id : EntityId

-- What the outbox receives. The payload copies columns of the row `after`.
pub record PublishedEvent : Type 0 where
  pub type : WebhookEventType
  pub resource_id : EntityId
  pub previous_status : ContractStatus
  pub after : ContractRow
  pub occurred_at : Instant

-- `context` is the setting that the trigger on `contracts` reads.
pub record ContractStore : Type 0 where
  pub contract : Option ContractRow
  pub approvals : List Approval
  pub cancellations : List Cancellation
  pub versions : List Version
  pub context : Option TransitionContext
  pub published : List PublishedEvent

abbrev pub is_pending : Decision → Bool
is_pending pending = true
is_pending _ = false

-- The later of a pending approval and those after it.
abbrev pub later : Approval → Option Approval → Approval
later a none = a
later a (some b) = if leb b.submitted_at a.submitted_at then a else b

-- `findFirst({ where: { decision: 'PENDING' }, orderBy: { submittedAt: 'desc' } })`: of rows
-- submitted at one instant the first.
unfoldable pub latest_pending : List Approval → Option Approval
latest_pending [] = none
latest_pending (a ∷ approvals) =
    let rest = latest_pending approvals in
    if is_pending a.decision then some (later a rest) else rest

-- `contractApproval.update({ where: { id }, data })`
abbrev pub update_approval : EntityId → (Approval → Approval) → List Approval → List Approval
update_approval id f = map (λ a. if a.id == id then f a else a)

-- The place of a status in `CONTRACT_STATUSES`.
abbrev pub status_code : ContractStatus → ℕ
status_code ContractStatus.draft = 0
status_code ContractStatus.in_review = 1
status_code ContractStatus.changes_requested = 2
status_code ContractStatus.approved = 3
status_code ContractStatus.pending_signature = 4
status_code ContractStatus.partially_signed = 5
status_code ContractStatus.signed = 6
status_code ContractStatus.active = 7
status_code ContractStatus.expired = 8
status_code ContractStatus.terminated = 9
status_code ContractStatus.renewed = 10
status_code ContractStatus.cancelled = 11
status_code ContractStatus.declined = 12
status_code ContractStatus.sent_to_client = 13
status_code ContractStatus.in_negotiation = 14
status_code ContractStatus.accepted = 15
status_code ContractStatus.signature_expired = 16
status_code ContractStatus.renewal_due = 17
status_code ContractStatus.termination_pending = 18
status_code ContractStatus.imported_pending_validation = 19

-- `===` on statuses
abbrev pub same_status : ContractStatus → ContractStatus → Bool
same_status s t = status_code s == status_code t

-- `publishContractTransition`: nothing when there is no event for the transition, or no change.
unfoldable pub publish_transition :
    ContractStatus
    → ContractRow
    → Option WebhookEventType
    → Instant
    → List PublishedEvent
    → List PublishedEvent
publish_transition previous after none now published = published
publish_transition previous after (some type) now published =
    if same_status previous after.status
    then published
    else record {
      type = type;
      resource_id = after.id;
      previous_status = previous;
      after = after;
      occurred_at = now;
    }
      ∷ published

-- `persistTransition` of the row `c`, by `user`.
unfoldable pub persist_transition :
    ContractStore
    → ContractRow
    → ContractEvent
    → ContractSnapshot
    → Instant
    → EntityId
    → ContractStore
unfolding publish_transition
persist_transition store c event next now user =
    let after = updated_row c next now user in
    let type = event_type event in
    record store {
      contract = some after;
      context = some (transition_context event);
      published =
          if is_some (contract_event_for next.status type none)
          then publish_transition c.status after
              (contract_event_for after.status type (some c.status)) now store.published
          else store.published;
    }
