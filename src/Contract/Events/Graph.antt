-- ===== src/Contract/Events/Graph.antt =====
-- The diagram of the life cycle (docs/contrats/02-cycle-de-vie.md, section 3), without the guards:
-- an edge is a status, the kind of event, and the status after it.
use contrats.Base.{◌≡◌, arith}
use contrats.Base.Instant.{Instant}
use contrats.Base.Result.{ok}
use contrats.Contract.EventType.{
  ContractEventType, submit_for_review, approve, request_changes, edit_content, send_to_client,
  client_accept, open_negotiation, reopen_negotiation, send_for_signature, revoke_signature,
  signer_signed, signer_declined, signature_expire, activate, validate_import, expire, open_renewal,
  renew_period, close_renewal, mark_renewed, cancel, terminate, complete_termination,
  withdraw_termination,
}
use contrats.Contract.Types.{
  ContractStatus, ContractSnapshot, ContractEvent, event_type, draft, in_review, changes_requested,
  approved, pending_signature, partially_signed, signed, active, expired, terminated, renewed,
  cancelled, declined, sent_to_client, in_negotiation, accepted, signature_expired, renewal_due,
  termination_pending, imported_pending_validation,
}
use contrats.Contract.Events.{apply_event}

-- Statuses in which the signers are at work.
pub data IsSigning : ContractStatus → Type 0 where
  pending : IsSigning pending_signature
  partial : IsSigning partially_signed

-- Statuses before the signature of everyone, from which CANCEL is possible.
pub data IsOpen : ContractStatus → Type 0 where
  drafting : IsOpen draft
  reviewing : IsOpen in_review
  changing : IsOpen changes_requested
  approving : IsOpen approved
  presenting : IsOpen sent_to_client
  negotiating : IsOpen in_negotiation
  accepting : IsOpen accepted
  awaiting : IsOpen pending_signature
  completing : IsOpen partially_signed
  refusing : IsOpen declined
  lapsing : IsOpen signature_expired
  importing : IsOpen imported_pending_validation

-- Statuses in which the contract binds the parties and can be terminated.
pub data IsInForce : ContractStatus → Type 0 where
  on_signed : IsInForce signed
  on_active : IsInForce active
  on_renewal : IsInForce renewal_due

pub data Edge : ContractStatus → ContractEventType → ContractStatus → Type 0 where
  submit_draft : Edge draft submit_for_review in_review
  resubmit : Edge changes_requested submit_for_review in_review
  resubmit_negotiated : Edge in_negotiation submit_for_review in_review
  approve_review : Edge in_review approve approved
  send_back : Edge in_review request_changes changes_requested
  edit_draft : Edge draft edit_content draft
  edit_changes : Edge changes_requested edit_content changes_requested
  edit_negotiated : Edge in_negotiation edit_content in_negotiation
  edit_approved : Edge approved edit_content draft
  present : Edge approved send_to_client sent_to_client
  present_again : Edge in_negotiation send_to_client sent_to_client
  accept : Edge sent_to_client client_accept accepted
  negotiate : Edge sent_to_client open_negotiation in_negotiation
  negotiate_accepted : Edge accepted open_negotiation in_negotiation
  reopen_declined : Edge declined reopen_negotiation in_negotiation
  reopen_expired : Edge signature_expired reopen_negotiation in_negotiation
  send_approved : Edge approved send_for_signature pending_signature
  send_accepted : Edge accepted send_for_signature pending_signature
  send_expired : Edge signature_expired send_for_signature pending_signature
  revoke_to_accepted : {s : ContractStatus} → IsSigning s → Edge s revoke_signature accepted
  revoke_to_approved : {s : ContractStatus} → IsSigning s → Edge s revoke_signature approved
  sign_one : {s : ContractStatus} → IsSigning s → Edge s signer_signed partially_signed
  sign_all : {s : ContractStatus} → IsSigning s → Edge s signer_signed signed
  decline : {s : ContractStatus} → IsSigning s → Edge s signer_declined declined
  lapse : {s : ContractStatus} → IsSigning s → Edge s signature_expire signature_expired
  wait : Edge signed activate signed
  start : Edge signed activate active
  import_expired : Edge imported_pending_validation validate_import expired
  import_signed : Edge imported_pending_validation validate_import signed
  import_active : Edge imported_pending_validation validate_import active
  renewal_opens : Edge active open_renewal renewal_due
  prolong : Edge renewal_due renew_period active
  renewal_closes : Edge renewal_due close_renewal active
  end_active : Edge active expire expired
  end_renewal : Edge renewal_due expire expired
  succeed_active : Edge active expire renewed
  succeed_renewal : Edge renewal_due expire renewed
  renew_active : Edge active mark_renewed renewed
  renew_due : Edge renewal_due mark_renewed renewed
  renew_late : Edge expired mark_renewed renewed
  give_notice : {s : ContractStatus} → IsInForce s → Edge s terminate termination_pending
  terminate_now : {s : ContractStatus} → IsInForce s → Edge s terminate terminated
  take_effect : Edge termination_pending complete_termination terminated
  withdraw : Edge termination_pending withdraw_termination active
  abandon : {s : ContractStatus} → IsOpen s → Edge s cancel cancelled

ruleset kinds = (
  pending, partial, drafting, reviewing, changing, approving, presenting, negotiating, accepting,
  awaiting, completing, refusing, lapsing, importing, on_signed, on_active, on_renewal,
)

ruleset edges = (
  send_back, edit_draft, edit_changes, edit_negotiated, edit_approved, present, present_again,
  accept, negotiate, negotiate_accepted, reopen_declined, reopen_expired, send_approved,
  send_accepted, send_expired, revoke_to_accepted, revoke_to_approved, sign_one, sign_all, decline,
  lapse, wait, start, import_expired, import_signed, import_active, renewal_opens, prolong,
  renewal_closes, end_active, end_renewal, succeed_active, succeed_renewal, renew_active, renew_due,
  renew_late, take_effect, withdraw,
)

-- Every event that the machine accepts follows an edge of the diagram.
pub apply_event-Edge :
    (c : ContractSnapshot) (event : ContractEvent) (now : Instant) {c' : ContractSnapshot}
    → apply_event c event now ≡ ok c'
    → Edge c.status (event_type event) c'.status
unfolding apply_event
apply_event-Edge c (ContractEvent.submit_for_review a) now h =
    grind (arith, submit_draft, resubmit, resubmit_negotiated)
apply_event-Edge c (ContractEvent.approve a) now h = grind (arith, approve_review)
apply_event-Edge c (ContractEvent.cancel a r) now h = grind (arith, kinds, abandon)
apply_event-Edge c (ContractEvent.terminate e) now h =
    grind (arith, kinds, give_notice, terminate_now)
apply_event-Edge c _ now h = grind (arith, kinds, edges)
