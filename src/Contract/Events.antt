-- ===== src/Contract/Events.antt =====
-- packages/domain/src/contract/state-machine.ts, `applyEvent`: a function for each case of its
-- `switch`, in the order of the source, and the whole.
pub mod Graph
pub mod Approval
pub mod History
pub mod Allowed
pub mod Termination
pub mod Terminal
use contrats.Base.{
  Bool, true, false, not, ◌&&◌, ◌||◌, Option, none, some, leb, ltb, ◌=?=◌, is_none, or_else,
  if◌then◌else◌,
}
use contrats.Base.Text.{Text, is_blank}
use contrats.Base.Instant.{Instant}
use contrats.Base.Result.{Result, ok, err, refuse, ◌>>◌}
use contrats.Contract.EventType.{ContractEventType, includes}
use contrats.Contract.Types.{
  EntityId, ContractStatus, ContractSnapshot, TerminateEvent, ContractEvent, event_type,
  is_editable, draft, in_review, changes_requested, approved, pending_signature, partially_signed,
  signed, active, expired, terminated, renewed, cancelled, declined, sent_to_client, in_negotiation,
  accepted, signature_expired, renewal_due, termination_pending,
}
use contrats.Contract.Machine.{
  ContractError, invalid_transition, business_rule, notice_not_respected, rm_07, rm_08, rm_09,
  rm_10, rm_11, rm_12, rm_20, rm_22, ec_11, ec_13, v2_acc, v2_ai, v2_imp, v2_neg, v2_ren, v2_var,
  transitions, is_set, add_days, start_of_utc_day, is_notice_respected, allowed_events,
}

abbrev pub Outcome : Type 0
Outcome = Result ContractError ContractSnapshot

on_submit_for_review : ContractSnapshot → EntityId → Outcome
on_submit_for_review c actor = do
  refuse (not c.has_lsi_signer || not c.has_client_signer) (business_rule rm_12)
  refuse (not c.has_required_attachments) (business_rule ec_11)
  refuse (is_none c.start_date) (business_rule rm_08)
  refuse (not (is_set c.current_version_id)) (business_rule rm_11)
  refuse c.has_unreviewed_ai_clauses (business_rule v2_ai)
  refuse c.has_missing_variables (business_rule v2_var)
  ok (record c { status = in_review; submitted_by_user_id = some actor })

on_approve : ContractSnapshot → EntityId → Outcome
on_approve c actor = do
  refuse (c.submitted_by_user_id =?= some actor) (business_rule rm_10)
  ok (record c { status = approved; approved_version_id = c.current_version_id })

on_request_changes : ContractSnapshot → EntityId → Text → Outcome
on_request_changes c actor reason = do
  refuse (c.submitted_by_user_id =?= some actor) (business_rule rm_10)
  refuse (is_blank reason) (business_rule rm_11)
  ok (record c { status = changes_requested })

edit_at : ContractStatus → ContractSnapshot → Outcome
edit_at approved c = ok (record c { status = draft; approved_version_id = none })
edit_at in_negotiation c = ok (record c { approved_version_id = none })
edit_at s c =
    if not (is_editable s)
    then err (invalid_transition s ContractEventType.edit_content (allowed_events c none))
    else ok c

on_edit_content : ContractSnapshot → Outcome
unfolding edit_at
on_edit_content c = edit_at c.status c

-- `c.status === 'ACCEPTED' && c.acceptedVersionId !== c.currentVersionId`
abbrev accepted_another : ContractStatus → ContractSnapshot → Bool
accepted_another accepted c = not (c.accepted_version_id =?= c.current_version_id)
accepted_another _ c = false

on_send_for_signature : ContractSnapshot → Outcome
on_send_for_signature c = do
  refuse (is_none c.approved_version_id) (business_rule rm_09)
  refuse (not (c.approved_version_id =?= c.current_version_id)) (business_rule rm_11)
  refuse (accepted_another c.status c) (business_rule v2_acc)
  ok (record c { status = pending_signature })

on_revoke_signature : ContractSnapshot → Outcome
on_revoke_signature c =
    let is_accepted : Bool =
      is_set c.accepted_version_id && c.accepted_version_id =?= c.current_version_id in
    ok (record c { status = if is_accepted then accepted else approved })

on_send_to_client : ContractSnapshot → Outcome
on_send_to_client c = do
  refuse (is_none c.approved_version_id || not (c.approved_version_id =?= c.current_version_id))
      (business_rule rm_11)
  ok (record c { status = sent_to_client; accepted_version_id = none })

on_client_accept : ContractSnapshot → EntityId → Outcome
on_client_accept c version_id = do
  refuse
      (not (some version_id =?= c.current_version_id)
        || not (c.approved_version_id =?= c.current_version_id))
      (business_rule v2_acc)
  ok (record c { status = accepted; accepted_version_id = some version_id })

-- OPEN_NEGOTIATION and REOPEN_NEGOTIATION
on_negotiation : ContractSnapshot → Text → Outcome
on_negotiation c reason = do
  refuse (is_blank reason) (business_rule v2_neg)
  ok (record c { status = in_negotiation; accepted_version_id = none })

on_signature_expire : ContractSnapshot → Outcome
on_signature_expire c = ok (record c { status = signature_expired })

on_signer_signed : ContractSnapshot → Bool → Instant → Outcome
on_signer_signed c all_signed now =
    if not all_signed
    then ok (record c { status = partially_signed })
    else ok (record c { status = signed; signed_at = some now })

on_signer_declined : ContractSnapshot → Outcome
on_signer_declined c = ok (record c { status = declined })

activate_from : Option Instant → ContractSnapshot → Instant → Outcome
activate_from none c now = err (business_rule rm_08)
activate_from (some start_date) c now =
    if ltb now start_date then ok c else ok (record c { status = active; activated_at = some now })

on_activate : ContractSnapshot → Instant → Outcome
unfolding activate_from
on_activate c now = activate_from c.start_date c now

-- `endDate && endDate < startOfUtcDay(now)`
abbrev is_over : Option Instant → Instant → Bool
is_over none now = false
is_over (some end_date) now = ltb end_date (start_of_utc_day now)

import_from : Option Instant → ContractSnapshot → Instant → Outcome
import_from none c now = err (business_rule v2_imp)
import_from (some start_date) c now =
    if is_over c.end_date now
    then ok (record c { status = expired })
    else if ltb now start_date
    then ok (record c { status = signed })
    else ok (record c { status = active; activated_at = some now })

on_validate_import : ContractSnapshot → Instant → Outcome
unfolding import_from
on_validate_import c now = import_from c.start_date c now

on_open_renewal : ContractSnapshot → Outcome
on_open_renewal c = do
  refuse (is_none c.end_date) (business_rule ec_13)
  ok (record c { status = renewal_due })

-- `!endDate || newEndDate <= endDate`
abbrev extends_not : Option Instant → Instant → Bool
extends_not none new_end_date = true
extends_not (some end_date) new_end_date = leb new_end_date end_date

on_renew_period : ContractSnapshot → Instant → Outcome
on_renew_period c new_end_date = do
  refuse (extends_not c.end_date new_end_date) (business_rule v2_ren)
  ok (record c { status = active; end_date = some new_end_date })

on_close_renewal : ContractSnapshot → Text → Outcome
on_close_renewal c reason = do
  refuse (is_blank reason) (business_rule v2_ren)
  ok (record c { status = active })

-- `!date || date > now`
abbrev is_ahead : Option Instant → Instant → Bool
is_ahead none now = true
is_ahead (some date) now = ltb now date

on_complete_termination : ContractSnapshot → Instant → Outcome
on_complete_termination c now = do
  refuse (is_ahead c.termination_effective_date now) (business_rule rm_20)
  ok (record c { status = terminated; terminated_at = some now })

on_withdraw_termination : ContractSnapshot → Text → Outcome
on_withdraw_termination c reason = do
  refuse (is_blank reason) (business_rule rm_20)
  ok (record c { status = active; termination_effective_date = none })

expire_at : Option Instant → ContractSnapshot → Instant → Outcome
expire_at none c now = err (business_rule ec_13)
expire_at (some end_date) c now = do
  refuse (leb now end_date) (business_rule rm_07)
  ok (record c { status = if c.has_signed_successor then renewed else expired })

on_expire : ContractSnapshot → Instant → Outcome
unfolding expire_at
on_expire c now = expire_at c.end_date c now

on_mark_renewed : ContractSnapshot → Outcome
on_mark_renewed c = ok (record c { status = renewed })

on_cancel : ContractSnapshot → Text → Outcome
on_cancel c reason = do
  refuse (is_blank reason) (business_rule rm_22)
  ok (record c { status = cancelled })

-- `respectsNotice`
respects_notice : ContractSnapshot → TerminateEvent → Instant → Bool
unfolding is_notice_respected
respects_notice c event now = elim event.min_effective_date [
  | some min ↦ leb (start_of_utc_day min) (start_of_utc_day event.effective_date)
  | none ↦ is_notice_respected c.notice_period_days event.effective_date now
]

-- `minDate`
earliest_date : ContractSnapshot → TerminateEvent → Instant → Instant
earliest_date c event now = elim event.min_effective_date [
  | some min ↦ start_of_utc_day min
  | none ↦ add_days (start_of_utc_day now) (or_else c.notice_period_days 0)
]

-- `!event.overrideReason?.trim()`
abbrev pub lacks_override : Option Text → Bool
lacks_override none = true
lacks_override (some reason) = is_blank reason

on_terminate : ContractSnapshot → TerminateEvent → Instant → Outcome
unfolding respects_notice earliest_date
on_terminate c event now = do
  refuse (is_blank event.reason) (business_rule rm_20)
  refuse (not (respects_notice c event now) && not event.is_admin)
      (notice_not_respected (earliest_date c event now))
  refuse (not (respects_notice c event now) && lacks_override event.override_reason)
      (business_rule rm_20)
  if ltb now event.effective_date
      then ok (record c {
        status = termination_pending;
        termination_effective_date = some event.effective_date;
      })
      else ok (record c {
        status = terminated;
        terminated_at = some now;
        termination_effective_date = some event.effective_date;
      })

-- The `switch` of `applyEvent`.
handle : ContractSnapshot → ContractEvent → Instant → Outcome
unfolding on_submit_for_review on_approve on_request_changes on_edit_content on_send_for_signature
    on_revoke_signature on_send_to_client on_client_accept on_negotiation on_signature_expire
    on_signer_signed on_signer_declined on_activate on_validate_import on_open_renewal
    on_renew_period on_close_renewal on_complete_termination on_withdraw_termination on_expire
    on_mark_renewed on_cancel on_terminate
handle c (ContractEvent.submit_for_review actor) now = on_submit_for_review c actor
handle c (ContractEvent.approve actor) now = on_approve c actor
handle c (ContractEvent.request_changes actor reason) now = on_request_changes c actor reason
handle c (ContractEvent.edit_content actor) now = on_edit_content c
handle c (ContractEvent.send_for_signature actor) now = on_send_for_signature c
handle c (ContractEvent.revoke_signature actor) now = on_revoke_signature c
handle c (ContractEvent.send_to_client actor) now = on_send_to_client c
handle c (ContractEvent.client_accept version_id) now = on_client_accept c version_id
handle c (ContractEvent.open_negotiation actor reason) now = on_negotiation c reason
handle c (ContractEvent.reopen_negotiation actor reason) now = on_negotiation c reason
handle c ContractEvent.signature_expire now = on_signature_expire c
handle c (ContractEvent.signer_signed all_signed) now = on_signer_signed c all_signed now
handle c (ContractEvent.signer_declined reason) now = on_signer_declined c
handle c ContractEvent.activate now = on_activate c now
handle c (ContractEvent.validate_import actor) now = on_validate_import c now
handle c ContractEvent.open_renewal now = on_open_renewal c
handle c (ContractEvent.renew_period new_end_date) now = on_renew_period c new_end_date
handle c (ContractEvent.close_renewal actor reason) now = on_close_renewal c reason
handle c ContractEvent.complete_termination now = on_complete_termination c now
handle c (ContractEvent.withdraw_termination actor reason) now = on_withdraw_termination c reason
handle c ContractEvent.expire now = on_expire c now
handle c (ContractEvent.mark_renewed successor) now = on_mark_renewed c
handle c (ContractEvent.cancel actor reason) now = on_cancel c reason
handle c (ContractEvent.terminate event) now = on_terminate c event now

unfoldable pub apply_event : ContractSnapshot → ContractEvent → Instant → Outcome
unfolding handle
apply_event c event now =
    if not (includes (transitions c.status) (event_type event))
    then err (invalid_transition c.status (event_type event) (allowed_events c none))
    else handle c event now
