-- ===== src/Proposal/Events.antt =====
-- packages/domain/src/proposal/state-machine.ts, `applyProposalEvent`: a function for each case of
-- its `switch` that has a guard, and the whole.
pub mod Presented
pub mod Possible
use contrats.Base.{
  ℕ, Bool, true, false, not, ◌&&◌, ◌||◌, Option, none, some, List, [], ◌∷◌, leb, ltb, ◌==◌, ◌=?=◌,
  is_none, is_some, if◌then◌else◌,
}
use contrats.Base.Text.{Text, is_blank}
use contrats.Base.Instant.{Instant}
use contrats.Base.Result.{Result, ok, err, refuse, ◌>>◌}
use contrats.Proposal.Types.{
  EntityId, ProposalStatus, ProposalSnapshot, ProposalEvent, event_type, includes, draft,
  in_internal_review, ready, sent, viewed, in_discussion, accepted, pending_signature, signed,
  converted, expired, declined, withdrawn,
}
use contrats.Proposal.Machine.{
  Rule, ProposalError, invalid_transition, rule_violation, p_review_separation, p_review_required,
  p_expiry, p_superseded, p_expired, p_mode, p_reason, transitions, is_expired_at, readiness_issue,
  is_docuseal, allowed_proposal_events,
}

abbrev pub Outcome : Type 0
Outcome = Result ProposalError ProposalSnapshot

-- `if (issue) throw issue`
abbrev pub require_no_issue : Option Rule → Result ProposalError (Unit {0})
require_no_issue none = ok tt
require_no_issue (some rule) = err (rule_violation rule)

require_text : Text → Result ProposalError (Unit {0})
require_text value = refuse (is_blank value) (rule_violation p_reason)

on_submit_for_review : ProposalSnapshot → EntityId → Outcome
unfolding readiness_issue
on_submit_for_review p actor = do
  require_no_issue (readiness_issue p)
  ok (record p {
    status = in_internal_review;
    review_submitted_by_user_id = some actor;
    review_approved_version_id = none;
  })

on_reject_review : ProposalSnapshot → EntityId → Text → Outcome
unfolding require_text
on_reject_review p actor reason = do
  refuse (p.review_submitted_by_user_id =?= some actor) (rule_violation p_review_separation)
  require_text reason
  ok (record p { status = draft; review_approved_version_id = none })

on_approve_review : ProposalSnapshot → EntityId → Outcome
unfolding readiness_issue
on_approve_review p actor = do
  refuse (p.review_submitted_by_user_id =?= some actor) (rule_violation p_review_separation)
  require_no_issue (readiness_issue p)
  ok (record p { status = ready; review_approved_version_id = p.current_version_id })

on_mark_ready : ProposalSnapshot → Outcome
unfolding readiness_issue
on_mark_ready p = do
  require_no_issue (readiness_issue p)
  refuse p.review_required (rule_violation p_review_required)
  ok (record p { status = ready })

on_send : ProposalSnapshot → Instant → Instant → Outcome
on_send p expires_at now = do
  refuse (leb expires_at now) (rule_violation p_expiry)
  ok (record p { status = sent; expires_at = some expires_at; accepted_version_id = none })

on_accept : ProposalSnapshot → EntityId → Instant → Outcome
on_accept p version_id now = do
  refuse (not (some version_id =?= p.current_version_id)) (rule_violation p_superseded)
  refuse (is_expired_at p now) (rule_violation p_expired)
  ok (record p { status = accepted; accepted_version_id = some version_id })

on_start_signature : ProposalSnapshot → Instant → Outcome
on_start_signature p now = do
  refuse (not (is_docuseal p.acceptance_mode)) (rule_violation p_mode)
  refuse (is_expired_at p now) (rule_violation p_expired)
  refuse (not (p.accepted_version_id =?= p.current_version_id)) (rule_violation p_superseded)
  ok (record p { status = pending_signature })

on_complete_click_accept : ProposalSnapshot → Outcome
on_complete_click_accept p = do
  refuse (is_docuseal p.acceptance_mode) (rule_violation p_mode)
  ok (record p { status = signed })

-- SIGNATURE_DECLINED and SIGNATURE_EXPIRED
on_signature_failed : ProposalSnapshot → Outcome
on_signature_failed p = ok (record p { status = in_discussion; accepted_version_id = none })

on_expire : ProposalSnapshot → Instant → Outcome
on_expire p now = do
  refuse (not (is_expired_at p now)) (rule_violation p_expiry)
  ok (record p { status = expired })

on_decline : ProposalSnapshot → Text → Outcome
unfolding require_text
on_decline p reason_code = do require_text reason_code; ok (record p { status = declined })

on_withdraw : ProposalSnapshot → Text → Outcome
unfolding require_text
on_withdraw p reason = do require_text reason; ok (record p { status = withdrawn })

on_reactivate : ProposalSnapshot → Instant → Text → Instant → Outcome
unfolding require_text
on_reactivate p expires_at reason now = do
  require_text reason
  refuse (leb expires_at now) (rule_violation p_expiry)
  ok (record p { status = ready; expires_at = some expires_at })

on_revise : ProposalSnapshot → Outcome
on_revise p =
    ok (record p { status = draft; review_approved_version_id = none; accepted_version_id = none })

-- The `switch` of `applyProposalEvent`.
handle : ProposalSnapshot → ProposalEvent → Instant → Outcome
unfolding on_submit_for_review on_reject_review on_approve_review on_mark_ready on_send on_accept
    on_start_signature on_complete_click_accept on_signature_failed on_expire on_decline on_withdraw
    on_reactivate on_revise
handle p (ProposalEvent.submit_for_review actor) now = on_submit_for_review p actor
handle p (ProposalEvent.approve_review actor) now = on_approve_review p actor
handle p (ProposalEvent.reject_review actor reason) now = on_reject_review p actor reason
handle p (ProposalEvent.mark_ready actor) now = on_mark_ready p
handle p (ProposalEvent.send expires_at) now = on_send p expires_at now
handle p ProposalEvent.view now = ok (record p { status = viewed })
handle p ProposalEvent.open_discussion now = ok (record p { status = in_discussion })
handle p ProposalEvent.close_discussion now = ok (record p { status = viewed })
handle p (ProposalEvent.accept version_id) now = on_accept p version_id now
handle p ProposalEvent.start_signature now = on_start_signature p now
handle p ProposalEvent.complete_click_accept now = on_complete_click_accept p
handle p ProposalEvent.signature_completed now = ok (record p { status = signed })
handle p (ProposalEvent.signature_declined reason) now = on_signature_failed p
handle p ProposalEvent.signature_expired now = on_signature_failed p
handle p (ProposalEvent.convert contract_id) now = ok (record p { status = converted })
handle p ProposalEvent.expire now = on_expire p now
handle p (ProposalEvent.decline reason_code reason) now = on_decline p reason_code
handle p (ProposalEvent.withdraw reason) now = on_withdraw p reason
handle p (ProposalEvent.reactivate expires_at reason) now = on_reactivate p expires_at reason now
handle p (ProposalEvent.revise reason) now = on_revise p

unfoldable pub apply_proposal_event : ProposalSnapshot → ProposalEvent → Instant → Outcome
unfolding handle
apply_proposal_event p event now =
    if not (includes (transitions p.status) (event_type event))
    then err (invalid_transition p.status (event_type event) (allowed_proposal_events p now))
    else handle p event now
