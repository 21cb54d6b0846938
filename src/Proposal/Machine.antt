-- ===== src/Proposal/Machine.antt =====
-- packages/domain/src/proposal/state-machine.ts: the transition matrix, the guards of preparation
-- and the list of possible events. The French text of an error is left out.
use contrats.Base.{
  Bool, true, false, not, ◌&&◌, Option, none, some, List, [], ◌∷◌, filter, leb, ltb, ◌==◌, is_none,
  if◌then◌else◌,
}
use contrats.Base.Instant.{Instant}
use contrats.Proposal.Types.{
  EntityId, ProposalStatus, ProposalSnapshot, ProposalEventType, AcceptanceMode, docuseal_signature,
  click_accept, draft, in_internal_review, ready, sent, viewed, in_discussion, accepted,
  pending_signature, signed, converted, expired, declined, withdrawn,
}

-- The `rule` of a `ProposalRuleError`.
pub data Rule : Type 0 where
  p_content p_recipients p_merge_tags p_to_validate p_pricing p_review_separation p_review_required
        p_expiry p_superseded p_expired p_mode p_reason :
      Rule

pub data ProposalError : Type 0 where
  invalid_transition : ProposalStatus → ProposalEventType → List ProposalEventType → ProposalError
  rule_violation : Rule → ProposalError

-- `OPEN`
abbrev pub open_events : List ProposalEventType
open_events =
    ProposalEventType.expire ∷ ProposalEventType.decline ∷ ProposalEventType.withdraw
    ∷ ProposalEventType.revise ∷ []

-- `TRANSITIONS`
abbrev pub transitions : ProposalStatus → List ProposalEventType
transitions draft = ProposalEventType.submit_for_review ∷ ProposalEventType.mark_ready ∷ []
transitions in_internal_review =
    ProposalEventType.approve_review ∷ ProposalEventType.reject_review ∷ []
transitions ready = ProposalEventType.send ∷ ProposalEventType.revise ∷ []
transitions sent = ProposalEventType.view ∷ open_events
transitions viewed = ProposalEventType.open_discussion ∷ ProposalEventType.accept ∷ open_events
transitions in_discussion =
    ProposalEventType.close_discussion ∷ ProposalEventType.accept ∷ open_events
transitions accepted =
    ProposalEventType.start_signature ∷ ProposalEventType.complete_click_accept
    ∷ ProposalEventType.revise ∷ []
transitions pending_signature =
    ProposalEventType.signature_completed ∷ ProposalEventType.signature_declined
    ∷ ProposalEventType.signature_expired ∷ []
transitions signed = ProposalEventType.convert ∷ []
transitions expired = ProposalEventType.reactivate ∷ []
transitions converted = []
transitions declined = []
transitions withdrawn = []

abbrev expired_by : Option Instant → Instant → Bool
expired_by none now = false
expired_by (some expires_at) now = leb expires_at now

abbrev pub is_expired_at : ProposalSnapshot → Instant → Bool
is_expired_at p now = expired_by p.expires_at now

-- `!!id`
abbrev pub is_set : Option EntityId → Bool
is_set none = false
is_set (some id) = not (id == 0)

-- The rule that `readinessIssue` reports, or `none`.
unfoldable pub readiness_issue : ProposalSnapshot → Option Rule
readiness_issue p =
    if not (is_set p.current_version_id)
    then some p_content
    else if not p.has_recipients
    then some p_recipients
    else if not p.has_signer
    then some p_recipients
    else if ltb 0 p.unresolved_merge_tags
    then some p_merge_tags
    else if ltb 0 p.blocking_validations
    then some p_to_validate
    else if ltb 0 p.pricing_errors
    then some p_pricing
    else none

abbrev pub is_docuseal : AcceptanceMode → Bool
is_docuseal docuseal_signature = true
is_docuseal click_accept = false

-- The `switch` of `allowedProposalEvents`.
abbrev pub is_allowed : ProposalSnapshot → Instant → ProposalEventType → Bool
is_allowed p now ProposalEventType.submit_for_review = is_none (readiness_issue p)
is_allowed p now ProposalEventType.mark_ready = is_none (readiness_issue p) && not p.review_required
is_allowed p now ProposalEventType.accept = not (is_expired_at p now)
is_allowed p now ProposalEventType.start_signature =
    not (is_expired_at p now) && is_docuseal p.acceptance_mode
is_allowed p now ProposalEventType.complete_click_accept = not (is_docuseal p.acceptance_mode)
is_allowed p now ProposalEventType.expire = is_expired_at p now
is_allowed p now _ = true

unfoldable pub allowed_proposal_events : ProposalSnapshot → Instant → List ProposalEventType
allowed_proposal_events p now = filter (is_allowed p now) (transitions p.status)
