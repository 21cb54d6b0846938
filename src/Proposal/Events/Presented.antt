-- ===== src/Proposal/Events/Presented.antt =====
-- What a status says of a proposal: that it was fit to be shown, reviewed where the review is
-- compulsory, and accepted in the version that is signed.
use contrats.Base.{
  Bool, true, false, ◌≡◌, ◌≢◌, refl, ◌⊎◌, inl, inr, none, some, arith, =?=_iff, is_some,
}
use contrats.Base.Instant.{Instant}
use contrats.Base.Result.{ok}
use contrats.Proposal.Types.{
  EntityId, ProposalStatus, ProposalSnapshot, ProposalEvent, draft, in_internal_review, ready,
  accepted, pending_signature, signed, converted, declined, withdrawn,
}
use contrats.Proposal.Machine.{readiness_issue}
use contrats.Proposal.Events.{apply_proposal_event}

-- Statuses from READY on, in which the version is fit for the client.
abbrev pub is_presentable : ProposalStatus → Bool
is_presentable draft = false
is_presentable in_internal_review = false
is_presentable declined = false
is_presentable withdrawn = false
is_presentable _ = true

-- Statuses that rest on the client's acceptance.
abbrev pub rests_on_acceptance : ProposalStatus → Bool
rests_on_acceptance accepted = true
rests_on_acceptance pending_signature = true
rests_on_acceptance signed = true
rests_on_acceptance converted = true
rests_on_acceptance _ = false

-- Statuses that the client can see, and that therefore have a date of expiry.
abbrev pub is_dated : ProposalStatus → Bool
is_dated draft = false
is_dated in_internal_review = false
is_dated ready = false
is_dated _ = true

pub record IsConsistent (p : ProposalSnapshot) : Type 0 where
  pub fit : is_presentable p.status ≡ true → readiness_issue p ≡ none
  pub reviewed :
      is_presentable p.status ≡ true
      → p.review_required ≡ true
      → p.review_approved_version_id ≡ p.current_version_id
  pub acceptance_current :
      rests_on_acceptance p.status ≡ true → p.accepted_version_id ≡ p.current_version_id
  pub dated : is_dated p.status ≡ true → is_some p.expires_at ≡ true

-- Every accepted event keeps the invariant: from READY on the proposal has content, recipients and a
-- signer, no open merge tag, blocking element or pricing error, and its current version passed the
-- review where one is compulsory; from ACCEPTED to CONVERTED the accepted version is the current
-- one; and what was sent has a date of expiry.
pub apply_proposal_event-IsConsistent :
    (p : ProposalSnapshot) (event : ProposalEvent) (now : Instant) {p' : ProposalSnapshot}
    → IsConsistent p
    → apply_proposal_event p event now ≡ ok p'
    → IsConsistent p'
unfolding apply_proposal_event readiness_issue
apply_proposal_event-IsConsistent p (ProposalEvent.submit_for_review a) now v h = ground arith
apply_proposal_event-IsConsistent p _ now v h = ground arith

-- The review of a version is approved only by APPROVE_REVIEW, from someone other than who submitted
-- it, on the version that is then current.
pub review-approved :
    (p : ProposalSnapshot) (event : ProposalEvent) (now : Instant) {p' : ProposalSnapshot}
    (v : EntityId)
    → apply_proposal_event p event now ≡ ok p'
    → p'.review_approved_version_id ≡ some v
    → (p.review_approved_version_id ≡ some v)
      ⊎ ((reviewer : EntityId) × (event ≡ ProposalEvent.approve_review reviewer)
          × (p.review_submitted_by_user_id ≢ some reviewer)
          × (p.current_version_id ≡ some v))
unfolding apply_proposal_event
review-approved p (ProposalEvent.approve_review a) now v h k =
    inr (a, refl, ground (arith, =?=_iff p.review_submitted_by_user_id (some a)), ground arith)
review-approved p _ now v h k = inl (ground arith)
