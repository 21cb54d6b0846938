-- ===== src/Tests/Proposals.antt =====
-- A proposal of two weeks' validity, its reminders, and the reminders of a contract's end.
use contrats.Base.{ℕ, ◌+◌, ◌*◌, ◌≡◌, refl, ◌≢◌, ◌⊎◌, true, none, some, [], ◌∷◌, map}
use contrats.Base.Instant.{Instant, day_ms, midnight}
use contrats.Base.Result.{ok, err}
use contrats.Proposal.Types.{
  ProposalSnapshot, ProposalEvent, ProposalEventType, includes, docuseal_signature, draft,
  in_internal_review, ready, sent, viewed,
}
use contrats.Proposal.Machine.{
  rule_violation, p_review_required, readiness_issue, allowed_proposal_events,
}
use contrats.Proposal.Events.{apply_proposal_event}
use contrats.Proposal.Events.Presented.{
  IsConsistent, apply_proposal_event-IsConsistent, review-approved,
}
use contrats.Proposal.Events.Possible.{allowed_proposal_events_complete}
use contrats.Proposal.FollowUps
use contrats.Proposal.FollowUps.{
  FollowUpContext, no_open, no_decision, default_follow_ups, plan_follow_ups, decide_follow_up,
  IsSpaced, IsUnexpired, plan_follow_ups_bounds, decide_follow_up-send, decide_follow_up-postpone,
}
use contrats.Reminders.{ReminderPlanInput, plan_reminders, pending, skipped_obsolete}

abbrev today : Instant
today = midnight 100_020_000 + 36_000_000

abbrev expiry_day : Instant
expiry_day = midnight 100_020_014

abbrev prepared : ProposalSnapshot
prepared = record {
  id = 1;
  status = draft;
  current_version_id = some 5;
  acceptance_mode = docuseal_signature;
  expires_at = none;
  review_required = true;
  review_submitted_by_user_id = none;
  review_approved_version_id = none;
  accepted_version_id = none;
  has_recipients = true;
  has_signer = true;
  unresolved_merge_tags = 0;
  blocking_validations = 0;
  pricing_errors = 0;
}

abbrev in_review : ProposalSnapshot
in_review = record prepared { status = in_internal_review; review_submitted_by_user_id = some 20 }

abbrev fit : ProposalSnapshot
fit = record in_review { status = ready; review_approved_version_id = some 5 }

abbrev dispatched : ProposalSnapshot
dispatched = record fit { status = sent; expires_at = some expiry_day }

abbrev opened : ProposalSnapshot
opened = record dispatched { status = viewed }

-- The review cannot be passed over.
mark_ready-run :
    apply_proposal_event prepared (ProposalEvent.mark_ready 20) today
    ≡ err (rule_violation p_review_required)
unfolding apply_proposal_event readiness_issue
mark_ready-run = refl

approve-run : apply_proposal_event in_review (ProposalEvent.approve_review 21) today ≡ ok fit
unfolding apply_proposal_event readiness_issue
approve-run = refl

send-run : apply_proposal_event fit (ProposalEvent.send expiry_day) today ≡ ok dispatched
unfolding apply_proposal_event
send-run = refl

fit-IsConsistent : IsConsistent fit
unfolding readiness_issue
fit-IsConsistent = record {
  fit = λ e. refl;
  reviewed = λ e r. refl;
  acceptance_current = λ e. cc;
  dated = λ e. cc;
}

apply_proposal_event-IsConsistent_example : IsConsistent dispatched
apply_proposal_event-IsConsistent_example =
    apply_proposal_event-IsConsistent fit (ProposalEvent.send expiry_day) today fit-IsConsistent
      send-run

review-approved_example :
    (in_review.review_approved_version_id ≡ some 5)
    ⊎ ((reviewer : ℕ) × (ProposalEvent.approve_review 21 ≡ ProposalEvent.approve_review reviewer)
        × (in_review.review_submitted_by_user_id ≢ some reviewer)
        × (in_review.current_version_id ≡ some 5))
review-approved_example =
    review-approved in_review (ProposalEvent.approve_review 21) today 5 approve-run refl

allowed_proposal_events_complete_example :
    includes (allowed_proposal_events fit today) ProposalEventType.send ≡ true
allowed_proposal_events_complete_example =
    allowed_proposal_events_complete fit (ProposalEvent.send expiry_day) today send-run

-- Two days before the expiry lies after the third and the seventh day: all three are planned.
plan_follow_ups-run :
    map (λ p. p.due_at) (plan_follow_ups today expiry_day default_follow_ups)
    ≡ (today + 3 * day_ms) ∷ (today + 7 * day_ms) ∷ midnight 100_020_012 ∷ []
unfolding plan_follow_ups
plan_follow_ups-run = refl

-- A reminder was sent a day ago.
abbrev context : FollowUpContext
context = record {
  status = viewed;
  enabled = true;
  first_viewed_at = some today;
  client_responded_at = none;
  last_follow_up_sent_at = some today;
  expires_at = some expiry_day;
}

postpone-run :
    decide_follow_up no_decision context (today + day_ms) ≡ FollowUps.postpone (today + 2 * day_ms)
unfolding decide_follow_up
postpone-run = refl

-- A contract that ends in forty days: the first two reminders are already due.
abbrev ending : ReminderPlanInput
ending = record {
  end_date = some (midnight 100_020_040);
  notice_period_days = some 30;
  reminder_cycle = 1;
}

plan_reminders-run :
    map (λ r. r.status) (plan_reminders ending today)
    ≡ skipped_obsolete ∷ skipped_obsolete ∷ pending ∷ []
unfolding plan_reminders
plan_reminders-run = refl

-- The end moves to a later day.
abbrev prolonged : ReminderPlanInput
prolonged = record ending { end_date = some (midnight 100_020_400) }
