-- ===== src/Tests/Contracts.antt =====
-- A contract of four days' notice, followed from its creation to its termination.
use contrats.Base.{◌+◌, true, false, ◌≡◌, refl, ◌≢◌, ◌⊎◌, none, some, [], ◌∷◌, arith}
use contrats.Base.Text.{is_blank}
use contrats.Base.Instant.{Instant, midnight}
use contrats.Base.Result.{ok, err}
use contrats.Contract.EventType.{ContractEventType, includes}
use contrats.Contract.Types.{
  EntityId, ContractSnapshot, TerminateEvent, ContractEvent, main, draft, in_review, approved,
  pending_signature, signed, active, terminated, termination_pending, sent_to_client, accepted,
}
use contrats.Contract.Machine.{
  is_set, business_rule, notice_not_respected, rm_10, is_notice_respected, allowed_events,
}
use contrats.Contract.Events.{apply_event}
use contrats.Contract.Events.Graph.{Edge, apply_event-Edge}
use contrats.Contract.Events.Approval.{
  IsConsistent, apply_event-IsConsistent, approval-reviewed, acceptance-presented,
}
use contrats.Contract.Events.History.{
  IsNew, IsStored, History, start, event, save, signed_version-approved,
}
use contrats.Contract.Events.Terminal.{
  HasSameContent, apply_event-HasSameContent, IsClosed, apply_all, closing_events,
  closing_events-IsClosed,
}
use contrats.Contract.Events.Allowed.{allowed_events_complete}
use contrats.Contract.Events.Termination.{
  KeepsNotice, IsOverridden, in_force, IsTerminatedFrom, terminate-accepted,
}

-- Day 100 million is 1970-01-01.
abbrev today : Instant
today = midnight 100_020_000 + 45_000_000

abbrev created : ContractSnapshot
created = record {
  id = 1;
  type = main;
  status = draft;
  start_date = some (midnight 100_019_990);
  end_date = some (midnight 100_020_365);
  notice_period_days = some 4;
  current_version_id = none;
  approved_version_id = none;
  submitted_by_user_id = none;
  has_lsi_signer = true;
  has_client_signer = true;
  has_required_attachments = true;
  open_amendment_exists = false;
  has_signed_successor = false;
  signed_at = none;
  activated_at = none;
  terminated_at = none;
  accepted_version_id = none;
  has_unreviewed_ai_clauses = false;
  termination_effective_date = none;
  has_missing_variables = true;
}

-- Version 7 is stored, with no variable left to fill in.
abbrev written : ContractSnapshot
written = record created { current_version_id = some 7; has_missing_variables = false }

abbrev submitted : ContractSnapshot
submitted = record written { status = in_review; submitted_by_user_id = some 20 }

abbrev validated : ContractSnapshot
validated = record submitted { status = approved; approved_version_id = some 7 }

abbrev sent : ContractSnapshot
sent = record validated { status = pending_signature }

abbrev signed_by_all : ContractSnapshot
signed_by_all = record sent { status = signed; signed_at = some today }

abbrev running : ContractSnapshot
running = record signed_by_all { status = active; activated_at = some today }

submit-run : apply_event written (ContractEvent.submit_for_review 20) today ≡ ok submitted
unfolding apply_event
submit-run = refl

approve-run : apply_event submitted (ContractEvent.approve 21) today ≡ ok validated
unfolding apply_event
approve-run = refl

-- The submitter may not approve.
self_approval : apply_event submitted (ContractEvent.approve 20) today ≡ err (business_rule rm_10)
unfolding apply_event
self_approval = refl

send-run : apply_event validated (ContractEvent.send_for_signature 20) today ≡ ok sent
unfolding apply_event
send-run = refl

sign-run : apply_event sent (ContractEvent.signer_signed true) today ≡ ok signed_by_all
unfolding apply_event
sign-run = refl

activate-run : apply_event signed_by_all ContractEvent.activate today ≡ ok running
unfolding apply_event
activate-run = refl

apply_event-Edge_example : Edge draft ContractEventType.submit_for_review in_review
apply_event-Edge_example =
    apply_event-Edge written (ContractEvent.submit_for_review 20) today submit-run

submitted-IsConsistent : IsConsistent submitted
submitted-IsConsistent = ground arith

apply_event-IsConsistent_example : IsConsistent validated
apply_event-IsConsistent_example =
    apply_event-IsConsistent submitted (ContractEvent.approve 21) today submitted-IsConsistent
      approve-run

approval-reviewed_example :
    (submitted.approved_version_id ≡ some 7)
    ⊎ ((reviewer : EntityId) × (ContractEvent.approve 21 ≡ ContractEvent.approve reviewer)
        × (submitted.submitted_by_user_id ≢ some reviewer)
        × (submitted.current_version_id ≡ some 7))
approval-reviewed_example =
    approval-reviewed submitted (ContractEvent.approve 21) today 7 approve-run refl

abbrev presented : ContractSnapshot
presented = record validated { status = sent_to_client }

abbrev agreed : ContractSnapshot
agreed = record presented { status = accepted; accepted_version_id = some 7 }

accept-run : apply_event presented (ContractEvent.client_accept 7) today ≡ ok agreed
unfolding apply_event
accept-run = refl

acceptance-presented_example :
    (presented.accepted_version_id ≡ some 7)
    ⊎ ((ContractEvent.client_accept 7 ≡ ContractEvent.client_accept 7)
        × (presented.current_version_id ≡ some 7)
        × (presented.approved_version_id ≡ some 7))
acceptance-presented_example =
    acceptance-presented presented (ContractEvent.client_accept 7) today 7 accept-run refl

-- From the creation to the dispatch to the signers, with one version stored.
edit-run : apply_event created (ContractEvent.edit_content 20) today ≡ ok created
unfolding apply_event
edit-run = refl

written-IsStored : IsStored 7 created written
written-IsStored = ground arith

past : History created sent
past =
    event (ContractEvent.send_for_signature 20) today
      (event (ContractEvent.approve 21) today
        (event (ContractEvent.submit_for_review 20) today
          (save {c = created} {c' = created} {c'' = written} 20 7 today start edit-run
            written-IsStored)
          submit-run)
        approve-run)
      send-run

created-IsNew : IsNew created
created-IsNew = (refl, refl, refl)

signed_version-approved_example :
    (signed_by_all.status ≡ signed)
    × (signed_by_all.signed_at ≡ some today)
    × (is_set signed_by_all.current_version_id ≡ true)
    × (signed_by_all.approved_version_id ≡ signed_by_all.current_version_id)
signed_version-approved_example = signed_version-approved today created-IsNew past sign-run

abbrev closed : ContractSnapshot
closed = record running { status = terminated }

apply_event-HasSameContent_example : HasSameContent submitted validated
apply_event-HasSameContent_example =
    apply_event-HasSameContent submitted (ContractEvent.approve 21) today approve-run

closing_events-IsClosed_example : IsClosed (apply_all running (closing_events active today) today)
closing_events-IsClosed_example = closing_events-IsClosed running today

allowed_events_complete_example :
    includes (allowed_events submitted (some today)) ContractEventType.approve ≡ true
allowed_events_complete_example =
    allowed_events_complete submitted (ContractEvent.approve 21) today approve-run

abbrev notice_given : TerminateEvent
notice_given = record {
  actor_user_id = 20;
  reason = 111 ∷ 107 ∷ [];
  effective_date = midnight 100_020_004;
  is_admin = false;
  override_reason = none;
  min_effective_date = none;
}

abbrev terminating : ContractSnapshot
terminating = record running {
  status = termination_pending;
  termination_effective_date = some (midnight 100_020_004);
}

terminate-run : apply_event running (ContractEvent.terminate notice_given) today ≡ ok terminating
unfolding apply_event is_blank is_notice_respected
terminate-run = refl

-- A day earlier the notice is too short, and only an administrator may go on.
terminate_early :
    apply_event running
      (ContractEvent.terminate (record notice_given { effective_date = midnight 100_020_003 }))
      today
    ≡ err (notice_not_respected (midnight 100_020_004))
unfolding apply_event is_blank is_notice_respected
terminate_early = refl

terminate-accepted_example :
    (in_force active ≡ true)
    × (is_blank notice_given.reason ≡ false)
    × (KeepsNotice running notice_given today none ⊎ IsOverridden notice_given)
    × IsTerminatedFrom notice_given today terminating
terminate-accepted_example = terminate-accepted running notice_given today terminate-run
