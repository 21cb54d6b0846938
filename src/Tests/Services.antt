-- ===== src/Tests/Services.antt =====
-- The rows of a contract that user 2 submits and user 3 approves.
use contrats.Base.{IsIn, ℕ, ◌+◌, true, ◌≡◌, refl, none, some, [], ◌∷◌, ◌⊎◌}
use contrats.Base.Text.{Text, is_blank}
use contrats.Base.Instant.{Instant, midnight}
use contrats.Base.Result.{Result, ◌>>=◌, ok, err}
use contrats.Signature.Order.{lsi, client}
use contrats.Contract.Types.{
  ContractSnapshot, ContractEvent, main, draft, in_review, approved, signed,
}
use contrats.Contract.Machine.{is_set, business_rule, rm_10}
use contrats.Contract.Events.{apply_event}
use contrats.Contract.Rows.{WebhookEventType, ContractRow, native, transition_context}
use contrats.Contract.Store.{
  Approval, ContractStore, PublishedEvent, latest_pending, persist_transition, publish_transition,
}
use contrats.Contract.Service.{
  ServiceError, conflict, or_conflict, written, saved, service_apply_event, save_content,
}
use contrats.Contract.Service.Refines.{snapshot_of}
use contrats.Contract.Service.Reached.{IsFresh}
use contrats.Contract.Service.Outcome.{
  IsAnnounced, Announces, IsTold, service_apply_event-IsAnnounced,
}
use contrats.Contract.Service.Exact.{service_apply_event-answers, service_apply_event-refines}
use contrats.Contract.Service.Calls.{
  IsCreated, IsApprovalOf, Calls, start, event_call, save_call, locked-IsApprovalOf,
}

abbrev noon : Instant
noon = midnight 100_020_000 + 43_200_000

abbrev row : ContractRow
row = record {
  id = 1;
  type = main;
  status = draft;
  origin = native;
  start_date = some (midnight 100_020_030);
  end_date = none;
  notice_period_days = none;
  current_version_id = some 7;
  approved_version_id = none;
  accepted_version_id = none;
  signed_at = none;
  activated_at = none;
  terminated_at = none;
  termination_effective_date = none;
  archived_at = none;
  unreviewed_ai_clauses = 0;
  missing_variables = 0;
  signers = some (lsi ∷ client ∷ []);
  amendments = [];
  updated_at = noon;
  updated_by_user_id = 2;
}

abbrev created : ContractStore
created = record {
  contract = some row;
  approvals = [];
  cancellations = [];
  versions = [];
  context = none;
  published = [];
}

created-IsCreated : IsCreated created
created-IsCreated = record {
  row = row;
  stored = refl;
  is_draft = refl;
  unapproved = refl;
  no_approval = refl;
}

abbrev or_store : Result ServiceError ContractStore → ContractStore
or_store (ok store) = store
or_store (err e) = created

abbrev sanitize : Text → Text
sanitize body = body

abbrev count_variables : Text → ℕ
count_variables body = 0

-- A new version 8 of the text, submitted by user 2 and approved by user 3.
abbrev edited : ContractStore
edited = or_store (save_content sanitize count_variables created (65 ∷ []) none 8 2 noon noon)

abbrev submitted : ContractStore
submitted = or_store (service_apply_event edited (ContractEvent.submit_for_review 2) 20 2 noon)

abbrev reviewed : ContractStore
reviewed = or_store (service_apply_event submitted (ContractEvent.approve 3) 21 3 noon)

-- The author of the submission may not approve it.
approve_self :
    service_apply_event submitted (ContractEvent.approve 2) 21 2 noon
    ≡ err (conflict (business_rule rm_10))
unfolding service_apply_event save_content saved written persist_transition publish_transition
    apply_event latest_pending is_blank transition_context
approve_self = refl

abbrev reviewed_row : ContractRow
reviewed_row = record row {
  status = approved;
  current_version_id = some 8;
  approved_version_id = some 8;
  updated_by_user_id = 3;
}

calls : Calls sanitize count_variables created reviewed
unfolding service_apply_event save_content saved written persist_transition publish_transition
    apply_event latest_pending is_blank transition_context
calls =
    event_call (ContractEvent.approve 3) 21 3 noon
      (event_call (ContractEvent.submit_for_review 2) 20 2 noon
        (save_call (65 ∷ []) none 8 2 noon noon start refl) tt refl)
      ((λ e. cc), tt) refl

reviewed_found : reviewed.contract ≡ some reviewed_row
unfolding service_apply_event save_content saved written persist_transition publish_transition
    apply_event latest_pending is_blank transition_context
reviewed_found = refl

locked-IsApprovalOf_example :
    (is_set (some 8) ≡ true) × (a : Approval) × IsIn a reviewed.approvals × IsApprovalOf (some 8) a
locked-IsApprovalOf_example =
    locked-IsApprovalOf sanitize count_variables reviewed_row created-IsCreated calls reviewed_found
      refl

abbrev submitted_row : ContractRow
submitted_row = record row { status = in_review; current_version_id = some 8 }

submitted_found : submitted.contract ≡ some submitted_row
unfolding service_apply_event save_content saved written persist_transition publish_transition
    apply_event latest_pending is_blank transition_context
submitted_found = refl

approved_from : service_apply_event submitted (ContractEvent.approve 3) 21 3 noon ≡ ok reviewed
unfolding service_apply_event save_content saved written persist_transition publish_transition
    apply_event latest_pending is_blank transition_context
approved_from = refl

requested : Calls sanitize count_variables created submitted
unfolding service_apply_event save_content saved written persist_transition publish_transition
    apply_event latest_pending is_blank transition_context
requested =
    event_call (ContractEvent.submit_for_review 2) 20 2 noon
      (save_call (65 ∷ []) none 8 2 noon noon start refl) tt refl

submitted-IsFresh : IsFresh 21 submitted
unfolding service_apply_event save_content saved written persist_transition publish_transition
    apply_event latest_pending is_blank transition_context
submitted-IsFresh = ((λ e. cc), tt)

service_apply_event-refines_example :
    (next : ContractSnapshot) × (apply_event
        (snapshot_of submitted_row submitted)
        (ContractEvent.approve 3)
        noon
      ≡ ok next)
    × (c' : ContractRow) × (reviewed.contract ≡ some c')
    × (snapshot_of c' reviewed ≡ record next { submitted_by_user_id = none })
service_apply_event-refines_example =
    service_apply_event-refines sanitize count_variables submitted_row (ContractEvent.approve 3) 21
      3 noon created-IsCreated requested submitted-IsFresh submitted_found approved_from

service_apply_event-answers_example :
    service_apply_event submitted (ContractEvent.approve 2) 21 2 noon
    ≡ or_conflict (
        apply_event (snapshot_of submitted_row submitted) (ContractEvent.approve 2) noon >>= λ next.
        ok (written submitted submitted_row (ContractEvent.approve 2) next 21 2 noon))
service_apply_event-answers_example =
    service_apply_event-answers sanitize count_variables submitted_row (ContractEvent.approve 2) 21
      2 noon created-IsCreated requested submitted_found

-- The contract, once it is signed and its start has come.
abbrev signed_row : ContractRow
signed_row = record row { status = signed; start_date = some (midnight 100_020_000) }

abbrev signed_store : ContractStore
signed_store = record created { contract = some signed_row }

abbrev activated : ContractStore
activated = or_store (service_apply_event signed_store ContractEvent.activate 22 0 noon)

activated_from : service_apply_event signed_store ContractEvent.activate 22 0 noon ≡ ok activated
unfolding service_apply_event written persist_transition publish_transition apply_event
    latest_pending transition_context
activated_from = refl

service_apply_event-IsAnnounced_example :
    ((c' : ContractRow) × (activated.contract ≡ some c')
      × (¬ (c'.status ≡ signed)
          → (type : WebhookEventType) → Announces signed ContractEvent.activate c'.status type
          → IsTold signed_store c' noon type activated))
    × ((activated.published ≡ signed_store.published)
        ⊎ ((e : PublishedEvent) × (activated.published ≡ e ∷ signed_store.published)
            × IsAnnounced signed_row e))
service_apply_event-IsAnnounced_example =
    service_apply_event-IsAnnounced signed_store signed_row ContractEvent.activate 22 0 noon refl
      activated_from
