-- ===== src/Contract/Service/Audit/Decisions.antt =====
-- Every event that the service accepts keeps the table of approvals in order.
use contrats.Base.{
  IsIn, All-IsIn, false, ◌&&◌, All-map, Option-cases, ◌≡◌, refl, sym, ap, ◌∙◌, none, some, is_none,
  List, All, arith, inl, inr, =?=_iff,
}
use mathlib.Core.Path.{subst}
use contrats.Base.Text.{Text}
use contrats.Base.Instant.{Instant}
use contrats.Base.Result.{ok}
use contrats.Contract.Types.{EntityId, ContractSnapshot, ContractEvent}
use contrats.Contract.Events.{apply_event}
use contrats.Contract.Rows.{ContractRow, updated_row}
use contrats.Contract.Store.{Decision, Approval, latest_pending}
use contrats.Contract.Service.{is_decision, record_approval, snapshot_with}
use contrats.Contract.Service.Approvals.{
  latest-IsIn, distinct_same, All-update, distinct-update, any-update-found, any-update_kept,
}
use contrats.Contract.Service.Audit.{
  IsSeparated, approves, IsRequest, IsSettled, IsAudited, is_submission, approve_facts,
  approval_kept, review_submitted, review_left, request_changes_facts, decided-IsSettled,
  evidence_kept, submit_facts, true-false, in_review-cancelled, approved-in_review,
  changes_requested-in_review,
}

module _ (c : ContractRow) (approvals : List Approval) (v : IsAudited c approvals) where
  -- An event that writes no approval.
  other-IsAudited :
      (event : ContractEvent) (user : EntityId) (now : Instant) (next : ContractSnapshot)
      → apply_event (snapshot_with c (latest_pending approvals)) event now ≡ ok next
      → is_decision event ≡ false
      → is_submission event ≡ false
      → IsAudited (updated_row c next now user) approvals
  other-IsAudited event user now next h d s =
      let snapshot = snapshot_with c (latest_pending approvals) in
      record {
        distinct = v.distinct;
        separated = v.separated;
        evidence =
            evidence_kept c approvals next.approved_version_id
              (approval_kept snapshot event now d h) v.evidence;
        requested = λ e. absurd (true-false (sym (review_submitted snapshot event now h e) ∙ s));
        settled = λ n m. let left = review_left snapshot event now h d m in v.settled left.0 left.1;
      }

  submit-IsAudited :
      (actor new_id user : EntityId) (now : Instant) (next : ContractSnapshot)
      → All (λ a. ¬ (new_id ≡ a.id)) approvals
      → apply_event
          (snapshot_with c (latest_pending approvals))
          (ContractEvent.submit_for_review actor)
          now
        ≡ ok next
      → IsAudited (updated_row c next now user) (
          record_approval approvals c
            (ContractEvent.submit_for_review actor)
            (latest_pending approvals)
            new_id
            now)
  unfolding record_approval
  submit-IsAudited actor new_id user now next fresh h =
      let snapshot = snapshot_with c (latest_pending approvals) in
      let event = ContractEvent.submit_for_review actor in
      record {
        distinct = (fresh, v.distinct);
        separated = ((λ e. cc), v.separated);
        evidence =
            evidence_kept c approvals next.approved_version_id
              (approval_kept snapshot event now refl h) v.evidence;
        requested = λ e.
            let left =
              review_left snapshot event now h refl (λ k. in_review-cancelled (sym e ∙ k)) in
            (
              record {
                id = new_id;
                version_id = c.current_version_id;
                submitted_by_user_id = actor;
                decision = Decision.pending;
                submitted_at = now;
                decided_by_user_id = none;
                decided_at = none;
                reason = none;
              },
              (
                inl refl,
                refl,
                refl,
                (
                  λ k. refl,
                  All-map IsSettled (λ a. a.decision ≡ Decision.pending → a.id ≡ new_id) approvals
                      (λ a n k. absurd (n k)) (v.settled left.0 left.1),
                ),
              ),
            );
        settled = λ n m. absurd (n (submit_facts snapshot actor now h));
      }

  -- A decision on the latest pending row `q`.
  module _ (q : Approval) (latest : latest_pending approvals ≡ some q) where
    request_is :
        (r : (p : Approval) × IsRequest c.current_version_id approvals p)
        → IsIn q approvals × (q.version_id ≡ c.current_version_id)
    request_is (p, r) =
        let (q_in, q_pending) = latest-IsIn approvals q latest in
        let alike =
          All-IsIn (λ a. a.decision ≡ Decision.pending → a.id ≡ p.id) approvals q r.3 q_in
            q_pending in
        (q_in, ap (λ a. a.version_id) (distinct_same approvals q p v.distinct q_in r.0 alike) ∙ r.2)

    approve-IsAudited :
        (actor new_id user : EntityId) (now : Instant) (next : ContractSnapshot)
        → apply_event (snapshot_with c (some q)) (ContractEvent.approve actor) now ≡ ok next
        → IsAudited
            (updated_row c next now user)
            (record_approval approvals c (ContractEvent.approve actor) (some q) new_id now)
    unfolding record_approval
    approve-IsAudited actor new_id user now next h =
        let (reviewed, other, version, status) =
          approve_facts (snapshot_with c (some q)) actor now h in
        let (q_in, q_version) = request_is (v.requested reviewed) in
        let decide : Approval → Approval = λ a. record a {
          decision = Decision.approved;
          decided_by_user_id = some actor;
          decided_at = some now;
        } in
        record {
          distinct = distinct-update q.id decide approvals (λ a. refl) v.distinct;
          separated =
              All-update q.id decide IsSeparated IsSeparated approvals v.separated (λ a k n. k)
                (λ a i k e d. (
                  actor,
                  refl,
                  λ w. ground (
                    arith,
                    w,
                    other,
                    ap (λ b. b.submitted_by_user_id)
                        (distinct_same approvals a q v.distinct i q_in e),
                  ),
                ));
          evidence = λ e.
              any-update-found q.id decide (approves next.approved_version_id) approvals q q_in refl
                ((=?=_iff q.version_id next.approved_version_id).1 (q_version ∙ sym version));
          requested = λ e. absurd (approved-in_review (sym status ∙ e));
          settled = λ n m.
              let (p, r) = v.requested reviewed in
              decided-IsSettled decide (λ a. refl) c.current_version_id approvals p q r latest
                (λ a k. cc);
        }

    request_changes-IsAudited :
        (actor new_id user : EntityId) (reason : Text) (now : Instant) (next : ContractSnapshot)
        → apply_event (snapshot_with c (some q)) (ContractEvent.request_changes actor reason) now
          ≡ ok next
        → IsAudited (updated_row c next now user) (
            record_approval approvals c
              (ContractEvent.request_changes actor reason)
              (some q)
              new_id
              now)
    unfolding record_approval
    request_changes-IsAudited actor new_id user text now next h =
        let (reviewed, version, status) =
          request_changes_facts (snapshot_with c (some q)) actor text now h in
        let (q_in, q_pending) = latest-IsIn approvals q latest in
        let decide : Approval → Approval = λ a. record a {
          decision = Decision.changes_requested;
          decided_by_user_id = some actor;
          decided_at = some now;
          reason = some text;
        } in
        record {
          distinct = distinct-update q.id decide approvals (λ a. refl) v.distinct;
          separated =
              All-update q.id decide IsSeparated IsSeparated approvals v.separated (λ a k n. k)
                (λ a i k e d. cc);
          evidence = λ e.
              any-update_kept q.id decide (approves next.approved_version_id) approvals
                (λ a i k w. ground (
                  arith,
                  w,
                  q_pending,
                  ap (λ b. b.decision) (distinct_same approvals a q v.distinct i q_in k),
                ))
                (evidence_kept c approvals next.approved_version_id (inl version) v.evidence e);
          requested = λ e. absurd (changes_requested-in_review (sym status ∙ e));
          settled = λ n m.
              let (p, r) = v.requested reviewed in
              decided-IsSettled decide (λ a. refl) c.current_version_id approvals p q r latest
                (λ a k. cc);
        }

  -- Any event, with the approval that the service has found.
  pub record-IsAudited :
      (event : ContractEvent) (new_id user : EntityId) (now : Instant) (next : ContractSnapshot)
      → All (λ a. ¬ (new_id ≡ a.id)) approvals
      → is_decision event && is_none (latest_pending approvals) ≡ false
      → apply_event (snapshot_with c (latest_pending approvals)) event now ≡ ok next
      → IsAudited
          (updated_row c next now user)
          (record_approval approvals c event (latest_pending approvals) new_id now)
  unfolding record_approval
  record-IsAudited (ContractEvent.submit_for_review actor) new_id user now next fresh d h =
      submit-IsAudited actor new_id user now next fresh h
  record-IsAudited (ContractEvent.approve actor) new_id user now next fresh d h =
      elim (Option-cases (latest_pending approvals)) [
        | inl e ↦ ground (arith, d, e)
        | inr (q, e) ↦ rw e (
            approve-IsAudited q e actor new_id user now next (
              subst
                (λ o. apply_event (snapshot_with c o) (ContractEvent.approve actor) now ≡ ok next) e
                h))
      ]
  record-IsAudited (ContractEvent.request_changes actor reason) new_id user now next fresh d h =
      elim (Option-cases (latest_pending approvals)) [
        | inl e ↦ ground (arith, d, e)
        | inr (q, e) ↦ rw e (
            request_changes-IsAudited q e actor new_id user reason now next (
              subst
                (λ o.
                  apply_event (snapshot_with c o) (ContractEvent.request_changes actor reason) now
                  ≡ ok next)
                e h))
      ]
  record-IsAudited event new_id user now next fresh d h =
      other-IsAudited event user now next h refl refl
