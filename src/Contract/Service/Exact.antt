-- ===== src/Contract/Service/Exact.antt =====
-- After calls of the services the rows hold what the machine answers, and the service refuses what
-- the machine refuses.
use contrats.Base.{
  ℕ, IsIn, Bool, true, false, ◌&&◌, ◌≡◌, refl, sym, ap, ◌∙◌, Option, none, some, is_none, List, [],
  ◌∷◌, All, arith, inl, inr, ◌⊎◌,
}
use mathlib.Core.Path.{subst}
use contrats.Base.Text.{Text}
use contrats.Base.Instant.{Instant}
use contrats.Base.Result.{Result, ok, err, ◌>>=◌, ◌>>◌, refuse}
use contrats.Contract.Types.{
  EntityId, ContractSnapshot, ContractEvent, ContractStatus, approved, changes_requested, in_review,
  cancelled,
}
use contrats.Contract.Machine.{ContractError}
use contrats.Contract.Events.{apply_event}
use contrats.Contract.Rows.{ContractRow, updated_row}
use contrats.Contract.Store.{Decision, Approval, ContractStore, latest_pending, persist_transition}
use contrats.Contract.Service.{
  ServiceError, no_pending_approval, or_conflict, apply_found, is_decision, submitter,
  record_approval, written, service_apply_event,
}
use contrats.Contract.Service.Audit.{
  IsAudited, IsSettled, approve_facts, request_changes_facts, submit_facts, review_left,
  is_submission, in_review-cancelled,
}
use contrats.Contract.Service.Audit.Decisions.{record-IsAudited}
use contrats.Contract.Service.Calls.{IsCreated, created-IsSound, Calls, Calls-IsSound}
use contrats.Contract.Service.Reached.{SoundRow, IsFresh}
use contrats.Contract.Service.Refines.{snapshot_of, service_apply_event-written, updated-Agrees}

settled-latest : (rows : List Approval) → All IsSettled rows → latest_pending rows ≡ none
unfolding latest_pending
settled-latest [] h = refl
settled-latest (a ∷ rows) h = ground (arith, settled-latest rows h.1, h.0)

pending-latest :
    (rows : List Approval) (p : Approval)
    → IsIn p rows
    → p.decision ≡ Decision.pending
    → is_none (latest_pending rows) ≡ false
unfolding latest_pending
pending-latest [] p i h = elim i [ ]
pending-latest (a ∷ rows) p (inl e) h = rw (ap (λ x. x.decision) (sym e) ∙ h) refl
pending-latest (a ∷ rows) p (inr i) h = ground (arith, pending-latest rows p i h)

-- Whose submission the rows name after an event: once it is decided, nobody's.
abbrev pub author_after : ContractEvent → ContractSnapshot → Option EntityId
author_after (ContractEvent.approve actor) next = none
author_after (ContractEvent.request_changes actor reason) next = none
author_after _ next = next.submitted_by_user_id

submission_author :
    (c : ContractSnapshot) (actor : EntityId) (now : Instant) (next : ContractSnapshot)
    → apply_event c (ContractEvent.submit_for_review actor) now ≡ ok next
    → next.submitted_by_user_id ≡ some actor
unfolding apply_event
submission_author c actor now next h = ground arith

author_kept :
    (c : ContractSnapshot) (event : ContractEvent) (now : Instant) (next : ContractSnapshot)
    → is_submission event ≡ false
    → apply_event c event now ≡ ok next
    → next.submitted_by_user_id ≡ c.submitted_by_user_id
unfolding apply_event
author_kept c (ContractEvent.submit_for_review actor) now next s h = cc
author_kept c (ContractEvent.approve actor) now next s h = ground arith
author_kept c _ now next s h = ground arith

requested_again :
    (approvals : List Approval) (c : ContractRow) (actor new_id : EntityId) (now : Instant)
    (approval : Option Approval)
    → latest_pending approvals ≡ none
    → submitter (
        latest_pending
          (record_approval approvals c (ContractEvent.submit_for_review actor) approval new_id now))
      ≡ some actor
unfolding latest_pending record_approval
requested_again approvals c actor new_id now approval e = rw e refl

not_in_review :
    (s : ContractStatus)
    → (s ≡ approved) ⊎ (s ≡ changes_requested)
    → ¬ (s ≡ in_review) × ¬ (s ≡ cancelled)
not_in_review s (inl e) = (λ k. cc (e, k), λ k. cc (e, k))
not_in_review s (inr e) = (λ k. cc (e, k), λ k. cc (e, k))

decided_status :
    (c : ContractSnapshot) (event : ContractEvent) (now : Instant) (next : ContractSnapshot)
    → is_decision event ≡ true
    → apply_event c event now ≡ ok next
    → (next.status ≡ approved) ⊎ (next.status ≡ changes_requested)
decided_status c (ContractEvent.approve actor) now next d h = inl (approve_facts c actor now h).3
decided_status c (ContractEvent.request_changes actor reason) now next d h =
    inr (request_changes_facts c actor reason now h).2
decided_status c _ now next d h = cc

kept_rows :
    (approvals : List Approval) (c : ContractRow) (event : ContractEvent)
    (approval : Option Approval) (new_id : EntityId) (now : Instant)
    → is_decision event ≡ false
    → is_submission event ≡ false
    → record_approval approvals c event approval new_id now ≡ approvals
unfolding record_approval
kept_rows approvals c (ContractEvent.submit_for_review actor) approval new_id now d s = cc
kept_rows approvals c (ContractEvent.approve actor) approval new_id now d s = cc
kept_rows approvals c (ContractEvent.request_changes actor reason) approval new_id now d s = cc
kept_rows approvals c _ approval new_id now d s = refl

module _ (c : ContractRow) (store : ContractStore) (audited : IsAudited c store.approvals) where
  submitted_author :
      (actor new_id : EntityId) (now : Instant) (next : ContractSnapshot)
      → apply_event (snapshot_of c store) (ContractEvent.submit_for_review actor) now ≡ ok next
      → submitter (
          latest_pending (
            record_approval store.approvals c
              (ContractEvent.submit_for_review actor)
              (latest_pending store.approvals)
              new_id
              now))
        ≡ next.submitted_by_user_id
  submitted_author actor new_id now next h =
      let before = snapshot_of c store in
      let review : next.status ≡ in_review = submit_facts before actor now h in
      let (moved, kept) =
        review_left before (ContractEvent.submit_for_review actor) now h refl
          (λ e. in_review-cancelled (sym review ∙ e)) in
      requested_again store.approvals c actor new_id now (latest_pending store.approvals)
        (settled-latest store.approvals (audited.settled moved kept))
      ∙ sym (submission_author before actor now next h)

  decided_author :
      (event : ContractEvent) (new_id user : EntityId) (now : Instant) (next : ContractSnapshot)
      → is_decision event ≡ true
      → All (λ a. ¬ (new_id ≡ a.id)) store.approvals
      → is_decision event && is_none (latest_pending store.approvals) ≡ false
      → apply_event (snapshot_of c store) event now ≡ ok next
      → submitter (
          latest_pending
            (record_approval store.approvals c event (latest_pending store.approvals) new_id now))
        ≡ none
  decided_author event new_id user now next d fresh asked h =
      let (moved, kept) =
        not_in_review next.status (decided_status (snapshot_of c store) event now next d h) in
      let after =
        record-IsAudited c store.approvals audited event new_id user now next fresh asked h in
      ap submitter (
        settled-latest
          (record_approval store.approvals c event (latest_pending store.approvals) new_id now)
          (after.settled moved kept))

  -- The author that the rows name after an event.
  row_author :
      (event : ContractEvent) (new_id user : EntityId) (now : Instant) (next : ContractSnapshot)
      → All (λ a. ¬ (new_id ≡ a.id)) store.approvals
      → is_decision event && is_none (latest_pending store.approvals) ≡ false
      → apply_event (snapshot_of c store) event now ≡ ok next
      → submitter (
          latest_pending
            (record_approval store.approvals c event (latest_pending store.approvals) new_id now))
        ≡ author_after event next
  row_author (ContractEvent.submit_for_review actor) new_id user now next fresh asked h =
      submitted_author actor new_id now next h
  row_author (ContractEvent.approve actor) new_id user now next fresh asked h =
      decided_author (ContractEvent.approve actor) new_id user now next refl fresh asked h
  row_author (ContractEvent.request_changes actor reason) new_id user now next fresh asked h =
      decided_author (ContractEvent.request_changes actor reason) new_id user now next refl fresh
        asked h
  row_author event new_id user now next fresh asked h =
      ap (λ rows. submitter (latest_pending rows))
        (kept_rows store.approvals c event (latest_pending store.approvals) new_id now refl refl)
      ∙ sym (author_kept (snapshot_of c store) event now next refl h)

  -- A decision that the machine accepts was asked for.
  asked_for :
      (event : ContractEvent) (now : Instant) (next : ContractSnapshot)
      → apply_event (snapshot_of c store) event now ≡ ok next
      → is_decision event && is_none (latest_pending store.approvals) ≡ false
  asked_for (ContractEvent.approve actor) now next h =
      let (p, request) = audited.requested (approve_facts (snapshot_of c store) actor now h).0 in
      pending-latest store.approvals p request.0 request.1
  asked_for (ContractEvent.request_changes actor reason) now next h =
      let (p, request) =
        audited.requested (request_changes_facts (snapshot_of c store) actor reason now h).0 in
      pending-latest store.approvals p request.0 request.1
  asked_for event now next h = refl

-- What the service answers where the machine answers `r`, and what it writes of it.
same_answer :
    {A B : Type 0} (r : Result ContractError A) (refused : Bool) (e : ServiceError) (f : A → B)
    → ((a : A) → r ≡ ok a → refused ≡ false)
    → or_conflict r >>= (λ a. refuse refused e >> ok (f a)) ≡ or_conflict (r >>= λ a. ok (f a))
same_answer (ok a) refused e f h = rw (h a refl) refl
same_answer (err d) refused e f h = refl

module _ (sanitize : Text → Text) (count_variables : Text → ℕ) where
  -- Whatever calls of applyEvent, saveContent, archive and unarchive came since the contract was
  -- created, provided that the database draws new identifiers: where the machine refuses an event,
  -- the service refuses it with the machine's error as a conflict, and where the machine accepts it,
  -- the service writes its answer; a decision is never refused because nobody asked for it.
  pub service_apply_event-answers :
      {first store : ContractStore} (c : ContractRow) (event : ContractEvent)
      (new_id user : EntityId) (now : Instant)
      → IsCreated first
      → Calls sanitize count_variables first store
      → store.contract ≡ some c
      → service_apply_event store event new_id user now
        ≡ or_conflict (
            apply_event (snapshot_of c store) event now >>= λ next.
            ok (written store c event next new_id user now))
  unfolding service_apply_event
  service_apply_event-answers {store = store} c event new_id user now created past found =
      let sound = Calls-IsSound sanitize count_variables (created-IsSound created) past in
      let (audited, _) = subst (λ o. SoundRow o store) found sound in
      ap (λ o. apply_found o store event new_id user now) found
      ∙ same_answer (apply_event (snapshot_of c store) event now)
          (is_decision event && is_none (latest_pending store.approvals)) no_pending_approval
          (λ next. written store c event next new_id user now)
          (λ next h. asked_for c store audited event now next h)

  -- Whatever calls of applyEvent, saveContent, archive and unarchive came since the contract was
  -- created, provided that the database draws new identifiers: the state that the rows hold after an
  -- event is the one that the machine answers from the state that they held before, the author of a
  -- submission included; only after a decision, when no submission is pending, do they name no
  -- author any more.
  pub service_apply_event-refines :
      {first store store' : ContractStore} (c : ContractRow) (event : ContractEvent)
      (new_id user : EntityId) (now : Instant)
      → IsCreated first
      → Calls sanitize count_variables first store
      → IsFresh new_id store
      → store.contract ≡ some c
      → service_apply_event store event new_id user now ≡ ok store'
      → (next : ContractSnapshot) × (apply_event (snapshot_of c store) event now ≡ ok next)
        × (c' : ContractRow) × (store'.contract ≡ some c')
        × (snapshot_of c' store' ≡ record next { submitted_by_user_id = author_after event next })
  unfolding written persist_transition
  service_apply_event-refines {store = store} {store' = store'} c event new_id user now created past
        fresh found h =
      let sound = Calls-IsSound sanitize count_variables (created-IsSound created) past in
      let (audited, _) = subst (λ o. SoundRow o store) found sound in
      let (next, machine, asked, done) =
        service_apply_event-written store c event new_id user now found h in
      let result = written store c event next new_id user now in
      let author = row_author c store audited event new_id user now next fresh asked machine in
      (
        next,
        machine,
        updated_row c next now user,
        ap (λ s. s.contract) (sym done),
        subst
            (λ s.
              snapshot_of (updated_row c next now user) s
              ≡ record next { submitted_by_user_id = author_after event next })
            done
            (sym (updated-Agrees c store result event user now next machine)
              ∙ ap (λ a. record next { submitted_by_user_id = a }) author),
      )
