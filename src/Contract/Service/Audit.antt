-- ===== src/Contract/Service/Audit.antt =====
-- The approvals that stand behind the status of a contract in the database.
pub mod Decisions
use contrats.Base.{
  IsIn, All-IsIn, ℕ, ◌==◌, ◌=?=◌, Bool, true, false, ◌&&◌, All-map, Option-cases, ◌≡◌, ◌≢◌, refl,
  sym, ap, ◌∙◌, Option, none, some, is_none, is_some, List, [], ◌∷◌, any, All, arith, ◌⊎◌, inl, inr,
  =?=_iff,
}
use mathlib.Core.Path.{subst}
use contrats.Base.Text.{Text}
use contrats.Base.Instant.{Instant}
use contrats.Base.Result.{Result, ok}
use contrats.Contract.Types.{
  EntityId, ContractStatus, ContractSnapshot, ContractEvent, in_review, approved, cancelled,
  changes_requested,
}
use contrats.Contract.Events.{apply_event}
use contrats.Contract.Rows.{ContractRow, updated_row}
use contrats.Contract.Store.{
  Decision, Approval, ContractStore, latest_pending, persist_transition, update_approval,
}
use contrats.Contract.Service.{
  is_decision, record_approval, snapshot_with, written, service_apply_event,
}
use contrats.Contract.Service.Refines.{snapshot_of, service_apply_event-written}
use contrats.Contract.Service.Approvals.{
  HasDistinctIds, latest-IsIn, distinct_same, All-update, distinct-update, any-update-found,
  any-update_kept,
}

abbrev pub is_approved : Decision → Bool
is_approved Decision.approved = true
is_approved _ = false

-- An approval was decided by someone else than the author of the submission.
abbrev pub IsSeparated : Approval → Type 0
IsSeparated a =
    a.decision ≡ Decision.approved
    → (user : EntityId) × (a.decided_by_user_id ≡ some user) × ¬ (user ≡ a.submitted_by_user_id)

-- The row is an approval of the version.
abbrev pub approves : Option EntityId → Approval → Bool
approves version a = is_approved a.decision && a.version_id =?= version

-- The row asks for the review of the version, and is the only pending one.
abbrev pub IsRequest : Option EntityId → List Approval → Approval → Type 0
IsRequest version approvals p =
    IsIn p approvals
    × (p.decision ≡ Decision.pending)
    × (p.version_id ≡ version)
    × All (λ a. a.decision ≡ Decision.pending → a.id ≡ p.id) approvals

abbrev pub IsSettled : Approval → Type 0
IsSettled a = ¬ (a.decision ≡ Decision.pending)

pub record IsAudited (c : ContractRow) (approvals : List Approval) : Type 0 where
  pub distinct : HasDistinctIds approvals
  pub separated : All IsSeparated approvals
  pub evidence :
      is_some c.approved_version_id ≡ true → any (approves c.approved_version_id) approvals ≡ true
  pub requested : c.status ≡ in_review → (p : Approval) × IsRequest c.current_version_id approvals p
  pub settled : ¬ (c.status ≡ in_review) → ¬ (c.status ≡ cancelled) → All IsSettled approvals

-- What the machine says, by the event.
abbrev pub is_submission : ContractEvent → Bool
is_submission (ContractEvent.submit_for_review actor) = true
is_submission _ = false

pub approve_facts :
    (c : ContractSnapshot) (actor : EntityId) (now : Instant) {next : ContractSnapshot}
    → apply_event c (ContractEvent.approve actor) now ≡ ok next
    → (c.status ≡ in_review)
      × (c.submitted_by_user_id =?= some actor ≡ false)
      × (next.approved_version_id ≡ c.current_version_id)
      × (next.status ≡ approved)
unfolding apply_event
approve_facts c actor now h = ground arith

approval_kept :
    (c : ContractSnapshot) (event : ContractEvent) (now : Instant) {next : ContractSnapshot}
    → is_decision event ≡ false
    → apply_event c event now ≡ ok next
    → (next.approved_version_id ≡ c.approved_version_id) ⊎ (next.approved_version_id ≡ none)
unfolding apply_event
approval_kept c (ContractEvent.approve actor) now e h = cc
approval_kept c _ now e h = ground arith

review_submitted :
    (c : ContractSnapshot) (event : ContractEvent) (now : Instant) {next : ContractSnapshot}
    → apply_event c event now ≡ ok next
    → next.status ≡ in_review
    → is_submission event ≡ true
unfolding apply_event
review_submitted c (ContractEvent.approve actor) now h e = ground arith
review_submitted c _ now h e = ground arith

pub review_left :
    (c : ContractSnapshot) (event : ContractEvent) (now : Instant) {next : ContractSnapshot}
    → apply_event c event now ≡ ok next
    → is_decision event ≡ false
    → ¬ (next.status ≡ cancelled)
    → ¬ (c.status ≡ in_review) × ¬ (c.status ≡ cancelled)
unfolding apply_event
review_left c (ContractEvent.approve actor) now h e n = cc
review_left c _ now h e n = ground arith

pub request_changes_facts :
    (c : ContractSnapshot) (actor : EntityId) (reason : Text) (now : Instant)
    {next : ContractSnapshot}
    → apply_event c (ContractEvent.request_changes actor reason) now ≡ ok next
    → (c.status ≡ in_review)
      × (next.approved_version_id ≡ c.approved_version_id)
      × (next.status ≡ changes_requested)
unfolding apply_event
request_changes_facts c actor reason now h = ground arith

-- Deciding the pending row settles the table.
module _ (f : Approval → Approval) (kept : (a : Approval) → (f a).id ≡ a.id) where
  decided-IsSettled :
      (version : Option EntityId) (approvals : List Approval) (p q : Approval)
      → IsRequest version approvals p
      → latest_pending approvals ≡ some q
      → ((a : Approval) → IsSettled (f a))
      → All IsSettled (update_approval q.id f approvals)
  decided-IsSettled version approvals p q r h s =
      let pending_alike = λ (a : Approval). (a.decision ≡ Decision.pending → a.id ≡ p.id) in
      let (q_in, q_pending) = latest-IsIn approvals q h in
      All-update q.id f pending_alike IsSettled approvals r.3
        (λ a k n e. n (k e ∙ sym (All-IsIn pending_alike approvals q r.3 q_in q_pending)))
        (λ a i k e. s a)

pub in_review-cancelled : ¬ (in_review ≡ cancelled)
in_review-cancelled e = cc

approved-in_review : ¬ (approved ≡ in_review)
approved-in_review e = cc

changes_requested-in_review : ¬ (changes_requested ≡ in_review)
changes_requested-in_review e = cc

pub submit_facts :
    (c : ContractSnapshot) (actor : EntityId) (now : Instant) {next : ContractSnapshot}
    → apply_event c (ContractEvent.submit_for_review actor) now ≡ ok next
    → next.status ≡ in_review
unfolding apply_event
submit_facts c actor now h = ground arith

true-false : ¬ (true ≡ false)
true-false e = cc

pub evidence_kept :
    (c : ContractRow) (approvals : List Approval) (kept : Option EntityId)
    → (kept ≡ c.approved_version_id) ⊎ (kept ≡ none)
    → (is_some c.approved_version_id ≡ true → any (approves c.approved_version_id) approvals ≡ true)
    → is_some kept ≡ true
    → any (approves kept) approvals ≡ true
evidence_kept c approvals kept (inl e) v h = rw e (v (ap is_some (sym e) ∙ h))
evidence_kept c approvals kept (inr e) v h = cc
