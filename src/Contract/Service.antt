-- ===== src/Contract/Service.antt =====
-- apps/api/src/contracts/contracts.service.ts and content.service.ts: the operations that apply the
-- machine to the rows of one contract. The database draws the identifiers of new rows, here
-- arguments, and hides the rows that the session may not see: those of another contract and those
-- outside its scope are not in the store.
pub mod Refines
pub mod Approvals
pub mod Audit
pub mod Reached
pub mod Saved
pub mod Calls
pub mod Exact
pub mod Outcome
use contrats.Base.{
  ℕ, ◌+◌, Bool, true, false, not, ◌&&◌, ◌||◌, Option, none, some, is_none, is_some, List, [], ◌∷◌,
  map, if◌then◌else◌,
}
use Prim.Native.Nat.{max}
use contrats.Base.Text.{Text}
use contrats.Base.Instant.{Instant}
use contrats.Base.Result.{Result, ok, err, refuse, ◌>>◌, ◌>>=◌}
use contrats.Contract.Types.{
  EntityId, ContractStatus, ContractSnapshot, ContractEvent, expired, terminated, renewed,
  cancelled, declined,
}
use contrats.Contract.Machine.{ContractError}
use contrats.Contract.Events.{apply_event}
use contrats.Contract.Rows.{ContractOrigin, ai, ContractRow, SnapshotExtras, to_contract_snapshot}
use contrats.Contract.Store.{
  Decision, pending, approved, changes_requested, Approval, Cancellation, Version, ContractStore,
  latest_pending, update_approval, persist_transition,
}

-- NotFoundException and the ConflictException of each code.
pub data ServiceError : Type 0 where
  not_found : ServiceError
  conflict : ContractError → ServiceError
  no_pending_approval not_terminal ai_content locked_content : ServiceError

-- The `catch` that turns an error of the machine into a conflict.
abbrev pub or_conflict : {A : Type 0} → Result ContractError A → Result ServiceError A
or_conflict (ok a) = ok a
or_conflict (err e) = err (conflict e)

abbrev pub submitter : Option Approval → Option EntityId
submitter none = none
submitter (some approval) = some approval.submitted_by_user_id

abbrev pub snapshot_with : ContractRow → Option Approval → ContractSnapshot
snapshot_with c approval =
    to_contract_snapshot c
      (record { submitted_by_user_id = submitter approval; has_signed_successor = false })

-- The row where its signers and amendments are not loaded.
abbrev pub bare : ContractRow → ContractRow
bare c = record c { signers = none; amendments = [] }

-- `event.type === 'APPROVE' || event.type === 'REQUEST_CHANGES'`
abbrev pub is_decision : ContractEvent → Bool
is_decision (ContractEvent.approve actor) = true
is_decision (ContractEvent.request_changes actor reason) = true
is_decision _ = false

-- The rows of `contract_approvals` after the event.
pub record_approval :
    List Approval
    → ContractRow
    → ContractEvent
    → Option Approval
    → EntityId
    → Instant
    → List Approval
record_approval approvals c (ContractEvent.submit_for_review actor) approval new_id now =
    record {
      id = new_id;
      version_id = c.current_version_id;
      submitted_by_user_id = actor;
      decision = pending;
      submitted_at = now;
      decided_by_user_id = none;
      decided_at = none;
      reason = none;
    }
    ∷ approvals
record_approval approvals c (ContractEvent.approve actor) (some approval) new_id now =
    update_approval approval.id
      (λ a. record a {
        decision = approved;
        decided_by_user_id = some actor;
        decided_at = some now;
      })
      approvals
record_approval approvals c (ContractEvent.request_changes actor reason) (some approval) new_id
      now =
    update_approval approval.id
      (λ a. record a {
        decision = changes_requested;
        decided_by_user_id = some actor;
        decided_at = some now;
        reason = some reason;
      })
      approvals
record_approval approvals c event approval new_id now = approvals

-- The rows of `cancellations` after the event.
record_cancellation : List Cancellation → ContractEvent → EntityId → Instant → List Cancellation
record_cancellation cancellations (ContractEvent.cancel actor reason) new_id now =
    record {
      id = new_id;
      reason = reason;
      effective_date = now;
      created_by_user_id = actor;
      created_at = now;
    }
    ∷ cancellations
record_cancellation cancellations event new_id now = cancellations

-- What `applyEvent` writes once the machine has answered `next`.
unfoldable pub written :
    ContractStore
    → ContractRow
    → ContractEvent
    → ContractSnapshot
    → EntityId
    → EntityId
    → Instant
    → ContractStore
unfolding record_approval record_cancellation
written store c event next new_id user now =
    persist_transition
      (record store {
        approvals =
            record_approval store.approvals c event (latest_pending store.approvals) new_id now;
        cancellations = record_cancellation store.cancellations event new_id now;
      })
      c event next now user

-- `applyEvent` once the row is found.
apply_to_row :
    ContractStore
    → ContractRow
    → ContractEvent
    → EntityId
    → EntityId
    → Instant
    → Result ServiceError ContractStore
apply_to_row store c event new_id user now = do
  let approval = latest_pending store.approvals
  next ← or_conflict (apply_event (snapshot_with c approval) event now)
  refuse (is_decision event && is_none approval) no_pending_approval
  ok (written store c event next new_id user now)

apply_found :
    Option ContractRow
    → ContractStore
    → ContractEvent
    → EntityId
    → EntityId
    → Instant
    → Result ServiceError ContractStore
unfolding apply_to_row
apply_found none store event new_id user now = err not_found
apply_found (some c) store event new_id user now = apply_to_row store c event new_id user now

-- `ContractsService.applyEvent`, by the session of `user`.
unfoldable pub service_apply_event :
    ContractStore
    → ContractEvent
    → EntityId
    → EntityId
    → Instant
    → Result ServiceError ContractStore
unfolding apply_found
service_apply_event store event new_id user now =
    apply_found store.contract store event new_id user now

-- `ARCHIVABLE_STATUSES.includes(status)`
abbrev pub is_archivable : ContractStatus → Bool
is_archivable terminated = true
is_archivable expired = true
is_archivable cancelled = true
is_archivable declined = true
is_archivable renewed = true
is_archivable _ = false

archive_row : ContractStore → ContractRow → EntityId → Instant → Result ServiceError ContractStore
archive_row store c actor now =
    if is_some c.archived_at
    then ok store
    else if not (is_archivable c.status)
    then err not_terminal
    else ok (record store {
      contract =
          some (record c { archived_at = some now; updated_at = now; updated_by_user_id = actor });
    })

-- `archive`
unfoldable pub archive : ContractStore → EntityId → Instant → Result ServiceError ContractStore
unfolding archive_row
archive store actor now = elim store.contract [
  | none ↦ err not_found
  | some c ↦ archive_row store c actor now
]

unarchive_row : ContractStore → ContractRow → EntityId → Instant → Result ServiceError ContractStore
unarchive_row store c actor now =
    if is_none c.archived_at
    then ok store
    else ok (record store {
      contract =
          some (record c { archived_at = none; updated_at = now; updated_by_user_id = actor });
    })

-- `unarchive`
unfoldable pub unarchive : ContractStore → EntityId → Instant → Result ServiceError ContractStore
unfolding unarchive_row
unarchive store actor now = elim store.contract [
  | none ↦ err not_found
  | some c ↦ unarchive_row store c actor now
]

abbrev is_ai : ContractOrigin → Bool
is_ai ai = true
is_ai _ = false

-- `aggregate({ _max: { versionNumber: true } })`, with 0 for no version
abbrev pub last_version_number : List Version → ℕ
last_version_number [] = 0
last_version_number (v ∷ versions) = max v.version_number (last_version_number versions)

-- The `catch` of `saveContent`
abbrev or_locked : Result ContractError ContractSnapshot → Result ServiceError ContractSnapshot
or_locked (ok next) = ok next
or_locked (err e) = err locked_content

-- `saveContent` of content.service.ts. The cleaning of the HTML and the number of variables left in
-- it are arguments; `moment` and `now` are its two readings of the clock.
module _ (sanitize : Text → Text) (count_variables : Text → ℕ) where
  -- The row and the versions that `saveContent` stores, before the transition.
  abbrev pub saved_row : ContractRow → Text → EntityId → ContractRow
  saved_row c clean new_id = record c {
    current_version_id = some new_id;
    missing_variables = count_variables clean;
    unreviewed_ai_clauses = 0;
  }

  unfoldable pub saved :
      ContractStore
      → ContractRow
      → ContractSnapshot
      → Text
      → Option Text
      → EntityId
      → EntityId
      → Instant
      → ContractStore
  saved store c next body summary new_id user now =
      let clean = sanitize body in
      let version : Version = record {
        id = new_id;
        version_number = last_version_number store.versions + 1;
        body_html = clean;
        change_summary = summary;
        created_at = now;
        created_by_user_id = user;
      } in
      persist_transition (record store { versions = version ∷ store.versions })
        (saved_row c clean new_id) (ContractEvent.edit_content user) next now user

  save_in_row :
      ContractStore
      → ContractRow
      → Text
      → Option Text
      → EntityId
      → EntityId
      → Instant
      → Instant
      → Result ServiceError ContractStore
  save_in_row store c body summary new_id user moment now = do
    refuse (is_ai c.origin) ai_content
    let event = ContractEvent.edit_content user
    next ← or_locked (apply_event (snapshot_with (bare c) none) event moment)
    ok (saved store c next body summary new_id user now)

  save_found :
      Option ContractRow
      → ContractStore
      → Text
      → Option Text
      → EntityId
      → EntityId
      → Instant
      → Instant
      → Result ServiceError ContractStore
  unfolding save_in_row
  save_found none store body summary new_id user moment now = err not_found
  save_found (some c) store body summary new_id user moment now =
      save_in_row store c body summary new_id user moment now

  unfoldable pub save_content :
      ContractStore
      → Text
      → Option Text
      → EntityId
      → EntityId
      → Instant
      → Instant
      → Result ServiceError ContractStore
  unfolding save_found
  save_content store body summary new_id user moment now =
      save_found store.contract store body summary new_id user moment now
