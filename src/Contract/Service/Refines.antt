-- ===== src/Contract/Service/Refines.antt =====
-- What an operation that succeeds writes, and that writing loses nothing of what the machine says.
use contrats.Base.{false, ◌≡◌, ap, sym, ◌∙◌, ◌&&◌, is_none, some, arith}
use contrats.Base.Instant.{Instant}
use contrats.Base.Result.{Result, ok, err, bind-ok, refuse-ok, refuse, ◌>>◌, ok-injective}
use contrats.Contract.Types.{EntityId, ContractSnapshot, ContractEvent}
use contrats.Contract.Machine.{ContractError}
use contrats.Contract.Events.{apply_event}
use contrats.Contract.Rows.{ContractRow, updated_row}
use contrats.Contract.Store.{ContractStore, latest_pending}
use contrats.Contract.Service.{
  no_pending_approval, or_conflict, is_decision, written, apply_found, snapshot_with,
  service_apply_event, submitter,
}

-- The snapshot of a row and of the rows of its approvals.
abbrev pub snapshot_of : ContractRow → ContractStore → ContractSnapshot
snapshot_of c store = snapshot_with c (latest_pending store.approvals)

-- Equal but for the author of the submission, which outlives it in a snapshot but not in the rows.
abbrev pub Agrees : ContractSnapshot → ContractSnapshot → Type 0
Agrees next c = record next { submitted_by_user_id = c.submitted_by_user_id } ≡ c

persisted :
    (c : ContractSnapshot) (event : ContractEvent) (now : Instant) (c' : ContractSnapshot)
    → apply_event c event now ≡ ok c'
    → record c {
      status = c'.status;
      approved_version_id = c'.approved_version_id;
      submitted_by_user_id = c'.submitted_by_user_id;
      accepted_version_id = c'.accepted_version_id;
      end_date = c'.end_date;
      signed_at = c'.signed_at;
      activated_at = c'.activated_at;
      terminated_at = c'.terminated_at;
      termination_effective_date = c'.termination_effective_date;
    }
      ≡ c'
unfolding apply_event
persisted c (ContractEvent.approve a) now c' h = ground arith
persisted c _ now c' h = ground arith

or_conflict-ok : {A : Type 0} (r : Result ContractError A) {a : A} → or_conflict r ≡ ok a → r ≡ ok a
or_conflict-ok (ok b) h = cc
or_conflict-ok (err e) h = cc

-- What an operation that succeeds has done.
pub service_apply_event-written :
    (store : ContractStore) (c : ContractRow) (event : ContractEvent) (new_id user : EntityId)
    (now : Instant) {store' : ContractStore}
    → store.contract ≡ some c
    → service_apply_event store event new_id user now ≡ ok store'
    → (next : ContractSnapshot) × (apply_event (snapshot_of c store) event now ≡ ok next)
      × (is_decision event && is_none (latest_pending store.approvals) ≡ false)
      × (written store c event next new_id user now ≡ store')
unfolding service_apply_event
service_apply_event-written store c event new_id user now found h =
    let approval = latest_pending store.approvals in
    let (next, machine, rest) =
      bind-ok (or_conflict (apply_event (snapshot_of c store) event now))
        (λ next.
          refuse (is_decision event && is_none approval) no_pending_approval
          >> ok (written store c event next new_id user now))
        (ap (λ o. apply_found o store event new_id user now) (sym found) ∙ h) in
    let (requested, done) =
      refuse-ok (is_decision event && is_none approval) no_pending_approval
        (ok (written store c event next new_id user now)) rest in
    (
      next,
      or_conflict-ok (apply_event (snapshot_of c store) event now) machine,
      requested,
      ok-injective done,
    )

-- Writing back what the machine answers loses nothing of it.
pub updated-Agrees :
    (c : ContractRow) (store store' : ContractStore) (event : ContractEvent) (user : EntityId)
    (now : Instant) (next : ContractSnapshot)
    → apply_event (snapshot_of c store) event now ≡ ok next
    → Agrees next (snapshot_of (updated_row c next now user) store')
updated-Agrees c store store' event user now next machine =
    ap {A = ContractSnapshot}
      (λ n. record n { submitted_by_user_id = submitter (latest_pending store'.approvals) })
      (sym (persisted (snapshot_of c store) event now next machine))
