-- ===== src/Contract/Service/Reached.antt =====
-- What holds of the rows of a contract after any calls of the services.
use mathlib.Core.Path.{subst}
use contrats.Base.{
  ◌≡◌, sym, Option, none, some, is_some, is_none, All, arith, ◌⊎◌, inl, inr, Option-cases,
  Bool-cases,
}
use contrats.Base.Instant.{Instant}
use contrats.Base.Result.{ok}
use contrats.Contract.Types.{EntityId, ContractSnapshot, ContractEvent}
use contrats.Contract.Events.Approval.{IsConsistent, apply_event-IsConsistent}
use contrats.Contract.Rows.{ContractRow, updated_row}
use contrats.Contract.Store.{ContractStore, persist_transition}
use contrats.Contract.Service.{written, service_apply_event, archive, unarchive}
use contrats.Contract.Service.Refines.{
  Agrees, snapshot_of, service_apply_event-written, updated-Agrees,
}
use contrats.Contract.Service.Audit.{IsAudited}
use contrats.Contract.Service.Audit.Decisions.{record-IsAudited}

abbrev pub SoundRow : Option ContractRow → ContractStore → Type 0
SoundRow none store = Unit
SoundRow (some c) store = IsAudited c store.approvals × IsConsistent (snapshot_of c store)

-- The approvals of the contract are in order, and its versions are those that its status needs.
abbrev pub IsSound : ContractStore → Type 0
IsSound store = SoundRow store.contract store

abbrev pub IsFresh : EntityId → ContractStore → Type 0
IsFresh new_id store = All (λ a. ¬ (new_id ≡ a.id)) store.approvals

-- The invariant of versions does not look at the author of the submission.
Agrees-IsConsistent :
    (next c : ContractSnapshot) → Agrees next c → IsConsistent next → IsConsistent c
Agrees-IsConsistent next c e v = subst IsConsistent e (record {
  has_version = v.has_version;
  approval_named = v.approval_named;
  approval_current = v.approval_current;
  acceptance_current = v.acceptance_current;
})

sound_row :
    (store : ContractStore) (c : ContractRow) (event : ContractEvent) (new_id user : EntityId)
    (now : Instant) {store' : ContractStore}
    → IsFresh new_id store
    → SoundRow (some c) store
    → store.contract ≡ some c
    → service_apply_event store event new_id user now ≡ ok store'
    → IsSound store'
unfolding written persist_transition
sound_row store c event new_id user now {store' = store'} fresh v found h =
    let (next, machine, requested, done) =
      service_apply_event-written store c event new_id user now found h in
    let audited =
      record-IsAudited c store.approvals v.0 event new_id user now next fresh requested machine in
    let consistent = apply_event-IsConsistent (snapshot_of c store) event now v.1 machine in
    subst IsSound done (
      audited,
      Agrees-IsConsistent next
          (snapshot_of (updated_row c next now user) (written store c event next new_id user now))
          (updated-Agrees c store (written store c event next new_id user now) event user now next
            machine)
          consistent,
    )

missing_row :
    (store : ContractStore) (event : ContractEvent) (new_id user : EntityId) (now : Instant)
    {store' : ContractStore}
    → store.contract ≡ none
    → ¬ (service_apply_event store event new_id user now ≡ ok store')
unfolding service_apply_event
missing_row store event new_id user now e h = ground (arith, e, h)

-- The service keeps the rows sound.
pub service_apply_event-IsSound :
    (store : ContractStore) (event : ContractEvent) (new_id user : EntityId) (now : Instant)
    {store' : ContractStore}
    → IsFresh new_id store
    → IsSound store
    → service_apply_event store event new_id user now ≡ ok store'
    → IsSound store'
service_apply_event-IsSound store event new_id user now fresh v h =
    elim (Option-cases store.contract) [
      | inl e ↦ absurd (missing_row store event new_id user now e h)
      | inr (c, e) ↦
          sound_row store c event new_id user now fresh (subst (λ o. SoundRow o store) e v) e h
    ]

-- A row that is marked as archived, or not.
abbrev marked : ContractRow → Option Instant → EntityId → Instant → ContractRow
marked c archived_at actor now = record c {
  archived_at = archived_at;
  updated_at = now;
  updated_by_user_id = actor;
}

marked-IsSound :
    (store : ContractStore) (c : ContractRow) (archived_at : Option Instant) (actor : EntityId)
    (now : Instant)
    → SoundRow (some c) store
    → IsSound (record store { contract = some (marked c archived_at actor now) })
marked-IsSound store c archived_at actor now (a, v) = (
  record {
    distinct = a.distinct;
    separated = a.separated;
    evidence = a.evidence;
    requested = a.requested;
    settled = a.settled;
  },
  record {
    has_version = v.has_version;
    approval_named = v.approval_named;
    approval_current = v.approval_current;
    acceptance_current = v.acceptance_current;
  },
)

-- What archiving and its contrary do to a row, when they do not refuse.
IsMarked : ContractStore → ContractStore → EntityId → Instant → Type 0
IsMarked store store' actor now =
    (store' ≡ store)
    ⊎ ((c : ContractRow) × (archived_at : Option Instant) × (store.contract ≡ some c)
        × (store' ≡ record store { contract = some (marked c archived_at actor now) }))

IsMarked-IsSound :
    (store store' : ContractStore) (actor : EntityId) (now : Instant)
    → IsMarked store store' actor now
    → IsSound store
    → IsSound store'
unfolding IsMarked
IsMarked-IsSound store store' actor now (inl e) v = subst IsSound (sym e) v
IsMarked-IsSound store store' actor now (inr (c, archived_at, found, e)) v =
    subst IsSound (sym e)
      (marked-IsSound store c archived_at actor now (subst (λ o. SoundRow o store) found v))

archive-IsMarked :
    (store : ContractStore) (actor : EntityId) (now : Instant) (store' : ContractStore)
    → archive store actor now ≡ ok store'
    → IsMarked store store' actor now
unfolding archive IsMarked
archive-IsMarked store actor now store' h = elim (Option-cases store.contract) [
  | inl e ↦ ground (arith, e, h)
  | inr (c, e) ↦ elim (Bool-cases (is_some c.archived_at)) [
    | inl k ↦ inl (ground (arith, e, h, k))
    | inr k ↦ inr (c, some now, e, ground (arith, e, h, k))
  ]
]

unarchive-IsMarked :
    (store : ContractStore) (actor : EntityId) (now : Instant) (store' : ContractStore)
    → unarchive store actor now ≡ ok store'
    → IsMarked store store' actor now
unfolding unarchive IsMarked
unarchive-IsMarked store actor now store' h = elim (Option-cases store.contract) [
  | inl e ↦ ground (arith, e, h)
  | inr (c, e) ↦ elim (Bool-cases (is_none c.archived_at)) [
    | inl k ↦ inl (ground (arith, e, h, k))
    | inr k ↦ inr (c, none, e, ground (arith, e, h, k))
  ]
]

pub archive-IsSound :
    (store : ContractStore) (actor : EntityId) (now : Instant) {store' : ContractStore}
    → IsSound store
    → archive store actor now ≡ ok store'
    → IsSound store'
archive-IsSound store actor now {store' = store'} v h =
    IsMarked-IsSound store store' actor now (archive-IsMarked store actor now store' h) v

pub unarchive-IsSound :
    (store : ContractStore) (actor : EntityId) (now : Instant) {store' : ContractStore}
    → IsSound store
    → unarchive store actor now ≡ ok store'
    → IsSound store'
unarchive-IsSound store actor now {store' = store'} v h =
    IsMarked-IsSound store store' actor now (unarchive-IsMarked store actor now store' h) v
