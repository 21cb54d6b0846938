-- ===== src/Contract/Events/History.antt =====
-- Histories of a contract: events that the machine accepts, and the new versions that
-- apps/api/src/contracts/content.service.ts and structure.service.ts store once the machine has
-- accepted EDIT_CONTENT.
use contrats.Base.{◌<◌, true, false, ◌≡◌, none, some, arith}
use contrats.Base.Instant.{Instant}
use contrats.Base.Result.{ok}
use contrats.Contract.Types.{EntityId, ContractSnapshot, ContractEvent, draft, signed}
use contrats.Contract.Machine.{is_set}
use contrats.Contract.Events.{apply_event}
use contrats.Contract.Events.Approval.{
  IsConsistent, is_locked, is_reviewed, apply_event-IsConsistent,
}

-- The version that was stored is the current one. Its text decides which flags hold.
pub record IsStored (version : EntityId) (before after : ContractSnapshot) : Type 0 where
  pub status_kept : after.status ≡ before.status
  pub approval_kept : after.approved_version_id ≡ before.approved_version_id
  pub acceptance_kept : after.accepted_version_id ≡ before.accepted_version_id
  pub current : after.current_version_id ≡ some version
  pub named : 0 < version

pub data History (first : ContractSnapshot) : ContractSnapshot → Type 0 where
  start : History first first
  event :
      {c c' : ContractSnapshot} (e : ContractEvent) (now : Instant)
      → History first c
      → apply_event c e now ≡ ok c'
      → History first c'
  save :
      {c c' c'' : ContractSnapshot} (actor version : EntityId) (now : Instant)
      → History first c
      → apply_event c (ContractEvent.edit_content actor) now ≡ ok c'
      → IsStored version c' c''
      → History first c''

-- A contract that is created: a draft with no approval and no acceptance.
abbrev pub IsNew : ContractSnapshot → Type 0
IsNew c = (c.status ≡ draft) × (c.approved_version_id ≡ none) × (c.accepted_version_id ≡ none)

IsNew-IsConsistent : (c : ContractSnapshot) → IsNew c → IsConsistent c
IsNew-IsConsistent c h = ground arith

-- An accepted edit leaves a status in which the current version may move.
edit_unlocks :
    (c : ContractSnapshot) (actor : EntityId) (now : Instant) {c' : ContractSnapshot}
    → apply_event c (ContractEvent.edit_content actor) now ≡ ok c'
    → (is_locked c'.status ≡ false) × (is_reviewed c'.status ≡ false)
unfolding apply_event
edit_unlocks c actor now h = ground arith

IsStored-IsConsistent :
    (version : EntityId) (c c' : ContractSnapshot)
    → IsConsistent c
    → is_locked c.status ≡ false
    → IsStored version c c'
    → IsConsistent c'
IsStored-IsConsistent version c c' v u s = ground arith

-- The invariant of versions holds all along a history.
pub History-IsConsistent :
    {first c : ContractSnapshot} → IsConsistent first → History first c → IsConsistent c
History-IsConsistent v start = v
History-IsConsistent v (event {c = c} e now past h) =
    apply_event-IsConsistent c e now (History-IsConsistent v past) h
History-IsConsistent v (save {c = c} {c' = c'} {c'' = c''} actor version now past h stored) =
    IsStored-IsConsistent version c' c''
      (apply_event-IsConsistent c (ContractEvent.edit_content actor) now
        (History-IsConsistent v past) h)
      (edit_unlocks c actor now h).0 stored

signing_locked :
    (c : ContractSnapshot) (now : Instant) {c' : ContractSnapshot}
    → apply_event c (ContractEvent.signer_signed true) now ≡ ok c'
    → (is_locked c.status ≡ true)
      × (c'.status ≡ signed)
      × (c'.signed_at ≡ some now)
      × (c'.approved_version_id ≡ c.approved_version_id)
      × (c'.current_version_id ≡ c.current_version_id)
unfolding apply_event
signing_locked c now h = ground arith

-- Whatever happened to a contract since it was created, through any edits, reviews, negotiations
-- and revoked signatures: when the last signer signs, the contract is signed at that instant, it
-- has a version, and that version is the one that was approved in review.
pub signed_version-approved :
    {first c : ContractSnapshot} (now : Instant) {c' : ContractSnapshot}
    → IsNew first
    → History first c
    → apply_event c (ContractEvent.signer_signed true) now ≡ ok c'
    → (c'.status ≡ signed)
      × (c'.signed_at ≡ some now)
      × (is_set c'.current_version_id ≡ true)
      × (c'.approved_version_id ≡ c'.current_version_id)
signed_version-approved {first = first} {c = c} now fresh past h =
    ground
      (arith, signing_locked c now h, History-IsConsistent (IsNew-IsConsistent first fresh) past)
