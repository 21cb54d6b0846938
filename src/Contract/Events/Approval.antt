-- ===== src/Contract/Events/Approval.antt =====
-- What a status says of the versions of a contract: which version was approved in review, which one
-- the client accepted, and which one is signed.
use contrats.Base.{◌⊎◌, inl, inr, =?=_iff, ◌≢◌, some, is_some, Bool, true, false, ◌≡◌, arith, refl}
use contrats.Base.Instant.{Instant}
use contrats.Base.Result.{ok}
use contrats.Contract.Types.{
  EntityId, ContractStatus, ContractSnapshot, ContractEvent, in_review, approved, pending_signature,
  partially_signed, declined, sent_to_client, accepted, signature_expired,
}
use contrats.Contract.Machine.{is_set}
use contrats.Contract.Events.{apply_event}

-- From the approval in review up to the last signature the version must not move.
abbrev pub is_locked : ContractStatus → Bool
is_locked approved = true
is_locked sent_to_client = true
is_locked accepted = true
is_locked pending_signature = true
is_locked partially_signed = true
is_locked declined = true
is_locked signature_expired = true
is_locked _ = false

abbrev pub is_reviewed : ContractStatus → Bool
is_reviewed in_review = true
is_reviewed s = is_locked s

pub record IsConsistent (c : ContractSnapshot) : Type 0 where
  pub has_version : is_reviewed c.status ≡ true → is_set c.current_version_id ≡ true
  pub approval_named : is_some c.approved_version_id ≡ true → is_set c.approved_version_id ≡ true
  pub approval_current : is_locked c.status ≡ true → c.approved_version_id ≡ c.current_version_id
  pub acceptance_current : c.status ≡ accepted → c.accepted_version_id ≡ c.current_version_id

-- Every accepted event keeps the invariant: while a contract is in review it has a version, from
-- its approval to the last signature the current version is the approved one, and in ACCEPTED it
-- is also the one that the client accepted.
pub apply_event-IsConsistent :
    (c : ContractSnapshot) (event : ContractEvent) (now : Instant) {c' : ContractSnapshot}
    → IsConsistent c
    → apply_event c event now ≡ ok c'
    → IsConsistent c'
unfolding apply_event
apply_event-IsConsistent c (ContractEvent.submit_for_review a) now v h = ground arith
apply_event-IsConsistent c _ now v h = ground arith

-- An approval appears only by APPROVE, from someone other than who submitted the contract, and on
-- the version that is then current; no other event moves the approval to a version.
pub approval-reviewed :
    (c : ContractSnapshot) (event : ContractEvent) (now : Instant) {c' : ContractSnapshot}
    (v : EntityId)
    → apply_event c event now ≡ ok c'
    → c'.approved_version_id ≡ some v
    → (c.approved_version_id ≡ some v)
      ⊎ ((reviewer : EntityId) × (event ≡ ContractEvent.approve reviewer)
          × (c.submitted_by_user_id ≢ some reviewer)
          × (c.current_version_id ≡ some v))
unfolding apply_event
approval-reviewed c (ContractEvent.approve a) now v h k =
    inr (a, refl, ground (arith, =?=_iff c.submitted_by_user_id (some a)), ground arith)
approval-reviewed c _ now v h k = inl (ground arith)

-- An acceptance appears only by CLIENT_ACCEPT of that very version, which is then both the current
-- and the approved one; no other event moves the acceptance to a version.
pub acceptance-presented :
    (c : ContractSnapshot) (event : ContractEvent) (now : Instant) {c' : ContractSnapshot}
    (v : EntityId)
    → apply_event c event now ≡ ok c'
    → c'.accepted_version_id ≡ some v
    → (c.accepted_version_id ≡ some v)
      ⊎ ((event ≡ ContractEvent.client_accept v)
          × (c.current_version_id ≡ some v)
          × (c.approved_version_id ≡ some v))
unfolding apply_event
acceptance-presented c (ContractEvent.client_accept w) now v h k = inr (ground arith)
acceptance-presented c _ now v h k = inl (ground arith)
