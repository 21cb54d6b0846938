-- ===== src/Contract/Events/Allowed.antt =====
-- The list of possible events against the machine that decides, and the guards on amendments and
-- renewals against the transition matrix.
use contrats.Base.{Bool, true, false, ◌≡◌, ◌↔◌, some, arith}
use contrats.Base.Instant.{Instant}
use contrats.Base.Result.{ok, is_ok}
use contrats.Contract.EventType.{ContractEventType, includes}
use contrats.Contract.Types.{ContractSnapshot, ContractEvent, event_type}
use contrats.Contract.Machine.{transitions, allowed_events, assert_can_amend, assert_can_renew}
use contrats.Contract.Events.{apply_event}

-- The list of possible events is complete: it names every event that the machine accepts.
pub allowed_events_complete :
    (c : ContractSnapshot) (event : ContractEvent) (now : Instant) {c' : ContractSnapshot}
    → apply_event c event now ≡ ok c'
    → includes (allowed_events c (some now)) (event_type event) ≡ true
unfolding apply_event allowed_events
allowed_events_complete c (ContractEvent.approve a) now h = ground arith
allowed_events_complete c _ now h = ground arith

-- Events whose outcome does not turn on what they carry or on a date that has not come.
abbrev pub is_decided : ContractEvent → Bool
is_decided (ContractEvent.submit_for_review _) = true
is_decided (ContractEvent.edit_content _) = true
is_decided (ContractEvent.send_to_client _) = true
is_decided (ContractEvent.send_for_signature _) = true
is_decided (ContractEvent.revoke_signature _) = true
is_decided (ContractEvent.signer_signed _) = true
is_decided (ContractEvent.signer_declined _) = true
is_decided ContractEvent.signature_expire = true
is_decided (ContractEvent.validate_import _) = true
is_decided ContractEvent.open_renewal = true
is_decided (ContractEvent.mark_renewed _) = true
is_decided ContractEvent.complete_termination = true
is_decided _ = false

-- For these events the list is exact: what it names at an instant, the machine accepts then.
pub allowed_events_sound :
    (c : ContractSnapshot) (event : ContractEvent) (now : Instant)
    → is_decided event ≡ true
    → includes (allowed_events c (some now)) (event_type event) ≡ true
    → is_ok (apply_event c event now) ≡ true
unfolding apply_event allowed_events
allowed_events_sound c (ContractEvent.approve a) now d h = ground arith
allowed_events_sound c _ now d h = ground arith

-- A contract can be renewed exactly when its status admits MARK_RENEWED.
pub assert_can_renew_iff :
    (c : ContractSnapshot)
    → (assert_can_renew c ≡ ok tt)
      ↔ (includes (transitions c.status) ContractEventType.mark_renewed ≡ true)
unfolding assert_can_renew
assert_can_renew_iff c = (λ h. ground arith, λ h. ground arith)

-- A contract can be amended exactly when its status admits TERMINATE and no amendment is open.
pub assert_can_amend_iff :
    (c : ContractSnapshot)
    → (assert_can_amend c ≡ ok tt) ↔ (
        (includes (transitions c.status) ContractEventType.terminate ≡ true)
        × (c.open_amendment_exists ≡ false))
unfolding assert_can_amend
assert_can_amend_iff c = (λ h. ground arith, λ h. ground arith)
