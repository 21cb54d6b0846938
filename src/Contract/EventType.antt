-- ===== src/Contract/EventType.antt =====
-- packages/domain/src/contract/contract.types.ts: the kinds of contract events
-- (`ContractEvent['type']`), with the test `===` on them.
use contrats.Base.{ℕ, Bool, List, any, ◌==◌}

pub data ContractEventType : Type 0 where
  submit_for_review approve request_changes edit_content send_to_client client_accept
        open_negotiation reopen_negotiation send_for_signature revoke_signature signer_signed
        signer_declined signature_expire activate validate_import expire open_renewal renew_period
        close_renewal mark_renewed cancel terminate complete_termination withdraw_termination :
      ContractEventType

abbrev pub event_code : ContractEventType → ℕ
event_code submit_for_review = 0
event_code approve = 1
event_code request_changes = 2
event_code edit_content = 3
event_code send_to_client = 4
event_code client_accept = 5
event_code open_negotiation = 6
event_code reopen_negotiation = 7
event_code send_for_signature = 8
event_code revoke_signature = 9
event_code signer_signed = 10
event_code signer_declined = 11
event_code signature_expire = 12
event_code activate = 13
event_code validate_import = 14
event_code expire = 15
event_code open_renewal = 16
event_code renew_period = 17
event_code close_renewal = 18
event_code mark_renewed = 19
event_code cancel = 20
event_code terminate = 21
event_code complete_termination = 22
event_code withdraw_termination = 23

-- `types.includes(type)`
abbrev pub includes : List ContractEventType → ContractEventType → Bool
includes types type = any (λ t. event_code t == event_code type) types
