-- ===== src/Contract/Machine.antt =====
-- packages/domain/src/contract/state-machine.ts: the transition matrix, the list of possible events
-- and the guards on amendments and renewals. The French text of an error is left out: an error
-- holds the code of its rule, and the date that the text names.
use contrats.Base.{
  ℕ, ◌+◌, ◌*◌, Bool, true, false, not, ◌&&◌, Option, none, some, List, [], ◌∷◌, filter, leb, ◌==◌,
  ◌=?=◌, is_some, or_else, if◌then◌else◌,
}
use contrats.Base.Instant.{Instant, day_ms, midnight, day_of}
use contrats.Base.Result.{Result, refuse, ◌>>◌}
use contrats.Contract.EventType.{
  ContractEventType, submit_for_review, approve, request_changes, edit_content, send_to_client,
  client_accept, open_negotiation, reopen_negotiation, send_for_signature, revoke_signature,
  signer_signed, signer_declined, signature_expire, activate, validate_import, expire, open_renewal,
  renew_period, close_renewal, mark_renewed, cancel, terminate, complete_termination,
  withdraw_termination,
}
use contrats.Contract.Types.{
  EntityId, ContractStatus, ContractSnapshot, draft, in_review, changes_requested, approved,
  pending_signature, partially_signed, signed, active, expired, terminated, renewed, cancelled,
  declined, sent_to_client, in_negotiation, accepted, signature_expired, renewal_due,
  termination_pending, imported_pending_validation,
}

-- The `rule` of a `BusinessRuleError`.
pub data Rule : Type 0 where
  rm_07 rm_08 rm_09 rm_10 rm_11 rm_12 rm_16 rm_17 rm_19 rm_20 rm_22 ec_11 ec_13 v2_acc v2_ai v2_imp
        v2_neg v2_ren v2_var :
      Rule

-- `notice_not_respected` is the RM-20 error whose text names the earliest date.
pub data ContractError : Type 0 where
  invalid_transition : ContractStatus → ContractEventType → List ContractEventType → ContractError
  business_rule : Rule → ContractError
  notice_not_respected : Instant → ContractError

-- `SIGNING`
abbrev pub signing : List ContractEventType
signing = signer_signed ∷ signer_declined ∷ signature_expire ∷ revoke_signature ∷ cancel ∷ []

-- `TRANSITIONS`
abbrev pub transitions : ContractStatus → List ContractEventType
transitions draft = edit_content ∷ submit_for_review ∷ cancel ∷ []
transitions in_review = approve ∷ request_changes ∷ cancel ∷ []
transitions changes_requested = edit_content ∷ submit_for_review ∷ cancel ∷ []
transitions approved = edit_content ∷ send_to_client ∷ send_for_signature ∷ cancel ∷ []
transitions sent_to_client = client_accept ∷ open_negotiation ∷ cancel ∷ []
transitions in_negotiation = edit_content ∷ submit_for_review ∷ send_to_client ∷ cancel ∷ []
transitions accepted = send_for_signature ∷ open_negotiation ∷ cancel ∷ []
transitions pending_signature = signing
transitions partially_signed = signing
transitions declined = reopen_negotiation ∷ cancel ∷ []
transitions signature_expired = reopen_negotiation ∷ send_for_signature ∷ cancel ∷ []
transitions signed = activate ∷ terminate ∷ []
transitions active = expire ∷ terminate ∷ open_renewal ∷ mark_renewed ∷ []
transitions renewal_due = renew_period ∷ close_renewal ∷ mark_renewed ∷ expire ∷ terminate ∷ []
transitions termination_pending = complete_termination ∷ withdraw_termination ∷ []
transitions expired = mark_renewed ∷ []
transitions imported_pending_validation = validate_import ∷ cancel ∷ []
transitions terminated = []
transitions renewed = []
transitions cancelled = []

-- `!!id`: neither `null` nor the empty text.
abbrev pub is_set : Option EntityId → Bool
is_set none = false
is_set (some id) = not (id == 0)

-- `setUTCDate` carries whole days over and keeps the time of day.
abbrev pub add_days : Instant → ℕ → Instant
add_days d n = d + n * day_ms

abbrev pub start_of_utc_day : Instant → Instant
start_of_utc_day d = midnight (day_of d)

unfoldable pub is_notice_respected : Option ℕ → Instant → Instant → Bool
is_notice_respected notice_period_days effective_date now =
    leb (add_days (start_of_utc_day now) (or_else notice_period_days 0)) effective_date

-- `currentIsApproved`
abbrev pub current_is_approved : ContractSnapshot → Bool
current_is_approved c =
    is_some c.approved_version_id && c.approved_version_id =?= c.current_version_id

abbrev is_accepted_status : ContractStatus → Bool
is_accepted_status accepted = true
is_accepted_status _ = false

-- `!now || date <= now`
abbrev reached : Instant → Option Instant → Bool
reached date none = true
reached date (some now) = leb date now

abbrev termination_reached : Option Instant → Option Instant → Bool
termination_reached none now = false
termination_reached (some date) now = reached date now

-- The `switch` of `allowedEvents`.
abbrev pub is_allowed : ContractSnapshot → Option Instant → ContractEventType → Bool
is_allowed c now submit_for_review =
    c.has_lsi_signer
    && c.has_client_signer
    && c.has_required_attachments
    && is_some c.start_date
    && is_set c.current_version_id
    && not c.has_unreviewed_ai_clauses
    && not c.has_missing_variables
is_allowed c now send_to_client = current_is_approved c
is_allowed c now send_for_signature =
    if is_accepted_status c.status
    then current_is_approved c && c.accepted_version_id =?= c.current_version_id
    else current_is_approved c
is_allowed c now expire = is_some c.end_date
is_allowed c now open_renewal = is_some c.end_date
is_allowed c now validate_import = is_some c.start_date
is_allowed c now complete_termination = termination_reached c.termination_effective_date now
is_allowed c now _ = true

unfoldable pub allowed_events : ContractSnapshot → Option Instant → List ContractEventType
allowed_events c now = filter (is_allowed c now) (transitions c.status)

-- `status !== 'ACTIVE' && status !== 'SIGNED' && status !== 'RENEWAL_DUE'`, negated
abbrev is_amendable : ContractStatus → Bool
is_amendable active = true
is_amendable signed = true
is_amendable renewal_due = true
is_amendable _ = false

unfoldable pub assert_can_amend : ContractSnapshot → Result ContractError (Unit {0})
assert_can_amend parent = do
  refuse (not (is_amendable parent.status)) (business_rule rm_17)
  refuse parent.open_amendment_exists (business_rule rm_19)

abbrev is_renewable : ContractStatus → Bool
is_renewable active = true
is_renewable expired = true
is_renewable renewal_due = true
is_renewable _ = false

unfoldable pub assert_can_renew : ContractSnapshot → Result ContractError (Unit {0})
assert_can_renew parent = refuse (not (is_renewable parent.status)) (business_rule rm_16)
