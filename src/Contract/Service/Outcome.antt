-- ===== src/Contract/Service/Outcome.antt =====
-- What the service announces of an event that it accepts.
use mathlib.Core.Path.{subst}
use contrats.Base.{
  is_some, Bool-cases, Bool, true, false, ◌≡◌, refl, sym, ap, ◌∙◌, Option, none, some,
  if◌then◌else◌, List, ◌∷◌, arith, ◌⊎◌, inl, inr,
}
use contrats.Base.Instant.{Instant}
use contrats.Base.Result.{ok}
use contrats.Contract.Types.{
  EntityId, ContractStatus, ContractSnapshot, ContractEvent, event_type, signed, active, terminated,
  renewed, renewal_due, imported_pending_validation, pending_signature, partially_signed,
}
use contrats.Contract.EventType.{ContractEventType}
use contrats.Contract.Events.{apply_event}
use contrats.Contract.Rows.{
  ContractRow, updated_row, WebhookEventType, contract_event_for, contract_activated,
  contract_signed, contract_renewed, contract_terminated, contract_renewal_due,
}
use contrats.Contract.Store.{
  ContractStore, PublishedEvent, publish_transition, same_status, status_code, persist_transition,
}
use contrats.Contract.Service.{written, service_apply_event}
use contrats.Contract.Service.Refines.{snapshot_of, service_apply_event-written}

-- Why an event is announced, by its type.
pub record IsAnnounced (c : ContractRow) (e : PublishedEvent) : Type 0 where
  pub of_contract : e.resource_id ≡ c.id
  pub from_status : e.previous_status ≡ c.status
  pub moved : ¬ (e.after.status ≡ c.status)
  pub signing :
      e.type ≡ contract_signed
      → (e.after.status ≡ signed)
        × ((c.status ≡ pending_signature)
            ⊎ (c.status ≡ partially_signed)
            ⊎ (c.status ≡ imported_pending_validation))
  pub activation :
      e.type ≡ contract_activated
      → (e.after.status ≡ active) × ((c.status ≡ signed) ⊎ (c.status ≡ imported_pending_validation))
  pub renewal :
      e.type ≡ contract_renewed
      → (e.after.status ≡ renewed) ⊎ ((e.after.status ≡ active) × (c.status ≡ renewal_due))
  pub termination : e.type ≡ contract_terminated → e.after.status ≡ terminated
  pub notice : e.type ≡ contract_renewal_due → e.after.status ≡ renewal_due

-- The type that the table gives for a transition that the machine accepts.
abbrev TypeIs : ContractSnapshot → ContractEvent → ContractSnapshot → WebhookEventType → Type 0
TypeIs c event next type =
    contract_event_for next.status (event_type event) (some c.status) ≡ some type

signing_type :
    (c : ContractSnapshot) (event : ContractEvent) (now : Instant) (next : ContractSnapshot)
    → apply_event c event now ≡ ok next
    → TypeIs c event next contract_signed
    → (next.status ≡ signed)
      × ((c.status ≡ pending_signature)
          ⊎ (c.status ≡ partially_signed)
          ⊎ (c.status ≡ imported_pending_validation)
          ⊎ (c.status ≡ signed))
unfolding apply_event
signing_type c (ContractEvent.approve a) now next h k = ground arith
signing_type c _ now next h k = ground arith

activation_type :
    (c : ContractSnapshot) (event : ContractEvent) (now : Instant) (next : ContractSnapshot)
    → apply_event c event now ≡ ok next
    → TypeIs c event next contract_activated
    → (next.status ≡ active) × ((c.status ≡ signed) ⊎ (c.status ≡ imported_pending_validation))
unfolding apply_event
activation_type c (ContractEvent.approve a) now next h k = ground arith
activation_type c _ now next h k = ground arith

renewal_type :
    (c : ContractSnapshot) (event : ContractEvent) (now : Instant) (next : ContractSnapshot)
    → apply_event c event now ≡ ok next
    → TypeIs c event next contract_renewed
    → (next.status ≡ renewed) ⊎ ((next.status ≡ active) × (c.status ≡ renewal_due))
unfolding apply_event
renewal_type c (ContractEvent.approve a) now next h k = ground arith
renewal_type c _ now next h k = ground arith

closing_type :
    (c : ContractSnapshot) (event : ContractEvent) (next : ContractSnapshot)
    → (TypeIs c event next contract_terminated → next.status ≡ terminated)
      × (TypeIs c event next contract_renewal_due → next.status ≡ renewal_due)
closing_type c event next = (λ k. ground arith, λ k. ground arith)

publish-cases :
    (previous : ContractStatus) (after : ContractRow) (type : Option WebhookEventType)
    (now : Instant) (published : List PublishedEvent) (known : Bool)
    → let result =
        if known then publish_transition previous after type now published else published in
      (result ≡ published)
      ⊎ ((e : PublishedEvent) × (result ≡ e ∷ published)
          × (e.resource_id ≡ after.id)
          × (e.previous_status ≡ previous)
          × (e.after ≡ after)
          × (type ≡ some e.type)
          × (same_status previous after.status ≡ false))
unfolding publish_transition
publish-cases previous after type now published false = inl refl
publish-cases previous after none now published true = inl refl
publish-cases previous after (some type) now published true =
    elim (Bool-cases (same_status previous after.status)) [
      | inl k ↦ inl (ground (arith, k))
      | inr k ↦ inr (
        record {
          type = type;
          resource_id = after.id;
          previous_status = previous;
          after = after;
          occurred_at = now;
        },
        ground (arith, k),
        refl,
        refl,
        refl,
        refl,
        k,
      )
    ]

moved_status : (s t : ContractStatus) → same_status s t ≡ false → ¬ (t ≡ s)
moved_status s t h k = ground (arith, h, ap status_code k)

unsigned_before :
    (c next : ContractStatus)
    → ¬ (next ≡ c)
    → (next ≡ signed)
      × ((c ≡ pending_signature)
          ⊎ (c ≡ partially_signed)
          ⊎ (c ≡ imported_pending_validation)
          ⊎ (c ≡ signed))
    → (next ≡ signed)
      × ((c ≡ pending_signature) ⊎ (c ≡ partially_signed) ⊎ (c ≡ imported_pending_validation))
unsigned_before c next m (n, inl e) = (n, inl e)
unsigned_before c next m (n, inr (inl e)) = (n, inr (inl e))
unsigned_before c next m (n, inr (inr (inl e))) = (n, inr (inr e))
unsigned_before c next m (n, inr (inr (inr e))) = absurd (m (n ∙ sym e))

-- What is to be announced of a contract that has moved from one status to another.
abbrev pub Announces : ContractStatus → ContractEvent → ContractStatus → WebhookEventType → Type 0
Announces before event after contract_signed = after ≡ signed
Announces before event after contract_activated =
    (after ≡ active) × ((before ≡ signed) ⊎ (before ≡ imported_pending_validation))
Announces before event after contract_renewed =
    (after ≡ renewed) ⊎ (event_type event ≡ ContractEventType.renew_period)
Announces before event after contract_terminated = after ≡ terminated
Announces before event after contract_renewal_due = after ≡ renewal_due

type_of :
    (c : ContractSnapshot) (event : ContractEvent) (now : Instant) (next : ContractSnapshot)
    (type : WebhookEventType)
    → apply_event c event now ≡ ok next
    → Announces c.status event next.status type
    → TypeIs c event next type
unfolding apply_event
type_of c (ContractEvent.approve a) now next contract_signed h k = ground arith
type_of c (ContractEvent.approve a) now next contract_activated h k = ground arith
type_of c (ContractEvent.approve a) now next contract_renewed h k = ground arith
type_of c (ContractEvent.approve a) now next contract_terminated h k = ground arith
type_of c (ContractEvent.approve a) now next contract_renewal_due h k = ground arith
type_of c _ now next contract_signed h k = ground arith
type_of c _ now next contract_activated h k = ground arith
type_of c _ now next contract_renewed h k = ground arith
type_of c _ now next contract_terminated h k = ground arith
type_of c _ now next contract_renewal_due h k = ground arith

type_known :
    (after : ContractStatus) (event : ContractEventType) (before : Option ContractStatus)
    (type : WebhookEventType)
    → contract_event_for after event before ≡ some type
    → is_some (contract_event_for after event none) ≡ true
type_known after event before type h = ground arith

same_status-equal : (s t : ContractStatus) → same_status s t ≡ true → t ≡ s
same_status-equal s t h = ground arith

IsAnnounced-only :
    (store : ContractStore) (c : ContractRow) (event : ContractEvent) (new_id user : EntityId)
    (now : Instant) {store' : ContractStore}
    → store.contract ≡ some c
    → service_apply_event store event new_id user now ≡ ok store'
    → (store'.published ≡ store.published)
      ⊎ ((e : PublishedEvent) × (store'.published ≡ e ∷ store.published) × IsAnnounced c e)
unfolding written persist_transition
IsAnnounced-only store c event new_id user now found h =
    let (next, machine, requested, done) =
      service_apply_event-written store c event new_id user now found h in
    let before = snapshot_of c store in
    let after = updated_row c next now user in
    let result = ap (λ s. s.published) (sym done) in
    elim (publish-cases c.status after
      (contract_event_for next.status (event_type event) (some c.status)) now store.published
      (is_some (contract_event_for next.status (event_type event) none))) [
        | inl k ↦ inl (result ∙ k)
        | inr (e, k, id, previous, row, type, same) ↦
            let moved = moved_status c.status next.status same in
            let arrived = sym (ap (λ r. r.status) row) in
            inr (
              e,
              result ∙ k,
              record {
                of_contract = id;
                from_status = previous;
                moved = λ w. moved (arrived ∙ w);
                signing = λ t.
                    let (to, from) =
                      unsigned_before c.status next.status moved
                        (signing_type before event now next machine (type ∙ ap some t)) in
                    (sym arrived ∙ to, from);
                activation = λ t.
                    let (to, from) =
                      activation_type before event now next machine (type ∙ ap some t) in
                    (sym arrived ∙ to, from);
                renewal = λ t.
                    subst (λ s. (s ≡ renewed) ⊎ ((s ≡ active) × (c.status ≡ renewal_due))) arrived
                      (renewal_type before event now next machine (type ∙ ap some t));
                termination =
                    λ t. sym arrived ∙ (closing_type before event next).0 (type ∙ ap some t);
                notice = λ t. sym arrived ∙ (closing_type before event next).1 (type ∙ ap some t);
              },
            )
      ]

announcement : WebhookEventType → ContractStatus → ContractRow → Instant → PublishedEvent
announcement type previous after now = record {
  type = type;
  resource_id = after.id;
  previous_status = previous;
  after = after;
  occurred_at = now;
}

published_at :
    (previous : ContractStatus) (after : ContractRow) (known : Bool)
    (given : Option WebhookEventType) (type : WebhookEventType) (now : Instant)
    (published : List PublishedEvent)
    → known ≡ true
    → given ≡ some type
    → same_status previous after.status ≡ false
    → (if known then publish_transition previous after given now published else published)
      ≡ announcement type previous after now ∷ published
unfolding publish_transition announcement
published_at previous after known given type now published k g s = rw (k, g, s) refl

not_same : (s t : ContractStatus) → ¬ (t ≡ s) → same_status s t ≡ false
not_same s t n = elim (Bool-cases (same_status s t)) [
  | inl e ↦ absurd (n (same_status-equal s t e))
  | inr e ↦ e
]

-- An announcement of the row, as it is written.
abbrev pub IsTold :
    ContractStore → ContractRow → Instant → WebhookEventType → ContractStore → Type 0
IsTold store c' now type store' =
    (e : PublishedEvent) × (store'.published ≡ e ∷ store.published)
    × (e.type ≡ type)
    × (e.after ≡ c')
    × (e.occurred_at ≡ now)

announced_each :
    (store : ContractStore) (c : ContractRow) (event : ContractEvent) (new_id user : EntityId)
    (now : Instant) {store' : ContractStore}
    → store.contract ≡ some c
    → service_apply_event store event new_id user now ≡ ok store'
    → (c' : ContractRow) × (store'.contract ≡ some c')
      × (¬ (c'.status ≡ c.status)
          → (type : WebhookEventType) → Announces c.status event c'.status type
          → IsTold store c' now type store')
unfolding written persist_transition announcement
announced_each store c event new_id user now {store' = store'} found h =
    let (next, machine, requested, done) =
      service_apply_event-written store c event new_id user now found h in
    let after = updated_row c next now user in
    (
      after,
      ap (λ s. s.contract) (sym done),
      λ moved type told.
          let given = type_of (snapshot_of c store) event now next type machine told in
          (
            announcement type c.status after now,
            ap (λ s. s.published) (sym done)
                ∙ published_at c.status after
                    (is_some (contract_event_for next.status (event_type event) none))
                    (contract_event_for next.status (event_type event) (some c.status)) type now
                    store.published
                    (type_known next.status (event_type event) (some c.status) type given) given
                    (not_same c.status next.status moved),
            refl,
            refl,
            refl,
          ),
    )

-- An event that the service accepts announces what is to be announced, and nothing else. If the
-- contract has moved to SIGNED, to RENEWED, to TERMINATED or to RENEWAL_DUE, to ACTIVE from SIGNED or
-- from an import, or by RENEW_PERIOD, one event of that kind is published, with the new row and the
-- instant. Whatever is published is one event, of this contract, that it has moved from the status it
-- had: a signature when it comes to SIGNED from its signature or an import, an activation when it
-- comes to ACTIVE from SIGNED or an import, and so never when a renewal or a termination is called
-- off, a renewal, a termination or a notice of renewal when it comes to the status of that name, or
-- a renewal by a new period.
pub service_apply_event-IsAnnounced :
    (store : ContractStore) (c : ContractRow) (event : ContractEvent) (new_id user : EntityId)
    (now : Instant) {store' : ContractStore}
    → store.contract ≡ some c
    → service_apply_event store event new_id user now ≡ ok store'
    → ((c' : ContractRow) × (store'.contract ≡ some c')
        × (¬ (c'.status ≡ c.status)
            → (type : WebhookEventType) → Announces c.status event c'.status type
            → IsTold store c' now type store'))
      × ((store'.published ≡ store.published)
          ⊎ ((e : PublishedEvent) × (store'.published ≡ e ∷ store.published) × IsAnnounced c e))
service_apply_event-IsAnnounced store c event new_id user now found h = (
  announced_each store c event new_id user now found h,
  IsAnnounced-only store c event new_id user now found h,
)
