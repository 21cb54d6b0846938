-- ===== src/Contract/Service/Saved.antt =====
-- `saveContent`: a new version of the text of a contract.
use mathlib.Core.Path.{subst}
use contrats.Base.{
  ℕ, List, false, ◌≡◌, sym, ap, ◌∙◌, Option, none, some, arith, ◌⊎◌, inl, inr, Option-cases,
}
use contrats.Base.Text.{Text}
use contrats.Base.Instant.{Instant}
use contrats.Base.Result.{Result, ok, err, bind-ok, refuse-ok, ok-injective, ◌>>=◌}
use contrats.Contract.Types.{EntityId, ContractSnapshot, ContractEvent, in_review, cancelled}
use contrats.Contract.Machine.{ContractError}
use contrats.Contract.Events.{apply_event}
use contrats.Contract.Events.Approval.{IsConsistent, is_reviewed, is_locked}
use contrats.Contract.Rows.{ContractRow, updated_row}
use contrats.Contract.Store.{Approval, ContractStore, persist_transition}
use contrats.Contract.Service.{
  ServiceError, ai_content, or_locked, is_ai, saved_row, saved, save_found, save_content,
  snapshot_with, bare,
}
use contrats.Contract.Service.Refines.{snapshot_of}
use contrats.Contract.Service.Audit.{IsAudited, evidence_kept}
use contrats.Contract.Service.Reached.{SoundRow, IsSound}

or_locked-ok :
    (r : Result ContractError ContractSnapshot) {a : ContractSnapshot}
    → or_locked r ≡ ok a
    → r ≡ ok a
or_locked-ok (ok b) h = cc
or_locked-ok (err e) h = cc

save_facts :
    (c : ContractSnapshot) (actor : EntityId) (now : Instant) {next : ContractSnapshot}
    → apply_event c (ContractEvent.edit_content actor) now ≡ ok next
    → (is_reviewed next.status ≡ false)
      × (is_locked next.status ≡ false)
      × ¬ (c.status ≡ in_review)
      × ¬ (c.status ≡ cancelled)
      × ((next.approved_version_id ≡ c.approved_version_id) ⊎ (next.approved_version_id ≡ none))
unfolding apply_event
save_facts c actor now h = ground arith

saved-IsConsistent :
    (c c' : ContractSnapshot)
    → IsConsistent c
    → is_reviewed c'.status ≡ false
    → is_locked c'.status ≡ false
    → (c'.approved_version_id ≡ c.approved_version_id) ⊎ (c'.approved_version_id ≡ none)
    → IsConsistent c'
saved-IsConsistent c c' v r l a = ground arith

in_review_reviewed : ¬ (is_reviewed in_review ≡ false)
in_review_reviewed e = cc

module _ (sanitize : Text → Text) (count_variables : Text → ℕ) where
  pub save_content-saved :
      (store : ContractStore) (c : ContractRow) (body : Text) (summary : Option Text)
      (new_id user : EntityId) (moment now : Instant) {store' : ContractStore}
      → store.contract ≡ some c
      → save_content sanitize count_variables store body summary new_id user moment now ≡ ok store'
      → (next : ContractSnapshot) × (is_ai c.origin ≡ false)
        × (apply_event (snapshot_with (bare c) none) (ContractEvent.edit_content user) moment
            ≡ ok next)
        × (saved sanitize count_variables store c next body summary new_id user now ≡ store')
  unfolding save_content
  save_content-saved store c body summary new_id user moment now found h =
      let event = ContractEvent.edit_content user in
      let machine = or_locked (apply_event (snapshot_with (bare c) none) event moment) in
      let save : ContractSnapshot → Result ServiceError ContractStore =
        λ next. ok (saved sanitize count_variables store c next body summary new_id user now) in
      let (human, rest) = refuse-ok (is_ai c.origin) ai_content (machine >>= save) (
        ap (λ o. save_found sanitize count_variables o store body summary new_id user moment now)
          (sym found)
        ∙ h) in
      let (next, accepted, done) = bind-ok machine save rest in
      (
        next,
        human,
        or_locked-ok (apply_event (snapshot_with (bare c) none) event moment) accepted,
        ok-injective done,
      )

  no_row :
      (store : ContractStore) (body : Text) (summary : Option Text) (new_id user : EntityId)
      (moment now : Instant) {store' : ContractStore}
      → store.contract ≡ none
      → ¬ (
          save_content sanitize count_variables store body summary new_id user moment now
          ≡ ok store')
  unfolding save_content
  no_row store body summary new_id user moment now e h = ground (arith, e, h)

  saved-IsAudited :
      (c : ContractRow) (approvals : List Approval) (next : ContractSnapshot) (clean : Text)
      (new_id user : EntityId) (moment now : Instant)
      → IsAudited c approvals
      → apply_event (snapshot_with (bare c) none) (ContractEvent.edit_content user) moment ≡ ok next
      → IsAudited
          (updated_row (saved_row sanitize count_variables c clean new_id) next now user)
          approvals
  saved-IsAudited c approvals next clean new_id user moment now v h =
      let (unreviewed, unlocked, unsubmitted, uncancelled, kept) =
        save_facts (snapshot_with (bare c) none) user moment h in
      record {
        distinct = v.distinct;
        separated = v.separated;
        evidence = evidence_kept c approvals next.approved_version_id kept v.evidence;
        requested =
            λ e. absurd (in_review_reviewed (subst (λ s. is_reviewed s ≡ false) e unreviewed));
        settled = λ n m. v.settled unsubmitted uncancelled;
      }

  -- A new version leaves the rows sound.
  pub save_content-IsSound :
      (store : ContractStore) (body : Text) (summary : Option Text) (new_id user : EntityId)
      (moment now : Instant) {store' : ContractStore}
      → IsSound store
      → save_content sanitize count_variables store body summary new_id user moment now ≡ ok store'
      → IsSound store'
  unfolding saved persist_transition
  save_content-IsSound store body summary new_id user moment now v h =
      elim (Option-cases store.contract) [
        | inl e ↦ absurd (no_row store body summary new_id user moment now e h)
        | inr (c, e) ↦
            let (next, human, machine, done) =
              save_content-saved store c body summary new_id user moment now e h in
            let (audited, consistent) = subst (λ o. SoundRow o store) e v in
            let (unreviewed, unlocked, unsubmitted, uncancelled, kept) =
              save_facts (snapshot_with (bare c) none) user moment machine in
            subst IsSound done (
              saved-IsAudited c store.approvals next (sanitize body) new_id user moment now audited
                  machine,
              saved-IsConsistent (snapshot_of c store)
                  (snapshot_of
                    (updated_row (saved_row sanitize count_variables c (sanitize body) new_id) next
                      now user)
                    store)
                  consistent unreviewed unlocked kept,
            )
      ]
