-- ===== src/Contract/Service/Calls.antt =====
-- Any calls of the services, one after another, on the rows of one contract.
use mathlib.Core.Path.{subst}
use contrats.Base.{
  IsIn, All-IsIn, ℕ, Bool, true, ◌≡◌, refl, sym, Option, none, some, is_some, List, [], ◌∷◌, any,
  arith, inl, inr, Bool-cases, =?=_iff,
}
use contrats.Base.Text.{Text}
use contrats.Base.Instant.{Instant}
use contrats.Base.Result.{ok}
use contrats.Contract.Service.Refines.{snapshot_of}
use contrats.Contract.Types.{EntityId, ContractSnapshot, ContractEvent, draft}
use contrats.Contract.Machine.{is_set}
use contrats.Contract.Events.Approval.{IsConsistent, is_locked}
use contrats.Contract.Rows.{ContractRow}
use contrats.Contract.Store.{Decision, Approval, ContractStore}
use contrats.Contract.Service.{service_apply_event, archive, unarchive, save_content}
use contrats.Contract.Service.Audit.{IsAudited, IsSeparated, approves}
use contrats.Contract.Service.Reached.{
  IsSound, SoundRow, IsFresh, service_apply_event-IsSound, archive-IsSound, unarchive-IsSound,
}
use contrats.Contract.Service.Saved.{save_content-IsSound}

-- The rows of a contract that has just been created: a draft, with no approval.
pub record IsCreated (store : ContractStore) : Type 0 where
  pub row : ContractRow
  pub stored : store.contract ≡ some row
  pub is_draft : row.status ≡ draft
  pub unapproved : row.approved_version_id ≡ none
  pub no_approval : store.approvals ≡ []

-- The row of an approval of the version, by someone else than the author of its submission.
pub record IsApprovalOf (version : Option EntityId) (a : Approval) : Type 0 where
  pub is_granted : a.decision ≡ Decision.approved
  pub of_version : a.version_id ≡ version
  pub reviewer : EntityId
  pub by_reviewer : a.decided_by_user_id ≡ some reviewer
  pub separate : ¬ (reviewer ≡ a.submitted_by_user_id)

draft-IsAudited :
    (c : ContractRow) → c.status ≡ draft → c.approved_version_id ≡ none → IsAudited c []
draft-IsAudited c d a = record {
  distinct = tt;
  separated = tt;
  evidence = λ e. ground (arith, a, e);
  requested = λ e. ground (arith, d, e);
  settled = λ n m. tt;
}

draft-IsConsistent :
    (c : ContractSnapshot) → c.status ≡ draft → c.approved_version_id ≡ none → IsConsistent c
draft-IsConsistent c d a = ground arith

locked_current :
    (c : ContractSnapshot)
    → IsConsistent c
    → is_locked c.status ≡ true
    → (is_set c.current_version_id ≡ true)
      × (c.approved_version_id ≡ c.current_version_id)
      × (is_some c.approved_version_id ≡ true)
locked_current c v h = ground arith

pub created-IsSound : {first : ContractStore} → IsCreated first → IsSound first
created-IsSound {first = first} v =
    subst (λ o. SoundRow o first) (sym v.stored)
      (
        subst (IsAudited v.row) (sym v.no_approval) (draft-IsAudited v.row v.is_draft v.unapproved),
        draft-IsConsistent (snapshot_of v.row first) v.is_draft v.unapproved,
      )

any-IsIn :
    (q : Approval → Bool) (rows : List Approval)
    → any q rows ≡ true
    → (a : Approval) × IsIn a rows × (q a ≡ true)
any-IsIn q [] h = cc
any-IsIn q (a ∷ rows) h = elim (Bool-cases (q a)) [
  | inl e ↦ (a, inl refl, e)
  | inr e ↦ let (b, i, k) = any-IsIn q rows (ground (arith, e, h)) in (b, inr i, k)
]

approves_row :
    (version : Option EntityId) (a : Approval)
    → approves version a ≡ true
    → IsSeparated a
    → IsApprovalOf version a
approves_row version a h s =
    let granted : a.decision ≡ Decision.approved = ground (arith, h) in
    let (user, by, apart) = s granted in
    record {
      is_granted = granted;
      of_version = (=?=_iff a.version_id version).0 (ground (arith, h));
      reviewer = user;
      by_reviewer = by;
      separate = apart;
    }

module _ (sanitize : Text → Text) (count_variables : Text → ℕ) where
  pub data Calls (first : ContractStore) : ContractStore → Type 0 where
    start : Calls first first
    event_call :
        {s s' : ContractStore} (e : ContractEvent) (new_id user : EntityId) (now : Instant)
        → Calls first s
        → IsFresh new_id s
        → service_apply_event s e new_id user now ≡ ok s'
        → Calls first s'
    save_call :
        {s s' : ContractStore} (body : Text) (summary : Option Text) (new_id user : EntityId)
        (moment now : Instant)
        → Calls first s
        → save_content sanitize count_variables s body summary new_id user moment now ≡ ok s'
        → Calls first s'
    archive_call :
        {s s' : ContractStore} (actor : EntityId) (now : Instant)
        → Calls first s
        → archive s actor now ≡ ok s'
        → Calls first s'
    unarchive_call :
        {s s' : ContractStore} (actor : EntityId) (now : Instant)
        → Calls first s
        → unarchive s actor now ≡ ok s'
        → Calls first s'

  pub Calls-IsSound :
      {first store : ContractStore} → IsSound first → Calls first store → IsSound store
  Calls-IsSound v start = v
  Calls-IsSound v (event_call {s = s} e new_id user now past fresh h) =
      service_apply_event-IsSound s e new_id user now fresh (Calls-IsSound v past) h
  Calls-IsSound v (save_call {s = s} body summary new_id user moment now past h) =
      save_content-IsSound sanitize count_variables s body summary new_id user moment now
        (Calls-IsSound v past) h
  Calls-IsSound v (archive_call {s = s} actor now past h) =
      archive-IsSound s actor now (Calls-IsSound v past) h
  Calls-IsSound v (unarchive_call {s = s} actor now past h) =
      unarchive-IsSound s actor now (Calls-IsSound v past) h

  -- Whatever calls of applyEvent, saveContent, archive and unarchive came since the contract was
  -- created, provided that the database draws new identifiers: while the contract is approved, with
  -- the client, accepted, in signature or refused, it has a current version, and the table of
  -- approvals holds a row that approves this very version, decided by someone else than the author
  -- of its submission.
  pub locked-IsApprovalOf :
      {first store : ContractStore} (c : ContractRow)
      → IsCreated first
      → Calls first store
      → store.contract ≡ some c
      → is_locked c.status ≡ true
      → (is_set c.current_version_id ≡ true)
        × (a : Approval) × IsIn a store.approvals
        × IsApprovalOf c.current_version_id a
  locked-IsApprovalOf {store = store} c created past found locked =
      let (audited, consistent) =
        subst (λ o. SoundRow o store) found (Calls-IsSound (created-IsSound created) past) in
      let (named, current, given) = locked_current (snapshot_of c store) consistent locked in
      let (a, i, h) =
        any-IsIn (approves c.approved_version_id) store.approvals (audited.evidence given) in
      (
        named,
        a,
        i,
        subst (λ v. IsApprovalOf v a) current
            (approves_row c.approved_version_id a h
              (All-IsIn IsSeparated store.approvals a audited.separated i)),
      )
