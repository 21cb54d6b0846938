-- ===== src/Contract/Service/Approvals.antt =====
-- The table of approvals: lemmas on its rows.
use contrats.Base.{
  IsIn, All-IsIn, ◌==◌, Bool, true, false, ◌≡◌, refl, sym, ap, ◌∙◌, Bool-cases, Option-cases,
  ==_iff, some, List, [], ◌∷◌, any, All, arith, inl, inr, if◌then◌else◌,
}
use contrats.Contract.Types.{EntityId}
use contrats.Contract.Store.{pending, Approval, latest_pending, update_approval}

abbrev pub HasDistinctIds : List Approval → Type 0
HasDistinctIds [] = Unit
HasDistinctIds (a ∷ rows) = All (λ b. ¬ (a.id ≡ b.id)) rows × HasDistinctIds rows

pub latest-IsIn :
    (rows : List Approval) (p : Approval)
    → latest_pending rows ≡ some p
    → IsIn p rows × (p.decision ≡ pending)
unfolding latest_pending
latest-IsIn [] p h = cc
latest-IsIn (a ∷ rows) p h = elim (Option-cases (latest_pending rows)) [
  | inl e ↦ ground (arith, e)
  | inr (b, e) ↦ ground (arith, e, latest-IsIn rows b e)
]

pub distinct_same :
    (rows : List Approval) (a b : Approval)
    → HasDistinctIds rows
    → IsIn a rows
    → IsIn b rows
    → a.id ≡ b.id
    → a ≡ b
distinct_same (x ∷ xs) a b d (inl e) (inl k) h = e ∙ sym k
distinct_same (x ∷ xs) a b d (inl e) (inr k) h =
    absurd (All-IsIn (λ y. ¬ (x.id ≡ y.id)) xs b d.0 k (ap (λ y. y.id) (sym e) ∙ h))
distinct_same (x ∷ xs) a b d (inr e) (inl k) h =
    absurd (All-IsIn (λ y. ¬ (x.id ≡ y.id)) xs a d.0 e (ap (λ y. y.id) (sym k) ∙ sym h))
distinct_same (x ∷ xs) a b d (inr e) (inr k) h = distinct_same xs a b d.1 e k h
distinct_same [] a b d e k h = elim e [ ]

false-true : ¬ (false ≡ true)
false-true e = cc

module _ (id : EntityId) (f : Approval → Approval) where
  P-update :
      (P : Approval → Type 0) (a : Approval)
      → (¬ (a.id ≡ id) → P a)
      → (a.id ≡ id → P (f a))
      → P (if a.id == id then f a else a)
  P-update P a h k = elim (Bool-cases (a.id == id)) [
    | inl e ↦ rw e (k ((==_iff a.id id).0 e))
    | inr e ↦ rw e (h (λ i. absurd (false-true (sym e ∙ (==_iff a.id id).1 i))))
  ]

  updated_id :
      ((a : Approval) → (f a).id ≡ a.id)
      → (a : Approval) → (if a.id == id then f a else a).id ≡ a.id
  updated_id k a = P-update (λ b. b.id ≡ a.id) a (λ n. refl) (λ e. k a)

  keeps_apart :
      (a : Approval) (rows : List Approval)
      → ((b : Approval) → (f b).id ≡ b.id)
      → All (λ b. ¬ (a.id ≡ b.id)) rows
      → All (λ b. ¬ ((if a.id == id then f a else a).id ≡ b.id)) (update_approval id f rows)
  keeps_apart a [] k h = tt
  keeps_apart a (b ∷ rows) k h =
      (λ e. h.0 (sym (updated_id k a) ∙ e ∙ updated_id k b), keeps_apart a rows k h.1)

  pub All-update :
      (Q P : Approval → Type 0) (rows : List Approval)
      → All Q rows
      → ((a : Approval) → Q a → ¬ (a.id ≡ id) → P a)
      → ((a : Approval) → IsIn a rows → Q a → a.id ≡ id → P (f a))
      → All P (update_approval id f rows)
  All-update Q P [] h l k = tt
  All-update Q P (a ∷ rows) h l k =
      (P-update P a (l a h.0) (k a (inl refl) h.0), All-update Q P rows h.1 l (λ b i. k b (inr i)))

  pub distinct-update :
      (rows : List Approval)
      → ((a : Approval) → (f a).id ≡ a.id)
      → HasDistinctIds rows
      → HasDistinctIds (update_approval id f rows)
  distinct-update [] k d = tt
  distinct-update (a ∷ rows) k d = (keeps_apart a rows k d.0, distinct-update rows k d.1)

  pub any-update-found :
      (q : Approval → Bool) (rows : List Approval) (p : Approval)
      → IsIn p rows
      → p.id ≡ id
      → q (f p) ≡ true
      → any q (update_approval id f rows) ≡ true
  any-update-found q [] p e h k = elim e [ ]
  any-update-found q (a ∷ rows) p (inl e) h k =
      ground (arith, ap (λ x. q (f x)) e, ap (λ x. x.id) e, h, k)
  any-update-found q (a ∷ rows) p (inr e) h k = ground (arith, any-update-found q rows p e h k)

  pub any-update_kept :
      (q : Approval → Bool) (rows : List Approval)
      → ((a : Approval) → IsIn a rows → a.id ≡ id → q a ≡ true → q (f a) ≡ true)
      → any q rows ≡ true
      → any q (update_approval id f rows) ≡ true
  any-update_kept q [] k h = cc
  any-update_kept q (a ∷ rows) k h =
      ground (arith, any-update_kept q rows (λ b i. k b (inr i)), k a (inl refl))
