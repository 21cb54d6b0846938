-- ===== src/Signature/Order/Sorting.antt =====
-- Sorting the signers, splitting them by party, and what renumbering leaves alone.
use mathlib.Core.List.{Perm, perm_middle, map}
use mathlib.Core.List.Perm
use contrats.Base.{
  ℕ, ◌≤◌, ◌≡◌, refl, Bool, not, List, [], ◌∷◌, ◌++◌, filter, leb, All, arith, Bool-cases, inl, inr,
}
use contrats.Signature.Order.{SubmitterCommand, orders, renumber, sort_by_order, insert_by_order}
use contrats.Signature.Order.Rank.{IsSorted}

All-insert :
    (P : ℕ → Type 0) (s : SubmitterCommand) (ts : List SubmitterCommand)
    → P s.signing_order
    → All P (orders ts)
    → All P (orders (insert_by_order s ts))
unfolding insert_by_order
All-insert P s [] p h = (p, tt)
All-insert P s (t ∷ ts) p h = elim (Bool-cases (leb s.signing_order t.signing_order)) [
  | inl e ↦ rw e (p, h)
  | inr e ↦ rw e (h.0, All-insert P s ts p h.1)
]

All-le_trans : (j k : ℕ) (is : List ℕ) → j ≤ k → All (λ i. k ≤ i) is → All (λ i. j ≤ i) is
All-le_trans j k [] h a = tt
All-le_trans j k (i ∷ is) h a = (omega arith, All-le_trans j k is h a.1)

insert-IsSorted :
    (s : SubmitterCommand) (ts : List SubmitterCommand)
    → IsSorted (orders ts)
    → IsSorted (orders (insert_by_order s ts))
unfolding insert_by_order
insert-IsSorted s [] h = (tt, tt)
insert-IsSorted s (t ∷ ts) h = elim (Bool-cases (leb s.signing_order t.signing_order)) [
  | inl e ↦ rw e (
    (ground arith, All-le_trans s.signing_order t.signing_order (orders ts) (ground arith) h.0),
    h,
  )
  | inr e ↦
      rw e (All-insert (λ i. t.signing_order ≤ i) s ts (ground arith) h.0, insert-IsSorted s ts h.1)
]

pub sort-IsSorted : (ss : List SubmitterCommand) → IsSorted (orders (sort_by_order ss))
unfolding sort_by_order
sort-IsSorted [] = tt
sort-IsSorted (s ∷ ss) = insert-IsSorted s (sort_by_order ss) (sort-IsSorted ss)

insert-perm :
    (s : SubmitterCommand) (ts : List SubmitterCommand) → Perm (insert_by_order s ts) (s ∷ ts)
unfolding insert_by_order
insert-perm s [] = Perm.refl (s ∷ [])
insert-perm s (t ∷ ts) = elim (Bool-cases (leb s.signing_order t.signing_order)) [
  | inl e ↦ rw e (Perm.refl (s ∷ t ∷ ts))
  | inr e ↦ rw e (Perm.trans (Perm.cons t (insert-perm s ts)) (Perm.swap s t ts))
]

pub sort-perm : (ss : List SubmitterCommand) → Perm (sort_by_order ss) ss
unfolding sort_by_order
sort-perm [] = Perm.refl []
sort-perm (s ∷ ss) = Perm.trans (insert-perm s (sort_by_order ss)) (Perm.cons s (sort-perm ss))

All-orders-filter :
    (P : ℕ → Type 0) (test : SubmitterCommand → Bool) (ss : List SubmitterCommand)
    → All P (orders ss)
    → All P (orders (filter test ss))
All-orders-filter P test [] h = tt
All-orders-filter P test (s ∷ ss) h = elim (Bool-cases (test s)) [
  | inl e ↦ rw e (h.0, All-orders-filter P test ss h.1)
  | inr e ↦ rw e (All-orders-filter P test ss h.1)
]

pub filter-IsSorted :
    (test : SubmitterCommand → Bool) (ss : List SubmitterCommand)
    → IsSorted (orders ss)
    → IsSorted (orders (filter test ss))
filter-IsSorted test [] h = tt
filter-IsSorted test (s ∷ ss) h = elim (Bool-cases (test s)) [
  | inl e ↦
      rw e (All-orders-filter (λ i. s.signing_order ≤ i) test ss h.0, filter-IsSorted test ss h.1)
  | inr e ↦ rw e (filter-IsSorted test ss h.1)
]

-- The two parties together are all the signers.
pub filter-perm :
    (test : SubmitterCommand → Bool) (ss : List SubmitterCommand)
    → Perm (filter test ss ++ filter (λ s. not (test s)) ss) ss
filter-perm test [] = Perm.refl []
filter-perm test (s ∷ ss) = elim (Bool-cases (test s)) [
  | inl e ↦ rw e (Perm.cons s (filter-perm test ss))
  | inr e ↦ rw e (
      Perm.trans (perm_middle (filter test ss) (filter (λ t. not (test t)) ss))
        (Perm.cons s (filter-perm test ss)))
]

-- The signer without the number in the order.
abbrev pub forget : SubmitterCommand → SubmitterCommand
forget = renumber (λ k. 0)

pub map-forget-renumber :
    (f : ℕ → ℕ) (ss : List SubmitterCommand) → map forget (map (renumber f) ss) ≡ map forget ss
map-forget-renumber f [] = refl
map-forget-renumber f (s ∷ ss) = rw (map-forget-renumber f ss)
