-- ===== src/Signature/Order/Rank.antt =====
-- Renumbering within a group of signers.
use contrats.Base.{
  ℕ, ◌<◌, ◌≤◌, ◌≡◌, ◌≢◌, Bool, not, List, [], ◌∷◌, filter, ltb, ◌==◌, All, arith, Bool-cases, ◌⊎◌,
  inl, inr,
}
use contrats.Signature.Order.{distinct, index_of}

-- Membership, by recursion.
abbrev pub In : ℕ → List ℕ → Type 0
In k [] = ⊥
In k (j ∷ js) = (k ≡ j) ⊎ In k js

-- Each number is below all that follow it.
abbrev pub IsAscending : List ℕ → Type 0
IsAscending [] = Unit
IsAscending (j ∷ js) = All (λ i. j < i) js × IsAscending js

abbrev pub IsSorted : List ℕ → Type 0
IsSorted [] = Unit
IsSorted (j ∷ js) = All (λ i. j ≤ i) js × IsSorted js

All-In : (P : ℕ → Type 0) (k : ℕ) (js : List ℕ) → All P js → In k js → P k
All-In P k [] h m = absurd m
All-In P k (j ∷ js) h (inl e) = rw e h.0
All-In P k (j ∷ js) h (inr m) = All-In P k js h.1 m

All-filter : (P : ℕ → Type 0) (t : ℕ → Bool) (js : List ℕ) → All P js → All P (filter t js)
All-filter P t [] h = tt
All-filter P t (j ∷ js) h = elim (Bool-cases (t j)) [
  | inl e ↦ rw e (h.0, All-filter P t js h.1)
  | inr e ↦ rw e (All-filter P t js h.1)
]

All-distinct : (P : ℕ → Type 0) (js : List ℕ) → All P js → All P (distinct js)
unfolding distinct
All-distinct P [] h = tt
All-distinct P (j ∷ js) h =
    (h.0, All-filter P (λ i. not (i == j)) (distinct js) (All-distinct P js h.1))

-- Without the least number of a sorted list, what is left lies above it.
filter-above :
    (j : ℕ) (js : List ℕ) → All (λ i. j ≤ i) js → All (λ i. j < i) (filter (λ i. not (i == j)) js)
filter-above j [] h = tt
filter-above j (i ∷ js) h = ground (arith, filter-above j js h.1)

filter-IsAscending : (t : ℕ → Bool) (js : List ℕ) → IsAscending js → IsAscending (filter t js)
filter-IsAscending t [] h = tt
filter-IsAscending t (j ∷ js) h = elim (Bool-cases (t j)) [
  | inl e ↦ rw e (All-filter (λ i. j < i) t js h.0, filter-IsAscending t js h.1)
  | inr e ↦ rw e (filter-IsAscending t js h.1)
]

pub distinct-IsAscending : (js : List ℕ) → IsSorted js → IsAscending (distinct js)
unfolding distinct
distinct-IsAscending [] h = tt
distinct-IsAscending (j ∷ js) h = (
  filter-above j (distinct js) (All-distinct (λ i. j ≤ i) js h.0),
  filter-IsAscending (λ i. not (i == j)) (distinct js) (distinct-IsAscending js h.1),
)

In-filter : (k j : ℕ) (js : List ℕ) → k ≢ j → In k js → In k (filter (λ i. not (i == j)) js)
In-filter k j [] n m = absurd m
In-filter k j (i ∷ js) n (inl e) = ground arith
In-filter k j (i ∷ js) n (inr m) = ground (arith, In-filter k j js n m)

In-distinct : (k : ℕ) (js : List ℕ) → In k js → In k (distinct js)
unfolding distinct
In-distinct k [] m = m
In-distinct k (j ∷ js) (inl e) = inl e
In-distinct k (j ∷ js) (inr m) = ground (arith, In-filter k j (distinct js), In-distinct k js m)

-- In an ascending list the positions follow the numbers.
index_of-lt :
    (a b : ℕ) (js : List ℕ)
    → IsAscending js
    → In a js
    → In b js
    → a < b
    → index_of a js < index_of b js
unfolding index_of
index_of-lt a b [] h ma mb lt = absurd ma
index_of-lt a b (j ∷ js) h ma (inl e) lt = elim ma [
  | inl d ↦ absurd (omega arith)
  | inr m ↦ absurd (omega (arith, All-In (λ i. j < i) a js h.0 m))
]
index_of-lt a b (j ∷ js) h (inl d) (inr mb) lt = ground arith
index_of-lt a b (j ∷ js) h (inr ma) (inr mb) lt = ground (
  arith,
  All-In (λ i. j < i) a js h.0 ma,
  All-In (λ i. j < i) b js h.0 mb,
  index_of-lt a b js h.1 ma mb lt,
)

abbrev pub position : List ℕ → ℕ → ℕ
position ks k = index_of k (distinct ks)

pub position-lt :
    (a b : ℕ) (ks : List ℕ)
    → IsSorted ks
    → In a ks
    → In b ks
    → ltb (position ks a) (position ks b) ≡ ltb a b
position-lt a b ks s ma mb = ground (
  arith,
  index_of-lt a b (distinct ks) (distinct-IsAscending ks s) (In-distinct a ks ma)
      (In-distinct b ks mb),
  index_of-lt b a (distinct ks) (distinct-IsAscending ks s) (In-distinct b ks mb)
      (In-distinct a ks ma),
)
