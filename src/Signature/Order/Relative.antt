-- ===== src/Signature/Order/Relative.antt =====
-- Within a party the plan keeps the order in which the signers were entered.
use contrats.Base.{
  ℕ, ◌+◌, ◌≡◌, refl, ◌⊎◌, inl, inr, Bool, not, List, [], ◌∷◌, ◌++◌, map, filter, ltb, All, All-map,
  All-pairs, arith,
}
use contrats.Base.Result.{ok, ok-injective}
use contrats.Signature.Order.{
  SubmitterCommand, SignerParty, SigningPlan, SigningOrderPolicy, client_then_lsi, lsi_then_client,
  parallel, as_defined, orders, renumber, rank, sort_by_order, is_client, next_order, plan_by_party,
  plan_by_policy, plan_signing_order,
}
use contrats.Signature.Order.Rank.{In, IsSorted, position, position-lt}
use contrats.Signature.Order.Sorting.{sort-IsSorted, filter-IsSorted}
use contrats.Signature.Order.Plan.{is_first_by}

-- A signer as entered, beside the signer as planned.
abbrev pub beside :
    List SubmitterCommand → List SubmitterCommand → List (SubmitterCommand × SubmitterCommand)
beside [] ts = []
beside (s ∷ ss) [] = []
beside (s ∷ ss) (t ∷ ts) = (s, t) ∷ beside ss ts

-- Of any two signers, one is asked before the other exactly if it was entered so; two of the same
-- rank stay of the same rank.
abbrev pub KeepsOrder : List SubmitterCommand → List SubmitterCommand → Type 0
KeepsOrder entered planned =
    All
      (λ p.
        All (λ q. ltb p.1.signing_order q.1.signing_order ≡ ltb p.0.signing_order q.0.signing_order)
          (beside entered planned))
      (beside entered planned)

abbrev IsNumbered : (ℕ → ℕ) → List ℕ → SubmitterCommand × SubmitterCommand → Type 0
IsNumbered f ks p = In p.0.signing_order ks × (p.1.signing_order ≡ f p.0.signing_order)

In-orders : (ss : List SubmitterCommand) → All (λ s. In s.signing_order (orders ss)) ss
In-orders [] = tt
In-orders (s ∷ ss) = (
  inl refl,
  All-map (λ t. In t.signing_order (orders ss)) (λ t. In t.signing_order (orders (s ∷ ss))) ss
      (λ t m. inr m) (In-orders ss),
)

beside-renumber :
    (f : ℕ → ℕ) (ks : List ℕ) (ss : List SubmitterCommand)
    → All (λ s. In s.signing_order ks) ss
    → All (IsNumbered f ks) (beside ss (map (renumber f) ss))
beside-renumber f ks [] h = tt
beside-renumber f ks (s ∷ ss) h = ((h.0, refl), beside-renumber f ks ss h.1)

shift-ltb : (offset a b : ℕ) → ltb (offset + a) (offset + b) ≡ ltb a b
shift-ltb offset a b = ground arith

pub rank-KeepsOrder :
    (ss : List SubmitterCommand) (offset : ℕ)
    → IsSorted (orders ss)
    → KeepsOrder ss (rank ss offset)
unfolding rank
rank-KeepsOrder ss offset h =
    let ks = orders ss in
    let f = λ (k : ℕ). offset + position ks k in
    let pairs = beside ss (map (renumber f) ss) in
    let numbered = beside-renumber f ks ss (In-orders ss) in
    All-pairs (IsNumbered f ks)
      (λ p q. ltb p.1.signing_order q.1.signing_order ≡ ltb p.0.signing_order q.0.signing_order)
      pairs pairs
      (λ p q m n.
        rw (m.1, n.1, shift-ltb) (position-lt p.0.signing_order q.0.signing_order ks h m.0 n.0))
      numbered numbered

-- `plan` consists of two groups, each in the order in which its party was entered.
abbrev pub IsGrouped : (SignerParty → Bool) → List SubmitterCommand → SigningPlan → Type 0
IsGrouped is_first entered plan =
    (first_group : List SubmitterCommand) × (second_group : List SubmitterCommand)
    × (plan.submitters ≡ first_group ++ second_group)
    × KeepsOrder (filter (λ s. is_first s.party) entered) first_group
    × KeepsOrder (filter (λ s. not (is_first s.party)) entered) second_group

plan_by_party-IsGrouped :
    (is_first : SignerParty → Bool) (entered : List SubmitterCommand)
    → IsSorted (orders entered)
    → IsGrouped is_first entered (plan_by_party is_first entered)
unfolding plan_by_party
plan_by_party-IsGrouped is_first entered h =
    let first_group = rank (filter (λ s. is_first s.party) entered) 0 in
    (
      first_group,
      rank (filter (λ s. not (is_first s.party)) entered) (next_order first_group),
      refl,
      rank-KeepsOrder (filter (λ s. is_first s.party) entered) 0
          (filter-IsSorted (λ s. is_first s.party) entered h),
      rank-KeepsOrder (filter (λ s. not (is_first s.party)) entered) (next_order first_group)
          (filter-IsSorted (λ s. not (is_first s.party)) entered h),
    )

-- A plan by party consists of the signers of the first party and then those of the other, and
-- within each party every two signers stand to one another as they were entered: one before the
-- other, or of the same rank.
pub plan_signing_order-KeepsOrder :
    (ss : List SubmitterCommand) (policy : SigningOrderPolicy) {plan : SigningPlan}
    → (policy ≡ client_then_lsi) ⊎ (policy ≡ lsi_then_client)
    → plan_signing_order ss policy ≡ ok plan
    → IsGrouped (is_first_by policy) (sort_by_order ss) plan
unfolding plan_signing_order plan_by_policy
plan_signing_order-KeepsOrder [] policy c h = absurd (cc)
plan_signing_order-KeepsOrder (s ∷ ss) client_then_lsi c h =
    rw (← ok-injective h)
      (plan_by_party-IsGrouped is_client (sort_by_order (s ∷ ss)) (sort-IsSorted (s ∷ ss)))
plan_signing_order-KeepsOrder (s ∷ ss) lsi_then_client c h = rw (← ok-injective h) (
    plan_by_party-IsGrouped (λ p. not (is_client p)) (sort_by_order (s ∷ ss))
      (sort-IsSorted (s ∷ ss)))
plan_signing_order-KeepsOrder (s ∷ ss) parallel c h = absurd (ground arith)
plan_signing_order-KeepsOrder (s ∷ ss) as_defined c h = absurd (ground arith)
