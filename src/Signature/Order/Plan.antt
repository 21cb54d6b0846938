-- ===== src/Signature/Order/Plan.antt =====
-- What a plan of signatures keeps of the signers, and the order that it sets between the parties.
use mathlib.Core.List.{Perm, map, map-append}
use mathlib.Core.List.Perm
use contrats.Base.{
  ℕ, ◌+◌, ◌≤◌, ◌<◌, ◌≡◌, refl, sym, ◌∙◌, Bool, true, false, not, List, [], ◌∷◌, filter, All,
  All-append, arith, Bool-cases, inl, inr, All-map, All-pairs,
}
use contrats.Base.Result.{ok, ok-injective}
use contrats.Signature.Order.{
  SubmitterCommand, SignerParty, SigningPlan, SigningOrderPolicy, client_then_lsi, lsi_then_client,
  parallel, as_defined, orders, renumber, rank, sort_by_order, is_client, maximum, next_order,
  plan_by_party, plan_by_policy, plan_signing_order, preserved,
}
use contrats.Signature.Order.Rank.{position}
use contrats.Signature.Order.Sorting.{sort-perm, filter-perm, forget, map-forget-renumber}

map-forget-rank :
    (ss : List SubmitterCommand) (offset : ℕ) → map forget (rank ss offset) ≡ map forget ss
unfolding rank
map-forget-rank ss offset = map-forget-renumber (λ k. offset + position (orders ss) k) ss

plan_by_party-perm :
    (is_first : SignerParty → Bool) (ss : List SubmitterCommand)
    → Perm (map forget (plan_by_party is_first ss).submitters) (map forget ss)
unfolding plan_by_party
plan_by_party-perm is_first ss =
    rw (map-append, map-forget-rank, map-forget-rank, ← map-append)
      (Perm.map forget (filter-perm (λ s. is_first s.party) ss))

plan_by_policy-perm :
    (policy : SigningOrderPolicy) (ss : List SubmitterCommand)
    → Perm (map forget (plan_by_policy policy ss).submitters) (map forget ss)
unfolding plan_by_policy
plan_by_policy-perm parallel ss = rw map-forget-renumber (Perm.refl (map forget ss))
plan_by_policy-perm as_defined ss = Perm.refl (map forget ss)
plan_by_policy-perm client_then_lsi ss = plan_by_party-perm is_client ss
plan_by_policy-perm lsi_then_client ss = plan_by_party-perm (λ p. not (is_client p)) ss

-- A plan loses no signer, adds none, and changes of each nothing but the number in the order.
pub plan_signing_order-perm :
    (ss : List SubmitterCommand) (policy : SigningOrderPolicy) {plan : SigningPlan}
    → plan_signing_order ss policy ≡ ok plan
    → Perm (map forget plan.submitters) (map forget ss)
unfolding plan_signing_order
plan_signing_order-perm [] policy h = cc
plan_signing_order-perm (s ∷ ss) policy h = rw (← ok-injective h) (
    Perm.trans (plan_by_policy-perm policy (sort_by_order (s ∷ ss)))
      (Perm.map forget (sort-perm (s ∷ ss))))

true_ne_false : ¬ (true ≡ false)
true_ne_false e = cc

All-Unit : (ss : List SubmitterCommand) → All (λ s. Unit {0}) ss
All-Unit [] = tt
All-Unit (s ∷ ss) = (tt, All-Unit ss)

-- The numbers of the first party lie below `next`, those of the other from there on.
abbrev IsSplitAt : (SignerParty → Bool) → ℕ → SubmitterCommand → Type 0
IsSplitAt is_first next s =
    (is_first s.party ≡ true → s.signing_order < next)
    × (is_first s.party ≡ false → next ≤ s.signing_order)

-- Numbers from `offset` on, in the signers of one party.
renumber-above :
    (f : ℕ → ℕ) (offset : ℕ) (is_first : SignerParty → Bool) (ss : List SubmitterCommand)
    → All (λ s. is_first s.party ≡ false) ss
    → All (IsSplitAt is_first offset) (map (renumber (λ k. offset + f k)) ss)
renumber-above f offset is_first [] h = tt
renumber-above f offset is_first (s ∷ ss) h = (
  (λ e. absurd (true_ne_false (sym e ∙ h.0)), λ e. omega arith),
  renumber-above f offset is_first ss h.1,
)

below_next :
    (bound : ℕ) (is_first : SignerParty → Bool) (ss : List SubmitterCommand)
    → All (λ s. is_first s.party ≡ true) ss
    → maximum (orders ss) < bound
    → All (IsSplitAt is_first bound) ss
below_next bound is_first [] h m = tt
below_next bound is_first (s ∷ ss) h m = (
  (λ e. omega arith, λ e. absurd (true_ne_false (sym h.0 ∙ e))),
  below_next bound is_first ss h.1 (omega arith),
)

below_next_order :
    (is_first : SignerParty → Bool) (ss : List SubmitterCommand)
    → All (λ s. is_first s.party ≡ true) ss
    → All (IsSplitAt is_first (next_order ss)) ss
below_next_order is_first [] h = tt
below_next_order is_first (s ∷ ss) h =
    below_next (next_order (s ∷ ss)) is_first (s ∷ ss) h (omega arith)

filter-All :
    (test : SubmitterCommand → Bool) (ss : List SubmitterCommand)
    → All (λ s. test s ≡ true) (filter test ss)
filter-All test [] = tt
filter-All test (s ∷ ss) = elim (Bool-cases (test s)) [
  | inl e ↦ rw e (e, filter-All test ss)
  | inr e ↦ rw e (filter-All test ss)
]

renumber-party :
    (f : ℕ → ℕ) (is_first : SignerParty → Bool) (ss : List SubmitterCommand)
    → All (λ s. is_first s.party ≡ true) ss
    → All (λ s. is_first s.party ≡ true) (map (renumber f) ss)
renumber-party f is_first [] h = tt
renumber-party f is_first (s ∷ ss) h = (h.0, renumber-party f is_first ss h.1)

not-true : (b : Bool) → not b ≡ true → b ≡ false
not-true b h = ground arith

plan_by_party-split :
    (is_first : SignerParty → Bool) (ss : List SubmitterCommand)
    → let next = next_order (rank (filter (λ s. is_first s.party) ss) 0) in
      All (IsSplitAt is_first next) (plan_by_party is_first ss).submitters
unfolding plan_by_party rank
plan_by_party-split is_first ss =
    let group = filter (λ s. is_first s.party) ss in
    let others = filter (λ s. not (is_first s.party)) ss in
    let first_group = map (renumber (λ k. 0 + position (orders group) k)) group in
    All-append (IsSplitAt is_first (next_order first_group)) first_group _
      (below_next_order is_first first_group (
        renumber-party (λ k. 0 + position (orders group) k) is_first group
          (filter-All (λ s. is_first s.party) ss)))
      (renumber-above (position (orders others)) (next_order first_group) is_first others (
        All-map (λ s. not (is_first s.party) ≡ true) (λ s. is_first s.party ≡ false) others
          (λ s h. not-true (is_first s.party) h) (filter-All (λ s. not (is_first s.party)) ss)))

-- The party that a policy asks first.
abbrev pub is_first_by : SigningOrderPolicy → SignerParty → Bool
is_first_by client_then_lsi p = is_client p
is_first_by lsi_then_client p = not (is_client p)
is_first_by _ p = false

-- The provider asks `s` before `t`: it follows the numbers, and that of `s` is the lower one. A plan
-- of order RANDOM has everyone asked at once.
abbrev pub IsAskedBefore : SigningPlan → SubmitterCommand → SubmitterCommand → Type 0
IsAskedBefore plan s t = (plan.order ≡ preserved) × (s.signing_order < t.signing_order)

-- Two signers of a plan that are of different parties: the one of the first party is asked first.
abbrev pub AreAskedInOrder :
    (SignerParty → Bool) → SigningPlan → SubmitterCommand → SubmitterCommand → Type 0
AreAskedInOrder is_first plan s t =
    is_first s.party ≡ true → is_first t.party ≡ false → IsAskedBefore plan s t

no_first :
    (plan : SigningPlan) (ss : List SubmitterCommand)
    → All (λ s. All (AreAskedInOrder (λ p. false) plan s) ss) ss
no_first plan ss =
    All-pairs (λ s. Unit) (AreAskedInOrder (λ p. false) plan) ss ss
      (λ s t p q e d. absurd (true_ne_false (sym e))) (All-Unit ss) (All-Unit ss)

plan_by_party-AreAskedInOrder :
    (is_first : SignerParty → Bool) (ss : List SubmitterCommand)
    → let plan = plan_by_party is_first ss in
      All (λ s. All (AreAskedInOrder is_first plan s) plan.submitters) plan.submitters
unfolding plan_by_party
plan_by_party-AreAskedInOrder is_first ss =
    let plan = plan_by_party is_first ss in
    let next = next_order (rank (filter (λ s. is_first s.party) ss) 0) in
    All-pairs (IsSplitAt is_first next) (AreAskedInOrder is_first plan) plan.submitters
      plan.submitters (λ s t p q e d. (refl, omega (arith, p.0 e, q.1 d)))
      (plan_by_party-split is_first ss) (plan_by_party-split is_first ss)

-- Under CLIENT_THEN_LSI every signer of the client is asked before every signer of LSI, and under
-- LSI_THEN_CLIENT after: the provider follows the numbers of the plan, and no signer of the second
-- party has a number as low as one of the first.
pub plan_signing_order-AreAskedInOrder :
    (ss : List SubmitterCommand) (policy : SigningOrderPolicy) {plan : SigningPlan}
    → plan_signing_order ss policy ≡ ok plan
    → All (λ s. All (AreAskedInOrder (is_first_by policy) plan s) plan.submitters) plan.submitters
unfolding plan_signing_order plan_by_policy
plan_signing_order-AreAskedInOrder [] policy h = cc
plan_signing_order-AreAskedInOrder (s ∷ ss) client_then_lsi h =
    rw (← ok-injective h) (plan_by_party-AreAskedInOrder is_client (sort_by_order (s ∷ ss)))
plan_signing_order-AreAskedInOrder (s ∷ ss) lsi_then_client h =
    rw (← ok-injective h)
      (plan_by_party-AreAskedInOrder (λ p. not (is_client p)) (sort_by_order (s ∷ ss)))
plan_signing_order-AreAskedInOrder (s ∷ ss) parallel {plan} h = no_first plan plan.submitters
plan_signing_order-AreAskedInOrder (s ∷ ss) as_defined {plan} h = no_first plan plan.submitters
