-- ===== src/Pricing/Rules/Highest.antt =====
-- packages/pricing/src/rules.ts, adjustmentFor: the threshold that the loop keeps.
use mathlib.Core.Path.{subst}
use mathlib.Core.List.{append-nil, append_assoc}
use contrats.Base.{
  ℕ, true, false, ◌≡◌, refl, sym, ap, none, some, List, [], ◌∷◌, ◌++◌, All, All-map, IsIn, arith,
  inl, inr, Bool-cases,
}
use contrats.Base.Text.{Text}
use contrats.Base.Decimal.{to_text}
use contrats.Base.Result.{Result, ok, ◌>>=◌, bind-ok, ok-injective}
use contrats.Formula.Evaluator.{Decimals}
use contrats.Pricing.Dates.{PricingError}
use contrats.Pricing.Money.{Printing}
use contrats.Pricing.Rules.{
  by_commitment, Threshold, Best, Bounds, next_best, month_bounds, AdjustmentResult, best_threshold,
  percent_of, threshold_text, read_month_threshold, commitment_adjustment, adjustment_for,
}
use contrats.Pricing.Types.{PricingRule, MonthThreshold, commitment_discount}

module _ (A : Decimals) where
  -- Every threshold, read.
  pub read_all :
      {T B : Type 0}
      → (T → Result PricingError (Threshold A B))
      → List T
      → Result PricingError (List (Threshold A B))
  read_all read [] = ok []
  read_all read (t ∷ ts) = read t >>= λ u. read_all read ts >>= λ us. ok (u ∷ us)

  -- No threshold is reached, or this one is, and none that is reached is above it.
  abbrev pub IsHighest : {B : Type 0} → Bounds A B → B → List (Threshold A B) → Best A B → Type 0
  IsHighest o value us none = All (λ u. o.at_most u.min value ≡ false) us
  IsHighest o value us (some t) =
      IsIn t us
      × (o.at_most t.min value ≡ true)
      × All (λ u. o.at_most u.min value ≡ true → o.above u.min t.min ≡ false) us

  -- `>` is a strict order.
  pub record IsStrict {B : Type 0} (o : Bounds A B) : Type 0 where
    pub irreflexive : (a : B) → o.above a a ≡ false
    pub transitive : (a b c : B) → o.above a b ≡ true → o.above b c ≡ true → o.above a c ≡ true

  IsIn-snoc_left : {T : Type 0} (t u : T) (ts : List T) → IsIn t ts → IsIn t (ts ++ u ∷ [])
  IsIn-snoc_left t u [] h = elim h [ ]
  IsIn-snoc_left t u (x ∷ ts) (inl e) = inl e
  IsIn-snoc_left t u (x ∷ ts) (inr h) = inr (IsIn-snoc_left t u ts h)

  IsIn-snoc : {T : Type 0} (t : T) (ts : List T) → IsIn t (ts ++ t ∷ [])
  IsIn-snoc t [] = inl refl
  IsIn-snoc t (x ∷ ts) = inr (IsIn-snoc t ts)

  All-snoc :
      {T : Type 0} (Q : T → Type 0) (ts : List T) (t : T) → All Q ts → Q t → All Q (ts ++ t ∷ [])
  All-snoc Q [] t h q = (q, tt)
  All-snoc Q (x ∷ ts) t h q = (h.0, All-snoc Q ts t h.1 q)

  module _ {B : Type 0} (o : Bounds A B) (laws : IsStrict o) (value : B) where
    -- A first threshold that is reached is the highest.
    first-IsHighest :
        (us : List (Threshold A B)) (t : Threshold A B)
        → IsHighest o value us none
        → o.at_most t.min value ≡ true
        → IsHighest o value (us ++ t ∷ []) (some t)
    first-IsHighest us t h e = (
      IsIn-snoc t us,
      e,
      All-snoc (λ u. o.at_most u.min value ≡ true → o.above u.min t.min ≡ false) us t
          (All-map (λ u. o.at_most u.min value ≡ false)
            (λ u. o.at_most u.min value ≡ true → o.above u.min t.min ≡ false) us
            (λ u unreached reached. cc (unreached, reached)) h)
          (λ reached. laws.irreflexive t.min),
    )

    -- What is not above `b` is not above `t`, which is above `b`.
    below : (u t b : B) → o.above t b ≡ true → o.above u b ≡ false → o.above u t ≡ false
    below u t b h k = elim (Bool-cases (o.above u t)) [
      | inl e ↦ cc (laws.transitive u t b e h, k)
      | inr e ↦ e
    ]

    replaced-IsHighest :
        (us : List (Threshold A B)) (b t : Threshold A B)
        → IsHighest o value us (some b)
        → o.at_most t.min value ≡ true
        → o.above t.min b.min ≡ true
        → IsHighest o value (us ++ t ∷ []) (some t)
    replaced-IsHighest us b t h e higher = (
      IsIn-snoc t us,
      e,
      All-snoc (λ u. o.at_most u.min value ≡ true → o.above u.min t.min ≡ false) us t
          (All-map (λ u. o.at_most u.min value ≡ true → o.above u.min b.min ≡ false)
            (λ u. o.at_most u.min value ≡ true → o.above u.min t.min ≡ false) us
            (λ u k reached. below u.min t.min b.min higher (k reached)) h.2)
          (λ reached. laws.irreflexive t.min),
    )

    kept-IsHighest :
        (us : List (Threshold A B)) (b t : Threshold A B)
        → IsHighest o value us (some b)
        → (o.at_most t.min value ≡ true → o.above t.min b.min ≡ false)
        → IsHighest o value (us ++ t ∷ []) (some b)
    kept-IsHighest us b t h k = (
      IsIn-snoc_left b t us h.0,
      h.1,
      All-snoc (λ u. o.at_most u.min value ≡ true → o.above u.min b.min ≡ false) us t h.2 k,
    )

    next_best-IsHighest :
        (us : List (Threshold A B)) (best : Best A B) (t : Threshold A B)
        → IsHighest o value us best
        → IsHighest o value (us ++ t ∷ []) (next_best A o value best t)
    next_best-IsHighest us none t h = elim (Bool-cases (o.at_most t.min value)) [
      | inl e ↦ rw e (first-IsHighest us t h e)
      | inr e ↦ rw e (All-snoc (λ u. o.at_most u.min value ≡ false) us t h e)
    ]
    next_best-IsHighest us (some b) t h = elim (Bool-cases (o.at_most t.min value)) [
      | inr e ↦ rw e (kept-IsHighest us b t h (λ reached. cc (e, reached)))
      | inl e ↦ rw e (elim (Bool-cases (o.above t.min b.min)) [
        | inl higher ↦ rw higher (replaced-IsHighest us b t h e higher)
        | inr not_higher ↦ rw not_higher (kept-IsHighest us b t h (λ reached. not_higher))
      ])
    ]

    best_threshold-IsHighest :
        (P : Printing A) {T : Type 0} (read : T → Result PricingError (Threshold A B)) (ts : List T)
        (before : List (Threshold A B)) (best : Best A B) {chosen : Best A B}
        → IsHighest o value before best
        → best_threshold A P read o value best ts ≡ ok chosen
        → (us : List (Threshold A B)) × (read_all read ts ≡ ok us)
          × IsHighest o value (before ++ us) chosen
    unfolding best_threshold read_all
    best_threshold-IsHighest P read [] before best h k =
        ([], refl, rw (append-nil, ← ok-injective k) h)
    best_threshold-IsHighest P read (t ∷ ts) before best {chosen} h k =
        let (u, at, m) =
          bind-ok (read t)
            (λ next. best_threshold A P read o value (next_best A o value best next) ts) k in
        let (us, all, highest) =
          best_threshold-IsHighest P read ts (before ++ u ∷ []) (next_best A o value best u)
            (next_best-IsHighest before best u h) m in
        (
          u ∷ us,
          rw (at, all) refl,
          subst (λ x. IsHighest o value x chosen) (append_assoc before (u ∷ []) us) highest,
        )

  months_IsStrict : IsStrict (month_bounds A)
  months_IsStrict = record {
    irreflexive = λ a. ground arith;
    transitive = λ a b c h k. ground arith;
  }

  module _ (P : Printing A) where
    -- A discount by commitment that is granted is that of the highest threshold that the months of the
    -- commitment reach, of all the thresholds of the rule, which are all readable; where none is
    -- reached, the discount is zero.
    pub adjustment_for-IsHighest :
        (rule : PricingRule) (thresholds : List MonthThreshold) (quantity : A.Decimal) (months : ℕ)
        (line_id : Text) (adj : AdjustmentResult A P)
        → rule.body ≡ commitment_discount thresholds
        → adjustment_for A P rule quantity (some months) line_id ≡ ok adj
        → (us : List (Threshold A ℕ)) × (chosen : Best A ℕ) × (read_all
              (read_month_threshold A P rule.id)
              thresholds
            ≡ ok us)
          × IsHighest (month_bounds A) months us chosen
          × (adj.percent ≡ percent_of A P chosen)
          × (adj.threshold ≡ threshold_text A P to_text chosen)
    unfolding adjustment_for commitment_adjustment
    adjustment_for-IsHighest rule thresholds quantity months line_id adj body h =
        let (chosen, best, same) =
          bind-ok
            (best_threshold A P (read_month_threshold A P rule.id) (month_bounds A) months none
              thresholds)
            (λ chosen. ok (record {
              rule_id = rule.id;
              rule_type = by_commitment;
              threshold = threshold_text A P to_text chosen;
              percent = percent_of A P chosen;
              basis = to_text months;
            }))
            (rw body at h) in
        let (us, all, highest) =
          best_threshold-IsHighest (month_bounds A) months_IsStrict months P
            (read_month_threshold A P rule.id) thresholds [] none tt best in
        (
          us,
          chosen,
          all,
          highest,
          ap (λ (x : AdjustmentResult A P). x.percent) (sym (ok-injective same)),
          ap (λ (x : AdjustmentResult A P). x.threshold) (sym (ok-injective same)),
        )
