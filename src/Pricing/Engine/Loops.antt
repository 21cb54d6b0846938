-- ===== src/Pricing/Engine/Loops.antt =====
-- packages/pricing/src/price-at.ts, priceAt: what a loop over the lines of a schedule finds.
use mathlib.Core.Path.{subst}
use contrats.Base.{
  Bool, true, false, not, ◌≡◌, refl, ap, ◌∙◌, none, some, List, [], ◌∷◌, All, All-map, any, arith,
  inl, inr, Bool-cases,
}
use contrats.Base.Text.{Text}
use contrats.Base.Order.{text_eqb, text_eqb_refl, text_eqb_sym}
use contrats.Base.Result.{Result, ok, err, ◌>>=◌, bind-ok, refuse-ok, ok-injective}
use contrats.Formula.Evaluator.{Decimals}
use contrats.Pricing.Dates.{PricingError, refused_line}
use contrats.Pricing.Discount.{priced_with_id}
use contrats.Pricing.Engine.{check_ids, or_with_line, price_each}
use contrats.Pricing.Line.Price.{PricedLine}
use contrats.Pricing.Money.{Printing}
use contrats.Pricing.Types.{PricingLine}

-- No two lines have one identifier.
abbrev pub AreApart : Text → List PricingLine → Type 0
AreApart id lines = All (λ l. text_eqb id l.id ≡ false) lines

abbrev pub Distinct : List PricingLine → Type 0
Distinct [] = Unit
Distinct (l ∷ lines) = AreApart l.id lines × Distinct lines

-- The lists are of one length, and `R` is true of what stands at one place.
abbrev pub Zip : {S T : Type 0} → (S → T → Type 0) → List S → List T → Type 0
Zip R [] [] = Unit
Zip R [] (y ∷ ys) = ⊥
Zip R (x ∷ xs) [] = ⊥
Zip R (x ∷ xs) (y ∷ ys) = R x y × Zip R xs ys

abbrev unseen : List Text → PricingLine → Bool
unseen seen l = not (any (λ id. text_eqb id l.id) seen)

unseen-cons :
    (id : Text) (seen : List Text) (l : PricingLine)
    → unseen (id ∷ seen) l ≡ true
    → (text_eqb id l.id ≡ false) × (unseen seen l ≡ true)
unseen-cons id seen l h = ground (arith, h)

All-split :
    {S : Type 0} (P Q : S → Type 0) (xs : List S) → All (λ x. P x × Q x) xs → All P xs × All Q xs
All-split P Q [] h = (tt, tt)
All-split P Q (x ∷ xs) h = let (p, q) = All-split P Q xs h.1 in ((h.0.0, p), (h.0.1, q))

All-both :
    {S : Type 0} (P Q : S → Type 0) (xs : List S) → All P xs → All Q xs → All (λ x. P x × Q x) xs
All-both P Q [] h k = tt
All-both P Q (x ∷ xs) h k = ((h.0, k.0), All-both P Q xs h.1 k.1)

pub check_ids-unseen :
    (seen : List Text) (lines : List PricingLine)
    → check_ids seen lines ≡ ok tt
    → All (λ l. unseen seen l ≡ true) lines × Distinct lines
unfolding check_ids
check_ids-unseen seen [] h = (tt, tt)
check_ids-unseen seen (l ∷ lines) h =
    let (new, k) =
      refuse-ok (any (λ id. text_eqb id l.id) seen) (refused_line l.id)
        (check_ids (l.id ∷ seen) lines) h in
    let (all, apart) = check_ids-unseen (l.id ∷ seen) lines k in
    let (other, old) =
      All-split (λ m. text_eqb l.id m.id ≡ false) (λ m. unseen seen m ≡ true) lines
        (All-map (λ m. unseen (l.id ∷ seen) m ≡ true)
          (λ m. (text_eqb l.id m.id ≡ false) × (unseen seen m ≡ true)) lines (unseen-cons l.id seen)
          all) in
    ((ap not new, old), (other, apart))

pub or_with_line-ok :
    {T : Type 0} (id : Text) (r : Result PricingError T) {v : T}
    → or_with_line id r ≡ ok v
    → r ≡ ok v
or_with_line-ok id (ok a) h = h
or_with_line-ok id (err e) h = cc

module _ (A : Decimals) (P : Printing A) where
  priced_with_id-cons :
      (id : Text) (p : PricedLine A) (priced : List (PricedLine A))
      → text_eqb p.line_id id ≡ false
      → priced_with_id A P id (p ∷ priced) ≡ priced_with_id A P id priced
  unfolding priced_with_id
  priced_with_id-cons id p priced h = rw h refl

  priced_with_id_first :
      (p : PricedLine A) (priced : List (PricedLine A))
      → priced_with_id A P p.line_id (p ∷ priced) ≡ some p
  unfolding priced_with_id
  priced_with_id_first p priced = rw (text_eqb_refl p.line_id) refl

  -- One of the loops; the price of a line bears the identifier of the line.
  module _ (test : PricingLine → Bool) (price : PricingLine → Result PricingError (PricedLine A))
      (names : (l : PricingLine) (p : PricedLine A) → price l ≡ ok p → p.line_id ≡ l.id) where
    -- What the loop has found for a line.
    abbrev pub Found : List (PricedLine A) → PricingLine → Type 0
    Found priced l =
        (test l ≡ true
          → (p : PricedLine A) × (priced_with_id A P l.id priced ≡ some p) × (price l ≡ ok p))
        × (test l ≡ false → priced_with_id A P l.id priced ≡ none)

    price_each-cons :
        (l : PricingLine) (lines : List PricingLine) {priced : List (PricedLine A)}
        → test l ≡ true
        → price_each A P test price (l ∷ lines) ≡ ok priced
        → (p : PricedLine A) × (rest : List (PricedLine A)) × (price l ≡ ok p)
          × (price_each A P test price lines ≡ ok rest)
          × (p ∷ rest ≡ priced)
    unfolding price_each
    price_each-cons l lines e h =
        let (p, at, k) =
          bind-ok (or_with_line l.id (price l))
            (λ p. price_each A P test price lines >>= λ priced. ok (p ∷ priced)) (rw e at h) in
        let (rest, m, same) =
          bind-ok (price_each A P test price lines) (λ priced. ok (p ∷ priced)) k in
        (p, rest, or_with_line-ok l.id (price l) at, m, ok-injective same)

    skipped :
        (l : PricingLine) (lines : List PricingLine) {priced : List (PricedLine A)}
        → test l ≡ false
        → price_each A P test price (l ∷ lines) ≡ ok priced
        → price_each A P test price lines ≡ ok priced
    unfolding price_each
    skipped l lines e h = rw e at h

    absent_nil : (id : Text) → priced_with_id A P id [] ≡ none
    unfolding priced_with_id
    absent_nil id = refl

    -- A line apart from all that the loop goes through is not found.
    absent :
        (id : Text) (lines : List PricingLine) (priced : List (PricedLine A))
        → AreApart id lines
        → price_each A P test price lines ≡ ok priced
        → priced_with_id A P id priced ≡ none
    unfolding price_each
    absent id [] priced apart h = rw (← ok-injective h) (absent_nil id)
    absent id (l ∷ lines) priced apart h = elim (Bool-cases (test l)) [
      | inl e ↦
          let (p, rest, at, k, same) = price_each-cons l lines e h in
          rw (← same) (
            priced_with_id-cons id p rest (rw (names l p at) (text_eqb_sym id l.id apart.0))
            ∙ absent id lines rest apart.1 k)
      | inr e ↦ absent id lines priced apart.1 (skipped l lines e h)
    ]

    head-Found :
        (l : PricingLine) (p : PricedLine A) (rest : List (PricedLine A))
        → test l ≡ true
        → price l ≡ ok p
        → Found (p ∷ rest) l
    head-Found l p rest e at =
        (λ yes. (p, rw (← names l p at) (priced_with_id_first p rest), at), λ no. cc (e, no))

    later-Found :
        (l m : PricingLine) (p : PricedLine A) (rest : List (PricedLine A))
        → price l ≡ ok p
        → (text_eqb l.id m.id ≡ false) × Found rest m
        → Found (p ∷ rest) m
    later-Found l m p rest at (apart, (found, missing)) =
        let same = priced_with_id-cons m.id p rest (rw (names l p at) apart) in
        (λ e. let (q, here, of) = found e in (q, same ∙ here, of), λ e. same ∙ missing e)

    pub price_each-Found :
        (lines : List PricingLine) {priced : List (PricedLine A)}
        → Distinct lines
        → price_each A P test price lines ≡ ok priced
        → All (Found priced) lines
    price_each-Found [] d h = tt
    price_each-Found (l ∷ lines) {priced} d h = elim (Bool-cases (test l)) [
      | inl e ↦
          let (p, rest, at, k, same) = price_each-cons l lines e h in
          subst (λ x. All (Found x) (l ∷ lines)) same
            (
              head-Found l p rest e at,
              All-map (λ m. (text_eqb l.id m.id ≡ false) × Found rest m) (Found (p ∷ rest)) lines
                  (λ m. later-Found l m p rest at)
                  (All-both (λ m. text_eqb l.id m.id ≡ false) (Found rest) lines d.0
                    (price_each-Found lines d.1 k)),
            )
      | inr e ↦
          let k = skipped l lines e h in
          ((λ yes. cc (e, yes), λ no. absent l.id lines priced d.0 k), price_each-Found lines d.1 k)
    ]
