-- ===== src/PriceGrid.antt =====
-- packages/domain/src/price-grid/price-grid.ts: the price of a grid that is in effect on a date.
-- A date is the text « AAAA-MM-JJ » and an identifier is a text: both are compared as strings.
use mathlib.Core.Path.{subst}
use contrats.Base.{
  IsIn, All-IsIn, some-injective, Bool, true, false, ◌&&◌, ◌||◌, ◌≡◌, refl, sym, ◌∙◌, Option, none,
  some, List, [], ◌∷◌, All, ◌↔◌, arith, ◌⊎◌, inl, inr, if◌then◌else◌, Bool-cases,
}
use contrats.Base.Text.{Text}
use contrats.Base.Order.{text_ltb, text_eqb, text_eqb_sound, text_ltb_trans, text_ltb_irrefl}

pub record DatedPrice : Type 0 where
  pub id : Text
  pub effective_from : Text

-- `p.effectiveFrom > best.effectiveFrom || (p.effectiveFrom === best.effectiveFrom && p.id > best.id)`
abbrev pub is_newer : DatedPrice → DatedPrice → Bool
is_newer p best =
    text_ltb best.effective_from p.effective_from
    || (text_eqb p.effective_from best.effective_from && text_ltb best.id p.id)

-- `!best || ...`
abbrev replaces : DatedPrice → Option DatedPrice → Bool
replaces p none = true
replaces p (some best) = is_newer p best

-- One turn of the loop, with what `best` is.
abbrev next_best : Text → Option DatedPrice → DatedPrice → Option DatedPrice
next_best on_date best p =
    if text_ltb on_date p.effective_from then best else if replaces p best then some p else best

best_from : Text → Option DatedPrice → List DatedPrice → Option DatedPrice
best_from on_date best [] = best
best_from on_date best (p ∷ prices) = best_from on_date (next_best on_date best p) prices

unfoldable pub price_in_effect : List DatedPrice → Text → Option DatedPrice
unfolding best_from
price_in_effect prices on_date = best_from on_date none prices

-- The price is not after the date.
abbrev pub IsDue : Text → DatedPrice → Type 0
IsDue on_date p = text_ltb on_date p.effective_from ≡ false

is_newer_trans :
    (p q r : DatedPrice) → is_newer p q ≡ true → is_newer q r ≡ true → is_newer p r ≡ true
is_newer_trans p q r h k = ground (
  arith,
  h,
  k,
  text_ltb_trans r.effective_from q.effective_from p.effective_from,
  text_eqb_sound p.effective_from q.effective_from,
  text_eqb_sound q.effective_from r.effective_from,
  text_ltb_trans r.id q.id p.id,
)

is_newer_irrefl : (p : DatedPrice) → is_newer p p ≡ false
is_newer_irrefl p = ground (arith, text_ltb_irrefl p.effective_from, text_ltb_irrefl p.id)

-- From a price to itself or to a newer one.
abbrev Reaches : Option DatedPrice → DatedPrice → Type 0
Reaches none w = Unit
Reaches (some b) w = (b ≡ w) ⊎ (is_newer w b ≡ true)

reached_unbeaten :
    (b w p : DatedPrice) → Reaches (some b) w → is_newer p b ≡ false → is_newer p w ≡ false
reached_unbeaten b w p (inl e) h = subst (λ x. is_newer p x ≡ false) e h
reached_unbeaten b w p (inr e) h = elim (Bool-cases (is_newer p w)) [
  | inl k ↦ ground (arith, h, is_newer_trans p w b k e)
  | inr k ↦ k
]

Reaches-before :
    (best : Option DatedPrice) (p w : DatedPrice)
    → replaces p best ≡ true
    → Reaches (some p) w
    → Reaches best w
Reaches-before none p w h r = tt
Reaches-before (some b) p w h (inl e) = inr (subst (λ x. is_newer x b ≡ true) e h)
Reaches-before (some b) p w h (inr e) = inr (is_newer_trans w p b e h)

-- What the loop answers, from `best` on.
abbrev IsBest : Text → Option DatedPrice → List DatedPrice → Option DatedPrice → Type 0
IsBest on_date best prices none = (best ≡ none) × All (λ q. ¬ IsDue on_date q) prices
IsBest on_date best prices (some w) =
    ((best ≡ some w) ⊎ (IsIn w prices × IsDue on_date w))
    × Reaches best w
    × All (λ q. IsDue on_date q → is_newer q w ≡ false) prices

true-false : ¬ (true ≡ false)
true-false e = cc

IsBest-late :
    (on_date : Text) (best : Option DatedPrice) (p : DatedPrice) (prices : List DatedPrice)
    (r : Option DatedPrice)
    → text_ltb on_date p.effective_from ≡ true
    → IsBest on_date best prices r
    → IsBest on_date best (p ∷ prices) r
IsBest-late on_date best p prices none h (e, a) = (e, ((λ d. true-false (sym h ∙ d)), a))
IsBest-late on_date best p prices (some w) h (inl e, r, a) =
    (inl e, r, (λ d. absurd (true-false (sym h ∙ d)), a))
IsBest-late on_date best p prices (some w) h (inr (i, d), r, a) =
    (inr (inr i, d), r, (λ d. absurd (true-false (sym h ∙ d)), a))

IsBest-taken :
    (on_date : Text) (best : Option DatedPrice) (p : DatedPrice) (prices : List DatedPrice)
    (r : Option DatedPrice)
    → IsDue on_date p
    → replaces p best ≡ true
    → IsBest on_date (some p) prices r
    → IsBest on_date best (p ∷ prices) r
IsBest-taken on_date best p prices none h k (e, a) = cc
IsBest-taken on_date best p prices (some w) h k (inl e, r, a) = (
  inr (inl (sym (some-injective e)), subst (IsDue on_date) (some-injective e) h),
  Reaches-before best p w k r,
  (λ d. reached_unbeaten p w p r (is_newer_irrefl p), a),
)
IsBest-taken on_date best p prices (some w) h k (inr (i, d), r, a) = (
  inr (inr i, d),
  Reaches-before best p w k r,
  (λ d. reached_unbeaten p w p r (is_newer_irrefl p), a),
)

IsBest-left :
    (on_date : Text) (best : Option DatedPrice) (p : DatedPrice) (prices : List DatedPrice)
    (r : Option DatedPrice)
    → IsDue on_date p
    → replaces p best ≡ false
    → IsBest on_date best prices r
    → IsBest on_date best (p ∷ prices) r
IsBest-left on_date none p prices r h k b = cc
IsBest-left on_date (some b) p prices none h k (e, a) = cc
IsBest-left on_date (some b) p prices (some w) h k (inl e, r, a) =
    (inl e, r, (λ d. reached_unbeaten b w p r k, a))
IsBest-left on_date (some b) p prices (some w) h k (inr (i, d), r, a) =
    (inr (inr i, d), r, (λ d. reached_unbeaten b w p r k, a))

best_from-IsBest :
    (on_date : Text) (best : Option DatedPrice) (prices : List DatedPrice)
    → IsBest on_date best prices (best_from on_date best prices)
unfolding best_from
best_from-IsBest on_date none [] = (refl, tt)
best_from-IsBest on_date (some b) [] = (inl refl, inl refl, tt)
best_from-IsBest on_date best (p ∷ prices) =
    let rest = best_from on_date (next_best on_date best p) prices in
    let found = best_from-IsBest on_date (next_best on_date best p) prices in
    elim (Bool-cases (text_ltb on_date p.effective_from)) [
      | inl e ↦
          IsBest-late on_date best p prices rest e
            (subst (λ b. IsBest on_date b prices rest) (ground (arith, e)) found)
      | inr e ↦ elim (Bool-cases (replaces p best)) [
        | inl k ↦
            IsBest-taken on_date best p prices rest e k
              (subst (λ b. IsBest on_date b prices rest) (ground (arith, e, k)) found)
        | inr k ↦
            IsBest-left on_date best p prices rest e k
              (subst (λ b. IsBest on_date b prices rest) (ground (arith, e, k)) found)
      ]
    ]

best_answer :
    (on_date : Text) (prices : List DatedPrice) (r : Option DatedPrice)
    → IsBest on_date none prices r
    → ((r ≡ none) ↔ All (λ q. ¬ IsDue on_date q) prices)
      × ((w : DatedPrice)
          → r ≡ some w
          → IsIn w prices
            × IsDue on_date w
            × All (λ q. IsDue on_date q → is_newer q w ≡ false) prices)
best_answer on_date prices none (e, a) = ((λ k. a, λ k. refl), λ w k. cc)
best_answer on_date prices (some w) (inl e, r, a) = cc
best_answer on_date prices (some w) (inr (i, d), r, a) = (
  (λ k. cc, λ k. absurd (All-IsIn (λ q. ¬ IsDue on_date q) prices w k i d)),
  λ v k.
      subst
        (λ x.
          IsIn x prices
          × IsDue on_date x
          × All (λ q. IsDue on_date q → is_newer q x ≡ false) prices)
        (some-injective k) (i, d, a),
)

-- The price in effect is one of the prices that are not after the date, and none of these is newer,
-- by its date and then by its identifier; there is none in effect exactly when all are after the date.
pub price_in_effect_newest :
    (prices : List DatedPrice) (on_date : Text)
    → ((price_in_effect prices on_date ≡ none) ↔ All (λ q. ¬ IsDue on_date q) prices)
      × ((w : DatedPrice)
          → price_in_effect prices on_date ≡ some w
          → IsIn w prices
            × IsDue on_date w
            × All (λ q. IsDue on_date q → is_newer q w ≡ false) prices)
unfolding price_in_effect
price_in_effect_newest prices on_date =
    best_answer on_date prices (best_from on_date none prices)
      (best_from-IsBest on_date none prices)
