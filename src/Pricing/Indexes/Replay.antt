-- ===== src/Pricing/Indexes/Replay.antt =====
-- packages/pricing/src/indexes.ts: which value of an index is taken, and later publications.
use mathlib.Core.Path.{subst}
use contrats.Base.{
  IsIn, All, Bool, true, false, Option, none, some, some-injective, List, [], ◌∷◌, ◌++◌, filter,
  keep, ◌≡◌, refl, sym, ap, ◌∙◌, arith, ◌⊎◌, inl, inr, Bool-cases,
}
use contrats.Base.Text.{Text}
use contrats.Base.Order.{text_ltb, text_eqb_refl, text_ltb_trans, text_ltb_irrefl}
use contrats.Base.Result.{ok, bind-ok, then-ok, ok-injective}
use contrats.Pricing.Dates.{parse_iso_date}
use contrats.Pricing.Indexes.{
  PriceIndexValue, PriceIndex, latest_published, IndexObservation, find_index, check_values,
  is_known, is_later, latest_from, find_value, observation, lookup_in, lookup_index_value,
}

-- No value of the list has a later period.
abbrev IsLatest : PriceIndexValue → List PriceIndexValue → Type 0
IsLatest w vs = All (λ v. text_ltb w.period v.period ≡ false) vs

-- From a value to itself or to one of a later period.
abbrev Reaches : Option PriceIndexValue → PriceIndexValue → Type 0
Reaches none w = Unit
Reaches (some b) w = (b ≡ w) ⊎ (text_ltb b.period w.period ≡ true)

record IsTaken (best : Option PriceIndexValue) (vs : List PriceIndexValue) (w : PriceIndexValue)
    : Type 0 where
  member : (best ≡ some w) ⊎ IsIn w vs
  reached : Reaches best w
  latest : IsLatest w vs

-- What does not come after a value does not come after a later one.
not_later :
    (b w v : PriceIndexValue)
    → Reaches (some b) w
    → text_ltb b.period v.period ≡ false
    → text_ltb w.period v.period ≡ false
not_later b w v (inl e) h = subst (λ x. text_ltb x.period v.period ≡ false) e h
not_later b w v (inr e) h = elim (Bool-cases (text_ltb w.period v.period)) [
  | inl k ↦ ground (arith, h, text_ltb_trans b.period w.period v.period e k)
  | inr k ↦ k
]

later_reached :
    (b v w : PriceIndexValue)
    → text_ltb b.period v.period ≡ true
    → Reaches (some v) w
    → text_ltb b.period w.period ≡ true
later_reached b v w h (inl e) = subst (λ x. text_ltb b.period x.period ≡ true) e h
later_reached b v w h (inr e) = text_ltb_trans b.period v.period w.period h e

IsTaken-replaced :
    (best : Option PriceIndexValue) (v w : PriceIndexValue) (vs : List PriceIndexValue)
    → is_later v best ≡ true
    → IsTaken (some v) vs w
    → IsTaken best (v ∷ vs) w
IsTaken-replaced none v w vs h t = record {
  member = ground (arith, t.member);
  reached = tt;
  latest = (not_later v w v t.reached (text_ltb_irrefl v.period), t.latest);
}
IsTaken-replaced (some b) v w vs h t = record {
  member = ground (arith, t.member);
  reached = inr (later_reached b v w h t.reached);
  latest = (not_later v w v t.reached (text_ltb_irrefl v.period), t.latest);
}

IsTaken-kept :
    (best : Option PriceIndexValue) (v w : PriceIndexValue) (vs : List PriceIndexValue)
    → is_later v best ≡ false
    → IsTaken best vs w
    → IsTaken best (v ∷ vs) w
IsTaken-kept none v w vs h t = cc
IsTaken-kept (some b) v w vs h t = record {
  member = ground (arith, t.member);
  reached = t.reached;
  latest = (not_later b w v t.reached h, t.latest);
}

latest_from-IsTaken :
    (best : Option PriceIndexValue) (vs : List PriceIndexValue) (w : PriceIndexValue)
    → latest_from best vs ≡ some w
    → IsTaken best vs w
unfolding latest_from
latest_from-IsTaken none [] w h = cc
latest_from-IsTaken (some b) [] w h = record {
  member = inl h;
  reached = inl (some-injective h);
  latest = tt;
}
latest_from-IsTaken best (v ∷ vs) w h = elim (Bool-cases (is_later v best)) [
  | inl e ↦ IsTaken-replaced best v w vs e (latest_from-IsTaken (some v) vs w (rw e at h))
  | inr e ↦ IsTaken-kept best v w vs e (latest_from-IsTaken best vs w (rw e at h))
]

-- Values published after the date are not among those known at the date.
filter-published_later :
    (date : Text) (vs news : List PriceIndexValue)
    → All (λ v. text_ltb date v.published_at ≡ true) news
    → filter (is_known date) (vs ++ news) ≡ filter (is_known date) vs
filter-published_later date [] [] h = refl
filter-published_later date [] (v ∷ news) h =
    ground (arith, h.0, filter-published_later date [] news h.1)
filter-published_later date (v ∷ vs) news h =
    ap (λ rest. keep (is_known date v) v rest) (filter-published_later date vs news h)

IsIn-filter :
    (test : PriceIndexValue → Bool) (w : PriceIndexValue) (vs : List PriceIndexValue)
    → IsIn w (filter test vs)
    → IsIn w vs × (test w ≡ true)
IsIn-filter test w [] h = absurd h
IsIn-filter test w (v ∷ vs) h = elim (Bool-cases (test v)) [
  | inl e ↦ elim (rw e at h) [
    | inl same ↦ (inl same, subst (λ x. test x ≡ true) (sym same) e)
    | inr k ↦ let (i, t) = IsIn-filter test w vs k in (inr i, t)
  ]
  | inr e ↦ let (i, t) = IsIn-filter test w vs (rw e at h) in (inr i, t)
]

All-filter :
    (test : PriceIndexValue → Bool) (P : PriceIndexValue → Type 0) (vs : List PriceIndexValue)
    → All P (filter test vs)
    → All (λ v. test v ≡ true → P v) vs
All-filter test P [] h = tt
All-filter test P (v ∷ vs) h = elim (Bool-cases (test v)) [
  | inl e ↦ let k = rw e at h in (λ t. k.0, All-filter test P vs k.1)
  | inr e ↦ (λ t. absurd (ground (arith, e, t)), All-filter test P vs (rw e at h))
]

-- The value that an observation of an index at a date comes from.
pub record IsObserved (index : PriceIndex) (date : Text) (o : IndexObservation) : Type 0 where
  pub source : PriceIndexValue
  pub member : IsIn source index.values
  pub known : is_known date source ≡ true
  pub latest :
      All (λ v. is_known date v ≡ true → text_ltb source.period v.period ≡ false) index.values
  pub period_is : o.period ≡ source.period
  pub value_is : o.value ≡ source.value
  pub published_is : o.published_at ≡ source.published_at

observation-IsObserved :
    (index : PriceIndex) (code date : Text) (found : Option PriceIndexValue) (o : IndexObservation)
    → latest_from none (filter (is_known date) index.values) ≡ found
    → observation index code date latest_published found ≡ ok o
    → IsObserved index date o
unfolding observation
observation-IsObserved index code date none o h e = cc
observation-IsObserved index code date (some v) o h e =
    let t = latest_from-IsTaken none (filter (is_known date) index.values) v h in
    let (i, k) = IsIn-filter (is_known date) v index.values (in_list t.member) in
    let same = sym (ok-injective e) in
    record {
      source = v;
      member = i;
      known = k;
      latest =
          All-filter (is_known date) (λ x. text_ltb v.period x.period ≡ false) index.values
            t.latest;
      period_is = ap (λ x. x.period) same;
      value_is = ap (λ x. x.value) same;
      published_is = ap (λ x. x.published_at) same;
    }
  where
    in_list :
        (◌≡◌ {A = Option PriceIndexValue} none (some v))
          ⊎ IsIn v (filter (is_known date) index.values)
        → IsIn v (filter (is_known date) index.values)
    in_list (inl h) = cc
    in_list (inr h) = h

-- By the rule of the latest publication, what is observed of the index `find_index` finds is one of its
-- values, of a month not after that of the date and published at the date at the latest, and no value
-- with these two properties has a later period.
pub lookup_index_value-IsObserved :
    (indexes : List PriceIndex) (code date : Text) (index : PriceIndex) (o : IndexObservation)
    → find_index code indexes ≡ some index
    → lookup_index_value indexes code date latest_published ≡ ok o
    → IsObserved index date o
unfolding lookup_index_value lookup_in find_value
lookup_index_value-IsObserved indexes code date index o f h =
    let (d, valid, run) = bind-ok (parse_iso_date date) _ h in
    let (checked, e) = then-ok (check_values code [] index.values) _ (rw f at run) in
    observation-IsObserved index code date _ o refl e

observation-longer :
    (index : PriceIndex) (values : List PriceIndexValue) (code date : Text)
    (found : Option PriceIndexValue)
    → observation (record index { values = values }) code date latest_published found
      ≡ observation index code date latest_published found
unfolding observation
observation-longer index values code date none = refl
observation-longer index values code date (some v) = refl

-- Values published after a date do not change what the rule of the latest publication observes at that
-- date: if the longer series is still well formed, the lookup answers the same.
pub lookup_index_value-replay :
    (index : PriceIndex) (others : List PriceIndex) (news : List PriceIndexValue) (date : Text)
    (o : IndexObservation)
    → All (λ v. text_ltb date v.published_at ≡ true) news
    → check_values index.code [] (index.values ++ news) ≡ ok tt
    → lookup_index_value (index ∷ others) index.code date latest_published ≡ ok o
    → lookup_index_value
        (record index { values = index.values ++ news } ∷ others)
        index.code
        date
        latest_published
      ≡ ok o
unfolding lookup_index_value lookup_in find_value find_index observation
lookup_index_value-replay index others news date o late well h =
    let same = text_eqb_refl index.code in
    let (d, valid, run) = bind-ok (parse_iso_date date) _ h in
    let (checked, e) = then-ok (check_values index.code [] index.values) _ (rw same at run) in
    rw (valid, same, well, filter-published_later date index.values news late)
      (observation-longer index (index.values ++ news) index.code date _ ∙ e)
