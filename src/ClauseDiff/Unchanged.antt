-- ===== src/ClauseDiff/Unchanged.antt =====
-- When packages/domain/src/templates/clause-diff.ts reports no deviation.
use contrats.Base.{
  ℕ, ◌+◌, Bool, true, false, not, ltb, Option, none, some, List, [], ◌∷◌, length, filter, map, All,
  All-map, ◌≡◌, ◌↔◌, refl, sym, ap, ◌∙◌, arith, Bool-cases, inl, inr, is_some,
}
use contrats.Base.Text.{trim}
use contrats.Base.Order.{text_eqb_sound, text_eqb_refl}
use contrats.ClauseDiff.{
  Clause, norm, clause_of, has_clause, compare_with, compared_clause, is_changed, added_clause,
  removed_clause, added_to, removed_from, modified_in, diff_clauses,
}

true-false : ¬ (true ≡ false)
true-false e = cc

length-map : {A B : Type 0} (f : A → B) (xs : List A) → length (map f xs) ≡ length xs
length-map f [] = refl
length-map f (x ∷ xs) = omega (arith, length-map f xs)

none_left :
    {A : Type 0} (test : A → Bool) (xs : List A)
    → (length (filter test xs) ≡ 0) ↔ All (λ x. test x ≡ false) xs
none_left test [] = (λ h. tt, λ h. refl)
none_left test (x ∷ xs) = elim (Bool-cases (test x)) [
  | inl e ↦ rw e (λ h. absurd (omega (arith, h)), λ h. cc)
  | inr e ↦ let rest = none_left test xs in rw e (λ h. (refl, rest.0 h), λ h. rest.1 h.1)
]

none_after :
    {A B : Type 0} (p : A → Bool) (f : A → B) (g : B → Bool) (xs : List A)
    → (length (filter g (map f (filter p xs))) ≡ 0) ↔ All (λ x. p x ≡ true → g (f x) ≡ false) xs
none_after p f g [] = (λ h. tt, λ h. refl)
none_after p f g (x ∷ xs) =
    let rest = none_after p f g xs in
    elim (Bool-cases (p x)) [
      | inl e ↦ elim (Bool-cases (g (f x))) [
        | inl k ↦ rw (e, k) (λ h. absurd (omega (arith, h)), λ h. absurd (true-false (h.0 refl)))
        | inr k ↦ rw (e, k) (λ h. (λ t. refl, rest.0 h), λ h. rest.1 h.1)
      ]
      | inr e ↦ rw e (λ h. (λ t. cc, rest.0 h), λ h. rest.1 h.1)
    ]

-- The clause of the template with the same key has the same title, but for white space around it, and
-- the same body, once both are brought to the normal form.
pub record IsUnchanged (template : List Clause) (c : Clause) : Type 0 where
  pub original : Clause
  pub is_original : clause_of c.key template ≡ some original
  pub same_title : trim original.title ≡ trim c.title
  pub same_body : norm original.body_html ≡ norm c.body_html

compare_with-same :
    (c : Clause) (o : Option Clause)
    → is_some o ≡ true
    → is_changed (compare_with c o) ≡ false
    → (t : Clause) × (o ≡ some t)
      × (trim t.title ≡ trim c.title)
      × (norm t.body_html ≡ norm c.body_html)
compare_with-same c none h k = cc
compare_with-same c (some t) h k = (
  t,
  refl,
  text_eqb_sound (trim t.title) (trim c.title) (ground (arith, k)),
  text_eqb_sound (norm t.body_html) (norm c.body_html) (ground (arith, k)),
)

same-compare_with :
    (c t : Clause)
    → trim t.title ≡ trim c.title
    → norm t.body_html ≡ norm c.body_html
    → is_changed (compare_with c (some t)) ≡ false
same-compare_with c t e f =
    rw (e, f, text_eqb_refl (trim c.title), text_eqb_refl (norm c.body_html)) refl

-- A clause that is neither added nor modified.
abbrev IsKnownSame : List Clause → Clause → Type 0
IsKnownSame template c =
    (has_clause template c.key ≡ true) × (is_changed (compared_clause template c) ≡ false)

IsKnownSame-IsUnchanged :
    (template : List Clause) (c : Clause) → IsKnownSame template c → IsUnchanged template c
IsKnownSame-IsUnchanged template c (known, same) =
    let (t, e, title, body) = compare_with-same c (clause_of c.key template) known same in
    record { original = t; is_original = e; same_title = title; same_body = body }

IsUnchanged-IsKnownSame :
    (template : List Clause) (c : Clause) → IsUnchanged template c → IsKnownSame template c
IsUnchanged-IsKnownSame template c u = (
  ap is_some u.is_original,
  ap (λ o. is_changed (compare_with c o)) u.is_original
      ∙ same-compare_with c u.original u.same_title u.same_body,
)

All-both :
    {A : Type 0} (p : A → Bool) (Q : A → Type 0) (xs : List A)
    → All (λ x. not (p x) ≡ false) xs
    → All (λ x. p x ≡ true → Q x) xs
    → All (λ x. (p x ≡ true) × Q x) xs
All-both p Q [] h k = tt
All-both p Q (x ∷ xs) h k =
    let e : p x ≡ true = ground (arith, h.0) in ((e, k.0 e), All-both p Q xs h.1 k.1)

kept_true : (b : Bool) → not b ≡ false → b ≡ true
kept_true true h = refl
kept_true false h = cc

zero_of : (n : ℕ) → ltb 0 n ≡ false → n ≡ 0
zero_of n h = ground (arith, h)

of_zero : (n : ℕ) → n ≡ 0 → ltb 0 n ≡ false
of_zero n h = ground (arith, h)

added_none :
    (template contract : List Clause)
    → (length (added_to template contract) ≡ 0)
      ↔ All (λ c. not (has_clause template c.key) ≡ false) contract
unfolding added_to
added_none template contract =
    let e = length-map added_clause (filter (λ c. not (has_clause template c.key)) contract) in
    let n = none_left (λ c. not (has_clause template c.key)) contract in
    (λ h. n.0 (sym e ∙ h), λ h. e ∙ n.1 h)

removed_none :
    (template contract : List Clause)
    → (length (removed_from template contract) ≡ 0)
      ↔ All (λ t. not (has_clause contract t.key) ≡ false) template
unfolding removed_from
removed_none template contract =
    let e = length-map removed_clause (filter (λ t. not (has_clause contract t.key)) template) in
    let n = none_left (λ t. not (has_clause contract t.key)) template in
    (λ h. n.0 (sym e ∙ h), λ h. e ∙ n.1 h)

modified_none :
    (template contract : List Clause)
    → (length (modified_in template contract) ≡ 0)
      ↔ All
          (λ c. has_clause template c.key ≡ true → is_changed (compared_clause template c) ≡ false)
          contract
unfolding modified_in
modified_none template contract =
    none_after (λ c. has_clause template c.key) (compared_clause template) is_changed contract

abbrev deviation : List Clause → List Clause → ℕ
deviation template contract =
    length (added_to template contract)
    + length (removed_from template contract)
    + length (modified_in template contract)

deviation_none :
    (template contract : List Clause)
    → deviation template contract ≡ 0
    → All (IsUnchanged template) contract × All (λ t. has_clause contract t.key ≡ true) template
deviation_none template contract h =
    let known = (added_none template contract).0 (omega (arith, h)) in
    let kept = (removed_none template contract).0 (omega (arith, h)) in
    let same = (modified_none template contract).0 (omega (arith, h)) in
    (
      All-map (IsKnownSame template) (IsUnchanged template) contract
          (IsKnownSame-IsUnchanged template)
          (All-both (λ c. has_clause template c.key)
            (λ c. is_changed (compared_clause template c) ≡ false) contract known same),
      All-map (λ t. not (has_clause contract t.key) ≡ false) (λ t. has_clause contract t.key ≡ true)
          template (λ t k. kept_true (has_clause contract t.key) k) kept,
    )

none_deviation :
    (template contract : List Clause)
    → All (IsUnchanged template) contract
    → All (λ t. has_clause contract t.key ≡ true) template
    → deviation template contract ≡ 0
none_deviation template contract a b =
    let same =
      All-map (IsUnchanged template) (IsKnownSame template) contract
        (IsUnchanged-IsKnownSame template) a in
    let one = (added_none template contract).1 (
      All-map (IsKnownSame template) (λ c. not (has_clause template c.key) ≡ false) contract
        (λ c k. ap not k.0) same) in
    let two = (removed_none template contract).1 (
      All-map (λ t. has_clause contract t.key ≡ true) (λ t. not (has_clause contract t.key) ≡ false)
        template (λ t k. ap not k) b) in
    let three = (modified_none template contract).1 (
      All-map (IsKnownSame template)
        (λ c. has_clause template c.key ≡ true → is_changed (compared_clause template c) ≡ false)
        contract (λ c k t. k.1) same) in
    omega (arith, one, two, three)

-- A contract does not deviate from its template exactly when each of its clauses is unchanged from the
-- clause of the template with the same key, and each key of the template is the key of one of its
-- clauses.
pub no_deviation_iff :
    (template contract : List Clause)
    → ((diff_clauses (some template) contract).has_deviation ≡ false)
      ↔ (All (IsUnchanged template) contract × All (λ t. has_clause contract t.key ≡ true) template)
unfolding diff_clauses
no_deviation_iff template contract = (
  λ h. deviation_none template contract (zero_of (deviation template contract) h),
  λ (a, b). of_zero (deviation template contract) (none_deviation template contract a b),
)
