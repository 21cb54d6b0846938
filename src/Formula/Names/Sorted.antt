-- ===== src/Formula/Names/Sorted.antt =====
-- Sorting the names of a formula: packages/pricing/src/formula/parser.ts, `byCodeUnit`.
use contrats.Base.{
  true, false, List, [], ◌∷◌, All, All-map, IsIn, ◌≡◌, ◌↔◌, refl, arith, ◌⊎◌, inl, inr, Bool-cases,
}
use contrats.Base.Text.{Text}
use contrats.Base.Order.{text_ltb, text_eqb, text_eqb_sound, text_eqb_refl, text_ltb_trans}
use contrats.Formula.Names.{has, add_name, insert_name, sort_names}

-- Each name is before all that follow.
abbrev pub IsAscending : List Text → Type 0
IsAscending [] = Unit
IsAscending (x ∷ xs) = All (λ y. text_ltb x y ≡ true) xs × IsAscending xs

-- No name stands twice.
abbrev pub AreDistinct : List Text → Type 0
AreDistinct [] = Unit
AreDistinct (x ∷ xs) = (has x xs ≡ false) × AreDistinct xs

text_total : (s t : Text) → text_ltb t s ≡ false → text_eqb s t ≡ false → text_ltb s t ≡ true
text_total [] [] h k = cc
text_total [] (b ∷ t) h k = refl
text_total (a ∷ s) [] h k = cc
text_total (a ∷ s) (b ∷ t) h k = ground (arith, h, k, text_total s t)

pub has_iff : (x : Text) (xs : List Text) → (has x xs ≡ true) ↔ IsIn x xs
has_iff x [] = (λ e. cc, λ e. absurd e)
has_iff x (y ∷ ys) = ground (arith, text_eqb_sound x y, text_eqb_refl x, has_iff x ys)

again : (y x : Text) (xs : List Text) → IsIn x xs → (y ≡ x) ⊎ IsIn y xs → IsIn y xs
again y x xs h (inl e) = rw e h
again y x xs h (inr k) = k

pub add_name_iff : (x y : Text) (xs : List Text) → IsIn y (add_name x xs) ↔ ((y ≡ x) ⊎ IsIn y xs)
add_name_iff x y xs = elim (Bool-cases (has x xs)) [
  | inl e ↦ rw e (λ h. inr h, λ h. again y x xs ((has_iff x xs).0 e) h)
  | inr e ↦ rw e (λ h. h, λ h. h)
]

pub add_name-AreDistinct :
    (x : Text) (xs : List Text) → AreDistinct xs → AreDistinct (add_name x xs)
add_name-AreDistinct x xs h = elim (Bool-cases (has x xs)) [ inl e ↦ rw e h | inr e ↦ rw e (e, h) ]

insert_name_iff : (x y : Text) (xs : List Text) → IsIn y (insert_name x xs) ↔ ((y ≡ x) ⊎ IsIn y xs)
unfolding insert_name
insert_name_iff x y [] = (λ h. h, λ h. h)
insert_name_iff x y (z ∷ zs) = elim (Bool-cases (text_ltb z x)) [
  | inl e ↦ rw e (ground (arith, insert_name_iff x y zs))
  | inr e ↦ rw e (λ h. h, λ h. h)
]

pub sort_names_iff : (y : Text) (xs : List Text) → IsIn y (sort_names xs) ↔ IsIn y xs
unfolding sort_names
sort_names_iff y [] = (λ h. h, λ h. h)
sort_names_iff y (x ∷ xs) = ground (arith, insert_name_iff x y (sort_names xs), sort_names_iff y xs)

All-insert :
    (P : Text → Type 0) (x : Text) (xs : List Text) → P x → All P xs → All P (insert_name x xs)
unfolding insert_name
All-insert P x [] p h = (p, tt)
All-insert P x (y ∷ ys) p h = elim (Bool-cases (text_ltb y x)) [
  | inl e ↦ rw e (h.0, All-insert P x ys p h.1)
  | inr e ↦ rw e (p, h)
]

-- A new name is sorted in between the others.
insert_name-IsAscending :
    (x : Text) (xs : List Text) → has x xs ≡ false → IsAscending xs → IsAscending (insert_name x xs)
unfolding insert_name
insert_name-IsAscending x [] h k = (tt, tt)
insert_name-IsAscending x (y ∷ ys) h k = elim (Bool-cases (text_ltb y x)) [
  | inl e ↦ rw e (
    All-insert (λ z. text_ltb y z ≡ true) x ys e k.0,
    insert_name-IsAscending x ys (ground (arith, h)) k.1,
  )
  | inr e ↦
      let before : text_ltb x y ≡ true = text_total x y e (ground (arith, h)) in
      rw e (
        (
          before,
          All-map (λ z. text_ltb y z ≡ true) (λ z. text_ltb x z ≡ true) ys
              (λ z l. text_ltb_trans x y z before l) k.0,
        ),
        k,
      )
]

has-sort_names : (x : Text) (xs : List Text) → has x xs ≡ false → has x (sort_names xs) ≡ false
has-sort_names x xs h =
    ground (arith, h, has_iff x xs, has_iff x (sort_names xs), sort_names_iff x xs)

-- Names without repetition are sorted in strictly ascending order.
pub sort_names-IsAscending : (xs : List Text) → AreDistinct xs → IsAscending (sort_names xs)
unfolding sort_names
sort_names-IsAscending [] h = tt
sort_names-IsAscending (x ∷ xs) h =
    insert_name-IsAscending x (sort_names xs) (has-sort_names x xs h.0)
      (sort_names-IsAscending xs h.1)
