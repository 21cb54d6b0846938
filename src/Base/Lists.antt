-- ===== src/Base/Lists.antt =====
-- Lists over the native numbers, under the library's names.
use Prim.Native.Nat.{ℕ, suc, ◌+◌}
use mathlib.Core.Path.{◌≡◌}
use mathlib.Core.Logic.{◌⊎◌, inl, inr}
use mathlib.Core.Bool.{Bool, true, false, ◌||◌}
use mathlib.Core.List.{List, [], ◌∷◌, ◌++◌}
use native.Mathlib.Omega.{arith}

-- `xs.filter(test)`: the library's `filter` takes a decision instead.
abbrev pub keep {ℓ} : {A : Type ℓ} → Bool → A → List A → List A
keep true x xs = x ∷ xs
keep false x xs = xs

module _ {ℓ} {A : Type ℓ} where
  abbrev pub length : List A → ℕ
  length [] = 0
  length (x ∷ xs) = suc (length xs)

  abbrev pub filter : (A → Bool) → List A → List A
  filter test [] = []
  filter test (x ∷ xs) = keep (test x) x (filter test xs)

  -- `xs.some(test)`
  abbrev pub any : (A → Bool) → List A → Bool
  any test [] = false
  any test (x ∷ xs) = test x || any test xs

  pub length-append : (xs ys : List A) → length (xs ++ ys) ≡ length xs + length ys
  length-append [] ys = omega arith
  length-append (x ∷ xs) ys = omega (arith, length-append xs ys)

  -- A predicate of every member, by recursion.
  abbrev pub All {κ} : (A → Type κ) → List A → Type κ
  All P [] = Unit
  All P (x ∷ xs) = P x × All P xs

  pub All-append {κ} : (P : A → Type κ) (xs ys : List A) → All P xs → All P ys → All P (xs ++ ys)
  All-append P [] ys h k = k
  All-append P (x ∷ xs) ys h k = (h.0, All-append P xs ys h.1 k)

module _ {ℓ κ} {A : Type ℓ} where
  pub All-map : (P Q : A → Type κ) (xs : List A) → ((x : A) → P x → Q x) → All P xs → All Q xs
  All-map P Q [] f h = tt
  All-map P Q (x ∷ xs) f h = (f x h.0, All-map P Q xs f h.1)

  -- What holds of each member gives what holds of each pair of members.
  pub All-pairs :
      (P : A → Type κ) (R : A → A → Type κ) (xs ys : List A)
      → ((x y : A) → P x → P y → R x y)
      → All P xs
      → All P ys
      → All (λ x. All (R x) ys) xs
  All-pairs P R [] ys f h k = tt
  All-pairs P R (x ∷ xs) ys f h k =
      (All-map P (R x) ys (λ y q. f x y h.0 q) k, All-pairs P R xs ys f h.1 k)

-- `x` is a member of the list.
abbrev pub IsIn : {A : Type 0} → A → List A → Type 0
IsIn x [] = ⊥
IsIn x (y ∷ ys) = (x ≡ y) ⊎ IsIn x ys

pub All-IsIn : {A : Type 0} (P : A → Type 0) (xs : List A) (x : A) → All P xs → IsIn x xs → P x
All-IsIn P [] x h e = elim e [ ]
All-IsIn P (y ∷ ys) x h (inl e) = rw e h.0
All-IsIn P (y ∷ ys) x h (inr k) = All-IsIn P ys x h.1 k
