-- ===== src/Base/Result.antt =====
-- Exceptions as values: `throw` is `err`, and `refuse test e` is `if (test) throw e`.
use mathlib.Core.Path.{◌≡◌, refl}
use mathlib.Core.Logic.{◌↔◌}
use mathlib.Core.Bool.{Bool, true, false}

pub data Result (E A : Type 0) : Type 0 where
  ok : A → Result E A
  err : E → Result E A

infixl 5 ◌>>=◌ ◌>>◌
abbrev pub ◌>>=◌ : {E A B : Type 0} → Result E A → (A → Result E B) → Result E B
ok a >>= f = f a
err e >>= f = err e

abbrev pub ◌>>◌ : {E B : Type 0} → Result E (Unit {0}) → Result E B → Result E B
ok a >> k = k
err e >> k = err e

abbrev pub refuse : {E : Type 0} → Bool → E → Result E (Unit {0})
refuse true e = err e
refuse false e = ok tt

abbrev pub is_ok : {E A : Type 0} → Result E A → Bool
is_ok (ok a) = true
is_ok (err e) = false

pub ok-injective : {E A : Type 0} {a b : A} → ◌≡◌ {A = Result E A} (ok a) (ok b) → a ≡ b
ok-injective h = cc

-- What a chain of steps that succeeds says of each of them.
pub bind-ok :
    {E A B : Type 0} (r : Result E A) (f : A → Result E B) {b : B}
    → r >>= f ≡ ok b
    → (a : A) × (r ≡ ok a) × (f a ≡ ok b)
bind-ok (ok a) f h = (a, refl, h)
bind-ok (err e) f h = cc

pub refuse-ok :
    {E B : Type 0} (test : Bool) (e : E) (k : Result E B) {b : B}
    → refuse test e >> k ≡ ok b
    → (test ≡ false) × (k ≡ ok b)
refuse-ok true e k h = cc
refuse-ok false e k h = (refl, h)

pub then-ok :
    {E B : Type 0} (r : Result E (Unit {0})) (k : Result E B) {b : B}
    → r >> k ≡ ok b
    → (r ≡ ok tt) × (k ≡ ok b)
then-ok (ok a) k h = (refl, h)
then-ok (err e) k h = cc

-- A check whose answer is not used.
pub checked_iff :
    {E A : Type 0} (r : Result E A) (k : Result E (Unit {0}))
    → (r >>= (λ a. k) ≡ ok tt) ↔ ((is_ok r ≡ true) × (k ≡ ok tt))
checked_iff (ok a) k = (λ h. (refl, h), λ h. h.1)
checked_iff (err e) k = (λ h. cc, λ h. cc)

pub refuse_iff : {E : Type 0} (test : Bool) (e : E) → (refuse test e ≡ ok tt) ↔ (test ≡ false)
refuse_iff true e = (λ h. cc, λ h. cc)
refuse_iff false e = (λ h. refl, λ h. refl)

pub is_ok-cases : {E A : Type 0} (r : Result E A) → is_ok r ≡ true → (a : A) × (r ≡ ok a)
is_ok-cases (ok a) h = (a, refl)
is_ok-cases (err e) h = cc

pub err-injective : {E A : Type 0} {d e : E} → ◌≡◌ {A = Result E A} (err d) (err e) → d ≡ e
err-injective h = cc

-- A chain that ends well only fails by its steps.
pub map-err :
    {E A B : Type 0} (r : Result E A) (f : A → B) {e : E}
    → r >>= (λ a. ok (f a)) ≡ err e
    → r ≡ err e
map-err (ok a) f h = cc
map-err (err d) f h = rw (err-injective h) refl
