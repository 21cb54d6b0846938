-- ===== src/Base/Order.antt =====
-- The order of texts by their code units, as `<` and `===` compare strings.
use mathlib.Core.Path.{◌≡◌, refl}
use mathlib.Core.Bool.{Bool, true, false, ◌&&◌, ◌||◌}
use mathlib.Core.List.{[], ◌∷◌}
use native.Mathlib.Omega.{arith}
use contrats.Base.Tests.{◌==◌, ltb}
use contrats.Base.Text.{Text}

abbrev pub text_ltb : Text → Text → Bool
text_ltb s [] = false
text_ltb [] (b ∷ t) = true
text_ltb (a ∷ s) (b ∷ t) = ltb a b || (a == b && text_ltb s t)

abbrev pub text_eqb : Text → Text → Bool
text_eqb [] [] = true
text_eqb [] (b ∷ t) = false
text_eqb (a ∷ s) [] = false
text_eqb (a ∷ s) (b ∷ t) = a == b && text_eqb s t

pub text_eqb_sound : (s t : Text) → text_eqb s t ≡ true → s ≡ t
text_eqb_sound [] [] h = refl
text_eqb_sound [] (b ∷ t) h = cc
text_eqb_sound (a ∷ s) [] h = cc
text_eqb_sound (a ∷ s) (b ∷ t) h = ground (arith, h, text_eqb_sound s t)

pub text_eqb_refl : (s : Text) → text_eqb s s ≡ true
text_eqb_refl [] = refl
text_eqb_refl (a ∷ s) = ground (arith, text_eqb_refl s)

pub text_ltb_trans :
    (r s t : Text) → text_ltb r s ≡ true → text_ltb s t ≡ true → text_ltb r t ≡ true
text_ltb_trans r s [] h k = cc
text_ltb_trans [] s (c ∷ t) h k = refl
text_ltb_trans (a ∷ r) [] (c ∷ t) h k = cc
text_ltb_trans (a ∷ r) (b ∷ s) (c ∷ t) h k = ground (arith, h, k, text_ltb_trans r s t)

pub text_ltb_irrefl : (s : Text) → text_ltb s s ≡ false
text_ltb_irrefl [] = refl
text_ltb_irrefl (a ∷ s) = ground (arith, text_ltb_irrefl s)

pub text_eqb_sym : (s t : Text) → text_eqb s t ≡ false → text_eqb t s ≡ false
text_eqb_sym [] [] h = cc
text_eqb_sym [] (b ∷ t) h = refl
text_eqb_sym (a ∷ s) [] h = refl
text_eqb_sym (a ∷ s) (b ∷ t) h = ground (arith, h, text_eqb_sym s t)
