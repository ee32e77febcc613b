-- ===== src/Text/Equality.antt =====
-- Equality of texts is decided by `text_eq`.
use sovalune_core.Common.{◌≡◌, refl, ap, Bool, true, false, [], ◌∷◌, arith}
use sovalune_core.Text.{Text, text_eq}

pub text_eq-eq : (s t : Text) → text_eq s t ≡ true → s ≡ t
unfolding text_eq
text_eq-eq [] [] h = refl
text_eq-eq [] (b ∷ t) h = cc
text_eq-eq (a ∷ s) [] h = cc
text_eq-eq (a ∷ s) (b ∷ t) h = ground (arith, text_eq-eq s t)

pub text_eq_refl : (s : Text) → text_eq s s ≡ true
unfolding text_eq
text_eq_refl [] = refl
text_eq_refl (a ∷ s) = ground (arith, text_eq_refl s)

decided : (s t : Text) (b : Bool) → text_eq s t ≡ b → Dec (s ≡ t)
decided s t true h = yes (text_eq-eq s t h)
decided s t false h = no (λ p. let e = ap (text_eq s) p in ground (arith, text_eq_refl s))

unfoldable pub text_discrete : Discrete Text
unfolding decided
text_discrete s t = decided s t (text_eq s t) refl
