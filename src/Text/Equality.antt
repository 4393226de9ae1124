-- ===== src/Text/Equality.antt =====
-- The equality of texts decides it, and a text without its prefix.
use baijimu_codex_connector.Text.{Chars, chars_eq}
use baijimu_codex_connector.Prelude.{[], arith, refl, true, ◌∷◌, ◌≡◌}

pub chars_eq-eq : (s t : Chars) → chars_eq s t ≡ true → s ≡ t
unfolding chars_eq
chars_eq-eq [] [] h = refl
chars_eq-eq [] (b ∷ bs) h = cc h
chars_eq-eq (a ∷ s) [] h = cc h
chars_eq-eq (a ∷ s) (b ∷ bs) h = ground (arith, chars_eq-eq s bs)

pub chars_eq_refl : (s : Chars) → chars_eq s s ≡ true
unfolding chars_eq
chars_eq_refl [] = refl
chars_eq_refl (c ∷ s) = ground (arith, chars_eq_refl s)
