-- ===== src/Text/Ascii.antt =====
-- Texts of ASCII characters are their bytes.
use baijimu_codex_connector.Text.{Chars}
use baijimu_codex_connector.Prelude.{[], ◌∷◌, All, arith, refl, ◌<◌, ◌↔◌, ◌≡◌}
use baijimu_codex_connector.Text.Utf8.{as_bytes, utf8}

-- A text whose bytes are ASCII is its bytes.
pub as_bytes_ascii : (s t : Chars) → All (λ b. b < 128) t → (as_bytes s ≡ t) ↔ (s ≡ t)
unfolding as_bytes utf8
as_bytes_ascii [] [] _ = (λ e. refl, λ e. refl)
as_bytes_ascii [] (b ∷ t) _ = (λ e. cc e, λ e. cc e)
as_bytes_ascii (c ∷ s) [] _ = (λ e. ground arith, λ e. cc e)
as_bytes_ascii (c ∷ s) (b ∷ t) (h, hs) =
    let (there, back) = as_bytes_ascii s t hs in
    (λ e. ground (arith, there), λ e. ground (arith, back))
