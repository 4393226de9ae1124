-- ===== src/Server/Authorization.antt =====
-- `management_authorized` of src/main.rs.
pub mod Exact
use baijimu_codex_connector.Text.Utf8.{as_bytes}
use baijimu_codex_connector.Json.{unwrap_or}
use baijimu_codex_connector.Prelude.{
  Bool, Option, [], bit_or, bit_xor, codes, false, if◌then◌else◌, nat_eq, none, some, ℕ, ◌∷◌,
  length,
}
use baijimu_codex_connector.Text.{Chars, strip_prefix}

-- The fold over the pairs of bytes, which looks at all of them whatever it finds.
unfoldable pub difference : ℕ → Chars → Chars → ℕ
difference acc [] right = acc
difference acc (l ∷ ls) [] = acc
difference acc (l ∷ ls) (r ∷ rs) = difference (bit_or acc (bit_xor l r)) ls rs

abbrev pub bearer : Chars
bearer = codes "Bearer "

abbrev pub provided : Option Chars → Chars
provided none = []
provided (some value) = unwrap_or (strip_prefix bearer value) []

unfoldable pub management_authorized : Option Chars → Chars → Bool
unfolding difference strip_prefix as_bytes
management_authorized given expected =
    let sent = as_bytes (provided given) in
    let token = as_bytes expected in
    if nat_eq (length sent) (length token) then nat_eq (difference 0 sent token) 0 else false
