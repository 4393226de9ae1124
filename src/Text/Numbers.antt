-- ===== src/Text/Numbers.antt =====
-- `str::parse` for unsigned numbers below a bound.
use baijimu_codex_connector.Prelude.{
  Option, [], if◌then◌else◌, leb, ltb, nat_eq, none, some, ℕ, ◌&&◌, ◌*◌, ◌+◌, ◌-◌, ◌^◌, ◌∷◌,
}
use baijimu_codex_connector.Text.{Chars}

unfoldable pub digits_value : ℕ → Chars → Option ℕ
digits_value acc [] = some acc
digits_value acc (c ∷ cs) =
    let rest = digits_value (acc * 10 + (c - b'0')) cs in
    if leb b'0' c && leb c b'9' then rest else none

unfoldable pub unsigned_digits : ℕ → Chars → Option ℕ
unfolding digits_value
unsigned_digits bound [] = none
unsigned_digits bound (c ∷ cs) = elim (digits_value 0 (c ∷ cs)) [
  | none ↦ none
  | some n ↦ if ltb n bound then some n else none
]

-- A plus sign may stand before the digits.
unfoldable pub parse_unsigned : ℕ → Chars → Option ℕ
unfolding unsigned_digits
parse_unsigned bound [] = none
parse_unsigned bound (c ∷ cs) =
    if nat_eq c b'+' then unsigned_digits bound cs else unsigned_digits bound (c ∷ cs)

abbrev pub parse_u64 : Chars → Option ℕ
parse_u64 s = parse_unsigned (2 ^ 64) s

abbrev pub parse_u16 : Chars → Option ℕ
parse_u16 s = parse_unsigned (2 ^ 16) s
