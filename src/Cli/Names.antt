-- ===== src/Cli/Names.antt =====
-- The names of options, and the numbers they take.
use baijimu_codex_connector.Text.Numbers.{parse_u64}
use baijimu_codex_connector.Cli.Valid.{parse_unsigned-bound}
use baijimu_codex_connector.Text.{Chars}
use baijimu_codex_connector.Cli.{
  to_camel_case, to_kebab_case, ParsedArgs, required_u64_arg, string_arg,
}
use baijimu_codex_connector.Prelude.{
  [], All, Bool-cases, ap, arith, false, inl, inr, leb, nat_eq, refl, ℕ, ◌&&◌, ◌+◌, ◌-◌, ◌∷◌, ◌≡◌,
  ◌≤◌, >>=-eq-ok, String, ensure, ensure-eq-ok, ltb, ltb→lt, ok, ok-inj, ok_or, ok_or-eq-ok, some,
  ◌<◌, ◌^◌,
}

-- A character that stands for itself in an option's name: no dash.
abbrev pub NoDash : ℕ → Type 0
NoDash c = nat_eq c b'-' ≡ false

-- The dashed form of a name without dashes reads back as the name, if the upper case of a lower-case
-- ASCII letter is the letter 32 places before it.
pub to_camel_case-to_kebab_case :
    (to_uppercase : ℕ → Chars)
    → ((c : ℕ) → 97 ≤ c → c ≤ 122 → to_uppercase c ≡ (c - 32) ∷ [])
    → (name : Chars) → All NoDash name
    → to_camel_case to_uppercase (to_kebab_case name) ≡ name
unfolding to_camel_case to_kebab_case
to_camel_case-to_kebab_case to_uppercase upper [] plain = refl
to_camel_case-to_kebab_case to_uppercase upper (c ∷ cs) (h, hs) =
    let rest = to_camel_case-to_kebab_case to_uppercase upper cs hs in
    elim (Bool-cases (leb b'A' c && leb c b'Z')) [
      | inl capital ↦
          let low : 65 ≤ c = ground arith in
          let high : c ≤ 90 = ground arith in
          let back : c + 32 - 32 ≡ c = omega arith in
          let dash : nat_eq (c + 32) b'-' ≡ false = ground arith in
          let e = upper (c + 32) (omega arith) (omega arith) in
          rw capital (rw (dash, e, back) (ap (◌∷◌ c) rest))
      | inr other ↦ rw other (rw h (ap (◌∷◌ c) rest))
    ]

-- A number that a command requires is between 1 and 2^64 - 1, and is what the trimmed option reads as.
pub required_u64_arg-ok :
    (parsed : ParsedArgs) (key : String) (n : ℕ)
    → required_u64_arg parsed key ≡ ok n
    → (given : Chars) × (string_arg parsed key ≡ some given)
      × (parse_u64 given ≡ some n)
      × (0 < n)
      × (n < 2 ^ 64)
unfolding required_u64_arg
required_u64_arg-ok parsed key n h =
    let (given, at_given, h) = >>=-eq-ok (ok_or (string_arg parsed key) _) _ h in
    let (value, at_value, h) = >>=-eq-ok (ok_or (parse_u64 given) _) _ h in
    let (_, positive, h) = >>=-eq-ok (ensure (ltb 0 value) _) _ h in
    let same : value ≡ n = ok-inj _ refl h in
    let reads : parse_u64 given ≡ some value = ok_or-eq-ok (parse_u64 given) _ at_value in
    let small = parse_unsigned-bound (2 ^ 64) given value reads in
    let more = ltb→lt 0 value (ensure-eq-ok _ _ positive) in
    (
      given,
      ok_or-eq-ok (string_arg parsed key) _ at_given,
      cc (reads, same),
      omega (arith, more, same),
      omega (arith, small, same),
    )
