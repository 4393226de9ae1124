-- ===== src/Server/Authorization/Exact.antt =====
-- The comparison that takes the same time whatever it finds decides equality.

use baijimu_codex_connector.Text.Ascii.{as_bytes_ascii}
use baijimu_codex_connector.Text.Utf8.{as_bytes, utf8}
use baijimu_codex_connector.Text.{Chars, strip_prefix}
use baijimu_codex_connector.Server.Authorization.{
  difference, bearer, management_authorized, provided,
}
use baijimu_codex_connector.Prelude.{
  table_holds, table-entry, Bool, arith, bit_or, bit_xor, if◌then◌else◌, ltb, nat_eq, refl, true, ℕ,
  ◌&&◌, ◌<◌, ◌≡◌, All, [], length, ◌↔◌, ◌∷◌, Option, some, ◌++◌, Bool-cases, Option-cases, ap,
  false, inl, inr, none, All-append,
}

-- On bytes the exclusive or is zero for equal ones alone, and the inclusive or for two zeros alone.
xor_test : ℕ → ℕ → Bool
xor_test a b =
    ltb (bit_xor a b) 256 && (if nat_eq a b then nat_eq (bit_xor a b) 0 else ltb 0 (bit_xor a b))

or_test : ℕ → ℕ → Bool
or_test a b =
    ltb (bit_or a b) 256
    && (if nat_eq a 0 && nat_eq b 0 then nat_eq (bit_or a b) 0 else ltb 0 (bit_or a b))

xor_table : table_holds (λ a. table_holds (xor_test a) 256) 256 ≡ true
unfolding xor_test
xor_table = refl

or_table : table_holds (λ a. table_holds (or_test a) 256) 256 ≡ true
unfolding or_test
or_table = refl

xor_fact : (a b : ℕ) → a < 256 → b < 256 → xor_test a b ≡ true
xor_fact a b p q =
    table-entry (xor_test a) 256 b
      (table-entry (λ x. table_holds (xor_test x) 256) 256 a xor_table p) q

or_fact : (a b : ℕ) → a < 256 → b < 256 → or_test a b ≡ true
or_fact a b p q =
    table-entry (or_test a) 256 b (table-entry (λ x. table_holds (or_test x) 256) 256 a or_table p)
      q

xor_lem : (a b : ℕ) → a < 256 → b < 256 → (bit_xor a b < 256) × ((bit_xor a b ≡ 0) ↔ (a ≡ b))
unfolding xor_test
xor_lem a b p q = let h = xor_fact a b p q in (ground arith, (λ e. ground arith, λ e. ground arith))

or_lem :
    (a b : ℕ) → a < 256 → b < 256 → (bit_or a b < 256) × ((bit_or a b ≡ 0) ↔ ((a ≡ 0) × (b ≡ 0)))
unfolding or_test
or_lem a b p q = let h = or_fact a b p q in (ground arith, (λ e. ground arith, λ e. ground arith))

-- The fold comes to zero for equal texts and an accumulator of zero.
difference_zero :
    (acc : ℕ) (left right : Chars)
    → acc < 256
    → All (λ b. b < 256) left
    → All (λ b. b < 256) right
    → length left ≡ length right
    → (difference acc left right ≡ 0) ↔ ((acc ≡ 0) × (left ≡ right))
unfolding difference
difference_zero acc [] [] small _ _ same = (λ e. (e, refl), λ e. e.0)
difference_zero acc [] (r ∷ rs) small _ _ same = absurd (omega arith)
difference_zero acc (l ∷ ls) [] small _ _ same = absurd (omega arith)
difference_zero acc (l ∷ ls) (r ∷ rs) small (hl, hls) (hr, hrs) same =
    let (x_small, x) = xor_lem l r hl hr in
    let (o_small, o) = or_lem acc (bit_xor l r) small x_small in
    let (there, back) =
      difference_zero (bit_or acc (bit_xor l r)) ls rs o_small hls hrs (omega arith) in
    (
      λ e.
          let (zero_or, tails) = there e in
          let (zero_acc, zero_xor) = o.0 zero_or in (zero_acc, cc (x.0 zero_xor, tails)),
      λ (zero_acc, equal). back (o.1 (zero_acc, x.1 (cc equal)), cc equal),
    )

strip_prefix-some : (p s rest : Chars) → (strip_prefix p s ≡ some rest) ↔ (s ≡ p ++ rest)
unfolding strip_prefix
strip_prefix-some [] s rest = (λ e. cc e, λ e. cc e)
strip_prefix-some (c ∷ p) [] rest = (λ e. cc e, λ e. cc e)
strip_prefix-some (c ∷ p) (d ∷ s) rest =
    let (there, back) = strip_prefix-some p s rest in
    (λ e. ground (arith, there), λ e. ground (arith, back))

same_text :
    (given token : Chars)
    → All (λ b. b < 256) given
    → All (λ b. b < 256) token
    → ((if nat_eq (length given) (length token) then nat_eq (difference 0 given token) 0 else false)
        ≡ true)
      ↔ (given ≡ token)
same_text given token bytes bytes' = elim (Bool-cases (nat_eq (length given) (length token))) [
  | inl long ↦
      let level : length given ≡ length token = ground arith in
      let (there, back) = difference_zero 0 given token (omega arith) bytes bytes' level in
      (λ e. (there (ground arith)).1, λ e. ground (arith, back (refl, e)))
  | inr short ↦ (λ e. ground arith, λ e. ground (arith, ap length e))
]

provided_iff :
    (given : Option Chars) (token : Chars)
    → 0 < length token
    → (provided given ≡ token) ↔ (given ≡ some (bearer ++ token))
provided_iff none token long = (λ e. ground (arith, ap length e), λ e. cc e)
provided_iff (some value) token long = elim (Option-cases (strip_prefix bearer value)) [
  | inl other ↦
      (λ e. ground (arith, ap length e), λ e. cc ((strip_prefix-some bearer value token).1 (cc e)))
  | inr (rest, there) ↦ (
    λ e. ap some ((strip_prefix-some bearer value token).0 (ground arith)),
    λ e. cc (there, (strip_prefix-some bearer value token).1 (cc e)),
  )
]

utf8_bytes : (c : ℕ) → c < 0x110000 → All (λ b. b < 256) (utf8 c)
unfolding utf8
utf8_bytes c h = ground arith

as_bytes_bytes : (s : Chars) → All (λ c. c < 0x110000) s → All (λ b. b < 256) (as_bytes s)
unfolding as_bytes
as_bytes_bytes [] _ = tt
as_bytes_bytes (c ∷ cs) (h, hs) =
    All-append (λ b. b < 256) (utf8 c) (as_bytes cs) (utf8_bytes c h) (as_bytes_bytes cs hs)

ascii_bytes : (t : Chars) → All (λ b. b < 128) t → All (λ b. b < 256) t
ascii_bytes [] _ = tt
ascii_bytes (b ∷ t) (h, hs) = (omega (arith, h), ascii_bytes t hs)

-- A request is authorised exactly when its header is `Bearer ` and the token; the token is ASCII and
-- not empty, and the header is Unicode text.
pub management_authorized_iff :
    (given : Option Chars) (token : Chars)
    → All (λ c. c < 0x110000) (provided given)
    → All (λ b. b < 128) token
    → 0 < length token
    → (management_authorized given token ≡ true) ↔ (given ≡ some (bearer ++ token))
unfolding management_authorized
management_authorized_iff given token text ascii some_bytes =
    let plain : as_bytes token ≡ token = (as_bytes_ascii token token ascii).1 refl in
    let bytes = as_bytes_bytes (provided given) text in
    let (there, back) =
      same_text (as_bytes (provided given)) token bytes (ascii_bytes token ascii) in
    let (same, again) = as_bytes_ascii (provided given) token ascii in
    let (there', back') = provided_iff given token some_bytes in
    rw plain (λ e. there' (same (there e)), λ e. back (again (back' e)))
