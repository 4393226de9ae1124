-- ===== src/Text/Decimal.antt =====
-- Numbers printed in decimal read back.
use baijimu_codex_connector.Text.{Chars}
use baijimu_codex_connector.Prelude.{
  ◌∷◌, zero, suc, Bool-cases, String, ap, arith, code, codes, inl, inr, ltb, refl, ℕ, ◌%◌, ◌*◌, ◌+◌,
  ◌-◌, ◌/◌, ◌<◌, ◌∙◌, ◌≡◌, ◌≤◌, some, subst, ltb→ge, ltb→lt, nat_eq, nat_eq_iff, table-entry,
  table_holds, true, false, lt→ltb, sym,
}
use baijimu_codex_connector.Invoke.Input.{decimal, digits}
use baijimu_codex_connector.History.Cursor.{digit}
use baijimu_codex_connector.Text.Numbers.{digits_value, parse_unsigned, unsigned_digits}

IsDigit : ℕ → Type 0
IsDigit c = (48 ≤ c) × (c ≤ 57)

digit_table : table_holds (λ n. nat_eq (code (digit n)) (48 + n)) 10 ≡ true
unfolding digit
digit_table = refl

pub code-digit : (n : ℕ) → n < 10 → code (digit n) ≡ 48 + n
code-digit n h =
    (nat_eq_iff (code (digit n)) (48 + n)).0
      (table-entry (λ n. nat_eq (code (digit n)) (48 + n)) 10 n digit_table h)

digits_value_step :
    (acc n : ℕ) (rest : Chars)
    → n < 10
    → digits_value acc (code (digit n) ∷ rest) ≡ digits_value (acc * 10 + n) rest
unfolding digits_value
digits_value_step acc n rest small =
    let e = code-digit n small in let d : 48 + n - 48 ≡ n = omega arith in rw (e, d) (ground arith)

digits_value-digits :
    (fuel n : ℕ) (rest : String)
    → n < fuel
    → digits_value 0 (codes (digits fuel n rest)) ≡ digits_value n (codes rest)
digits_value-digits zero n rest enough = absurd (omega arith)
digits_value-digits (suc fuel) n rest enough = elim (Bool-cases (ltb n 10)) [
  | inl small ↦
      let e : 0 * 10 + n ≡ n = omega arith in
      rw small (
        digits_value_step 0 n (codes rest) (ground arith) ∙ ap (λ x. digits_value x (codes rest)) e)
  | inr big ↦
      let e : n / 10 * 10 + n % 10 ≡ n = omega arith in
      rw big (
        digits_value-digits fuel (n / 10) (String.◌∷◌ (digit (n % 10)) rest) (ground arith)
        ∙ digits_value_step (n / 10) (n % 10) (codes rest) (omega arith)
        ∙ ap (λ x. digits_value x (codes rest)) e)
]

digits_head :
    (fuel n : ℕ) (rest : String)
    → n < suc fuel
    → (c : ℕ) × (cs : Chars) × (codes (digits (suc fuel) n rest) ≡ c ∷ cs) × (48 ≤ c) × (c ≤ 57)
digits_head zero n rest enough =
    let small : ltb n 10 ≡ true = ground arith in
    let e = code-digit n (omega arith) in
    rw small (code (digit n), codes rest, refl, omega (arith, e), omega (arith, e))
digits_head (suc fuel) n rest enough = elim (Bool-cases (ltb n 10)) [
  | inl small ↦
      let lt : n < 10 = ltb→lt n 10 small in
      let e = code-digit n lt in
      rw small (code (digit n), codes rest, refl, omega (arith, e), omega (arith, e, lt))
  | inr big ↦
      let ge = ltb→ge n 10 big in
      rw big
        (digits_head fuel (n / 10) (String.◌∷◌ (digit (n % 10)) rest) (omega (arith, ge, enough)))
]

unsigned_digits-value :
    (bound c n : ℕ) (cs : Chars)
    → n < bound
    → digits_value 0 (c ∷ cs) ≡ some n
    → unsigned_digits bound (c ∷ cs) ≡ some n
unfolding unsigned_digits
unsigned_digits-value bound c n cs small value =
    rw (value, unsigned_digits) (rw (lt→ltb n bound small))

parse_unsigned_digit :
    (bound c n : ℕ) (cs : Chars)
    → 48 ≤ c
    → n < bound
    → digits_value 0 (c ∷ cs) ≡ some n
    → parse_unsigned bound (c ∷ cs) ≡ some n
unfolding parse_unsigned
parse_unsigned_digit bound c n cs low small value =
    let other : nat_eq c b'+' ≡ false = ground arith in
    rw other (unsigned_digits-value bound c n cs small value)

-- A printed number starts with a digit.
pub decimal_head :
    (n : ℕ) → (c : ℕ) × (cs : Chars) × (codes (decimal n) ≡ c ∷ cs) × (48 ≤ c) × (c ≤ 57)
decimal_head n = digits_head n n "" (omega arith)

-- What `to_string` prints of a number below the bound, `parse` reads.
pub parse_unsigned-decimal :
    (bound n : ℕ) → n < bound → parse_unsigned bound (codes (decimal n)) ≡ some n
unfolding digits_value
parse_unsigned-decimal bound n small =
    let (c, cs, head, low, _) = decimal_head n in
    let value : digits_value 0 (codes (decimal n)) ≡ some n =
      digits_value-digits (suc n) n "" (omega arith) in
    subst (λ x. parse_unsigned bound x ≡ some n) (sym head)
      (parse_unsigned_digit bound c n cs low small
        (subst (λ x. digits_value 0 x ≡ some n) head value))
