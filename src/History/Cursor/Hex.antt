-- ===== src/History/Cursor/Hex.antt =====
-- Hexadecimal text of bytes and back.
use baijimu_codex_connector.History.Cursor.{
  Bytes, byte_of, digit, hex, is_encoded, unhex, digit_value,
}
use baijimu_codex_connector.Prelude.{
  All, Bool, Bool-cases, [], all, arith, code, codes, false, inl, inr, length, ltb, nat_eq, none,
  refl, some, suc, true, zero, ℕ, ◌%◌, ◌&&◌, ◌*◌, ◌/◌, ◌<◌, ◌∷◌, ◌≡◌, ◌≤◌, Char, if◌then◌else◌,
}

-- The two digits of a byte read back as the byte.
reads : ℕ → Bool
reads b = elim (byte_of (code (digit (b / 16))) (code (digit (b % 16)))) [
  | none ↦ false
  | some x ↦ nat_eq x b
]

all_read : ℕ → Bool
all_read zero = true
all_read (suc n) = reads n && all_read n

all_read_sound : (n b : ℕ) → all_read n ≡ true → b < n → reads b ≡ true
unfolding all_read
all_read_sound zero b h k = absurd (omega arith)
all_read_sound (suc n) b h k = elim (Bool-cases (nat_eq n b)) [
  | inl same ↦ let e : n ≡ b = ground arith in rw (← e) (ground arith)
  | inr other ↦ all_read_sound n b (ground arith) (ground arith)
]

all_read_256 : all_read 256 ≡ true
unfolding all_read reads byte_of digit digit_value
all_read_256 = refl

byte_of-digit : (b : ℕ) → b < 256 → byte_of (code (digit (b / 16))) (code (digit (b % 16))) ≡ some b
unfolding reads
byte_of-digit b h = let k = all_read_sound 256 b all_read_256 h in ground arith

-- What `encode` prints reads back.
pub unhex-hex : (bs : Bytes) → All (λ b. b < 256) bs → unhex (codes (hex bs)) ≡ some bs
unfolding unhex hex
unhex-hex [] h = refl
unhex-hex (b ∷ bs) (h, hs) = rw (byte_of-digit b h, unhex) (rw (unhex-hex bs hs, unhex))

abbrev IsAscii : Char → Type 0
IsAscii c = ltb (code c) 128 ≡ true

pick-IsAscii : (b : Bool) (x y : Char) → IsAscii x → IsAscii y → IsAscii (if b then x else y)
pick-IsAscii true x y p q = p
pick-IsAscii false x y p q = q

digit-IsAscii : (n : ℕ) → IsAscii (digit n)
unfolding digit
digit-IsAscii n = pick-IsAscii (nat_eq n 0) _ _ refl (
    pick-IsAscii (nat_eq n 1) _ _ refl (
      pick-IsAscii (nat_eq n 2) _ _ refl (
        pick-IsAscii (nat_eq n 3) _ _ refl (
          pick-IsAscii (nat_eq n 4) _ _ refl (
            pick-IsAscii (nat_eq n 5) _ _ refl (
              pick-IsAscii (nat_eq n 6) _ _ refl (
                pick-IsAscii (nat_eq n 7) _ _ refl (
                  pick-IsAscii (nat_eq n 8) _ _ refl (
                    pick-IsAscii (nat_eq n 9) _ _ refl (
                      pick-IsAscii (nat_eq n 10) _ _ refl (
                        pick-IsAscii (nat_eq n 11) _ _ refl (
                          pick-IsAscii (nat_eq n 12) _ _ refl (
                            pick-IsAscii (nat_eq n 13) _ _ refl
                              (pick-IsAscii (nat_eq n 14) _ _ refl refl))))))))))))))

hex_ascii : (bs : Bytes) → all (λ c. ltb c 128) (codes (hex bs)) ≡ true
unfolding hex
hex_ascii [] = refl
hex_ascii (b ∷ bs) = rw (digit-IsAscii (b / 16), digit-IsAscii (b % 16)) (hex_ascii bs)

length-hex : (bs : Bytes) → length (codes (hex bs)) ≡ 2 * length bs
unfolding hex
length-hex [] = omega arith
length-hex (b ∷ bs) = omega (arith, length-hex bs)

pub is_encoded-hex : (bs : Bytes) → length bs ≤ 4096 → is_encoded (codes (hex bs)) ≡ true
unfolding is_encoded
is_encoded-hex bs h = rw (hex_ascii bs) (ground (arith, length-hex bs))
