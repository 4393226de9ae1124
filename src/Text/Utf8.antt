-- ===== src/Text/Utf8.antt =====
-- `String::from_utf8_lossy`: a byte that continues no character, or a character that is cut off,
-- becomes the replacement character.
use baijimu_codex_connector.Prelude.{
  List, Option, [], if◌then◌else◌, leb, ltb, nat_eq, none, some, ℕ, ◌&&◌, ◌*◌, ◌++◌, ◌+◌, ◌-◌, ◌∷◌,
  ◌%◌, ◌/◌,
}
use baijimu_codex_connector.Text.{Chars}

-- A character begun: how many bytes are still to come, the range of the next, and the bits so far.
pub record Partial : Type 0 where
  pub need : ℕ
  pub lo : ℕ
  pub hi : ℕ
  pub bits : ℕ

abbrev pub replacement : ℕ
replacement = 0xfffd

-- A first byte: a whole character, the begin of one, or neither.
pub data Begin : Type 0 where
  whole : ℕ → Begin
  begun : Partial → Begin
  invalid : Begin

abbrev partial : ℕ → ℕ → ℕ → ℕ → Begin
partial need lo hi bits = begun (record { need = need; lo = lo; hi = hi; bits = bits })

unfoldable pub begin : ℕ → Begin
begin b =
    if ltb b 0x80
    then whole b
    else if leb 0xc2 b && leb b 0xdf
    then partial 1 0x80 0xbf (b - 0xc0)
    else if nat_eq b 0xe0
    then partial 2 0xa0 0xbf 0
    else if nat_eq b 0xed
    then partial 2 0x80 0x9f 0xd
    else if leb 0xe1 b && leb b 0xef
    then partial 2 0x80 0xbf (b - 0xe0)
    else if nat_eq b 0xf0
    then partial 3 0x90 0xbf 0
    else if leb 0xf1 b && leb b 0xf3
    then partial 3 0x80 0xbf (b - 0xf0)
    else if nat_eq b 0xf4
    then partial 3 0x80 0x8f 4
    else invalid

-- What a byte does: the characters that it gives, and the character begun after it.
unfoldable pub first_byte : ℕ → Chars × Option Partial
unfolding begin
first_byte b = elim (begin b) [
  | whole c ↦ (c ∷ [], none)
  | begun p ↦ ([], some p)
  | invalid ↦ (replacement ∷ [], none)
]

unfoldable pub next_byte : Option Partial → ℕ → Chars × Option Partial
unfolding first_byte
next_byte none b = first_byte b
next_byte (some p) b =
    let bits = p.bits * 64 + (b - 0x80) in
    if leb p.lo b && leb b p.hi
    then (if leb p.need 1
        then (bits ∷ [], none)
        else ([], some (record { need = p.need - 1; lo = 0x80; hi = 0xbf; bits = bits })))
    else (replacement ∷ (first_byte b).0, (first_byte b).1)

unfoldable pub lossy_from : Option Partial → List ℕ → Chars
unfolding next_byte
lossy_from none [] = []
lossy_from (some p) [] = replacement ∷ []
lossy_from state (b ∷ bs) = (next_byte state b).0 ++ lossy_from (next_byte state b).1 bs

unfoldable pub from_utf8_lossy : List ℕ → Chars
unfolding lossy_from
from_utf8_lossy bytes = lossy_from none bytes

-- `as_bytes` of a text.
unfoldable pub utf8 : ℕ → List ℕ
utf8 c =
    if ltb c 0x80
    then c ∷ []
    else if ltb c 0x800
    then (0xc0 + c / 64) ∷ (0x80 + c % 64) ∷ []
    else if ltb c 0x10000
    then (0xe0 + c / 4096) ∷ (0x80 + c / 64 % 64) ∷ (0x80 + c % 64) ∷ []
    else (0xf0 + c / 262144) ∷ (0x80 + c / 4096 % 64) ∷ (0x80 + c / 64 % 64) ∷ (0x80 + c % 64) ∷ []

unfoldable pub as_bytes : Chars → List ℕ
unfolding utf8
as_bytes [] = []
as_bytes (c ∷ cs) = utf8 c ++ as_bytes cs
