-- ===== src/Text.antt =====
-- The text functions of Rust's standard library that the connector calls, on code points: `trim`,
-- `lines`, `split_once`, `split_whitespace`, `eq_ignore_ascii_case`, `strip_prefix`, and the parsing
-- of unsigned numbers.
pub mod Utf8
pub mod Numbers
pub mod Equality
pub mod Decimal
pub mod Ascii
use baijimu_codex_connector.Prelude.{
  Bool, List, Option, [], false, if◌then◌else◌, leb, map, nat_eq, none, some, true, ℕ, ◌&&◌, ◌++◌,
  ◌+◌, ◌||◌, ◌∷◌,
}

abbrev pub Chars : Type 0
Chars = List ℕ

-- `char::is_whitespace`
abbrev pub is_whitespace : ℕ → Bool
is_whitespace c =
    (leb 9 c && leb c 13)
    || nat_eq c 32
    || nat_eq c 0x85
    || nat_eq c 0xa0
    || nat_eq c 0x1680
    || (leb 0x2000 c && leb c 0x200a)
    || nat_eq c 0x2028
    || nat_eq c 0x2029
    || nat_eq c 0x202f
    || nat_eq c 0x205f
    || nat_eq c 0x3000

unfoldable pub chars_eq : Chars → Chars → Bool
chars_eq [] [] = true
chars_eq [] (b ∷ bs) = false
chars_eq (a ∷ as') [] = false
chars_eq (a ∷ as') (b ∷ bs) = nat_eq a b && chars_eq as' bs

-- `strip_prefix`
unfoldable pub strip_prefix : Chars → Chars → Option Chars
strip_prefix [] s = some s
strip_prefix (p ∷ ps) [] = none
strip_prefix (p ∷ ps) (c ∷ cs) = if nat_eq p c then strip_prefix ps cs else none

unfoldable pub trim_start : Chars → Chars
trim_start [] = []
trim_start (c ∷ cs) = if is_whitespace c then trim_start cs else c ∷ cs

unfoldable pub trim_end : Chars → Chars
trim_end [] = []
trim_end (c ∷ cs) = elim (trim_end cs) [
  | [] ↦ if is_whitespace c then [] else c ∷ []
  | d ∷ ds ↦ c ∷ d ∷ ds
]

unfoldable pub trim : Chars → Chars
unfolding trim_start trim_end
trim s = trim_end (trim_start s)

-- `split_once`
unfoldable pub split_once : ℕ → Chars → Option (Chars × Chars)
split_once d [] = none
split_once d (c ∷ cs) =
    let rest = split_once d cs in
    if nat_eq c d
    then some ([], cs)
    else elim rest [ none ↦ none | some (before, after) ↦ some (c ∷ before, after) ]

-- A line without the carriage return before its line feed.
unfoldable pub strip_cr : Chars → Chars
strip_cr [] = []
strip_cr (c ∷ []) = if nat_eq c b'\r' then [] else c ∷ []
strip_cr (c ∷ d ∷ cs) = c ∷ strip_cr (d ∷ cs)

-- `lines`, with the part of the line read so far.
unfoldable pub lines_from : Chars → Chars → List Chars
unfolding strip_cr
lines_from [] [] = []
lines_from (p ∷ ps) [] = (p ∷ ps) ∷ []
lines_from part (c ∷ cs) =
    let ended = strip_cr part ∷ lines_from [] cs in
    let goes_on = lines_from (part ++ c ∷ []) cs in if nat_eq c b'\n' then ended else goes_on

unfoldable pub lines : Chars → List Chars
unfolding lines_from
lines s = lines_from [] s

-- `split_whitespace`, with the part of the word read so far.
unfoldable pub words_from : Chars → Chars → List Chars
words_from [] [] = []
words_from (p ∷ ps) [] = (p ∷ ps) ∷ []
words_from part (c ∷ cs) =
    let more = words_from (part ++ c ∷ []) cs in
    let next = words_from [] cs in
    if is_whitespace c then elim part [ [] ↦ next | p ∷ ps ↦ (p ∷ ps) ∷ next ] else more

unfoldable pub split_whitespace : Chars → List Chars
unfolding words_from
split_whitespace s = words_from [] s

abbrev pub to_ascii_lowercase : ℕ → ℕ
to_ascii_lowercase c = if leb b'A' c && leb c b'Z' then c + 32 else c

unfoldable pub eq_ignore_ascii_case : Chars → Chars → Bool
unfolding chars_eq
eq_ignore_ascii_case s t = chars_eq (map to_ascii_lowercase s) (map to_ascii_lowercase t)

-- `.trim()` and `.filter(|value| !value.is_empty())`
unfoldable pub trimmed : Option Chars → Option Chars
unfolding trim
trimmed none = none
trimmed (some s) = elim (trim s) [ [] ↦ none | c ∷ cs ↦ some (c ∷ cs) ]

-- `starts_with`
unfoldable pub starts_with : Chars → Chars → Bool
unfolding strip_prefix
starts_with prefix s = elim (strip_prefix prefix s) [ none ↦ false | some _ ↦ true ]
