-- ===== src/Cli.antt =====
-- The command line: src/cli.rs, with the case conversions of src/process_runtime.rs. Texts are code
-- points; the upper case of a character and the reading of a JSON list of texts are parameters.
pub mod Options
pub mod Valid
pub mod Daemon
pub mod Names
pub mod Run
pub mod Stop
use baijimu_codex_connector.Text.Numbers.{parse_u64, parse_unsigned}
use baijimu_codex_connector.Text.{
  trimmed, Chars, chars_eq, split_once, strip_prefix, to_ascii_lowercase,
}
use baijimu_codex_connector.Json.{unwrap_or}
use baijimu_codex_connector.Prelude.{
  [], ◌∷◌, ◌>>=◌, ◌>>◌, Bool, List, Option, Result, String, any, codes, drop, ensure, err, false,
  if◌then◌else◌, leb, ltb, nat_eq, none, ok, ok_or, some, true, ℕ, ◌&&◌, ◌++◌,
}

-- `Map<String, _>` by its keys.
abbrev pub Named : Type 0 → Type 0
Named A = List (Chars × A)

unfoldable pub named : {A : Type 0} → Chars → Named A → Option A
unfolding chars_eq
named key [] = none
named key ((k, v) ∷ m) = if chars_eq k key then some v else named key m

unfoldable pub put : {A : Type 0} → Chars → A → Named A → Named A
unfolding chars_eq
put key v [] = (key, v) ∷ []
put key v ((k, w) ∷ m) = if chars_eq k key then (k, v) ∷ m else (k, w) ∷ put key v m

-- What is set on the command line; an option's value is always a text, a flag's always true.
pub record ParsedArgs : Type 0 where
  pub command : Chars
  pub values : Named Chars
  pub flags : Named Bool

abbrev pub is_set : String → ParsedArgs → Bool
is_set key parsed = unwrap_or (named (codes key) parsed.flags) false

-- `to_kebab_case`
unfoldable pub to_kebab_case : Chars → Chars
to_kebab_case [] = []
to_kebab_case (c ∷ cs) =
    let rest = to_kebab_case cs in
    if leb b'A' c && leb c b'Z' then b'-' ∷ to_ascii_lowercase c ∷ rest else c ∷ rest

abbrev pub one_of : Chars → List String → Bool
one_of key keys = any (λ k. chars_eq key (codes k)) keys

module _ (to_uppercase : ℕ → Chars) where
  -- `to_camel_case`, with whether a dash has just been read.
  unfoldable pub camel_from : Bool → Chars → Chars
  camel_from upper [] = []
  camel_from upper (c ∷ cs) =
      let after_dash = camel_from true cs in
      let rest = camel_from false cs in
      if nat_eq c b'-' then after_dash else if upper then to_uppercase c ++ rest else c ∷ rest

  unfoldable pub to_camel_case : Chars → Chars
  unfolding camel_from
  to_camel_case value = camel_from false value

  -- `split_once('=').unwrap_or((raw, ""))`
  unfoldable pub key_and_inline : Chars → Chars × Chars
  unfolding split_once to_camel_case
  key_and_inline raw = elim (split_once b'=' raw) [
    | none ↦ (to_camel_case raw, [])
    | some (key, inline) ↦ (to_camel_case key, inline)
  ]

  -- The loop of `parse_args` over the arguments after the command.
  unfoldable pub parse_from : List Chars → ParsedArgs → Result Chars ParsedArgs
  unfolding strip_prefix key_and_inline put chars_eq
  parse_from [] parsed = ok parsed
  parse_from (arg ∷ []) parsed = elim (strip_prefix (codes "--") arg) [
    | none ↦ ok parsed
    | some raw ↦
        let (key, inline) = key_and_inline raw in
        if one_of key ("codexBinary" ∷ [])
        then err (codes "--codex-binary is no longer supported; Codex CLI discovery is automatic")
        else if one_of key ("daemon" ∷ "help" ∷ "version" ∷ [])
        then ok (record parsed { flags = put key true parsed.flags })
        else elim inline [
          | [] ↦ err (codes "missing value for --" ++ raw)
          | c ∷ cs ↦ ok (record parsed { values = put key (c ∷ cs) parsed.values })
        ]
  ]
  parse_from (arg ∷ next ∷ rest) parsed = elim (strip_prefix (codes "--") arg) [
    | none ↦ parse_from (next ∷ rest) parsed
    | some raw ↦
        let (key, inline) = key_and_inline raw in
        if one_of key ("codexBinary" ∷ [])
        then err (codes "--codex-binary is no longer supported; Codex CLI discovery is automatic")
        else if one_of key ("daemon" ∷ "help" ∷ "version" ∷ [])
        then parse_from (next ∷ rest) (record parsed { flags = put key true parsed.flags })
        else elim inline [
          | [] ↦ parse_from rest (record parsed { values = put key next parsed.values })
          | c ∷ cs ↦
              parse_from (next ∷ rest) (record parsed { values = put key (c ∷ cs) parsed.values })
        ]
  ]

  abbrev pub started : List Chars → ParsedArgs
  started [] = record { command = codes "help"; values = []; flags = [] }
  started (first ∷ _) = record { command = first; values = []; flags = [] }

  abbrev pub with_version : ParsedArgs → ParsedArgs
  with_version parsed =
      if is_set "version" parsed then record parsed { command = codes "--version" } else parsed

  unfoldable pub parse_args : List Chars → Result Chars ParsedArgs
  unfolding parse_from named
  parse_args args = parse_from (drop 1 args) (started args) >>= λ parsed. ok (with_version parsed)

-- `string_arg`: the option's value, trimmed, unless nothing is left.
unfoldable pub string_arg : ParsedArgs → String → Option Chars
unfolding named trimmed
string_arg parsed key = trimmed (named (codes key) parsed.values)

unfoldable pub required_u64_arg : ParsedArgs → String → Result Chars ℕ
unfolding string_arg to_kebab_case parse_unsigned
required_u64_arg parsed key = do
  let name = codes "--" ++ to_kebab_case (codes key)
  given ← ok_or (string_arg parsed key) (name ++ codes " is required")
  value ← ok_or (parse_u64 given) (name ++ codes " must be a positive integer")
  ensure (ltb 0 value) (name ++ codes " must be greater than zero")
  ok value
