-- ===== src/Server/Reading.antt =====
-- `read_http_request` of src/main.rs. The stream is the list of what its reads give, in order; after
-- the last it is at its end, and an empty read is the end too.
pub mod Fragments
use baijimu_codex_connector.Text.Utf8.{from_utf8_lossy, whole}
use baijimu_codex_connector.Text.Numbers.{parse_u64, parse_unsigned}
use baijimu_codex_connector.Json.{unwrap_or}
use baijimu_codex_connector.Prelude.{
  List, Option, Result, String, [], codes, drop, ensure, err, if◌then◌else◌, leb, ltb, nat_eq, none,
  ok, some, suc, take, zero, ℕ, ◌*◌, ◌++◌, ◌+◌, ◌>>=◌, ◌>>◌, ◌∷◌, length,
}
use baijimu_codex_connector.Text.{
  Chars, chars_eq, eq_ignore_ascii_case, lines, split_once, split_whitespace, trim,
}

abbrev pub Reads : Type 0
Reads = List (Result String Chars)

pub record HttpRequest : Type 0 where
  pub method : Chars
  pub path : Chars
  pub authorization : Option Chars
  pub workspace_id : Option ℕ
  pub body : Chars

abbrev pub head_limit : ℕ
head_limit = 65536

abbrev pub body_limit : ℕ
body_limit = 8 * 1024 * 1024

abbrev pub blank_line : Chars
blank_line = b'\r' ∷ b'\n' ∷ b'\r' ∷ b'\n' ∷ []

-- `find_headers_end`
unfoldable pub find_headers_end : Chars → Option ℕ
unfolding chars_eq
find_headers_end [] = none
find_headers_end (c ∷ cs) =
    let rest = find_headers_end cs in
    if chars_eq (take 4 (c ∷ cs)) blank_line
    then some 0
    else elim rest [ none ↦ none | some n ↦ some (suc n) ]

-- The first header of a name, trimmed.
unfoldable pub header : Chars → List Chars → Option Chars
unfolding split_once eq_ignore_ascii_case trim
header expected [] = none
header expected (line ∷ rest) =
    let others = header expected rest in
    elim (split_once b':' line) [
      | none ↦ others
      | some (name, value) ↦
          if eq_ignore_ascii_case name expected then some (trim value) else others
    ]

-- `parse_content_length`: the request line is looked at like the headers.
unfoldable pub parse_content_length : Chars → Option ℕ
unfolding from_utf8_lossy lines header parse_unsigned
parse_content_length head = elim (header (codes "content-length") (lines (from_utf8_lossy head))) [
  | none ↦ none
  | some value ↦ parse_u64 value
]

-- The loop up to the blank line: its place, the bytes read so far and the reads that are left.
unfoldable pub read_head : Reads → Chars → Result String (ℕ × Chars × Reads)
unfolding find_headers_end
read_head [] buffer = err "connection closed"
read_head (err e ∷ rs) buffer = err e
read_head (ok [] ∷ rs) buffer = err "connection closed"
read_head (ok (b ∷ bs) ∷ rs) buffer =
    let whole = buffer ++ b ∷ bs in
    let more = read_head rs whole in
    if ltb head_limit (length whole)
    then err "HTTP headers too large"
    else elim (find_headers_end whole) [ none ↦ more | some n ↦ ok (n, whole, rs) ]

-- The loop up to the body's length.
unfoldable pub read_body : ℕ → Reads → Chars → Result String Chars
read_body wanted [] buffer = ok buffer
read_body wanted (r ∷ rs) buffer =
    let more = λ (chunk : Chars). read_body wanted rs (buffer ++ chunk) in
    if ltb (length buffer) wanted
    then elim r [ err e ↦ err e | ok [] ↦ ok buffer | ok (b ∷ bs) ↦ more (b ∷ bs) ]
    else ok buffer

abbrev pub nth_word : ℕ → List Chars → Chars
nth_word n [] = []
nth_word zero (w ∷ ws) = w
nth_word (suc n) (w ∷ ws) = nth_word n ws

abbrev pub first_line : List Chars → Chars
first_line [] = []
first_line (l ∷ ls) = l

abbrev pub other_lines : List Chars → List Chars
other_lines [] = []
other_lines (l ∷ ls) = ls

-- The workspace: a number, which counts only if it is positive.
unfoldable pub workspace_of : Option Chars → Result String (Option ℕ)
unfolding parse_unsigned
workspace_of none = ok none
workspace_of (some value) = elim (parse_u64 value) [
  | none ↦ err "x-baijimu-workspace-id must be a positive integer"
  | some n ↦ ok (if ltb 0 n then some n else none)
]

-- The request that the bytes up to the blank line and the body are.
unfoldable pub parse_request : Chars → Chars → Result String HttpRequest
unfolding from_utf8_lossy lines header workspace_of split_whitespace
parse_request head body =
    let rows = lines (from_utf8_lossy head) in
    let words = split_whitespace (first_line rows) in
    workspace_of (header (codes "x-baijimu-workspace-id") (other_lines rows)) >>= λ workspace.
    ok (record {
      method = nth_word 0 words;
      path = nth_word 1 words;
      authorization = header (codes "authorization") (other_lines rows);
      workspace_id = workspace;
      body = body;
    })

unfoldable pub read_http_request : Reads → Result String HttpRequest
unfolding read_head read_body parse_content_length parse_request
read_http_request reads = do
  got ← read_head reads []
  size ← ok (unwrap_or (parse_content_length (take got.0 got.1)) 0)
  ensure (leb size body_limit) "HTTP body too large"
  buffer ← read_body (got.0 + 4 + size) got.2 got.1
  ensure (nat_eq (length buffer) (got.0 + 4 + size)) "HTTP body length mismatch"
  parse_request (take got.0 buffer) (drop (got.0 + 4) buffer)
