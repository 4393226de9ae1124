-- ===== src/Server/Reading/Fragments.antt =====
-- A request is read the same however the stream cuts it, and its body is bounded.
use baijimu_codex_connector.Text.Utf8.{from_utf8_lossy}
use baijimu_codex_connector.Json.{unwrap_or}
use baijimu_codex_connector.Prelude.{
  Bool, Bool-cases, Option-cases, [], ap, arith, if◌then◌else◌, inl, inr, length, length-take, none,
  refl, some, suc, take, take-append_le, true, ℕ, ◌++◌, ◌+◌, ◌∷◌, ◌≡◌, ◌≤◌, All, List, Result,
  String, append-nil, append_assoc, false, length-append, ltb, map, ok, sym, ◌<◌, lt→ltb, subst,
  ◌∙◌, >>=-eq-ok, drop, ensure, ensure-eq-ok, leb, length-drop, nat_eq, ok-inj, codes, leb→le,
  nat_eq_iff,
}
use baijimu_codex_connector.Server.Reading.{
  blank_line, find_headers_end, Reads, head_limit, read_body, read_head, HttpRequest, body_limit,
  parse_content_length, parse_request, read_http_request, workspace_of, header, other_lines,
}
use baijimu_codex_connector.Text.Equality.{chars_eq-eq}
use baijimu_codex_connector.Text.{Chars, chars_eq, lines}

-- The blank line stands at the begin.
is_blank : Chars → Bool
is_blank s = chars_eq (take 4 s) blank_line

blank_length : (s : Chars) → is_blank s ≡ true → 4 ≤ length s
unfolding is_blank
blank_length s h =
    let four = ap length (chars_eq-eq (take 4 s) blank_line h) in
    omega (arith, four, length-take 4 s)

is_blank-append : (s t : Chars) → 4 ≤ length s → is_blank (s ++ t) ≡ is_blank s
unfolding is_blank
is_blank-append s t h = rw (take-append_le 4 s t h)

find_step :
    (c : ℕ) (cs : Chars)
    → find_headers_end (c ∷ cs) ≡ (
        if is_blank (c ∷ cs)
        then some 0
        else elim (find_headers_end cs) [ none ↦ none | some n ↦ some (suc n) ])
unfolding find_headers_end is_blank
find_step c cs = refl

found_length : (s : Chars) (n : ℕ) → find_headers_end s ≡ some n → n + 4 ≤ length s
unfolding find_headers_end is_blank
found_length [] n h = cc h
found_length (c ∷ cs) n h = elim (Bool-cases (is_blank (c ∷ cs))) [
  | inl yes_blank ↦ ground (arith, blank_length (c ∷ cs) yes_blank)
  | inr not_blank ↦ elim (Option-cases (find_headers_end cs)) [
    | inl missing ↦ ground arith
    | inr (m, there) ↦ ground (arith, found_length cs m there)
  ]
]

find_headers_end-append :
    (s t : Chars) (n : ℕ) → find_headers_end s ≡ some n → find_headers_end (s ++ t) ≡ some n
unfolding find_headers_end is_blank
find_headers_end-append [] t n h = cc h
find_headers_end-append (c ∷ cs) t n h =
    let long = found_length (c ∷ cs) n h in
    let same = is_blank-append (c ∷ cs) t (omega (arith, long)) in
    elim (Bool-cases (is_blank (c ∷ cs))) [
      | inl here ↦ ground (arith, same)
      | inr later ↦ elim (Option-cases (find_headers_end cs)) [
        | inl missing ↦ ground arith
        | inr (m, there) ↦ ground (arith, same, find_headers_end-append cs t m there)
      ]
    ]

abbrev pub concat : List Chars → Chars
concat [] = []
concat (c ∷ cs) = c ++ concat cs

-- What a stream gives that hands out pieces, none of them empty.
abbrev pub pieces : List Chars → Reads
pieces cs = map ok cs

abbrev pub IsPiece : Chars → Type 0
IsPiece c = 0 < length c

read_body_more :
    (wanted b : ℕ) (bs buffer : Chars) (rs : Reads)
    → ltb (length buffer) wanted ≡ true
    → read_body wanted (ok (b ∷ bs) ∷ rs) buffer ≡ read_body wanted rs (buffer ++ b ∷ bs)
unfolding read_body
read_body_more wanted b bs buffer rs h = rw h

read_body-pieces :
    (cs : List Chars) (buffer : Chars)
    → All IsPiece cs
    → read_body (length (buffer ++ concat cs)) (pieces cs) buffer ≡ ok (buffer ++ concat cs)
unfolding read_body
read_body-pieces [] buffer _ = rw (append-nil buffer)
read_body-pieces ([] ∷ cs) buffer (h, _) = absurd (omega arith)
read_body-pieces ((b ∷ bs) ∷ cs) buffer (h, hs) =
    let rest : Chars = (b ∷ bs) ++ concat cs in
    let more : ltb (length buffer) (length (buffer ++ rest)) ≡ true =
      lt→ltb (length buffer) _ (omega (arith, length-append buffer rest)) in
    let assoc : buffer ++ rest ≡ (buffer ++ b ∷ bs) ++ concat cs =
      sym (append_assoc buffer (b ∷ bs) (concat cs)) in
    read_body_more _ b bs buffer (pieces cs) more
    ∙ rw assoc (read_body-pieces cs (buffer ++ b ∷ bs) hs)

-- The head is found in some of the pieces, and the others are left.
record Found (n : ℕ) (text : Chars) (got : Result String (ℕ × Chars × Reads)) : Type 0 where
  front : Chars
  left_over : List Chars
  result : got ≡ ok (n, front, pieces left_over)
  here : find_headers_end front ≡ some n
  joined : front ++ concat left_over ≡ text
  rest_pieces : All IsPiece left_over

read_head-Found :
    (n : ℕ) (cs : List Chars) (buffer : Chars)
    → All IsPiece cs
    → find_headers_end buffer ≡ none
    → find_headers_end (buffer ++ concat cs) ≡ some n
    → length (buffer ++ concat cs) ≤ head_limit
    → Found n (buffer ++ concat cs) (read_head (pieces cs) buffer)
unfolding read_head
read_head-Found n [] buffer _ open_end found small =
    let same : find_headers_end buffer ≡ some n = rw (append-nil buffer) at found in
    absurd (cc (open_end, same))
read_head-Found n ([] ∷ cs) buffer (h, _) open_end found small = absurd (omega arith)
read_head-Found n ((b ∷ bs) ∷ cs) buffer (h, hs) open_end found small =
    let text : Chars = buffer ++ ((b ∷ bs) ++ concat cs) in
    let assoc : (buffer ++ b ∷ bs) ++ concat cs ≡ text = append_assoc buffer (b ∷ bs) (concat cs) in
    let fits : ltb head_limit (length (buffer ++ b ∷ bs)) ≡ false =
      ground (arith, length-append (buffer ++ b ∷ bs) (concat cs), ap length assoc) in
    elim (Option-cases (find_headers_end (buffer ++ b ∷ bs))) [
      | inl missing ↦ rw fits (
          rw missing (
            subst (λ t. Found n t (read_head (pieces cs) (buffer ++ b ∷ bs))) assoc
              (read_head-Found n cs (buffer ++ b ∷ bs) hs missing (rw assoc found)
                (rw assoc small))))
      | inr (m, there) ↦
          let whole_at : find_headers_end text ≡ some m =
            rw (sym assoc) (find_headers_end-append (buffer ++ b ∷ bs) (concat cs) m there) in
          let same : m ≡ n = cc (whole_at, found) in
          rw fits (
            rw there (record {
              front = buffer ++ b ∷ bs;
              left_over = cs;
              result = rw same;
              here = rw (← same) there;
              joined = assoc;
              rest_pieces = hs;
            }))
    ]

-- A stream that hands out a request of at most 64 KiB in pieces, none of them empty, however it is
-- cut: if the text has a blank line and is as long as its Content-Length says, the request is what
-- the text before the blank line and the body after it say.
pub read_http_request-pieces :
    (n : ℕ) (cs : List Chars)
    → All IsPiece cs
    → find_headers_end (concat cs) ≡ some n
    → length (concat cs) ≤ head_limit
    → length (concat cs) ≡ n + 4 + unwrap_or (parse_content_length (take n (concat cs))) 0
    → read_http_request (pieces cs) ≡ parse_request (take n (concat cs)) (drop (n + 4) (concat cs))
unfolding read_http_request find_headers_end
read_http_request-pieces n cs hs found small exact =
    let f = read_head-Found n cs [] hs refl found small in
    let size = unwrap_or (parse_content_length (take n (concat cs))) 0 in
    let head : take n f.front ≡ take n (concat cs) =
      sym (
        take-append_le n f.front (concat f.left_over)
          (omega (arith, found_length f.front n f.here)))
      ∙ ap (take n) f.joined in
    let body : read_body (n + 4 + size) (pieces f.left_over) f.front ≡ ok (concat cs) =
      subst (λ t. read_body (n + 4 + size) (pieces f.left_over) f.front ≡ ok t) f.joined
        (subst (λ k. read_body k (pieces f.left_over) f.front ≡ ok (f.front ++ concat f.left_over))
          (ap length f.joined ∙ exact) (read_body-pieces f.left_over f.front f.rest_pieces)) in
    let within : leb size body_limit ≡ true = ground (arith, exact, small) in
    let whole_length : nat_eq (length (concat cs)) (n + 4 + size) ≡ true = ground (arith, exact) in
    rw f.result (rw head (rw within (rw body (rw whole_length))))

parse_request-body :
    (head body : Chars) (r : HttpRequest) → parse_request head body ≡ ok r → r.body ≡ body
unfolding parse_request
parse_request-body head body r h =
    let rows = lines (from_utf8_lossy head) in
    let named = header (codes "x-baijimu-workspace-id") (other_lines rows) in
    let (_, _, h1) = >>=-eq-ok (workspace_of named) _ h in
    sym (ap (λ (q : HttpRequest). q.body) (ok-inj _ refl h1))

-- The body of a request that is read is at most 8 MiB.
pub read_http_request_bounded :
    (reads : Reads) (r : HttpRequest) → read_http_request reads ≡ ok r → length r.body ≤ body_limit
unfolding read_http_request
read_http_request_bounded reads r h =
    let (got, _, h1) = >>=-eq-ok (read_head reads []) _ h in
    let size = unwrap_or (parse_content_length (take got.0 got.1)) 0 in
    let (_, within, h2) = >>=-eq-ok (ensure (leb size body_limit) "HTTP body too large") _ h1 in
    let (buffer, _, h3) = >>=-eq-ok (read_body (got.0 + 4 + size) got.2 got.1) _ h2 in
    let (_, exact, h4) =
      >>=-eq-ok (ensure (nat_eq (length buffer) (got.0 + 4 + size)) "HTTP body length mismatch") _
        h3 in
    let same = parse_request-body (take got.0 buffer) (drop (got.0 + 4) buffer) r h4 in
    let short = leb→le size body_limit (ensure-eq-ok _ _ within) in
    let long = (nat_eq_iff (length buffer) (got.0 + 4 + size)).0 (ensure-eq-ok _ _ exact) in
    omega (arith, ap length same, short, long, length-drop (got.0 + 4) buffer)
