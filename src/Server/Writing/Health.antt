-- ===== src/Server/Writing/Health.antt =====
-- What a server writes as its health, `connector_health` reads.
use baijimu_codex_connector.Process.{body_of, read_health, after_blank, before_blank, max_response}
use baijimu_codex_connector.Text.Decimal.{code-digit}
use baijimu_codex_connector.History.Cursor.{digit}
use baijimu_codex_connector.Text.{Chars, chars_eq, starts_with, strip_prefix}
use baijimu_codex_connector.Json.{Value}
use baijimu_codex_connector.Prelude.{
  All, Bool, List, Result, String, [], all, ap, arith, codes, false, length, ltb, nat_eq, none,
  refl, suc, true, zero, ℕ, ◌++◌, ◌<◌, ◌∷◌, ◌≡◌, ◌≤◌, Bool-cases, append_assoc, code, inl, inr,
  ltb→lt, ◌%◌, ◌/◌, ◌||◌, ◌∙◌, err, if◌then◌else◌,
}
use baijimu_codex_connector.Server.Writing.{write_json, response_head, line_end, reason}
use baijimu_codex_connector.Text.Utf8.{lossy_from, from_utf8_lossy}
use baijimu_codex_connector.Invoke.Input.{decimal, digits}

abbrev pub Printable : ℕ → Type 0
Printable c = (32 ≤ c) × (c < 128)

lossy_from-ascii : (bs : List ℕ) → all (λ b. ltb b 128) bs ≡ true → lossy_from none bs ≡ bs
unfolding lossy_from
lossy_from-ascii [] h = refl
lossy_from-ascii (b ∷ bs) h = ground (arith, lossy_from-ascii bs)

all-append :
    (p : ℕ → Bool) (xs ys : List ℕ) → all p xs ≡ true → all p ys ≡ true → all p (xs ++ ys) ≡ true
all-append p [] ys h k = k
all-append p (x ∷ xs) ys h k = ground (arith, all-append p xs ys)

Printable-ascii : (cs : List ℕ) → All Printable cs → all (λ c. ltb c 128) cs ≡ true
Printable-ascii [] h = refl
Printable-ascii (c ∷ cs) ((_, small), h) = ground (arith, Printable-ascii cs h)

before_blank-Printable : (cs : Chars) → All Printable cs → before_blank cs ≡ cs
unfolding before_blank chars_eq
before_blank-Printable [] h = refl
before_blank-Printable (c ∷ cs) ((big, _), h) =
    let other : nat_eq c b'\r' ≡ false = ground arith in
    rw (other, before_blank) (ap (λ r. c ∷ r) (before_blank-Printable cs h))

after_blank-Printable :
    (cs rest : Chars) → All Printable cs → after_blank (cs ++ rest) ≡ after_blank rest
unfolding after_blank chars_eq
after_blank-Printable [] rest h = refl
after_blank-Printable (c ∷ cs) rest ((big, _), h) =
    let other : nat_eq c b'\r' ≡ false = ground arith in
    rw (other, after_blank) (after_blank-Printable cs rest h)

digit-Printable : (n : ℕ) → n < 10 → Printable (code (digit n))
digit-Printable n small = let e = code-digit n small in (omega (arith, e), omega (arith, e, small))

digits-Printable :
    (fuel n : ℕ) (rest : String)
    → All Printable (codes rest)
    → All Printable (codes (digits fuel n rest))
digits-Printable zero n rest h = h
digits-Printable (suc fuel) n rest h = elim (Bool-cases (ltb n 10)) [
  | inl small ↦ rw small (digit-Printable n (ltb→lt n 10 small), h)
  | inr big ↦ rw big (
      digits-Printable fuel (n / 10) (String.◌∷◌ (digit (n % 10)) rest)
        (digit-Printable (n % 10) (omega arith), h))
]

decimal-Printable : (n : ℕ) → All Printable (codes (decimal n))
decimal-Printable n = digits-Printable (suc n) n "" tt

abbrev before_size : Chars
before_size =
    codes "HTTP/1.1 200 OK"
    ++ (line_end
        ++ (codes "Content-Type: application/json; charset=utf-8"
            ++ (line_end ++ codes "Content-Length: ")))

abbrev after_size : Chars → Chars
after_size body = line_end ++ (codes "Connection: close" ++ (line_end ++ (line_end ++ body)))

abbrev response : Chars → Chars
response body = before_size ++ (codes (decimal (length body)) ++ after_size body)

write_json-response : (body : Chars) → write_json 200 body ≡ response body
unfolding write_json response_head reason digit
write_json-response body =
    ap (λ x. before_size ++ x)
      (append_assoc (codes (decimal (length body))) (line_end ++ codes "Connection: close")
        (line_end ++ (line_end ++ body)))

response-ascii : (body : Chars) → All Printable body → all (λ b. ltb b 128) (response body) ≡ true
response-ascii body printable =
    all-append (λ b. ltb b 128) (codes (decimal (length body))) (after_size body)
      (Printable-ascii (codes (decimal (length body))) (decimal-Printable (length body)))
      (Printable-ascii body printable)

response-body : (body : Chars) → All Printable body → body_of (response body) ≡ body
unfolding body_of after_blank chars_eq
response-body body printable =
    rw
      (
        after_blank-Printable (codes (decimal (length body))) (after_size body)
            (decimal-Printable (length body)),
        body_of,
      )
      (before_blank-Printable body printable)

response-starts :
    (body : Chars)
    → (starts_with (codes "HTTP/1.1 200") (response body)
        || starts_with (codes "HTTP/1.0 200") (response body))
      ≡ true
unfolding starts_with strip_prefix
response-starts body = refl

read_text :
    (parse : Chars → Result String Value) (show : Chars → String) (text body : Chars)
    → (starts_with (codes "HTTP/1.1 200") text || starts_with (codes "HTTP/1.0 200") text) ≡ true
    → body_of text ≡ body
    → (if starts_with (codes "HTTP/1.1 200") text || starts_with (codes "HTTP/1.0 200") text
        then parse (body_of text)
        else err (show text))
      ≡ parse body
read_text parse show text body starts there = rw starts (ap parse there)

-- The health that a server writes, if it is printable ASCII and the whole response is at most 64 KiB, is
-- what `connector_health` gives its parser.
pub read_health-write_json :
    (parse : Chars → Result String Value) (show : Chars → String) (body : Chars)
    → All Printable body
    → length (write_json 200 body) ≤ max_response
    → read_health parse show (write_json 200 body) ≡ parse body
unfolding read_health from_utf8_lossy
read_health-write_json parse show body printable short =
    let small : ltb max_response (length (write_json 200 body)) ≡ false = ground arith in
    let same : from_utf8_lossy (write_json 200 body) ≡ response body =
      ap from_utf8_lossy (write_json-response body)
      ∙ lossy_from-ascii (response body) (response-ascii body printable) in
    rw small (
      rw same (
        read_text parse show (response body) body (response-starts body)
          (response-body body printable)))
