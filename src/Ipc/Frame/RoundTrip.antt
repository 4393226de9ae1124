-- ===== src/Ipc/Frame/RoundTrip.antt =====
-- Frames survive the stream, and a bad length is refused before the payload is looked at.
use baijimu_codex_connector.Ipc.Frame.{
  Bytes, max_frame, read_exact, read_frame, read_u32_le, u32_le, write_frame,
}
use baijimu_codex_connector.Json.{Value}
use baijimu_codex_connector.Prelude.{
  Result, String, [], ap, arith, drop, err, leb, length, length-append, ok, refl, take, true, ℕ,
  ◌++◌, ◌<◌, ◌^◌, ◌∷◌, ◌≡◌, ◌⊎◌, append_assoc, ensure, false, ltb, nat_eq, not, ◌>>◌, ◌||◌, ◌≤◌,
}

read_u32_le-u32_le :
    (n : ℕ) (rest : Bytes) → n < 2 ^ 32 → read_u32_le (u32_le n ++ rest) ≡ ok (n, rest)
unfolding read_u32_le u32_le
read_u32_le-u32_le n rest h = ground arith

take-append : (xs ys : Bytes) → take (length xs) (xs ++ ys) ≡ xs
take-append [] ys = refl
take-append (x ∷ xs) ys = ap (◌∷◌ x) (take-append xs ys)

drop-append : (xs ys : Bytes) → drop (length xs) (xs ++ ys) ≡ ys
drop-append [] ys = refl
drop-append (x ∷ xs) ys = drop-append xs ys

read_exact-append : (xs ys : Bytes) → read_exact (length xs) (xs ++ ys) ≡ ok (xs, ys)
unfolding read_exact
read_exact-append xs ys =
    let fits : leb (length xs) (length (xs ++ ys)) ≡ true =
      ground (arith, length-append {0} xs ys) in
    rw (fits, take-append xs ys, drop-append xs ys)

abbrev framed : Bytes → Result String Bytes
framed bytes = do
  ensure (not (ltb max_frame (length bytes))) "IPC frame too large"
  ok (u32_le (length bytes) ++ bytes)

written-small : (text : Bytes) {wire : Bytes} → framed text ≡ ok wire → length text ≤ max_frame
written-small text h = ground arith

written-whole : (text wire : Bytes) → framed text ≡ ok wire → wire ≡ u32_le (length text) ++ text
written-whole text wire h = ground arith

good-length : (n : ℕ) → 0 < n → n ≤ max_frame → (nat_eq n 0 || ltb max_frame n) ≡ false
good-length n p q = ground arith

module _ (parse : Bytes → Result String Value) (print : Value → Result String Bytes) where
  -- A value that prints to a text which parses back arrives as it was sent, and nothing that
  -- follows in the stream is touched. (A JSON text is never empty.)
  pub read_frame-write_frame :
      (v : Value) (text wire rest : Bytes)
      → print v ≡ ok text
      → 0 < length text
      → parse text ≡ ok v
      → write_frame parse print v ≡ ok wire
      → read_frame parse print (wire ++ rest) ≡ ok (v, rest)
  unfolding read_frame write_frame
  read_frame-write_frame v text wire rest a b c h =
      let small : length text ≤ max_frame = written-small text (rw a at h) in
      let whole : wire ≡ u32_le (length text) ++ text = written-whole text wire (rw a at h) in
      rw whole (
        rw
          (
            append_assoc (u32_le (length text)) text rest,
            read_u32_le-u32_le (length text) (text ++ rest) (omega (arith, small)),
          )
          (rw (good-length (length text) b small, read_exact-append text rest, c)))

  -- A length of zero or above 32 MiB is refused whatever follows it.
  pub read_frame_length :
      (n : ℕ) (bytes rest : Bytes)
      → read_u32_le bytes ≡ ok (n, rest)
      → (n ≡ 0) ⊎ (max_frame < n)
      → read_frame parse print bytes ≡ err "invalid IPC frame length"
  unfolding read_frame
  read_frame_length n bytes rest h k = rw h (ground arith)
