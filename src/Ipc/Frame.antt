-- ===== src/Ipc/Frame.antt =====
-- `read_frame` and `write_frame` of src/desktop_ipc.rs over a list of bytes: four bytes of length,
-- lowest first, and the JSON text. Parsing and printing JSON are parameters.
pub mod RoundTrip
use baijimu_codex_connector.Json.{Value}
use baijimu_codex_connector.Prelude.{
  List, Result, String, [], drop, ensure, err, if◌then◌else◌, leb, length, ltb, nat_eq, not, ok,
  take, ℕ, ◌%◌, ◌*◌, ◌++◌, ◌+◌, ◌/◌, ◌>>=◌, ◌>>◌, ◌^◌, ◌||◌, ◌∷◌,
}

abbrev pub Bytes : Type 0
Bytes = List ℕ

abbrev pub max_frame : ℕ
max_frame = 32 * 1024 * 1024

abbrev pub early_eof : String
early_eof = "early eof"

-- `read_u32_le`
unfoldable pub read_u32_le : Bytes → Result String (ℕ × Bytes)
read_u32_le (a ∷ b ∷ c ∷ d ∷ rest) = ok (a + 256 * (b + 256 * (c + 256 * d)), rest)
read_u32_le _ = err early_eof

-- `write_u32_le(n as u32)`
unfoldable pub u32_le : ℕ → Bytes
u32_le n =
    let w : ℕ = n % 2 ^ 32 in w % 256 ∷ w / 256 % 256 ∷ w / 65536 % 256 ∷ w / 16777216 % 256 ∷ []

-- `read_exact`
unfoldable pub read_exact : ℕ → Bytes → Result String (Bytes × Bytes)
read_exact n bytes = if leb n (length bytes) then ok (take n bytes, drop n bytes) else err early_eof

module _ (parse : Bytes → Result String Value) (print : Value → Result String Bytes) where
  -- `read_frame`: the value and the bytes that stay in the stream.
  unfoldable pub read_frame : Bytes → Result String (Value × Bytes)
  read_frame bytes = do
    head ← read_u32_le bytes
    ensure (not (nat_eq head.0 0 || ltb max_frame head.0)) "invalid IPC frame length"
    body ← read_exact head.0 head.1
    value ← parse body.0
    ok (value, body.1)

  -- `write_frame`: the bytes that go to the stream.
  unfoldable pub write_frame : Value → Result String Bytes
  write_frame value = do
    bytes ← print value
    ensure (not (ltb max_frame (length bytes))) "IPC frame too large"
    ok (u32_le (length bytes) ++ bytes)
