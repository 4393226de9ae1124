-- ===== src/History/Cursor.antt =====
-- The opaque cursor of src/desktop_history.rs: `Cursor::new`, `encode` and `decode`. The JSON text of
-- a cursor, as bytes, is made and read by parameters.
pub mod Hex
pub mod RoundTrip
use baijimu_codex_connector.Http.{Http, HttpError, coded}
use baijimu_codex_connector.Json.{Value, get, null, obj, string}
use baijimu_codex_connector.Prelude.{
  length, Bool, Char, List, Option, String, [], all, codes, ensure, err, if◌then◌else◌, leb, ltb,
  nat_eq, none, not, ok, ok_or, some, ℕ, ◌%◌, ◌&&◌, ◌*◌, ◌+◌, ◌-◌, ◌/◌, ◌==◌, ◌>>=◌, ◌>>◌, ◌∷◌,
}
use baijimu_codex_connector.Prelude.Int.{ℤ, pos, negsuc, ltb_ℤ}

abbrev pub Bytes : Type 0
Bytes = List ℕ

pub record Cursor : Type 0 where
  pub version : ℕ
  pub kind : String
  pub thread : String
  pub turn : String
  pub order : String
  pub head : ℤ
  pub ordinal : ℤ
  pub id : String
  pub offset : ℤ
  pub item_version : ℤ
  pub length : ℤ

-- `Cursor::new`
unfoldable pub start : String → String → String → String → ℤ → Cursor
start kind thread turn order head = record {
  version = 1;
  kind = kind;
  thread = thread;
  turn = turn;
  order = order;
  head = head;
  ordinal = negsuc 0;
  id = "";
  offset = pos 0;
  item_version = pos 0;
  length = pos 0;
}

-- `error` of src/desktop_history.rs
unfoldable pub error : String → String → HttpError
unfolding coded
error c message = coded 409 message c (obj [])

abbrev pub bad_cursor : HttpError
bad_cursor = error "INVALID_HISTORY_CURSOR" "分页游标无效或不属于当前查询"

-- A hexadecimal digit, and its value where it is one (either case, as `from_str_radix` reads it).
unfoldable pub digit : ℕ → Char
digit n =
    if nat_eq n 0
    then "0"
    else if nat_eq n 1
    then "1"
    else if nat_eq n 2
    then "2"
    else if nat_eq n 3
    then "3"
    else if nat_eq n 4
    then "4"
    else if nat_eq n 5
    then "5"
    else if nat_eq n 6
    then "6"
    else if nat_eq n 7
    then "7"
    else if nat_eq n 8
    then "8"
    else if nat_eq n 9
    then "9"
    else if nat_eq n 10
    then "a"
    else if nat_eq n 11
    then "b"
    else if nat_eq n 12
    then "c"
    else if nat_eq n 13
    then "d"
    else if nat_eq n 14
    then "e"
    else "f"

unfoldable pub digit_value : ℕ → Option ℕ
digit_value c =
    if leb b'0' c && leb c b'9'
    then some (c - b'0')
    else if leb b'a' c && leb c b'f'
    then some (c - b'a' + 10)
    else if leb b'A' c && leb c b'F'
    then some (c - b'A' + 10)
    else none

-- `format!("{b:02x}")`, collected over the bytes
unfoldable pub hex : Bytes → String
hex [] = String.[]
hex (b ∷ bs) = String.◌∷◌ (digit (b / 16)) (String.◌∷◌ (digit (b % 16)) (hex bs))

-- `u8::from_str_radix(pair, 16)`: a leading plus sign is accepted before the one digit left.
unfoldable pub byte_of : ℕ → ℕ → Option ℕ
byte_of a b = if nat_eq a b'+' then digit_value b else elim (digit_value a) [
  | none ↦ none
  | some hi ↦ elim (digit_value b) [ none ↦ none | some lo ↦ some (16 * hi + lo) ]
]

unfoldable pub unhex : List ℕ → Option Bytes
unhex [] = some []
unhex (a ∷ []) = none
unhex (a ∷ b ∷ rest) = elim (byte_of a b) [
  | none ↦ none
  | some byte ↦ elim (unhex rest) [ none ↦ none | some bytes ↦ some (byte ∷ bytes) ]
]

-- `s.len() <= 8192 && s.len() % 2 == 0 && s.is_ascii()`: for ASCII the bytes are the code points.
unfoldable pub is_encoded : List ℕ → Bool
is_encoded s = all (λ c. ltb c 128) s && leb (length s) 8192 && nat_eq (length s % 2) 0

-- The cursor belongs to the query, and its numbers are possible.
unfoldable pub belongs : String → String → String → String → Cursor → Bool
belongs kind thread turn order c =
    nat_eq c.version 1
    && c.kind == kind
    && c.thread == thread
    && c.turn == turn
    && c.order == order
    && not (ltb_ℤ c.offset (pos 0))
    && not (ltb_ℤ c.head (negsuc 0))
    && not (ltb_ℤ c.ordinal (negsuc 0))

module _ (to_vec : Cursor → Bytes) (from_slice : Bytes → Option Cursor) where
  unfoldable pub encode : Cursor → String
  encode c = hex (to_vec c)

  unfoldable pub decode_text : String → String → String → String → String → Http (Option Cursor)
  decode_text kind thread turn order raw = do
    ensure (is_encoded (codes raw)) bad_cursor
    bytes ← ok_or (unhex (codes raw)) bad_cursor
    cursor ← ok_or (from_slice bytes) bad_cursor
    ensure (belongs kind thread turn order cursor) bad_cursor
    ok (some cursor)

  -- `Cursor::decode`; a missing or null cursor asks for the first page.
  unfoldable pub decode : Value → String → String → String → String → Http (Option Cursor)
  decode body kind thread turn order = elim (get "cursor" body) [
    | none ↦ ok none
    | some null ↦ ok none
    | some (string raw) ↦ decode_text kind thread turn order raw
    | some _ ↦ err bad_cursor
  ]
