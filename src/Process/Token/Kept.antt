-- ===== src/Process/Token/Kept.antt =====
-- The token that a later start finds.
use baijimu_codex_connector.Text.{Chars, trim}
use baijimu_codex_connector.Process.Token.{
  create_management_token, stored_token, or_create, read_back, load_or_create_management_token,
}
use baijimu_codex_connector.Text.Equality.{chars_eq-eq}
use baijimu_codex_connector.Act.{
  continue, pure-continue, pure-eq-ok, continue-eq-ok, ensure-continue, lift-continue,
}
use baijimu_codex_connector.History.Cursor.{hex, digit}
use baijimu_codex_connector.Process.Host.{Host, management_token_path, connector_home}
use baijimu_codex_connector.Process.{long_token}
use baijimu_codex_connector.Text.Ascii.{as_bytes_ascii}
use baijimu_codex_connector.Text.Utf8.{as_bytes}
use baijimu_codex_connector.Prelude.{
  [], ◌∷◌, All, List, Result, arith, code, codes, length, ltb, ltb→lt, ok, refl, some, table-entry,
  table_holds, true, ℕ, ◌%◌, ◌+◌, ◌/◌, ◌<◌, ◌≡◌, Option, ap, err, none, ok-inj, subst, ◌∙◌, Bool,
  false, if◌then◌else◌,
}

digit_table : table_holds (λ n. ltb (code (digit n)) 128) 16 ≡ true
unfolding digit
digit_table = refl

code-digit-lt : (n : ℕ) → n < 16 → code (digit n) < 128
code-digit-lt n h =
    ltb→lt (code (digit n)) 128 (table-entry (λ n. ltb (code (digit n)) 128) 16 n digit_table h)

-- What the hexadecimal form of some bytes is: ASCII, and twice as long.
hex_text :
    (bs : List ℕ)
    → All (λ b. b < 256) bs
    → All (λ c. c < 128) (codes (hex bs)) × (length (codes (hex bs)) ≡ length bs + length bs)
unfolding hex
hex_text [] _ = (tt, omega arith)
hex_text (b ∷ bs) (h, hs) =
    let (ascii, long) = hex_text bs hs in
    (
      (code-digit-lt (b / 16) (omega (arith, h)), (code-digit-lt (b % 16) (omega arith), ascii)),
      omega (arith, long),
    )

long_hex :
    (bs : List ℕ) → All (λ b. b < 256) bs → length bs ≡ 32 → long_token (codes (hex bs)) ≡ true
long_hex bs bytes full =
    let (ascii, long) = hex_text bs bytes in
    let plain : as_bytes (codes (hex bs)) ≡ codes (hex bs) =
      (as_bytes_ascii (codes (hex bs)) (codes (hex bs)) ascii).1 refl in
    rw plain (ground (arith, long, full))

taken :
    (b : Bool) (x token : Chars)
    → (if b then some x else none) ≡ some token
    → (b ≡ true) × (x ≡ token)
taken true x token h = (refl, cc h)
taken false x token h = cc h

module _ {S : Type 0} (host : Host S) where
  abbrev pub Fills : Type 0
  Fills =
      (s : S)
      → (length (host.random_bytes 32 s).0 ≡ 32) × All (λ b. b < 256) (host.random_bytes 32 s).0

  -- The file holds the token, long enough to be taken.
  abbrev pub Stored : Chars → S → Type 0
  Stored token s = stored_token (host.read_to_string (management_token_path host) s) ≡ some token

  stored_by :
      (r : Result Chars Chars) (file token : Chars)
      → r ≡ ok file
      → trim file ≡ token
      → long_token token ≡ true
      → stored_token r ≡ some token
  unfolding stored_token
  stored_by (ok text) file token there same long =
      let e : trim text ≡ token = ap trim (ok-inj _ refl there) ∙ same in rw e (rw long)
  stored_by (err e) file token there same long = cc there

  stored_long :
      (r : Result Chars Chars) (token : Chars)
      → stored_token r ≡ some token
      → long_token token ≡ true
  unfolding stored_token
  stored_long (err e) token h = cc h
  stored_long (ok file) token h =
      let (long, same) = taken (long_token (trim file)) (trim file) token h in
      subst (λ x. long_token x ≡ true) same long

  read_back-Stored :
      (fresh token : Chars) (s s' : S)
      → long_token fresh ≡ true
      → read_back host fresh s ≡ (ok token, s')
      → Stored token s'
  unfolding read_back
  read_back-Stored fresh token s s' long h =
      let (file, read, h) = lift-continue _ _ h in
      let (same, h) = ensure-continue _ _ _ h in
      let here : s ≡ s' = ap (λ r. r.1) h in
      let there = stored_by _ file fresh read (chars_eq-eq (trim file) fresh same) long in
      subst (λ x. Stored x s') (pure-eq-ok h) (subst (Stored fresh) here there)

  create_management_token-Stored :
      (s s' : S) (token : Chars)
      → Fills
      → create_management_token host s ≡ (ok token, s')
      → Stored token s'
  unfolding create_management_token
  create_management_token-Stored s s' token fills h =
      let (bytes, t) = host.random_bytes 32 s in
      let h = pure-continue (codes (hex bytes)) t _ h in
      let (_, t', _, h) = continue-eq-ok _ _ h in
      let (full, small) = fills s in
      read_back-Stored (codes (hex bytes)) token t' s' (long_hex bytes small full) h

  or_create-Stored :
      (found : Option Chars) (s s' : S) (token : Chars)
      → Fills
      → stored_token (host.read_to_string (management_token_path host) s) ≡ found
      → or_create host found s ≡ (ok token, s')
      → Stored token s'
  or_create-Stored none s s' token fills e h = create_management_token-Stored s s' token fills h
  or_create-Stored (some old) s s' token fills e h =
      let here : s ≡ s' = ap (λ r. r.1) h in
      subst (λ x. Stored x s') (pure-eq-ok h) (subst (Stored old) here e)

  -- The two steps on the connector's directory, before the file is looked for.
  pub prepared-Stored :
      (s s' : S) (token : Chars)
      → Fills
      → load_or_create_management_token host s ≡ (ok token, s')
      → Stored token s'
  unfolding load_or_create_management_token
  prepared-Stored s s' token fills h =
      let (_, t, _, h) = continue-eq-ok _ _ h in
      let (_, t', _, h) = continue-eq-ok _ _ h in or_create-Stored _ t' s' token fills refl h

-- A start that has its token leaves it, 32 bytes or longer, in the file: the next start, from there on,
-- has the same token and makes none, if the directory is there and can be restricted again, which leaves
-- the file as it reads, and if random bytes are bytes and as many as are asked for.
pub load_or_create_management_token-twice :
    {S : Type 0} (host : Host S) (s s' t t' : S) (token : Chars)
    → Fills host
    → load_or_create_management_token host s ≡ (ok token, s')
    → host.create_dir_all (connector_home host) s' ≡ (ok tt, t)
    → host.set_permissions (connector_home host) 0o700 t ≡ (ok tt, t')
    → host.read_to_string (management_token_path host) t'
      ≡ host.read_to_string (management_token_path host) s'
    → (long_token token ≡ true) × (load_or_create_management_token host s' ≡ (ok token, t'))
unfolding load_or_create_management_token continue
load_or_create_management_token-twice host s s' t t' token fills h made restricted same =
    let stored = prepared-Stored host s s' token fills h in
    let again : stored_token (host.read_to_string (management_token_path host) t') ≡ some token =
      ap stored_token same ∙ stored in
    (
      stored_long host (host.read_to_string (management_token_path host) s') token stored,
      rw made (rw restricted (rw again refl)),
    )
