-- ===== src/Process/Token.antt =====
-- `load_or_create_management_token` of src/process_runtime.rs.
pub mod Kept
use baijimu_codex_connector.Act.{Act, lift, pure, ◌>>=◌, ◌>>◌}
use baijimu_codex_connector.History.Cursor.{hex}
use baijimu_codex_connector.Invoke.Input.{decimal}
use baijimu_codex_connector.Process.Host.{Host, connector_home, management_token_path}
use baijimu_codex_connector.Process.{long_token}
use baijimu_codex_connector.Text.{Chars, chars_eq, trim}
use baijimu_codex_connector.Prelude.{
  Option, none, some, Result, ok, err, codes, [], ◌∷◌, ◌++◌, ensure, if◌then◌else◌,
}

-- The token of the file, where it is long enough.
unfoldable pub stored_token : Result Chars Chars → Option Chars
unfolding trim
stored_token (err _) = none
stored_token (ok file) = if long_token (trim file) then some (trim file) else none

module _ {S : Type 0} (host : Host S) where
  abbrev pub fresh_token : Act S Chars Chars
  fresh_token s = let (bytes, s') = host.random_bytes 32 s in (ok (codes (hex bytes)), s')

  -- The file is written beside its place and moved there, readable by its owner alone.
  unfoldable pub write_token : Chars → Act S Chars (Unit {0})
  unfolding management_token_path
  write_token token = do
    let path = management_token_path host
    let temporary = host.with_extension path (codes "tmp-" ++ codes (decimal host.process_id))
    host.write temporary (token ++ (b'\n' ∷ []))
    host.set_permissions temporary 0o600
    host.rename temporary path
    host.set_permissions path 0o600

  unfoldable pub read_back : Chars → Act S Chars Chars
  unfolding management_token_path chars_eq trim
  read_back token = do
    persisted ← λ s. (host.read_to_string (management_token_path host) s, s)
    lift (
        ensure (chars_eq (trim persisted) token)
          (codes "management token read-back did not match the generated value"))
    pure token

  unfoldable pub create_management_token : Act S Chars Chars
  unfolding hex write_token read_back
  create_management_token = do token ← fresh_token; write_token token; read_back token

  abbrev pub or_create : Option Chars → Act S Chars Chars
  or_create (some token) = pure token
  or_create none = create_management_token

  unfoldable pub load_or_create_management_token : Act S Chars Chars
  unfolding connector_home management_token_path stored_token create_management_token
  load_or_create_management_token = do
    let home = connector_home host
    host.create_dir_all home
    host.set_permissions home 0o700
    λ s. or_create (stored_token (host.read_to_string (management_token_path host) s)) s
