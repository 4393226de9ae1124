-- ===== src/Http.antt =====
-- The connector's error value (`HttpError` of src/main.rs) and the helpers that make one.
use baijimu_codex_connector.Prelude.{ℕ, String, Option, none, some, [], ◌∷◌, Result}
use baijimu_codex_connector.Json.{Value, string, obj}

pub record HttpError : Type 0 where
  pub status : ℕ
  pub message : String
  pub error_code : Option Value
  pub error_data : Option Value

abbrev pub Http {ℓ} : Type ℓ → Type ℓ
Http A = Result HttpError A

-- `HttpError::new`
unfoldable pub new : ℕ → String → HttpError
new status message = record {
  status = status;
  message = message;
  error_code = none;
  error_data = none;
}

-- `HttpError::internal`
unfoldable pub internal : String → HttpError
unfolding new
internal message = new 500 message

-- `HttpError::coded`
unfoldable pub coded : ℕ → String → String → Value → HttpError
coded status message c payload = record {
  status = status;
  message = message;
  error_code = some (string c);
  error_data = some payload;
}

-- `failure` of src/desktop_ipc.rs
unfoldable pub failure : String → String → HttpError
unfolding coded
failure c message = coded 503 message c (obj (("transport", string "desktop-ipc") ∷ []))
