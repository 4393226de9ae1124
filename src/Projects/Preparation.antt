-- ===== src/Projects/Preparation.antt =====
-- src/project_preparation.rs. The errors of the platform checkout become internal ones.
pub mod Fresh
use baijimu_codex_connector.Text.Utf8.{as_bytes}
use baijimu_codex_connector.Text.{Chars, chars_eq, trim}
use baijimu_codex_connector.Http.{Http, HttpError, internal, new}
use baijimu_codex_connector.Act.{Act, lift, pure, ◌>>=◌, ◌>>◌}
use baijimu_codex_connector.Prelude.{
  [], Bool, List, Option, Result, String, any, ensure, err, false, if◌then◌else◌, leb, length, ltb,
  nat_eq, none, not, ok, ok_or, some, str_append, true, ℕ, ◌&&◌, ◌||◌, ◌∷◌,
}
use baijimu_codex_connector.Projects.Checkout.{CheckoutRequest, CheckoutResult}
use baijimu_codex_connector.Projects.CheckingOut.{prepare}
use baijimu_codex_connector.Projects.Device.{normal, Component, Device, IoError}

pub data PrepareProject : Type 0 where
  local_directory_at : Chars → PrepareProject
  new_local_directory : Chars → Chars → PrepareProject
  workspace_project : ℕ → PrepareProject

pub record PreparedProject : Type 0 where
  pub directory : Chars
  pub project_id : Option ℕ

-- `char::is_control`
abbrev pub is_control : ℕ → Bool
is_control c = leb c 0x1f || (leb 0x7f c && leb c 0x9f)

abbrev pub byte_len : Chars → ℕ
byte_len s = length (as_bytes s)

-- The tests on the text of a directory, and of a new name.
unfoldable pub is_clean : Chars → Bool
unfolding trim chars_eq
is_clean value = not (any is_control value) && chars_eq (trim value) value

unfoldable pub single_normal : List Component → Bool
single_normal (normal ∷ []) = true
single_normal _ = false

unfoldable pub is_separator : ℕ → Bool
is_separator c = nat_eq c b'/' || nat_eq c b'\\' || nat_eq c b':'

abbrev pub bad_directory : HttpError
bad_directory = new 400 "必须提供设备上的绝对目录路径"

module _ {S P : Type 0} (device : Device S P) where
  abbrev pub Answered : Type 0 → Type 0
  Answered A = Act S HttpError A

  unfoldable pub valid_name : Chars → Bool
  unfolding is_clean single_normal is_separator
  valid_name name =
      single_normal (device.components (device.of_text name))
      && not (any is_separator name)
      && is_clean name

  abbrev pub io : {A : Type 0} → Result IoError A → (IoError → HttpError) → Http A
  io (ok a) failed = ok a
  io (err e) failed = err (failed e)

  abbrev pub message : String → IoError → String
  message prefix e = str_append prefix (device.from_chars e.description)

  unfoldable pub absolute_directory : Chars → Answered P
  unfolding is_clean as_bytes
  absolute_directory value = do
    lift (
        ensure
          (device.is_absolute (device.of_text value) && leb (byte_len value) 1024 && is_clean value)
          bad_directory)
    directory ← λ s. (
      io (device.canonicalize (device.of_text value) s) (λ e. new 400 (message "设备目录不可访问: " e)),
      s,
    )
    λ s. (ensure (device.is_dir directory s) (new 400 "所选路径不是目录"), s)
    pure directory

  unfoldable pub local_directory : Chars → Answered PreparedProject
  unfolding absolute_directory as_bytes
  local_directory value = do
    directory ← absolute_directory value
    text ← lift (ok_or (device.to_str directory) (new 400 "目录路径不是有效 UTF-8"))
    lift (ensure (leb (byte_len text) 1024) (new 400 "目录路径超过会话长度限制"))
    pure (record { directory = text; project_id = none })

  unfoldable pub fits : P → Bool
  unfolding as_bytes
  fits destination = elim (device.to_str destination) [
    | none ↦ false
    | some value ↦ leb (byte_len value) 1024
  ]

  unfoldable pub creation_failed : IoError → HttpError
  creation_failed e = new (if e.already_exists then 409 else 400) (message "创建项目目录失败: " e)

  abbrev pub make_directory : P → Answered (Unit {0})
  make_directory destination s =
      (io (device.create_dir destination s).0 creation_failed, (device.create_dir destination s).1)

  -- The steps of `create_directory` once the parent is resolved.
  unfoldable pub create_at : P → Answered PreparedProject
  unfolding fits creation_failed local_directory
  create_at destination = do
    lift (ensure (fits destination) (new 400 "目录路径不是有效 UTF-8 或超过会话长度限制"))
    make_directory destination
    given ← lift (ok_or (device.to_str destination) (new 400 "目录路径不是有效 UTF-8"))
    local_directory given

  unfoldable pub create_directory : Chars → Chars → Answered PreparedProject
  unfolding valid_name absolute_directory create_at
  create_directory parent name = do
    lift (ensure (valid_name name) (new 400 "新项目名称必须是单个目录名"))
    above ← absolute_directory parent
    create_at (device.join above name)

  abbrev pub as_internal : {A : Type 0} → Result Chars A → Http A
  as_internal (ok a) = ok a
  as_internal (err e) = err (internal (device.from_chars e))

  abbrev pub project_request : ℕ → ℕ → CheckoutRequest
  project_request workspace project = record {
    workspace_id = workspace;
    project_id = project;
    branch = none;
  }

  abbrev pub prepare_checkout : CheckoutRequest → Answered CheckoutResult
  prepare_checkout request s =
      (as_internal (prepare device request s).0, (prepare device request s).1)

  unfoldable pub checkout_project : ℕ → ℕ → Answered PreparedProject
  unfolding prepare
  checkout_project workspace project = do
    result ← prepare_checkout (project_request workspace project)
    pure (record { directory = result.directory; project_id = some project })

  unfoldable pub prepare_project : ℕ → PrepareProject → Answered PreparedProject
  unfolding local_directory create_directory checkout_project
  prepare_project workspace request = do
    lift (ensure (ltb 0 workspace) (new 400 "缺少可信工作区"))
    elim request [
      | local_directory_at directory ↦ local_directory directory
      | new_local_directory parent name ↦ create_directory parent name
      | workspace_project project ↦ do
        lift (ensure (ltb 0 project) (new 400 "projectId 必须大于零"))
        checkout_project workspace project
    ]
