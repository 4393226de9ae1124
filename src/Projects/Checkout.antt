-- ===== src/Projects/Checkout.antt =====
-- src/project_checkout.rs, with `command` of src/baijimu_cli.rs and `from_slice` of
-- src/json_compat.rs. An error is the text that its outermost context prints.
pub mod Reuse
use baijimu_codex_connector.Text.Utf8.{from_utf8_lossy}
use baijimu_codex_connector.Text.{starts_with, trimmed, Chars, chars_eq, strip_prefix, trim}
use baijimu_codex_connector.Projects.Device.{Command, Device, Output, text_arg, path_arg}
use baijimu_codex_connector.Act.{Act, lift, pure, ◌>>=◌, ◌>>◌}
use baijimu_codex_connector.Invoke.Input.{decimal}
use baijimu_codex_connector.Json.{Value, get, num, obj, string, unwrap_or}
use baijimu_codex_connector.Prelude.{
  Bool, List, Option, Result, String, [], codes, ensure, err, if◌then◌else◌, map, nat_eq, none, not,
  ok, ok_or, some, true, ℕ, ◌&&◌, ◌++◌, ◌||◌, ◌∷◌,
}

-- `strip_utf8_bom`
unfoldable pub strip_utf8_bom : List ℕ → List ℕ
unfolding strip_prefix
strip_utf8_bom bytes = unwrap_or (strip_prefix (0xef ∷ 0xbb ∷ 0xbf ∷ []) bytes) bytes

pub record CheckoutRequest : Type 0 where
  pub workspace_id : ℕ
  pub project_id : ℕ
  pub branch : Option Chars

pub record CheckoutResult : Type 0 where
  pub workspace_id : ℕ
  pub project_id : ℕ
  pub directory : Chars
  pub branch : Chars
  pub remote_url : Chars
  pub reused : Bool
  pub checkout : Value

abbrev pub Checked : Type 0 → Type 0 → Type 0
Checked S A = Act S Chars A

-- `rsplit('/').next()`, given the part since the last separator.
unfoldable pub last_part : Chars → Chars → Chars
last_part part [] = part
last_part part (c ∷ cs) = if nat_eq c b'/' then last_part [] cs else last_part (part ++ c ∷ []) cs

abbrev pub as_text : Option Value → Option Chars
as_text (some (string s)) = some (codes s)
as_text _ = none

unfoldable pub required_json_string : Value → String → Result Chars Chars
unfolding get trimmed
required_json_string value key =
    ok_or (trimmed (as_text (get key value))) (codes "baijimu project checkout 响应缺少" ++ codes key)

-- `context`, on a result and on a step.
abbrev pub or_context : {E A : Type 0} → Result E A → Chars → Result Chars A
or_context (ok a) message = ok a
or_context (err e) message = err message

abbrev pub in_context : {S E A : Type 0} → Act S E A → Chars → Act S Chars A
in_context step message s = let (r, s') = step s in (or_context r message, s')

-- `join(" ")`
unfoldable pub joined : List Chars → Chars
joined [] = []
joined (w ∷ []) = w
joined (w ∷ v ∷ ws) = w ++ codes " " ++ joined (v ∷ ws)

abbrev pub number_text : ℕ → Chars
number_text n = codes (decimal n)

-- The path that the origin of a project has.
unfoldable pub expected_path : CheckoutRequest → Chars
expected_path request =
    codes "/git/v1/workspaces/"
    ++ number_text request.workspace_id
    ++ (codes "/projects/" ++ (number_text request.project_id ++ codes ".git"))

-- Whether the branch of an existing directory is the one that is asked for, if one is.
unfoldable pub branch_fits : Chars → Option Chars → Bool
unfolding chars_eq starts_with last_part
branch_fits branch none = true
branch_fits branch (some requested) =
    chars_eq branch requested
    || (not (starts_with (codes "codex/") requested) && chars_eq (last_part [] branch) requested)

-- `bail!` unless the command ran well.
unfoldable pub succeeded : Output → Result Chars (Unit {0})
unfolding from_utf8_lossy trim
succeeded out = ensure out.success (codes "平台项目检出失败: " ++ trim (from_utf8_lossy out.stderr))

abbrev pub config : Chars → List Chars
config key = codes "config" ∷ codes "--get" ∷ key ∷ []

module _ {S P : Type 0} (device : Device S P) where
  unfoldable pub validate_binary_path : P → Checked S P
  validate_binary_path file s =
      if not (device.is_absolute file)
      then (err (codes "CODEX_CONNECTOR_BAIJIMU_BINARY 必须是绝对路径，不能依赖 PATH 查找"), s)
      else if not (device.is_file file s)
      then (err (codes "Bridge Agent 注入的 baijimu CLI 不存在：" ++ device.display file), s)
      else (ok file, s)

  unfoldable pub binary : Checked S P
  unfolding validate_binary_path
  binary s = elim device.baijimu_binary [
    | some (c ∷ cs) ↦ validate_binary_path (device.of_text (c ∷ cs)) s
    | _ ↦ (err (codes "Bridge Agent 未注入平台管理的 baijimu CLI 绝对路径；请升级或重启 Bridge Agent"), s)
  ]

  unfoldable pub projects_root : Result Chars P
  projects_root =
      let root =
        unwrap_or device.projects_dir
          (device.join (device.join device.home_dir (codes "Baijimu")) (codes "Projects")) in
      if device.is_absolute root then ok root else err (codes "CODEX_CONNECTOR_PROJECTS_DIR必须是绝对路径")

  abbrev pub git_command : P → List Chars → Command P
  git_command directory args = record {
    program = device.of_text (codes "git");
    args = text_arg (codes "-C") ∷ path_arg directory ∷ map text_arg args;
    envs = (codes "GIT_CONFIG_NOSYSTEM", codes "1") ∷ (codes "GIT_TERMINAL_PROMPT", codes "0") ∷ [];
  }

  -- `git -C directory args`, with its output trimmed.
  unfoldable pub git_output : P → List Chars → Checked S Chars
  unfolding from_utf8_lossy trim joined
  git_output directory args = do
    out ←
        in_context (device.output (git_command directory args))
          (codes "执行 git " ++ joined args ++ codes " 失败")
    lift (
        ensure out.success
          (codes "现有目录不是有效的平台 Git checkout: " ++ trim (from_utf8_lossy out.stderr)))
    pure (trim (from_utf8_lossy out.stdout))

  -- `inspect_existing`: whose project the directory is, where it comes from, its branch.
  unfoldable pub check_identity : P → CheckoutRequest → Checked S (Unit {0})
  unfolding chars_eq git_output
  check_identity directory request = do
    workspace_id ← git_output directory (config (codes "baijimu.workspaceId"))
    project_id ← git_output directory (config (codes "baijimu.projectId"))
    lift (
        ensure
          (chars_eq workspace_id (number_text request.workspace_id)
            && chars_eq project_id (number_text request.project_id))
          (codes "目标目录已存在但不属于请求的平台项目，拒绝复用: " ++ device.display directory))

  unfoldable pub check_origin : P → CheckoutRequest → Checked S Chars
  unfolding chars_eq expected_path git_output
  check_origin directory request = do
    remote_url ← git_output directory (codes "remote" ∷ codes "get-url" ∷ codes "origin" ∷ [])
    parsed ← lift (ok_or (device.url_path remote_url) (codes "现有项目 origin URL 无效"))
    lift (ensure (chars_eq parsed (expected_path request)) (codes "现有项目 origin 与请求的平台项目不一致，拒绝复用"))
    pure remote_url

  unfoldable pub check_branch : P → CheckoutRequest → Checked S Chars
  unfolding starts_with trimmed branch_fits git_output
  check_branch directory request = do
    branch ← git_output directory (codes "branch" ∷ codes "--show-current" ∷ [])
    lift (
        ensure (starts_with (codes "codex/") branch) (codes "现有项目当前分支不在 codex 命名空间，拒绝作为 Codex 工作区"))
    lift (
        ensure (branch_fits branch (trimmed request.branch)) (
          codes "现有项目分支与请求分支不一致: current="
          ++ branch
          ++ (codes ", requested=" ++ unwrap_or (trimmed request.branch) [])))
    pure branch

  abbrev pub read_back : P → Chars → Checked S P
  read_back directory message s =
      (or_context (device.canonicalize directory s) (message ++ device.display directory), s)

  unfoldable pub inspect_existing : P → CheckoutRequest → Checked S CheckoutResult
  unfolding check_identity check_origin check_branch
  inspect_existing directory request = do
    check_identity directory request
    remote_url ← check_origin directory request
    branch ← check_branch directory request
    canonical ← read_back directory (codes "现有项目目录回查失败: ")
    pure (record {
      workspace_id = request.workspace_id;
      project_id = request.project_id;
      directory = device.display canonical;
      branch = branch;
      remote_url = remote_url;
      reused = true;
      checkout = obj (
          ("workspaceId", num request.workspace_id)
          ∷ ("projectId", num request.project_id)
          ∷ ("directory", string (device.from_chars (device.display canonical)))
          ∷ ("branch", string (device.from_chars branch))
          ∷ ("remoteUrl", string (device.from_chars remote_url))
          ∷ []);
    })
