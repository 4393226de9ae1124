-- ===== src/Projects/CheckingOut.antt =====
-- `prepare` of src/project_checkout.rs, with the checkout command that it runs for a directory which is not
-- there.

use baijimu_codex_connector.Text.{trimmed}
use baijimu_codex_connector.Projects.Device.{Arg, Device, text_arg, path_arg}
use baijimu_codex_connector.Act.{lift, pure, ◌>>=◌, ◌>>◌}
use baijimu_codex_connector.Json.{Value}
use baijimu_codex_connector.Prelude.{
  List, [], codes, ensure, false, if◌then◌else◌, ltb, none, ok, ok_or, some, ◌&&◌, ◌++◌, ◌∷◌,
}
use baijimu_codex_connector.Projects.Checkout.{
  strip_utf8_bom, CheckoutRequest, CheckoutResult, Checked, required_json_string, or_context,
  in_context, number_text, succeeded, binary, projects_root, read_back, inspect_existing,
}

module _ {S P : Type 0} (device : Device S P) where
  -- The command that checks a project out.
  unfoldable pub checkout_args : P → CheckoutRequest → List (Arg P)
  unfolding trimmed
  checkout_args directory request =
      text_arg (codes "project")
      ∷ text_arg (codes "checkout")
      ∷ text_arg (number_text request.project_id)
      ∷ text_arg (codes "--workspace-id")
      ∷ text_arg (number_text request.workspace_id)
      ∷ text_arg (codes "--directory")
      ∷ path_arg directory
      ∷ elim (trimmed request.branch) [
        | none ↦ []
        | some branch ↦ text_arg (codes "--branch") ∷ text_arg branch ∷ []
      ]

  -- The steps of `prepare` for a directory that is not there.
  unfoldable pub run_checkout : P → CheckoutRequest → Checked S Value
  unfolding binary checkout_args succeeded strip_utf8_bom
  run_checkout directory request = do
    above ← lift (ok_or (device.parent directory) (codes "平台项目检出目录缺少父目录"))
    in_context (device.create_dir_all above) (codes "创建平台项目目录失败: " ++ device.display directory)
    program ← in_context (binary device) (codes "Bridge Agent 未提供平台管理的 baijimu CLI")
    out ←
        in_context
          (device.output
            (record { program = program; args = checkout_args directory request; envs = [] }))
          (codes "启动 baijimu project checkout 失败；请先安装平台管理的 baijimu CLI")
    lift (succeeded out)
    lift (
        or_context (device.parse_json (strip_utf8_bom out.stdout))
          (codes "baijimu project checkout 未返回合法JSON"))

  unfoldable pub check_out : P → CheckoutRequest → Checked S CheckoutResult
  unfolding run_checkout required_json_string
  check_out directory request = do
    checkout ← run_checkout directory request
    canonical ← read_back device directory (codes "检出目录回查失败: ")
    branch ← lift (required_json_string checkout "branch")
    remote_url ← lift (required_json_string checkout "remoteUrl")
    pure (record {
      workspace_id = request.workspace_id;
      project_id = request.project_id;
      directory = device.display canonical;
      branch = branch;
      remote_url = remote_url;
      reused = false;
      checkout = checkout;
    })

  unfoldable pub directory_of : P → CheckoutRequest → P
  directory_of root request =
      device.join (device.join root (codes "workspace-" ++ number_text request.workspace_id))
        (codes "project-" ++ number_text request.project_id)

  unfoldable pub prepare : CheckoutRequest → Checked S CheckoutResult
  unfolding projects_root directory_of inspect_existing check_out
  prepare request = do
    lift (
        ensure (ltb 0 request.workspace_id && ltb 0 request.project_id)
          (codes "workspaceId和projectId必须大于0"))
    root ← lift (projects_root device)
    let directory = directory_of root request
    existing ← λ s. (ok (device.exists directory s), s)
    if existing then inspect_existing device directory request else check_out directory request
