-- ===== src/Examples/Projects.antt =====
-- Directories prepared on a small machine: its state is the list of the directories that are there,
-- a path is its text, and git prints one project's settings.
use baijimu_codex_connector.Projects.Preparation.Fresh.{Prepared, prepare_project-Prepared}
use baijimu_codex_connector.Projects.Preparation.{
  PrepareProject, PreparedProject, new_local_directory, prepare_project,
}
use baijimu_codex_connector.Projects.Checkout.Reuse.{CheckedOut, Reused, prepare-ok}
use baijimu_codex_connector.Http.{new}
use baijimu_codex_connector.Json.{num, obj, string}
use baijimu_codex_connector.Text.{starts_with, Chars, chars_eq, strip_prefix}
use baijimu_codex_connector.Projects.Device.{Arg, Device, normal, text_arg}
use baijimu_codex_connector.Projects.Checkout.{CheckoutRequest, CheckoutResult, projects_root}
use baijimu_codex_connector.Projects.CheckingOut.{prepare, directory_of}
use baijimu_codex_connector.Act.{continue}
use baijimu_codex_connector.History.Cursor.{digit}
use baijimu_codex_connector.Prelude.{
  [], List, any, codes, err, false, if◌then◌else◌, none, ok, refl, some, true, ◌++◌, ◌∷◌, ◌≡◌,
  str_append, ◌<◌, ◌⊎◌, last,
}

abbrev Machine : Type 0
Machine = List Chars

-- The answer by the last argument.
abbrev git_answer : List (Arg Chars) → Chars
git_answer args = elim (last args) [
  | some (text_arg key) ↦
      if chars_eq key (codes "baijimu.workspaceId")
      then codes "7"
      else if chars_eq key (codes "baijimu.projectId")
      then codes "3"
      else if chars_eq key (codes "origin")
      then codes "https://host/git/v1/workspaces/7/projects/3.git"
      else codes "codex/main"
  | _ ↦ []
]

abbrev machine : Device Machine Chars
machine = record {
  projects_dir = some (codes "/projects");
  home_dir = codes "/home";
  baijimu_binary = none;
  of_text = λ s. s;
  to_str = λ p. some p;
  display = λ p. p;
  is_absolute = starts_with (codes "/");
  components = λ p. normal ∷ [];
  join = λ p s. p ++ b'/' ∷ s;
  parent = λ p. some (codes "/projects");
  exists = λ p s. any (chars_eq p) s;
  is_file = λ p s. false;
  is_dir = λ p s. any (chars_eq p) s;
  canonicalize = λ p s. ok p;
  create_dir = λ p s.
      if any (chars_eq p) s
      then (err (record { already_exists = true; description = codes "exists" }), s)
      else (ok tt, p ∷ s);
  create_dir_all = λ p s. (ok tt, p ∷ s);
  output = λ c s. (ok (record { success = true; stdout = git_answer c.args; stderr = [] }), s);
  parse_json = λ b. err [];
  url_path = strip_prefix (codes "https://host");
  from_chars = λ s. "";
}

abbrev work : Chars
work = codes "/work"

abbrev project_there : Chars
project_there = codes "/projects/workspace-7/project-3"

abbrev asked : CheckoutRequest
asked = record { workspace_id = 7; project_id = 3; branch = some (codes " main ") }

abbrev reused : CheckoutResult
reused = record {
  workspace_id = 7;
  project_id = 3;
  directory = project_there;
  branch = codes "codex/main";
  remote_url = codes "https://host/git/v1/workspaces/7/projects/3.git";
  reused = true;
  checkout = obj (
      ("workspaceId", num 7)
      ∷ ("projectId", num 3)
      ∷ ("directory", string "")
      ∷ ("branch", string "")
      ∷ ("remoteUrl", string "")
      ∷ []);
}

reused_lem : prepare machine asked (project_there ∷ []) ≡ (ok reused, project_there ∷ [])
unfolding prepare continue digit
reused_lem = refl

prepare-ok_example :
    (0 < 7)
    × (0 < 3)
    × (root : Chars) × (projects_root machine ≡ ok root)
    × (((machine.exists (directory_of machine root asked) (project_there ∷ []) ≡ true)
          × Reused machine
              (directory_of machine root asked)
              asked
              (project_there ∷ [])
              (project_there ∷ [])
              reused)
        ⊎ ((machine.exists (directory_of machine root asked) (project_there ∷ []) ≡ false)
            × CheckedOut machine
                (directory_of machine root asked)
                asked
                (project_there ∷ [])
                (project_there ∷ [])
                reused))
prepare-ok_example =
    prepare-ok machine asked (project_there ∷ []) (project_there ∷ []) reused reused_lem

abbrev new_app : PrepareProject
new_app = new_local_directory work (codes "app")

abbrev app : PreparedProject
app = record { directory = codes "/work/app"; project_id = none }

new_app_lem :
    prepare_project machine 7 new_app (work ∷ []) ≡ (ok app, codes "/work/app" ∷ work ∷ [])
unfolding prepare_project continue
new_app_lem = refl

prepare_project-Prepared_example :
    (0 < 7) × Prepared machine 7 new_app (work ∷ []) (codes "/work/app" ∷ work ∷ []) app
prepare_project-Prepared_example =
    prepare_project-Prepared machine 7 new_app (work ∷ []) (codes "/work/app" ∷ work ∷ []) app
      new_app_lem

-- A directory that is there is refused with status 409.
taken_test :
    (prepare_project machine 7 new_app (codes "/work/app" ∷ work ∷ [])).0
    ≡ err (new 409 (str_append "创建项目目录失败: " ""))
unfolding prepare_project continue
taken_test = refl
