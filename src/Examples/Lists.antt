-- ===== src/Examples/Lists.antt =====
-- The lists of tasks and of projects over a small table.
use baijimu_codex_connector.Catalog.Paths.{project_paths-Exact, among, Ascending}
use baijimu_codex_connector.Catalog.{
  flag, searched, Search, ThreadRow, Threads, matching, next_cursor, page_of, read_search,
}
use baijimu_codex_connector.Catalog.Projects.{project_paths, listed_paths}
use baijimu_codex_connector.Prelude.Int.{eq_ℤ, pos}
use baijimu_codex_connector.Text.{chars_eq}
use baijimu_codex_connector.Prelude.{
  any, ◌&&◌, [], ◌∷◌, List, String, arith, codes, drop, false, none, ok, refl, some, take, true, ℕ,
  ◌≡◌,
}
use baijimu_codex_connector.Catalog.Walk.{pages_from, pages_from_whole}
use baijimu_codex_connector.Catalog.Resume.{read_search-next}
use baijimu_codex_connector.Json.{Object, insert, num, obj, string}

abbrev task : String → String → ℕ → ThreadRow
task id cwd updated = record {
  id = id;
  cwd = cwd;
  title = "Fix the build";
  created_at = pos 1;
  updated_at = pos updated;
  source = "vscode";
  model_provider = "openai";
  archived = pos 0;
  history_mode = "native";
  rollout_path = "/r";
}

abbrev table : Threads
table = record {
  rows = task "a" "/beta" 2 ∷ task "b" "/alpha" 3 ∷ task "c" "/beta" 3 ∷ [];
  fault = none;
}

abbrev request : Object
request = ("limit", num 2) ∷ ("searchTerm", string "BUILD") ∷ []

abbrev first : Search
first = record {
  limit = 2;
  offset = 0;
  filter = record {
    ascending = false;
    by_creation = false;
    archived = false;
    term = "BUILD";
    cwd = "";
  };
}

abbrev ordered : List ThreadRow
ordered = task "c" "/beta" 3 ∷ task "b" "/alpha" 3 ∷ task "a" "/beta" 2 ∷ []

first_lem : read_search (obj request) ≡ ok first
unfolding read_search
first_lem = refl

ordered_test : matching first.filter table ≡ ordered
unfolding matching
ordered_test = refl

first_page : page_of first table ≡ (take 2 ordered, some 2)
unfolding page_of
first_page = refl

read_search-next_example :
    read_search (obj (insert "cursor" (next_cursor (some 2)) request))
    ≡ ok (record first { offset = 2 })
unfolding matching
read_search-next_example =
    read_search-next table request first (take 2 ordered) 2 first_lem first_page (omega arith)

pages_from_whole_example :
    pages_from 4 first table ≡ drop first.offset (matching first.filter table)
unfolding matching
pages_from_whole_example = pages_from_whole 4 first table (omega arith) (omega arith)

paths_test : listed_paths (λ p. true) (obj []) table ≡ "/alpha" ∷ "/beta" ∷ []
unfolding listed_paths
paths_test = refl

project_paths-Exact_example :
    Ascending (project_paths false "" table)
    × (among (codes "/beta") (project_paths false "" table)
        ≡ any
            (λ r.
              (eq_ℤ r.archived (flag false) && searched "" r.cwd)
              && chars_eq (codes "/beta") (codes r.cwd))
            table.rows)
project_paths-Exact_example = project_paths-Exact false "" table (codes "/beta")
