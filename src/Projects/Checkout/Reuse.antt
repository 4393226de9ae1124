-- ===== src/Projects/Checkout/Reuse.antt =====
-- What a checkout that succeeds has been seen to be.
use baijimu_codex_connector.Text.{starts_with, trimmed, Chars, chars_eq}
use baijimu_codex_connector.Projects.Device.{Device}
use baijimu_codex_connector.Projects.Checkout.{
  CheckoutRequest, CheckoutResult, branch_fits, check_branch, check_identity, check_origin, config,
  expected_path, git_output, inspect_existing, number_text, projects_root, required_json_string,
}
use baijimu_codex_connector.Projects.CheckingOut.{check_out, directory_of, prepare, run_checkout}
use baijimu_codex_connector.Text.Equality.{chars_eq-eq}
use baijimu_codex_connector.Prelude.{
  ap, arith, codes, ensure-eq-ok, ok, ok_or-eq-ok, some, true, ◌&&◌, ◌≡◌, refl, subst, Bool, false,
  if◌then◌else◌, inl, inr, ◌<◌, ◌⊎◌, List, [], ◌∷◌,
}
use baijimu_codex_connector.Act.{
  continue-eq-ok, ensure-continue, lift-continue, pure-continue, pure-eq-ok,
}

-- A test of two texts against two others.
both_same : (a b c d : Chars) → (chars_eq a b && chars_eq c d) ≡ true → (a ≡ b) × (c ≡ d)
both_same a b c d h = (chars_eq-eq a b (ground arith), chars_eq-eq c d (ground arith))

module _ {S P : Type 0} (device : Device S P) (directory : P) (request : CheckoutRequest) where
  abbrev pub remote_args : List Chars
  remote_args = codes "remote" ∷ codes "get-url" ∷ codes "origin" ∷ []

  abbrev pub branch_args : List Chars
  branch_args = codes "branch" ∷ codes "--show-current" ∷ []

  -- What git prints for a project's identity.
  abbrev pub Identified : S → S → Type 0
  Identified s s' =
      (t : S) × (git_output device directory (config (codes "baijimu.workspaceId")) s
        ≡ (ok (number_text request.workspace_id), t))
      × (git_output device directory (config (codes "baijimu.projectId")) t
          ≡ (ok (number_text request.project_id), s'))

  check_identity-Identified :
      (s s' : S) → check_identity device directory request s ≡ (ok tt, s') → Identified s s'
  unfolding check_identity
  check_identity-Identified s s' h =
      let (w, t, at_w, h) = continue-eq-ok _ _ h in
      let (p, t', at_p, h) = continue-eq-ok _ _ h in
      let (same_w, same_p) = both_same w _ p _ (ensure-eq-ok _ _ (ap (λ r. r.0) h)) in
      let there : t' ≡ s' = ap (λ r. r.1) h in (t, cc (at_w, same_w), cc (at_p, same_p, there))

  -- Git prints the origin, and it has the project's path.
  abbrev pub FromOrigin : Chars → S → S → Type 0
  FromOrigin url s s' =
      (git_output device directory remote_args s ≡ (ok url, s'))
      × (device.url_path url ≡ some (expected_path request))

  check_origin-ok :
      (s s' : S) (url : Chars)
      → check_origin device directory request s ≡ (ok url, s')
      → FromOrigin url s s'
  unfolding check_origin
  check_origin-ok s s' url h =
      let (u, t, at_u, h) = continue-eq-ok _ _ h in
      let (parsed, at_parsed, h) = lift-continue _ _ h in
      let (same, h) = ensure-continue _ _ _ h in
      let there = chars_eq-eq parsed _ same in
      let known = ok_or-eq-ok (device.url_path u) _ at_parsed in
      let same_url : u ≡ url = cc h in
      let same_state : t ≡ s' = ap (λ r. r.1) h in
      (cc (at_u, same_url, same_state), cc (known, there, same_url))

  -- Git prints the current branch: it is in the codex namespace, and if one is asked for, it is that one,
  -- or that one is its last part.
  abbrev pub OnBranch : Chars → S → S → Type 0
  OnBranch branch s s' =
      (git_output device directory branch_args s ≡ (ok branch, s'))
      × (starts_with (codes "codex/") branch ≡ true)
      × (branch_fits branch (trimmed request.branch) ≡ true)

  check_branch-ok :
      (s s' : S) (branch : Chars)
      → check_branch device directory request s ≡ (ok branch, s')
      → OnBranch branch s s'
  unfolding check_branch
  check_branch-ok s s' branch h =
      let (b, t, at_b, h) = continue-eq-ok _ _ h in
      let (own, h) = ensure-continue _ _ _ h in
      let (asked, h) = ensure-continue _ _ _ h in
      let same : b ≡ branch = cc h in
      let there : t ≡ s' = ap (λ r. r.1) h in
      (cc (at_b, same, there), cc (own, same), cc (asked, same))

  -- The result of a directory that is there. Git is asked four times, each time from the state that the
  -- last one left.
  pub record Reused (s s' : S) (result : CheckoutResult) : Type 0 where
    pub at_origin : S
    pub at_branch : S
    pub identified : Identified s at_origin
    pub origin : FromOrigin result.remote_url at_origin at_branch
    pub branch : OnBranch result.branch at_branch s'
    pub same_workspace : result.workspace_id ≡ request.workspace_id
    pub same_project : result.project_id ≡ request.project_id
    pub marked : result.reused ≡ true

  inspect_existing-Reused :
      (s s' : S) (result : CheckoutResult)
      → inspect_existing device directory request s ≡ (ok result, s')
      → Reused s s' result
  unfolding inspect_existing
  inspect_existing-Reused s s' result h =
      let (_, t, at_i, h) = continue-eq-ok _ _ h in
      let (url, t', at_o, h) = continue-eq-ok _ _ h in
      let (branch, u, at_b, h) = continue-eq-ok _ _ h in
      let (canonical, _, h) = lift-continue _ _ h in
      let there : u ≡ s' = ap (λ r. r.1) h in
      subst (Reused s s') (pure-eq-ok h) (record {
        at_origin = t;
        at_branch = t';
        identified = check_identity-Identified s t at_i;
        origin = check_origin-ok t t' url at_o;
        branch = subst (OnBranch branch t') there (check_branch-ok t' u branch at_b);
        same_workspace = refl;
        same_project = refl;
        marked = refl;
      })

  -- The result of a directory that is made: the branch and the origin are what the command reports.
  pub record CheckedOut (s s' : S) (result : CheckoutResult) : Type 0 where
    pub run : run_checkout device directory request s ≡ (ok result.checkout, s')
    pub branch : required_json_string result.checkout "branch" ≡ ok result.branch
    pub origin : required_json_string result.checkout "remoteUrl" ≡ ok result.remote_url
    pub same_workspace : result.workspace_id ≡ request.workspace_id
    pub same_project : result.project_id ≡ request.project_id
    pub marked : result.reused ≡ false

  check_out-CheckedOut :
      (s s' : S) (result : CheckoutResult)
      → check_out device directory request s ≡ (ok result, s')
      → CheckedOut s s' result
  unfolding check_out
  check_out-CheckedOut s s' result h =
      let (checkout, t, at_run, h) = continue-eq-ok _ _ h in
      let (canonical, _, h) = lift-continue _ _ h in
      let (branch, at_b, h) = lift-continue _ _ h in
      let (url, at_u, h) = lift-continue _ _ h in
      let there : t ≡ s' = ap (λ r. r.1) h in
      subst (CheckedOut s s') (pure-eq-ok h) (record {
        run = subst (λ x. run_checkout device directory request s ≡ (ok checkout, x)) there at_run;
        branch = at_b;
        origin = at_u;
        same_workspace = refl;
        same_project = refl;
        marked = refl;
      })

  -- The step that looks whether the directory is there.
  choose-ok :
      (s s' : S) (result : CheckoutResult) (there : Bool)
      → (if there
            then inspect_existing device directory request
            else check_out device directory request)
          s
        ≡ (ok result, s')
      → ((there ≡ true) × Reused s s' result) ⊎ ((there ≡ false) × CheckedOut s s' result)
  choose-ok s s' result true h = inl (refl, inspect_existing-Reused s s' result h)
  choose-ok s s' result false h = inr (refl, check_out-CheckedOut s s' result h)

-- A project is prepared only with two positive numbers and a root. If its directory is there, the result
-- is marked as reused, and git was asked four times, in order: `config` printed these very numbers;
-- `remote get-url origin` printed the result's URL, whose path is the project's; and `branch
-- --show-current` printed the result's branch, which is in the codex namespace and fits the one asked for
-- (is equal to it, or has it as its last part where that is asked for without the namespace). Otherwise
-- the checkout command was run, and the result's branch and URL are those that it reports.
pub prepare-ok :
    {S P : Type 0} (device : Device S P) (request : CheckoutRequest) (s s' : S)
    (result : CheckoutResult)
    → prepare device request s ≡ (ok result, s')
    → (0 < request.workspace_id)
      × (0 < request.project_id)
      × (root : P) × (projects_root device ≡ ok root)
      × (((device.exists (directory_of device root request) s ≡ true)
            × Reused device (directory_of device root request) request s s' result)
          ⊎ ((device.exists (directory_of device root request) s ≡ false)
              × CheckedOut device (directory_of device root request) request s s' result))
unfolding prepare
prepare-ok device request s s' result h =
    let (positive, h) = ensure-continue _ _ _ h in
    let (root, at_root, h) = lift-continue _ _ h in
    (
      ground arith,
      ground arith,
      root,
      at_root,
      choose-ok device (directory_of device root request) request s s' result _
          (pure-continue _ s _ h),
    )
