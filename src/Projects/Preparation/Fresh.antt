-- ===== src/Projects/Preparation/Fresh.antt =====
-- What a prepared directory has been seen to be, and what its preparation changes.
use baijimu_codex_connector.Projects.Checkout.{CheckoutResult, CheckoutRequest}
use baijimu_codex_connector.Projects.CheckingOut.{prepare}
use baijimu_codex_connector.Http.{HttpError}
use baijimu_codex_connector.Text.{Chars}
use baijimu_codex_connector.Projects.Preparation.{
  PreparedProject, absolute_directory, byte_len, is_clean, local_directory, io, create_directory,
  fits, valid_name, create_at, make_directory, PrepareProject, checkout_project, local_directory_at,
  new_local_directory, workspace_project, as_internal, prepare_checkout, prepare_project,
  project_request,
}
use baijimu_codex_connector.Projects.Device.{Device, IoError}
use baijimu_codex_connector.Prelude.{
  ap, leb→le, none, ok, ok_or-eq-ok, refl, some, subst, true, ◌∙◌, ◌≡◌, ◌≤◌, Bool, Result, arith,
  err, ◌&&◌, sym, ℕ, ◌<◌,
}
use baijimu_codex_connector.Act.{continue-eq-ok, ensure-continue, lift-continue, pure-eq-ok}

module _ {S P : Type 0} (device : Device S P) where
  -- A directory that is there when the state is `s`, under the text that the caller gave.
  pub record Found (value : Chars) (s : S) (prepared : PreparedProject) : Type 0 where
    pub canonical : P
    pub absolute : device.is_absolute (device.of_text value) ≡ true
    pub clean : is_clean value ≡ true
    pub resolved : device.canonicalize (device.of_text value) s ≡ ok canonical
    pub is_a_directory : device.is_dir canonical s ≡ true
    pub written : device.to_str canonical ≡ some prepared.directory
    pub short : byte_len prepared.directory ≤ 1024
    pub no_project : prepared.project_id ≡ none

  io-eq-ok :
      {A : Type 0} (r : Result IoError A) (failed : IoError → HttpError) {a : A}
      → io device r failed ≡ ok a
      → r ≡ ok a
  io-eq-ok (ok b) failed h = cc h
  io-eq-ok (err e) failed h = cc h

  tests_hold : (a b c : Bool) → (a && b && c) ≡ true → (a ≡ true) × (b ≡ true) × (c ≡ true)
  tests_hold a b c h = (ground arith, ground arith, ground arith)

  absolute_directory-ok :
      (value : Chars) (s s' : S) (canonical : P)
      → absolute_directory device value s ≡ (ok canonical, s')
      → (s ≡ s')
        × (device.is_absolute (device.of_text value) ≡ true)
        × (is_clean value ≡ true)
        × (device.canonicalize (device.of_text value) s ≡ ok canonical)
        × (device.is_dir canonical s ≡ true)
  unfolding absolute_directory
  absolute_directory-ok value s s' canonical h =
      let (tests, h) = ensure-continue _ _ _ h in
      let (found, at_found, h) = lift-continue _ _ h in
      let (is_there, h) = ensure-continue _ _ _ h in
      let same : found ≡ canonical = pure-eq-ok h in
      let (absolute, _, clean) = tests_hold _ _ _ tests in
      let resolved = io-eq-ok (device.canonicalize (device.of_text value) s) _ at_found in
      (
        ap (λ r. r.1) h,
        absolute,
        clean,
        subst (λ c. device.canonicalize (device.of_text value) s ≡ ok c) same resolved,
        subst (λ c. device.is_dir c s ≡ true) same is_there,
      )

  local_directory-Found :
      (value : Chars) (s s' : S) (prepared : PreparedProject)
      → local_directory device value s ≡ (ok prepared, s')
      → (s ≡ s') × Found value s prepared
  unfolding local_directory
  local_directory-Found value s s' prepared h =
      let (canonical, t, at_c, h) = continue-eq-ok _ _ h in
      let (text, at_text, h) = lift-continue _ _ h in
      let (short, h) = ensure-continue _ _ _ h in
      let (same, absolute, clean, resolved, there) =
        absolute_directory-ok value s t canonical at_c in
      (
        same ∙ ap (λ r. r.1) h,
        subst (Found value s) (pure-eq-ok h) (record {
          canonical = canonical;
          absolute = absolute;
          clean = clean;
          resolved = resolved;
          is_a_directory = there;
          written = ok_or-eq-ok (device.to_str canonical) _ at_text;
          short = leb→le _ _ short;
          no_project = refl;
        }),
      )

  make_directory-ok :
      (destination : P) (s t : S) (u : Unit {0})
      → make_directory device destination s ≡ (ok u, t)
      → device.create_dir destination s ≡ (ok tt, t)
  make_directory-ok destination s t u h =
      let (made, after) = device.create_dir destination s in
      let e : made ≡ ok u = io-eq-ok made _ (ap (λ r. r.0) h) in cc (e, ap (λ r. r.1) h)

  -- A directory that this very call made: `create_dir` fails where there is one.
  pub record Made (destination : P) (s s' : S) (prepared : PreparedProject) : Type 0 where
    pub given : Chars
    pub fitting : fits device destination ≡ true
    pub created : device.create_dir destination s ≡ (ok tt, s')
    pub text_of : device.to_str destination ≡ some given
    pub found : Found given s' prepared

  create_at-Made :
      (destination : P) (s s' : S) (prepared : PreparedProject)
      → create_at device destination s ≡ (ok prepared, s')
      → Made destination s s' prepared
  unfolding create_at
  create_at-Made destination s s' prepared h =
      let (fitting, h) = ensure-continue _ _ _ h in
      let (u, t, at_made, h) = continue-eq-ok _ _ h in
      let (given, at_given, h) = lift-continue _ _ h in
      let (same, found) = local_directory-Found given t s' prepared h in
      let created = make_directory-ok destination s t u at_made in
      record {
        given = given;
        fitting = fitting;
        created = subst (λ x. device.create_dir destination s ≡ (ok tt, x)) same created;
        text_of = ok_or-eq-ok (device.to_str destination) _ at_given;
        found = subst (λ x. Found given x prepared) same found;
      }

  create_directory-Made :
      (parent name : Chars) (s s' : S) (prepared : PreparedProject)
      → create_directory device parent name s ≡ (ok prepared, s')
      → (valid_name device name ≡ true)
        × (above : P) × (device.canonicalize (device.of_text parent) s ≡ ok above)
        × Made (device.join above name) s s' prepared
  unfolding create_directory
  create_directory-Made parent name s s' prepared h =
      let (valid, h) = ensure-continue _ _ _ h in
      let (above, t, at_above, h) = continue-eq-ok _ _ h in
      let (same, _, _, resolved, _) = absolute_directory-ok parent s t above at_above in
      let made = create_at-Made (device.join above name) t s' prepared h in
      (
        valid,
        above,
        resolved,
        subst (λ x. Made (device.join above name) x s' prepared) (sym same) made,
      )

  as_internal-eq-ok :
      {A : Type 0} (r : Result Chars A) {a : A} → as_internal device r ≡ ok a → r ≡ ok a
  as_internal-eq-ok (ok b) h = cc h
  as_internal-eq-ok (err e) h = cc h

  prepare_checkout-ok :
      (request : CheckoutRequest) (s t : S) (result : CheckoutResult)
      → prepare_checkout device request s ≡ (ok result, t)
      → prepare device request s ≡ (ok result, t)
  prepare_checkout-ok request s t result h =
      let (r, after) = prepare device request s in
      let e : r ≡ ok result = as_internal-eq-ok r (ap (λ r. r.0) h) in cc (e, ap (λ r. r.1) h)

  -- The checkout of a platform project, told by its directory and its number.
  pub CheckedOutAs : ℕ → ℕ → S → S → PreparedProject → Type 0
  CheckedOutAs workspace project s s' prepared =
      (result : CheckoutResult) × (prepare device (project_request device workspace project) s
        ≡ (ok result, s'))
      × (prepared ≡ record { directory = result.directory; project_id = some project })

  checkout_project-CheckedOutAs :
      (workspace project : ℕ) (s s' : S) (prepared : PreparedProject)
      → checkout_project device workspace project s ≡ (ok prepared, s')
      → CheckedOutAs workspace project s s' prepared
  unfolding checkout_project CheckedOutAs
  checkout_project-CheckedOutAs workspace project s s' prepared h =
      let (result, t, at_result, h) = continue-eq-ok _ _ h in
      let there =
        prepare_checkout-ok (project_request device workspace project) s t result at_result in
      (
        result,
        subst (λ x. prepare device (project_request device workspace project) s ≡ (ok result, x))
            (ap (λ r. r.1) h) there,
        sym (pure-eq-ok h),
      )

  -- What each kind of request has found or made when it succeeds.
  pub Prepared : ℕ → PrepareProject → S → S → PreparedProject → Type 0
  Prepared workspace (local_directory_at value) s s' prepared = (s ≡ s') × Found value s prepared
  Prepared workspace (new_local_directory parent name) s s' prepared =
      (valid_name device name ≡ true)
      × (above : P) × (device.canonicalize (device.of_text parent) s ≡ ok above)
      × Made (device.join above name) s s' prepared
  Prepared workspace (workspace_project project) s s' prepared =
      (0 < project) × CheckedOutAs workspace project s s' prepared

-- A preparation that succeeds had a trusted workspace. A directory of the device was there, and
-- nothing is changed. A new one was made by `create_dir` itself under a single name in the parent, so
-- none that was there is taken over, and it is the only change. A platform project has a positive
-- number and is the one that `prepare` of the checkout gives for the workspace.
pub prepare_project-Prepared :
    {S P : Type 0} (device : Device S P) (workspace : ℕ) (request : PrepareProject) (s s' : S)
    (prepared : PreparedProject)
    → prepare_project device workspace request s ≡ (ok prepared, s')
    → (0 < workspace) × Prepared device workspace request s s' prepared
unfolding prepare_project Prepared
prepare_project-Prepared device workspace (local_directory_at value) s s' prepared h =
    let (trusted, h) = ensure-continue _ _ _ h in
    (ground arith, local_directory-Found device value s s' prepared h)
prepare_project-Prepared device workspace (new_local_directory parent name) s s' prepared h =
    let (trusted, h) = ensure-continue _ _ _ h in
    (ground arith, create_directory-Made device parent name s s' prepared h)
prepare_project-Prepared device workspace (workspace_project project) s s' prepared h =
    let (trusted, h) = ensure-continue _ _ _ h in
    let (positive, h) = ensure-continue _ _ _ h in
    (
      ground arith,
      (ground arith, checkout_project-CheckedOutAs device workspace project s s' prepared h),
    )
