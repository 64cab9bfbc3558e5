-- ===== src/Resource/Validate/Inside.antt =====
-- The paths of a validated resource definition stay inside the workspace
-- (crates/newgit-core/src/resource.rs: `ResourceDefinition::validate`).
use newgit.Prelude.{
  ◌≡◌, refl, Bool, true, not, ◌&&◌, Option, none, some, List, [], ◌∷◌, all, arith, nat_eq, list_eq,
}
use newgit.Text.{Text, bytes}
use newgit.Error.{Result, ok, >>-eq-ok, each}
use newgit.Paths.{component_eq, is_absolute, climbs}
use newgit.Resource.{ResourceDefinition, IdentitySpec, ActionSpec, RenderSpec}
use newgit.Resource.Accessors.{or_else, paths_of, produces_of, identity_paths, identity_produces}
use newgit.Resource.Validate.{
  check_identity_path, check_identity_paths, check_workdir, check_action, check_read, check_render,
  validate,
}
use newgit.Resource.Validate.Checks.{validate-Passed}

-- Neither absolute nor with a `..` in it.
abbrev pub stays_inside : Text → Bool
stays_inside path = not (is_absolute path) && not (climbs path)

abbrev pub workdir_inside : Option Text → Bool
workdir_inside none = true
workdir_inside (some workdir) = stays_inside workdir

-- Every path that the definition has newgit read, hash, copy or write, and every directory it runs in.
abbrev pub all_inside : ResourceDefinition → Bool
all_inside d =
    all stays_inside (identity_paths d)
    && all stays_inside (identity_produces d)
    && workdir_inside d.workdir
    && all (λ (name, action). workdir_inside action.workdir) d.actions
    && all stays_inside (or_else d.reads [])
    && all (λ spec. stays_inside spec.path) d.render

-- What each check of a loop gives holds of the whole list.
pub all-each :
    {A : Type 0} (p : A → Bool) (check : A → Result (Unit {0}))
    → ((x : A) → check x ≡ ok tt → p x ≡ true)
    → (xs : List A) → each check xs ≡ ok tt
    → all p xs ≡ true
unfolding each
all-each p check f [] h = refl
all-each p check f (x ∷ xs) h =
    let (now, later) = >>-eq-ok (check x) (each check xs) h in
    ground (arith, f x now, all-each p check f xs later)

module _ (d : ResourceDefinition) where
  identity_path-inside :
      (label path : Text) → check_identity_path d label path ≡ ok tt → stays_inside path ≡ true
  unfolding check_identity_path
  identity_path-inside label path h = ground arith

  identity-inside :
      (identity : Option IdentitySpec)
      → check_identity_paths d identity ≡ ok tt
      → (all stays_inside (paths_of d identity) && all stays_inside (produces_of d identity)) ≡ true
  unfolding check_identity_paths
  identity-inside none h = refl
  identity-inside (some identity) h =
      let (p, q) =
        >>-eq-ok (each (check_identity_path d (bytes "identity path")) identity.paths) _ h in
      ground (
        arith,
        all-each stays_inside (check_identity_path d (bytes "identity path"))
            (identity_path-inside (bytes "identity path")) identity.paths p,
        all-each stays_inside (check_identity_path d (bytes "identity `produces` path"))
            (identity_path-inside (bytes "identity `produces` path")) identity.produces q,
      )

  workdir-inside :
      (workdir : Option Text) → check_workdir d workdir ≡ ok tt → workdir_inside workdir ≡ true
  workdir-inside none h = refl
  workdir-inside (some workdir) h = ground arith

  action-inside :
      (action : Text × ActionSpec)
      → check_action d action ≡ ok tt
      → workdir_inside (action.1).workdir ≡ true
  unfolding check_action
  action-inside (name, action) h = workdir-inside action.workdir (ground arith)

  read-inside : (path : Text) → check_read d path ≡ ok tt → stays_inside path ≡ true
  unfolding check_read
  read-inside path h = ground arith

  render-inside : (spec : RenderSpec) → check_render d spec ≡ ok tt → stays_inside spec.path ≡ true
  unfolding check_render
  render-inside spec h = ground arith

  -- Every path of a definition that passes `validate` stays inside the workspace: its identity paths and
  -- those it produces, its working directories, its reads and its render targets.
  pub validate-inside : validate d ≡ ok tt → all_inside d ≡ true
  validate-inside h =
      let p = validate-Passed d h in
      ground (
        arith,
        identity-inside d.identity p.paths,
        workdir-inside d.workdir p.workdir,
        all-each (λ (name, action). workdir_inside action.workdir) (check_action d) action-inside
            d.actions p.actions,
        all-each stays_inside (check_read d) read-inside (or_else d.reads []) p.reads,
        all-each (λ spec. stays_inside spec.path) (check_render d) render-inside d.render p.render,
      )
