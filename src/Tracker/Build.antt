-- ===== src/Tracker/Build.antt =====
-- crates/newgit-core/src/tracker.rs: the ways a definition is built. The revision of a definition is
-- a digest of its TOML, which other crates write: `compute_definition_rev` is a parameter.
use newgit.Prelude.{
  Bool, true, false, ◌||◌, none, some, List, [], ◌∷◌, ◌++◌, map, any, ◌==◌, nat_eq, list_eq,
  if◌then◌else◌,
}
use newgit.Prelude.Int.{pos}
use newgit.Prelude.Sort.{sort_by}
use newgit.Text.{Text, bytes, cmp, trim_end_matches}
use newgit.Error.{Result, ok, ◌>>=◌, ◌>>◌}
use newgit.Paths.{dot, same_path, is_absolute, climbs, push, normalize_path}
use newgit.Tracker.{
  Storage, local_storage, TrackerDefinition, root_tracker, access_tracker, definitions_dir, is_dot,
}
use newgit.Tracker.Names.{child_id}
use newgit.Tracker.Resolve.{path_cmp}
use newgit.Tracker.Define.{validate}

-- A claim laid onto its tracker's mount.
unfoldable pub place_claim : Text → Text → Text
place_claim mount claim =
    let relative = normalize_path (trim_end_matches b'/' claim) in
    if is_dot mount
    then relative
    else if is_dot relative
    then mount
    else if is_absolute relative || climbs relative
    then relative
    else push mount relative

-- The claims, and the exclusions, which begin with `!`.
unfoldable pub place_claims : Text → List Text → List Text × List Text
place_claims mount [] = ([], [])
place_claims mount ([] ∷ claims) =
    let (paths, exclusions) = place_claims mount claims in
    (place_claim mount [] ∷ paths, exclusions)
place_claims mount ((c ∷ claim) ∷ claims) =
    let (paths, exclusions) = place_claims mount claims in
    if c == b'!'
    then (paths, place_claim mount claim ∷ exclusions)
    else (place_claim mount (c ∷ claim) ∷ paths, exclusions)

-- `nest_under`: where a child's path lies when its parent is mounted at `at`.
unfoldable pub nest_path : Text → Text → Text
nest_path at path = if is_dot path then at else normalize_path (push at path)

unfoldable pub nest_under : Text → Text → TrackerDefinition → TrackerDefinition
nest_under parent at d = record d {
  paths = map (nest_path at) d.paths;
  exclusions = map (nest_path at) d.exclusions;
  mount = nest_path at d.mount;
  name = child_id parent d.name;
  parent = some parent;
}

-- What the ways to build a definition have in common.
abbrev blank : Text → Text → TrackerDefinition
blank name audience = record {
  name = name;
  audience = audience;
  storage = local_storage;
  merge_with_source = true;
  paths = [];
  mount = dot;
  follow = bytes "main";
  claims = [];
  exclusions = [];
  git = false;
  maintainers = none;
  role = none;
  priority = pos 0;
  requires = [];
  resources = [];
  excluded = [];
  parent = none;
  definition_rev = [];
}

module _ (compute_definition_rev : TrackerDefinition → Result Text) where
  -- `validate`, and the revision of what passed it.
  unfoldable pub finish : TrackerDefinition → Result TrackerDefinition
  finish d = do validate d; rev ← compute_definition_rev d; ok (record d { definition_rev = rev })

  unfoldable pub new : Text → Text → Storage → Bool → List Text → Result TrackerDefinition
  new name audience storage merge_with_source paths =
      let normal_paths = map normalize_path paths in
      finish (record (blank name audience) {
        storage = storage;
        merge_with_source = merge_with_source;
        claims = normal_paths;
        paths = normal_paths;
      })

  unfoldable pub in_git : Text → Text → Text → Result TrackerDefinition
  in_git name audience mount =
      let at = normalize_path mount in
      finish (record (blank name audience) {
        paths = at ∷ [];
        mount = at;
        claims = dot ∷ [];
        git = true;
      })

  -- The loop of `with_added_paths`.
  unfoldable pub add_paths : TrackerDefinition → List Text → TrackerDefinition
  add_paths d [] = d
  add_paths d (path ∷ paths) =
      let added = normalize_path path in
      add_paths
        (if any (λ q. same_path q added) d.paths
          then d
          else record d { paths = d.paths ++ added ∷ []; claims = d.claims ++ added ∷ [] })
        paths

  unfoldable pub with_added_paths : TrackerDefinition → List Text → Result TrackerDefinition
  with_added_paths d paths =
      let updated = add_paths d paths in
      finish (record updated {
        paths = sort_by path_cmp updated.paths;
        claims = sort_by cmp updated.claims;
      })

abbrev pub project_devs : Text
project_devs = bytes "project-devs"

-- The definitions that newgit writes itself, but for their revisions.
unfoldable pub root : TrackerDefinition
root = record (blank root_tracker project_devs) { paths = dot ∷ []; claims = dot ∷ []; git = true }

unfoldable pub access : TrackerDefinition
access = record (blank access_tracker project_devs) {
  paths = definitions_dir ∷ [];
  mount = definitions_dir;
  claims = dot ∷ [];
  git = true;
  maintainers = some (bytes "owner");
}
