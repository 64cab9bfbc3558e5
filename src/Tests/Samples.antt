-- ===== src/Tests/Samples.antt =====
-- Trackers to run the functions on.
use newgit.Prelude.{List, [], ◌∷◌, none, true, false}
use newgit.Prelude.Int.{pos}
use newgit.Text.{Text, bytes}
use newgit.Tracker.{TrackerDefinition, local_storage}

-- A tracker of the name that claims the paths and is mounted at the place.
abbrev pub tracker_at : Text → List Text → Text → TrackerDefinition
tracker_at name paths mount = record {
  name = name;
  audience = bytes "project-devs";
  storage = local_storage;
  merge_with_source = true;
  paths = paths;
  mount = mount;
  follow = bytes "main";
  claims = paths;
  exclusions = [];
  git = false;
  maintainers = none;
  role = none;
  priority = pos 0;
  requires = [];
  resources = [];
  excluded = [];
  parent = none;
  definition_rev = [];
}

abbrev pub tracker : Text → List Text → TrackerDefinition
tracker name paths = tracker_at name paths (bytes ".")

-- A tracker of the whole checkout, one around and inside another, and one mounted in a directory.
abbrev pub root_all : TrackerDefinition
root_all = tracker (bytes "root") (bytes "." ∷ [])

abbrev pub apps : TrackerDefinition
apps = tracker (bytes "apps") (bytes "apps" ∷ bytes "apps/mobile/web" ∷ [])

abbrev pub mobile : TrackerDefinition
mobile = tracker (bytes "mobile") (bytes "apps/mobile" ∷ [])

abbrev pub web : TrackerDefinition
web = tracker_at (bytes "web") (bytes "." ∷ []) (bytes "apps/web")
