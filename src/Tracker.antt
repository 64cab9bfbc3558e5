-- ===== src/Tracker.antt =====
-- crates/newgit-core/src/tracker.rs: a tracker's definition.
pub mod Names
pub mod Ownership
pub mod Greatest
pub mod Owner
pub mod Resolve
pub mod Define
pub mod Gap
pub mod Build
pub mod Reserved
pub mod Conflict
pub mod Taken
pub mod Exclusive
use newgit.Prelude.{
  Bool, true, false, not, ◌&&◌, ◌||◌, Option, none, some, List, [], ◌∷◌, map, any, ◌==◌, nat_eq,
  list_eq, if◌then◌else◌,
}
use newgit.Prelude.Int.{ℤ, pos}
use newgit.Text.{Text, bytes}
use newgit.Paths.{dot, under, normalize_path, push}

pub data Storage : Type 0 where
  local_storage remote_storage : Storage

pub record TrackerDefinition : Type 0 where
  pub name : Text
  pub audience : Text
  pub storage : Storage
  pub merge_with_source : Bool
  pub paths : List Text
  pub mount : Text
  pub follow : Text
  pub claims : List Text
  pub exclusions : List Text
  pub git : Bool
  pub maintainers : Option Text
  pub role : Option Text
  pub priority : ℤ
  pub requires : List Text
  pub resources : List Text
  pub excluded : List Text
  pub parent : Option Text
  pub definition_rev : Text

abbrev pub root_tracker : Text
root_tracker = bytes "root"

abbrev pub access_tracker : Text
access_tracker = bytes "access"

abbrev pub project_tracker : Text
project_tracker = bytes "project"

abbrev pub definitions_dir : Text
definitions_dir = bytes ".newgit/trackers"

-- `.` is compared as text.
abbrev pub is_dot : Text → Bool
is_dot path = path == dot

unfoldable pub owns_everything : TrackerDefinition → Bool
owns_everything d = any is_dot d.paths

unfoldable pub carved : TrackerDefinition → Bool
carved d = d.git && not (owns_everything d)

unfoldable pub mounted : TrackerDefinition → Bool
mounted d = not (is_dot d.mount)

unfoldable pub owns : TrackerDefinition → Text → Bool
owns d relative =
    any (λ path. is_dot path || under relative path) d.paths
    && not (any (λ path. under relative path) d.exclusions)
    && not (any (λ path. under relative path) d.excluded)
