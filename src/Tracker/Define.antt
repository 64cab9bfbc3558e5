-- ===== src/Tracker/Define.antt =====
-- crates/newgit-core/src/tracker.rs: how definitions are built and what `validate` refuses.
use newgit.Prelude.{
  Bool, true, false, not, ◌&&◌, ◌||◌, Option, none, some, List, [], ◌∷◌, ◌++◌, map, length, ltb,
  ◌==◌, nat_eq, list_eq, option_eq, if◌then◌else◌,
}
use newgit.Text.{Text, bytes, starts_with, has_substring, is_empty, to_ascii_lowercase}
use newgit.Error.{
  Reason, bad_maintainers, bad_audience, not_the_only_path, bad_follow, not_workspace_relative,
  own_definition, access_definition, definition_outside_git, reserved_path, NewgitError,
  invalid_definition, Result, ok, err, ◌>>◌, guard,
}
use newgit.Paths.{
  Component, root_dir, cur_dir, parent_dir, normal, components, same_path, is_absolute, climbs,
}
use newgit.Tracker.{
  TrackerDefinition, access_tracker, project_tracker, definitions_dir, is_dot, owns_everything,
  carved,
}

-- The last `.` of a file name, with what stands before and behind it.
abbrev pub around_dot : Text → Option (Text × Text)
around_dot [] = none
around_dot (c ∷ s) = elim (around_dot s) [
  | some (before, after) ↦ some (c ∷ before, after)
  | none ↦ if c == b'.' then some ([], s) else none
]

-- `file_stem` and `extension` of a file name: a leading dot begins no extension.
abbrev pub extension_of : Option (Text × Text) → Option Text
extension_of none = none
extension_of (some ([], after)) = none
extension_of (some (c ∷ before, after)) = some after

abbrev pub stem_of : Text → Option (Text × Text) → Text
stem_of name none = name
stem_of name (some ([], after)) = name
stem_of name (some (c ∷ before, after)) = c ∷ before

-- A tracker's definition: the file's name, if `path` is one.
unfoldable pub definition_file : List Component → Option Text
definition_file (normal dir ∷ normal sub ∷ normal file ∷ []) =
    if dir == bytes ".newgit"
      && sub == bytes "trackers"
      && extension_of (around_dot file) == some (bytes "toml")
    then some file
    else none
definition_file _ = none

abbrev pub component_text : Component → Text
component_text root_dir = bytes "/"
component_text cur_dir = bytes "."
component_text parent_dir = bytes ".."
component_text (normal part) = part

abbrev pub first_text : List Component → Text
first_text [] = []
first_text (c ∷ cs) = component_text c

-- `eq_ignore_ascii_case`, with one of the reserved names.
abbrev pub is_reserved : Text → Bool
is_reserved first =
    map to_ascii_lowercase first == bytes ".git" || map to_ascii_lowercase first == bytes ".newgit"

abbrev pub same_paths : List Text → List Text → Bool
same_paths [] [] = true
same_paths (p ∷ ps) (q ∷ qs) = same_path p q && same_paths ps qs
same_paths _ _ = false

-- `is_project`
unfoldable pub is_project : TrackerDefinition → Bool
is_project d =
    (d.name == project_tracker && same_paths d.paths (bytes ".newgit" ∷ []))
    || (d.name == access_tracker && same_paths d.paths (definitions_dir ∷ []))

module _ (d : TrackerDefinition) where
  abbrev pub invalid : Reason → NewgitError
  invalid reason = invalid_definition d.name reason

  abbrev pub check_maintainers : Option Text → Result (Unit {0})
  check_maintainers none = ok tt
  check_maintainers (some m) =
      guard
        (m == bytes "owner"
          || m == bytes "project-devs"
          || (starts_with m (bytes "user:") && ltb (length (bytes "user:")) (length m)))
        (invalid bad_maintainers)

  abbrev pub audience_ok : Text → Bool
  audience_ok a =
      a == bytes "public"
      || a == bytes "project-devs"
      || a == bytes "user"
      || starts_with a (bytes "user:")

  abbrev pub follow_ok : Text → Bool
  follow_ok f =
      not (is_empty f) && not (starts_with f (bytes "-")) && not (has_substring f (bytes ".."))

  abbrev pub check_audience : Result (Unit {0})
  check_audience = guard (audience_ok d.audience) (invalid bad_audience)

  abbrev pub check_only_path : Result (Unit {0})
  check_only_path =
      guard (not (owns_everything d && ltb 1 (length d.paths))) (invalid not_the_only_path)

  abbrev pub check_follow : Result (Unit {0})
  check_follow = guard (follow_ok d.follow) (invalid bad_follow)

  -- The checks of a definition file that some path names.
  unfoldable pub check_definition_file : Text → Text → Result (Unit {0})
  check_definition_file path file =
      let stem = stem_of file (around_dot file) in
      if stem == d.name
      then err (invalid (own_definition path))
      else if stem == access_tracker
      then err (invalid (access_definition path))
      else guard (carved d) (invalid (definition_outside_git path))

  -- One round of the loop over the paths.
  unfoldable pub check_path : Text → Result (Unit {0})
  check_path path =
      if is_dot path || is_project d
      then ok tt
      else if is_absolute path || is_empty path || climbs path
      then err (invalid (not_workspace_relative path))
      else elim (definition_file (components path)) [
        | some file ↦ check_definition_file path file
        | none ↦
            guard (not (is_reserved (first_text (components path)))) (invalid (reserved_path path))
      ]

  unfoldable pub check_paths : List Text → Result (Unit {0})
  check_paths [] = ok tt
  check_paths (path ∷ paths) = check_path path >> check_paths paths

  -- The paths of the loop. The mount is one of them unless it is `.`, or a tracker in Git sits beside
  -- `access`.
  abbrev pub checked_paths : List Text
  checked_paths =
      d.paths
      ++ (d.exclusions
          ++ (if not (is_dot d.mount) && not (d.git && d.mount == definitions_dir)
              then d.mount ∷ []
              else []))

  unfoldable pub validate : Result (Unit {0})
  validate = do
    check_maintainers d.maintainers
    check_audience
    check_only_path
    check_follow
    check_paths checked_paths
