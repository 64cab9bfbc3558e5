-- ===== src/Resource/Validate.antt =====
-- crates/newgit-core/src/resource.rs: `ResourceDefinition::validate`, one function per check, in the
-- code's order. A `Reason` stands for the message; every error is an invalid definition of the
-- resource's name.
pub mod Checks
pub mod Inside
pub mod Recorded
pub mod Running
pub mod Producing
use newgit.Prelude.{
  ℕ, Bool, true, false, not, ◌&&◌, ◌||◌, Option, none, some, List, [], ◌∷◌, ◌++◌, map, any, filter,
  find, length, ltb, ◌==◌, nat_eq, list_eq, option_eq, if◌then◌else◌,
}
use newgit.Text.{Text, bytes, is_empty, has_substring}
use newgit.Error.{
  Hint, mode_none, no_checkpoint_declared, mode_hash, Reason, hash_without_paths,
  checkpoint_without_command, external_without_state_ref, restore_without_command,
  external_recompute, suspend_alone, resume_alone, key_without_paths, key_command_without_paths,
  recompute_undefined, built_by_other, built_by_undefined, built_without_command,
  built_long_running, action_empty, long_running_without_command, autostart_not_long_running,
  not_waited_on, workdir_outside, reads_outside, render_empty, render_outside, empty_find,
  identity_path_outside, identity_path_reserved, contains_input, contains_produced,
  count_in_produced, count_zero, state_ref_without_record, built_with_captures, many_autostarts,
  NewgitError, invalid_definition, Result, ok, err, ◌>>◌, guard, each,
}
use newgit.Paths.{
  Component, root_dir, cur_dir, parent_dir, normal, components, same_path, is_absolute, climbs,
}
use newgit.Resource.{
  ResourceDefinition, IdentitySpec, ActionSpec, CheckpointMode, no_checkpoint, hash_checkpoint,
  command_checkpoint, external_checkpoint, CheckpointSpec, RestoreMode, no_restore, command_restore,
  recompute_restore, external_restore, RestoreSpec, Replacement, RenderSpec,
}
use newgit.Resource.Accessors.{
  get, is_some, is_some_and, and_then, or_else, contains_path, producing_name, recompute_action,
  is_recompute, is_command_restore, is_external_checkpoint, is_empty_list, is_cur_dir,
  identity_paths, renders_into_produced, producing_action, checkpoint_mode,
}

abbrev pub is_newgit_dir : Component → Bool
is_newgit_dir (normal part) = part == bytes ".newgit"
is_newgit_dir root_dir = false
is_newgit_dir cur_dir = false
is_newgit_dir parent_dir = false

-- The first component, if it is `.git` or `.newgit`.
abbrev pub reserved_first : List Component → Option Text
reserved_first (normal part ∷ rest) =
    if part == bytes ".git" || part == bytes ".newgit" then some part else none
reserved_first _ = none

abbrev pub state_ref_text : Text
state_ref_text = bytes "{{state_ref}}"

abbrev pub is_count_zero : Option ℕ → Bool
is_count_zero none = false
is_count_zero (some n) = n == 0

module _ (d : ResourceDefinition) where
  abbrev pub invalid : Reason → NewgitError
  invalid reason = invalid_definition d.name reason

  abbrev pub check_reserved : Text → Text → Option Text → Result (Unit {0})
  check_reserved label path none = ok tt
  check_reserved label path (some first) = err (invalid (identity_path_reserved label path first))

  unfoldable pub check_identity_path : Text → Text → Result (Unit {0})
  check_identity_path label path = do
    guard
        (not (is_absolute path || is_empty path || climbs path || any is_cur_dir (components path)))
        (invalid (identity_path_outside label path))
    check_reserved label path (reserved_first (components path))

  unfoldable pub check_identity_paths : Option IdentitySpec → Result (Unit {0})
  check_identity_paths none = ok tt
  check_identity_paths (some identity) = do
    each (check_identity_path (bytes "identity path")) identity.paths
    each (check_identity_path (bytes "identity `produces` path")) identity.produces

  abbrev pub check_mode : CheckpointMode → CheckpointSpec → Result (Unit {0})
  check_mode no_checkpoint checkpoint = ok tt
  check_mode hash_checkpoint checkpoint =
      guard (not (is_empty_list (identity_paths d))) (invalid hash_without_paths)
  check_mode command_checkpoint checkpoint =
      guard (is_some checkpoint.command) (invalid checkpoint_without_command)
  check_mode external_checkpoint checkpoint =
      guard (is_some checkpoint.state_ref) (invalid external_without_state_ref)

  unfoldable pub check_checkpoint : Option CheckpointSpec → Result (Unit {0})
  check_checkpoint none = ok tt
  check_checkpoint (some checkpoint) = check_mode checkpoint.mode checkpoint

  abbrev pub check_restore_mode : RestoreMode → RestoreSpec → Result (Unit {0})
  check_restore_mode no_restore restore = ok tt
  check_restore_mode external_restore restore = ok tt
  check_restore_mode command_restore restore =
      guard (is_some restore.command) (invalid restore_without_command)
  check_restore_mode recompute_restore restore =
      guard (is_some (get (recompute_action restore) d.actions))
        (invalid (recompute_undefined (recompute_action restore)))

  unfoldable pub check_restore : Option RestoreSpec → Result (Unit {0})
  check_restore none = ok tt
  check_restore (some restore) = check_restore_mode restore.mode restore

  abbrev pub ref_hint : CheckpointMode → Bool → Option Hint
  ref_hint no_checkpoint declared = some (if declared then mode_none else no_checkpoint_declared)
  ref_hint hash_checkpoint declared = some mode_hash
  ref_hint command_checkpoint declared = none
  ref_hint external_checkpoint declared = none

  abbrev pub restore_command : Option Text
  restore_command =
      and_then d.restore
        (λ restore. if is_command_restore restore.mode then restore.command else none)

  abbrev pub cleanup_command : Option Text
  cleanup_command = and_then d.cleanup (λ cleanup. cleanup.command)

  abbrev pub uses_state_ref : Option Text → Bool
  uses_state_ref command = is_some_and command (λ c. has_substring c state_ref_text)

  abbrev pub check_ref_use : Option Hint → Result (Unit {0})
  check_ref_use none = ok tt
  check_ref_use (some hint) = do
    guard (not (uses_state_ref restore_command))
        (invalid (state_ref_without_record (bytes "restore") hint))
    guard (not (uses_state_ref cleanup_command))
        (invalid (state_ref_without_record (bytes "cleanup") hint))

  unfoldable pub check_state_ref_is_recordable : Result (Unit {0})
  check_state_ref_is_recordable =
      check_ref_use (ref_hint (checkpoint_mode d) (is_some d.checkpoint))

  unfoldable pub check_checkpoint_restore_pairing : Result (Unit {0})
  check_checkpoint_restore_pairing = do
    guard
        (not (
          is_external_checkpoint (checkpoint_mode d)
          && is_some_and d.restore (λ restore. is_recompute restore.mode)))
        (invalid external_recompute)
    check_state_ref_is_recordable

  abbrev pub check_keyless : IdentitySpec → Result (Unit {0})
  check_keyless identity =
      if is_empty_list identity.paths
      then (do
        guard (is_empty_list identity.produces) (invalid key_without_paths)
        guard (not (is_some identity.key_command)) (invalid key_command_without_paths))
      else ok tt

  abbrev pub check_builder : Text → Option ActionSpec → Result (Unit {0})
  check_builder action none = err (invalid (built_by_undefined action))
  check_builder action (some spec) = do
    guard (is_some spec.command) (invalid (built_without_command action))
    guard (not spec.long_running) (invalid (built_long_running action))
    guard (is_empty_list spec.captures) (invalid (built_with_captures action spec.captures))

  abbrev pub refuse_found : (Text → Reason) → Option Text → Result (Unit {0})
  refuse_found reason none = ok tt
  refuse_found reason (some found) = err (invalid (reason found))

  unfoldable pub check_produced : IdentitySpec → Text → Result (Unit {0})
  check_produced identity produced = do
    refuse_found (contains_input produced) (find (contains_path produced) identity.paths)
    refuse_found (contains_produced produced) (
        find (λ other. not (same_path other produced) && contains_path produced other)
          identity.produces)

  abbrev pub check_filled : IdentitySpec → Result (Unit {0})
  check_filled identity = do
    guard (producing_action d == producing_name) (invalid (built_by_other (producing_action d)))
    check_builder (producing_action d) (get (producing_action d) d.actions)
    each (check_produced identity) identity.produces

  abbrev pub check_produces : IdentitySpec → Result (Unit {0})
  check_produces identity = if is_empty_list identity.produces then ok tt else check_filled identity

  unfoldable pub check_identity_store : Option IdentitySpec → Result (Unit {0})
  check_identity_store none = ok tt
  check_identity_store (some identity) = check_keyless identity >> check_produces identity

  -- `check_workdir_is_workspace_relative`, for a workdir that is given.
  abbrev pub check_workdir : Option Text → Result (Unit {0})
  check_workdir none = ok tt
  check_workdir (some workdir) =
      guard (not (is_absolute workdir || climbs workdir)) (invalid (workdir_outside workdir))

  unfoldable pub check_action : Text × ActionSpec → Result (Unit {0})
  check_action (name, action) = do
    guard (is_some action.command || is_some action.signal) (invalid (action_empty name))
    guard (not (action.long_running && not (is_some action.command)))
        (invalid (long_running_without_command name))
    guard (not (action.autostart && not action.long_running))
        (invalid (autostart_not_long_running name))
    check_workdir action.workdir

  abbrev pub check_waited_on : Text → Option ActionSpec → Result (Unit {0})
  check_waited_on name none = ok tt
  check_waited_on name (some action) =
      guard (is_some action.command && not action.long_running) (invalid (not_waited_on name))

  abbrev pub check_both : Option ActionSpec → Option ActionSpec → Result (Unit {0})
  check_both (some suspend) none = err (invalid suspend_alone)
  check_both none (some resume) = err (invalid resume_alone)
  check_both none none = ok tt
  check_both (some suspend) (some resume) = ok tt

  unfoldable pub check_suspend_resume_pairing : Result (Unit {0})
  check_suspend_resume_pairing = do
    check_waited_on (bytes "suspend") (get (bytes "suspend") d.actions)
    check_waited_on (bytes "resume") (get (bytes "resume") d.actions)
    check_both (get (bytes "suspend") d.actions) (get (bytes "resume") d.actions)

  abbrev pub autostarts : List Text
  autostarts = map (λ (name, action). name) (filter (λ (name, action). action.autostart) d.actions)

  unfoldable pub check_autostarts : Result (Unit {0})
  check_autostarts = guard (not (ltb 1 (length autostarts))) (invalid (many_autostarts autostarts))

  unfoldable pub check_read : Text → Result (Unit {0})
  check_read path = guard (not (is_absolute path || climbs path)) (invalid (reads_outside path))

  unfoldable pub check_replacement : RenderSpec → Replacement → Result (Unit {0})
  check_replacement spec replacement = do
    guard (not (is_empty replacement.find_text)) (invalid (empty_find spec.path))
    guard (not (is_some replacement.count && renders_into_produced d spec))
        (invalid (count_in_produced spec.path replacement.find_text))
    guard (not (is_count_zero replacement.count))
        (invalid (count_zero spec.path replacement.find_text))

  unfoldable pub check_render : RenderSpec → Result (Unit {0})
  check_render spec = do
    guard (not (is_empty_list spec.replace)) (invalid (render_empty spec.path))
    guard
        (not
          (is_absolute spec.path || climbs spec.path || any is_newgit_dir (components spec.path)))
        (invalid (render_outside spec.path))
    each (check_replacement spec) spec.replace

  unfoldable pub validate : Result (Unit {0})
  validate = do
    check_identity_paths d.identity
    check_checkpoint d.checkpoint
    check_restore d.restore
    check_checkpoint_restore_pairing
    check_identity_store d.identity
    check_workdir d.workdir
    each check_action d.actions
    check_suspend_resume_pairing
    check_autostarts
    each check_read (or_else d.reads [])
    each check_render d.render
