-- ===== src/Tests/Validate.antt =====
-- A resource definition that passes `validate`.
use native.Mathlib.Decide.{ℕ_discrete}
use newgit.Prelude.{◌≡◌, refl, Bool, true, false, none, some, [], ◌∷◌, nat_eq, list_eq}
use newgit.Text.{Text, bytes, has_substring, split_on}
use newgit.Error.{ok, err, each, invalid_definition, suspend_alone}
use newgit.Paths.{components, component_eq, part_component, relative_components, same_path, under}
use newgit.Resource.{ResourceDefinition, branch, ActionSpec, command_checkpoint, command_restore}
use newgit.Resource.Accessors.{
  get, is_empty_list, autostart_action, producing_action, producing_name, runnable_prepare,
  identity_paths, identity_produces,
}
use newgit.Resource.Validate.{
  check_identity_path, check_identity_paths, check_checkpoint, check_restore,
  check_state_ref_is_recordable, check_checkpoint_restore_pairing, check_produced,
  check_identity_store, check_action, check_suspend_resume_pairing, check_autostarts, check_read,
  check_replacement, check_render, validate,
}
use newgit.Resource.Validate.Inside.{all_inside, validate-inside}
use newgit.Resource.Validate.Recorded.{has_ref, reads_ref, validate-has_ref}
use newgit.Resource.Validate.Running.{both_or_neither, AtMostOneAutostart, validate-runs}
use newgit.Resource.Validate.Producing.{builds_tree, apart, validate-builds}

abbrev runs : Text → Bool → Bool → ActionSpec
runs command long_running autostart = record {
  command = some command;
  workdir = some (bytes "app");
  long_running = long_running;
  autostart = autostart;
  signal = none;
  captures = [];
}

abbrev app : ResourceDefinition
app = record {
  name = bytes "app";
  ownership = branch;
  depends_on = [];
  identity = some (record {
    paths = bytes "lock" ∷ [];
    produces = bytes "node_modules" ∷ [];
    key_command = none;
  });
  workdir = none;
  ports = [];
  exports = [];
  render =
      record {
        path = bytes "app/.env";
        replace =
            record { find_text = bytes "80"; with_text = bytes "{{ports.web}}"; count = none } ∷ [];
      }
      ∷ [];
  reads = some (bytes "app/.env" ∷ []);
  actions =
      (bytes "dev", runs (bytes "npm run dev") true true)
      ∷ (bytes "prepare", runs (bytes "npm ci") false false)
      ∷ (bytes "resume", runs (bytes "up") false false)
      ∷ (bytes "suspend", runs (bytes "down") false false)
      ∷ [];
  checkpoint = some (record {
    mode = command_checkpoint;
    command = some (bytes "dump");
    into_tracker = none;
    state_ref = none;
  });
  restore = some (record {
    mode = command_restore;
    command = some (bytes "load {{state_ref}}");
    action = none;
  });
  cleanup = none;
  definition_rev = [];
}

app_valid : validate app ≡ ok tt
unfolding validate check_identity_paths check_identity_path check_checkpoint check_restore
    check_state_ref_is_recordable check_checkpoint_restore_pairing check_produced
    check_identity_store check_action check_suspend_resume_pairing check_autostarts check_read
    check_replacement check_render each get components component_eq part_component
    relative_components same_path under split_on has_substring nat_eq list_eq ℕ_discrete
app_valid = refl

reads_its_ref : reads_ref app ≡ true
unfolding has_substring nat_eq list_eq ℕ_discrete
reads_its_ref = refl

-- Without its `resume` it is refused.
half :
    validate (record app {
      actions = (bytes "suspend", runs (bytes "down") false false) ∷ [];
      identity = none;
    })
    ≡ err (invalid_definition (bytes "app") suspend_alone)
unfolding validate check_identity_paths check_identity_path check_checkpoint check_restore
    check_state_ref_is_recordable check_checkpoint_restore_pairing check_produced
    check_identity_store check_action check_suspend_resume_pairing check_autostarts check_read
    check_replacement check_render each get components component_eq part_component
    relative_components same_path under split_on has_substring nat_eq list_eq ℕ_discrete
half = refl

validate-inside_example : all_inside app ≡ true
validate-inside_example = validate-inside app app_valid

validate-has_ref_example : has_ref app.checkpoint ≡ true
validate-has_ref_example = validate-has_ref app app_valid reads_its_ref

validate-runs_example :
    (both_or_neither (get (bytes "suspend") app.actions) (get (bytes "resume") app.actions) ≡ true)
    × AtMostOneAutostart (autostart_action app) app.actions
validate-runs_example = validate-runs app app_valid

validate-builds_example :
    (producing_action app ≡ producing_name)
    × (builds_tree (runnable_prepare app) ≡ true)
    × (is_empty_list (identity_paths app) ≡ false)
    × (apart (identity_paths app) (identity_produces app) ≡ true)
validate-builds_example = validate-builds app app_valid refl
