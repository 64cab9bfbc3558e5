-- ===== src/Resource/Accessors.antt =====
-- crates/newgit-core/src/resource.rs: what a definition answers about itself.
use newgit.Prelude.{
  Bool, true, false, not, ◌&&◌, ◌||◌, Option, none, some, List, [], ◌∷◌, any, filter, find, ◌==◌,
  nat_eq, list_eq, if◌then◌else◌,
}
use mathlib.Core.List.{flat_map}
use newgit.Text.{Text, bytes, has_substring}
use newgit.Paths.{Component, component_eq, components, cur_dir, under}
use newgit.Resource.{
  ResourceDefinition, IdentitySpec, ActionSpec, CheckpointMode, no_checkpoint, command_checkpoint,
  external_checkpoint, hash_checkpoint, CheckpointSpec, RestoreMode, command_restore,
  recompute_restore, RestoreSpec, RenderSpec,
}

-- `map.get(key)`
unfoldable pub get {ℓ} : {A : Type ℓ} → Text → List (Text × A) → Option A
get key [] = none
get key ((k, value) ∷ entries) = let rest = get key entries in if k == key then some value else rest

abbrev pub is_some {ℓ} : {A : Type ℓ} → Option A → Bool
is_some none = false
is_some (some a) = true

-- `option.is_some_and(test)`
abbrev pub is_some_and {ℓ} : {A : Type ℓ} → Option A → (A → Bool) → Bool
is_some_and none test = false
is_some_and (some a) test = test a

abbrev pub or_else {ℓ} : {A : Type ℓ} → Option A → A → A
or_else none a = a
or_else (some b) a = b

-- `option.and_then(read)`
abbrev pub and_then {ℓ κ} : {A : Type ℓ} {B : Type κ} → Option A → (A → Option B) → Option B
and_then none read = none
and_then (some a) read = read a

abbrev pub or {ℓ} : {A : Type ℓ} → Option A → Option A → Option A
or none o = o
or (some a) o = some a

-- `contains_path`
abbrev pub contains_path : Text → Text → Bool
contains_path outer inner = under inner outer

abbrev pub names_bound : Text → Bool
names_bound template =
    has_substring template (bytes "{{bound.trackers}}")
    || has_substring template (bytes "{{bound.paths}}")

abbrev pub producing_name : Text
producing_name = bytes "prepare"

abbrev pub recompute_action : RestoreSpec → Text
recompute_action restore = or_else restore.action producing_name

abbrev pub is_recompute : RestoreMode → Bool
is_recompute recompute_restore = true
is_recompute _ = false

abbrev pub is_command_restore : RestoreMode → Bool
is_command_restore command_restore = true
is_command_restore _ = false

abbrev pub is_external_checkpoint : CheckpointMode → Bool
is_external_checkpoint external_checkpoint = true
is_external_checkpoint _ = false

abbrev pub is_empty_list {ℓ} : {A : Type ℓ} → List A → Bool
is_empty_list [] = true
is_empty_list (x ∷ xs) = false

abbrev pub is_cur_dir : Component → Bool
is_cur_dir cur_dir = true
is_cur_dir _ = false

abbrev pub is_component_prefix : List Component → List Component → Bool
is_component_prefix [] inner = true
is_component_prefix (part ∷ outer) [] = false
is_component_prefix (part ∷ outer) (candidate ∷ inner) =
    candidate == part && is_component_prefix outer inner

module _ (d : ResourceDefinition) where
  unfoldable pub stop_signal : Text
  stop_signal =
      or_else (and_then (get (bytes "stop") d.actions) (λ action. action.signal)) (bytes "term")

  abbrev pub has_long_running_action : Bool
  has_long_running_action = any (λ (name, action). action.long_running) d.actions

  abbrev pub autostart_action : Option (Text × ActionSpec)
  autostart_action = find (λ (name, action). action.autostart) d.actions

  unfoldable pub runnable_prepare : Option ActionSpec
  runnable_prepare =
      and_then (get producing_name d.actions)
        (λ action. if is_some action.command && not action.long_running then some action else none)

  abbrev pub workdir_for : Option ActionSpec → Option Text
  workdir_for action = or (and_then action (λ a. a.workdir)) d.workdir

  abbrev pub paths_of : Option IdentitySpec → List Text
  paths_of none = []
  paths_of (some spec) = spec.paths

  abbrev pub produces_of : Option IdentitySpec → List Text
  produces_of none = []
  produces_of (some spec) = spec.produces

  abbrev pub identity_paths : List Text
  identity_paths = paths_of d.identity

  abbrev pub identity_produces : List Text
  identity_produces = produces_of d.identity

  abbrev pub renders_into_produced : RenderSpec → Bool
  renders_into_produced spec = any (λ produced. contains_path produced spec.path) identity_produces

  -- A read's components, `.` aside, begin the path's.
  abbrev pub covers_path : Text → Text → Bool
  covers_path path read =
      is_component_prefix (filter (λ part. not (is_cur_dir part)) (components read))
        (components path)

  abbrev pub reads_in : Option (List Text) → Text → Option Bool
  reads_in none path = none
  reads_in (some reads) path = some (any (covers_path path) reads)

  abbrev pub reads_path : Text → Option Bool
  reads_path path = reads_in d.reads path

  abbrev pub identity_key_command : Option Text
  identity_key_command = and_then d.identity (λ spec. spec.key_command)

  abbrev pub spreads_bound : Bool
  spreads_bound =
      any (λ (name, value). names_bound value) d.exports
      || any (λ replacement. names_bound replacement.with_text)
          (flat_map (λ spec. spec.replace) d.render)

  abbrev pub mentions_bound : Bool
  mentions_bound =
      spreads_bound
      || is_some_and identity_key_command names_bound
      || is_some_and d.workdir names_bound
      || any
          (λ (name, action).
            is_some_and action.command names_bound || is_some_and action.workdir names_bound)
          d.actions

  abbrev pub producing_by : Option RestoreSpec → Text
  producing_by none = producing_name
  producing_by (some restore) =
      if is_recompute restore.mode then recompute_action restore else producing_name

  abbrev pub producing_action : Text
  producing_action = producing_by d.restore

  abbrev pub mode_of : Option CheckpointSpec → CheckpointMode
  mode_of none = no_checkpoint
  mode_of (some spec) = spec.mode

  abbrev pub checkpoint_mode : CheckpointMode
  checkpoint_mode = mode_of d.checkpoint

  abbrev pub records_ref : CheckpointMode → Bool
  records_ref command_checkpoint = true
  records_ref external_checkpoint = true
  records_ref no_checkpoint = false
  records_ref hash_checkpoint = false

  abbrev pub restore_reads_checkpoint : Bool
  restore_reads_checkpoint =
      records_ref checkpoint_mode
      && is_some_and d.restore (λ restore. is_command_restore restore.mode)
