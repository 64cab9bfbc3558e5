-- ===== src/Checkpoint.antt =====
-- crates/newgit-core/src/checkpoint.rs: the records of an instance's checkpoints and what they answer. A time
-- is a number; a set of names is a list.
use newgit.Prelude.{
  ℕ, Bool, ◌&&◌, Option, none, some, List, [], ◌∷◌, ◌==◌, nat_eq, list_eq, if◌then◌else◌,
}
use newgit.Text.{Text, bytes, starts_with}
use newgit.Compose.{strip_prefix}
use newgit.Resource.Accessors.{or_else, is_empty_list}

pub record CodeState : Type 0 where
  pub head : List (Text × Text)
  pub tip : List (Text × Text)

-- `CodeState::is_empty`
abbrev pub no_code : CodeState → Bool
no_code code = is_empty_list code.head && is_empty_list code.tip

pub data CheckpointReason : Type 0 where
  explicit before_undo pushed : CheckpointReason

pub record SourceState : Type 0 where
  pub head_rev : Text
  pub dirty_rev : Option Text
  pub store_ref : Text
  pub checked_out : Option Text
  pub detached : Bool

unfoldable pub head_branch : SourceState → Text → Option Text
head_branch source own = if source.detached then none else some (or_else source.checked_out own)

pub data OffBranch : Type 0 where
  on_branch : Text → OffBranch
  off_any : OffBranch

-- `OffBranch::of`
abbrev pub off_branch_of : Option Text → Text → Option OffBranch
off_branch_of none own = some off_any
off_branch_of (some head) own = if head == own then none else some (on_branch head)

unfoldable pub off_branch : SourceState → Text → Option OffBranch
off_branch source own = off_branch_of (head_branch source own) own

pub record TrackerState : Type 0 where
  pub name : Text
  pub definition_rev : Text
  pub content_rev : Option Text

pub record ResourceState : Type 0 where
  pub name : Text
  pub definition_rev : Text
  pub mode : Text
  pub state_ref : Option Text
  pub state_path : Option Text
  pub was_running : Bool
  pub resolved_ports : List (Text × ℕ)
  pub resolved_exports : List (Text × Text)
  pub restore_exercisable : Bool
  pub restore_proven : Bool

abbrev pub hash_prefix : Text
hash_prefix = bytes "hash:"

abbrev pub consumable_ref : Option Text → Option Text
consumable_ref none = none
consumable_ref (some state_ref) = if starts_with state_ref hash_prefix then none else some state_ref

abbrev pub path_or : Option Text → Option Text → Option Text
path_or (some path) ref = some path
path_or none ref = ref

unfoldable pub consumable_state_ref : ResourceState → Option Text
consumable_state_ref state = path_or state.state_path (consumable_ref state.state_ref)

pub record CheckpointRecord : Type 0 where
  pub id : Text
  pub branch : Text
  pub created_at : ℕ
  pub message : Option Text
  pub reason : CheckpointReason
  pub undo_completed : Option Bool
  pub source : SourceState
  pub tracker_states : List TrackerState
  pub resource_states : List ResourceState
  pub code : CodeState
  pub dropped : List Text

-- `s.split_once(c)`: around the first `c`.
abbrev pub before_split : ℕ → Option (Text × Text) → Option (Text × Text)
before_split c none = none
before_split c (some (before, after)) = some (c ∷ before, after)

unfoldable pub split_once : ℕ → Text → Option (Text × Text)
split_once sep [] = none
split_once sep (c ∷ s) =
    let rest = before_split c (split_once sep s) in if c == sep then some ([], s) else rest

abbrev pub split_ref : Option Text → Option (Text × Text)
split_ref none = none
split_ref (some rest) = split_once b'@' rest

-- crates/newgit-core/src/tracker_repo.rs: `parse_tracker_state_ref`
unfoldable pub parse_tracker_state_ref : Text → Option (Text × Text)
parse_tracker_state_ref state_ref = split_ref (strip_prefix (bytes "tracker:") state_ref)
