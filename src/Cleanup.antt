-- ===== src/Cleanup.antt =====
-- crates/newgit-core/src/cleanup.rs: which lane revs a cleanup pass keeps, and which workspaces it removes.
-- What lies on disk is a parameter: the slugs that have checkpoints, the log of each, the trackers with a
-- definition, the lanes, and the head of each. A set is the list of its items, perhaps more than once.
pub mod Purge
pub mod Orphans
pub mod Kept
use newgit.Prelude.{
  ℕ, Bool, true, false, not, ◌&&◌, ◌||◌, Option, none, some, List, [], ◌∷◌, ◌++◌, map, filter, any,
  cons_some, filter_map, ◌==◌, nat_eq, list_eq, pair_eq, if◌then◌else◌, contains,
}
use mathlib.Core.List.{flat_map}
use newgit.Text.{Text, bytes, starts_with}
use newgit.Paths.{
  Component, component_eq, root_dir, cur_dir, parent_dir, normal, components, same_path,
}
use newgit.Resource.{Ownership, per_branch_teardown_may_touch}
use newgit.Branch.{BranchInstance, TrackerBinding}
use newgit.Checkpoint.{TrackerState, ResourceState, CheckpointRecord, parse_tracker_state_ref}

pub data ArchivedCheckpoints : Type 0 where
  keep purge : ArchivedCheckpoints

abbrev pub is_purge : ArchivedCheckpoints → Bool
is_purge purge = true
is_purge keep = false

abbrev pub may_tear_down : Ownership → Bool
may_tear_down ownership = per_branch_teardown_may_touch ownership

-- A tracker and a rev of its lane.
abbrev pub Claimed : Type 0
Claimed = Text × Text

pub record SnapshotRoots : Type 0 where
  pub bindings : List Claimed
  pub checkpoints : List Claimed
  pub archived_checkpoints : List Claimed
  pub lane_heads : List Claimed

abbrev pub with_rev : Text → Option Text → Option Claimed
with_rev tracker none = none
with_rev tracker (some rev) = some (tracker, rev)

unfoldable pub binding_claims : List BranchInstance → List Claimed
binding_claims branches =
    flat_map
      (λ branch.
        filter_map (λ (tracker, binding). with_rev tracker binding.content_rev) branch.trackers)
      branches

abbrev pub ref_claim : Option Text → Option Claimed
ref_claim none = none
ref_claim (some state_ref) = parse_tracker_state_ref state_ref

unfoldable pub record_claims : CheckpointRecord → List Claimed
record_claims r =
    filter_map (λ state. with_rev state.name state.content_rev) r.tracker_states
    ++ filter_map (λ state. ref_claim state.state_ref) r.resource_states

abbrev pub is_live : List BranchInstance → Text → Bool
is_live branches slug = contains (map (λ branch. branch.slug) branches) slug

module _ (log : Text → List CheckpointRecord) where
  abbrev pub log_claims : Text → List Claimed
  log_claims slug = flat_map record_claims (log slug)

  -- The loop over the slugs, with the claims of live instances and of archived ones.
  unfoldable pub claims_loop :
      List BranchInstance
      → ArchivedCheckpoints
      → List Text
      → List Claimed
      → List Claimed
      → List Claimed × List Claimed
  claims_loop branches archived [] live_claims archived_claims = (live_claims, archived_claims)
  claims_loop branches archived (slug ∷ rest) live_claims archived_claims =
      let lives =
        claims_loop branches archived rest (live_claims ++ log_claims slug) archived_claims in
      let skipped = claims_loop branches archived rest live_claims archived_claims in
      let kept =
        claims_loop branches archived rest live_claims (archived_claims ++ log_claims slug) in
      if is_live branches slug then lives else if is_purge archived then skipped else kept

module _ (slugs : List Text) (log : Text → List CheckpointRecord) (defined lanes : List Text)
    (main : Text → Option Text) where
  abbrev pub lane_head : Text → Option Claimed
  lane_head lane = if contains defined lane then with_rev lane (main lane) else none

  abbrev pub roots_of : List BranchInstance → List Claimed × List Claimed → SnapshotRoots
  roots_of branches (live_claims, archived_claims) = record {
    bindings = binding_claims branches;
    checkpoints = live_claims ++ archived_claims;
    archived_checkpoints = filter (λ key. not (contains live_claims key)) archived_claims;
    lane_heads = filter_map lane_head lanes;
  }

  -- `SnapshotRoots::collect`
  unfoldable pub collect : List BranchInstance → ArchivedCheckpoints → SnapshotRoots
  collect branches archived = roots_of branches (claims_loop log branches archived slugs [] [])

module _ (roots : SnapshotRoots) where
  -- `SnapshotRoots::contains`
  abbrev pub keeps_rev : Claimed → Bool
  keeps_rev key =
      contains roots.bindings key || contains roots.checkpoints key || contains roots.lane_heads key

  unfoldable pub pinned_only_by_checkpoints : List Claimed
  pinned_only_by_checkpoints =
      filter (λ key. not (contains roots.bindings key) && not (contains roots.lane_heads key))
        roots.checkpoints

  unfoldable pub pinned_only_by_archived_checkpoints : List Claimed
  pinned_only_by_archived_checkpoints =
      filter (λ key. contains roots.archived_checkpoints key) pinned_only_by_checkpoints

abbrev pub last_name : List Component → Option Text
last_name [] = none
last_name (normal part ∷ []) = some part
last_name (root_dir ∷ []) = none
last_name (cur_dir ∷ []) = none
last_name (parent_dir ∷ []) = none
last_name (c ∷ d ∷ rest) = last_name (d ∷ rest)

abbrev pub names_template : Option Text → Bool
names_template none = false
names_template (some name) = name == bytes ".source-template"

abbrev pub names_sparse_template : Option Text → Bool
names_sparse_template none = false
names_sparse_template (some name) = starts_with name (bytes ".source-template-")

module _ (has_marker is_empty_dir : Text → Bool) (branches : List BranchInstance)
    (templates : List Text) where
  abbrev pub is_claimed : Text → Bool
  is_claimed dir = any (λ branch. same_path branch.workspace_path dir) branches

  abbrev pub is_template : Text → Bool
  is_template dir = any (λ template. same_path template dir) templates

  -- The loop over the directories under the workspace root: what is removed, and what is reported.
  unfoldable pub orphan_workspaces : List Text → List Text × List Text
  orphan_workspaces [] = ([], [])
  orphan_workspaces (dir ∷ dirs) =
      let (orphans, warnings) = orphan_workspaces dirs in
      if is_claimed dir || names_template (last_name (components dir))
      then (orphans, warnings)
      else if names_sparse_template (last_name (components dir))
      then (if is_template dir then (orphans, warnings) else (dir ∷ orphans, warnings))
      else if has_marker dir || is_empty_dir dir
      then (dir ∷ orphans, warnings)
      else (orphans, dir ∷ warnings)
