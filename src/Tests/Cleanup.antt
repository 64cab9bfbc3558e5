-- ===== src/Tests/Cleanup.antt =====
-- Cleanup passes over a live and an archived instance.
use native.Mathlib.Decide.{ℕ_discrete}
use newgit.Prelude.{
  ◌≡◌, refl, inl, true, false, not, ◌&&◌, none, some, List, [], ◌∷◌, all, nat_eq, list_eq, pair_eq,
  contains,
}
use newgit.Text.{Text, bytes}
use newgit.Checkpoint.{explicit, CheckpointRecord, parse_tracker_state_ref, split_once}
use newgit.Cleanup.{
  keep, record_claims, keeps_rev, collect, pinned_only_by_archived_checkpoints, orphan_workspaces,
}
use newgit.Cleanup.Purge.{purge-releases, kept_roots, purged_roots}
use newgit.Cleanup.Kept.{collect-keeps}
use newgit.Cleanup.Orphans.{orphan_workspaces-safe, may_remove, must_report}

abbrev taken : Text → CheckpointRecord
taken rev = record {
  id = bytes "ckpt_001";
  branch = bytes "b";
  created_at = 0;
  message = none;
  reason = explicit;
  undo_completed = none;
  source = record {
    head_rev = bytes "h";
    dirty_rev = none;
    store_ref = bytes "r";
    checked_out = none;
    detached = false;
  };
  tracker_states = record { name = bytes "t"; definition_rev = []; content_rev = some rev } ∷ [];
  resource_states =
      record {
        name = bytes "db";
        definition_rev = [];
        mode = bytes "command";
        state_ref = some (bytes "tracker:dumps@5");
        state_path = none;
        was_running = false;
        resolved_ports = [];
        resolved_exports = [];
        restore_exercisable = true;
        restore_proven = false;
      }
      ∷ [];
  code = record { head = []; tip = [] };
  dropped = [];
}

abbrev log : Text → List CheckpointRecord
log slug = taken slug ∷ []

claims_of :
    record_claims (taken (bytes "9")) ≡ (bytes "t", bytes "9") ∷ (bytes "dumps", bytes "5") ∷ []
unfolding record_claims parse_tracker_state_ref split_once nat_eq list_eq ℕ_discrete
claims_of = refl

in_claims : contains (record_claims (taken (bytes "old"))) (bytes "dumps", bytes "5") ≡ true
unfolding record_claims parse_tracker_state_ref split_once pair_eq nat_eq list_eq ℕ_discrete
in_claims = refl

purge-releases_example :
    (keeps_rev
        (kept_roots (bytes "old" ∷ []) log [] [] (λ lane. none) [])
        (bytes "dumps", bytes "5")
      && not (
          keeps_rev
            (purged_roots (bytes "old" ∷ []) log [] [] (λ lane. none) [])
            (bytes "dumps", bytes "5")))
    ≡ contains
        (pinned_only_by_archived_checkpoints
          (kept_roots (bytes "old" ∷ []) log [] [] (λ lane. none) []))
        (bytes "dumps", bytes "5")
purge-releases_example =
    purge-releases (bytes "old" ∷ []) log [] [] (λ lane. none) [] (bytes "dumps", bytes "5")

collect-keeps_example :
    keeps_rev
      (collect (bytes "old" ∷ []) log [] [] (λ lane. none) [] keep)
      (bytes "dumps", bytes "5")
    ≡ true
collect-keeps_example =
    collect-keeps (bytes "old" ∷ []) log [] [] (λ lane. none) [] keep (bytes "old")
      (taken (bytes "old")) (bytes "dumps", bytes "5") (inl refl) (inl refl) in_claims refl

orphan_workspaces-safe_example :
    (all
        (may_remove (λ dir. false) (λ dir. true) [] [])
        (orphan_workspaces
          (λ dir. false)
          (λ dir. true)
          []
          []
          (bytes "ws/a" ∷ bytes "ws/.source-template" ∷ [])).0
      ≡ true)
    × (all
          (must_report (λ dir. false) (λ dir. true) [] [])
          (orphan_workspaces
            (λ dir. false)
            (λ dir. true)
            []
            []
            (bytes "ws/a" ∷ bytes "ws/.source-template" ∷ [])).1
        ≡ true)
orphan_workspaces-safe_example =
    orphan_workspaces-safe (λ dir. false) (λ dir. true) [] []
      (bytes "ws/a" ∷ bytes "ws/.source-template" ∷ [])
