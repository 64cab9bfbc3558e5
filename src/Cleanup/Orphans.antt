-- ===== src/Cleanup/Orphans.antt =====
-- Which directories a cleanup pass removes (crates/newgit-core/src/cleanup.rs: `orphan_workspaces`).
use newgit.Prelude.{
  ◌≡◌, refl, Bool, true, not, ◌&&◌, ◌||◌, List, [], ◌∷◌, all, arith, nat_eq, list_eq,
}
use newgit.Text.{Text}
use newgit.Paths.{components}
use newgit.Branch.{BranchInstance}
use newgit.Cleanup.{
  last_name, names_template, names_sparse_template, is_claimed, is_template, orphan_workspaces,
}

module _ (has_marker is_empty_dir : Text → Bool) (branches : List BranchInstance)
    (templates : List Text) where
  -- Claimed by no record, no template in use, and newgit's own or empty.
  abbrev pub may_remove : Text → Bool
  may_remove dir =
      not (is_claimed has_marker is_empty_dir branches templates dir)
      && not (names_template (last_name (components dir)))
      && not (
          names_sparse_template (last_name (components dir))
          && is_template has_marker is_empty_dir branches templates dir)
      && (names_sparse_template (last_name (components dir)) || has_marker dir || is_empty_dir dir)

  -- Claimed by no record either, but neither newgit's own nor empty.
  abbrev pub must_report : Text → Bool
  must_report dir =
      not (is_claimed has_marker is_empty_dir branches templates dir)
      && not (names_sparse_template (last_name (components dir)))
      && not (has_marker dir)
      && not (is_empty_dir dir)

  -- Every directory that `orphan_workspaces` removes is claimed by no record, is no template in use, and
  -- carries newgit's marker or a sparse template's name or is empty; every one that it reports is
  -- unclaimed too, has neither, and is not empty.
  pub orphan_workspaces-safe :
      (dirs : List Text)
      → (all may_remove (orphan_workspaces has_marker is_empty_dir branches templates dirs).0
          ≡ true)
        × (all must_report (orphan_workspaces has_marker is_empty_dir branches templates dirs).1
            ≡ true)
  unfolding orphan_workspaces
  orphan_workspaces-safe [] = (refl, refl)
  orphan_workspaces-safe (dir ∷ dirs) =
      let (removed, reported) = orphan_workspaces-safe dirs in
      (ground (arith, removed), ground (arith, reported))
