-- ===== src/Cleanup/Purge.antt =====
-- What purging the archived logs releases (crates/newgit-core/src/cleanup.rs: `SnapshotRoots`).
use newgit.Prelude.{
  ◌≡◌, refl, ap, inl, inr, Bool, true, not, ◌&&◌, ◌||◌, Option, List, [], ◌∷◌, ◌++◌, filter, ◌==◌,
  nat_eq, list_eq, pair_eq, contains, arith, any-append, Bool-cases,
}
use newgit.Text.{Text}
use newgit.Branch.{BranchInstance}
use newgit.Checkpoint.{CheckpointRecord}
use newgit.Cleanup.{
  keep, purge, Claimed, SnapshotRoots, binding_claims, is_live, log_claims, claims_loop, collect,
  keeps_rev, pinned_only_by_checkpoints, pinned_only_by_archived_checkpoints,
}

contains-filter :
    (p : Claimed → Bool) (key : Claimed) (keys : List Claimed)
    → contains (filter p keys) key ≡ (contains keys key && p key)
contains-filter p key [] = refl
contains-filter p key (k ∷ keys) =
    let same : (k == key) ≡ true → p k ≡ p key = λ e. ap p (ground (arith, e)) in
    ground (arith, same, contains-filter p key keys)

pub contains-append :
    (key : Claimed) (xs ys : List Claimed)
    → contains (xs ++ ys) key ≡ (contains xs key || contains ys key)
contains-append key xs ys = any-append (λ k. k == key) xs ys

-- The claims on the two sides, as sets: bindings, live checkpoints, archived ones and heads.
released :
    (bound live archived heads : List Claimed) (key : Claimed)
    → ((contains bound key || contains (live ++ archived) key || contains heads key)
        && not (contains bound key || contains (live ++ []) key || contains heads key))
      ≡ contains
          (filter
            (λ k. contains (filter (λ k. not (contains live k)) archived) k)
            (filter (λ k. not (contains bound k) && not (contains heads k)) (live ++ archived)))
          key
released bound live archived heads key = ground (
  arith,
  contains-append key live archived,
  contains-append key live [],
  contains-filter (λ k. contains (filter (λ k. not (contains live k)) archived) k) key
      (filter (λ k. not (contains bound k) && not (contains heads k)) (live ++ archived)),
  contains-filter (λ k. not (contains bound k) && not (contains heads k)) key (live ++ archived),
  contains-filter (λ k. not (contains live k)) key archived,
)

module _ (log : Text → List CheckpointRecord) (branches : List BranchInstance) where
  -- Purging leaves the live claims as they are and collects no others.
  loop-purge :
      (slugs : List Text) (live kept : List Claimed)
      → claims_loop log branches purge slugs live []
        ≡ ((claims_loop log branches keep slugs live kept).0, [])
  unfolding claims_loop
  loop-purge [] live kept = refl
  loop-purge (slug ∷ slugs) live kept = elim (Bool-cases (is_live branches slug)) [
    | inl e ↦ rw e (loop-purge slugs (live ++ log_claims log slug) kept)
    | inr e ↦ rw e (loop-purge slugs live (kept ++ log_claims log slug))
  ]

module _ (slugs : List Text) (log : Text → List CheckpointRecord) (defined lanes : List Text)
    (main : Text → Option Text) (branches : List BranchInstance) where
  abbrev pub kept_roots : SnapshotRoots
  kept_roots = collect slugs log defined lanes main branches keep

  abbrev pub purged_roots : SnapshotRoots
  purged_roots = collect slugs log defined lanes main branches purge

  -- A rev that the pass keeps without purging and lets go of when it purges is exactly one that
  -- `pinned_only_by_archived_checkpoints` lists.
  pub purge-releases :
      (key : Claimed)
      → (keeps_rev kept_roots key && not (keeps_rev purged_roots key))
        ≡ contains (pinned_only_by_archived_checkpoints kept_roots) key
  unfolding collect pinned_only_by_checkpoints pinned_only_by_archived_checkpoints
  purge-releases key =
      let claims = claims_loop log branches keep slugs [] [] in
      let live = claims.0 in
      let archived = claims.1 in
      let purged : claims_loop log branches purge slugs [] [] ≡ (live, []) =
        loop-purge log branches slugs [] [] in
      rw purged (released (binding_claims branches) live archived (kept_roots.lane_heads) key)
