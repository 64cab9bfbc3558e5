-- ===== src/Cleanup/Kept.antt =====
-- A cleanup pass keeps what a checkpoint needs (crates/newgit-core/src/cleanup.rs: `SnapshotRoots::collect`).
use newgit.Prelude.{
  ◌≡◌, ap, sym, subst, inl, inr, Bool, true, not, ◌||◌, Option, List, [], ◌∷◌, ◌++◌, nat_eq,
  list_eq, pair_eq, contains, arith, In,
}
use mathlib.Core.List.{flat_map}
use newgit.Text.{Text}
use newgit.Branch.{BranchInstance}
use newgit.Checkpoint.{CheckpointRecord}
use newgit.Cleanup.{
  ArchivedCheckpoints, is_purge, Claimed, record_claims, is_live, log_claims, claims_loop, collect,
  keeps_rev,
}
use newgit.Cleanup.Purge.{contains-append}

contains-flat_map :
    (key : Claimed) (r : CheckpointRecord) (records : List CheckpointRecord)
    → In r records
    → contains (record_claims r) key ≡ true
    → contains (flat_map record_claims records) key ≡ true
unfolding flat_map
contains-flat_map key r [] m h = elim m [ ]
contains-flat_map key r (s ∷ records) (inl e) h = ground (
  arith,
  contains-append key (record_claims s) (flat_map record_claims records),
  ap (λ x. contains (record_claims x) key) e,
  h,
)
contains-flat_map key r (s ∷ records) (inr m) h = ground (
  arith,
  contains-append key (record_claims s) (flat_map record_claims records),
  contains-flat_map key r records m h,
)

module _ (log : Text → List CheckpointRecord) (branches : List BranchInstance)
    (mode : ArchivedCheckpoints) (key : Claimed) where
  abbrev claimed_by : List Claimed × List Claimed → Bool
  claimed_by (live, archived) = contains live key || contains archived key

  loop-keeps :
      (slugs : List Text) (live archived : List Claimed)
      → claimed_by (live, archived) ≡ true
      → claimed_by (claims_loop log branches mode slugs live archived) ≡ true
  unfolding claims_loop
  loop-keeps [] live archived h = h
  loop-keeps (slug ∷ slugs) live archived h =
      let more = log_claims log slug in
      ground (
        arith,
        contains-append key live more,
        contains-append key archived more,
        loop-keeps slugs (live ++ more) archived,
        loop-keeps slugs live archived h,
        loop-keeps slugs live (archived ++ more),
      )

  loop-collects :
      (slug : Text) (slugs : List Text) (live archived : List Claimed)
      → In slug slugs
      → (is_live branches slug || not (is_purge mode)) ≡ true
      → contains (log_claims log slug) key ≡ true
      → claimed_by (claims_loop log branches mode slugs live archived) ≡ true
  unfolding claims_loop
  loop-collects slug [] live archived m k h = elim m [ ]
  loop-collects slug (first ∷ slugs) live archived (inl e) k h =
      let k' : (is_live branches first || not (is_purge mode)) ≡ true =
        subst (λ s. (is_live branches s || not (is_purge mode)) ≡ true) (sym e) k in
      let h' : contains (log_claims log first) key ≡ true =
        subst (λ s. contains (log_claims log s) key ≡ true) (sym e) h in
      let more = log_claims log first in
      ground (
        arith,
        k',
        h',
        contains-append key live more,
        contains-append key archived more,
        loop-keeps slugs (live ++ more) archived,
        loop-keeps slugs live (archived ++ more),
      )
  loop-collects slug (first ∷ slugs) live archived (inr m) k h =
      let more = log_claims log first in
      ground (
        arith,
        loop-collects slug slugs (live ++ more) archived m k h,
        loop-collects slug slugs live archived m k h,
        loop-collects slug slugs live (archived ++ more) m k h,
      )

-- A rev that a checkpoint of a surviving instance claims is kept, and so is one that an archived
-- instance's checkpoint claims, unless the pass purges.
pub collect-keeps :
    (slugs : List Text) (log : Text → List CheckpointRecord) (defined lanes : List Text)
    (main : Text → Option Text) (branches : List BranchInstance) (mode : ArchivedCheckpoints)
    (slug : Text) (r : CheckpointRecord) (key : Claimed)
    → In slug slugs
    → In r (log slug)
    → contains (record_claims r) key ≡ true
    → (is_live branches slug || not (is_purge mode)) ≡ true
    → keeps_rev (collect slugs log defined lanes main branches mode) key ≡ true
unfolding collect
collect-keeps slugs log defined lanes main branches mode slug r key m n h k =
    let claims = claims_loop log branches mode slugs [] [] in
    let all_of =
      loop-collects log branches mode key slug slugs [] [] m k
        (contains-flat_map key r (log slug) n h) in
    ground (arith, contains-append key (claims.0) (claims.1), all_of)
