-- ===== src/Tests/Owners.antt =====
-- Whom `owner_of` finds, on the sample trackers.
use native.Mathlib.Decide.{ℕ_discrete}
use newgit.Prelude.{◌≡◌, ◌<◌, refl, [], ◌∷◌, none, some, true, inl, nat_eq, list_eq, In}
use newgit.Text.{bytes, split_on, cmp}
use newgit.Paths.{components, part_component, relative_components, under, component_eq}
use newgit.Tracker.{TrackerDefinition}
use newgit.Tracker.Ownership.{
  owner_of, mount_depth, mount_holds, claim_on, claim_order, max_by, max_by_from, deepest_mount,
  claimants,
}
use newgit.Tracker.Owner.{IsOwner, owner_of-IsOwner, owner_of-none}
use newgit.Tests.Samples.{tracker_at, root_all, mobile}

found_mobile : owner_of (root_all ∷ mobile ∷ []) (bytes "apps/mobile/x") ≡ some mobile
unfolding owner_of deepest_mount claimants max_by max_by_from claim_order claim_on mount_holds
    mount_depth under components relative_components split_on part_component component_eq nat_eq
    list_eq ℕ_discrete cmp
found_mobile = refl

owner_of-IsOwner_example : IsOwner (root_all ∷ mobile ∷ []) (bytes "apps/mobile/x") mobile
owner_of-IsOwner_example =
    owner_of-IsOwner (root_all ∷ mobile ∷ []) (bytes "apps/mobile/x") mobile found_mobile

-- Mounted inside the checkout, with a claim on a part of its place.
abbrev assets : TrackerDefinition
assets = tracker_at (bytes "assets") (bytes "site/assets" ∷ []) (bytes "site")

nobody : owner_of (root_all ∷ assets ∷ []) (bytes "site/index") ≡ none
unfolding owner_of deepest_mount claimants max_by max_by_from claim_order claim_on mount_holds
    mount_depth under components relative_components split_on part_component component_eq nat_eq
    list_eq ℕ_discrete cmp
nobody = refl

claims_site : claim_on root_all (bytes "site/index") ≡ some 0
unfolding claim_on nat_eq list_eq ℕ_discrete
claims_site = refl

holds_site : mount_holds root_all.mount (bytes "site/index") ≡ true
unfolding mount_holds nat_eq list_eq ℕ_discrete
holds_site = refl

owner_of-none_example :
    (deeper : TrackerDefinition) × In deeper (root_all ∷ assets ∷ [])
    × (mount_holds deeper.mount (bytes "site/index") ≡ true)
    × (mount_depth root_all.mount < mount_depth deeper.mount)
owner_of-none_example =
    owner_of-none (root_all ∷ assets ∷ []) (bytes "site/index") root_all 0 nobody (inl refl)
      holds_site claims_site
