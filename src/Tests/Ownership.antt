-- ===== src/Tests/Ownership.antt =====
-- Who owns a path, on the sample trackers.
use newgit.Prelude.{◌≡◌, ◌≢◌, refl, sym, [], ◌∷◌, true, false, inl, inr, nat_eq, list_eq, option_eq}
use newgit.Prelude.Sort.{insert_sorted, sort_by, dedup_by}
use newgit.Text.{bytes, split_on, cmp}
use newgit.Error.{ok, err, tracker_path_conflict}
use newgit.Paths.{components, part_component, relative_components, same_path, under, component_eq}
use newgit.Tracker.Ownership.{mount_depth}
use native.Mathlib.Decide.{ℕ_discrete}
use newgit.Tracker.{TrackerDefinition, owns, owns_everything, mounted}
use newgit.Tracker.Resolve.{
  resolve_ownership, check_pairs, check_rest, check_pair, excluded_from, path_cmp, taken_claims,
  taken_mounts, all_claims, all_mounts, with_excluded,
}
use newgit.Tracker.Conflict.{resolve_ownership-err, NamesConflict}
use newgit.Tracker.Exclusive.{owns-resolve_ownership}
use newgit.Tracker.Gap.{owns_gap}
use newgit.Tests.Samples.{tracker, root_all, apps, mobile}

abbrev settled_root : TrackerDefinition
settled_root = record root_all { excluded = bytes "apps/mobile" ∷ [] }

resolved_pair : resolve_ownership (root_all ∷ mobile ∷ []) ≡ ok (settled_root ∷ mobile ∷ [])
unfolding resolve_ownership owns_everything list_eq nat_eq check_pairs check_rest check_pair
    same_path components relative_components split_on part_component component_eq excluded_from
    dedup_by sort_by under insert_sorted cmp mount_depth all_claims all_mounts path_cmp taken_claims
    taken_mounts mounted ℕ_discrete with_excluded
resolved_pair = refl

root_ne_mobile : settled_root.name ≢ mobile.name
root_ne_mobile h = cc

mobile-owns : owns mobile (bytes "apps/mobile/x") ≡ true
unfolding owns under components relative_components split_on part_component component_eq nat_eq
    list_eq
mobile-owns = refl

owns-resolve_ownership_example : owns settled_root (bytes "apps/mobile/x") ≡ false
owns-resolve_ownership_example =
    owns-resolve_ownership (root_all ∷ mobile ∷ []) (settled_root ∷ mobile ∷ []) mobile settled_root
      (bytes "apps/mobile/x") resolved_pair (inr (inl refl)) (inl refl)
      (λ h. root_ne_mobile (sym h)) refl mobile-owns

clash :
    resolve_ownership
      (tracker (bytes "a") (bytes "lib" ∷ []) ∷ tracker (bytes "b") (bytes "lib/" ∷ []) ∷ [])
    ≡ err (tracker_path_conflict (bytes "a") (bytes "b") (bytes "lib"))
unfolding resolve_ownership owns_everything list_eq nat_eq check_pairs check_rest check_pair
    same_path components relative_components split_on part_component component_eq excluded_from
    dedup_by sort_by under insert_sorted cmp mount_depth all_claims all_mounts path_cmp taken_claims
    taken_mounts mounted ℕ_discrete with_excluded
clash = refl

resolve_ownership-err_example :
    NamesConflict
      (tracker (bytes "a") (bytes "lib" ∷ []) ∷ tracker (bytes "b") (bytes "lib/" ∷ []) ∷ [])
      (tracker_path_conflict (bytes "a") (bytes "b") (bytes "lib"))
resolve_ownership-err_example = resolve_ownership-err _ _ clash

owns_gap_example :
    (owns
        (with_excluded (all_claims (apps ∷ mobile ∷ [])) (all_mounts (apps ∷ mobile ∷ [])) apps)
        (bytes "apps/mobile/web/x")
      ≡ false)
    × (owns
          (with_excluded (all_claims (apps ∷ mobile ∷ [])) (all_mounts (apps ∷ mobile ∷ [])) mobile)
          (bytes "apps/mobile/web/x")
        ≡ false)
unfolding same_path under components relative_components split_on part_component component_eq nat_eq
    list_eq
owns_gap_example =
    owns_gap (apps ∷ mobile ∷ []) apps mobile (bytes "apps") (bytes "apps/mobile")
      (bytes "apps/mobile/web") (bytes "apps/mobile/web/x") (inl refl) (inr (inl refl)) (λ h. cc)
      (inl refl) (inr (inl refl)) (inl refl) refl refl refl refl refl
