-- ===== src/Tests/Paths.antt =====
-- Runs of the path functions of crates/newgit-core/src/tracker.rs.
use newgit.Prelude.{◌↔◌, length, ◌≡◌, refl, nat_eq, list_eq, true, false}
use newgit.Text.{is_empty, split_on, bytes}
use native.Mathlib.Decide.{ℕ_discrete}
use newgit.Paths.Laws.{settled, components-normalize_path}
use newgit.Paths.Parts.{names, stays_inside}
use newgit.Paths.Links.{
  link_target_inside, StaysBelow, parent_names, parent_components, link_target_inside_iff,
}
use newgit.Paths.{
  normalize_path, normalize_loop, push, part_component, relative_components, components, under,
  component_eq,
}

normalize_drops_dots : normalize_path (bytes "./a//b/./c/") ≡ bytes "a/b/c"
unfolding normalize_path normalize_loop push components part_component relative_components split_on
    nat_eq list_eq
normalize_drops_dots = refl

normalize_keeps_dot : normalize_path (bytes "./") ≡ bytes "."
unfolding normalize_path normalize_loop push components part_component relative_components split_on
    nat_eq list_eq
normalize_keeps_dot = refl

normalize_leaves_parent : normalize_path (bytes "a/../b") ≡ bytes "a/../b"
unfolding normalize_path normalize_loop push components part_component relative_components split_on
    nat_eq list_eq
normalize_leaves_parent = refl

under_whole_component : under (bytes "apps/web/x") (bytes "apps/web/") ≡ true
unfolding under components part_component relative_components split_on component_eq nat_eq list_eq
under_whole_component = refl

under_part_of_name : under (bytes "apps/website") (bytes "apps/web/") ≡ false
unfolding under components part_component relative_components split_on component_eq nat_eq list_eq
under_part_of_name = refl

stays : stays_inside (bytes "./a//b/") ≡ true
unfolding components part_component relative_components split_on nat_eq list_eq ℕ_discrete
stays = refl

components-normalize_path_example :
    components (normalize_path (bytes "./a//b/"))
    ≡ settled (bytes "./a//b/") (names (components (bytes "./a//b/")))
components-normalize_path_example = components-normalize_path (bytes "./a//b/") stays

link_target_inside_iff_example : (link_target_inside (bytes "a/b") (bytes "../c") ≡ true) ↔ (
    (is_empty (bytes "../c") ≡ false)
    × StaysBelow
        (length (parent_names (parent_components (components (bytes "a/b")))))
        (components (bytes "../c")))
link_target_inside_iff_example = link_target_inside_iff (bytes "a/b") (bytes "../c")
