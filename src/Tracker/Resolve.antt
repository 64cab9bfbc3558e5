-- ===== src/Tracker/Resolve.antt =====
-- `resolve_ownership` (crates/newgit-core/src/tracker.rs): the conflicts between all definitions,
-- and the paths that each of them leaves to a more specific one.
use Prim.Native.Nat.{compare, Ordering}
use newgit.Prelude.{
  ℕ, Bool, false, not, ◌&&◌, ◌||◌, Option, none, some, List, [], ◌∷◌, ◌++◌, map, any, filter, find,
  ◌==◌, nat_eq, list_eq, if◌then◌else◌, ltb,
}
use newgit.Prelude.Sort.{sort_by, dedup_by}
use newgit.Text.{Text, cmp}
use newgit.Error.{tracker_path_conflict, Result, ok, err, ◌>>◌}
use newgit.Paths.{
  Component, root_dir, cur_dir, parent_dir, normal, dot, components, same_path, under,
}
use newgit.Tracker.{TrackerDefinition, is_dot, owns_everything, mounted}
use newgit.Tracker.Ownership.{mount_depth}

-- Whether both fill one role, and are alternatives.
abbrev pub same_role : Option Text → Option Text → Bool
same_role (some left) (some right) = left == right
same_role _ _ = false

-- The first path of `left` that `right` claims too.
abbrev pub shared_path : List Text → List Text → Option Text
shared_path left right = find (λ path. any (λ other. same_path other path) right) left

-- One round of the inner loop.
unfoldable pub check_pair : TrackerDefinition → TrackerDefinition → Result (Unit {0})
check_pair left right =
    if same_role left.role right.role then ok tt else elim (shared_path left.paths right.paths) [
      | none ↦ ok tt
      | some path ↦ err (tracker_path_conflict left.name right.name path)
    ]

unfoldable pub check_rest : TrackerDefinition → List TrackerDefinition → Result (Unit {0})
check_rest left [] = ok tt
check_rest left (right ∷ rest) = check_pair left right >> check_rest left rest

unfoldable pub check_pairs : List TrackerDefinition → Result (Unit {0})
check_pairs [] = ok tt
check_pairs (left ∷ rest) = check_rest left rest >> check_pairs rest

-- `roots.len() > 1`
abbrev pub check_roots : List TrackerDefinition → Result (Unit {0})
check_roots (left ∷ right ∷ rest) = err (tracker_path_conflict left.name right.name dot)
check_roots _ = ok tt

-- Every claim, and every mount, with the name of its tracker.
unfoldable pub all_claims : List TrackerDefinition → List (Text × Text)
all_claims [] = []
all_claims (d ∷ definitions) = map (λ path. (d.name, path)) d.paths ++ all_claims definitions

unfoldable pub all_mounts : List TrackerDefinition → List (Text × Text)
all_mounts definitions = map (λ d. (d.name, d.mount)) (filter mounted definitions)

-- `inside`
abbrev pub inside : Text → Text → Bool
inside inner outer = is_dot outer || (not (same_path inner outer) && under inner outer)

unfoldable pub taken_claims : TrackerDefinition → List (Text × Text) → List (Text × Text)
taken_claims d claims =
    filter
      (λ (name, inner).
        not (name == d.name) && not (is_dot inner) && any (λ outer. inside inner outer) d.paths)
      claims

unfoldable pub taken_mounts : TrackerDefinition → List (Text × Text) → List (Text × Text)
taken_mounts d mounts =
    filter
      (λ (name, mount).
        not (name == d.name)
        && ltb (mount_depth d.mount) (mount_depth mount)
        && any (λ outer. is_dot outer || under mount outer) d.paths)
      mounts

-- Paths are ordered by their components.
abbrev component_rank : Component → ℕ
component_rank root_dir = 0
component_rank cur_dir = 1
component_rank parent_dir = 2
component_rank (normal part) = 3

component_cmp : Component → Component → Ordering
component_cmp (normal part) (normal other) = cmp part other
component_cmp c d = compare (component_rank c) (component_rank d)

components_cmp : List Component → List Component → Ordering
components_cmp [] [] = Ordering.eq
components_cmp [] (d ∷ ds) = Ordering.lt
components_cmp (c ∷ cs) [] = Ordering.gt
components_cmp (c ∷ cs) (d ∷ ds) = elim (component_cmp c d) [
  | Ordering.lt ↦ Ordering.lt
  | Ordering.eq ↦ components_cmp cs ds
  | Ordering.gt ↦ Ordering.gt
]

unfoldable pub path_cmp : Text → Text → Ordering
unfolding components_cmp component_cmp
path_cmp path other = components_cmp (components path) (components other)

abbrev pub second : Text × Text → Text
second (name, path) = path

unfoldable pub excluded_from :
    List (Text × Text) → List (Text × Text) → TrackerDefinition → List Text
excluded_from claims mounts d =
    dedup_by same_path
      (sort_by path_cmp (map second (taken_claims d claims) ++ map second (taken_mounts d mounts)))

unfoldable pub with_excluded :
    List (Text × Text) → List (Text × Text) → TrackerDefinition → TrackerDefinition
with_excluded claims mounts d = record d { excluded = excluded_from claims mounts d }

-- The last loop: `definitions` with their `excluded` filled in.
abbrev pub fill_excluded : List TrackerDefinition → List TrackerDefinition
fill_excluded definitions =
    map (with_excluded (all_claims definitions) (all_mounts definitions)) definitions

unfoldable pub resolve_ownership : List TrackerDefinition → Result (List TrackerDefinition)
resolve_ownership definitions = do
  check_roots (filter owns_everything definitions)
  check_pairs definitions
  ok (fill_excluded definitions)
