-- ===== src/Tests/Names.antt =====
-- Reserved paths, ids and slugs at concrete texts.
use native.Mathlib.Decide.{ℕ_discrete}
use newgit.Prelude.{ℕ, ◌≡◌, ◌≤◌, refl, List, [], ◌∷◌, false, nat_eq, list_eq, length}
use newgit.Text.{bytes, split_on, has_substring, is_empty}
use newgit.Error.{ok}
use newgit.Paths.{components, part_component, relative_components, component_eq}
use newgit.Tracker.{TrackerDefinition, owns, owns_everything}
use newgit.Tracker.Define.{validate, definition_file, is_project, check_paths, check_path}
use newgit.Tracker.Reserved.{owns-reserved}
use newgit.Tracker.Names.{name_fits_id, child_id-injective}
use newgit.Branch.{branch_slug, validate_name, max_name_len}
use newgit.Branch.Tidy.{IsSlug}
use newgit.Branch.Slug.{branch_slug-validated}
use newgit.Tests.Samples.{tracker}

abbrev lib : TrackerDefinition
lib = tracker (bytes "lib") (bytes "lib" ∷ [])

valid_lib : validate lib ≡ ok tt
unfolding validate check_paths check_path is_project owns_everything components relative_components
    split_on part_component component_eq nat_eq list_eq ℕ_discrete has_substring definition_file
valid_lib = refl

no_project : is_project lib ≡ false
unfolding is_project nat_eq list_eq ℕ_discrete
no_project = refl

owns-reserved_example : owns lib (bytes ".GIT/config") ≡ false
unfolding owns_everything components relative_components split_on part_component nat_eq list_eq
    ℕ_discrete
owns-reserved_example = owns-reserved lib (bytes ".GIT/config") valid_lib refl no_project refl refl

child_id-injective_example : (bytes "app" ≡ bytes "app") × (bytes "web" ≡ bytes "web")
unfolding name_fits_id has_substring nat_eq list_eq ℕ_discrete
child_id-injective_example =
    child_id-injective (bytes "app") (bytes "app") (bytes "web") (bytes "web") refl refl refl refl
      refl

-- Characters outside ASCII stay as they are.
abbrev keep : ℕ → List ℕ
keep c = []

valid_name : validate_name (bytes "feature/login") ≡ ok tt
unfolding validate_name has_substring nat_eq list_eq ℕ_discrete
valid_name = refl

branch_slug-validated_example :
    IsSlug (branch_slug keep (bytes "feature/login"))
    × (is_empty (branch_slug keep (bytes "feature/login")) ≡ false)
    × (length (branch_slug keep (bytes "feature/login")) ≤ max_name_len)
branch_slug-validated_example = branch_slug-validated keep (bytes "feature/login") valid_name
