-- ===== src/Render/Check.antt =====
-- crates/newgit-core/src/render.rs: what `render --check` reports, why a file would no longer render, and
-- the test of the specs at load.
use newgit.Prelude.{
  ℕ, suc, ◌+◌, Bool, not, ◌||◌, Option, none, some, List, [], ◌∷◌, map, filter, length, ◌==◌,
  nat_eq, list_eq, if◌then◌else◌,
}
use newgit.Text.{Text, has_substring}
use newgit.Text.Slice.{take, occurrences}
use newgit.Error.{
  NewgitError, render_match_count, render_path_conflict, Result, ok, err, ◌>>◌, guard, each,
}
use newgit.Paths.{same_path}
use newgit.Resource.{Replacement, RenderSpec}
use newgit.Render.{Located, locate, found_for, expected_count, Claim, substitute}

-- The line of an offset, from 1.
unfoldable pub line_of : Text → ℕ → ℕ
line_of content offset = length (filter (λ c. c == b'\n') (take offset content)) + 1

pub record FindCheck : Type 0 where
  pub find_text : Text
  pub expected : ℕ
  pub found : ℕ

-- `FindCheck::ok`
abbrev pub is_ok : FindCheck → Bool
is_ok c = c.found == c.expected

abbrev pub checks_from : List Located → ℕ → List Replacement → List FindCheck
checks_from located index [] = []
checks_from located index (r ∷ rest) =
    record { find_text = r.find_text; expected = expected_count r; found = found_for located index }
    ∷ checks_from located (suc index) rest

unfoldable pub check : RenderSpec → Text → List FindCheck
check spec content =
    checks_from (locate content (map (λ r. r.find_text) spec.replace)) 0 spec.replace

pub data Unrenderable : Type 0 where
  wrong_count : Text → Text → ℕ → ℕ → List ℕ → Unrenderable
  refused : NewgitError → Unrenderable

-- The offsets of `match_indices`, for a find that is not empty.
abbrev pub lines_of : Text → Text → List ℕ
lines_of content find = map (line_of content) (occurrences find content)

abbrev pub why : Text → NewgitError → Unrenderable
why content (render_match_count resource path find expected found) =
    wrong_count resource find found expected (lines_of content find)
why content refusal = refused refusal

abbrev pub unrenderable_by : Text → Result Text → Option Unrenderable
unrenderable_by content (ok output) = none
unrenderable_by content (err refusal) = some (why content refusal)

unfoldable pub unrenderable : Text → Text → List Claim → Option Unrenderable
unrenderable path content claims = unrenderable_by content (substitute path content claims)

abbrev pub claims_same : Text → Text → Bool
claims_same left right = has_substring left right || has_substring right left

module _ (left right path : Text) where
  abbrev pub check_rule : Replacement → Replacement → Result (Unit {0})
  check_rule l r =
      guard (not (claims_same l.find_text r.find_text))
        (render_path_conflict left l.find_text right r.find_text path)

abbrev pub check_specs : Text × RenderSpec → Text × RenderSpec → Result (Unit {0})
check_specs (left, left_spec) (right, right_spec) =
    if left == right || not (same_path left_spec.path right_spec.path)
    then ok tt
    else each (λ l. each (check_rule left right left_spec.path l) right_spec.replace)
        left_spec.replace

unfoldable pub validate_disjoint : List (Text × RenderSpec) → Result (Unit {0})
validate_disjoint [] = ok tt
validate_disjoint (spec ∷ specs) = each (check_specs spec) specs >> validate_disjoint specs
