-- ===== src/Tests/Render.antt =====
-- Renders into small files.
use native.Mathlib.Decide.{ℕ_discrete}
use mathlib.Core.List.{flat_map}
use newgit.Prelude.{
  ℕ, ◌≡◌, ◌<◌, refl, not, none, some, List, [], ◌∷◌, map, all, nat_eq, list_eq, length,
}
use newgit.Prelude.Sort.{sort_by, insert_sorted}
use newgit.Text.{Text, bytes, has_substring, decimal}
use newgit.Text.Slice.{take, drop, slice, occurrences_from, count_matches}
use newgit.Error.{ok}
use newgit.Branch.{AppliedReplacement}
use newgit.Resource.{RenderSpec}
use newgit.Templates.{
  RenderContext, replace, replace_loop, from_open, before_close, unresolved_placeholder,
}
use newgit.Templates
use newgit.Render.{
  locate, locate_from, Claim, Span, rules, rule_at, text_at, check_counts, check_back,
  substitute_loop, substitute_spans, substitute, compose, resolve_each, resolve, swap_loop,
  swap_every, reverse,
}
use newgit.Render.Batch.{Piece, written, places, times, find_of, value_of, substitute_spans-pieces}
use newgit.Render.Back.{hit_of, applied_of, reverse-substitute_spans}
use newgit.Render.Check.{is_ok, check}
use newgit.Render.Counts.{fails_to_count, check-substitute}
use newgit.Render.Edited.{
  line_start_from, to_newline, place, found_at, choose_rules, choose, take_back, values_found,
  reverse_rendered,
}

abbrev rule : Text → Text → AppliedReplacement
rule find value = record { find_text = find; value = value; count = 1 }

abbrev claim : Text → List AppliedReplacement → List Claim
claim resource applied = record { resource = resource; applied = applied } ∷ []

abbrev ports : List Claim
ports =
    claim (bytes "web") (rule (bytes "80") (bytes "5400") ∷ rule (bytes "h=") (bytes "host=") ∷ [])

abbrev span : ℕ → ℕ → ℕ → Span
span rule start end = record { rule = rule; start = start; end = end }

rendered :
    substitute_spans (bytes "f") (bytes "h=80;") ports
    ≡ ok (bytes "host=5400;", span 1 0 5 ∷ span 0 5 9 ∷ [])
unfolding substitute_spans substitute_loop check_counts rule_at rules locate locate_from sort_by
    insert_sorted flat_map slice take drop occurrences_from nat_eq list_eq ℕ_discrete
rendered = refl

found_again :
    locate (bytes "host=5400;") (map (λ r. r.value) (applied_of (rules ports)))
    ≡ map hit_of (span 1 0 5 ∷ span 0 5 9 ∷ [])
unfolding rules locate locate_from sort_by insert_sorted flat_map occurrences_from nat_eq list_eq
    ℕ_discrete
found_again = refl

substitute_spans-pieces_example :
    (pieces : List Piece) × (written (find_of (rules ports)) pieces ≡ bytes "h=80;")
    × (written (value_of (rules ports)) pieces ≡ bytes "host=5400;")
    × (places (value_of (rules ports)) 0 pieces ≡ span 1 0 5 ∷ span 0 5 9 ∷ [])
    × ((i : ℕ) → i < length (rules ports) → times i pieces ≡ ((rule_at (rules ports) i).1).count)
substitute_spans-pieces_example =
    substitute_spans-pieces (bytes "f") (bytes "h=80;") ports (bytes "host=5400;")
      (span 1 0 5 ∷ span 0 5 9 ∷ []) rendered

reverse-substitute_spans_example :
    reverse (bytes "host=5400;") (applied_of (rules ports)) ≡ bytes "h=80;"
reverse-substitute_spans_example =
    reverse-substitute_spans (bytes "f") (bytes "h=80;") ports (bytes "host=5400;")
      (span 1 0 5 ∷ span 0 5 9 ∷ []) rendered found_again

abbrev spec : RenderSpec
spec = record {
  path = bytes "f";
  replace = record { find_text = bytes "80"; with_text = bytes "{{ports.web}}"; count = none } ∷ [];
}

abbrev context : RenderContext
context = record {
  branch_name = bytes "b";
  branch_slug = bytes "b";
  workspace = bytes "w";
  scripts = bytes "s";
  ports = some ((bytes "web", 5400) ∷ []);
  exports = none;
  snapshot_path = none;
  state_ref = none;
  bound = none;
}

resolves : resolve (bytes "web") spec context ≡ ok (rule (bytes "80") (bytes "5400") ∷ [])
unfolding resolve resolve_each Templates.render replace replace_loop from_open before_close
    unresolved_placeholder decimal has_substring nat_eq list_eq ℕ_discrete
resolves = refl

check-substitute_example :
    all is_ok (check spec (bytes "h=80;80"))
    ≡ not (
        fails_to_count (
          substitute
            (bytes "f")
            (bytes "h=80;80")
            (claim (bytes "web") (rule (bytes "80") (bytes "5400") ∷ []))))
check-substitute_example =
    check-substitute (bytes "web") spec (bytes "h=80;80") context
      (rule (bytes "80") (bytes "5400") ∷ []) resolves

-- A value that overlaps itself with the text before it: `compose` takes it, and neither way back finds
-- the committed content.
abbrev doubled : List Claim
doubled = claim (bytes "web") (rule (bytes "X") (bytes "aa") ∷ [])

composes : compose (bytes "f") (bytes "aX") doubled ≡ ok (bytes "aaa")
unfolding compose check_back count_matches substitute substitute_spans substitute_loop check_counts
    rule_at rules locate locate_from sort_by insert_sorted flat_map slice take drop occurrences_from
    nat_eq list_eq ℕ_discrete
composes = refl

reverses_elsewhere : reverse (bytes "aaa") (rule (bytes "X") (bytes "aa") ∷ []) ≡ bytes "Xa"
unfolding reverse swap_every swap_loop text_at locate locate_from sort_by insert_sorted slice take
    drop occurrences_from nat_eq list_eq ℕ_discrete
reverses_elsewhere = refl

captures_elsewhere :
    reverse_rendered (bytes "aaa") (bytes "f") (bytes "aX") doubled
    ≡ record { content = bytes "Xa"; unplaced = [] }
unfolding reverse_rendered line_start_from to_newline place found_at choose_rules choose take_back
    values_found substitute_spans substitute_loop check_counts rule_at rules locate locate_from
    sort_by insert_sorted flat_map slice take drop occurrences_from nat_eq list_eq ℕ_discrete
captures_elsewhere = refl
