-- ===== src/Render.antt =====
-- crates/newgit-core/src/render.rs: the values of an instance, written into a committed file and taken
-- back out of it. Offsets count bytes.
pub mod Hits
pub mod Batch
pub mod Back
pub mod Check
pub mod Edited
pub mod Counts
use Prim.Native.Nat.{compare, Ordering}
use mathlib.Core.List.{flat_map}
use newgit.Prelude.{
  ℕ, zero, suc, ◌+◌, ◌≡◌, Bool, true, false, not, ◌&&◌, ◌||◌, Option, none, some, List, [], ◌∷◌,
  ◌++◌, map, filter, length, ◌==◌, nat_eq, list_eq, ltb, if◌then◌else◌,
}
use newgit.Prelude.Sort.{sort_by}
use newgit.Text.{Text, is_empty, has_substring}
use newgit.Text.Slice.{drop, slice, occurrences, count_matches}
use newgit.Error.{
  NewgitError, render_match_count, render_not_invertible, render_unresolved,
  render_overlapping_finds, render_path_conflict, Result, ok, err, ◌>>=◌, ◌>>◌, guard,
}
use newgit.Branch.{AppliedReplacement}
use newgit.Resource.{Replacement, RenderSpec}
use newgit.Templates.{RenderContext, unresolved_placeholder}
use newgit.Templates

abbrev pub expected_count : Replacement → ℕ
expected_count r = elim r.count [ none ↦ 1 | some n ↦ n ]

pub record Located : Type 0 where
  pub start : ℕ
  pub end : ℕ
  pub rule : ℕ

abbrev pub hits_at : Text → ℕ → List ℕ → List Located
hits_at find index [] = []
hits_at find index (start ∷ starts) =
    record { start = start; end = start + length find; rule = index } ∷ hits_at find index starts

-- The loop of `locate` over the rules.
unfoldable pub locate_from : Text → ℕ → List Text → List Located
locate_from content index [] = []
locate_from content index (find ∷ finds) =
    let rest = locate_from content (suc index) finds in
    if is_empty find then rest else hits_at find index (occurrences find content) ++ rest

abbrev pub then_by : Ordering → Ordering → Ordering
then_by Ordering.eq o = o
then_by Ordering.lt o = Ordering.lt
then_by Ordering.gt o = Ordering.gt

abbrev pub by_place : Located → Located → Ordering
by_place a b = then_by (compare a.start b.start) (compare a.end b.end)

unfoldable pub locate : Text → List Text → List Located
locate content finds = sort_by by_place (locate_from content 0 finds)

pub record Claim : Type 0 where
  pub resource : Text
  pub applied : List AppliedReplacement

pub record Span : Type 0 where
  pub rule : ℕ
  pub start : ℕ
  pub end : ℕ

-- A rule with the resource that it comes from.
abbrev pub Rule : Type 0
Rule = Text × AppliedReplacement

unfoldable pub rules : List Claim → List Rule
rules claims = flat_map (λ claim. map (λ rule. (claim.resource, rule)) claim.applied) claims

abbrev pub no_rule : Rule
no_rule = ([], record { find_text = []; value = []; count = 0 })

-- `rules[index]`. Every hit's index is that of a rule.
unfoldable pub rule_at : List Rule → ℕ → Rule
rule_at [] index = no_rule
rule_at (rule ∷ rest) zero = rule
rule_at (rule ∷ rest) (suc index) = rule_at rest index

abbrev pub found_for : List Located → ℕ → ℕ
found_for located index = length (filter (λ hit. hit.rule == index) located)

-- The loop that holds each rule to its count.
unfoldable pub check_counts : Text → List Located → ℕ → List Rule → Result (Unit {0})
check_counts path located index [] = ok tt
check_counts path located index ((resource, rule) ∷ rest) = do
  guard (found_for located index == rule.count)
      (render_match_count resource path rule.find_text rule.count (found_for located index))
  check_counts path located (suc index) rest

abbrev pub overlap : Text → Rule → Rule → NewgitError
overlap path (left_resource, left) (right_resource, right) =
    if left_resource == right_resource
    then render_overlapping_finds left_resource path left.find_text right.find_text
    else render_path_conflict left_resource left.find_text right_resource right.find_text path

module _ (path committed : Text) (rules : List Rule) where
  -- The loop over the hits, with what it has written.
  unfoldable pub substitute_loop :
      List Located → ℕ → ℕ → Text → List Span → Result (Text × List Span)
  substitute_loop [] cursor previous output spans = ok (output ++ drop cursor committed, spans)
  substitute_loop (hit ∷ hits) cursor previous output spans =
      let before = output ++ slice cursor hit.start committed in
      let after = before ++ ((rule_at rules hit.rule).1).value in
      let written =
        substitute_loop hits hit.end hit.rule after
          (spans ++ record { rule = hit.rule; start = length before; end = length after } ∷ []) in
      if ltb hit.start cursor
      then err (overlap path (rule_at rules previous) (rule_at rules hit.rule))
      else written

abbrev pub finds_of : List Rule → List Text
finds_of rs = map (λ (resource, rule). rule.find_text) rs

unfoldable pub substitute_spans : Text → Text → List Claim → Result (Text × List Span)
substitute_spans path committed claims = do
  check_counts path (locate committed (finds_of (rules claims))) 0 (rules claims)
  substitute_loop path committed (rules claims) (locate committed (finds_of (rules claims))) 0 0 []
      []

unfoldable pub substitute : Text → Text → List Claim → Result Text
substitute path committed claims =
    substitute_spans path committed claims >>= λ (output, spans). ok output

-- The loop of `compose` over the values in the finished file.
unfoldable pub check_back : Text → Text → List Rule → Result (Unit {0})
check_back path content [] = ok tt
check_back path content ((resource, rule) ∷ rest) = do
  guard (count_matches rule.value content == rule.count)
      (render_not_invertible resource path rule.value rule.count (count_matches rule.value content))
  check_back path content rest

unfoldable pub compose : Text → Text → List Claim → Result Text
compose path committed claims = substitute path committed claims >>= λ content.
    check_back path content (rules claims) >> ok content

abbrev pub resolved : Text → Text → Replacement → Text → Option Text → Result AppliedReplacement
resolved resource path r value (some placeholder) =
    err (render_unresolved resource path placeholder)
resolved resource path r value none =
    ok (record { find_text = r.find_text; value = value; count = expected_count r })

unfoldable pub resolve_each :
    Text → Text → RenderContext → List Replacement → Result (List AppliedReplacement)
resolve_each resource path context [] = ok []
resolve_each resource path context (r ∷ rest) =
    resolved resource path r (Templates.render r.with_text context)
      (unresolved_placeholder (Templates.render r.with_text context))
    >>= λ applied. resolve_each resource path context rest >>= λ more. ok (applied ∷ more)

unfoldable pub resolve : Text → RenderSpec → RenderContext → Result (List AppliedReplacement)
resolve resource spec context = resolve_each resource spec.path context spec.replace

unfoldable pub apply :
    Text → RenderSpec → Text → RenderContext → Result (Text × List AppliedReplacement)
apply resource spec committed context = resolve resource spec context >>= λ applied.
    compose spec.path committed (record { resource = resource; applied = applied } ∷ [])
    >>= λ content. ok (content, applied)

unfoldable pub text_at : List Text → ℕ → Text
text_at [] index = []
text_at (t ∷ texts) zero = t
text_at (t ∷ texts) (suc index) = text_at texts index

module _ (content : Text) (to : List Text) where
  -- Of two matches that overlap the left one is taken.
  unfoldable pub swap_loop : List Located → ℕ → Text → Text
  swap_loop [] cursor output = output ++ drop cursor content
  swap_loop (hit ∷ hits) cursor output =
      let skipped = swap_loop hits cursor output in
      let taken =
        swap_loop hits hit.end
          ((output ++ slice cursor hit.start content) ++ text_at to hit.rule) in
      if ltb hit.start cursor then skipped else taken

unfoldable pub swap_every : Text → List Text → List Text → Text
swap_every content from to = swap_loop content to (locate content from) 0 []

unfoldable pub reverse : Text → List AppliedReplacement → Text
reverse rendered applied =
    swap_every rendered (map (λ r. r.value) applied) (map (λ r. r.find_text) applied)

unfoldable pub restore : Text → List AppliedReplacement → Text
restore stored applied =
    swap_every stored (map (λ r. r.find_text) applied) (map (λ r. r.value) applied)
