-- ===== src/Render/Edited.antt =====
-- crates/newgit-core/src/render.rs: `reverse_rendered`, which takes a render back out of a file that
-- someone may have edited. A map is the list of its entries; a value in place is told by its index among
-- the values found.
use newgit.Prelude.{
  ℕ, suc, ◌+◌, ◌-◌, Bool, not, ◌&&◌, ◌||◌, List, [], ◌∷◌, ◌++◌, map, filter, length, ◌==◌, nat_eq,
  list_eq, if◌then◌else◌, contains, ltb,
}
use newgit.Text.{Text}
use newgit.Text.Slice.{take, drop, slice}
use newgit.Error.{Result, ok, err}
use newgit.Render.{Located, Span, Claim, Rule, rules, rule_at, locate, substitute_spans, reverse}
use newgit.Render.Back.{applied_of}
use newgit.Render.Check.{line_of}

pub record Place : Type 0 where
  pub rule : ℕ
  pub line : Text
  pub column : ℕ

abbrev pub same_place : Place → Place → Bool
same_place a b = a.rule == b.rule && a.line == b.line && a.column == b.column

-- What stands behind the last newline, as an offset: `rfind('\n').map_or(0, |at| at + 1)`.
unfoldable pub line_start_from : ℕ → ℕ → Text → ℕ
line_start_from last at [] = last
line_start_from last at (c ∷ s) =
    if c == b'\n' then line_start_from (suc at) (suc at) s else line_start_from last (suc at) s

unfoldable pub to_newline : Text → ℕ
to_newline [] = 0
to_newline (c ∷ s) = let rest = to_newline s in if c == b'\n' then 0 else suc rest

unfoldable pub place : Text → ℕ → ℕ → ℕ → Place
place content rule start end =
    let line_start = line_start_from 0 0 (take start content) in
    record {
      rule = rule;
      line = slice line_start (end + to_newline (drop end content)) content;
      column = start - line_start;
    }

-- `*written.entry(place).or_default() += 1`
abbrev pub count_place : Place → List (Place × ℕ) → List (Place × ℕ)
count_place p [] = (p, 1) ∷ []
count_place p ((q, n) ∷ entries) =
    let rest = count_place p entries in
    if same_place q p then (q, suc n) ∷ entries else (q, n) ∷ rest

abbrev pub written_at : Text → List Span → List (Place × ℕ) → List (Place × ℕ)
written_at expected [] entries = entries
written_at expected (span ∷ spans) entries =
    written_at expected spans (count_place (place expected span.rule span.start span.end) entries)

-- `at.get(key)`: the indices of the values found at a place.
unfoldable pub found_at : Text → ℕ → List Located → Place → List ℕ
found_at current index [] key = []
found_at current index (hit ∷ hits) key =
    let rest = found_at current (suc index) hits key in
    if same_place (place current hit.rule hit.start hit.end) key then index ∷ rest else rest

-- `chosen` and `missing`.
pub record Choice : Type 0 where
  pub chosen : List ℕ
  pub missing : List (ℕ × ℕ)

abbrev pub choose_places : Text → List Located → List (Place × ℕ) → Choice → Choice
choose_places current found [] choice = choice
choose_places current found ((key, count) ∷ entries) choice =
    let hits = found_at current 0 found key in
    let here =
      choose_places current found entries (record choice { chosen = choice.chosen ++ hits }) in
    let gone =
      choose_places current found entries
        (record choice { missing = (key.rule, count) ∷ choice.missing }) in
    if length hits == count then here else gone

abbrev pub missing_of : ℕ → List (ℕ × ℕ) → ℕ
missing_of rule [] = 0
missing_of rule ((r, n) ∷ entries) =
    let rest = missing_of rule entries in if r == rule then n + rest else rest

abbrev pub indices_of : ℕ → ℕ → List Located → List (ℕ × Located)
indices_of rule index [] = []
indices_of rule index (hit ∷ hits) =
    let rest = indices_of rule (suc index) hits in
    if hit.rule == rule then (index, hit) ∷ rest else rest

-- A value left in place: its resource, the value and the lines.
pub record Unplaced : Type 0 where
  pub resource : Text
  pub value : Text
  pub lines : List ℕ

abbrev pub report : Rule → List ℕ → List Unplaced
report rule [] = []
report (resource, rule) (line ∷ lines) =
    record { resource = resource; value = rule.value; lines = line ∷ lines } ∷ []

-- The loop over the rules, with the choice and the reports.
unfoldable pub choose_rules :
    Text
    → List Located
    → List (ℕ × ℕ)
    → ℕ
    → List Rule
    → List ℕ
    → List Unplaced
    → List ℕ × List Unplaced
choose_rules current found missing index [] chosen unplaced = (chosen, unplaced)
choose_rules current found missing index (rule ∷ rest) chosen unplaced =
    let hits = indices_of index 0 found in
    let lines =
      map (λ (i, hit). line_of current hit.start)
        (filter (λ (i, hit). not (contains chosen i)) hits) in
    let skipped = choose_rules current found missing (suc index) rest chosen unplaced in
    let taken =
      choose_rules current found missing (suc index) rest (chosen ++ map (λ (i, hit). i) hits)
        unplaced in
    let reported =
      choose_rules current found missing (suc index) rest chosen (unplaced ++ report rule lines) in
    if missing_of index missing == 0
    then skipped
    else if length hits == (rule.1).count
    then taken
    else reported

module _ (current : Text) (rules : List Rule) (chosen : List ℕ) where
  unfoldable pub take_back : ℕ → List Located → ℕ → Text → Text
  take_back index [] cursor content = content ++ drop cursor current
  take_back index (hit ∷ hits) cursor content =
      let skipped = take_back (suc index) hits cursor content in
      let taken =
        take_back (suc index) hits hit.end
          ((content ++ slice cursor hit.start current) ++ ((rule_at rules hit.rule).1).find_text) in
      if not (contains chosen index) || ltb hit.start cursor then skipped else taken

pub record Reversed : Type 0 where
  pub content : Text
  pub unplaced : List Unplaced

abbrev pub taken_back : Text → List Rule → List Located → List ℕ × List Unplaced → Reversed
taken_back current rules found (chosen, unplaced) = record {
  content = take_back current rules chosen 0 found 0 [];
  unplaced = unplaced;
}

unfoldable pub values_found : Text → List Rule → List Located
values_found current rules = locate current (map (λ (resource, rule). rule.value) rules)

unfoldable pub choose : Text → List Rule → List Located → List (Place × ℕ) → List ℕ × List Unplaced
choose current rules found entries =
    let choice = choose_places current found entries (record { chosen = []; missing = [] }) in
    choose_rules current found choice.missing 0 rules choice.chosen []

abbrev pub reverse_by : Text → List Rule → Result (Text × List Span) → Reversed
reverse_by current rules (err refusal) = record {
  content = reverse current (applied_of rules);
  unplaced = [];
}
reverse_by current rules (ok (expected, spans)) =
    taken_back current rules (values_found current rules)
      (choose current rules (values_found current rules) (written_at expected spans []))

unfoldable pub reverse_rendered : Text → Text → Text → List Claim → Reversed
reverse_rendered current path committed claims =
    reverse_by current (rules claims) (substitute_spans path committed claims)
