-- ===== src/Templates.antt =====
-- crates/newgit-core/src/exports.rs: the templates of exports and commands.
use newgit.Prelude.{
  ℕ, zero, suc, ◌-◌, ◌≡◌, refl, Bool, true, not, ◌&&◌, Option, none, some, List, [], ◌∷◌, ◌++◌, all,
  length, is_prefix, nat_eq, if◌then◌else◌, Bool-cases, inl, inr, cons_some,
}
use newgit.Text.{Text, bytes, is_empty, has_substring, decimal}
use newgit.Compose.{drop}

-- `s.replace(pattern, with)`, for a pattern that is not empty; the number counts what is left of a match.
unfoldable pub replace_loop : Text → Text → ℕ → Text → Text
replace_loop pattern with n [] = []
replace_loop pattern with (suc n) (c ∷ s) = replace_loop pattern with n s
replace_loop pattern with zero (c ∷ s) =
    let matched = replace_loop pattern with (length pattern - 1) s in
    let kept = replace_loop pattern with zero s in
    if is_prefix pattern (c ∷ s) then with ++ matched else c ∷ kept

unfoldable pub replace : Text → Text → Text → Text
replace pattern with s = replace_loop pattern with zero s

pub record Bound : Type 0 where
  pub trackers : Text
  pub paths : Text

pub record RenderContext : Type 0 where
  pub branch_name : Text
  pub branch_slug : Text
  pub workspace : Text
  pub scripts : Text
  pub ports : Option (List (Text × ℕ))
  pub exports : Option (List (Text × Text))
  pub snapshot_path : Option Text
  pub state_ref : Option Text
  pub bound : Option Bound

abbrev pub replace_bound : Option Bound → Text → Text
replace_bound none s = s
replace_bound (some b) s =
    replace (bytes "{{bound.paths}}") b.paths (replace (bytes "{{bound.trackers}}") b.trackers s)

abbrev pub replace_ports : List (Text × ℕ) → Text → Text
replace_ports [] s = s
replace_ports ((name, port) ∷ ports) s =
    replace_ports ports (replace (bytes "{{ports." ++ (name ++ bytes "}}")) (decimal port) s)

abbrev pub replace_exports : List (Text × Text) → Text → Text
replace_exports [] s = s
replace_exports ((name, value) ∷ exports) s =
    replace_exports exports (replace (bytes "{{exports." ++ (name ++ bytes "}}")) value s)

abbrev pub replace_option : Text → Option Text → Text → Text
replace_option pattern none s = s
replace_option pattern (some value) s = replace pattern value s

abbrev pub or_nil {ℓ} : {A : Type ℓ} → Option (List A) → List A
or_nil none = []
or_nil (some xs) = xs

unfoldable pub render : Text → RenderContext → Text
render template context =
    let named = replace (bytes "{{branch.name}}") context.branch_name template in
    let slugged = replace (bytes "{{branch.slug}}") context.branch_slug named in
    let placed = replace (bytes "{{workspace}}") context.workspace slugged in
    let scripted = replace (bytes "{{scripts}}") context.scripts placed in
    let bound = replace_bound context.bound scripted in
    let ported = replace_ports (or_nil context.ports) bound in
    let exported = replace_exports (or_nil context.exports) ported in
    let snapped = replace_option (bytes "{{snapshot.path}}") context.snapshot_path exported in
    replace_option (bytes "{{state_ref}}") context.state_ref snapped

abbrev pub opener : Text
opener = bytes "{{exports."

-- The text before the first `}}`.
abbrev pub onto_before : ℕ → Option Text → Option Text
onto_before c none = none
onto_before c (some before) = some (c ∷ before)

unfoldable pub before_close : Text → Option Text
before_close [] = none
before_close (c ∷ s) =
    let rest = before_close s in
    if is_prefix (bytes "}}") (c ∷ s) then some [] else onto_before c rest

abbrev pub proper_name : Text → Bool
proper_name name = not (is_empty name) && not (has_substring name (bytes "{{"))

-- What one opener's rest names.
abbrev pub named : Option Text → Option Text
named none = none
named (some name) = if proper_name name then some name else none

-- The loop over the places where the opener stands.
unfoldable pub export_placeholders : Text → List Text
export_placeholders [] = []
export_placeholders (c ∷ s) =
    let rest = export_placeholders s in
    if is_prefix opener (c ∷ s)
    then cons_some (named (before_close (drop opener (c ∷ s)))) rest
    else rest

-- From the first `{{` on.
unfoldable pub from_open : Text → Option Text
from_open [] = none
from_open (c ∷ s) =
    let rest = from_open s in if is_prefix (bytes "{{") (c ∷ s) then some (c ∷ s) else rest

abbrev pub with_close : Option Text → Option Text
with_close none = none
with_close (some before) = some (before ++ bytes "}}")

abbrev pub close_of : Option Text → Option Text
close_of none = none
close_of (some rest) = with_close (before_close rest)

unfoldable pub unresolved_placeholder : Text → Option Text
unresolved_placeholder rendered = close_of (from_open rendered)

named-proper :
    (o : Option Text) (xs : List Text)
    → all proper_name xs ≡ true
    → all proper_name (cons_some (named o) xs) ≡ true
named-proper none xs h = h
named-proper (some name) xs h = elim (Bool-cases (proper_name name)) [
  | inl k ↦ rw k (rw k h)
  | inr k ↦ rw k h
]

-- Every name that `export_placeholders` reads is not empty and has no `{{` in it.
pub all-export_placeholders :
    (template : Text) → all proper_name (export_placeholders template) ≡ true
unfolding export_placeholders
all-export_placeholders [] = refl
all-export_placeholders (c ∷ s) = elim (Bool-cases (is_prefix opener (c ∷ s))) [
  | inl k ↦ rw k (
      named-proper (before_close (drop opener (c ∷ s))) (export_placeholders s)
        (all-export_placeholders s))
  | inr k ↦ rw k (all-export_placeholders s)
]
