-- ===== src/Tests/Installs.antt =====
-- A produced tree that is scanned.
use native.Mathlib.Decide.{ℕ_discrete}
use newgit.Prelude.{ℕ, ◌≤◌, ◌+◌, ◌⊎◌, ◌≡◌, refl, true, none, some, List, [], ◌∷◌, nat_eq, list_eq}
use newgit.Text.{Text, bytes, has_substring, split_on}
use newgit.DepositDiff.{cut, line_loop, read_bounded_line, count_chunks, line_count}
use newgit.Text.Slice.{take, drop}
use newgit.Paths.{push, same_path, components, relative_components, part_component, component_eq}
use newgit.Installs.{longest, file_contains_any}
use newgit.Installs.Scan.{file_contains_any-matches}
use newgit.Installs.Walk.{
  Node, file, symlink, dir, nil, cons, Walk, walk_from, Step, visited, found, written, Steps, ended,
  onward,
}
use newgit.Installs.Names.{NamedUnder, find_path_reference_lem}
use newgit.Installs.Ends.{weight, count, walk_ends}

abbrev one_byte : ℕ → ℕ
one_byte round = 0

abbrev workspace : List Text
workspace = bytes "/ws" ∷ []

file_contains_any-matches_example : file_contains_any one_byte workspace (bytes "x=/ws") ≡ true
unfolding longest has_substring nat_eq ℕ_discrete
file_contains_any-matches_example = file_contains_any-matches one_byte workspace (bytes "x=/ws")

-- The file is exempt, by another spelling of its path, and the link is not.
abbrev exempt_file : List Text
exempt_file = bytes "t//a" ∷ []

abbrev tree : Node
tree =
    dir (cons (bytes "a") (file (bytes "x=/ws")) (cons (bytes "b") (symlink (bytes "/ws/b")) nil))

abbrev start : Walk
start = walk_from (bytes "t") tree

abbrev both_queued : Walk
both_queued = record start {
  queued =
      (push (bytes "t") (bytes "a"), file (bytes "x=/ws"))
      ∷ (push (bytes "t") (bytes "b"), symlink (bytes "/ws/b"))
      ∷ [];
}

abbrev queued : Walk
queued = record start { queued = (push (bytes "t") (bytes "b"), symlink (bytes "/ws/b")) ∷ [] }

abbrev stopped : Walk
stopped = record {
  stop = true;
  outcome = none;
  queued = [];
  finishing = push (bytes "t") (bytes "b") ∷ [];
}

abbrev finished : Walk
finished = record {
  stop = true;
  outcome = some (push (bytes "t") (bytes "b"));
  queued = [];
  finishing = [];
}

run : Steps one_byte workspace exempt_file start finished
unfolding has_substring nat_eq list_eq ℕ_discrete push same_path components relative_components
    split_on part_component component_eq
run = onward start both_queued finished (visited start [] [] (bytes "t", tree) refl refl) (
    onward both_queued queued finished
      (visited both_queued [] ((push (bytes "t") (bytes "b"), symlink (bytes "/ws/b")) ∷ [])
        (push (bytes "t") (bytes "a"), file (bytes "x=/ws")) refl refl)
      (onward queued stopped finished
        (found queued [] [] (push (bytes "t") (bytes "b")) (symlink (bytes "/ws/b")) refl refl)
        (onward stopped finished finished
          (written stopped [] [] (push (bytes "t") (bytes "b")) refl) (ended finished))))

find_path_reference_lem_example :
    ((path : Text)
      → finished.outcome ≡ some path
      → NamedUnder workspace exempt_file one_byte (bytes "t") tree path)
    × (finished.outcome ≡ none
        → (path : Text) → NamedUnder workspace exempt_file one_byte (bytes "t") tree path
        → ⊥)
find_path_reference_lem_example =
    find_path_reference_lem workspace exempt_file one_byte (bytes "t") tree finished run refl refl

walk_ends_example :
    (count one_byte workspace exempt_file run + weight finished ≤ weight start)
    × (((finished.queued ≡ []) × (finished.finishing ≡ []))
        ⊎ ((c : Walk) × Step one_byte workspace exempt_file finished c))
walk_ends_example = walk_ends one_byte workspace exempt_file start finished run

-- A line over two buffers, and what is left of the second.
line_read :
    read_bounded_line (bytes "on" ∷ bytes "e\ntwo" ∷ []) ≡ (some (bytes "one"), bytes "two" ∷ [])
unfolding read_bounded_line line_loop cut take nat_eq ℕ_discrete
line_read = refl

lines_counted : line_count one_byte (bytes "a\nb") ≡ 2
unfolding line_count count_chunks take drop nat_eq ℕ_discrete
lines_counted = refl
