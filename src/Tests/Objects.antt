-- ===== src/Tests/Objects.antt =====
-- A commit and a tree, as bytes.
use native.Mathlib.Decide.{ℕ_discrete}
use newgit.Prelude.{◌≡◌, refl, [], ◌∷◌, nat_eq, list_eq}
use newgit.Text.{bytes}
use newgit.Objects.{body, parse}
use newgit.Objects.Lines.{ended}
use newgit.Objects.Commits.{parse-body}
use newgit.Objects.Trees.{Entry, tree_mode, parse_tree, made_body, sorted_entries, empty_tree}
use newgit.Objects.Entries.{parse_tree-made_body}

parse-body_example :
    parse
      (λ t. t)
      (bytes "id")
      (body
        (bytes "aa")
        (bytes "bb" ∷ bytes "cc" ∷ [])
        (bytes "A")
        (bytes "C")
        (ended (bytes "gpgsig x" ∷ bytes " y" ∷ []))
        (bytes "m"))
    ≡ record {
      id = bytes "id";
      tree = bytes "aa";
      parents = bytes "bb" ∷ bytes "cc" ∷ [];
      author = bytes "A";
      committer = bytes "C";
      headers = ended (bytes "gpgsig x" ∷ bytes " y" ∷ []);
      message = bytes "m";
    }
unfolding nat_eq list_eq ℕ_discrete
parse-body_example =
    parse-body (λ t. t) (bytes "id") (bytes "aa") (bytes "bb" ∷ bytes "cc" ∷ []) (bytes "A")
      (bytes "C") (bytes "gpgsig x" ∷ bytes " y" ∷ []) (bytes "m") refl refl refl refl refl refl
      refl

abbrev subtree : Entry
subtree = record { mode = tree_mode; name = bytes "src"; id = empty_tree }

abbrev file : Entry
file = record { mode = bytes "100644"; name = bytes "a"; id = empty_tree }

parse_tree-made_body_example :
    parse_tree (made_body (subtree ∷ file ∷ [])) ≡ sorted_entries (subtree ∷ file ∷ [])
unfolding nat_eq list_eq ℕ_discrete
parse_tree-made_body_example = parse_tree-made_body (subtree ∷ file ∷ []) refl
