-- ===== src/Tests/Compose.antt =====
-- A message's trailers at concrete texts.
use native.Mathlib.Decide.{ℕ_discrete}
use newgit.Prelude.{◌≡◌, refl, [], ◌∷◌, ◌++◌, some, true, nat_eq}
use newgit.Text.{Text, bytes, split_on}
use newgit.Compose.{newline, with_split_trailers, parse_split, is_commit_id}
use newgit.Compose.Lines.{terminated}
use newgit.Compose.Trailers.{parse_split-with_split_trailers}

abbrev commit_id : Text
commit_id = bytes "0123456789abcdef0123456789abcdef01234567"

abbrev subject : Text
subject = bytes "fix the slug" ++ newline ∷ newline ∷ bytes "It was empty." ++ newline ∷ []

abbrev signature : Text
signature = bytes "gpgsig x" ++ newline ∷ bytes " y" ++ newline ∷ []

is_id : is_commit_id commit_id ≡ true
unfolding nat_eq ℕ_discrete
is_id = refl

parse_split-with_split_trailers_example :
    parse_split (with_split_trailers subject commit_id signature)
    ≡ some (record {
      source = commit_id;
      message = subject;
      headers = terminated (split_on newline signature);
    })
parse_split-with_split_trailers_example =
    parse_split-with_split_trailers subject commit_id signature is_id
