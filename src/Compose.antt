-- ===== src/Compose.antt =====
-- crates/newgit-core/src/compose.rs: the trailers that a root commit's message carries about the
-- view commit it was split from. Messages and headers are byte strings.
pub mod Lines
pub mod Trailers
use newgit.Prelude.{
  ℕ, Bool, true, false, not, ◌&&◌, ◌||◌, Option, none, some, List, [], ◌∷◌, ◌++◌, all, filter,
  length, ◌==◌, nat_eq, list_eq, if◌then◌else◌, leb, is_prefix,
}
use newgit.Text.{Text, bytes, is_empty, starts_with, split_on, is_ascii_digit}

abbrev pub newline : ℕ
newline = 10

abbrev pub gap : Text
gap = newline ∷ newline ∷ []

abbrev pub split_trailer : Text
split_trailer = bytes "Newgit-Split: "

abbrev pub header_trailer : Text
header_trailer = bytes "Newgit-Split-Header: "

-- `message.split_at(body_len)`: the final run of newlines is the second half.
unfoldable pub split_ending : Text → Text × Text
split_ending [] = ([], [])
split_ending (c ∷ s) =
    let (body, ending) = split_ending s in
    if is_empty body && c == newline then ([], c ∷ ending) else (c ∷ body, ending)

-- The loop over the lines of the headers.
unfoldable pub header_lines : List Text → Text
header_lines [] = []
header_lines (line ∷ lines) =
    let rest = header_lines lines in
    if is_empty line then rest else header_trailer ++ (line ++ newline ∷ rest)

unfoldable pub with_split_trailers : Text → Text → Text → Text
with_split_trailers message source headers =
    let (body, ending) = split_ending message in
    body
    ++ (gap ++ (header_lines (split_on newline headers) ++ (split_trailer ++ (source ++ ending))))

pub record SplitFrom : Type 0 where
  pub source : Text
  pub message : Text
  pub headers : Text

-- Around the last pair of newlines, `windows(2).rposition(..)`.
abbrev pub or_gap_here : ℕ → Text → Option (Text × Text) → Option (Text × Text)
or_gap_here c s (some (before, after)) = some (c ∷ before, after)
or_gap_here c [] none = none
or_gap_here c (d ∷ s) none = if c == newline && d == newline then some ([], s) else none

unfoldable pub split_last_gap : Text → Option (Text × Text)
split_last_gap [] = none
split_last_gap (c ∷ s) = or_gap_here c s (split_last_gap s)

-- `lines.pop()`, with the lines that stay.
abbrev pub onto_popped : Text → Option (List Text × Text) → Option (List Text × Text)
onto_popped line none = some ([], line)
onto_popped line (some (lines, last)) = some (line ∷ lines, last)

unfoldable pub pop : List Text → Option (List Text × Text)
pop [] = none
pop (line ∷ lines) = onto_popped line (pop lines)

abbrev pub drop : Text → Text → Text
drop [] s = s
drop (x ∷ p) [] = []
drop (x ∷ p) (c ∷ s) = drop p s

abbrev pub strip_prefix : Text → Text → Option Text
strip_prefix p s = if starts_with s p then some (drop p s) else none

abbrev pub is_ascii_hexdigit : ℕ → Bool
is_ascii_hexdigit c = is_ascii_digit c || (leb b'a' c && leb c b'f') || (leb b'A' c && leb c b'F')

abbrev pub is_commit_id : Text → Bool
is_commit_id source = length source == 40 && all is_ascii_hexdigit source

abbrev pub strip_headers : List Text → Text
strip_headers [] = []
strip_headers (line ∷ lines) = drop header_trailer line ++ newline ∷ strip_headers lines

-- `lines.join(&b'\n')`
abbrev pub join_lines : List Text → Text
join_lines [] = []
join_lines (line ∷ []) = line
join_lines (line ∷ next ∷ lines) = line ++ newline ∷ join_lines (next ∷ lines)

abbrev pub or_whole : Text → Option (Text × Text) → Text × Text
or_whole trimmed none = ([], trimmed)
or_whole trimmed (some halves) = halves

-- With the last line taken off. What is no UTF-8 is no hexadecimal id either, so one test refuses
-- both.
unfoldable pub from_block : Text → Text → Option (List Text × Text) → Option SplitFrom
from_block body ending none = none
from_block body ending (some (lines, last)) = elim (strip_prefix split_trailer last) [
  | none ↦ none
  | some source ↦
      if not (is_commit_id source)
      then none
      else if all (λ line. starts_with line header_trailer) lines
      then some
          (record { source = source; message = body ++ ending; headers = strip_headers lines })
      else some (record {
        source = source;
        message = body ++ (gap ++ (join_lines lines ++ ending));
        headers = [];
      })
]

unfoldable pub parse_split : Text → Option SplitFrom
parse_split message =
    let (trimmed, ending) = split_ending message in
    let (body, block) = or_whole trimmed (split_last_gap trimmed) in
    from_block body ending (pop (split_on newline block))
