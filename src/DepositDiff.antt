-- ===== src/DepositDiff.antt =====
-- crates/newgit-core/src/deposit_diff.rs: the readers that the report of two deposits is made with. What each read
-- returns is a parameter.
pub mod Counted
pub mod Bounded
use newgit.Prelude.{
  ℕ, zero, suc, ◌+◌, ◌-◌, ◌≡◌, Bool, true, false, not, ◌&&◌, ◌||◌, Option, none, some, List, [],
  ◌∷◌, ◌++◌, length, filter, ◌==◌, nat_eq, if◌then◌else◌, ltb, leb,
}
use newgit.Text.{Text, bytes}
use newgit.Text.Slice.{take, drop}
use newgit.Installs.{smaller}

abbrev pub newline : ℕ
newline = b'\n'

-- Four bytes for each of the 120 characters of an excerpt's line, and four more.
abbrev pub line_bytes : ℕ
line_bytes = 484

abbrev pub is_newline : ℕ → Bool
is_newline byte = byte == newline

-- The last byte of a chunk, if it has one.
abbrev pub last_byte : Option ℕ → Text → Option ℕ
last_byte before [] = before
last_byte before (byte ∷ rest) = last_byte (some byte) rest

-- A final line with no newline counts.
abbrev pub unended : Option ℕ → ℕ
unended none = 0
unended (some byte) = if is_newline byte then 0 else 1

-- The loop of `line_count`, on fuel: a read takes some bytes, at most 64 KiB, until there are none.
unfoldable pub count_chunks : (ℕ → ℕ) → ℕ → ℕ → Text → ℕ → Option ℕ → ℕ
count_chunks sizes zero round rest lines last = lines
count_chunks sizes (suc fuel) round [] lines last = lines + unended last
count_chunks sizes (suc fuel) round (byte ∷ rest) lines last =
    let count = smaller (suc (sizes round)) 65536 in
    let chunk = take count (byte ∷ rest) in
    count_chunks sizes fuel (suc round) (drop count (byte ∷ rest))
      (lines + length (filter is_newline chunk)) (last_byte last chunk)

unfoldable pub line_count : (ℕ → ℕ) → Text → ℕ
line_count sizes content = count_chunks sizes (suc (length content)) 0 content 0 none

-- What stands before the first newline, and what behind it.
unfoldable pub cut : Text → Text × Option Text
cut [] = ([], none)
cut (byte ∷ rest) =
    let (before, after) = cut rest in
    if is_newline byte then ([], some rest) else (byte ∷ before, after)

-- What is left of a buffer; one that is empty is read again.
abbrev pub unread : Text → List Text → List Text
unread [] buffers = buffers
unread (byte ∷ rest) buffers = (byte ∷ rest) ∷ buffers

abbrev pub extended : Text → Text → Text
extended line chunk = line ++ take (line_bytes - length line) chunk

-- The loop of `read_bounded_line` over the buffers that the reader gives, none of them empty: the line with what is
-- left to read.
unfoldable pub line_loop : Text → Bool → List Text → Option Text × List Text
line_loop line seen [] = (if seen then some line else none, [])
line_loop line seen (buffer ∷ buffers) =
    let (chunk, after) = cut buffer in
    let more = line_loop (extended line chunk) true buffers in
    elim after [ none ↦ more | some rest ↦ (some (extended line chunk), unread rest buffers) ]

unfoldable pub read_bounded_line : List Text → Option Text × List Text
read_bounded_line buffers = line_loop [] false buffers
