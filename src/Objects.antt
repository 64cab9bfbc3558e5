-- ===== src/Objects.antt =====
-- crates/newgit-core/src/objects.rs: commits and trees as the bytes that Git stores. What Git reads for an
-- id, SHA-1 and the repair of bytes that are no UTF-8 are parameters.
pub mod Lines
pub mod Commits
pub mod Trees
pub mod Entries
pub mod Store
pub mod Distinct
use Prim.Native.Nat.{◌/◌, ◌%◌}
use newgit.Prelude.{
  ℕ, zero, suc, ◌+◌, ◌-◌, ◌*◌, Bool, true, false, not, ◌&&◌, ◌||◌, Option, none, some, List, [],
  ◌∷◌, ◌++◌, map, filter, length, ltb, leb, ◌==◌, nat_eq, list_eq, if◌then◌else◌, is_prefix,
  contains,
}
use newgit.Prelude.Sort.{sort_by}
use newgit.Text.{Text, bytes, split_on, starts_with, is_empty, cmp, decimal}
use newgit.Text.Slice.{take, drop, slice}
use newgit.Compose.{strip_prefix}
use newgit.Resource.Accessors.{or_else}

abbrev pub newline : ℕ
newline = b'\n'

pub record Commit : Type 0 where
  pub id : Text
  pub tree : Text
  pub parents : List Text
  pub author : Text
  pub committer : Text
  pub headers : Text
  pub message : Text

abbrev pub parent_lines : List Text → Text → Text
parent_lines [] rest = rest
parent_lines (parent ∷ parents) rest =
    bytes "parent " ++ (parent ++ (newline ∷ parent_lines parents rest))

-- `Commit::body`
unfoldable pub body : Text → List Text → Text → Text → Text → Text → Text
body tree parents author committer headers message =
    bytes "tree "
    ++ (tree
        ++ (newline
            ∷ parent_lines parents (
                bytes "author "
                ++ (author
                    ++ (newline
                        ∷ (bytes "committer "
                            ++ (committer ++ (newline ∷ (headers ++ (newline ∷ message))))))))))

-- Where the needle first stands in the haystack.
abbrev pub one_on : Option ℕ → Option ℕ
one_on none = none
one_on (some n) = some (suc n)

unfoldable pub find : Text → Text → Option ℕ
find [] needle = none
find (c ∷ haystack) needle =
    let rest = find haystack needle in
    if is_prefix needle (c ∷ haystack) then some 0 else one_on rest

-- What a line of the head says, until the committer's line.
pub data Header : Type 0 where
  tree_line parent_line author_line committer_line : Text → Header
  other_line : Header

abbrev pub or_header : Option Text → (Text → Header) → Header → Header
or_header none header other = other
or_header (some value) header other = header value

unfoldable pub header_of : Text → Header
header_of line = or_header (strip_prefix (bytes "tree ") line) tree_line (
    or_header (strip_prefix (bytes "parent ") line) parent_line (
      or_header (strip_prefix (bytes "author ") line) author_line
        (or_header (strip_prefix (bytes "committer ") line) committer_line other_line)))

module _ (lossy : Text → Text) where
  -- One line, with whether the committer's line has been read.
  abbrev pub read_header : Header → Commit → Bool × Commit
  read_header (tree_line value) c = (false, record c { tree = lossy value })
  read_header (parent_line value) c = (false, record c { parents = c.parents ++ lossy value ∷ [] })
  read_header (author_line value) c = (false, record c { author = value })
  read_header (committer_line value) c = (true, record c { committer = value })
  read_header other_line c = (false, c)

  abbrev pub read_line : Text → Bool → Commit → Bool × Commit
  read_line line true c = (true, record c { headers = c.headers ++ (line ++ newline ∷ []) })
  read_line line false c = read_header (header_of line) c

  unfoldable pub read_lines : List Text → Bool → Commit → Commit
  read_lines [] after_committer c = c
  read_lines (line ∷ lines) after_committer c =
      let (after, read) = read_line line after_committer c in read_lines lines after read

  abbrev pub parse_at : Text → Text → ℕ → Commit
  parse_at id raw split = read_lines (split_on newline (take split raw)) false (record {
    id = id;
    tree = [];
    parents = [];
    author = [];
    committer = [];
    headers = [];
    message = drop 2 (drop split raw);
  })

  -- `Commit::parse`
  unfoldable pub parse : Text → Text → Commit
  parse id raw = parse_at id raw (or_else (find raw (newline ∷ newline ∷ [])) (length raw))
