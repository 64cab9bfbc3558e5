-- ===== src/Objects/Commits.antt =====
-- A commit's bytes read back (crates/newgit-core/src/objects.rs: `Commit::body`, `Commit::parse`).
use native.Mathlib.Decide.{ℕ_discrete}
use mathlib.Core.List.{append-nil, append_assoc}
use mathlib.Core.Path.{ap₂}
use newgit.Prelude.{
  ◌≡◌, refl, ap, sym, ◌∙◌, true, false, List, [], ◌∷◌, ◌++◌, map, all, length, arith, nat_eq,
  list_eq,
}
use newgit.Text.{Text, bytes, split_on}
use newgit.Text.Split.{lacks}
use newgit.Text.Slice.{take, drop, drop-append, take-append}
use newgit.Resource.Accessors.{or_else}
use newgit.Objects.{
  Commit, newline, tree_line, parent_line, author_line, committer_line, parent_lines, body, Header,
  header_of, read_header, read_lines, parse_at, parse,
}
use newgit.Objects.Lines.{is_line, ended, joined, ended-joined, find-gap, split-joined, ended-line}

-- The lines before the headers, and the headers' lines.
abbrev pub head_lines : Text → List Text → Text → Text → List Text → List Text
head_lines tree parents author committer header_lines =
    map (λ parent. bytes "parent " ++ parent) parents
    ++ (bytes "author " ++ author) ∷ (bytes "committer " ++ committer) ∷ header_lines

parents-ended :
    (parents : List Text) (lines : List Text) (s : Text)
    → parent_lines parents (ended lines ++ s)
      ≡ ended (map (λ parent. bytes "parent " ++ parent) parents ++ lines) ++ s
parents-ended [] lines s = refl
parents-ended (parent ∷ parents) lines s =
    ap (λ t. (bytes "parent " ++ parent) ++ (newline ∷ t)) (parents-ended parents lines s)
    ∙ sym (
        append_assoc (bytes "parent " ++ parent)
          (newline ∷ ended (map (λ parent. bytes "parent " ++ parent) parents ++ lines)) s)

body-joined :
    (tree : Text) (parents : List Text) (author committer : Text) (header_lines : List Text)
    (message : Text)
    → body tree parents author committer (ended header_lines) message
      ≡ joined (bytes "tree " ++ tree) (head_lines tree parents author committer header_lines)
        ++ (newline ∷ newline ∷ message)
unfolding body
body-joined tree parents author committer header_lines message =
    let header_text = ended header_lines ++ (newline ∷ message) in
    let tail_lines =
      (bytes "author " ++ author) ∷ (bytes "committer " ++ committer) ∷ header_lines in
    let named : bytes "author "
          ++ (author ++ (newline ∷ (bytes "committer " ++ (committer ++ (newline ∷ header_text)))))
        ≡ ended tail_lines ++ (newline ∷ message) =
      ap (λ t. (bytes "author " ++ author) ++ (newline ∷ t))
        (ended-line (bytes "committer " ++ committer) header_lines (newline ∷ message))
      ∙ ended-line (bytes "author " ++ author) ((bytes "committer " ++ committer) ∷ header_lines)
          (newline ∷ message) in
    ap (λ t. bytes "tree " ++ (tree ++ (newline ∷ parent_lines parents t))) named
    ∙ ap (λ t. bytes "tree " ++ (tree ++ (newline ∷ t)))
        (parents-ended parents tail_lines (newline ∷ message))
    ∙ ended-line (bytes "tree " ++ tree) (head_lines tree parents author committer header_lines)
        (newline ∷ message)
    ∙ ended-joined (bytes "tree " ++ tree) (head_lines tree parents author committer header_lines)
        (newline ∷ message)

tree_header : (t : Text) → header_of (bytes "tree " ++ t) ≡ tree_line t
unfolding header_of nat_eq list_eq ℕ_discrete
tree_header t = refl

parent_header : (t : Text) → header_of (bytes "parent " ++ t) ≡ parent_line t
unfolding header_of nat_eq list_eq ℕ_discrete
parent_header t = refl

author_header : (t : Text) → header_of (bytes "author " ++ t) ≡ author_line t
unfolding header_of nat_eq list_eq ℕ_discrete
author_header t = refl

committer_header : (t : Text) → header_of (bytes "committer " ++ t) ≡ committer_line t
unfolding header_of nat_eq list_eq ℕ_discrete
committer_header t = refl

named_lines :
    (t : Text)
    → lacks newline t ≡ true
    → (is_line (bytes "tree " ++ t) ≡ true)
      × (is_line (bytes "parent " ++ t) ≡ true)
      × (is_line (bytes "author " ++ t) ≡ true)
      × (is_line (bytes "committer " ++ t) ≡ true)
unfolding nat_eq list_eq ℕ_discrete
named_lines t h = (h, h, h, h)

head_lines-are_lines :
    (tree : Text) (parents : List Text) (author committer : Text) (header_lines : List Text)
    → all (lacks newline) parents ≡ true
    → lacks newline author ≡ true
    → lacks newline committer ≡ true
    → all is_line header_lines ≡ true
    → all is_line (head_lines tree parents author committer header_lines) ≡ true
head_lines-are_lines tree [] author committer header_lines p a c h =
    let (t, r, named, signed) = named_lines author a in
    let (t', r', named', signed') = named_lines committer c in ground (arith, named, signed', h)
head_lines-are_lines tree (parent ∷ parents) author committer header_lines p a c h =
    let (t, r, named, signed) = named_lines parent (ground (arith, p)) in
    ground (
      arith,
      r,
      head_lines-are_lines tree parents author committer header_lines (ground (arith, p)) a c h,
    )

module _ (lossy : Text → Text) where
  read_lines-headers :
      (lines : List Text) (c : Commit)
      → read_lines lossy lines true c ≡ record c { headers = c.headers ++ ended lines }
  unfolding read_lines
  read_lines-headers [] c = ap (λ h. record c { headers = h }) (sym (append-nil c.headers))
  read_lines-headers (line ∷ lines) c =
      read_lines-headers lines (record c { headers = c.headers ++ (line ++ newline ∷ []) })
      ∙ ap (λ h. record c { headers = h })
          (append_assoc c.headers (line ++ newline ∷ []) (ended lines)
            ∙ ap (λ t. c.headers ++ t) (append_assoc line (newline ∷ []) (ended lines)))

  read_lines-line :
      (line : Text) (header : Header) (lines : List Text) (c : Commit)
      → header_of line ≡ header
      → read_lines lossy (line ∷ lines) false c
        ≡ read_lines lossy lines (read_header lossy header c).0 (read_header lossy header c).1
  unfolding read_lines
  read_lines-line line header lines c h =
      ap (λ x. read_lines lossy lines (read_header lossy x c).0 (read_header lossy x c).1) h

  read_lines-parents :
      (parents lines : List Text) (c : Commit)
      → read_lines lossy (map (λ parent. bytes "parent " ++ parent) parents ++ lines) false c
        ≡ read_lines lossy lines false (record c { parents = c.parents ++ map lossy parents })
  read_lines-parents [] lines c =
      ap (λ ps. read_lines lossy lines false (record c { parents = ps }))
        (sym (append-nil c.parents))
  read_lines-parents (parent ∷ parents) lines c =
      read_lines-line (bytes "parent " ++ parent) (parent_line parent)
        (map (λ parent. bytes "parent " ++ parent) parents ++ lines) c (parent_header parent)
      ∙ read_lines-parents parents lines (record c { parents = c.parents ++ lossy parent ∷ [] })
      ∙ ap (λ ps. read_lines lossy lines false (record c { parents = ps }))
          (append_assoc c.parents (lossy parent ∷ []) (map lossy parents))

  abbrev start : Text → Text → Commit
  start id message = record {
    id = id;
    tree = [];
    parents = [];
    author = [];
    committer = [];
    headers = [];
    message = message;
  }

  -- The head of some lines and a message behind a gap is read line by line.
  parse-joined :
      (id line : Text) (lines : List Text) (message : Text)
      → is_line line ≡ true
      → all is_line lines ≡ true
      → parse lossy id (joined line lines ++ (newline ∷ newline ∷ message))
        ≡ read_lines lossy (line ∷ lines) false (start id message)
  unfolding parse drop
  parse-joined id line lines message h a =
      let head = joined line lines in
      let end = newline ∷ newline ∷ message in
      ap (λ o. parse_at lossy id (head ++ end) (or_else o (length (head ++ end))))
        (find-gap line lines message h a)
      ∙ ap
          (λ m.
            read_lines lossy (split_on newline (take (length head) (head ++ end))) false
              (start id (drop 2 m)))
          (drop-append head end)
      ∙ ap (λ t. read_lines lossy (split_on newline t) false (start id message))
          (take-append head end)
      ∙ ap (λ ls. read_lines lossy ls false (start id message)) (split-joined line lines h a)

  read-head_lines :
      (id tree : Text) (parents : List Text) (author committer : Text) (header_lines : List Text)
      (message : Text)
      → read_lines lossy
          ((bytes "tree " ++ tree) ∷ head_lines tree parents author committer header_lines)
          false
          (start id message)
        ≡ record (start id message) {
          tree = lossy tree;
          parents = map lossy parents;
          author = author;
          committer = committer;
          headers = ended header_lines;
        }
  read-head_lines id tree parents author committer header_lines message =
      let c₁ = record (start id message) { tree = lossy tree } in
      let c₂ = record c₁ { parents = map lossy parents } in
      let c₃ = record c₂ { author = author } in
      let author_text = bytes "author " ++ author in
      let committer_text = bytes "committer " ++ committer in
      read_lines-line (bytes "tree " ++ tree) (tree_line tree)
        (head_lines tree parents author committer header_lines) (start id message)
        (tree_header tree)
      ∙ read_lines-parents parents (author_text ∷ committer_text ∷ header_lines) c₁
      ∙ read_lines-line author_text (author_line author) (committer_text ∷ header_lines) c₂
          (author_header author)
      ∙ read_lines-line committer_text (committer_line committer) header_lines c₃
          (committer_header committer)
      ∙ read_lines-headers header_lines (record c₃ { committer = committer })

  -- `Commit::parse` reads what `Commit::body` writes, for a tree, parents, an author and a committer with
  -- no newline, ids that the repair of bytes leaves alone, and headers whose lines are not empty and end
  -- in a newline.
  pub parse-body :
      (id tree : Text) (parents : List Text) (author committer : Text) (header_lines : List Text)
      (message : Text)
      → lacks newline tree ≡ true
      → all (lacks newline) parents ≡ true
      → lacks newline author ≡ true
      → lacks newline committer ≡ true
      → all is_line header_lines ≡ true
      → lossy tree ≡ tree
      → map lossy parents ≡ parents
      → parse lossy id (body tree parents author committer (ended header_lines) message) ≡ record {
        id = id;
        tree = tree;
        parents = parents;
        author = author;
        committer = committer;
        headers = ended header_lines;
        message = message;
      }
  unfolding parse
  parse-body id tree parents author committer header_lines message t p a c h lt lp =
      let lines = head_lines tree parents author committer header_lines in
      ap (parse lossy id) (body-joined tree parents author committer header_lines message)
      ∙ parse-joined id (bytes "tree " ++ tree) lines message (named_lines tree t).0
          (head_lines-are_lines tree parents author committer header_lines p a c h)
      ∙ read-head_lines id tree parents author committer header_lines message
      ∙ ap₂
          (λ x xs. record (start id message) {
            tree = x;
            parents = xs;
            author = author;
            committer = committer;
            headers = ended header_lines;
          })
          lt lp
