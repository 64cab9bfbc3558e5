-- ===== src/Objects/Store.antt =====
-- crates/newgit-core/src/objects.rs: the store of objects: what was read or made is kept, and what was made
-- waits to be written. Each operation takes the store and gives it back; an error ends the run. SHA-1, what
-- Git reads for an id, and the repair of bytes are parameters.
pub mod Keeps
pub mod Known
mod Reads
pub mod Occurring
mod Levels
pub mod Paths
mod Among
mod Beside
mod Others
pub mod Frame
use newgit.Prelude.{
  ℕ, zero, suc, ◌+◌, ◌≡◌, Bool, true, false, not, ◌&&◌, ◌||◌, Option, none, some, List, [], ◌∷◌,
  ◌++◌, map, any, filter, find, length, ◌==◌, nat_eq, list_eq, if◌then◌else◌, contains,
}
use newgit.Text.{Text, bytes, split_on, is_empty, decimal}
use newgit.Error.{NewgitError, unsupported, source_command, Result, ok, err, ◌>>=◌}
use newgit.Resource.Accessors.{get, is_some, is_empty_list}
use newgit.Objects.{Commit, body, parse}
use newgit.Objects.Trees.{
  Entry, tree_mode, empty_tree, is_tree, sorted_entries, hex, tree_body, parse_tree,
}

pub record Objects : Type 0 where
  pub commits : List (Text × Commit)
  pub trees : List (Text × List Entry)
  -- Made here and not written: the kind, the id and the body.
  pub pending : List (Text × Text × Text)
  pub pending_ids : List Text

-- `a/b/c` as its parts.
unfoldable pub split_path : Text → List Text
split_path path =
    filter (λ part. not (is_empty part) && not (part == bytes ".")) (split_on b'/' path)

abbrev pub named : Text → Entry → Bool
named name entry = entry.name == name

-- The first entry of the name is replaced, or taken out; one that is not there is added behind.
abbrev pub replace_named : Text → Option Entry → List Entry → List Entry
replace_named name none [] = []
replace_named name (some entry) [] = entry ∷ []
replace_named name none (e ∷ entries) =
    let rest = replace_named name none entries in if e.name == name then entries else e ∷ rest
replace_named name (some entry) (e ∷ entries) =
    let rest = replace_named name (some entry) entries in
    if e.name == name then entry ∷ entries else e ∷ rest

abbrev pub entry_named : Text → Option (Text × Text) → Option Entry
entry_named name none = none
entry_named name (some (mode, id)) = some (record { mode = mode; name = name; id = id })

abbrev pub tree_entry : Text → Option Text → Option Entry
tree_entry name none = none
tree_entry name (some id) = some (record { mode = tree_mode; name = name; id = id })

-- The subtree that an entry stands for.
abbrev pub tree_id : Option Entry → Option Text
tree_id none = none
tree_id (some entry) = if is_tree entry then some entry.id else none

abbrev pub not_empty_tree : Option Text → Option Text
not_empty_tree none = none
not_empty_tree (some id) = if id == empty_tree then none else some id

module _ (sha1 : Text → Text) where
  unfoldable pub hash : Text → Text → Text
  hash kind raw = hex (sha1 (kind ++ (b' ' ∷ (decimal (length raw) ++ (0 ∷ raw)))))

  -- What `make_tree` and `make_commit` leave to be written.
  abbrev pub keep_pending : Text → Text → Text → Objects → Objects
  keep_pending kind id raw o = if contains o.pending_ids id then o else record o {
    pending = o.pending ++ (kind, id, raw) ∷ [];
    pending_ids = id ∷ o.pending_ids;
  }

  abbrev pub keep_tree : Text → List Entry → Objects → Objects
  keep_tree id entries o =
      if is_some (get id o.trees) then o else record o { trees = (id, entries) ∷ o.trees }

  abbrev pub keep_commit : Text → Commit → Objects → Objects
  keep_commit id commit o =
      if is_some (get id o.commits) then o else record o { commits = (id, commit) ∷ o.commits }

  abbrev pub id_of : List Entry → Text
  id_of entries = hash (bytes "tree") (tree_body (sorted_entries entries))

  unfoldable pub make_tree : List Entry → Objects → Text × Objects
  make_tree entries o = (
    id_of entries,
    keep_pending (bytes "tree") (id_of entries) (tree_body (sorted_entries entries))
        (keep_tree (id_of entries) (sorted_entries entries) o),
  )

  module _ (lossy : Text → Text) (read_raw : Text → Result (Option (Text × Text))) where
    -- `make_commit`, with the commit's fields.
    unfoldable pub make_commit :
        Text → List Text → Text → Text → Text → Text → Objects → Text × Objects
    make_commit tree parents author committer headers message o =
        let raw = body tree parents author committer headers message in
        let id = hash (bytes "commit") raw in
        (id, keep_pending (bytes "commit") id raw (keep_commit id (parse lossy id raw) o))

    unfoldable pub commit_id : Text → List Text → Text → Text → Text → Text → Text
    commit_id tree parents author committer headers message =
        hash (bytes "commit") (body tree parents author committer headers message)

    abbrev pub read_commit : Text → Objects → Option (Text × Text) → Option Commit × Objects
    read_commit id o none = (none, o)
    read_commit id o (some (kind, raw)) =
        if kind == bytes "commit"
        then (
          some (parse lossy id raw),
          record o { commits = (id, parse lossy id raw) ∷ o.commits },
        )
        else (none, o)

    abbrev pub cached_commit : Text → Objects → Option Commit → Result (Option Commit × Objects)
    cached_commit id o (some commit) = ok (some commit, o)
    cached_commit id o none = read_raw id >>= λ raw. ok (read_commit id o raw)

    unfoldable pub try_commit : Text → Objects → Result (Option Commit × Objects)
    try_commit id o = cached_commit id o (get id o.commits)

    unfoldable pub has_commit : Text → Objects → Result (Bool × Objects)
    has_commit id o = try_commit id o >>= λ (commit, o). ok (is_some commit, o)

    abbrev pub found_commit : Text → Option Commit × Objects → Result (Commit × Objects)
    found_commit id (none, o) = err (source_command (bytes "git cat-file --batch") id)
    found_commit id (some commit, o) = ok (commit, o)

    unfoldable pub commit : Text → Objects → Result (Commit × Objects)
    commit id o = try_commit id o >>= found_commit id

    abbrev pub read_tree : Text → Text → Objects → Result (List Entry × Objects)
    read_tree id raw o = ok (parse_tree raw, record o { trees = (id, parse_tree raw) ∷ o.trees })

    -- The tree that a commit names: it is a tree, so what Git reads for it is a tree's body.
    abbrev pub peeled_tree : Text → Objects → Option (Text × Text) → Result (List Entry × Objects)
    peeled_tree id o none = err (source_command (bytes "git cat-file --batch") id)
    peeled_tree id o (some (kind, raw)) = read_tree id raw o

    abbrev pub cached_or :
        Option (List Entry)
        → Objects
        → Result (List Entry × Objects)
        → Result (List Entry × Objects)
    cached_or (some entries) o otherwise = ok (entries, o)
    cached_or none o otherwise = otherwise

    unfoldable pub plain_tree : Text → Objects → Result (List Entry × Objects)
    plain_tree id o = cached_or (get id o.trees) o (read_raw id >>= peeled_tree id o)

    abbrev pub any_tree : Text → Objects → Option (Text × Text) → Result (List Entry × Objects)
    any_tree id o none = err (source_command (bytes "git cat-file --batch") id)
    any_tree id o (some (kind, raw)) =
        if kind == bytes "commit"
        then plain_tree ((parse lossy id raw).tree) o
        else read_tree id raw o

    -- `Objects::tree`
    unfoldable pub tree : Text → Objects → Result (List Entry × Objects)
    tree id o = cached_or (get id o.trees) o (read_raw id >>= any_tree id o)

    -- No tree stands there, or the loop goes on in it.
    abbrev pub in_tree :
        Option Text
        → Objects
        → (Text → Result (Option Entry × Objects))
        → Result (Option Entry × Objects)
    in_tree none o go_on = ok (none, o)
    in_tree (some below) o go_on = go_on below

    -- The loop of `entry_at` over the parts.
    unfoldable pub entry_in : List Text → Text → Objects → Result (Option Entry × Objects)
    entry_in [] current o = ok (none, o)
    entry_in (part ∷ []) current o =
        tree current o >>= λ (entries, o). ok (find (named part) entries, o)
    entry_in (part ∷ next ∷ rest) current o = tree current o >>= λ (entries, o).
        in_tree (tree_id (find (named part) entries)) o (λ below. entry_in (next ∷ rest) below o)

    abbrev pub entry_by : List Text → Text → Objects → Result (Option Entry × Objects)
    entry_by [] current o = ok (some (record { mode = tree_mode; name = []; id = current }), o)
    entry_by (part ∷ rest) current o = entry_in (part ∷ rest) current o

    unfoldable pub entry_at : Text → Text → Objects → Result (Option Entry × Objects)
    entry_at current path o = entry_by (split_path path) current o

    unfoldable pub subtree : Text → Text → Objects → Result (Option Text × Objects)
    subtree current path o = entry_at current path o >>= λ (entry, o). ok (tree_id entry, o)

    abbrev pub tree_or_none : Option Text → Objects → Result (List Entry × Objects)
    tree_or_none none o = ok ([], o)
    tree_or_none (some id) o = tree id o

    -- The end of `set_in`: no tree is made of no entries.
    abbrev pub made_of : List Entry → Objects → Option Text × Objects
    made_of [] o = (none, o)
    made_of (e ∷ entries) o = (some (make_tree (e ∷ entries) o).0, (make_tree (e ∷ entries) o).1)

    -- `set_in`, at the first part and the others.
    unfoldable pub set_in :
        Text
        → List Text
        → Option Text
        → Option (Text × Text)
        → Objects
        → Result (Option Text × Objects)
    set_in name [] current entry o = tree_or_none current o >>= λ (entries, o).
        ok (made_of (replace_named name (entry_named name entry) entries) o)
    set_in name (next ∷ rest) current entry o = tree_or_none current o >>= λ (entries, o).
        (let below = tree_id (find (named name) entries) in
          let set = set_in next rest below entry o >>= λ (id, o).
          ok (made_of (replace_named name (tree_entry name id) entries) o) in
          if not (is_some below) && not (is_some entry)
          then ok (not_empty_tree current, o)
          else set)

    abbrev pub or_empty : Option Text × Objects → Text × Objects
    or_empty (some id, o) = (id, o)
    or_empty (none, o) = make_tree [] o

    abbrev pub set_root : Option (Text × Text) → Objects → Result (Text × Objects)
    set_root none o = ok (make_tree [] o)
    set_root (some (mode, id)) o =
        if mode == tree_mode
        then ok (id, o)
        else err (unsupported (bytes "only a tree can sit at a tree's root"))

    abbrev pub set_by : List Text → Text → Option (Text × Text) → Objects → Result (Text × Objects)
    set_by [] current entry o = set_root entry o
    set_by (part ∷ rest) current entry o =
        set_in part rest (some current) entry o >>= λ made. ok (or_empty made)

    unfoldable pub set_path : Text → Text → Option (Text × Text) → Objects → Result (Text × Objects)
    set_path current path entry o = set_by (split_path path) current entry o
