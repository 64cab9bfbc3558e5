-- ===== src/Objects/Store/Occurring.antt =====
-- crates/newgit-core/src/objects.rs: the trees of the levels that `set_in` goes through.
use newgit.Prelude.{◌≡◌, sym, subst, Option, some, List, [], ◌∷◌, ◌++◌, find, nat_eq, list_eq, In}
use newgit.Text.{Text}
use newgit.Error.{Result, ok, err}
use newgit.Objects.Trees.{Entry, sorted_entries}
use newgit.Objects.Store.{
  Objects, named, replace_named, entry_named, tree_entry, tree_id, tree_or_none, set_in,
}

-- What a result that is no error gives.
abbrev pub of_read : {A : Type 0} → Result A → (A → List (List Entry)) → List (List Entry)
of_read (err e) trees = []
of_read (ok a) trees = trees a

-- The trees of the levels that `set_in` goes through, as it leaves them when it does not stop above, sorted.
abbrev pub set_trees :
    (Text → Text)
    → (Text → Text)
    → (Text → Result (Option (Text × Text)))
    → Text
    → List Text
    → Option Text
    → Option (Text × Text)
    → Objects
    → List (List Entry)
set_trees sha1 lossy read_raw name [] current entry o =
    of_read (tree_or_none sha1 lossy read_raw current o)
      λ (entries, o₁). sorted_entries (replace_named name (entry_named name entry) entries) ∷ []
set_trees sha1 lossy read_raw name (next ∷ rest) current entry o =
    of_read (tree_or_none sha1 lossy read_raw current o) λ (entries, o₁).
      let below = tree_id (find (named name) entries) in
      of_read (set_in sha1 lossy read_raw next rest below entry o₁)
        (λ (id, o₂). sorted_entries (replace_named name (tree_entry name id) entries) ∷ [])
      ++ set_trees sha1 lossy read_raw next rest below entry o₁

-- The same for `set_path`, by the parts of the path.
abbrev pub path_trees :
    (Text → Text)
    → (Text → Text)
    → (Text → Result (Option (Text × Text)))
    → List Text
    → Text
    → Option (Text × Text)
    → Objects
    → List (List Entry)
path_trees sha1 lossy read_raw [] current entry o = []
path_trees sha1 lossy read_raw (name ∷ rest) current entry o =
    set_trees sha1 lossy read_raw name rest (some current) entry o

pub of_read_lem :
    {A : Type 0} (r : Result A) (a : A) (trees : A → List (List Entry)) (es : List Entry)
    → r ≡ ok a
    → In es (trees a)
    → In es (of_read r trees)
of_read_lem r a trees es e m = subst (λ r. In es (of_read r trees)) (sym e) m
