-- ===== src/Tests/Store.antt =====
-- A store over a repository of one tree.
use native.Mathlib.Decide.{ℕ_discrete}
use newgit.Prelude.{
  ◌≡◌, refl, sym, ap, subst, ◌∙◌, Option, none, some, [], ◌∷◌, ◌++◌, ◌==◌, nat_eq, list_eq,
  if◌then◌else◌, arith, Bool-cases, inl, inr, In, List,
}
use newgit.Prelude.Sort.{insert_sorted, sort_by}
use newgit.Text.{Text, bytes, split_on, cmp, decimal}
use newgit.Text.Slice.{take, slice, drop}
use newgit.Error.{Result, ok, err}
use newgit.Resource.Accessors.{get}
use newgit.Objects.Distinct.{Distinct}
use newgit.Objects.Trees.{
  Entry, tree_body, parse_tree, read_entries, position, entry_bytes, hex, unhex, empty_tree,
  tree_mode,
}
use newgit.Objects.Store.{
  Objects, hash, split_path, tree, make_tree, set_in, set_path, entry_in, entry_at,
}
use newgit.Objects.Store.Keeps.{Sound, tree_hash}
use newgit.Objects.Store.Occurring.{path_trees}
use newgit.Objects.Store.Known.{GitReads}
use newgit.Objects.Store.Paths.{entry_at-set_path}
use newgit.Objects.Store.Frame.{entry_at-set_path_other}

-- Bytes stand for their own digest, but for the empty tree's.
abbrev digest : Text → Text
digest raw = if raw == bytes "tree 0" ++ 0 ∷ [] then unhex empty_tree else raw

abbrev same_text : Text → Text
same_text t = t

abbrev first_file : Entry
first_file = record {
  mode = bytes "100644";
  name = bytes "a";
  id = bytes "00112233445566778899aabbccddeeff00112233";
}

abbrev first_tree : Text
first_tree = tree_hash digest (first_file ∷ [])

abbrev read_first : Text → Result (Option (Text × Text))
read_first id =
    if id == first_tree then ok (some (bytes "tree", tree_body (first_file ∷ []))) else ok none

read_first_cases :
    (id kind raw : Text)
    → read_first id ≡ ok (some (kind, raw))
    → (id ≡ first_tree) × (kind ≡ bytes "tree") × (raw ≡ tree_body (first_file ∷ []))
read_first_cases id kind raw h = elim (Bool-cases (id == first_tree)) [
  | inl e ↦ (ground (arith, e), ground (arith, e, h), ground (arith, e, h))
  | inr e ↦ absurd (ground (arith, e, h))
]

not_commit : (id raw : Text) → read_first id ≡ ok (some (bytes "commit", raw)) → ⊥
not_commit id raw h = cc (read_first_cases id (bytes "commit") raw h).1

reads_back : parse_tree (tree_body (first_file ∷ [])) ≡ first_file ∷ []
unfolding parse_tree tree_body nat_eq list_eq ℕ_discrete read_entries position entry_bytes unhex
    take slice hex drop
reads_back = refl

abbrev no_objects : Objects
no_objects = record { commits = []; trees = []; pending = []; pending_ids = [] }

abbrev other_file : Option (Text × Text)
other_file = some (bytes "100755", bytes "ffeeddccbbaa99887766554433221100ffeeddcc")

abbrev second_file : Entry
second_file = record {
  mode = bytes "100755";
  name = bytes "b";
  id = bytes "ffeeddccbbaa99887766554433221100ffeeddcc";
}

abbrev subdirectory : Entry
subdirectory = record {
  mode = tree_mode;
  name = bytes "src";
  id = tree_hash digest (second_file ∷ []);
}

-- The trees that are made when the second file is set.
abbrev trees_made : List (List Entry)
trees_made = (first_file ∷ subdirectory ∷ []) ∷ (second_file ∷ []) ∷ []

abbrev occurring : List (List Entry)
occurring = [] ∷ (first_file ∷ []) ∷ trees_made

abbrev Occurs : List Entry → Type 0
Occurs entries = In entries occurring

abbrev tree_of : Text → List (List Entry) → List Entry
tree_of id [] = []
tree_of id (entries ∷ trees) = if tree_hash digest entries == id then entries else tree_of id trees

-- The ids of the trees that occur tell them apart.
tree_of-tree_hash :
    (entries : List Entry) → Occurs entries → tree_of (tree_hash digest entries) occurring ≡ entries
unfolding hash hex decimal unhex tree_body entry_bytes nat_eq list_eq ℕ_discrete
tree_of-tree_hash entries (inl e) = subst (λ t. tree_of (tree_hash digest t) occurring ≡ t) e refl
tree_of-tree_hash entries (inr (inl e)) =
    subst (λ t. tree_of (tree_hash digest t) occurring ≡ t) e refl
tree_of-tree_hash entries (inr (inr (inl e))) =
    subst (λ t. tree_of (tree_hash digest t) occurring ≡ t) e refl
tree_of-tree_hash entries (inr (inr (inr (inl e)))) =
    subst (λ t. tree_of (tree_hash digest t) occurring ≡ t) e refl
tree_of-tree_hash entries (inr (inr (inr (inr m)))) = absurd m

first_git : GitReads digest same_text read_first Occurs
first_git = record {
  of_tree = λ id kind raw h other.
      let (e, k, r) = read_first_cases id kind raw h in
      let same : parse_tree raw ≡ first_file ∷ [] = ap parse_tree r ∙ reads_back in
      (
        e ∙ sym (ap (tree_hash digest) same),
        subst Distinct (sym same) (refl, tt),
        inr (inl (sym same)),
      );
  tree_of_commit = λ id raw kind below h below_it. absurd (not_commit id raw h);
  of_no_entries = inl refl;
  unique = λ a b s t same.
      sym (tree_of-tree_hash a s) ∙ ap (λ id. tree_of id occurring) same ∙ tree_of-tree_hash b t;
  apart = λ a id raw s same h. not_commit id raw h;
}

empty-Sound : Sound digest Occurs no_objects.trees
unfolding get
empty-Sound id entries h = cc

abbrev or_none : Result (Text × Objects) → Text × Objects
or_none (ok made) = made
or_none (err e) = ([], no_objects)

after : Text × Objects
after =
    or_none (set_path digest same_text read_first first_tree (bytes "src/b") other_file no_objects)

was_set :
    set_path digest same_text read_first first_tree (bytes "src/b") other_file no_objects ≡ ok after
unfolding set_path after split_path split_on set_in tree get hash hex decimal tree_body entry_bytes
    unhex parse_tree read_entries position slice take drop make_tree insert_sorted sort_by cmp
    nat_eq list_eq ℕ_discrete
was_set = refl

set-Occurs :
    (es : List Entry)
    → In es (
        path_trees digest same_text read_first
          (split_path (bytes "src/b"))
          first_tree
          other_file
          no_objects)
    → Occurs es
unfolding split_path split_on set_in tree get hash hex decimal tree_body entry_bytes unhex
    parse_tree read_entries position slice take drop make_tree insert_sorted sort_by cmp nat_eq
    list_eq ℕ_discrete
set-Occurs es m = inr (inr m)

entry_at-set_path_example :
    entry_at digest same_text read_first after.0 (bytes "src/b") after.1
    ≡ ok (
      some (record {
        mode = bytes "100755";
        name = bytes "b";
        id = bytes "ffeeddccbbaa99887766554433221100ffeeddcc";
      }),
      after.1,
    )
unfolding split_path split_on nat_eq list_eq ℕ_discrete
entry_at-set_path_example =
    entry_at-set_path digest same_text read_first Occurs first_git first_tree (bytes "src/b")
      (bytes "src") (bytes "b" ∷ []) other_file no_objects after.1 after.0 empty-Sound refl
      set-Occurs was_set

loaded : Objects
loaded = record {
  commits = [];
  trees = (first_tree, first_file ∷ []) ∷ [];
  pending = [];
  pending_ids = [];
}

was_read :
    entry_at digest same_text read_first first_tree (bytes "a") no_objects
    ≡ ok (some first_file, loaded)
unfolding entry_at loaded split_path split_on entry_in tree get hash hex decimal tree_body
    entry_bytes unhex parse_tree read_entries position slice take drop nat_eq list_eq ℕ_discrete
was_read = refl

after_loaded : Text × Objects
after_loaded =
    or_none (set_path digest same_text read_first first_tree (bytes "src/b") other_file loaded)

was_set_loaded :
    set_path digest same_text read_first first_tree (bytes "src/b") other_file loaded
    ≡ ok after_loaded
unfolding set_path after_loaded loaded split_path split_on set_in tree get hash hex decimal
    tree_body entry_bytes unhex parse_tree read_entries position slice take drop make_tree
    insert_sorted sort_by cmp nat_eq list_eq ℕ_discrete
was_set_loaded = refl

empty_hash : tree_hash digest [] ≡ empty_tree
unfolding hash hex decimal unhex tree_body nat_eq list_eq ℕ_discrete
empty_hash = refl

loaded-Occurs :
    (es : List Entry)
    → In es (
        path_trees digest same_text read_first
          (split_path (bytes "src/b"))
          first_tree
          other_file
          loaded)
    → Occurs es
unfolding loaded split_path split_on set_in tree get hash hex decimal tree_body entry_bytes unhex
    parse_tree read_entries position slice take drop make_tree insert_sorted sort_by cmp nat_eq
    list_eq ℕ_discrete
loaded-Occurs es m = inr (inr m)

entry_at-set_path_other_example :
    entry_at digest same_text read_first after_loaded.0 (bytes "a") after_loaded.1
    ≡ ok (some first_file, after_loaded.1)
unfolding split_path split_on nat_eq list_eq ℕ_discrete
entry_at-set_path_other_example =
    entry_at-set_path_other digest same_text read_first Occurs first_git empty_hash first_tree
      (bytes "src/b") (bytes "a") other_file (some first_file) no_objects loaded after_loaded.1
      after_loaded.0 empty-Sound loaded-Occurs refl was_read was_set_loaded
