-- ===== src/Objects/Store/Paths.antt =====
-- crates/newgit-core/src/objects.rs: what `set_path` leaves at the path that it sets.
use newgit.Prelude.{
  ◌≡◌, sym, ap, subst, ◌∙◌, Option, none, some, List, [], ◌∷◌, nat_eq, list_eq, inl, inr, In,
}
use newgit.Text.{Text}
use newgit.Error.{Result, ok, ok->>=, ok-injective}
use newgit.Objects.Trees.{Entry}
use newgit.Prelude.Sort.{sort_by}
use newgit.Objects.Store.{
  Objects, split_path, entry_named, entry_by, entry_at, make_tree, set_in, or_empty, set_by,
  set_path,
}
use newgit.Objects.Store.Keeps.{Sound, Keeps, Keeps-trans, make_tree-Made}
use newgit.Objects.Store.Known.{GitReads, no_Collision}
use newgit.Objects.Store.Reads.{Reads, Under, Reads-Under, Leaves, make_tree-Again}
use newgit.Objects.Store.Levels.{set_in-Leaves, last_part}
use newgit.Objects.Store.Occurring.{path_trees}

module _ (sha1 : Text → Text) (lossy : Text → Text)
    (read_raw : Text → Result (Option (Text × Text))) (Tree : List Entry → Type 0)
    (git : GitReads sha1 lossy read_raw Tree) where
  -- The empty tree stands for no tree.
  pub or_empty-Leaves :
      (o : Objects) (made : Option Text × Objects) (name : Text) (rest : List Text)
      (expected : Option Entry)
      → Leaves sha1 lossy read_raw Tree git o made (name ∷ rest) expected
      → Keeps o.trees ((or_empty sha1 lossy read_raw made).1).trees
        × Sound sha1 Tree ((or_empty sha1 lossy read_raw made).1).trees
        × Reads sha1 lossy read_raw Tree git
            (or_empty sha1 lossy read_raw made).0
            (name ∷ rest)
            expected
            (or_empty sha1 lossy read_raw made).1
  unfolding sort_by
  or_empty-Leaves o (some id, o') name rest expected leaves = leaves
  or_empty-Leaves o (none, o') name rest expected (keeps, sound, nothing) =
      let made = make_tree sha1 [] o' in
      let (k, s, found) = make_tree-Made sha1 read_raw Tree [] o' sound tt git.of_no_entries in
      (
        Keeps-trans o.trees o'.trees (made.1).trees keeps k,
        s,
        λ o'' sound'' k''.
            elim (make_tree-Again sha1 lossy read_raw Tree git [] o' sound tt git.of_no_entries) [
              | inl c ↦ inl c
              | inr again ↦
                  Reads-Under sha1 lossy read_raw Tree git made.0 name rest expected [] made.1 again
                    (nothing_under rest) o'' sound'' k''
            ],
      )
    where
      nothing_under :
          (rest : List Text)
          → Under sha1 lossy read_raw Tree git name rest expected [] (make_tree sha1 [] o').1
      nothing_under [] = sym nothing
      nothing_under (next ∷ rest) = nothing

  pub entry_at-set_path :
      (current path name : Text) (rest : List Text) (entry : Option (Text × Text)) (o o' : Objects)
      (updated : Text)
      → Sound sha1 Tree o.trees
      → split_path path ≡ name ∷ rest
      → ((es : List Entry)
          → In es (path_trees sha1 lossy read_raw (split_path path) current entry o)
          → Tree es)
      → set_path sha1 lossy read_raw current path entry o ≡ ok (updated, o')
      → entry_at sha1 lossy read_raw updated path o'
        ≡ ok (entry_named (last_part name rest) entry, o')
  unfolding set_path entry_at
  entry_at-set_path current path name rest entry o o' updated sound parts occurs h =
      let (made, same, e) =
        ok->>= _ (set_in sha1 lossy read_raw name rest (some current) entry o)
          (ap (λ p. set_by sha1 lossy read_raw p current entry o) (sym parts) ∙ h) in
      let expected = entry_named (last_part name rest) entry in
      let leaves =
        set_in-Leaves sha1 lossy read_raw Tree git name rest (some current) entry o made sound
          (subst
            (λ p.
              (es : List Entry)
              → In es (path_trees sha1 lossy read_raw p current entry o)
              → Tree es)
            parts occurs)
          e in
      let (keeps, sound', reads) =
        subst
          (λ (id, o₂).
            Keeps o.trees o₂.trees
            × Sound sha1 Tree o₂.trees
            × Reads sha1 lossy read_raw Tree git id (name ∷ rest) expected o₂)
          (ok-injective same) (or_empty-Leaves o made name rest expected leaves) in
      elim (reads o' sound' (λ id es known. known)) [
        | inl c ↦ absurd (no_Collision sha1 lossy read_raw Tree git c)
        | inr k ↦ ap (λ p. entry_by sha1 lossy read_raw p updated o') parts ∙ k
      ]
