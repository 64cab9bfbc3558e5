-- ===== src/Objects/Store/Frame.antt =====
-- crates/newgit-core/src/objects.rs: what was read at a path before `set_path` is read after it, when the path
-- set is another.
use newgit.Prelude.{
  ◌≡◌, refl, subst, true, Option, none, some, List, [], ◌∷◌, find, nat_eq, list_eq, inl, inr, In,
}
use newgit.Text.{Text}
use newgit.Error.{Result, ok, ok->>=, ok-injective}
use newgit.Objects.Trees.{Entry, empty_tree}
use newgit.Objects.Store.{
  Objects, split_path, named, tree_id, tree, in_tree, entry_in, entry_by, entry_at, set_in, set_by,
  set_path,
}
use newgit.Objects.Store.Keeps.{Sound, Keeps, Keeps-trans, tree_hash}
use newgit.Objects.Store.Known.{GitReads, no_Collision, Again, tree-Answered}
use newgit.Objects.Store.Reads.{Reads, ReadsUnder, Reads-Under}
use newgit.Objects.Store.Paths.{or_empty-Leaves}
use newgit.Objects.Store.Others.{parted, set_in-others}
use newgit.Objects.Store.Occurring.{path_trees}

module _ (sha1 : Text → Text) (lossy : Text → Text)
    (read_raw : Text → Result (Option (Text × Text))) (Tree : List Entry → Type 0)
    (git : GitReads sha1 lossy read_raw Tree) where
  Again-later :
      (current : Text) (entries : List Entry) (o o' : Objects)
      → Keeps o.trees o'.trees
      → Again sha1 lossy read_raw Tree git current entries o
      → Again sha1 lossy read_raw Tree git current entries o'
  Again-later current entries o o' keeps again o'' sound k =
      again o'' sound (Keeps-trans o.trees o'.trees o''.trees keeps k)

  -- A path that was read reads the same in every later store.
  abbrev Reread : Text → List Text → Option Entry → Objects → Objects → Type 0
  Reread current parts found o o' =
      Keeps o.trees o'.trees
      × Sound sha1 Tree o'.trees
      × Reads sha1 lossy read_raw Tree git current parts found o'

  in_tree-Reread :
      (n : Text) (q : List Text) (found : Option Entry) (o o' : Objects)
      → Sound sha1 Tree o.trees
      → (below : Option Text)
      → ((id : Text)
          → entry_in sha1 lossy read_raw (n ∷ q) id o ≡ ok (found, o')
          → Reread id (n ∷ q) found o o')
      → in_tree sha1 lossy read_raw below o (λ id. entry_in sha1 lossy read_raw (n ∷ q) id o)
        ≡ ok (found, o')
      → Keeps o.trees o'.trees
        × Sound sha1 Tree o'.trees
        × ReadsUnder sha1 lossy read_raw Tree git below (n ∷ q) found o'
  in_tree-Reread n q found o o' sound none within e =
      subst (λ (r, o₂). Keeps o.trees o₂.trees × Sound sha1 Tree o₂.trees × (r ≡ none))
        (ok-injective e) ((λ id es known. known), sound, refl)
  in_tree-Reread n q found o o' sound (some id) within e = within id e

  entry_in-Reread :
      (m : Text) (q : List Text) (current : Text) (found : Option Entry) (o o' : Objects)
      → Sound sha1 Tree o.trees
      → entry_in sha1 lossy read_raw (m ∷ q) current o ≡ ok (found, o')
      → Reread current (m ∷ q) found o o'
  unfolding entry_in
  entry_in-Reread m [] current found o o' sound h =
      let ((entries, o₁), same, e) = ok->>= _ (tree sha1 lossy read_raw current o) h in
      let (keeps, sound₁, distinct, hashed, again) =
        tree-Answered sha1 lossy read_raw Tree git current o o₁ entries sound e in
      subst (λ (r, o₂). Reread current (m ∷ []) r o o₂) (ok-injective same)
        (
          keeps,
          sound₁,
          Reads-Under sha1 lossy read_raw Tree git current m [] (find (named m) entries) entries o₁
              again refl,
        )
  entry_in-Reread m (n ∷ q) current found o o' sound h =
      let ((entries, o₁), same, e) = ok->>= _ (tree sha1 lossy read_raw current o) h in
      let (keeps, sound₁, distinct, hashed, again) =
        tree-Answered sha1 lossy read_raw Tree git current o o₁ entries sound e in
      let (k, sound', reads) =
        in_tree-Reread n q found o₁ o' sound₁ (tree_id (find (named m) entries))
          (λ id e. entry_in-Reread n q id found o₁ o' sound₁ e) same in
      (
        Keeps-trans o.trees o₁.trees o'.trees keeps k,
        sound',
        Reads-Under sha1 lossy read_raw Tree git current m (n ∷ q) found entries o'
            (Again-later current entries o₁ o' k again) reads,
      )

  pub entry_at-set_path_other :
      tree_hash sha1 [] ≡ empty_tree
      → (current path other : Text) (entry : Option (Text × Text)) (found : Option Entry)
        (o o₁ o₂ : Objects) (updated : Text)
      → Sound sha1 Tree o.trees
      → ((es : List Entry)
          → In es (path_trees sha1 lossy read_raw (split_path path) current entry o₁)
          → Tree es)
      → parted (split_path path) (split_path other) ≡ true
      → entry_at sha1 lossy read_raw current other o ≡ ok (found, o₁)
      → set_path sha1 lossy read_raw current path entry o₁ ≡ ok (updated, o₂)
      → entry_at sha1 lossy read_raw updated other o₂ ≡ ok (found, o₂)
  unfolding set_path entry_at
  entry_at-set_path_other of_empty current path other entry found o o₁ o₂ updated sound occurs apart
        before set =
      split (split_path path) (split_path other) occurs apart before set
    where
      split :
          (p q : List Text)
          → ((es : List Entry)
              → In es (path_trees sha1 lossy read_raw p current entry o₁)
              → Tree es)
          → parted p q ≡ true
          → entry_by sha1 lossy read_raw q current o ≡ ok (found, o₁)
          → set_by sha1 lossy read_raw p current entry o₁ ≡ ok (updated, o₂)
          → entry_by sha1 lossy read_raw q updated o₂ ≡ ok (found, o₂)
      split [] q occurs parts e h = cc
      split (name ∷ rest) [] occurs parts e h = cc
      split (name ∷ rest) (m ∷ q) occurs parts e h =
          let (made, same, s) =
            ok->>= _ (set_in sha1 lossy read_raw name rest (some current) entry o₁) h in
          let (keeps, sound₁, reads) = entry_in-Reread m q current found o o₁ sound e in
          elim (set_in-others sha1 lossy read_raw Tree git of_empty name rest (some current) entry
            o₁ made m q found sound₁ occurs parts reads s) [
              | inl c ↦ absurd (no_Collision sha1 lossy read_raw Tree git c)
              | inr leaves ↦
                  let (k, sound₂, again) =
                    subst
                      (λ (id, o').
                        Keeps o₁.trees o'.trees
                        × Sound sha1 Tree o'.trees
                        × Reads sha1 lossy read_raw Tree git id (m ∷ q) found o')
                      (ok-injective same)
                      (or_empty-Leaves sha1 lossy read_raw Tree git o₁ made m q found leaves) in
                  elim (again o₂ sound₂ (λ id es known. known)) [
                    | inl c ↦ absurd (no_Collision sha1 lossy read_raw Tree git c)
                    | inr k ↦ k
                  ]
            ]
