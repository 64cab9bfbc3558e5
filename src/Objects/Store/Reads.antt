-- ===== src/Objects/Store/Reads.antt =====
-- crates/newgit-core/src/objects.rs: what a path under a tree reads as, in a store and in every later one.
use newgit.Prelude.{
  ◌≡◌, ◌⊎◌, refl, sym, ap, subst, ◌∙◌, Option, none, some, List, [], ◌∷◌, find, nat_eq, list_eq,
  inl, inr,
}
use newgit.Text.{Text, cmp}
use newgit.Error.{Result, ok}
use newgit.Objects.Trees.{Entry, sorted_entries, order_key}
use newgit.Objects.Distinct.{Distinct, find-sort_by}
use newgit.Objects.Store.{Objects, named, tree_id, in_tree, entry_in, make_tree, made_of, id_of}
use newgit.Objects.Store.Keeps.{Sound, Keeps, Keeps-trans, Collision, make_tree-Made}
use newgit.Objects.Store.Known.{GitReads, Again, Again-known}

module _ (sha1 : Text → Text) (lossy : Text → Text)
    (read_raw : Text → Result (Option (Text × Text))) (Tree : List Entry → Type 0)
    (git : GitReads sha1 lossy read_raw Tree) where
  -- In every later store the path reads as this, or ids collide.
  abbrev pub Reads : Text → List Text → Option Entry → Objects → Type 0
  Reads current parts expected o =
      (o' : Objects)
      → Sound sha1 Tree o'.trees
      → Keeps o.trees o'.trees
      → Collision sha1 read_raw Tree
        ⊎ (entry_in sha1 lossy read_raw parts current o' ≡ ok (expected, o'))

  -- Under no tree there is nothing.
  abbrev pub ReadsUnder : Option Text → List Text → Option Entry → Objects → Type 0
  ReadsUnder none parts expected o = expected ≡ none
  ReadsUnder (some current) parts expected o = Reads current parts expected o

  pub Reads-later :
      (current : Text) (parts : List Text) (expected : Option Entry) (o o' : Objects)
      → Keeps o.trees o'.trees
      → Reads current parts expected o
      → Reads current parts expected o'
  Reads-later current parts expected o o' keeps reads o'' sound k =
      reads o'' sound (Keeps-trans o.trees o'.trees o''.trees keeps k)

  pub ReadsUnder-later :
      (current : Option Text) (parts : List Text) (expected : Option Entry) (o o' : Objects)
      → Keeps o.trees o'.trees
      → ReadsUnder current parts expected o
      → ReadsUnder current parts expected o'
  ReadsUnder-later none parts expected o o' keeps reads = reads
  ReadsUnder-later (some current) parts expected o o' keeps reads =
      Reads-later current parts expected o o' keeps reads

  -- The last part: the entry of the name.
  pub Reads-last :
      (current name : Text) (entries : List Entry) (o : Objects)
      → Again sha1 lossy read_raw Tree git current entries o
      → Reads current (name ∷ []) (find (named name) entries) o
  unfolding entry_in
  Reads-last current name entries o again o' sound keeps = elim (again o' sound keeps) [
    | inl c ↦ inl c
    | inr e ↦ inr (rw e refl)
  ]

  -- A part above others: what the entry of the name, a tree, has below.
  pub Reads-below :
      (current name next : Text) (rest : List Text) (expected : Option Entry) (entries : List Entry)
      (o : Objects)
      → Again sha1 lossy read_raw Tree git current entries o
      → ReadsUnder (tree_id (find (named name) entries)) (next ∷ rest) expected o
      → Reads current (name ∷ next ∷ rest) expected o
  unfolding entry_in
  Reads-below current name next rest expected entries o again reads o' sound keeps =
      elim (again o' sound keeps) [
        | inl c ↦ inl c
        | inr e ↦ rw e (split (tree_id (find (named name) entries)) reads)
      ]
    where
      split :
          (below : Option Text)
          → ReadsUnder below (next ∷ rest) expected o
          → Collision sha1 read_raw Tree
            ⊎ (in_tree sha1 lossy read_raw below o'
                  (λ id. entry_in sha1 lossy read_raw (next ∷ rest) id o')
                ≡ ok (expected, o'))
      split none r = inr (ap (λ answer. ok (answer, o')) (sym r))
      split (some id) r = r o' sound keeps

  -- A tree that was made of entries is read as those entries, or ids collide.
  pub make_tree-Again :
      (entries : List Entry) (o : Objects)
      → Sound sha1 Tree o.trees
      → Distinct entries
      → Tree (sorted_entries entries)
      → Collision sha1 read_raw Tree
        ⊎ Again sha1 lossy read_raw Tree git
            (make_tree sha1 entries o).0
            (sorted_entries entries)
            (make_tree sha1 entries o).1
  unfolding make_tree
  make_tree-Again entries o sound distinct occurs =
      elim (make_tree-Made sha1 read_raw Tree entries o sound distinct occurs).2 [
        | inl c ↦ inl c
        | inr e ↦ inr (
            Again-known sha1 lossy read_raw Tree git (id_of sha1 entries) (sorted_entries entries)
              (make_tree sha1 entries o).1 e)
      ]

  -- What the path is, when its first part stands among the entries.
  abbrev pub Under : Text → List Text → Option Entry → List Entry → Objects → Type 0
  Under name [] expected entries o = find (named name) entries ≡ expected
  Under name (next ∷ rest) expected entries o =
      ReadsUnder (tree_id (find (named name) entries)) (next ∷ rest) expected o

  pub Reads-Under :
      (current name : Text) (rest : List Text) (expected : Option Entry) (entries : List Entry)
      (o : Objects)
      → Again sha1 lossy read_raw Tree git current entries o
      → Under name rest expected entries o
      → Reads current (name ∷ rest) expected o
  Reads-Under current name [] expected entries o again under =
      subst (λ found. Reads current (name ∷ []) found o) under
        (Reads-last current name entries o again)
  Reads-Under current name (next ∷ rest) expected entries o again under =
      Reads-below current name next rest expected entries o again under

  -- Only the entry of the name counts.
  pub Under-same :
      (name : Text) (rest : List Text) (expected : Option Entry) (a b : List Entry) (o : Objects)
      → find (named name) a ≡ find (named name) b
      → Under name rest expected b o
      → Under name rest expected a o
  Under-same name [] expected a b o same under = same ∙ under
  Under-same name (next ∷ rest) expected a b o same under =
      subst (λ found. ReadsUnder (tree_id found) (next ∷ rest) expected o) (sym same) under

  pub Under-later :
      (name : Text) (rest : List Text) (expected : Option Entry) (entries : List Entry)
      (o o' : Objects)
      → Keeps o.trees o'.trees
      → Under name rest expected entries o
      → Under name rest expected entries o'
  Under-later name [] expected entries o o' keeps under = under
  Under-later name (next ∷ rest) expected entries o o' keeps under =
      ReadsUnder-later (tree_id (find (named name) entries)) (next ∷ rest) expected o o' keeps under

  pub Under-none :
      (name : Text) (rest : List Text) (expected : Option Entry) (o : Objects)
      → Under name rest expected [] o
      → expected ≡ none
  Under-none name [] expected o under = sym under
  Under-none name (next ∷ rest) expected o under = under

  -- The store after a step, and what the path under the tree that the step left reads as.
  abbrev pub Leaves : Objects → Option Text × Objects → List Text → Option Entry → Type 0
  Leaves o made parts expected =
      Keeps o.trees (made.1).trees
      × Sound sha1 Tree (made.1).trees
      × ReadsUnder made.0 parts expected made.1

  -- A path under the tree made reads as it does among the entries.
  pub made_of-Leaves :
      (name : Text) (rest : List Text) (expected : Option Entry) (entries : List Entry)
      (o : Objects)
      → Sound sha1 Tree o.trees
      → Distinct entries
      → Tree (sorted_entries entries)
      → Under name rest expected entries o
      → Leaves o (made_of sha1 lossy read_raw entries o) (name ∷ rest) expected
  made_of-Leaves name rest expected [] o sound distinct occurs under =
      ((λ id entries h. h), sound, Under-none name rest expected o under)
  made_of-Leaves name rest expected (e ∷ es) o sound distinct occurs under =
      let entries = e ∷ es in
      let made = make_tree sha1 entries o in
      let left = make_tree-Made sha1 read_raw Tree entries o sound distinct occurs in
      (
        left.0,
        left.1,
        λ o' sound' keeps. elim (make_tree-Again entries o sound distinct occurs) [
          | inl c ↦ inl c
          | inr again ↦
              Reads-Under made.0 name rest expected (sorted_entries entries) made.1 again
                (Under-same name rest expected (sorted_entries entries) entries made.1
                  (find-sort_by (λ a b. cmp (order_key a) (order_key b)) name entries distinct)
                  (Under-later name rest expected entries o made.1 left.0 under))
                o' sound' keeps
        ],
      )
