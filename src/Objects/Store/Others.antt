-- ===== src/Objects/Store/Others.antt =====
-- crates/newgit-core/src/objects.rs: `set_in` leaves the paths that part from its own as they are.
use newgit.Prelude.{
  ◌≡◌, ◌⊎◌, refl, sym, subst, ◌∙◌, Bool, true, false, not, ◌&&◌, Option, List, [], ◌∷◌, find, ◌==◌,
  nat_eq, list_eq, if◌then◌else◌, arith, inl, inr, In, In-append_left, In-append_right,
}
use newgit.Text.{Text}
use newgit.Error.{Result, ok, ◌>>=◌, ok->>=, ok-injective}
use newgit.Resource.Accessors.{is_some}
use newgit.Objects.Trees.{Entry, empty_tree, sorted_entries}
use newgit.Objects.Distinct.{Distinct}
use newgit.Objects.Store.{
  Objects, named, replace_named, entry_named, tree_entry, tree_id, not_empty_tree, tree_or_none,
  made_of, set_in,
}
use newgit.Objects.Store.Keeps.{Sound, Keeps, Collision, tree_hash}
use newgit.Objects.Store.Known.{GitReads}
use newgit.Objects.Store.Reads.{ReadsUnder, Under, Under-later, Leaves}
use newgit.Objects.Store.Occurring.{set_trees, of_read_lem}
use newgit.Objects.Store.Levels.{
  OfName-entry_named, OfName-tree_entry, set_in-Leaves, tree_or_none-Level, Level-kept,
  Leaves-earlier, descended,
}
use newgit.Objects.Store.Beside.{untouched_other, Leaves-replaced, chosen}
use newgit.Objects.Store.Among.{and_unless, Under-ReadsUnder}

-- Two paths that part: at some part, above the end of both, they differ.
abbrev pub parted : List Text → List Text → Bool
parted [] other = false
parted (name ∷ rest) [] = false
parted (name ∷ rest) (m ∷ other) = if name == m then parted rest other else true

module _ (sha1 : Text → Text) (lossy : Text → Text)
    (read_raw : Text → Result (Option (Text × Text))) (Tree : List Entry → Type 0)
    (git : GitReads sha1 lossy read_raw Tree) where
  module _ (of_empty : tree_hash sha1 [] ≡ empty_tree) where
    -- The subtree of the name was set. The other path goes through it, or stands beside it.
    set_below :
        (name m next : Text) (rest q : List Text) (found : Option Entry) (entries : List Entry)
        (step : Result (Option Text × Objects)) (o : Objects) (made : Option Text × Objects)
        → Distinct entries
        → ((set : Option Text × Objects)
            → step ≡ ok set
            → Tree (sorted_entries (replace_named name (tree_entry name set.0) entries)))
        → Under sha1 lossy read_raw Tree git m q found entries o
        → parted (name ∷ next ∷ rest) (m ∷ q) ≡ true
        → ((set : Option Text × Objects)
            → step ≡ ok set
            → Keeps o.trees (set.1).trees × Sound sha1 Tree (set.1).trees)
        → ((set : Option Text × Objects) (n : Text) (q' : List Text)
            → parted (next ∷ rest) (n ∷ q') ≡ true
            → ReadsUnder sha1 lossy read_raw Tree git
                (tree_id (find (named name) entries))
                (n ∷ q')
                found
                o
            → step ≡ ok set
            → Collision sha1 read_raw Tree
              ⊎ Leaves sha1 lossy read_raw Tree git o set (n ∷ q') found)
        → (step >>= λ (id, o).
            ok (made_of sha1 lossy read_raw (replace_named name (tree_entry name id) entries) o))
          ≡ ok made
        → Collision sha1 read_raw Tree ⊎ Leaves sha1 lossy read_raw Tree git o made (m ∷ q) found
    set_below name m next rest q found entries step o made distinct occurs under apart kept others
          h =
        split (name == m) refl
      where
        beside : (name == m) ≡ false → Leaves sha1 lossy read_raw Tree git o made (m ∷ q) found
        beside differ =
            let ((id, o₂), same, e) = ok->>= _ step h in
            let (keeps, sound) = kept (id, o₂) e in
            let replaced =
              made_of sha1 lossy read_raw (replace_named name (tree_entry name id) entries) o₂ in
            subst (λ made. Leaves sha1 lossy read_raw Tree git o made (m ∷ q) found)
              (ok-injective same)
              (Leaves-earlier sha1 lossy read_raw Tree git o o₂ replaced (m ∷ q) found keeps (
                Leaves-replaced sha1 lossy read_raw Tree git name m q found (tree_entry name id)
                  entries o₂ sound distinct (OfName-tree_entry name id) (occurs (id, o₂) e) differ
                  (Under-later sha1 lossy read_raw Tree git m q found entries o o₂ keeps under)))

        through :
            (q : List Text)
            → Under sha1 lossy read_raw Tree git name q found entries o
            → parted (next ∷ rest) q ≡ true
            → Collision sha1 read_raw Tree
              ⊎ Leaves sha1 lossy read_raw Tree git o made (name ∷ q) found
        through [] under p = cc
        through (n ∷ q) under p =
            let (set, same, e) = ok->>= _ step h in
            and_unless sha1 lossy read_raw Tree git (others set n q p under e) λ leaves. inr (
              descended sha1 lossy read_raw Tree git name n q entries step o made found distinct
                occurs
                (λ other k.
                  subst (λ s. Leaves sha1 lossy read_raw Tree git o s (n ∷ q) found)
                    (ok-injective (sym e ∙ k)) leaves)
                h)

        split :
            (b : Bool)
            → (name == m) ≡ b
            → Collision sha1 read_raw Tree
              ⊎ Leaves sha1 lossy read_raw Tree git o made (m ∷ q) found
        split false e = inr (beside e)
        split true e =
            let same : name ≡ m = ground (arith, e) in
            subst
              (λ other.
                Collision sha1 read_raw Tree
                ⊎ Leaves sha1 lossy read_raw Tree git o made (other ∷ q) found)
              same
              (through q
                (subst (λ other. Under sha1 lossy read_raw Tree git other q found entries o)
                  (sym same) under)
                (ground (arith, e, apart)))

    pub set_in-others :
        (name : Text) (rest : List Text) (current : Option Text) (entry : Option (Text × Text))
        (o : Objects) (made : Option Text × Objects) (m : Text) (q : List Text)
        (found : Option Entry)
        → Sound sha1 Tree o.trees
        → ((es : List Entry)
            → In es (set_trees sha1 lossy read_raw name rest current entry o)
            → Tree es)
        → parted (name ∷ rest) (m ∷ q) ≡ true
        → ReadsUnder sha1 lossy read_raw Tree git current (m ∷ q) found o
        → set_in sha1 lossy read_raw name rest current entry o ≡ ok made
        → Collision sha1 read_raw Tree ⊎ Leaves sha1 lossy read_raw Tree git o made (m ∷ q) found
    unfolding set_in
    set_in-others name [] current entry o made m q found sound occurs apart reads h =
        let ((entries, o₁), same, e) = ok->>= _ (tree_or_none sha1 lossy read_raw current o) h in
        let level = tree_or_none-Level sha1 lossy read_raw Tree git current o o₁ entries sound e in
        let (keeps, sound₁, distinct) =
          Level-kept sha1 lossy read_raw Tree git current entries o o₁ level in
        let of_name = OfName-entry_named name entry in
        let left : List Entry =
          sorted_entries (replace_named name (entry_named name entry) entries) in
        let replaced =
          made_of sha1 lossy read_raw (replace_named name (entry_named name entry) entries) o₁ in
        and_unless sha1 lossy read_raw Tree git
          (Under-ReadsUnder sha1 lossy read_raw Tree git current m q found entries o o₁ level e
            reads)
          λ under. inr (
            subst (λ made. Leaves sha1 lossy read_raw Tree git o made (m ∷ q) found)
              (ok-injective same)
              (Leaves-earlier sha1 lossy read_raw Tree git o o₁ replaced (m ∷ q) found keeps (
                Leaves-replaced sha1 lossy read_raw Tree git name m q found (entry_named name entry)
                  entries o₁ sound₁ distinct of_name
                  (occurs left (of_read_lem _ (entries, o₁) _ left e (inl refl)))
                  (ground (arith, apart)) under)))
    set_in-others name (next ∷ rest) current entry o made m q found sound occurs apart reads h =
        let ((entries, o₁), same, e) = ok->>= _ (tree_or_none sha1 lossy read_raw current o) h in
        let level = tree_or_none-Level sha1 lossy read_raw Tree git current o o₁ entries sound e in
        let (keeps, sound₁, distinct) =
          Level-kept sha1 lossy read_raw Tree git current entries o o₁ level in
        let below = tree_id (find (named name) entries) in
        let below_occurs : (es : List Entry)
            → In es (
                set_trees sha1 lossy read_raw next rest (tree_id (find (named name) entries)) entry
                  o₁)
            → Tree es =
          λ es i. occurs es (of_read_lem _ (entries, o₁) _ es e (In-append_right es _ _ i)) in
        let step = set_in sha1 lossy read_raw next rest below entry o₁ in
        and_unless sha1 lossy read_raw Tree git
          (Under-ReadsUnder sha1 lossy read_raw Tree git current m q found entries o o₁ level e
            reads)
          λ under.
            and_unless sha1 lossy read_raw Tree git
              (chosen sha1 lossy read_raw Tree git (not_empty_tree current, o₁) made (m ∷ q) found
                o₁ (not (is_some below) && not (is_some entry))
                (and_unless sha1 lossy read_raw Tree git
                  (untouched_other sha1 lossy read_raw Tree git of_empty current m q found entries o
                    o₁ level reads under)
                  λ r. inr ((λ id es k. k), sound₁, r))
                (λ k.
                  set_below name m next rest q found entries step o₁ made distinct
                    (λ set s. occurs _ (
                      of_read_lem _ (entries, o₁) _ _ e
                        (In-append_left _ _ _ (of_read_lem _ set _ _ s (inl refl)))))
                    under apart
                    (λ set s.
                      let (k, t, r) =
                        set_in-Leaves sha1 lossy read_raw Tree git next rest below entry o₁ set
                          sound₁ below_occurs s in
                      (k, t))
                    (λ set n q' p r s.
                      set_in-others next rest below entry o₁ set n q' found sound₁ below_occurs p r
                        s)
                    k)
                same)
              λ leaves.
                inr
                  (Leaves-earlier sha1 lossy read_raw Tree git o o₁ made (m ∷ q) found keeps leaves)
