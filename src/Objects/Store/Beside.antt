-- ===== src/Objects/Store/Beside.antt =====
-- crates/newgit-core/src/objects.rs: one level of `set_in`, for a path whose part there is another.
use newgit.Prelude.{
  ◌≡◌, ◌⊎◌, refl, sym, subst, ◌∙◌, Bool, true, false, Option, none, some, List, [], ◌∷◌, ◌==◌,
  nat_eq, list_eq, if◌then◌else◌, arith, inl, inr,
}
use newgit.Text.{Text}
use newgit.Error.{Result, ok, ok-injective}
use newgit.Objects.Trees.{Entry, empty_tree, sorted_entries}
use newgit.Objects.Distinct.{Distinct, OfName, find-replace_named_other, Distinct-replace_named}
use newgit.Objects.Store.{Objects, replace_named, not_empty_tree, made_of}
use newgit.Objects.Store.Keeps.{Sound, Collision, same_entries, tree_hash}
use newgit.Objects.Store.Known.{GitReads, Hashed}
use newgit.Objects.Store.Reads.{
  ReadsUnder, Under, Under-none, Under-same, Reads-later, Leaves, made_of-Leaves,
}
use newgit.Objects.Store.Levels.{Level}
use newgit.Objects.Store.Among.{and_unless}

module _ (sha1 : Text → Text) (lossy : Text → Text)
    (read_raw : Text → Result (Option (Text × Text))) (Tree : List Entry → Type 0)
    (git : GitReads sha1 lossy read_raw Tree) where
  module _ (of_empty : tree_hash sha1 [] ≡ empty_tree) where
    no_entries :
        (current : Text) (entries : List Entry)
        → Hashed sha1 lossy read_raw Tree git current entries
        → current ≡ empty_tree
        → Collision sha1 read_raw Tree ⊎ (entries ≡ [])
    no_entries current entries (occurs, inl e) same =
        same_entries sha1 read_raw Tree entries [] occurs git.of_no_entries
          (sym e ∙ same ∙ sym of_empty)
    no_entries current entries (occurs, inr (raw, e)) same =
        inl (inr ([], current, raw, git.of_no_entries, of_empty ∙ sym same, e))

    pub untouched_other :
        (current : Option Text) (m : Text) (q : List Text) (found : Option Entry)
        (entries : List Entry) (o o' : Objects)
        → Level sha1 lossy read_raw Tree git current entries o o'
        → ReadsUnder sha1 lossy read_raw Tree git current (m ∷ q) found o
        → Under sha1 lossy read_raw Tree git m q found entries o'
        → Collision sha1 read_raw Tree
          ⊎ ReadsUnder sha1 lossy read_raw Tree git (not_empty_tree current) (m ∷ q) found o'
    untouched_other none m q found entries o o' level reads under = inr reads
    untouched_other (some current) m q found entries o o' (keeps, sound, distinct, hashed, again)
          reads under =
        split (current == empty_tree) refl
      where
        split :
            (b : Bool)
            → (current == empty_tree) ≡ b
            → Collision sha1 read_raw Tree
              ⊎ ReadsUnder sha1 lossy read_raw Tree git
                  (if b then none else some current)
                  (m ∷ q)
                  found
                  o'
        split false e =
            inr (Reads-later sha1 lossy read_raw Tree git current (m ∷ q) found o o' keeps reads)
        split true e =
            and_unless sha1 lossy read_raw Tree git
              (no_entries current entries hashed (ground (arith, e)))
              λ empty. inr (
                Under-none sha1 lossy read_raw Tree git m q found o'
                  (subst (λ es. Under sha1 lossy read_raw Tree git m q found es o') empty under))

  -- The name was set, and the other's entry stays.
  pub Leaves-replaced :
      (name m : Text) (q : List Text) (found replacement : Option Entry) (entries : List Entry)
      (o : Objects)
      → Sound sha1 Tree o.trees
      → Distinct entries
      → OfName name replacement
      → Tree (sorted_entries (replace_named name replacement entries))
      → (name == m) ≡ false
      → Under sha1 lossy read_raw Tree git m q found entries o
      → Leaves sha1 lossy read_raw Tree git o
          (made_of sha1 lossy read_raw (replace_named name replacement entries) o)
          (m ∷ q)
          found
  Leaves-replaced name m q found replacement entries o sound distinct of_name occurs differ under =
      made_of-Leaves sha1 lossy read_raw Tree git m q found (replace_named name replacement entries)
        o sound (Distinct-replace_named name replacement entries of_name distinct) occurs
        (Under-same sha1 lossy read_raw Tree git m q found (replace_named name replacement entries)
          entries o (find-replace_named_other m name replacement entries of_name differ) under)

  pub chosen :
      (left made : Option Text × Objects) (parts : List Text) (found : Option Entry) (o : Objects)
      (b : Bool) {set : Result (Option Text × Objects)}
      → Collision sha1 read_raw Tree ⊎ Leaves sha1 lossy read_raw Tree git o left parts found
      → (set ≡ ok made
          → Collision sha1 read_raw Tree ⊎ Leaves sha1 lossy read_raw Tree git o made parts found)
      → (if b then ok left else set) ≡ ok made
      → Collision sha1 read_raw Tree ⊎ Leaves sha1 lossy read_raw Tree git o made parts found
  chosen left made parts found o true leaves done h =
      and_unless sha1 lossy read_raw Tree git leaves λ l.
        inr (subst (λ m. Leaves sha1 lossy read_raw Tree git o m parts found) (ok-injective h) l)
  chosen left made parts found o false leaves done h = done h
