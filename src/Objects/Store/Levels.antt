-- ===== src/Objects/Store/Levels.antt =====
-- crates/newgit-core/src/objects.rs: what `set_in` leaves at the path that it sets.
use newgit.Prelude.{
  ◌≡◌, refl, sym, ap, subst, ◌∙◌, not, ◌&&◌, Option, none, some, List, [], ◌∷◌, find, ◌==◌, nat_eq,
  list_eq, if◌then◌else◌, Bool-cases, inl, inr, In, In-append_left, In-append_right,
}
use newgit.Text.{Text}
use newgit.Error.{Result, ok, ◌>>=◌, ok->>=, ok-injective}
use newgit.Resource.Accessors.{is_some}
use newgit.Objects.Trees.{Entry, empty_tree, sorted_entries}
use newgit.Objects.Distinct.{Distinct, OfName, find-replace_named, Distinct-replace_named}
use newgit.Objects.Store.{
  Objects, named, replace_named, entry_named, tree_entry, tree_id, not_empty_tree, tree_or_none,
  made_of, set_in,
}
use newgit.Objects.Store.Keeps.{Sound, Keeps, Keeps-trans}
use newgit.Objects.Store.Occurring.{set_trees, of_read_lem}
use newgit.Objects.Store.Known.{GitReads, Answered, tree-Answered}
use newgit.Objects.Store.Reads.{ReadsUnder, Reads-Under, Leaves, made_of-Leaves}

-- The last part of a path.
abbrev pub last_part : Text → List Text → Text
last_part name [] = name
last_part name (next ∷ rest) = last_part next rest

pub OfName-entry_named :
    (name : Text) (entry : Option (Text × Text)) → OfName name (entry_named name entry)
OfName-entry_named name none = tt
OfName-entry_named name (some (mode, id)) = refl

pub OfName-tree_entry : (name : Text) (id : Option Text) → OfName name (tree_entry name id)
OfName-tree_entry name none = tt
OfName-tree_entry name (some id) = refl

tree_id-tree_entry : (name : Text) (id : Option Text) → tree_id (tree_entry name id) ≡ id
unfolding list_eq nat_eq
tree_id-tree_entry name none = refl
tree_id-tree_entry name (some id) = refl

module _ (sha1 : Text → Text) (lossy : Text → Text)
    (read_raw : Text → Result (Option (Text × Text))) (Tree : List Entry → Type 0)
    (git : GitReads sha1 lossy read_raw Tree) where
  -- What is known when the entries at a level were read.
  abbrev pub Level : Option Text → List Entry → Objects → Objects → Type 0
  Level none entries o o' = Keeps o.trees o'.trees × Sound sha1 Tree o'.trees × Distinct entries
  Level (some current) entries o o' = Answered sha1 lossy read_raw Tree git current entries o o'

  pub tree_or_none-Level :
      (current : Option Text) (o o' : Objects) (entries : List Entry)
      → Sound sha1 Tree o.trees
      → tree_or_none sha1 lossy read_raw current o ≡ ok (entries, o')
      → Level current entries o o'
  tree_or_none-Level none o o' entries sound h =
      subst (λ (es, o₂). Keeps o.trees o₂.trees × Sound sha1 Tree o₂.trees × Distinct es)
        (ok-injective h) ((λ id es k. k), sound, tt)
  tree_or_none-Level (some current) o o' entries sound h =
      tree-Answered sha1 lossy read_raw Tree git current o o' entries sound h

  pub Level-kept :
      (current : Option Text) (entries : List Entry) (o o' : Objects)
      → Level current entries o o'
      → Keeps o.trees o'.trees × Sound sha1 Tree o'.trees × Distinct entries
  Level-kept none entries o o' level = level
  Level-kept (some current) entries o o' (keeps, sound, distinct, hashed, again) =
      (keeps, sound, distinct)

  pub Leaves-earlier :
      (o o' : Objects) (made : Option Text × Objects) (parts : List Text) (expected : Option Entry)
      → Keeps o.trees o'.trees
      → Leaves sha1 lossy read_raw Tree git o' made parts expected
      → Leaves sha1 lossy read_raw Tree git o made parts expected
  Leaves-earlier o o' made parts expected keeps (k, sound, reads) =
      (Keeps-trans o.trees o'.trees (made.1).trees keeps k, sound, reads)

  -- The tree is left as it is: nothing stood at the path, and nothing does.
  untouched :
      (current : Option Text) (name next : Text) (rest : List Text) (entries : List Entry)
      (o o' : Objects)
      → Level current entries o o'
      → tree_id (find (named name) entries) ≡ none
      → ReadsUnder sha1 lossy read_raw Tree git
          (not_empty_tree current)
          (name ∷ next ∷ rest)
          none
          o'
  untouched none name next rest entries o o' level e = refl
  untouched (some current) name next rest entries o o' (keeps, sound, distinct, hashed, again) e =
      elim (Bool-cases (current == empty_tree)) [
        | inl k ↦
            subst
              (λ b.
                ReadsUnder sha1 lossy read_raw Tree git (if b then none else some current)
                  (name ∷ next ∷ rest) none o')
              (sym k) refl
        | inr k ↦
            subst
              (λ b.
                ReadsUnder sha1 lossy read_raw Tree git (if b then none else some current)
                  (name ∷ next ∷ rest) none o')
              (sym k)
              (Reads-Under sha1 lossy read_raw Tree git current name (next ∷ rest) none entries o'
                again
                (subst
                  (λ below. ReadsUnder sha1 lossy read_raw Tree git below (next ∷ rest) none o')
                  (sym e) refl))
      ]

  -- The tree made with the subtree that was set below.
  pub descended :
      (name next : Text) (rest : List Text) (entries : List Entry)
      (step : Result (Option Text × Objects)) (o : Objects) (made : Option Text × Objects)
      (expected : Option Entry)
      → Distinct entries
      → ((m : Option Text × Objects)
          → step ≡ ok m
          → Tree (sorted_entries (replace_named name (tree_entry name m.0) entries)))
      → ((m : Option Text × Objects)
          → step ≡ ok m
          → Leaves sha1 lossy read_raw Tree git o m (next ∷ rest) expected)
      → (step >>= λ (id, o).
          ok (made_of sha1 lossy read_raw (replace_named name (tree_entry name id) entries) o))
        ≡ ok made
      → Leaves sha1 lossy read_raw Tree git o made (name ∷ next ∷ rest) expected
  descended name next rest entries step o made expected distinct occurs below h =
      let ((id, o₂), same, e) = ok->>= _ step h in
      let (keeps, sound, reads) = below (id, o₂) e in
      let of_name = OfName-tree_entry name id in
      let replaced = replace_named name (tree_entry name id) entries in
      subst (λ m. Leaves sha1 lossy read_raw Tree git o m (name ∷ next ∷ rest) expected)
        (ok-injective same)
        (Leaves-earlier o o₂ (made_of sha1 lossy read_raw replaced o₂) (name ∷ next ∷ rest) expected
          keeps
          (made_of-Leaves sha1 lossy read_raw Tree git name (next ∷ rest) expected replaced o₂ sound
            (Distinct-replace_named name (tree_entry name id) entries of_name distinct)
            (occurs (id, o₂) e)
            (subst (λ t. ReadsUnder sha1 lossy read_raw Tree git t (next ∷ rest) expected o₂)
              (sym (
                ap tree_id (find-replace_named name (tree_entry name id) entries of_name distinct)
                ∙ tree_id-tree_entry name id))
              reads)))

  set_or_untouched :
      (current : Option Text) (name next : Text) (rest : List Text) (entries : List Entry)
      (entry : Option (Text × Text)) (o o' : Objects) (made : Option Text × Objects)
      {set : Result (Option Text × Objects)}
      → Level current entries o o'
      → ((m : Option Text × Objects)
          → set ≡ ok m
          → Leaves sha1 lossy read_raw Tree git o' m
              (name ∷ next ∷ rest)
              (entry_named (last_part next rest) entry))
      → (if not (is_some (tree_id (find (named name) entries))) && not (is_some entry)
          then ok (not_empty_tree current, o')
          else set)
        ≡ ok made
      → Leaves sha1 lossy read_raw Tree git o' made
          (name ∷ next ∷ rest)
          (entry_named (last_part next rest) entry)
  set_or_untouched current name next rest entries entry o o' made {set} level done h =
      split (tree_id (find (named name) entries)) refl entry done h
    where
      split :
          (below : Option Text)
          → tree_id (find (named name) entries) ≡ below
          → (entry : Option (Text × Text))
          → ((m : Option Text × Objects)
              → set ≡ ok m
              → Leaves sha1 lossy read_raw Tree git o' m
                  (name ∷ next ∷ rest)
                  (entry_named (last_part next rest) entry))
          → (if not (is_some below) && not (is_some entry)
              then ok (not_empty_tree current, o')
              else set)
            ≡ ok made
          → Leaves sha1 lossy read_raw Tree git o' made
              (name ∷ next ∷ rest)
              (entry_named (last_part next rest) entry)
      split (some id) e entry done k = done made k
      split none e (some set_to) done k = done made k
      split none e none done k =
          subst (λ m. Leaves sha1 lossy read_raw Tree git o' m (name ∷ next ∷ rest) none)
            (ok-injective k)
            (
              (λ id es known. known),
              (Level-kept current entries o o' level).1,
              untouched current name next rest entries o o' level e,
            )

  pub set_in-Leaves :
      (name : Text) (rest : List Text) (current : Option Text) (entry : Option (Text × Text))
      (o : Objects) (made : Option Text × Objects)
      → Sound sha1 Tree o.trees
      → ((es : List Entry)
          → In es (set_trees sha1 lossy read_raw name rest current entry o)
          → Tree es)
      → set_in sha1 lossy read_raw name rest current entry o ≡ ok made
      → Leaves sha1 lossy read_raw Tree git o made
          (name ∷ rest)
          (entry_named (last_part name rest) entry)
  unfolding set_in
  set_in-Leaves name [] current entry o made sound occurs h =
      let ((entries, o₁), same, e) = ok->>= _ (tree_or_none sha1 lossy read_raw current o) h in
      let (keeps, sound₁, distinct) =
        Level-kept current entries o o₁ (tree_or_none-Level current o o₁ entries sound e) in
      let replaced = replace_named name (entry_named name entry) entries in
      let of_name = OfName-entry_named name entry in
      subst (λ m. Leaves sha1 lossy read_raw Tree git o m (name ∷ []) (entry_named name entry))
        (ok-injective same)
        (Leaves-earlier o o₁ (made_of sha1 lossy read_raw replaced o₁) (name ∷ [])
          (entry_named name entry) keeps
          (made_of-Leaves sha1 lossy read_raw Tree git name [] (entry_named name entry) replaced o₁
            sound₁ (Distinct-replace_named name (entry_named name entry) entries of_name distinct)
            (occurs (sorted_entries replaced)
              (of_read_lem _ (entries, o₁) _ (sorted_entries replaced) e (inl refl)))
            (find-replace_named name (entry_named name entry) entries of_name distinct)))
  set_in-Leaves name (next ∷ rest) current entry o made sound occurs h =
      let ((entries, o₁), same, e) = ok->>= _ (tree_or_none sha1 lossy read_raw current o) h in
      let level = tree_or_none-Level current o o₁ entries sound e in
      let (keeps, sound₁, distinct) = Level-kept current entries o o₁ level in
      let below = tree_id (find (named name) entries) in
      Leaves-earlier o o₁ made (name ∷ next ∷ rest) (entry_named (last_part next rest) entry) keeps
        (set_or_untouched current name next rest entries entry o o₁ made level
          (λ m k.
            descended name next rest entries (set_in sha1 lossy read_raw next rest below entry o₁)
              o₁ m (entry_named (last_part next rest) entry) distinct
              (λ m' k'. occurs _ (
                of_read_lem _ (entries, o₁) _ _ e
                  (In-append_left _ _ _ (of_read_lem _ m' _ _ k' (inl refl)))))
              (λ m' k'.
                set_in-Leaves next rest below entry o₁ m' sound₁
                  (λ es i.
                    occurs es (of_read_lem _ (entries, o₁) _ es e (In-append_right es _ _ i)))
                  k')
              k)
          same)
