-- ===== src/Objects/Store/Among.antt =====
-- crates/newgit-core/src/objects.rs: the first part of a path that was read stands among the entries that were read.
use newgit.Prelude.{
  ◌≡◌, ◌⊎◌, refl, sym, ap, subst, ◌∙◌, Option, none, some, List, [], ◌∷◌, find, nat_eq, list_eq,
  inl, inr,
}
use newgit.Text.{Text}
use newgit.Error.{Result, ok, ok-injective}
use newgit.Objects.Trees.{Entry}
use newgit.Objects.Store.{Objects, named, tree_id, tree, in_tree, entry_in, tree_or_none}
use newgit.Objects.Store.Keeps.{Sound, Keeps, Collision}
use newgit.Objects.Store.Known.{GitReads, Again}
use newgit.Objects.Store.Reads.{Reads, ReadsUnder, Under, Reads-later}
use newgit.Objects.Store.Levels.{Level}

module _ (sha1 : Text → Text) (lossy : Text → Text)
    (read_raw : Text → Result (Option (Text × Text))) (Tree : List Entry → Type 0)
    (git : GitReads sha1 lossy read_raw Tree) where
  pub entry_in-last :
      (current m : Text) (entries : List Entry) (o : Objects)
      → tree sha1 lossy read_raw current o ≡ ok (entries, o)
      → entry_in sha1 lossy read_raw (m ∷ []) current o ≡ ok (find (named m) entries, o)
  unfolding entry_in
  entry_in-last current m entries o e = rw e refl

  pub entry_in-below :
      (current m n : Text) (q : List Text) (entries : List Entry) (o : Objects)
      → tree sha1 lossy read_raw current o ≡ ok (entries, o)
      → entry_in sha1 lossy read_raw (m ∷ n ∷ q) current o
        ≡ in_tree sha1 lossy read_raw
            (tree_id (find (named m) entries))
            o
            (λ id. entry_in sha1 lossy read_raw (n ∷ q) id o)
  unfolding entry_in
  entry_in-below current m n q entries o e = rw e refl

  -- A step that either goes on or meets a collision.
  abbrev pub and_unless {ℓ κ} :
      {A : Type ℓ} {B : Type κ}
      → Collision sha1 read_raw Tree ⊎ A
      → (A → Collision sha1 read_raw Tree ⊎ B)
      → Collision sha1 read_raw Tree ⊎ B
  and_unless (inl c) next = inl c
  and_unless (inr a) next = next a

  -- The first part of a path that was read stands among the entries that were read.
  pub Under-Reads :
      (current m : Text) (q : List Text) (found : Option Entry) (entries : List Entry) (o : Objects)
      → Sound sha1 Tree o.trees
      → Again sha1 lossy read_raw Tree git current entries o
      → Reads sha1 lossy read_raw Tree git current (m ∷ q) found o
      → Collision sha1 read_raw Tree ⊎ Under sha1 lossy read_raw Tree git m q found entries o
  Under-Reads current m [] found entries o sound again reads =
      and_unless (again o sound (λ id es k. k)) λ e. and_unless (reads o sound (λ id es k. k)) λ k.
        inr (ap (λ answer. answer.0) (ok-injective (sym (entry_in-last current m entries o e) ∙ k)))
  Under-Reads current m (n ∷ q) found entries o sound again reads =
      split (tree_id (find (named m) entries)) λ o' sound' keeps.
        and_unless (again o' sound' keeps) λ e.
          and_unless (reads o' sound' keeps)
            λ k. inr (sym (entry_in-below current m n q entries o' e) ∙ k)
    where
      split :
          (below : Option Text)
          → ((o' : Objects)
              → Sound sha1 Tree o'.trees
              → Keeps o.trees o'.trees
              → Collision sha1 read_raw Tree
                ⊎ (in_tree sha1 lossy read_raw below o'
                      (λ id. entry_in sha1 lossy read_raw (n ∷ q) id o')
                    ≡ ok (found, o')))
          → Collision sha1 read_raw Tree
            ⊎ ReadsUnder sha1 lossy read_raw Tree git below (n ∷ q) found o
      split none same =
          and_unless (same o sound (λ id es k. k))
            λ k. inr (sym (ap (λ answer. answer.0) (ok-injective k)))
      split (some id) same = inr same

  pub Under-ReadsUnder :
      (current : Option Text) (m : Text) (q : List Text) (found : Option Entry)
      (entries : List Entry) (o o' : Objects)
      → Level sha1 lossy read_raw Tree git current entries o o'
      → tree_or_none sha1 lossy read_raw current o ≡ ok (entries, o')
      → ReadsUnder sha1 lossy read_raw Tree git current (m ∷ q) found o
      → Collision sha1 read_raw Tree ⊎ Under sha1 lossy read_raw Tree git m q found entries o'
  Under-ReadsUnder none m q found entries o o' level h reads = inr (
      subst (λ es. Under sha1 lossy read_raw Tree git m q found es o')
        (ap (λ answer. answer.0) (ok-injective h)) (nothing q))
    where
      nothing : (q : List Text) → Under sha1 lossy read_raw Tree git m q found [] o'
      nothing [] = sym reads
      nothing (n ∷ q) = reads
  Under-ReadsUnder (some current) m q found entries o o' (keeps, sound, distinct, hashed, again) h
        reads =
      Under-Reads current m q found entries o' sound again
        (Reads-later sha1 lossy read_raw Tree git current (m ∷ q) found o o' keeps reads)
