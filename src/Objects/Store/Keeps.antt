-- ===== src/Objects/Store/Keeps.antt =====
-- crates/newgit-core/src/objects.rs: the trees that the store knows. They are what their ids are hashes of, and
-- no operation forgets one.
use newgit.Prelude.{
  ◌≡◌, ◌≢◌, ◌⊎◌, refl, sym, ap, subst, ◌∙◌, Option, none, some, List, ◌∷◌, ◌==◌, nat_eq, list_eq,
  if◌then◌else◌, arith, ==-refl, Bool-cases, Option-cases, inl, inr,
}
use native.Mathlib.Decide.{ℕ_discrete}
use newgit.Text.{Text, bytes}
use newgit.Error.{Result, ok}
use newgit.Resource.Accessors.{get, is_some}
use newgit.Objects.Trees.{Entry, tree_body, sorted_entries, order_key}
use newgit.Objects.Distinct.{Distinct, Distinct-sort_by}
use newgit.Text.{cmp}
use newgit.Objects.Store.{Objects, hash, id_of, make_tree}

abbrev pub Trees : Type 0
Trees = List (Text × List Entry)

module _ (sha1 : Text → Text) where
  abbrev pub tree_hash : List Entry → Text
  tree_hash entries = hash sha1 (bytes "tree") (tree_body entries)

  module _ (read_raw : Text → Result (Option (Text × Text))) (Tree : List Entry → Type 0) where
    -- Two trees that occur, or one and a commit that Git reads, with one id.
    abbrev pub Collision : Type 0
    Collision =
        ((a : List Entry) × (b : List Entry) × Tree a
          × Tree b
          × (a ≢ b)
          × (tree_hash a ≡ tree_hash b))
        ⊎ ((a : List Entry) × (id : Text) × (raw : Text) × Tree a
            × (tree_hash a ≡ id)
            × (read_raw id ≡ ok (some (bytes "commit", raw))))

  -- Each tree that is known is the one that its id is a hash of, with distinct names, and one of those that occur.
  abbrev pub Sound : (List Entry → Type 0) → Trees → Type 0
  Sound Tree trees =
      (id : Text) (entries : List Entry)
      → get id trees ≡ some entries
      → (id ≡ tree_hash entries) × Distinct entries × Tree entries

-- Every tree of the first is known to the second.
abbrev pub Keeps : Trees → Trees → Type 0
Keeps trees trees' =
    (id : Text) (entries : List Entry) → get id trees ≡ some entries → get id trees' ≡ some entries

pub Keeps-trans : (a b c : Trees) → Keeps a b → Keeps b c → Keeps a c
Keeps-trans a b c k k' id entries h = k' id entries (k id entries h)

entries_discrete : Discrete (List Entry)
entries_discrete = hlevel ℕ_discrete

module _ (key : Text) (entries : List Entry) (trees : Trees) (absent : get key trees ≡ none) where
  pub get-added_self : get key ((key, entries) ∷ trees) ≡ some entries
  unfolding get
  get-added_self = ground (arith, ==-refl key)

  pub Keeps-added : Keeps trees ((key, entries) ∷ trees)
  unfolding get
  Keeps-added id found h = ground (arith, absent, h)

  get-added_cases :
      (id : Text) (found : List Entry)
      → get id ((key, entries) ∷ trees) ≡ some found
      → ((id ≡ key) × (found ≡ entries)) ⊎ (get id trees ≡ some found)
  unfolding get
  get-added_cases id found h = elim (Bool-cases (key == id)) [
    | inl e ↦ inl (ground (arith, e), ground (arith, e, h))
    | inr e ↦ inr (ground (arith, e, h))
  ]

module _ (sha1 : Text → Text) (Tree : List Entry → Type 0) where
  pub Sound-added :
      (id : Text) (entries : List Entry) (trees : Trees)
      → Sound sha1 Tree trees
      → get id trees ≡ none
      → id ≡ tree_hash sha1 entries
      → Distinct entries
      → Tree entries
      → Sound sha1 Tree ((id, entries) ∷ trees)
  Sound-added id entries trees sound absent same distinct occurs other found h =
      elim (get-added_cases id entries trees absent other found h) [
        | inl (e, f) ↦ (
          e ∙ same ∙ ap (tree_hash sha1) (sym f),
          subst Distinct (sym f) distinct,
          subst Tree (sym f) occurs,
        )
        | inr k ↦ sound other found k
      ]

module _ (sha1 : Text → Text) (read_raw : Text → Result (Option (Text × Text)))
    (Tree : List Entry → Type 0) where
  -- One id has one tree, or Git's ids collide.
  pub same_entries :
      (a b : List Entry)
      → Tree a
      → Tree b
      → tree_hash sha1 a ≡ tree_hash sha1 b
      → Collision sha1 read_raw Tree ⊎ (a ≡ b)
  same_entries a b s t h = elim (entries_discrete a b) [
    | yes e ↦ inr e
    | no n ↦ inl (inl (a, b, s, t, n, h))
  ]

  -- `make_tree` adds its tree, unless its id is known.
  trees-make_tree :
      (entries : List Entry) (o : Objects)
      → ((make_tree sha1 entries o).1).trees ≡ (
          if is_some (get (id_of sha1 entries) o.trees)
          then o.trees
          else (id_of sha1 entries, sorted_entries entries) ∷ o.trees)
  unfolding make_tree
  trees-make_tree entries o = ground arith

  -- What `make_tree` leaves known.
  abbrev pub Made : List Entry → Trees → Trees → Type 0
  Made entries trees trees' =
      Keeps trees trees'
      × Sound sha1 Tree trees'
      × (Collision sha1 read_raw Tree
          ⊎ (get (id_of sha1 entries) trees' ≡ some (sorted_entries entries)))

  -- `make_tree` forgets no tree, and its id names the tree made, or ids collide.
  pub make_tree-Made :
      (entries : List Entry) (o : Objects)
      → Sound sha1 Tree o.trees
      → Distinct entries
      → Tree (sorted_entries entries)
      → Made entries o.trees ((make_tree sha1 entries o).1).trees
  make_tree-Made entries o sound distinct occurs =
      let sorted = sorted_entries entries in
      let id = id_of sha1 entries in
      let in_order : Distinct sorted =
        Distinct-sort_by (λ a b. cmp (order_key a) (order_key b)) entries distinct in
      elim (Option-cases (get id o.trees)) [
        | inl absent ↦
            subst (Made entries o.trees)
              (sym (
                trees-make_tree entries o
                ∙ ap (λ f. if is_some f then o.trees else (id, sorted) ∷ o.trees) absent))
              (
                Keeps-added id sorted o.trees absent,
                Sound-added sha1 Tree id sorted o.trees sound absent refl in_order occurs,
                inr (get-added_self id sorted o.trees absent),
              )
        | inr (found, known) ↦
            subst (Made entries o.trees)
              (sym (
                trees-make_tree entries o
                ∙ ap (λ f. if is_some f then o.trees else (id, sorted) ∷ o.trees) known))
              (
                (λ other entries h. h),
                sound,
                elim (same_entries found sorted (sound id found known).2 occurs
                    (sym (sound id found known).0)) [
                      | inl c ↦ inl c
                      | inr e ↦ inr (known ∙ ap some e)
                    ],
              )
      ]
