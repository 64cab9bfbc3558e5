-- ===== src/Objects/Store/Known.antt =====
-- crates/newgit-core/src/objects.rs: what `tree` answers, and that the store answers it again.
use newgit.Prelude.{
  ◌≡◌, ◌⊎◌, refl, sym, ap, subst, ◌∙◌, Bool, true, false, Option, none, some, List, [], ◌==◌,
  nat_eq, list_eq, if◌then◌else◌, arith, Option-cases, inl, inr,
}
use newgit.Text.{Text, bytes}
use newgit.Error.{Result, ok, err, ◌>>=◌, ok-injective}
use newgit.Resource.Accessors.{get}
use newgit.Objects.{parse}
use newgit.Objects.Trees.{Entry, parse_tree}
use newgit.Objects.Distinct.{Distinct}
use newgit.Objects.Store.{Objects, cached_or, peeled_tree, plain_tree, any_tree, read_tree, tree}
use newgit.Objects.Store.Keeps.{
  Sound, Keeps, Collision, tree_hash, get-added_self, Keeps-added, Sound-added,
}

-- What Git answers for an id. An object that is no commit is a tree, the one that the id is a hash of, whose names
-- are distinct; a commit's tree is no commit. `Tree` holds of the trees that occur, those that Git reads and the empty
-- one among them: no two of them have one id, and none has the id of a commit that Git reads.
pub record GitReads (sha1 : Text → Text) (lossy : Text → Text)
    (read_raw : Text → Result (Option (Text × Text))) (Tree : List Entry → Type 0) : Type 0 where
  pub of_tree :
      (id kind raw : Text)
      → read_raw id ≡ ok (some (kind, raw))
      → (kind == bytes "commit") ≡ false
      → (id ≡ tree_hash sha1 (parse_tree raw)) × Distinct (parse_tree raw) × Tree (parse_tree raw)
  pub tree_of_commit :
      (id raw kind below : Text)
      → read_raw id ≡ ok (some (bytes "commit", raw))
      → read_raw ((parse lossy id raw).tree) ≡ ok (some (kind, below))
      → (kind == bytes "commit") ≡ false
  pub of_no_entries : Tree []
  pub unique : (a b : List Entry) → Tree a → Tree b → tree_hash sha1 a ≡ tree_hash sha1 b → a ≡ b
  pub apart :
      (a : List Entry) (id raw : Text)
      → Tree a
      → tree_hash sha1 a ≡ id
      → read_raw id ≡ ok (some (bytes "commit", raw))
      → ⊥

module _ (sha1 : Text → Text) (lossy : Text → Text)
    (read_raw : Text → Result (Option (Text × Text))) (Tree : List Entry → Type 0)
    (git : GitReads sha1 lossy read_raw Tree) where
  pub no_Collision : Collision sha1 read_raw Tree → ⊥
  no_Collision (inl (a, b, s, t, differ, same)) = differ (git.unique a b s t same)
  no_Collision (inr (a, id, raw, s, same, found)) = git.apart a id raw s same found

  -- The tree of an id is known.
  abbrev Found : Text → List Entry → Objects → Objects → Type 0
  Found id entries o o' =
      Keeps o.trees o'.trees
      × Sound sha1 Tree o'.trees
      × Distinct entries
      × (get id o'.trees ≡ some entries)

  Found-read :
      (id kind raw : Text) (o o' : Objects) (entries : List Entry)
      → Sound sha1 Tree o.trees
      → get id o.trees ≡ none
      → read_raw id ≡ ok (some (kind, raw))
      → (kind == bytes "commit") ≡ false
      → read_tree sha1 lossy read_raw id raw o ≡ ok (entries, o')
      → Found id entries o o'
  Found-read id kind raw o o' entries sound absent found plain h =
      let (same, distinct, occurs) = git.of_tree id kind raw found plain in
      subst (λ (es, o₂). Found id es o o₂) (ok-injective h)
        (
          Keeps-added id (parse_tree raw) o.trees absent,
          Sound-added sha1 Tree id (parse_tree raw) o.trees sound absent same distinct occurs,
          distinct,
          get-added_self id (parse_tree raw) o.trees absent,
        )

  Found-known :
      (id : Text) (o o' : Objects) (entries known : List Entry)
      → Sound sha1 Tree o.trees
      → get id o.trees ≡ some known
      → ok (known, o) ≡ (let answer : Result (List Entry × Objects) = ok (entries, o') in answer)
      → Found id entries o o'
  Found-known id o o' entries known sound e h =
      subst (λ (es, o₂). Found id es o o₂) (ok-injective h)
        ((λ other es k. k), sound, (sound id known e).1, e)

  plain_tree-Found :
      (id : Text) (o o' : Objects) (entries : List Entry)
      → Sound sha1 Tree o.trees
      → ((kind raw : Text) → read_raw id ≡ ok (some (kind, raw)) → (kind == bytes "commit") ≡ false)
      → plain_tree sha1 lossy read_raw id o ≡ ok (entries, o')
      → Found id entries o o'
  unfolding plain_tree
  plain_tree-Found id o o' entries sound plain h = split (get id o.trees) refl (read_raw id) refl h
    where
      split :
          (c : Option (List Entry))
          → get id o.trees ≡ c
          → (r : Result (Option (Text × Text))) → read_raw id ≡ r
          → cached_or sha1 lossy read_raw c o (r >>= peeled_tree sha1 lossy read_raw id o)
            ≡ ok (entries, o')
          → Found id entries o o'
      split (some known) e r f k = Found-known id o o' entries known sound e k
      split none e (err refusal) f k = cc
      split none e (ok none) f k = cc
      split none e (ok (some (kind, raw))) f k =
          Found-read id kind raw o o' entries sound e f (plain kind raw f) k

  -- The store answers the same again, as long as it forgets no tree, or ids collide.
  abbrev pub Again : Text → List Entry → Objects → Type 0
  Again id entries o' =
      (o'' : Objects)
      → Sound sha1 Tree o''.trees
      → Keeps o'.trees o''.trees
      → Collision sha1 read_raw Tree ⊎ (tree sha1 lossy read_raw id o'' ≡ ok (entries, o''))

  pub Again-known :
      (id : Text) (entries : List Entry) (o' : Objects)
      → get id o'.trees ≡ some entries
      → Again id entries o'
  unfolding tree
  Again-known id entries o' e o'' sound keeps = inr (rw (keeps id entries e) refl)

  Again-commit :
      (id raw : Text) (entries : List Entry) (o' : Objects)
      → read_raw id ≡ ok (some (bytes "commit", raw))
      → get ((parse lossy id raw).tree) o'.trees ≡ some entries
      → Again id entries o'
  unfolding tree plain_tree list_eq nat_eq
  Again-commit id raw entries o' found e o'' sound keeps = elim (Option-cases (get id o''.trees)) [
    | inl absent ↦ inr (rw (absent, found, keeps ((parse lossy id raw).tree) entries e) refl)
    | inr (known, k) ↦
        inl (inr (known, id, raw, (sound id known k).2, sym (sound id known k).0, found))
  ]

  -- The id is the tree's, or that of a commit that Git reads.
  abbrev pub Hashed : Text → List Entry → Type 0
  Hashed id entries =
      Tree entries
      × ((id ≡ tree_hash sha1 entries)
          ⊎ ((raw : Text) × (read_raw id ≡ ok (some (bytes "commit", raw)))))

  abbrev pub Answered : Text → List Entry → Objects → Objects → Type 0
  Answered id entries o o' =
      Keeps o.trees o'.trees
      × Sound sha1 Tree o'.trees
      × Distinct entries
      × Hashed id entries
      × Again id entries o'

  Found-Answered :
      (id : Text) (entries : List Entry) (o o' : Objects)
      → Found id entries o o'
      → Answered id entries o o'
  Found-Answered id entries o o' (keeps, sound, distinct, e) = (
    keeps,
    sound,
    distinct,
    ((sound id entries e).2, inl (sound id entries e).0),
    Again-known id entries o' e,
  )

  -- A tree that was read has distinct names, its store forgets nothing, and it is read again.
  pub tree-Answered :
      (id : Text) (o o' : Objects) (entries : List Entry)
      → Sound sha1 Tree o.trees
      → tree sha1 lossy read_raw id o ≡ ok (entries, o')
      → Answered id entries o o'
  unfolding tree
  tree-Answered id o o' entries sound h = split (get id o.trees) refl (read_raw id) refl h
    where
      of_object :
          (kind raw : Text)
          → get id o.trees ≡ none
          → read_raw id ≡ ok (some (kind, raw))
          → (b : Bool) → (kind == bytes "commit") ≡ b
          → (if b
              then plain_tree sha1 lossy read_raw ((parse lossy id raw).tree) o
              else read_tree sha1 lossy read_raw id raw o)
            ≡ ok (entries, o')
          → Answered id entries o o'
      of_object kind raw absent found true e k =
          let is_commit : read_raw id ≡ ok (some (bytes "commit", raw)) =
            found ∙ ap (λ word. ok (some (word, raw))) (ground (arith, e)) in
          let (keeps, sound', distinct, known) =
            plain_tree-Found ((parse lossy id raw).tree) o o' entries sound
              (λ other below. git.tree_of_commit id raw other below is_commit) k in
          (
            keeps,
            sound',
            distinct,
            ((sound' ((parse lossy id raw).tree) entries known).2, inr (raw, is_commit)),
            Again-commit id raw entries o' is_commit known,
          )
      of_object kind raw absent found false e k =
          Found-Answered id entries o o'
            (Found-read id kind raw o o' entries sound absent found e k)

      split :
          (c : Option (List Entry))
          → get id o.trees ≡ c
          → (r : Result (Option (Text × Text))) → read_raw id ≡ r
          → cached_or sha1 lossy read_raw c o (r >>= any_tree sha1 lossy read_raw id o)
            ≡ ok (entries, o')
          → Answered id entries o o'
      split (some known) e r f k =
          Found-Answered id entries o o' (Found-known id o o' entries known sound e k)
      split none e (err refusal) f k = cc
      split none e (ok none) f k = cc
      split none e (ok (some (kind, raw))) f k =
          of_object kind raw e f (kind == bytes "commit") refl k
