-- ===== src/Installs/Names.antt =====
-- crates/newgit-core/src/installs.rs: which paths under a root name a needle, said without the walk, and what
-- `find_path_reference` answers of them.
use newgit.Prelude.{
  ℕ, ◌≡◌, refl, sym, ap, subst, ◌∙◌, Bool, true, false, not, none, some, List, [], ◌∷◌, ◌==◌, any,
  nat_eq, list_eq, if◌then◌else◌, arith, In, inl, inr, any-witness, any_of_In, In-filter,
  In-filter_witness, In-append_left, In-append_right, In-append_cases,
}
use newgit.Text.{Text, is_empty, has_substring}
use newgit.Paths.{push, same_path}
use newgit.Installs.{longest, matches, file_contains_any}
use newgit.Installs.Scan.{file_contains_any-matches}
use newgit.Installs.Walk.{
  Node, file, symlink, other, dir, Entries, nil, cons, Walk, walk_from, Steps, finders, hits,
  entry_hits,
}
use newgit.Installs.Found.{hits_lem}

-- The node stands at a path under a root.
mutual
  pub data Under : Text → Node → Text → Node → Type 0 where
    here : (path : Text) (node : Node) → Under path node path node
    inside :
        (path : Text) (entries : Entries) (at : Text) (node : Node)
        → UnderEntries path entries at node
        → Under path (dir entries) at node

  pub data UnderEntries : Text → Entries → Text → Node → Type 0 where
    first :
        (path name : Text) (entry : Node) (entries : Entries) (at : Text) (node : Node)
        → Under (push path name) entry at node
        → UnderEntries path (cons name entry entries) at node
    later :
        (path name : Text) (entry : Node) (entries : Entries) (at : Text) (node : Node)
        → UnderEntries path entries at node
        → UnderEntries path (cons name entry entries) at node

module _ (needles exempt : List Text) where
  -- A needle that is not empty stands in the text.
  abbrev pub HasNeedle : Text → Type 0
  HasNeedle text =
      (needle : Text) × In needle needles
      × (is_empty needle ≡ false)
      × (has_substring text needle ≡ true)

  -- A link whose target has a needle, or a file that is not exempt and whose content has one.
  abbrev pub NamesNeedle : Text → Node → Type 0
  NamesNeedle path (symlink target) = HasNeedle target
  NamesNeedle path (file content) = (any (λ e. same_path e path) exempt ≡ false) × HasNeedle content
  NamesNeedle path other = ⊥
  NamesNeedle path (dir entries) = ⊥

  matches-HasNeedle : (text : Text) → matches (finders needles) text ≡ true → HasNeedle text
  matches-HasNeedle text h =
      let (needle, m, e) = any-witness (has_substring text) (finders needles) h in
      let (given, filled) = In-filter_witness (λ n. not (is_empty n)) needle needles m in
      (needle, given, ground (arith, filled), e)

  HasNeedle-matches : (text : Text) → HasNeedle text → matches (finders needles) text ≡ true
  HasNeedle-matches text (needle, m, filled, e) =
      any_of_In (has_substring text) needle (finders needles)
        (In-filter (λ n. not (is_empty n)) needle needles m (ground (arith, filled))) e

  longest_pos :
      (needle : Text) (ns : List Text)
      → In needle ns
      → is_empty needle ≡ false
      → (longest ns == 0) ≡ false
  unfolding longest
  longest_pos needle [] m h = absurd m
  longest_pos [] (n ∷ ns) (inl e) h = cc
  longest_pos (c ∷ needle) (n ∷ ns) (inl e) h = rw e (ground arith)
  longest_pos needle (n ∷ ns) (inr m) h = ground (arith, longest_pos needle ns m h)

  module _ (sizes : ℕ → ℕ) where
    file-HasNeedle :
        (content : Text)
        → file_contains_any sizes (finders needles) content ≡ true
        → HasNeedle content
    file-HasNeedle content h = matches-HasNeedle content (
        split (longest (finders needles) == 0)
          (sym (file_contains_any-matches sizes (finders needles) content) ∙ h))
      where
        split :
            (b : Bool)
            → (if b then false else matches (finders needles) content) ≡ true
            → matches (finders needles) content ≡ true
        split true h = cc
        split false h = h

    HasNeedle-file :
        (content : Text)
        → HasNeedle content
        → file_contains_any sizes (finders needles) content ≡ true
    HasNeedle-file content (needle, m, filled, e) =
        file_contains_any-matches sizes (finders needles) content
        ∙ ap (λ b. if b then false else matches (finders needles) content)
            (longest_pos needle (finders needles)
              (In-filter (λ n. not (is_empty n)) needle needles m (ground (arith, filled))) filled)
        ∙ HasNeedle-matches content (needle, m, filled, e)

    -- Such a path of the root.
    abbrev pub NamedUnder : Text → Node → Text → Type 0
    NamedUnder root node at = (found : Node) × Under root node at found × NamesNeedle at found

    abbrev NamedIn : Text → Entries → Text → Type 0
    NamedIn path entries at =
        (found : Node) × UnderEntries path entries at found × NamesNeedle at found

    mutual
      hits-NamedUnder :
          (path : Text) (node : Node) (at : Text)
          → In at (hits sizes needles exempt path node)
          → NamedUnder path node at
      hits-NamedUnder path (symlink target) at m =
          hit_link (matches (finders needles) target) refl m
        where
          hit_link :
              (b : Bool)
              → matches (finders needles) target ≡ b
              → In at (if b then path ∷ [] else [])
              → NamedUnder path (symlink target) at
          hit_link true e (inl same) = (
            symlink target,
            subst (λ p. Under path (symlink target) p (symlink target)) same
                (here path (symlink target)),
            matches-HasNeedle target e,
          )
          hit_link true e (inr m) = absurd m
          hit_link false e m = absurd m
      hits-NamedUnder path (file content) at m =
          hit_file (any (λ e. same_path e path) exempt)
            (file_contains_any sizes (finders needles) content) refl refl m
        where
          hit_file :
              (b c : Bool)
              → any (λ e. same_path e path) exempt ≡ b
              → file_contains_any sizes (finders needles) content ≡ c
              → In at (if (if b then false else c) then path ∷ [] else [])
              → NamedUnder path (file content) at
          hit_file true c e f m = absurd m
          hit_file false true e f (inl same) =
              subst (NamedUnder path (file content)) same
                (file content, here path (file content), (e, file-HasNeedle content f))
          hit_file false true e f (inr m) = absurd m
          hit_file false false e f m = absurd m
      hits-NamedUnder path other at m = absurd m
      hits-NamedUnder path (dir entries) at m =
          let (found, u, n) = entry_hits-NamedIn path entries at m in
          (found, inside path entries at found u, n)

      entry_hits-NamedIn :
          (path : Text) (entries : Entries) (at : Text)
          → In at (entry_hits sizes needles exempt path entries)
          → NamedIn path entries at
      entry_hits-NamedIn path nil at m = absurd m
      entry_hits-NamedIn path (cons name node entries) at m =
          elim (In-append_cases at (hits sizes needles exempt (push path name) node)
            (entry_hits sizes needles exempt path entries) m) [
              | inl i ↦
                  let (found, u, n) = hits-NamedUnder (push path name) node at i in
                  (found, first path name node entries at found u, n)
              | inr i ↦
                  let (found, u, n) = entry_hits-NamedIn path entries at i in
                  (found, later path name node entries at found u, n)
            ]

    NamesNeedle-hits :
        (path : Text) (node : Node)
        → NamesNeedle path node
        → In path (hits sizes needles exempt path node)
    NamesNeedle-hits path (symlink target) n =
        subst (λ b. In path (if b then path ∷ [] else [])) (sym (HasNeedle-matches target n))
          (inl refl)
    NamesNeedle-hits path (file content) (free, n) =
        subst
          (λ b. In path (
            if (if b then false else file_contains_any sizes (finders needles) content)
            then path ∷ []
            else []))
          (sym free)
          (subst (λ b. In path (if b then path ∷ [] else [])) (sym (HasNeedle-file content n))
            (inl refl))
    NamesNeedle-hits path other n = absurd n
    NamesNeedle-hits path (dir entries) n = absurd n

    mutual
      Under-hits :
          (path : Text) (node : Node) (at : Text) (found : Node)
          → Under path node at found
          → NamesNeedle at found
          → In at (hits sizes needles exempt path node)
      Under-hits path node at found (here p x) n = NamesNeedle-hits path node n
      Under-hits path node at found (inside p entries a x u) n =
          UnderEntries-hits path entries at found u n

      UnderEntries-hits :
          (path : Text) (entries : Entries) (at : Text) (found : Node)
          → UnderEntries path entries at found
          → NamesNeedle at found
          → In at (entry_hits sizes needles exempt path entries)
      UnderEntries-hits path entries at found (first p name node rest a x u) n =
          In-append_left at (hits sizes needles exempt (push path name) node)
            (entry_hits sizes needles exempt path rest)
            (Under-hits (push path name) node at found u n)
      UnderEntries-hits path entries at found (later p name node rest a x u) n =
          In-append_right at (hits sizes needles exempt (push path name) node)
            (entry_hits sizes needles exempt path rest) (UnderEntries-hits path rest at found u n)

    -- When the walk has ended, no task waiting and no answer unwritten, whatever the order its tasks ran in: a path
    -- that it answers is that of a link under the root whose target has a needle that is not empty as a part, or of
    -- a file whose content has one and whose path is that of no exempt one, component by component; and if it answers
    -- none, there is no such path under the root.
    pub find_path_reference_lem :
        (root : Text) (node : Node) (w : Walk)
        → Steps sizes needles exempt (walk_from root node) w
        → w.queued ≡ []
        → w.finishing ≡ []
        → ((path : Text) → w.outcome ≡ some path → NamedUnder root node path)
          × (w.outcome ≡ none → (path : Text) → NamedUnder root node path → ⊥)
    find_path_reference_lem root node w steps queue finish =
        let (sound, complete) = hits_lem sizes needles exempt root node w steps queue finish in
        (
          λ path e. hits-NamedUnder root node path (sound path e),
          λ e path named. complete e path (Under-hits root node path named.0 named.1 named.2),
        )
