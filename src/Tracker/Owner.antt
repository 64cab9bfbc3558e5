-- ===== src/Tracker/Owner.antt =====
-- What `owner_of` finds: the tracker with the longest claim among those mounted deepest.
use Prim.Native.Nat.{Ordering}
use newgit.Prelude.{
  ℕ, ◌≤◌, ◌<◌, ◌≡◌, ◌≢◌, refl, ap, subst, ◌∙◌, ◌⊎◌, inl, inr, true, false, Option, none, some, List,
  [], ◌∷◌, map, filter, arith, nat_eq, ltb, In, Bool-cases, Option-cases, In-filter,
  In-filter_witness, In-filter_map, In-filter_map_witness, In-map, In-map_witness,
}
use mathlib.Core.Option.{some-injective}
use newgit.Prelude.Sort.{is_gt}
use newgit.Text.{Text, cmp}
use newgit.Tracker.{TrackerDefinition}
use newgit.Tracker.Ownership.{
  mount_holds, mount_depth, max_of, claim_on, claim_order, max_by, deepest_mount, claim_by,
  mounted_at, claimants, claimant, owner_at, owner_of,
}
use newgit.Tracker.Greatest.{max_by-best, claim_order-IsTotal, max_of-ne-none, max_of-ge}

-- `d` is the owner by the rules: no tracker mounted deeper holds the path, and of those mounted as
-- deep none has a longer claim on it, or as long a one and a smaller name.
pub record IsOwner (definitions : List TrackerDefinition) (path : Text) (d : TrackerDefinition)
    : Type 0 where
  pub listed : In d definitions
  pub holds : mount_holds d.mount path ≡ true
  pub claim : ℕ
  pub claimed : claim_on d path ≡ some claim
  pub deepest :
      (e : TrackerDefinition)
      → In e definitions
      → mount_holds e.mount path ≡ true
      → mount_depth e.mount ≤ mount_depth d.mount
  pub longest :
      (e : TrackerDefinition) (k : ℕ)
      → In e definitions
      → mount_holds e.mount path ≡ true
      → mount_depth e.mount ≡ mount_depth d.mount
      → claim_on e path ≡ some k
      → (k < claim) ⊎ ((k ≡ claim) × (is_gt (cmp d.name e.name) ≡ false))

claim_by-eq-some :
    (path : Text) (e d : TrackerDefinition) (c : ℕ)
    → claim_by path e ≡ some (c, d)
    → (claim_on e path ≡ some c) × (e ≡ d)
claim_by-eq-some path e d c h = ground arith

module _ (definitions : List TrackerDefinition) (path : Text) (deepest : ℕ) where
  In-claimants :
      (e : TrackerDefinition) (k : ℕ)
      → In e definitions
      → mount_holds e.mount path ≡ true
      → mount_depth e.mount ≡ deepest
      → claim_on e path ≡ some k
      → In (k, e) (claimants deepest definitions path)
  unfolding claimants
  In-claimants e k m h d c =
      In-filter_map (claim_by path) e (k, e) (filter (mounted_at deepest path) definitions)
        (In-filter (mounted_at deepest path) e definitions m (ground arith)) (ground arith)

  In-claimants_witness :
      (c : ℕ) (d : TrackerDefinition)
      → In (c, d) (claimants deepest definitions path)
      → In d definitions
        × (mount_holds d.mount path ≡ true)
        × (mount_depth d.mount ≡ deepest)
        × (claim_on d path ≡ some c)
  unfolding claimants
  In-claimants_witness c d m =
      let candidates = filter (mounted_at deepest path) definitions in
      let (x, n, e) = In-filter_map_witness (claim_by path) (c, d) candidates m in
      let (k, q) = claim_by-eq-some path x d c e in
      let n' : In d candidates = subst (λ z. In z candidates) q n in
      let (i, t) = In-filter_witness (mounted_at deepest path) d definitions n' in
      (
        i,
        ground arith,
        ground arith,
        subst (λ (z : TrackerDefinition). claim_on z path ≡ some c) q k,
      )

order_le :
    (k c : ℕ) (e d : TrackerDefinition)
    → is_gt (claim_order (k, e) (c, d)) ≡ false
    → (k < c) ⊎ ((k ≡ c) × (is_gt (cmp d.name e.name) ≡ false))
unfolding claim_order
order_le k c e d h = ground arith

deepest_mount-ge :
    (definitions : List TrackerDefinition) (path : Text) (n : ℕ) (e : TrackerDefinition)
    → deepest_mount definitions path ≡ some n
    → In e definitions
    → mount_holds e.mount path ≡ true
    → mount_depth e.mount ≤ n
unfolding deepest_mount
deepest_mount-ge definitions path n e h m holds =
    max_of-ge _ (mount_depth e.mount) n
      (In-map (λ (d : TrackerDefinition). mount_depth d.mount) e _
        (In-filter (λ (d : TrackerDefinition). mount_holds d.mount path) e definitions m holds))
      h

best_claimant-IsOwner :
    (definitions : List TrackerDefinition) (path : Text) (n c : ℕ) (d : TrackerDefinition)
    → deepest_mount definitions path ≡ some n
    → max_by claim_order (claimants n definitions path) ≡ some (c, d)
    → IsOwner definitions path d
best_claimant-IsOwner definitions path n c d deep best =
    let (m, top) = max_by-best claim_order-IsTotal (claimants n definitions path) (c, d) best in
    let (i, holds, depth, claimed) = In-claimants_witness definitions path n c d m in
    record {
      listed = i;
      holds = holds;
      claim = c;
      claimed = claimed;
      deepest = λ e ie he. omega (arith, deepest_mount-ge definitions path n e deep ie he);
      longest = λ e k ie he de ce.
          order_le k c e d (top (k, e) (In-claimants definitions path n e k ie he (de ∙ depth) ce));
    }

claimant-eq-some :
    (o : Option (ℕ × TrackerDefinition)) (d : TrackerDefinition)
    → claimant o ≡ some d
    → (c : ℕ) × (o ≡ some (c, d))
claimant-eq-some none d h = cc
claimant-eq-some (some (c, x)) d h =
    (c, ap (λ (y : TrackerDefinition). some (c, y)) (some-injective x d h))

owner_at-eq-some :
    (o : Option ℕ) (best : ℕ → Option (ℕ × TrackerDefinition)) (d : TrackerDefinition)
    → owner_at o best ≡ some d
    → (n : ℕ) × (c : ℕ) × (o ≡ some n) × (best n ≡ some (c, d))
owner_at-eq-some none best d h = cc
owner_at-eq-some (some n) best d h = let (c, e) = claimant-eq-some (best n) d h in (n, c, refl, e)

-- Whom `owner_of` returns is the owner by the rules: a listed tracker that holds and claims the path,
-- with none mounted deeper that holds it, and of those mounted as deep none with a longer claim, or
-- with as long a claim and a smaller name.
pub owner_of-IsOwner :
    (definitions : List TrackerDefinition) (path : Text) (d : TrackerDefinition)
    → owner_of definitions path ≡ some d
    → IsOwner definitions path d
unfolding owner_of
owner_of-IsOwner definitions path d h =
    let (n, c, deep, best) =
      owner_at-eq-some (deepest_mount definitions path)
        (λ n. max_by claim_order (claimants n definitions path)) d h in
    best_claimant-IsOwner definitions path n c d deep best

max_of-In : (ns : List ℕ) (m : ℕ) → max_of ns ≡ some m → In m ns
max_of-In [] m h = cc
max_of-In (n ∷ ns) m h = elim (Option-cases (max_of ns)) [
  | inl e ↦ inl (ground arith)
  | inr (p, q) ↦ elim (Bool-cases (ltb p n)) [
    | inl b ↦ inl (ground (arith, b, q))
    | inr b ↦ inr (max_of-In ns m (ground (arith, b, q)))
  ]
]

holders : List TrackerDefinition → Text → List TrackerDefinition
holders definitions path = filter (λ d. mount_holds d.mount path) definitions

In-holders :
    (definitions : List TrackerDefinition) (path : Text) (e : TrackerDefinition)
    → In e definitions
    → mount_holds e.mount path ≡ true
    → In (mount_depth e.mount) (map (λ d. mount_depth d.mount) (holders definitions path))
unfolding holders
In-holders definitions path e m h =
    In-map (λ (d : TrackerDefinition). mount_depth d.mount) e _
      (In-filter (λ (d : TrackerDefinition). mount_holds d.mount path) e definitions m h)

deepest_mount-witness :
    (definitions : List TrackerDefinition) (path : Text) (n : ℕ)
    → deepest_mount definitions path ≡ some n
    → (d : TrackerDefinition) × In d definitions
      × (mount_holds d.mount path ≡ true)
      × (mount_depth d.mount ≡ n)
unfolding deepest_mount
deepest_mount-witness definitions path n h =
    let holds = λ (d : TrackerDefinition). mount_holds d.mount path in
    let depth = λ (d : TrackerDefinition). mount_depth d.mount in
    let (d, m, e) = In-map_witness depth n (filter holds definitions) (max_of-In _ n h) in
    let (i, k) = In-filter_witness holds d definitions m in (d, i, k, e)

max_by-none :
    {A : Type 0} (order : A → A → Ordering) (xs : List A) (x : A) → In x xs → max_by order xs ≢ none
unfolding max_by
max_by-none order [] x m h = elim m [ ]
max_by-none order (y ∷ xs) x m h = cc

owner_at-none :
    (o : Option ℕ) (best : ℕ → Option (ℕ × TrackerDefinition)) (n : ℕ)
    → owner_at o best ≡ none
    → o ≡ some n
    → best n ≡ none
owner_at-none o best n h e = claimant-none (best n) (subst (λ p. owner_at p best ≡ none) e h)
  where
    claimant-none : (p : Option (ℕ × TrackerDefinition)) → claimant p ≡ none → p ≡ none
    claimant-none none k = refl
    claimant-none (some (c, d)) k = cc

-- A path without an owner has no claimant mounted deepest: a tracker that holds it and claims it has
-- one mounted deeper above that path.
pub owner_of-none :
    (definitions : List TrackerDefinition) (path : Text) (e : TrackerDefinition) (k : ℕ)
    → owner_of definitions path ≡ none
    → In e definitions
    → mount_holds e.mount path ≡ true
    → claim_on e path ≡ some k
    → (deeper : TrackerDefinition) × In deeper definitions
      × (mount_holds deeper.mount path ≡ true)
      × (mount_depth e.mount < mount_depth deeper.mount)
unfolding owner_of
owner_of-none definitions path e k h m holds c =
    elim (Option-cases (deepest_mount definitions path)) [
      | inl none_deep ↦ absurd (
          max_of-ne-none _ _ (In-holders definitions path e m holds)
            (unfold holders deepest_mount in none_deep))
      | inr (n, deep) ↦
          let (d, i, hd, ed) = deepest_mount-witness definitions path n deep in
          let empty =
            owner_at-none _ (λ n. max_by claim_order (claimants n definitions path)) n h deep in
          let le = deepest_mount-ge definitions path n e deep m holds in
          let ne : mount_depth e.mount ≢ n = λ q.
            max_by-none claim_order _ (k, e) (In-claimants definitions path n e k m holds q c)
              empty in
          (d, i, hd, omega (arith, le, ne, ed))
    ]
