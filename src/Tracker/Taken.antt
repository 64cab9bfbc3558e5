-- ===== src/Tracker/Taken.antt =====
-- What `resolve_ownership` takes from a tracker: the claims of the others inside its own
-- (crates/newgit-core/src/tracker.rs).
use newgit.Prelude.{
  ◌≡◌, ◌≢◌, refl, ap, subst, sym, ◌∙◌, ◌⊎◌, inl, inr, true, false, ◌||◌, Option, none, some, List,
  [], ◌∷◌, map, any, arith, nat_eq, list_eq, Bool-cases, Option-cases, In, any_of_In, find-none,
  In-filter, In-append_left, In-append_right, In-map, is_prefix_total,
}
use newgit.Prelude.Sort.{any-sort_by, any-dedup_by}
use newgit.Text.{Text}
use newgit.Error.{ok, >>-eq-ok}
use newgit.Paths.{components, same_path, under, component_eq}
use newgit.Tracker.{TrackerDefinition, is_dot, owns}
use newgit.Tracker.Resolve.{
  same_role, shared_path, check_pair, check_rest, check_pairs, all_claims, all_mounts, inside,
  taken_claims, taken_mounts, second, path_cmp, excluded_from,
}

-- No claim of `left` is one of `right`'s.
abbrev pub Disjoint : TrackerDefinition → TrackerDefinition → Type 0
Disjoint left right =
    (path other : Text) → In path left.paths → In other right.paths → same_path other path ≡ false

check_pair-Disjoint :
    (left right : TrackerDefinition)
    → same_role left.role right.role ≡ false
    → check_pair left right ≡ ok tt
    → Disjoint left right
unfolding check_pair
check_pair-Disjoint left right r h path other m n =
    elim (Option-cases (shared_path left.paths right.paths)) [
      | inl e ↦ elim (Bool-cases (same_path other path)) [
        | inl s ↦
            let hit = any_of_In (λ q. same_path q path) other right.paths n s in
            cc (hit, find-none _ path left.paths e m)
        | inr s ↦ s
      ]
      | inr (p, e) ↦ ground (arith, e)
    ]

check_rest-Disjoint :
    (left right : TrackerDefinition) (rest : List TrackerDefinition)
    → In right rest
    → same_role left.role right.role ≡ false
    → check_rest left rest ≡ ok tt
    → Disjoint left right
unfolding check_rest
check_rest-Disjoint left right [] m r h = elim m [ ]
check_rest-Disjoint left right (d ∷ rest) (inl e) r h =
    let (now, later) = >>-eq-ok (check_pair left d) (check_rest left rest) h in
    check_pair-Disjoint left right r (subst (λ x. check_pair left x ≡ ok tt) e now)
check_rest-Disjoint left right (d ∷ rest) (inr m) r h =
    let (now, later) = >>-eq-ok (check_pair left d) (check_rest left rest) h in
    check_rest-Disjoint left right rest m r later

pub same_path_symm : (p q : Text) → same_path p q ≡ same_path q p
unfolding same_path
same_path_symm p q = ground arith

same_role_symm : (p q : Option Text) → same_role p q ≡ same_role q p
same_role_symm none none = refl
same_role_symm none (some q) = refl
same_role_symm (some p) none = refl
same_role_symm (some p) (some q) = ground arith

pub check_pairs-Disjoint :
    (left right : TrackerDefinition) (definitions : List TrackerDefinition)
    → In left definitions
    → In right definitions
    → left.name ≢ right.name
    → same_role left.role right.role ≡ false
    → check_pairs definitions ≡ ok tt
    → Disjoint left right ⊎ Disjoint right left
unfolding check_pairs
check_pairs-Disjoint left right [] m n d r h = elim m [ ]
check_pairs-Disjoint left right (x ∷ definitions) (inl e) (inl f) d r h =
    absurd (d (ap (λ (t : TrackerDefinition). t.name) (sym e ∙ f)))
check_pairs-Disjoint left right (x ∷ definitions) (inl e) (inr n) d r h =
    let (now, later) = >>-eq-ok (check_rest x definitions) (check_pairs definitions) h in
    inl (
      check_rest-Disjoint left right definitions n r
        (subst (λ y. check_rest y definitions ≡ ok tt) e now))
check_pairs-Disjoint left right (x ∷ definitions) (inr m) (inl f) d r h =
    let (now, later) = >>-eq-ok (check_rest x definitions) (check_pairs definitions) h in
    inr (
      check_rest-Disjoint right left definitions m (same_role_symm right.role left.role ∙ r)
        (subst (λ y. check_rest y definitions ≡ ok tt) f now))
check_pairs-Disjoint left right (x ∷ definitions) (inr m) (inr n) d r h =
    let (now, later) = >>-eq-ok (check_rest x definitions) (check_pairs definitions) h in
    check_pairs-Disjoint left right definitions m n d r later

abbrev claims_of : TrackerDefinition → List (Text × Text)
claims_of d = map (λ path. (d.name, path)) d.paths

abbrev Claims : Text → Text → List (Text × Text) → Type 0
Claims name path claims = In (name, path) claims

In-all_claims :
    (d : TrackerDefinition) (path : Text) (definitions : List TrackerDefinition)
    → In d definitions
    → In path d.paths
    → In (d.name, path) (all_claims definitions)
unfolding all_claims
In-all_claims d path [] m p = elim m [ ]
In-all_claims d path (x ∷ definitions) (inl e) p =
    In-append_left (d.name, path) (claims_of x) (all_claims definitions)
      (subst (λ y. Claims d.name path (claims_of y)) (sym e)
        (In-map (λ (q : Text). (d.name, q)) path d.paths p))
In-all_claims d path (x ∷ definitions) (inr m) p =
    In-append_right (d.name, path) (claims_of x) (all_claims definitions)
      (In-all_claims d path definitions m p)

under-same : (path p q : Text) → same_path q p ≡ true → under path p ≡ under path q
unfolding same_path under
under-same path p q h = ground arith

-- A claim of another tracker inside one of `d`'s is taken from `d`.
pub taken :
    (definitions : List TrackerDefinition) (d other : TrackerDefinition) (inner outer path : Text)
    → In other definitions
    → In inner other.paths
    → other.name ≢ d.name
    → is_dot inner ≡ false
    → In outer d.paths
    → inside inner outer ≡ true
    → under path inner ≡ true
    → any (λ p. under path p) (excluded_from (all_claims definitions) (all_mounts definitions) d)
      ≡ true
unfolding excluded_from taken_claims
taken definitions d other inner outer path m p ne nd o i u =
    let claims = all_claims definitions in
    let mounts = all_mounts definitions in
    let kept =
      In-filter _ (other.name, inner) claims (In-all_claims other inner definitions m p)
        (ground (arith, ne, nd, any_of_In (λ q. inside inner q) outer d.paths o i)) in
    let listed =
      In-append_left inner _ (map second (taken_mounts d mounts))
        (In-map second (other.name, inner) (taken_claims d claims) kept) in
    any-dedup_by (λ p. under path p) same_path (under-same path) _
    ∙ any-sort_by (λ p. under path p) path_cmp _
    ∙ any_of_In (λ p. under path p) inner _ listed u

-- Two claims that cover one path: one lies inside the other, or they are the same.
pub comparable :
    (path l r : Text)
    → (is_dot l || under path l) ≡ true
    → (is_dot r || under path r) ≡ true
    → same_path r l ≡ false
    → ((is_dot r ≡ false) × (inside r l ≡ true) × (under path r ≡ true))
      ⊎ ((is_dot l ≡ false) × (inside l r ≡ true) × (under path l ≡ true))
unfolding same_path under
comparable path l r hl hr ns = elim (Bool-cases (is_dot l)) [
  | inl dl ↦ ground (arith, dl)
  | inr nl ↦ elim (Bool-cases (is_dot r)) [
    | inl dr ↦ ground (arith, dr, nl)
    | inr nr ↦
        ground (arith, nl, nr, is_prefix_total (components l) (components r) (components path))
  ]
]

pub owns-excluded :
    (d : TrackerDefinition) (excluded : List Text) (path : Text)
    → any (λ p. under path p) excluded ≡ true
    → owns (record d { excluded = excluded }) path ≡ false
unfolding owns
owns-excluded d excluded path h = rw h (ground arith)
