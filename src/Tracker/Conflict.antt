-- ===== src/Tracker/Conflict.antt =====
-- What an error of `resolve_ownership` says (crates/newgit-core/src/tracker.rs).
use newgit.Prelude.{
  false, if◌then◌else◌, ◌≡◌, refl, sym, subst, ◌⊎◌, inl, inr, Bool, true, some, List, [], ◌∷◌, any,
  filter, find, arith, nat_eq, list_eq, Bool-cases, Option-cases, In, any-witness, any_of_In,
  In-filter_witness,
}
use newgit.Text.{Text}
use newgit.Error.{NewgitError, tracker_path_conflict, Result, ok, err, ◌>>◌}
use newgit.Paths.{dot, component_eq, same_path}
use newgit.Tracker.{TrackerDefinition, is_dot, owns_everything}
use newgit.Tracker.Resolve.{
  shared_path, check_pair, check_rest, check_pairs, check_roots, fill_excluded, resolve_ownership,
}

-- `d` claims `path`, however it spells it.
abbrev pub claims_path : TrackerDefinition → Text → Bool
claims_path d path = any (λ q. same_path q path) d.paths

-- `left` stands in the list, and `right` stands behind it.
abbrev pub Before : TrackerDefinition → TrackerDefinition → List TrackerDefinition → Type 0
Before left right [] = ⊥
Before left right (d ∷ definitions) =
    ((d ≡ left) × In right definitions) ⊎ Before left right definitions

-- The error names the trackers at two different places of the list, and a path that both claim.
abbrev pub NamesConflict : List TrackerDefinition → NewgitError → Type 0
NamesConflict definitions e =
    (left right : TrackerDefinition) × (path : Text) × Before left right definitions
    × (e ≡ tracker_path_conflict left.name right.name path)
    × (claims_path left path ≡ true)
    × (claims_path right path ≡ true)

-- What stands in order in a part of the list stands in order in the list.
Before-filter :
    (p : TrackerDefinition → Bool) (left right : TrackerDefinition)
    (definitions : List TrackerDefinition)
    → Before left right (filter p definitions)
    → Before left right definitions
Before-filter p left right [] b = b
Before-filter p left right (d ∷ definitions) b =
    split (p d) b (Before-filter p left right definitions)
  where
    split :
        (t : Bool)
        → Before left right (if t then d ∷ filter p definitions else filter p definitions)
        → (Before left right (filter p definitions) → Before left right definitions)
        → Before left right (d ∷ definitions)
    split true (inl (e, m)) rest = inl (e, (In-filter_witness p right definitions m).0)
    split true (inr b) rest = inr (rest b)
    split false b rest = inr (rest b)

same_path_self : (path : Text) → same_path path path ≡ true
unfolding same_path
same_path_self path = ground arith

find-some :
    (p : Text → Bool) (x : Text) (xs : List Text) → find p xs ≡ some x → In x xs × (p x ≡ true)
find-some p x [] h = cc
find-some p x (y ∷ xs) h = elim (Bool-cases (p y)) [
  | inl e ↦ (inl (ground (arith, e)), ground (arith, e))
  | inr e ↦ let (m, k) = find-some p x xs (ground (arith, e)) in (inr m, k)
]

check_pair-err :
    (left right : TrackerDefinition) (e : NewgitError)
    → check_pair left right ≡ err e
    → (path : Text) × (e ≡ tracker_path_conflict left.name right.name path)
      × (claims_path left path ≡ true)
      × (claims_path right path ≡ true)
unfolding check_pair
check_pair-err left right e h = elim (Option-cases (shared_path left.paths right.paths)) [
  | inl q ↦ absurd (ground (arith, q))
  | inr (path, q) ↦
      let (m, k) = find-some _ path left.paths q in
      (
        path,
        ground (arith, q),
        any_of_In (λ p. same_path p path) path left.paths m (same_path_self path),
        k,
      )
]

-- Of a chain that failed, the first step failed, or the rest did.
>>-eq-err :
    {B : Type 0} (m : Result (Unit {0})) (k : Result B) (e : NewgitError)
    → (m >> k) ≡ err e
    → (m ≡ err e) ⊎ (k ≡ err e)
>>-eq-err (ok u) k e h = inr h
>>-eq-err (err f) k e h = ground arith

check_rest-err :
    (left : TrackerDefinition) (rest : List TrackerDefinition) (e : NewgitError)
    → check_rest left rest ≡ err e
    → (right : TrackerDefinition) × In right rest × (check_pair left right ≡ err e)
unfolding check_rest
check_rest-err left [] e h = cc
check_rest-err left (right ∷ rest) e h =
    elim (>>-eq-err (check_pair left right) (check_rest left rest) e h) [
      | inl now ↦ (right, inl refl, now)
      | inr later ↦ let (r, m, k) = check_rest-err left rest e later in (r, inr m, k)
    ]

check_pairs-err :
    (definitions : List TrackerDefinition) (e : NewgitError)
    → check_pairs definitions ≡ err e
    → (left right : TrackerDefinition) × Before left right definitions
      × (check_pair left right ≡ err e)
unfolding check_pairs
check_pairs-err [] e h = cc
check_pairs-err (left ∷ rest) e h = elim (>>-eq-err (check_rest left rest) (check_pairs rest) e h) [
  | inl now ↦ let (r, m, k) = check_rest-err left rest e now in (left, r, inl (refl, m), k)
  | inr later ↦ let (l, r, b, k) = check_pairs-err rest e later in (l, r, inr b, k)
]

owns_everything-claims_dot :
    (d : TrackerDefinition) → owns_everything d ≡ true → claims_path d dot ≡ true
unfolding owns_everything
owns_everything-claims_dot d h =
    let (q, m, e) = any-witness is_dot d.paths h in
    let same : q ≡ dot = ground arith in
    any_of_In (λ p. same_path p dot) q d.paths m
      (subst (λ p. same_path p dot ≡ true) (sym same) (same_path_self dot))

check_roots-err :
    (roots : List TrackerDefinition) (e : NewgitError)
    → ((d : TrackerDefinition) → In d roots → owns_everything d ≡ true)
    → check_roots roots ≡ err e
    → NamesConflict roots e
check_roots-err [] e all_roots h = cc
check_roots-err (left ∷ []) e all_roots h = cc
check_roots-err (left ∷ right ∷ rest) e all_roots h = (
  left,
  right,
  dot,
  inl (refl, inl refl),
  ground arith,
  owns_everything-claims_dot left (all_roots left (inl refl)),
  owns_everything-claims_dot right (all_roots right (inr (inl refl))),
)

-- When `resolve_ownership` fails, its error names the trackers at two different places of the given list, in
-- their order, and a path that both of them claim.
pub resolve_ownership-err :
    (definitions : List TrackerDefinition) (e : NewgitError)
    → resolve_ownership definitions ≡ err e
    → NamesConflict definitions e
unfolding resolve_ownership
resolve_ownership-err definitions e h =
    elim (>>-eq-err (check_roots (filter owns_everything definitions))
      (check_pairs definitions >> ok (fill_excluded definitions)) e h) [
        | inl roots ↦
            let (l, r, path, b, q, cl, cr) =
              check_roots-err (filter owns_everything definitions) e
                (λ d m. (In-filter_witness owns_everything d definitions m).1) roots in
            (l, r, path, Before-filter owns_everything l r definitions b, q, cl, cr)
        | inr later ↦
            let pairs =
              >>-eq-err (check_pairs definitions) (ok (fill_excluded definitions)) e later in
            elim pairs [
              | inl failed ↦
                  let (l, r, b, k) = check_pairs-err definitions e failed in
                  let (path, q, cl, cr) = check_pair-err l r e k in (l, r, path, b, q, cl, cr)
              | inr never ↦ absurd (ground arith)
            ]
      ]
