-- ===== src/Resource/Collisions.antt =====
-- crates/newgit-core/src/resource.rs: what `check_env_names` finds nothing in.
use newgit.Prelude.{
  ℕ, suc, ◌≤◌, ◌≡◌, ◌≢◌, refl, ap, subst, sym, ◌∙◌, true, false, List, [], ◌∷◌, ◌++◌, map, any,
  filter, length, ◌==◌, nat_eq, list_eq, contains, ltb, arith, Bool-cases, inl, inr, length-append,
  ◌⊎◌,
}
use Prim.Native.Nat.{Ordering}
use newgit.Prelude.Sort.{sort_by, insert_sorted, any-sort_by, any-dedup_by}
use newgit.Text.{Text, cmp}
use newgit.Resource.{ResourceDefinition}
use newgit.Resource.EnvNames.{
  GraphProblem, reserved_env_name, env_name_collision, reserved_env_names, env_claims,
  exported_anywhere, first, claimants_of, name_problems, problems_of, claimed_names,
  check_env_names,
}

module _ {A : Type 0} where
  length-insert_sorted :
      (order : A → A → Ordering) (x : A) (xs : List A)
      → length (insert_sorted order x xs) ≡ suc (length xs)
  unfolding insert_sorted
  length-insert_sorted order x [] = refl
  length-insert_sorted order x (y ∷ ys) = ground (arith, length-insert_sorted order x ys)

  length-sort_by : (order : A → A → Ordering) (xs : List A) → length (sort_by order xs) ≡ length xs
  unfolding sort_by
  length-sort_by order [] = refl
  length-sort_by order (x ∷ xs) =
      omega (arith, length-insert_sorted order x (sort_by order xs), length-sort_by order xs)

module _ {A B : Type 0} where
  length-map : (f : A → B) (xs : List A) → length (map f xs) ≡ length xs
  length-map f [] = refl
  length-map f (x ∷ xs) = omega (arith, length-map f xs)

-- The number of claims of a name.
abbrev pub claim_count : List (Text × Text) → Text → ℕ
claim_count claims name = length (filter (λ (key, claimant). key == name) claims)

length-claimants_of :
    (claims : List (Text × Text)) (name : Text)
    → length (claimants_of claims name) ≡ claim_count claims name
unfolding claimants_of
length-claimants_of claims name =
    length-sort_by cmp _ ∙ length-map _ (filter (λ (key, claimant). key == name) claims)

any-claimed_names :
    (claims : List (Text × Text)) (name : Text)
    → any (λ n. n == name) (claimed_names claims) ≡ any (λ n. n == name) (map first claims)
unfolding claimed_names
any-claimed_names claims name =
    any-dedup_by (λ n. n == name) (λ a b. a == b) (λ x y h. ground (arith, h))
      (sort_by cmp (map first claims))
    ∙ any-sort_by (λ n. n == name) cmp (map first claims)

nothing_left :
    (xs ys : List GraphProblem) → length (xs ++ ys) ≡ 0 → (length xs ≡ 0) × (length ys ≡ 0)
nothing_left xs ys h =
    (omega (arith, h, length-append xs ys), omega (arith, h, length-append xs ys))

name_problems_lem :
    (exported : List Text) (name : Text) (claimants : List Text)
    → length (name_problems exported name claimants) ≡ 0
    → (length claimants ≤ 1) × ((contains reserved_env_names name ≡ false) ⊎ (length claimants ≡ 0))
unfolding name_problems
name_problems_lem exported name claimants h = elim (Bool-cases (contains reserved_env_names name)) [
  | inl r ↦
      let none_left : length claimants ≡ 0 =
        sym (length-map (reserved_env_name name) claimants)
        ∙ (sym (ap length (reserved_problems r)) ∙ h) in
      (omega (arith, none_left), inr none_left)
  | inr r ↦ elim (Bool-cases (ltb 1 (length claimants))) [
    | inl b ↦ absurd (one_lem (sym (ap length (collision r b)) ∙ h))
    | inr b ↦ (ground (arith, b), inl r)
  ]
]
  where
    reserved_problems :
        contains reserved_env_names name ≡ true
        → name_problems exported name claimants ≡ map (reserved_env_name name) claimants
    reserved_problems r = rw r refl

    collision :
        contains reserved_env_names name ≡ false
        → ltb 1 (length claimants) ≡ true
        → name_problems exported name claimants
          ≡ env_name_collision name claimants (contains exported name) ∷ []
    collision r b = rw (r, b) refl

    one_lem : ◌≢◌ {A = ℕ} 1 0
    one_lem e = cc

problems_of_lem :
    (claims : List (Text × Text)) (exported names : List Text) (name : Text)
    → length (problems_of claims exported names) ≡ 0
    → any (λ n. n == name) names ≡ true
    → length (name_problems exported name (claimants_of claims name)) ≡ 0
unfolding problems_of
problems_of_lem claims exported [] name h m = cc
problems_of_lem claims exported (n ∷ names) name h m =
    let (here, later) =
      nothing_left (name_problems exported n (claimants_of claims n))
        (problems_of claims exported names) h in
    elim (Bool-cases (n == name)) [
      | inl e ↦
          let same : n ≡ name = ground (arith, e) in
          subst (λ k. length (name_problems exported k (claimants_of claims k)) ≡ 0) same here
      | inr e ↦ problems_of_lem claims exported names name later (ground (arith, m, e))
    ]

claim_count-pos :
    (claims : List (Text × Text)) (name : Text)
    → contains (map first claims) name ≡ true
    → 1 ≤ claim_count claims name
claim_count-pos [] name h = cc
claim_count-pos ((key, claimant) ∷ claims) name h = elim (Bool-cases (key == name)) [
  | inl e ↦ rw e (omega arith)
  | inr e ↦ rw e (claim_count-pos claims name (ground (arith, h, e)))
]

-- Where nothing is reported, a name that is claimed is claimed once.
pub claim_count-nil :
    (resources : List ResourceDefinition) (name : Text)
    → check_env_names resources ≡ []
    → contains (map first (env_claims resources)) name ≡ true
    → (claim_count (env_claims resources) name ≡ 1) × (contains reserved_env_names name ≡ false)
unfolding check_env_names
claim_count-nil resources name h m =
    let claims = env_claims resources in
    let (most, free) =
      name_problems_lem (exported_anywhere resources) name (claimants_of claims name) (
        problems_of_lem claims (exported_anywhere resources) (claimed_names claims) name
          (ap length h) (any-claimed_names claims name ∙ m)) in
    let count = length-claimants_of claims name in
    let least = claim_count-pos claims name m in
    (
      omega (arith, most, count, least),
      elim free [ inl f ↦ f | inr z ↦ absurd (zero_lem (sym count ∙ z) least) ],
    )
  where
    zero_lem :
        claim_count (env_claims resources) name ≡ 0
        → ¬ (1 ≤ claim_count (env_claims resources) name)
    zero_lem z = omega (arith, z)
