-- ===== src/Resource/Declared.antt =====
-- crates/newgit-core/src/resource.rs: the declarations of a name, and what it says of them that `check_env_names` finds
-- nothing.
use newgit.Prelude.{
  ℕ, suc, ◌+◌, ◌≤◌, ◌≡◌, refl, ap, subst, ◌∙◌, Option, Bool, true, false, ◌||◌, none, some, List,
  [], ◌∷◌, ◌++◌, map, any, ◌==◌, nat_eq, list_eq, if◌then◌else◌, contains, arith, Bool-cases, inl,
  inr,
}
use newgit.Text.{Text, bytes}
use newgit.Resource.{ResourceDefinition, ActionSpec, PortRequest}
use newgit.Resource.EnvNames.{
  reserved_env_names, or_insert, add_captures, add_actions, exported_claims, port_claims_of,
  env_claims, first, check_env_names, claimant_of,
}
use newgit.Resource.Collisions.{claim_count, claim_count-nil}

-- An `[exports]` key or a `captures` entry of the resource is the name.
abbrev pub publishes : Text → ResourceDefinition → Bool
publishes name r =
    any (λ (action, spec). contains spec.captures name) r.actions
    || any (λ (key, value). key == name) r.exports

-- The number of ports whose `env` is the name.
abbrev pub port_count : Text → List (Text × PortRequest) → ℕ
port_count name [] = 0
port_count name ((port, request) ∷ ports) =
    let rest = port_count name ports in
    elim request.env [ none ↦ rest | some env ↦ (if env == name then suc rest else rest) ]

-- The declarations of the name: a resource that publishes it counts once, each port apart.
abbrev pub declared_count : Text → List ResourceDefinition → ℕ
declared_count name [] = 0
declared_count name (r ∷ resources) =
    (if publishes name r then 1 else 0) + (port_count name r.ports + declared_count name resources)

abbrev is_claimed : Text → List (Text × Text) → Bool
is_claimed name claims = any (λ (key, value). key == name) claims

is_claimed-or_insert :
    (name n claimant : Text) (claims : List (Text × Text))
    → is_claimed name (or_insert n claimant claims) ≡ ((n == name) || is_claimed name claims)
is_claimed-or_insert name n claimant claims = elim (Bool-cases (is_claimed n claims)) [
  | inl k ↦ elim (Bool-cases (n == name)) [
    | inl e ↦ rw (k, e) (subst (λ x. is_claimed x claims ≡ true) (ground (arith, e)) k)
    | inr e ↦ rw (k, e) refl
  ]
  | inr k ↦ rw k refl
]

swapped : (a b c : Bool) → (a || (b || c)) ≡ ((b || a) || c)
swapped a b c = ground arith

is_claimed-add_captures :
    (name resource action : Text) (names : List Text) (claims : List (Text × Text))
    → is_claimed name (add_captures resource action names claims)
      ≡ (contains names name || is_claimed name claims)
is_claimed-add_captures name resource action [] claims = refl
is_claimed-add_captures name resource action (n ∷ names) claims =
    let rest = is_claimed-add_captures name resource action names (
      or_insert n (claimant_of resource (bytes "[actions." ++ (action ++ bytes "] captures")))
        claims) in
    let here =
      is_claimed-or_insert name n
        (claimant_of resource (bytes "[actions." ++ (action ++ bytes "] captures"))) claims in
    rest
    ∙ ap (λ t. contains names name || t) here
    ∙ swapped (contains names name) (n == name) (is_claimed name claims)

is_claimed-add_actions :
    (name resource : Text) (actions : List (Text × ActionSpec)) (claims : List (Text × Text))
    → is_claimed name (add_actions resource actions claims)
      ≡ (any (λ (action, spec). contains spec.captures name) actions || is_claimed name claims)
is_claimed-add_actions name resource [] claims = refl
is_claimed-add_actions name resource ((action, spec) ∷ actions) claims =
    is_claimed-add_actions name resource actions (add_captures resource action spec.captures claims)
    ∙ ap (λ t. any (λ (action, spec). contains spec.captures name) actions || t)
        (is_claimed-add_captures name resource action spec.captures claims)
    ∙ swapped (any (λ (action, spec). contains spec.captures name) actions)
        (contains spec.captures name) (is_claimed name claims)

is_claimed-exported_claims :
    (name : Text) (r : ResourceDefinition) → is_claimed name (exported_claims r) ≡ publishes name r
unfolding exported_claims
is_claimed-exported_claims name r =
    is_claimed-add_actions name r.name r.actions
      (map (λ (key, value). (key, claimant_of r.name (bytes "[exports]"))) r.exports)
    ∙ ap (λ t. any (λ (action, spec). contains spec.captures name) r.actions || t) (keys r.exports)
  where
    keys :
        (exports : List (Text × Text))
        → is_claimed name
            (map (λ (key, value). (key, claimant_of r.name (bytes "[exports]"))) exports)
          ≡ any (λ (key, value). key == name) exports
    keys [] = refl
    keys ((key, value) ∷ exports) = ap (λ t. (key == name) || t) (keys exports)

claim_count-append :
    (name : Text) (xs ys : List (Text × Text))
    → claim_count (xs ++ ys) name ≡ claim_count xs name + claim_count ys name
claim_count-append name [] ys = omega arith
claim_count-append name ((key, claimant) ∷ xs) ys = ground (arith, claim_count-append name xs ys)

claim_count-is_claimed :
    (name : Text) (claims : List (Text × Text))
    → (if is_claimed name claims then 1 else 0) ≤ claim_count claims name
claim_count-is_claimed name [] = omega arith
claim_count-is_claimed name ((key, claimant) ∷ claims) =
    ground (arith, claim_count-is_claimed name claims)

claim_count-port_claims :
    (name resource : Text) (ports : List (Text × PortRequest))
    → claim_count (port_claims_of resource ports) name ≡ port_count name ports
claim_count-port_claims name resource [] = refl
claim_count-port_claims name resource ((port, request) ∷ ports) =
    split request.env (claim_count-port_claims name resource ports)
  where
    split :
        (env : Option Text)
        → claim_count (port_claims_of resource ports) name ≡ port_count name ports
        → claim_count
            (elim env [
              | none ↦ port_claims_of resource ports
              | some n ↦
                  (n, claimant_of resource (bytes "[ports." ++ (port ++ bytes "] env")))
                  ∷ port_claims_of resource ports
            ])
            name
          ≡ elim env [
            | none ↦ port_count name ports
            | some n ↦ (if n == name then suc (port_count name ports) else port_count name ports)
          ]
    split none h = h
    split (some n) h = ground (arith, h)

declared_count_lem :
    (name : Text) (resources : List ResourceDefinition)
    → declared_count name resources ≤ claim_count (env_claims resources) name
unfolding env_claims
declared_count_lem name [] = omega arith
declared_count_lem name (r ∷ resources) =
    let whole =
      claim_count-append name (exported_claims r)
        (port_claims_of r.name r.ports ++ env_claims resources) in
    let later = claim_count-append name (port_claims_of r.name r.ports) (env_claims resources) in
    let ports = claim_count-port_claims name r.name r.ports in
    let rest = declared_count_lem name resources in
    let published : (if publishes name r then 1 else 0) ≤ claim_count (exported_claims r) name =
      subst (λ t. (if t then 1 else 0) ≤ claim_count (exported_claims r) name)
        (is_claimed-exported_claims name r) (claim_count-is_claimed name (exported_claims r)) in
    omega (arith, whole, later, ports, rest, published)

is_claimed_of_count :
    (name : Text) (claims : List (Text × Text))
    → 1 ≤ claim_count claims name
    → contains (map first claims) name ≡ true
is_claimed_of_count name [] h = absurd (zero_lem h)
  where
    zero_lem : ¬ (◌≤◌ 1 0)
    zero_lem h = omega (arith, h)
is_claimed_of_count name ((key, claimant) ∷ claims) h = elim (Bool-cases (key == name)) [
  | inl e ↦ rw e refl
  | inr e ↦ rw e (is_claimed_of_count name claims (ground (arith, e, h)))
]

-- When `check_env_names` reports nothing, a name that is declared is declared once, by one resource's `[exports]`
-- and `captures` taken together or by one port's `env`, and is none of the names that newgit sets itself.
pub check_env_names-nil :
    (resources : List ResourceDefinition) (name : Text)
    → check_env_names resources ≡ []
    → 1 ≤ declared_count name resources
    → (declared_count name resources ≡ 1) × (contains reserved_env_names name ≡ false)
check_env_names-nil resources name h m =
    let claimed = declared_count_lem name resources in
    let (once, free) =
      claim_count-nil resources name h
        (is_claimed_of_count name (env_claims resources) (omega (arith, m, claimed))) in
    (omega (arith, m, claimed, once), free)
