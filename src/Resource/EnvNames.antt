-- ===== src/Resource/EnvNames.antt =====
-- crates/newgit-core/src/resource.rs: the names that declarations claim in the environment of a
-- command, and `check_env_names`. A claim is a name with its claimant's text.
use newgit.Prelude.{
  Bool, none, some, List, [], ◌∷◌, ◌++◌, map, any, filter, length, ◌==◌, nat_eq, list_eq,
  if◌then◌else◌, contains, ltb,
}
use newgit.Prelude.Sort.{sort_by, dedup_by}
use newgit.Text.{Text, bytes, cmp}
use newgit.Resource.{ResourceDefinition, ActionSpec, PortRequest}

pub data GraphProblem : Type 0 where
  missing_dependency : Text → Text → GraphProblem
  cycle : List Text → GraphProblem
  env_name_collision : Text → List Text → Bool → GraphProblem
  reserved_env_name : Text → Text → GraphProblem

abbrev pub reserved_env_names : List Text
reserved_env_names = bytes "NEWGIT_BRANCH" ∷ bytes "NEWGIT_WORKSPACE" ∷ bytes "NEWGIT_LOCKED" ∷ []

abbrev pub claimant_of : Text → Text → Text
claimant_of resource declaration = bytes "`" ++ (resource ++ (bytes "` " ++ declaration))

-- `exported.entry(name).or_insert_with(..)`
abbrev pub or_insert : Text → Text → List (Text × Text) → List (Text × Text)
or_insert name claimant exported =
    if any (λ (key, value). key == name) exported then exported else (name, claimant) ∷ exported

abbrev pub add_captures : Text → Text → List Text → List (Text × Text) → List (Text × Text)
add_captures resource action [] exported = exported
add_captures resource action (name ∷ names) exported = add_captures resource action names (
    or_insert name (claimant_of resource (bytes "[actions." ++ (action ++ bytes "] captures")))
      exported)

abbrev pub add_actions : Text → List (Text × ActionSpec) → List (Text × Text) → List (Text × Text)
add_actions resource [] exported = exported
add_actions resource ((action, spec) ∷ actions) exported =
    add_actions resource actions (add_captures resource action spec.captures exported)

-- The map `exported`: a name once.
unfoldable pub exported_claims : ResourceDefinition → List (Text × Text)
exported_claims r =
    add_actions r.name r.actions
      (map (λ (name, value). (name, claimant_of r.name (bytes "[exports]"))) r.exports)

abbrev pub port_claims_of : Text → List (Text × PortRequest) → List (Text × Text)
port_claims_of resource [] = []
port_claims_of resource ((port, request) ∷ ports) =
    let rest = port_claims_of resource ports in
    elim request.env [
      | none ↦ rest
      | some name ↦ (name, claimant_of resource (bytes "[ports." ++ (port ++ bytes "] env"))) ∷ rest
    ]

unfoldable pub env_claims : List ResourceDefinition → List (Text × Text)
env_claims [] = []
env_claims (r ∷ resources) =
    exported_claims r ++ (port_claims_of r.name r.ports ++ env_claims resources)

unfoldable pub exported_anywhere : List ResourceDefinition → List Text
exported_anywhere [] = []
exported_anywhere (r ∷ resources) =
    map (λ (name, claimant). name) (exported_claims r) ++ exported_anywhere resources

abbrev pub first : Text × Text → Text
first (name, claimant) = name

-- The claimants of a name, sorted.
unfoldable pub claimants_of : List (Text × Text) → Text → List Text
claimants_of claims name =
    sort_by cmp (map (λ (key, claimant). claimant) (filter (λ (key, claimant). key == name) claims))

-- One round of the last loop.
unfoldable pub name_problems : List Text → Text → List Text → List GraphProblem
name_problems exported name claimants =
    if contains reserved_env_names name
    then map (reserved_env_name name) claimants
    else if ltb 1 (length claimants)
    then env_name_collision name claimants (contains exported name) ∷ []
    else []

unfoldable pub problems_of : List (Text × Text) → List Text → List Text → List GraphProblem
problems_of claims exported [] = []
problems_of claims exported (name ∷ names) =
    name_problems exported name (claimants_of claims name) ++ problems_of claims exported names

-- The names of the map, in order and each once.
unfoldable pub claimed_names : List (Text × Text) → List Text
claimed_names claims = dedup_by (λ a b. a == b) (sort_by cmp (map first claims))

unfoldable pub check_env_names : List ResourceDefinition → List GraphProblem
check_env_names resources =
    problems_of (env_claims resources) (exported_anywhere resources)
      (claimed_names (env_claims resources))
