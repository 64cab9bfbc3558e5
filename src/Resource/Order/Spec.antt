-- ===== src/Resource/Order/Spec.antt =====
-- What an order of the resource graph should be, and what the walk keeps
-- (crates/newgit-core/src/resource.rs: `resolve_order`).
use newgit.Prelude.{
  ◌≡◌, refl, inl, inr, Bool, true, false, not, ◌&&◌, ◌||◌, Option, none, some, List, [], ◌∷◌, ◌++◌,
  any, all, filter, find, ◌==◌, nat_eq, list_eq, contains, arith, In, any-append,
}
use newgit.Text.{Text}
use newgit.Resource.{ResourceDefinition, DataEdge}
use newgit.Resource.EnvNames.{
  GraphProblem, missing_dependency, cycle, env_name_collision, reserved_env_name,
}
use newgit.Resource.Order.{named, owners_of, is_resource}

abbrev pub is_cycle : GraphProblem → Bool
is_cycle (cycle names) = true
is_cycle (missing_dependency resource dependency) = false
is_cycle (env_name_collision name claimants composable) = false
is_cycle (reserved_env_name name claimant) = false

abbrev pub has_cycle : List GraphProblem → Bool
has_cycle = any is_cycle

module _ (resources : List ResourceDefinition) (tracker_names : List Text)
    (data_of : List DataEdge) where
  -- The resources that a definition declares to depend on, trackers and unknown names aside.
  abbrev pub declared : List Text → List Text
  declared names = filter (λ d. not (contains tracker_names d) && is_resource resources d) names

  abbrev pub dependencies_of : Text → Option ResourceDefinition → List Text
  dependencies_of name none = []
  dependencies_of name (some r) =
      declared r.depends_on ++ filter (is_resource resources) (owners_of data_of name)

  -- What has to stand before a resource: its declared resources and the owners that it reads from.
  unfoldable pub dependencies : Text → List Text
  dependencies name = dependencies_of name (find (named name) resources)

-- Each name stands behind its dependencies, of which `seen` stand before the list.
abbrev pub deps_before : (Text → List Text) → List Text → List Text → Bool
deps_before deps seen [] = true
deps_before deps seen (name ∷ names) =
    all (contains seen) (deps name) && deps_before deps (name ∷ seen) names

abbrev pub each_once : List Text → Bool
each_once [] = true
each_once (name ∷ names) = not (contains names name) && each_once names

all-weaken :
    (p q : Text → Bool) (xs : List Text)
    → ((x : Text) → p x ≡ true → q x ≡ true)
    → all p xs ≡ true
    → all q xs ≡ true
all-weaken p q [] h a = refl
all-weaken p q (x ∷ xs) h a = ground (arith, h x, all-weaken p q xs h)

pub all_of_In :
    (p : Text → Bool) (xs : List Text) → ((x : Text) → In x xs → p x ≡ true) → all p xs ≡ true
all_of_In p [] h = refl
all_of_In p (x ∷ xs) h = ground (arith, h x (inl refl), all_of_In p xs (λ y m. h y (inr m)))

pub deps_before-append :
    (deps : Text → List Text) (seen names : List Text) (name : Text)
    → deps_before deps seen names ≡ true
    → all (λ d. contains seen d || contains names d) (deps name) ≡ true
    → deps_before deps seen (names ++ name ∷ []) ≡ true
deps_before-append deps seen [] name h a = ground (
  arith,
  all-weaken (λ d. contains seen d || false) (contains seen) (deps name) (λ d e. ground (arith, e))
      a,
)
deps_before-append deps seen (n ∷ names) name h a = ground (
  arith,
  h,
  deps_before-append deps (n ∷ seen) names name (ground (arith, h)) (
      all-weaken (λ d. contains seen d || contains (n ∷ names) d)
        (λ d. contains (n ∷ seen) d || contains names d) (deps name) (λ d e. ground (arith, e)) a),
)

pub each_once-append :
    (names : List Text) (name : Text)
    → each_once names ≡ true
    → contains names name ≡ false
    → each_once (names ++ name ∷ []) ≡ true
each_once-append [] name h c = refl
each_once-append (n ∷ names) name h c =
    ground (arith, any-append (λ x. x == n) names (name ∷ []), each_once-append names name)
