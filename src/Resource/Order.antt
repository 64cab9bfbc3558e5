-- ===== src/Resource/Order.antt =====
-- crates/newgit-core/src/resource.rs: `resolve_order`, the walk that puts dependencies before their
-- dependents, and `resolve_graph`. The walk recurs on fuel, with `none` for fuel that ran out. A map
-- of visits is the list of its entries, the latest first.
pub mod Spec
pub mod Kept
pub mod Runs
pub mod Visits
pub mod Total
pub mod Graph
use newgit.Prelude.{
  ℕ, zero, suc, Bool, true, false, not, ◌&&◌, Option, none, some, List, [], ◌∷◌, ◌++◌, map, any,
  filter, find, length, ◌==◌, nat_eq, list_eq, if◌then◌else◌, contains,
}
use newgit.Prelude.Sort.{sort_by, dedup_by}
use newgit.Text.{Text, cmp}
use newgit.Resource.{ResourceDefinition, DataEdge, data_edges}
use newgit.Resource.EnvNames.{GraphProblem, missing_dependency, cycle, check_env_names}

pub data Visit : Type 0 where
  in_progress done : Visit

pub record Walk : Type 0 where
  pub state : List (Text × Visit)
  pub ordered : List Text
  pub problems : List GraphProblem
  pub stack : List Text

-- `state.get(name)`
unfoldable pub visit_of : Text → List (Text × Visit) → Option Visit
visit_of name [] = none
visit_of name ((key, value) ∷ state) =
    let rest = visit_of name state in if key == name then some value else rest

abbrev pub named : Text → ResourceDefinition → Bool
named name r = r.name == name

-- `data.get(name)`: the owners that the resource reads from, in order and each once.
unfoldable pub owners_of : List DataEdge → Text → List Text
owners_of edges name =
    dedup_by (λ a b. a == b)
      (sort_by cmp (
        map (λ (reader, owner, key). owner)
          (filter (λ (reader, owner, key). reader == name) edges)))

-- `stack.pop()`
abbrev pub pop_stack : List Text → List Text
pop_stack [] = []
pop_stack (x ∷ []) = []
pop_stack (x ∷ y ∷ xs) = x ∷ pop_stack (y ∷ xs)

infixl 5 ◌>>=◌
abbrev pub ◌>>=◌ : Option Walk → (Walk → Option Walk) → Option Walk
none >>= f = none
some w >>= f = f w

abbrev pub is_resource : List ResourceDefinition → Text → Bool
is_resource resources name = any (named name) resources

abbrev pub enter : Text → Walk → Walk
enter name w = record w { state = (name, in_progress) ∷ w.state; stack = w.stack ++ name ∷ [] }

abbrev pub leave : Text → Walk → Walk
leave name w = record w {
  stack = pop_stack w.stack;
  state = (name, done) ∷ w.state;
  ordered = w.ordered ++ name ∷ [];
}

abbrev pub report_cycle : Text → Walk → Walk
report_cycle name w = record w { problems = w.problems ++ cycle (w.stack ++ name ∷ []) ∷ [] }

abbrev pub no_walk : Walk
no_walk = record { state = []; ordered = []; problems = []; stack = [] }

-- The loop over the inferred edges.
unfoldable pub visit_inferred : (Text → Walk → Option Walk) → List Text → Walk → Option Walk
visit_inferred visit [] w = some w
visit_inferred visit (owner ∷ rest) w = visit owner w >>= visit_inferred visit rest

module _ (resources : List ResourceDefinition) (tracker_names : List Text)
    (data_of : List DataEdge) where
  -- The loop over `depends_on`, with `visit` for the resources among them.
  unfoldable pub visit_declared :
      (Text → Walk → Option Walk) → Text → List Text → Walk → Option Walk
  visit_declared visit name [] w = some w
  visit_declared visit name (dependency ∷ rest) w =
      let skipped = visit_declared visit name rest w in
      let missing =
        visit_declared visit name rest
          (record w { problems = w.problems ++ missing_dependency name dependency ∷ [] }) in
      let visited = visit dependency w >>= visit_declared visit name rest in
      if contains tracker_names dependency
      then skipped
      else if not (is_resource resources dependency)
      then missing
      else visited

  -- The body for a resource that was not visited.
  unfoldable pub visit_new :
      (Text → Walk → Option Walk) → Text → Option ResourceDefinition → Walk → Option Walk
  visit_new visit name none w = some w
  visit_new visit name (some r) w =
      visit_declared visit name r.depends_on (enter name w)
      >>= visit_inferred visit (owners_of data_of name)
      >>= λ w. some (leave name w)

  unfoldable pub visit_by : Option Visit → (Text → Walk → Option Walk) → Text → Walk → Option Walk
  visit_by (some done) visit name w = some w
  visit_by (some in_progress) visit name w = some (report_cycle name w)
  visit_by none visit name w = visit_new visit name (find (named name) resources) w

  unfoldable pub visit : ℕ → Text → Walk → Option Walk
  visit zero name w = none
  visit (suc fuel) name w = visit_by (visit_of name w.state) (visit fuel) name w

  -- The last loop: each root starts from an empty stack.
  unfoldable pub visit_roots : ℕ → List ResourceDefinition → Walk → Option Walk
  visit_roots fuel [] w = some w
  visit_roots fuel (r ∷ roots) w =
      visit fuel r.name w >>= λ w. visit_roots fuel roots (record w { stack = [] })

  unfoldable pub resolve_order : Option Walk
  resolve_order = visit_roots (suc (length resources)) resources no_walk

pub record ResourceGraph : Type 0 where
  pub bind_order : List Text
  pub lifecycle_order : List Text
  pub inferred : List DataEdge
  pub problems : List GraphProblem

abbrev pub graph_of : List ResourceDefinition → Option Walk → Option Walk → Option ResourceGraph
graph_of resources (some bind) (some lifecycle) = some (record {
  bind_order = bind.ordered;
  lifecycle_order = lifecycle.ordered;
  inferred = data_edges resources;
  problems = bind.problems ++ check_env_names resources;
})
graph_of resources _ _ = none

unfoldable pub resolve_graph : List ResourceDefinition → List Text → Option ResourceGraph
resolve_graph resources tracker_names =
    graph_of resources (resolve_order resources tracker_names (data_edges resources))
      (resolve_order resources tracker_names [])
