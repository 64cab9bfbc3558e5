-- ===== src/Resource/Order/Graph.antt =====
-- What `resolve_graph` returns (crates/newgit-core/src/resource.rs).
use newgit.Prelude.{
  ◌≡◌, refl, sym, ap, subst, ◌∙◌, true, false, ◌||◌, some, List, [], ◌++◌, any-append, contains,
  arith, nat_eq, list_eq,
}
use newgit.Text.{Text}
use newgit.Resource.{ResourceDefinition, data_edges}
use newgit.Resource.EnvNames.{check_env_names}
use newgit.Resource.Order.{Walk, is_resource, resolve_order, ResourceGraph, graph_of, resolve_graph}
use newgit.Resource.Order.Spec.{is_cycle, has_cycle, dependencies, deps_before, each_once}
use newgit.Resource.Order.Total.{resolve_order_total, resolve_order-deps_before}

module _ (resources : List ResourceDefinition) (tracker_names : List Text) where
  graph_from :
      (bind lifecycle : Walk)
      → resolve_order resources tracker_names (data_edges resources) ≡ some bind
      → resolve_order resources tracker_names [] ≡ some lifecycle
      → (g : ResourceGraph) × (resolve_graph resources tracker_names ≡ some g)
        × (g.bind_order ≡ bind.ordered)
        × (g.lifecycle_order ≡ lifecycle.ordered)
        × (has_cycle g.problems
            ≡ (has_cycle bind.problems || has_cycle (check_env_names resources)))
  unfolding resolve_graph
  graph_from bind lifecycle b l = (
    record {
      bind_order = bind.ordered;
      lifecycle_order = lifecycle.ordered;
      inferred = data_edges resources;
      problems = bind.problems ++ check_env_names resources;
    },
    ap (λ o. graph_of resources o (resolve_order resources tracker_names [])) b
        ∙ ap (graph_of resources (some bind)) l,
    refl,
    refl,
    any-append is_cycle bind.problems (check_env_names resources),
  )

  orders_hold :
      (order : List Text)
      → each_once order ≡ true
      → ((n : Text) → contains order n ≡ is_resource resources n)
      → (other : List Text) → other ≡ order
      → (each_once other ≡ true) × ((n : Text) → contains other n ≡ is_resource resources n)
  orders_hold order e c other same =
      subst (λ o. (each_once o ≡ true) × ((n : Text) → contains o n ≡ is_resource resources n))
        (sym same) (e, c)

  -- `resolve_graph` returns on every set of resources, cyclic or not. Its two orders hold each name of a
  -- resource once and no other name. When its problems name no cycle, each resource stands in the bind
  -- order behind the resources it declares to depend on and those that its templates read from.
  pub resolve_graph_total :
      (g : ResourceGraph) × (resolve_graph resources tracker_names ≡ some g)
      × ((each_once g.bind_order ≡ true)
          × ((n : Text) → contains g.bind_order n ≡ is_resource resources n))
      × ((each_once g.lifecycle_order ≡ true)
          × ((n : Text) → contains g.lifecycle_order n ≡ is_resource resources n))
      × (has_cycle g.problems ≡ false
          → deps_before
              (dependencies resources tracker_names (data_edges resources))
              []
              g.bind_order
            ≡ true)
  resolve_graph_total =
      let (bind, b, once_b, all_b) =
        resolve_order_total resources tracker_names (data_edges resources) in
      let (lifecycle, l, once_l, all_l) = resolve_order_total resources tracker_names [] in
      let (g, returns, same_b, same_l, cycles) = graph_from bind lifecycle b l in
      (
        g,
        returns,
        orders_hold bind.ordered once_b all_b g.bind_order same_b,
        orders_hold lifecycle.ordered once_l all_l g.lifecycle_order same_l,
        λ h.
            subst
              (λ o.
                deps_before (dependencies resources tracker_names (data_edges resources)) [] o
                ≡ true)
              (sym same_b)
              (resolve_order-deps_before resources tracker_names (data_edges resources) bind b
                (ground (arith, h, cycles))),
      )
