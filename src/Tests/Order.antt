-- ===== src/Tests/Order.antt =====
-- The order of the resource graph.
use native.Mathlib.Decide.{ℕ_discrete}
use newgit.Prelude.{◌≡◌, refl, true, false, some, List, [], ◌∷◌, contains, nat_eq, list_eq}
use newgit.Text.{Text, bytes, cmp}
use newgit.Resource.{ResourceDefinition, DataEdge, data_edges}
use newgit.Prelude.Sort.{sort_by, insert_sorted, dedup_by}
use newgit.Resource.EnvNames.{missing_dependency}
use newgit.Resource.Order.{
  Walk, done, in_progress, visit_of, owners_of, is_resource, visit_declared, visit_inferred,
  visit_new, visit_by, visit, visit_roots, resolve_order, ResourceGraph, resolve_graph,
}
use newgit.Resource.Order.Spec.{has_cycle, dependencies, deps_before, each_once}
use newgit.Resource.Order.Graph.{resolve_graph_total}
use newgit.Tests.Resource.{resource, database, server}

abbrev worker : ResourceDefinition
worker = record (resource (bytes "w") []) {
  depends_on = bytes "api" ∷ bytes "code" ∷ bytes "gone" ∷ [];
}

abbrev three : List ResourceDefinition
three = worker ∷ server ∷ database ∷ []

abbrev edges : List DataEdge
edges = (bytes "api", bytes "db", bytes "DB_URL") ∷ []

abbrev walked : Walk
walked = record {
  state =
      (bytes "w", done)
      ∷ (bytes "api", done)
      ∷ (bytes "db", done)
      ∷ (bytes "db", in_progress)
      ∷ (bytes "api", in_progress)
      ∷ (bytes "w", in_progress)
      ∷ [];
  ordered = bytes "db" ∷ bytes "api" ∷ bytes "w" ∷ [];
  problems = missing_dependency (bytes "w") (bytes "gone") ∷ [];
  stack = [];
}

walks : resolve_order three (bytes "code" ∷ []) edges ≡ some walked
unfolding resolve_order visit_roots visit visit_by visit_new visit_declared visit_inferred visit_of
    owners_of sort_by insert_sorted dedup_by cmp nat_eq list_eq ℕ_discrete
walks = refl

resolve_graph_total_example :
    (g : ResourceGraph) × (resolve_graph three (bytes "code" ∷ []) ≡ some g)
    × ((each_once g.bind_order ≡ true)
        × ((n : Text) → contains g.bind_order n ≡ is_resource three n))
    × ((each_once g.lifecycle_order ≡ true)
        × ((n : Text) → contains g.lifecycle_order n ≡ is_resource three n))
    × (has_cycle g.problems ≡ false
        → deps_before (dependencies three (bytes "code" ∷ []) (data_edges three)) [] g.bind_order
          ≡ true)
resolve_graph_total_example = resolve_graph_total three (bytes "code" ∷ [])
