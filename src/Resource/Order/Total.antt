-- ===== src/Resource/Order/Total.antt =====
-- The order that `resolve_order` returns (crates/newgit-core/src/resource.rs).
use newgit.Prelude.{
  ℕ, suc, ◌<◌, ◌≡◌, refl, subst, sym, ◌∙◌, inl, inr, true, false, Option, none, some, List, [], ◌∷◌,
  map, length, nat_eq, list_eq, contains, arith, In, In-map, any-witness, length-filter-le,
  Bool-cases,
}
use mathlib.Core.Option.{some-injective}
use newgit.Text.{Text}
use newgit.Resource.{ResourceDefinition, DataEdge}
use newgit.Resource.Order.{
  in_progress, done, Walk, visit_of, is_resource, named, visit_roots, resolve_order, no_walk,
}
use newgit.Resource.Order.Spec.{has_cycle, dependencies, deps_before, each_once}
use newgit.Resource.Order.Kept.{fresh, Visited-refl, Inv, is_none}
use newgit.Resource.Order.Runs.{Run, Run-bind}
use newgit.Resource.Order.Visits.{Run-visit}

module _ (resources : List ResourceDefinition) (tracker_names : List Text)
    (data_of : List DataEdge) where
  abbrev deps : Text → List Text
  deps = dependencies resources tracker_names data_of

  abbrev names_of : List ResourceDefinition → List Text
  names_of = map (λ r. r.name)

  from_empty_stack :
      (w : Walk) {names : List Text} {o : Option Walk}
      → Run resources deps (record w { stack = [] }) names o
      → Run resources deps w names o
  from_empty_stack w r = record {
    final = r.final;
    returns = r.returns;
    visited = record {
      keeps_done = r.visited.keeps_done;
      keeps_progress = r.visited.keeps_progress;
      leaves_open = r.visited.leaves_open;
      keeps_cycle = r.visited.keeps_cycle;
      shrinks = r.visited.shrinks;
    };
    kept = r.kept;
    reached = r.reached;
  }

  Inv-empty_stack : (w : Walk) → Inv resources deps w → Inv resources deps (record w { stack = [] })
  Inv-empty_stack w i = record {
    listed = i.listed;
    finished = i.finished;
    known = i.known;
    once = i.once;
    sorted = i.sorted;
  }

  Run-roots :
      (fuel : ℕ) (roots : List ResourceDefinition) (w : Walk)
      → Inv resources deps w
      → fresh resources w.state < fuel
      → Run resources deps w
          (names_of roots)
          (visit_roots resources tracker_names data_of fuel roots w)
  unfolding visit_roots
  Run-roots fuel [] w i b = record {
    final = w;
    returns = refl;
    visited = Visited-refl resources w;
    kept = i;
    reached = λ n m h. elim m [ ];
  }
  Run-roots fuel (r ∷ roots) w i b =
      Run-bind resources deps
        (λ v. visit_roots resources tracker_names data_of fuel roots (record v { stack = [] }))
        (Run-visit resources tracker_names data_of fuel r.name w i b)
        (λ v kept i'. from_empty_stack v (
          Run-roots fuel roots (record v { stack = [] }) (Inv-empty_stack v i')
            (omega (arith, b, kept.shrinks))))

  whole :
      Run resources deps no_walk
        (names_of resources)
        (resolve_order resources tracker_names data_of)
  unfolding resolve_order visit_of
  whole =
      Run-roots (suc (length resources)) resources no_walk
        (record {
          listed = λ n h. cc;
          finished = λ n h. cc;
          known = λ n h. cc;
          once = refl;
          sorted = λ h. refl;
        })
        (omega (arith, length-filter-le (λ r. is_none (visit_of r.name [])) resources))

  contains-is_resource :
      (w : Walk) (n : Text)
      → Inv resources deps w
      → (is_resource resources n ≡ true → visit_of n w.state ≡ some done)
      → contains w.ordered n ≡ is_resource resources n
  contains-is_resource w n i d = elim (Bool-cases (is_resource resources n)) [
    | inl k ↦ i.listed n (d k) ∙ sym k
    | inr k ↦ ground (arith, k, i.known n)
  ]

  all_done : (n : Text) → is_resource resources n ≡ true → visit_of n whole.final.state ≡ some done
  unfolding visit_of
  all_done n k =
      let (r, m, e) = any-witness (named n) resources k in
      let same : r.name ≡ n = ground (arith, e) in
      elim (whole.reached n
        (subst (λ x. In x (names_of resources)) same (In-map (λ r. r.name) r resources m)) k) [
          | inl (p, c) ↦ absurd (not_yet p)
          | inr d ↦ d
        ]
    where
      not_yet : ¬ (none ≡ some in_progress)
      not_yet p = cc

  -- `resolve_order` returns, on every graph, cyclic or not: each name of a resource stands in the order
  -- once, and no other name does.
  pub resolve_order_total :
      (w : Walk) × (resolve_order resources tracker_names data_of ≡ some w)
      × (each_once w.ordered ≡ true)
      × ((n : Text) → contains w.ordered n ≡ is_resource resources n)
  resolve_order_total = (
    whole.final,
    whole.returns,
    whole.kept.once,
    λ n. contains-is_resource whole.final n whole.kept (all_done n),
  )

  -- When no cycle is reported, each resource stands behind the resources that it declares to depend on
  -- and those that its templates read from.
  pub resolve_order-deps_before :
      (w : Walk)
      → resolve_order resources tracker_names data_of ≡ some w
      → has_cycle w.problems ≡ false
      → deps_before (dependencies resources tracker_names data_of) [] w.ordered ≡ true
  resolve_order-deps_before w h c =
      let same : w ≡ whole.final = some-injective w whole.final (sym h ∙ whole.returns) in
      subst (λ v. has_cycle v.problems ≡ false → deps_before deps [] v.ordered ≡ true) (sym same)
        whole.kept.sorted c
