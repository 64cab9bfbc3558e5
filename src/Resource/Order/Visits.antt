-- ===== src/Resource/Order/Visits.antt =====
-- The walk ends, and comes to every name that it is given
-- (crates/newgit-core/src/resource.rs: `resolve_order`).
use newgit.Prelude.{
  ℕ, zero, suc, ◌<◌, ◌≡◌, refl, ap, sym, inl, inr, true, false, not, ◌&&◌, Option, none, some, List,
  [], ◌∷◌, ◌++◌, any, filter, find, nat_eq, list_eq, contains, arith, In, In-append_cases,
  In-append_left, In-append_right, subst, In-filter_witness, Bool-cases, ==-refl, any-append,
}
use newgit.Text.{Text}
use newgit.Resource.{ResourceDefinition, DataEdge}
use newgit.Resource.EnvNames.{cycle}
use newgit.Resource.Order.{
  Visit, in_progress, done, Walk, visit_of, named, owners_of, is_resource, enter, leave,
  report_cycle, visit_inferred, visit_new, visit_by, visit,
}
use newgit.Resource.Order.Spec.{is_cycle, declared, dependencies, dependencies_of}
use newgit.Resource.Order.Kept.{
  fresh, Visited-refl, Inv, Visited-report, Inv-report, Inv-enter, Inv-leave, Visited-leave,
  fresh-cons-lt,
}
use newgit.Resource.Order.Runs.{Run, Run-bind, Returns, Run-inferred, Run-declared, no_cycle_done}

module _ (resources : List ResourceDefinition) (tracker_names : List Text)
    (data_of : List DataEdge) where
  abbrev pub deps : Text → List Text
  deps = dependencies resources tracker_names data_of

  abbrev pub call : ℕ → Text → Walk → Option Walk
  call = visit resources tracker_names data_of

  find-is_resource :
      (name : Text) (rs : List ResourceDefinition)
      → any (named name) rs ≡ true
      → (r : ResourceDefinition) × (find (named name) rs ≡ some r)
  find-is_resource name [] h = cc
  find-is_resource name (r ∷ rs) h = elim (Bool-cases (named name r)) [
    | inl e ↦ (r, rw e refl)
    | inr e ↦ rw e (find-is_resource name rs (ground (arith, h, e)))
  ]

  declared-is_resource :
      (names : List Text) (d : Text)
      → In d (declared resources tracker_names data_of names)
      → is_resource resources d ≡ true
  declared-is_resource names d m =
      let (i, h) =
        In-filter_witness (λ x. not (contains tracker_names x) && is_resource resources x) d names
          m in
      ground (arith, h)

  In-dependencies :
      (name d : Text) (r : ResourceDefinition)
      → find (named name) resources ≡ some r
      → In d (deps name)
      → In d (declared resources tracker_names data_of r.depends_on ++ owners_of data_of name)
        × (is_resource resources d ≡ true)
  unfolding dependencies
  In-dependencies name d r e m =
      elim (In-append_cases d (declared resources tracker_names data_of r.depends_on)
        (filter (is_resource resources) (owners_of data_of name))
        (subst (λ o. In d (dependencies_of resources tracker_names data_of name o)) e m)) [
          | inl i ↦
              (In-append_left d _ (owners_of data_of name) i, declared-is_resource r.depends_on d i)
          | inr i ↦
              let (j, k) = In-filter_witness (is_resource resources) d (owners_of data_of name) i in
              (In-append_right d (declared resources tracker_names data_of r.depends_on) _ j, k)
        ]

  -- A resource that the walk had not come to.
  Run-new :
      {bound : ℕ} (f : Text → Walk → Option Walk) (name : Text) (w : Walk) (r : ResourceDefinition)
      → Returns resources deps bound f
      → Inv resources deps w
      → fresh resources w.state < suc bound
      → visit_of name w.state ≡ none
      → is_resource resources name ≡ true
      → find (named name) resources ≡ some r
      → Run resources deps w
          (name ∷ [])
          (visit_new resources tracker_names data_of f name (some r) w)
  unfolding visit_new visit_of
  Run-new f name w r ret i b h k e =
      let entered : Inv resources deps (enter name w) = Inv-enter name h i in
      let inner =
        Run-bind resources deps (visit_inferred f (owners_of data_of name))
          (Run-declared resources deps tracker_names data_of f name ret r.depends_on (enter name w)
            entered (omega (arith, b, fresh-cons-lt resources name in_progress w.state k h)))
          (λ w' v i'.
            Run-inferred resources deps f ret (owners_of data_of name) w' i' (
              omega (arith, b, v.shrinks, fresh-cons-lt resources name in_progress w.state k h))) in
      let here : visit_of name inner.final.state ≡ some in_progress =
        inner.visited.keeps_progress name (rw (==-refl name) refl) in
      record {
        final = leave name inner.final;
        returns = rw (inner.returns) refl;
        visited = Visited-leave name h k inner.visited;
        kept =
            Inv-leave name here k
              (λ d m c.
                let (j, t) = In-dependencies name d r e m in no_cycle_done c (inner.reached d j t))
              inner.kept;
        reached = λ n m t. inr (ground (arith, m));
      }

  find-none-is_resource :
      (name : Text) (rs : List ResourceDefinition)
      → any (named name) rs ≡ false
      → find (named name) rs ≡ none
  find-none-is_resource name [] h = refl
  find-none-is_resource name (r ∷ rs) h = ground (arith, h, find-none-is_resource name rs)

  -- One call, by what the walk knows of the name.
  Run-visit_by :
      {bound : ℕ} (f : Text → Walk → Option Walk) (name : Text) (w : Walk) (o : Option Visit)
      → Returns resources deps bound f
      → Inv resources deps w
      → fresh resources w.state < suc bound
      → visit_of name w.state ≡ o
      → Run resources deps w (name ∷ []) (visit_by resources tracker_names data_of o f name w)
  unfolding visit_by visit_new
  Run-visit_by f name w (some done) ret i b e = record {
    final = w;
    returns = refl;
    visited = Visited-refl resources w;
    kept = i;
    reached = λ n m t. inr (ground (arith, m, e));
  }
  Run-visit_by f name w (some in_progress) ret i b e = record {
    final = report_cycle name w;
    returns = refl;
    visited = Visited-report resources w (cycle (w.stack ++ name ∷ [])) w.stack;
    kept = Inv-report deps w (cycle (w.stack ++ name ∷ [])) w.stack i;
    reached = λ n m t. inl (
      ground (arith, m, e),
      ground (arith, any-append is_cycle w.problems (cycle (w.stack ++ name ∷ []) ∷ [])),
    );
  }
  Run-visit_by f name w none ret i b e = elim (Bool-cases (is_resource resources name)) [
    | inl k ↦
        let (r, g) = find-is_resource name resources k in
        subst
          (λ o.
            Run resources deps w (name ∷ []) (visit_new resources tracker_names data_of f name o w))
          (sym g) (Run-new f name w r ret i b e k g)
    | inr k ↦
        subst
          (λ o.
            Run resources deps w (name ∷ []) (visit_new resources tracker_names data_of f name o w))
          (sym (find-none-is_resource name resources k))
          (record {
            final = w;
            returns = refl;
            visited = Visited-refl resources w;
            kept = i;
            reached = λ n m t. absurd (unknown n m k t);
          })
  ]
    where
      unknown :
          (n : Text)
          → In n (name ∷ [])
          → is_resource resources name ≡ false
          → ¬ (is_resource resources n ≡ true)
      unknown n (inl s) k t = cc (ap (is_resource resources) s)
      unknown n (inr m) k t = elim m [ ]

  pub Run-visit : (fuel : ℕ) → Returns resources deps fuel (call fuel)
  unfolding visit
  Run-visit zero name w i b = absurd (omega (arith, b))
  Run-visit (suc fuel) name w i b =
      Run-visit_by (call fuel) name w (visit_of name w.state) (Run-visit fuel) i b refl
