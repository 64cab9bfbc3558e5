-- ===== src/Resource/Order/Runs.antt =====
-- The loops of the walk, over a `visit` that keeps it (crates/newgit-core/src/resource.rs: `resolve_order`).
use newgit.Prelude.{
  ℕ, ◌<◌, ◌≡◌, refl, ◌⊎◌, inl, inr, Bool, true, false, Option, some, List, [], ◌∷◌, ◌++◌, nat_eq,
  list_eq, contains, arith, In, In-append_cases, Bool-cases,
}
use newgit.Text.{Text}
use newgit.Resource.{ResourceDefinition, DataEdge}
use newgit.Resource.EnvNames.{GraphProblem, missing_dependency}
use newgit.Resource.Order.{
  in_progress, done, Walk, visit_of, is_resource, ◌>>=◌, visit_declared, visit_inferred,
}
use newgit.Resource.Order.Spec.{has_cycle, declared}
use newgit.Resource.Order.Kept.{
  fresh, Visited, Visited-refl, Visited-trans, Inv, Visited-report, Inv-report,
}

module _ (resources : List ResourceDefinition) (deps : Text → List Text) where
  -- A walk over some names, from `w`: it returns, keeps the walk, and each resource among them is done
  -- at the end, unless it was in progress and a cycle was reported.
  pub record Run (w : Walk) (names : List Text) (o : Option Walk) : Type 0 where
    pub final : Walk
    pub returns : o ≡ some final
    pub visited : Visited resources w final
    pub kept : Inv resources deps final
    pub reached :
        (n : Text)
        → In n names
        → is_resource resources n ≡ true
        → ((visit_of n w.state ≡ some in_progress) × (has_cycle final.problems ≡ true))
          ⊎ (visit_of n final.state ≡ some done)

  pub Run-bind :
      {w : Walk} {ns ms : List Text} {o : Option Walk} (f : Walk → Option Walk)
      → Run w ns o
      → ((w' : Walk) → Visited resources w w' → Inv resources deps w' → Run w' ms (f w'))
      → Run w (ns ++ ms) (o >>= f)
  Run-bind {w} {ns} {ms} {o} f r k =
      let s = k r.final r.visited r.kept in
      record {
        final = s.final;
        returns = rw (r.returns) s.returns;
        visited = Visited-trans r.visited s.visited;
        kept = s.kept;
        reached = λ n m h. elim (In-append_cases n ns ms m) [
          | inl i ↦ elim (r.reached n i h) [
            | inl (p, c) ↦ inl (p, s.visited.keeps_cycle c)
            | inr d ↦ inr (s.visited.keeps_done n d)
          ]
          | inr i ↦ elim (s.reached n i h) [
            | inl (p, c) ↦ inl (r.visited.leaves_open n p, c)
            | inr d ↦ inr d
          ]
        ];
      }

  -- A visit that returns for every walk with less than `bound` to come to.
  abbrev pub Returns : ℕ → (Text → Walk → Option Walk) → Type 0
  Returns bound f =
      (name : Text) (w : Walk)
      → Inv resources deps w
      → fresh resources w.state < bound
      → Run w (name ∷ []) (f name w)

  pub Run-inferred :
      {bound : ℕ} (f : Text → Walk → Option Walk)
      → Returns bound f
      → (names : List Text) (w : Walk) → Inv resources deps w
      → fresh resources w.state < bound
      → Run w names (visit_inferred f names w)
  unfolding visit_inferred
  Run-inferred f r [] w i b = record {
    final = w;
    returns = refl;
    visited = Visited-refl resources w;
    kept = i;
    reached = λ n m h. elim m [ ];
  }
  Run-inferred f r (name ∷ names) w i b =
      Run-bind (visit_inferred f names) (r name w i b)
        (λ w' v i'. Run-inferred f r names w' i' (omega (arith, b, v.shrinks)))

  pub Run-declared :
      {bound : ℕ} (tracker_names : List Text) (data_of : List DataEdge)
      (f : Text → Walk → Option Walk) (name : Text)
      → Returns bound f
      → (names : List Text) (w : Walk) → Inv resources deps w
      → fresh resources w.state < bound
      → Run w
          (declared resources tracker_names data_of names)
          (visit_declared resources tracker_names data_of f name names w)
  unfolding visit_declared
  Run-declared trackers data_of f name r [] w i b = record {
    final = w;
    returns = refl;
    visited = Visited-refl resources w;
    kept = i;
    reached = λ n m h. elim m [ ];
  }
  Run-declared trackers data_of f name r (d ∷ names) w i b =
      elim (Bool-cases (contains trackers d)) [
        | inl t ↦ rw t (Run-declared trackers data_of f name r names w i b)
        | inr t ↦ elim (Bool-cases (is_resource resources d)) [
          | inl k ↦
              rw (t, k)
                (Run-bind (visit_declared resources trackers data_of f name names) (r d w i b)
                  (λ w' v i'.
                    Run-declared trackers data_of f name r names w' i'
                      (omega (arith, b, v.shrinks))))
          | inr k ↦
              rw (t, k)
                (after_report (missing_dependency name d) (
                  Run-declared trackers data_of f name r names
                    (record w { problems = w.problems ++ missing_dependency name d ∷ [] })
                    (Inv-report deps w (missing_dependency name d) w.stack i) b))
        ]
      ]
    where
      after_report :
          (p : GraphProblem) {ns : List Text} {o : Option Walk}
          → Run (record w { problems = w.problems ++ p ∷ [] }) ns o
          → Run w ns o
      after_report p s = record {
        final = s.final;
        returns = s.returns;
        visited = Visited-trans (Visited-report resources w p w.stack) s.visited;
        kept = s.kept;
        reached = s.reached;
      }

pub no_cycle_done : {P Q : Type 0} {b : Bool} → b ≡ false → (P × (b ≡ true)) ⊎ Q → Q
no_cycle_done c (inl (p, h)) = cc
no_cycle_done c (inr d) = d
