-- ===== src/Installs/Found.antt =====
-- crates/newgit-core/src/installs.rs: what the parallel walk for a needle answers when it ends, whatever the order of
-- its tasks.
use newgit.Prelude.{
  ℕ, ◌≡◌, ◌⊎◌, refl, sym, subst, ◌∙◌, true, Option, none, some, List, [], ◌∷◌, ◌++◌, In, inl, inr,
  In-append_left, In-append_right, In-append_cases, arith,
}
use mathlib.Core.List.{append-nil}
use newgit.Text.{Text}
use newgit.Resource.Accessors.{or}
use newgit.Installs.Walk.{
  Node, child_tasks, Walk, walk_from, Step, skipped, visited, found, written, Steps, ended, onward,
  hits,
}
use newgit.Installs.Hits.{
  task_hits, hits-child_tasks, hits_self, at_task, In-others, In-task, with_children,
}

module _ (sizes : ℕ → ℕ) (needles exempt : List Text) where
  module _ (under : List Text) where
    -- Something was found, written or not.
    abbrev Found : Walk → Type 0
    Found w = ((p : Text) × (w.outcome ≡ some p)) ⊎ ((p : Text) × In p w.finishing)

    record IsSearch (w : Walk) : Type 0 where
      outcome_hits : (p : Text) → w.outcome ≡ some p → In p under
      finishing_hits : (p : Text) → In p w.finishing → In p under
      queued_hits : (p : Text) → In p (task_hits sizes needles exempt w.queued) → In p under
      stopped : w.stop ≡ true → Found w
      complete : (p : Text) → In p under → Found w ⊎ In p (task_hits sizes needles exempt w.queued)

    Step-IsSearch : (a b : Walk) → Step sizes needles exempt a b → IsSearch a → IsSearch b
    Step-IsSearch a b (skipped w before after task e s) v = record {
      outcome_hits = v.outcome_hits;
      finishing_hits = v.finishing_hits;
      queued_hits = λ p m. v.queued_hits p (
          subst (λ q. In p (task_hits sizes needles exempt q)) (sym e)
            (In-others sizes needles exempt p before after task m));
      stopped = v.stopped;
      complete = λ p m. inl (v.stopped s);
    }
    Step-IsSearch a b (visited w before after task e c) v = record {
      outcome_hits = v.outcome_hits;
      finishing_hits = v.finishing_hits;
      queued_hits = λ p m. v.queued_hits p (
          subst (λ q. In p (task_hits sizes needles exempt q)) (sym e)
            (elim (In-append_cases p (task_hits sizes needles exempt (before ++ after))
              (task_hits sizes needles exempt (child_tasks task))
              (subst (In p) (with_children sizes needles exempt before after (child_tasks task))
                m)) [
                  | inl i ↦ In-others sizes needles exempt p before after task i
                  | inr i ↦
                      In-task sizes needles exempt p before after task
                        (subst (In p) (sym (hits-child_tasks sizes needles exempt task c)) i)
                ]));
      stopped = v.stopped;
      complete = λ p m. elim (v.complete p m) [
        | inl f ↦ inl f
        | inr i ↦ inr (
            subst (In p) (sym (with_children sizes needles exempt before after (child_tasks task)))
              (elim (at_task sizes needles exempt p before after task
                (subst (λ q. In p (task_hits sizes needles exempt q)) e i)) [
                  | inl j ↦
                      In-append_right p (task_hits sizes needles exempt (before ++ after))
                        (task_hits sizes needles exempt (child_tasks task))
                        (subst (In p) (hits-child_tasks sizes needles exempt task c) j)
                  | inr j ↦
                      In-append_left p (task_hits sizes needles exempt (before ++ after))
                        (task_hits sizes needles exempt (child_tasks task)) j
                ]))
      ];
    }
    Step-IsSearch a b (found w before after path node e c) v =
        let of_queue : (p : Text)
            → In p (task_hits sizes needles exempt (before ++ (path, node) ∷ after))
            → In p under =
          λ p m. v.queued_hits p (subst (λ q. In p (task_hits sizes needles exempt q)) (sym e) m) in
        record {
          outcome_hits = v.outcome_hits;
          finishing_hits = λ p m. elim m [
            | inl same ↦ of_queue p (
                In-task sizes needles exempt p before after (path, node)
                  (subst (In p) (sym (hits_self sizes needles exempt path node c)) (inl same)))
            | inr i ↦ v.finishing_hits p i
          ];
          queued_hits =
              λ p m. of_queue p (In-others sizes needles exempt p before after (path, node) m);
          stopped = λ h. inr (path, inl refl);
          complete = λ p m. inl (inr (path, inl refl));
        }
    Step-IsSearch a b (written w before after path e) v = record {
      outcome_hits = λ p h. by_outcome w.outcome refl p h;
      finishing_hits = λ p m. v.finishing_hits p (subst (In p) (sym e) (still_in p before m));
      queued_hits = v.queued_hits;
      stopped = λ h. inl (kept w.outcome);
      complete = λ p m. inl (inl (kept w.outcome));
    }
      where
        still_in :
            (p : Text) (before : List Text) → In p (before ++ after) → In p (before ++ path ∷ after)
        still_in p [] m = inr m
        still_in p (q ∷ before) (inl same) = inl same
        still_in p (q ∷ before) (inr m) = inr (still_in p before m)

        stands : (before : List Text) → In path (before ++ path ∷ after)
        stands [] = inl refl
        stands (q ∷ before) = inr (stands before)

        kept : (o : Option Text) → (p : Text) × (or o (some path) ≡ some p)
        kept none = (path, refl)
        kept (some p) = (p, refl)

        by_outcome :
            (o : Option Text) → w.outcome ≡ o → (p : Text) → or o (some path) ≡ some p → In p under
        by_outcome none same p h = v.finishing_hits p (
            subst (In p) (sym e)
              (subst (λ q. In q (before ++ path ∷ after)) (ground (arith, h)) (stands before)))
        by_outcome (some q) same p h = v.outcome_hits p (same ∙ h)

    Steps-IsSearch : (a b : Walk) → Steps sizes needles exempt a b → IsSearch a → IsSearch b
    Steps-IsSearch a b (ended w) v = v
    Steps-IsSearch a c (onward w b z step steps) v =
        Steps-IsSearch b c steps (Step-IsSearch a b step v)

  start-IsSearch :
      (root : Text) (node : Node)
      → IsSearch (hits sizes needles exempt root node) (walk_from root node)
  start-IsSearch root node = record {
    outcome_hits = λ p h. cc;
    finishing_hits = λ p m. absurd m;
    queued_hits = λ p m. subst (In p) (append-nil (hits sizes needles exempt root node)) m;
    stopped = λ h. cc;
    complete = λ p m. inr (subst (In p) (sym (append-nil (hits sizes needles exempt root node))) m);
  }

  -- What the answer is when the walk has ended, by the list of hits.
  pub hits_lem :
      (root : Text) (node : Node) (w : Walk)
      → Steps sizes needles exempt (walk_from root node) w
      → w.queued ≡ []
      → w.finishing ≡ []
      → ((path : Text) → w.outcome ≡ some path → In path (hits sizes needles exempt root node))
        × (w.outcome ≡ none → (path : Text) → In path (hits sizes needles exempt root node) → ⊥)
  hits_lem root node w steps queue finish =
      let under = hits sizes needles exempt root node in
      let v = Steps-IsSearch under (walk_from root node) w steps (start-IsSearch root node) in
      (
        v.outcome_hits,
        λ nothing path m. elim (v.complete path m) [
          | inl f ↦ elim f [ inl (p, e) ↦ cc | inr (p, i) ↦ subst (In p) finish i ]
          | inr i ↦ subst (λ q. In path (task_hits sizes needles exempt q)) queue i
        ],
      )
