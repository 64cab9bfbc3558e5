-- ===== src/Installs/Hits.antt =====
-- crates/newgit-core/src/installs.rs: the paths that name a needle under the tasks of a queue.
use newgit.Prelude.{
  ℕ, if◌then◌else◌, ◌≡◌, ◌⊎◌, refl, sym, ap, ◌∙◌, true, false, List, [], ◌∷◌, ◌++◌, In, inl, inr,
  In-append_left, In-append_right, In-append_cases,
}
use mathlib.Core.List.{append_assoc}
use newgit.Text.{Text}
use newgit.Paths.{push}
use newgit.Installs.Walk.{
  Node, file, symlink, other, dir, Entries, nil, cons, Task, entry_tasks, child_tasks, check, hits,
  entry_hits,
}

module _ (sizes : ℕ → ℕ) (needles exempt : List Text) where
  -- The paths that name a needle under the tasks.
  abbrev pub task_hits : List Task → List Text
  task_hits [] = []
  task_hits ((path, node) ∷ tasks) = hits sizes needles exempt path node ++ task_hits tasks

  pub task_hits-entry_tasks :
      (path : Text) (entries : Entries)
      → task_hits (entry_tasks path entries) ≡ entry_hits sizes needles exempt path entries
  task_hits-entry_tasks path nil = refl
  task_hits-entry_tasks path (cons name node entries) =
      ap (λ rest. hits sizes needles exempt (push path name) node ++ rest)
        (task_hits-entry_tasks path entries)

  -- A task that names no needle has the hits of the tasks that its visit queues.
  pub hits-child_tasks :
      (task : Task)
      → check sizes needles exempt task ≡ false
      → hits sizes needles exempt task.0 task.1 ≡ task_hits (child_tasks task)
  hits-child_tasks (path, file content) h = ap (λ b. if b then path ∷ [] else []) h
  hits-child_tasks (path, symlink target) h = ap (λ b. if b then path ∷ [] else []) h
  hits-child_tasks (path, other) h = refl
  hits-child_tasks (path, dir entries) h = sym (task_hits-entry_tasks path entries)

  pub hits_self :
      (path : Text) (node : Node)
      → check sizes needles exempt (path, node) ≡ true
      → hits sizes needles exempt path node ≡ path ∷ []
  hits_self path (file content) h = ap (λ b. if b then path ∷ [] else []) h
  hits_self path (symlink target) h = ap (λ b. if b then path ∷ [] else []) h
  hits_self path other h = cc
  hits_self path (dir entries) h = cc

  pub task_hits-append : (xs ys : List Task) → task_hits (xs ++ ys) ≡ task_hits xs ++ task_hits ys
  task_hits-append [] ys = refl
  task_hits-append ((path, node) ∷ xs) ys =
      ap (λ rest. hits sizes needles exempt path node ++ rest) (task_hits-append xs ys)
      ∙ sym (append_assoc (hits sizes needles exempt path node) (task_hits xs) (task_hits ys))

  -- The hits of a queue are those of a task in it and those of the others.
  pub at_task :
      (p : Text) (before after : List Task) (task : Task)
      → In p (task_hits (before ++ task ∷ after))
      → In p (hits sizes needles exempt task.0 task.1) ⊎ In p (task_hits (before ++ after))
  at_task p [] after task m =
      In-append_cases p (hits sizes needles exempt task.0 task.1) (task_hits after) m
  at_task p ((path, node) ∷ before) after task m =
      elim (In-append_cases p (hits sizes needles exempt path node)
        (task_hits (before ++ task ∷ after)) m) [
          | inl i ↦ inr (
              In-append_left p (hits sizes needles exempt path node) (task_hits (before ++ after))
                i)
          | inr i ↦ elim (at_task p before after task i) [
            | inl j ↦ inl j
            | inr j ↦ inr (
                In-append_right p (hits sizes needles exempt path node)
                  (task_hits (before ++ after)) j)
          ]
        ]

  pub In-others :
      (p : Text) (before after : List Task) (task : Task)
      → In p (task_hits (before ++ after))
      → In p (task_hits (before ++ task ∷ after))
  In-others p [] after task m =
      In-append_right p (hits sizes needles exempt task.0 task.1) (task_hits after) m
  In-others p ((path, node) ∷ before) after task m =
      elim (In-append_cases p (hits sizes needles exempt path node) (task_hits (before ++ after))
        m) [
          | inl i ↦
              In-append_left p (hits sizes needles exempt path node)
                (task_hits (before ++ task ∷ after)) i
          | inr i ↦
              In-append_right p (hits sizes needles exempt path node)
                (task_hits (before ++ task ∷ after)) (In-others p before after task i)
        ]

  pub In-task :
      (p : Text) (before after : List Task) (task : Task)
      → In p (hits sizes needles exempt task.0 task.1)
      → In p (task_hits (before ++ task ∷ after))
  In-task p [] after task m =
      In-append_left p (hits sizes needles exempt task.0 task.1) (task_hits after) m
  In-task p ((path, node) ∷ before) after task m =
      In-append_right p (hits sizes needles exempt path node) (task_hits (before ++ task ∷ after))
        (In-task p before after task m)

  pub with_children :
      (before after children : List Task)
      → task_hits (before ++ (after ++ children))
        ≡ task_hits (before ++ after) ++ task_hits children
  with_children before after children =
      ap task_hits (sym (append_assoc before after children))
      ∙ task_hits-append (before ++ after) children
