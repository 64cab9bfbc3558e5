-- ===== src/Installs/Ends.antt =====
-- crates/newgit-core/src/installs.rs: the parallel walk ends: each step takes something from what is left to do, and
-- while something is left there is a step.
use newgit.Prelude.{
  ℕ, suc, ◌+◌, ◌*◌, ◌≤◌, ◌<◌, ◌≡◌, ◌⊎◌, refl, ap, List, [], ◌∷◌, ◌++◌, length, length-append, inl,
  inr, Bool-cases, arith,
}
use newgit.Text.{Text}
use newgit.Installs.Walk.{
  Node, file, symlink, other, dir, Entries, nil, cons, Task, entry_tasks, child_tasks, Walk, check,
  Step, skipped, visited, found, written, Steps, ended, onward,
}

abbrev mutual
  pub size : Node → ℕ
  size (file content) = 1
  size (symlink target) = 1
  size other = 1
  size (dir entries) = suc (entry_size entries)

  pub entry_size : Entries → ℕ
  entry_size nil = 0
  entry_size (cons name node entries) = size node + entry_size entries

abbrev pub task_size : List Task → ℕ
task_size [] = 0
task_size ((path, node) ∷ tasks) = size node + task_size tasks

-- What is left to do: two for each path to be visited, one for each answer to be written.
abbrev pub weight : Walk → ℕ
weight w = 2 * task_size w.queued + length w.finishing

task_size-append : (xs ys : List Task) → task_size (xs ++ ys) ≡ task_size xs + task_size ys
task_size-append [] ys = omega arith
task_size-append ((path, node) ∷ xs) ys = omega (arith, task_size-append xs ys)

task_size-entry_tasks :
    (path : Text) (entries : Entries) → task_size (entry_tasks path entries) ≡ entry_size entries
task_size-entry_tasks path nil = refl
task_size-entry_tasks path (cons name node entries) =
    omega (arith, task_size-entry_tasks path entries)

task_size-child_tasks : (task : Task) → task_size (child_tasks task) < size task.1
task_size-child_tasks (path, file content) = omega arith
task_size-child_tasks (path, symlink target) = omega arith
task_size-child_tasks (path, other) = omega arith
task_size-child_tasks (path, dir entries) = omega (arith, task_size-entry_tasks path entries)

module _ (sizes : ℕ → ℕ) (needles exempt : List Text) where
  Step-weight : (a b : Walk) → Step sizes needles exempt a b → weight b < weight a
  Step-weight a b (skipped w before after task e s) = omega (
    arith,
    ap task_size e,
    task_size-append before (task ∷ after),
    task_size-append before after,
    task_size-child_tasks task,
  )
  Step-weight a b (visited w before after task e c) = omega (
    arith,
    ap task_size e,
    task_size-append before (task ∷ after),
    task_size-append before (after ++ child_tasks task),
    task_size-append after (child_tasks task),
    task_size-child_tasks task,
  )
  Step-weight a b (found w before after path node e c) = omega (
    arith,
    ap task_size e,
    task_size-append before ((path, node) ∷ after),
    task_size-append before after,
    task_size-child_tasks (path, node),
  )
  Step-weight a b (written w before after path e) =
      omega (arith, ap length e, length-append before (path ∷ after), length-append before after)

  abbrev pub count : {a b : Walk} → Steps sizes needles exempt a b → ℕ
  count (ended w) = 0
  count (onward a b c step steps) = suc (count steps)

  -- Nothing is left to do, or there is a step.
  next_step :
      (w : Walk)
      → ((w.queued ≡ []) × (w.finishing ≡ [])) ⊎ ((w' : Walk) × Step sizes needles exempt w w')
  next_step w = split w.queued refl w.finishing refl
    where
      split :
          (tasks : List Task)
          → w.queued ≡ tasks
          → (paths : List Text) → w.finishing ≡ paths
          → ((w.queued ≡ []) × (w.finishing ≡ [])) ⊎ ((w' : Walk) × Step sizes needles exempt w w')
      split [] e [] f = inl (e, f)
      split tasks e (path ∷ paths) f = inr (_, written w [] paths path f)
      split ((path, node) ∷ tasks) e [] f =
          elim (Bool-cases (check sizes needles exempt (path, node))) [
            | inl c ↦ inr (_, found w [] tasks path node e c)
            | inr c ↦ inr (_, visited w [] tasks (path, node) e c)
          ]

  -- A run of the walk takes no more steps than twice the paths under the tasks it began with and the answers it began
  -- with, and it goes on until no task waits and no answer is unwritten.
  pub walk_ends :
      (a b : Walk) (steps : Steps sizes needles exempt a b)
      → (count steps + weight b ≤ weight a)
        × (((b.queued ≡ []) × (b.finishing ≡ [])) ⊎ ((c : Walk) × Step sizes needles exempt b c))
  walk_ends a b (ended w) = (omega arith, next_step w)
  walk_ends a c (onward w b z step steps) =
      let (bound, rest) = walk_ends b c steps in (omega (arith, bound, Step-weight a b step), rest)
