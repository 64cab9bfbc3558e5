-- ===== src/Installs/Walk.antt =====
-- crates/newgit-core/src/installs.rs: `find_path_reference`, the walk of a produced tree by tasks that run in
-- parallel. A step is one task's visit, or a finder's writing of its answer, in any order; a task that goes on after
-- another has set `stop` is a step too. The tree is a parameter, read without an error.
use newgit.Prelude.{
  ℕ, ◌≡◌, Bool, true, false, not, Option, none, some, List, [], ◌∷◌, ◌++◌, filter, any, nat_eq,
  list_eq, if◌then◌else◌,
}
use newgit.Text.{Text, is_empty}
use newgit.Paths.{push, same_path}
use newgit.Resource.Accessors.{or}
use newgit.Installs.{matches, file_contains_any}

mutual
  pub data Node : Type 0 where
    file : Text → Node
    symlink : Text → Node
    other : Node
    dir : Entries → Node

  pub data Entries : Type 0 where
    nil : Entries
    cons : Text → Node → Entries → Entries

abbrev pub Task : Type 0
Task = Text × Node

-- The tasks that a directory's visit queues.
abbrev pub entry_tasks : Text → Entries → List Task
entry_tasks path nil = []
entry_tasks path (cons name node entries) = (push path name, node) ∷ entry_tasks path entries

abbrev pub child_tasks : Task → List Task
child_tasks (path, dir entries) = entry_tasks path entries
child_tasks (path, node) = []

-- The shared state of a walk, with the tasks that wait and those that found something and have not written it.
pub record Walk : Type 0 where
  pub stop : Bool
  pub outcome : Option Text
  pub queued : List Task
  pub finishing : List Text

abbrev pub walk_from : Text → Node → Walk
walk_from root node = record {
  stop = false;
  outcome = none;
  queued = (root, node) ∷ [];
  finishing = [];
}

-- The finders of the needles that are not empty.
abbrev pub finders : List Text → List Text
finders needles = filter (λ needle. not (is_empty needle)) needles

module _ (sizes : ℕ → ℕ) (needles exempt : List Text) where
  -- `check`: whether a path itself names a needle.
  abbrev pub check : Task → Bool
  check (path, symlink target) = matches (finders needles) target
  check (path, file content) =
      if any (λ e. same_path e path) exempt
      then false
      else file_contains_any sizes (finders needles) content
  check (path, other) = false
  check (path, dir entries) = false

  pub data Step : Walk → Walk → Type 0 where
    -- `stop` was seen: the task returns at once.
    skipped :
        (w : Walk) (before after : List Task) (task : Task)
        → w.queued ≡ before ++ task ∷ after
        → w.stop ≡ true
        → Step w (record w { queued = before ++ after })
    -- The path names no needle; a directory's entries are queued.
    visited :
        (w : Walk) (before after : List Task) (task : Task)
        → w.queued ≡ before ++ task ∷ after
        → check task ≡ false
        → Step w (record w { queued = before ++ (after ++ child_tasks task) })
    -- The path names a needle: the task has set `stop`.
    found :
        (w : Walk) (before after : List Task) (path : Text) (node : Node)
        → w.queued ≡ before ++ (path, node) ∷ after
        → check (path, node) ≡ true
        → Step w
            (record w { stop = true; queued = before ++ after; finishing = path ∷ w.finishing })
    -- The first to write its path has its answer kept.
    written :
        (w : Walk) (before after : List Text) (path : Text)
        → w.finishing ≡ before ++ path ∷ after
        → Step w (record w { outcome = or w.outcome (some path); finishing = before ++ after })

  pub data Steps : Walk → Walk → Type 0 where
    ended : (w : Walk) → Steps w w
    onward : (a b c : Walk) → Step a b → Steps b c → Steps a c

  -- The paths under a root that name a needle.
  abbrev mutual
    pub hits : Text → Node → List Text
    hits path (file content) = if check (path, file content) then path ∷ [] else []
    hits path (symlink target) = if check (path, symlink target) then path ∷ [] else []
    hits path other = []
    hits path (dir entries) = entry_hits path entries

    pub entry_hits : Text → Entries → List Text
    entry_hits path nil = []
    entry_hits path (cons name node entries) = hits (push path name) node ++ entry_hits path entries
