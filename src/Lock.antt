-- ===== src/Lock.antt =====
-- crates/newgit-core/src/lock.rs: the lock of one instance: `acquire`, the release when it is dropped, and `prune` at
-- its file, as steps of processes in any order. A file is a number, and a path that is opened when no file is there
-- gets a new one. That an operating system's lock on a file has one holder is the condition of the steps that take it.
pub mod Excludes
pub mod Env
use newgit.Prelude.{
  ℕ, suc, ◌≡◌, ◌≢◌, Bool, true, false, Option, none, some, if◌then◌else◌, ◌==◌, nat_eq,
}

-- Where a process stands. Each but `idle` has the file open, and the last five but `pruning` have it locked.
pub data Phase : Type 0 where
  idle : Phase
  -- `acquire`: the file is open, its lock waited for; locked; found to be the one at the path.
  opened taken holding : ℕ → Phase
  -- `prune`: the file is open; locked; removed from the path.
  pruning prune_taken removed : ℕ → Phase

pub record Locks : Type 0 where
  pub at_path : Option ℕ
  pub fresh : ℕ
  pub phase : ℕ → Phase

abbrev pub update : (ℕ → Phase) → ℕ → Phase → ℕ → Phase
update phase p new q = if q == p then new else phase q

abbrev pub locks : Phase → ℕ → Bool
locks (taken i) j = i == j
locks (holding i) j = i == j
locks (prune_taken i) j = i == j
locks (removed i) j = i == j
locks idle j = false
locks (opened i) j = false
locks (pruning i) j = false

-- A pass of `cleanup` is at the file.
abbrev pub prunes : Phase → Bool
prunes (pruning i) = true
prunes (prune_taken i) = true
prunes (removed i) = true
prunes _ = false

abbrev pub Free : Locks → ℕ → Type 0
Free s i = (q : ℕ) → locks (s.phase q) i ≡ false

abbrev pub NobodyPrunes : Locks → Type 0
NobodyPrunes s = (q : ℕ) → prunes (s.phase q) ≡ false

abbrev pub move : Locks → ℕ → Phase → Locks
move s p new = record s { phase = update s.phase p new }

-- The steps of a process `p`. With `alone`, a pass of `cleanup` begins only when no other is at the file.
pub data Step (alone : Bool) : Locks → Locks → Type 0 where
  open_old :
      (s : Locks) (p i : ℕ)
      → s.phase p ≡ idle
      → s.at_path ≡ some i
      → Step alone s (move s p (opened i))
  open_new :
      (s : Locks) (p : ℕ)
      → s.phase p ≡ idle
      → s.at_path ≡ none
      → Step alone s (record {
        at_path = some s.fresh;
        fresh = suc s.fresh;
        phase = update s.phase p (opened s.fresh);
      })
  -- The holder is an ancestor: the command is refused.
  refuse : (s : Locks) (p i : ℕ) → s.phase p ≡ opened i → Step alone s (move s p idle)
  take_lock :
      (s : Locks) (p i : ℕ) → s.phase p ≡ opened i → Free s i → Step alone s (move s p (taken i))
  -- `is_file_at`
  hold :
      (s : Locks) (p i : ℕ)
      → s.phase p ≡ taken i
      → s.at_path ≡ some i
      → Step alone s (move s p (holding i))
  start_over :
      (s : Locks) (p i : ℕ)
      → s.phase p ≡ taken i
      → s.at_path ≢ some i
      → Step alone s (move s p idle)
  release : (s : Locks) (p i : ℕ) → s.phase p ≡ holding i → Step alone s (move s p idle)
  prune_open :
      (s : Locks) (p i : ℕ)
      → s.phase p ≡ idle
      → s.at_path ≡ some i
      → (alone ≡ true → NobodyPrunes s)
      → Step alone s (move s p (pruning i))
  prune_busy : (s : Locks) (p i : ℕ) → s.phase p ≡ pruning i → Step alone s (move s p idle)
  prune_take :
      (s : Locks) (p i : ℕ)
      → s.phase p ≡ pruning i
      → Free s i
      → Step alone s (move s p (prune_taken i))
  -- Whatever file is at the path is removed from it.
  prune_remove :
      (s : Locks) (p i : ℕ)
      → s.phase p ≡ prune_taken i
      → Step alone s
          (record { at_path = none; fresh = s.fresh; phase = update s.phase p (removed i) })
  prune_close : (s : Locks) (p i : ℕ) → s.phase p ≡ removed i → Step alone s (move s p idle)

pub data Steps (alone : Bool) : Locks → Locks → Type 0 where
  ended : (s : Locks) → Steps alone s s
  onward : (a b c : Locks) → Steps alone a b → Step alone b c → Steps alone a c

-- No command runs yet; a file may be left from before.
abbrev pub unlocked : Option ℕ → ℕ → Locks
unlocked at_path fresh = record { at_path = at_path; fresh = fresh; phase = λ p. idle }
