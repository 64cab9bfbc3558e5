-- ===== src/Supervisor/Orphans.antt =====
-- crates/newgit-core/src/supervisor.rs: whom a sweep of a listed group leaves without its signal.
use newgit.Prelude.{
  ℕ, ◌≡◌, refl, ap, ◌∙◌, Bool, true, false, not, ◌&&◌, some, List, [], ◌∷◌, ◌==◌, nat_eq,
  if◌then◌else◌, arith, contains, any-append, In, inl, inr,
}
use newgit.Error.{Result, ok}
use newgit.Supervisor.Once.{IsRecorded, signal_group-IsRecorded}
use newgit.Supervisor.Sweeps.{
  to_process, Signalled, is_listed, left_alone, signal_one, sweep, is_first, sweep_listing,
  signal_group,
}

-- A process signalled before is signalled after.
contains-sweep :
    (pid : ℕ) (first : Bool) (members rest : List (ℕ × ℕ)) (s : Signalled)
    → contains s.pids pid ≡ true
    → contains ((sweep first members rest s).pids) pid ≡ true
unfolding sweep
contains-sweep pid first members [] s h = h
contains-sweep pid first members ((member, parent) ∷ rest) s h =
    contains-sweep pid first members rest
      (if left_alone first members member parent s then s else signal_one member s)
      (split (left_alone first members member parent s))
  where
    split : (b : Bool) → contains ((if b then s else signal_one member s).pids) pid ≡ true
    split true = h
    split false = any-append (λ x. x == pid) s.pids (member ∷ []) ∙ ground (arith, h)

sweep-contains :
    (pid parent : ℕ) (first : Bool) (members rest : List (ℕ × ℕ)) (s : Signalled)
    → In (pid, parent) rest
    → (not first && is_listed members parent) ≡ false
    → contains ((sweep first members rest s).pids) pid ≡ true
unfolding sweep
sweep-contains pid parent first members [] s m h = absurd m
sweep-contains pid parent first members ((member, above) ∷ rest) s (inr m) h =
    sweep-contains pid parent first members rest
      (if left_alone first members member above s then s else signal_one member s) m h
sweep-contains pid parent first members ((member, above) ∷ rest) s (inl e) h =
    contains-sweep pid first members rest
      (if left_alone first members member above s then s else signal_one member s)
      (split (left_alone first members member above s) refl)
  where
    same_pid : member ≡ pid
    same_pid = ap (λ p. p.0) e

    same_parent : above ≡ parent
    same_parent = ap (λ p. p.1) e

    split :
        (b : Bool)
        → left_alone first members member above s ≡ b
        → contains ((if b then s else signal_one member s).pids) pid ≡ true
    split true k = ground (arith, k, same_pid, ap (is_listed members) same_parent, h)
    split false k = any-append (λ x. x == pid) s.pids (member ∷ []) ∙ ground (arith, same_pid)

signal_group-contains :
    (members : List (ℕ × ℕ)) (answer : Result (Unit {0})) (s : Signalled) (pid parent : ℕ)
    → s.whole_group ≡ false
    → In (pid, parent) members
    → (not (is_first s.pids) && is_listed members parent) ≡ false
    → contains (((signal_group (some members) answer s).0).pids) pid ≡ true
unfolding signal_group
signal_group-contains members answer s pid parent e m h =
    ap
      (λ b.
        contains (((if b then (s, ok tt) else sweep_listing (some members) answer s).0).pids) pid)
      e
    ∙ sweep-contains pid parent (is_first s.pids) members members s m h

-- After a sweep that listed the group, `kill` was called with the signal for each process listed, by this sweep or an
-- earlier one, unless an earlier sweep signalled somebody and the process's parent is still in the group. The state
-- before the sweep is one that sweeps leave.
pub signal_group-orphans :
    (members : List (ℕ × ℕ)) (answer : Result (Unit {0})) (s : Signalled) (pid parent : ℕ)
    → IsRecorded s
    → s.whole_group ≡ false
    → In (pid, parent) members
    → (not (is_first s.pids) && is_listed members parent) ≡ false
    → In (to_process pid) (((signal_group (some members) answer s).0).sent)
signal_group-orphans members answer s pid parent v e m h =
    (signal_group-IsRecorded (some members) answer s v).told pid
      (signal_group-contains members answer s pid parent e m h)
