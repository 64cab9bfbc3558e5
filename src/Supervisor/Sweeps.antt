-- ===== src/Supervisor/Sweeps.antt =====
-- crates/newgit-core/src/supervisor.rs: the sweeps of a process group that `stop` sends its signal by. What a
-- listing of the group answers at each sweep is a parameter, and so is what the signal to a whole group answers.
use newgit.Prelude.{
  ℕ, Bool, true, false, not, ◌&&◌, ◌||◌, Option, none, some, List, [], ◌∷◌, ◌++◌, ◌==◌, nat_eq,
  if◌then◌else◌, any, contains,
}
use newgit.Error.{Result, ok}

-- A signal that was sent.
pub data Sent : Type 0 where
  to_process : ℕ → Sent
  to_group : Sent

-- `Signalled`, and what was sent to make it so.
pub record Signalled : Type 0 where
  pub pids : List ℕ
  pub whole_group : Bool
  pub sent : List Sent

abbrev pub nothing_signalled : Signalled
nothing_signalled = record { pids = []; whole_group = false; sent = [] }

-- The processes of the group with their parents, or `None` where they are not listed.
abbrev pub Listing : Type 0
Listing = Option (List (ℕ × ℕ))

abbrev pub is_listed : List (ℕ × ℕ) → ℕ → Bool
is_listed members pid = any (λ (other, parent). other == pid) members

abbrev pub left_alone : Bool → List (ℕ × ℕ) → ℕ → ℕ → Signalled → Bool
left_alone first members member parent signalled =
    contains signalled.pids member || (not first && is_listed members parent)

abbrev pub signal_one : ℕ → Signalled → Signalled
signal_one member signalled = record signalled {
  pids = signalled.pids ++ member ∷ [];
  sent = signalled.sent ++ to_process member ∷ [];
}

-- The loop of `signal_group` over the members.
unfoldable pub sweep : Bool → List (ℕ × ℕ) → List (ℕ × ℕ) → Signalled → Signalled
sweep first members [] signalled = signalled
sweep first members ((member, parent) ∷ rest) signalled = sweep first members rest (
    if left_alone first members member parent signalled
    then signalled
    else signal_one member signalled)

abbrev pub is_first : List ℕ → Bool
is_first [] = true
is_first (pid ∷ pids) = false

abbrev pub signal_whole : Signalled → Signalled
signal_whole signalled = record signalled {
  whole_group = true;
  sent = signalled.sent ++ to_group ∷ [];
}

abbrev pub sweep_listing : Listing → Result (Unit {0}) → Signalled → Signalled × Result (Unit {0})
sweep_listing none answer signalled = (signal_whole signalled, answer)
sweep_listing (some members) answer signalled =
    (sweep (is_first signalled.pids) members members signalled, ok tt)

-- `signal_group`; the answer is that of `killpg`, of which a group that is gone is no failure.
unfoldable pub signal_group :
    Listing → Result (Unit {0}) → Signalled → Signalled × Result (Unit {0})
signal_group listing answer signalled =
    if signalled.whole_group then (signalled, ok tt) else sweep_listing listing answer signalled
