-- ===== src/Tests/Supervisor.antt =====
-- A server that is stopped.
use native.Mathlib.Decide.{ℕ_discrete}
use newgit.Prelude.{
  ℕ, zero, suc, ◌≡◌, refl, Bool, true, false, Option, none, some, [], ◌∷◌, if◌then◌else◌, ltb,
  nat_eq, list_eq, inl, In,
}
use newgit.Prelude.Int.{pos}
use newgit.Text.{Text, bytes, trim_blank_end, trim_blank_start, trim_start_matches, parse_u32}
use newgit.Error.{Result, ok}
use newgit.Supervisor.{
  Files, running_pid, parse_signal, state, log_stopped, put_log, retire_dead_pid, from_shell_status,
  killed,
}
use newgit.Resource.Accessors.{get}
use newgit.Supervisor.Sweeps.{
  Listing, Signalled, sweep, signal_group, to_process, to_group, nothing_signalled,
}
use newgit.Supervisor.Stop.{stop, poll, group_stopped}
use newgit.Supervisor.Once.{Once, IsRecorded, signal_group-IsRecorded}
use newgit.Supervisor.Means.{Means}
use newgit.Supervisor.Orphans.{signal_group-orphans}
use newgit.Supervisor.Sent.{sent-stop}
use newgit.Supervisor.Marked.{StateAfter}
use newgit.Supervisor.States.{state-stop, state-retire_dead_pid}

abbrev numbered : ℕ → Option Text
numbered n = if ltb n 16 then some (bytes "SIGTERM") else none

abbrev named : Text → Option Text
named name = some name

abbrev same : Text → Text
same name = name

abbrev server : Files
server = record {
  pid_file = some (bytes "10\n");
  exit_file = none;
  stopping_file = none;
  log_record = some (bytes "/log\n");
  logs = (bytes "/log", bytes "[newgit] $ serve" ∷ []) ∷ [];
}

-- The group is alive at the first poll.
abbrev alive_once : ℕ → ℕ → Bool
alive_once time pid = ltb time 1

-- A child joins after the first sweep, and its parent is gone.
abbrev joins : ℕ → Listing
joins zero = some ((10, 1) ∷ [])
joins (suc time) = some ((11, 10) ∷ [])

abbrev answers : ℕ → Result (Unit {0})
answers time = ok tt

abbrev lives : ℕ → Bool
lives pid = true

abbrev dead : ℕ → Bool
dead pid = false

-- Both are signalled, each once.
signals :
    (stop numbered named same alive_once joins answers lives (bytes "TERM") server).signalled.sent
    ≡ to_process 10 ∷ to_process 11 ∷ []
unfolding stop running_pid parse_signal poll signal_group sweep trim_blank_end trim_blank_start
    trim_start_matches parse_u32 nat_eq list_eq ℕ_discrete
signals = refl

answers_stopped :
    (stop numbered named same alive_once joins answers lives (bytes "TERM") server).outcome
    ≡ ok (group_stopped 10)
unfolding stop running_pid parse_signal poll signal_group sweep trim_blank_end trim_blank_start
    trim_start_matches parse_u32 nat_eq list_eq ℕ_discrete
answers_stopped = refl

sent-stop_example :
    Once (
      (stop numbered named same alive_once joins answers lives
        (bytes "TERM")
        server).signalled.sent)
    × Means joins (
        (stop numbered named same alive_once joins answers lives
          (bytes "TERM")
          server).signalled.sent)
sent-stop_example =
    sent-stop numbered named same alive_once joins answers lives (bytes "TERM") server

state-stop_example :
    StateAfter numbered named same dead server
      (group_stopped 10)
      (stop numbered named same alive_once joins answers lives (bytes "TERM") server).files
state-stop_example =
    state-stop numbered named same alive_once joins answers dead lives (bytes "TERM") server
      (group_stopped 10) answers_stopped

state-retire_dead_pid_example :
    state numbered named same lives (retire_dead_pid numbered named same dead false server).0
    ≡ state numbered named same dead server
unfolding retire_dead_pid trim_blank_end trim_blank_start parse_u32 nat_eq list_eq ℕ_discrete
state-retire_dead_pid_example = state-retire_dead_pid numbered named same dead lives server refl

abbrev first_signalled : Signalled
first_signalled = record { pids = 10 ∷ []; whole_group = false; sent = to_process 10 ∷ [] }

first-IsRecorded : IsRecorded first_signalled
unfolding signal_group sweep
first-IsRecorded =
    signal_group-IsRecorded (some ((10, 1) ∷ [])) (ok tt) nothing_signalled
      (record { once = tt; known = λ pid m. absurd m; told = λ pid h. cc; whole = λ m. absurd m })

signal_group-orphans_example :
    In (to_process 11) (((signal_group (some ((11, 10) ∷ [])) (ok tt) first_signalled).0).sent)
unfolding nat_eq ℕ_discrete
signal_group-orphans_example =
    signal_group-orphans ((11, 10) ∷ []) (ok tt) first_signalled 11 10 first-IsRecorded refl
      (inl refl) refl

-- A listing that fails after a sweep signals the group whole, and with it those signalled before.
abbrev listing_fails : ℕ → Listing
listing_fails zero = some ((10, 1) ∷ [])
listing_fails (suc time) = none

signals_again :
    (stop numbered named same alive_once listing_fails answers lives
      (bytes "TERM")
      server).signalled.sent
    ≡ to_process 10 ∷ to_group ∷ []
unfolding stop running_pid parse_signal poll signal_group sweep trim_blank_end trim_blank_start
    trim_start_matches parse_u32 nat_eq list_eq ℕ_discrete
signals_again = refl

stops_with_log :
    (log_stopped numbered named same (bytes "TERM") server).logs
    ≡ (bytes "/log", bytes "[newgit] $ serve" ∷ bytes "[newgit] stopped by newgit (SIGTERM)" ∷ [])
      ∷ []
unfolding log_stopped parse_signal trim_blank_end trim_blank_start trim_start_matches put_log get
    nat_eq list_eq ℕ_discrete
stops_with_log = refl

killed_by_signal : from_shell_status numbered named same (pos 143) ≡ killed (bytes "SIGTERM")
unfolding from_shell_status
killed_by_signal = refl
