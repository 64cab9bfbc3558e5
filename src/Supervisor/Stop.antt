-- ===== src/Supervisor/Stop.antt =====
-- crates/newgit-core/src/supervisor.rs: `stop`: the marker, the signal, and the polls that sweep the group again.
-- Before each poll's sweep the group is asked whether it is alive; what it, the listing and the signal to the whole
-- group answer at each time is a parameter.
use newgit.Prelude.{ℕ, zero, suc, Bool, not, Option, none, some, ◌++◌, if◌then◌else◌, nat_eq}
use newgit.Text.{Text, bytes}
use newgit.Error.{Result, ok, err}
use newgit.Supervisor.{Files, running_pid, parse_signal, mark_stopped, log_stopped}
use newgit.Supervisor.Sweeps.{Listing, Signalled, nothing_signalled, signal_group}

pub data StopOutcome : Type 0 where
  group_stopped : ℕ → StopOutcome
  not_running : StopOutcome
  still_running : ℕ → StopOutcome

-- What a `stop` leaves: the files, what it signalled, and what it answers.
pub record Stopping : Type 0 where
  pub files : Files
  pub signalled : Signalled
  pub outcome : Result StopOutcome

module _ (signal_numbered : ℕ → Option Text) (signal_named : Text → Option Text)
    (uppercase : Text → Text) where
  module _ (alive : ℕ → ℕ → Bool) (listing : ℕ → Listing) (answer : ℕ → Result (Unit {0})) where
    -- The group is gone.
    abbrev pub gone : Text → ℕ → Files → Signalled → Stopping
    gone signal pid files signalled = record {
      files = log_stopped signal_numbered signal_named uppercase signal (mark_stopped files);
      signalled = signalled;
      outcome = ok (group_stopped pid);
    }

    -- What follows a sweep.
    abbrev pub swept : Files → (Signalled → Stopping) → Signalled × Result (Unit {0}) → Stopping
    swept files next (signalled, err refusal) = record {
      files = files;
      signalled = signalled;
      outcome = err refusal;
    }
    swept files next (signalled, ok u) = next signalled

    -- The polls; the number of those made is the time.
    unfoldable pub poll : ℕ → ℕ → Text → ℕ → Files → Signalled → Stopping
    poll zero time signal pid files signalled = record {
      files = files;
      signalled = signalled;
      outcome = ok (still_running pid);
    }
    poll (suc rounds) time signal pid files signalled =
        let later =
          swept files (λ s. poll rounds (suc time) signal pid files s)
            (signal_group (listing (suc time)) (answer (suc time)) signalled) in
        if not (alive time pid) then gone signal pid files signalled else later

    abbrev pub first_sweep : Text → ℕ → Files → Stopping
    first_sweep signal pid files =
        swept files (λ s. poll 50 0 signal pid files s)
          (signal_group (listing 0) (answer 0) nothing_signalled)

    abbrev pub signalling : Text → ℕ → Files → Result Text → Stopping
    signalling signal pid files (err refusal) = record {
      files = files;
      signalled = nothing_signalled;
      outcome = err refusal;
    }
    signalling signal pid files (ok parsed) =
        first_sweep signal pid (record files { stopping_file = some (signal ++ bytes "\n") })

    abbrev pub stop_by : Text → Files → Option ℕ → Stopping
    stop_by signal files none = record {
      files = files;
      signalled = nothing_signalled;
      outcome = ok not_running;
    }
    stop_by signal files (some pid) =
        signalling signal pid files (parse_signal signal_numbered signal_named uppercase signal)

    -- `stop`; the first answer on whether the group lives is given apart from those of the polls.
    unfoldable pub stop : (ℕ → Bool) → Text → Files → Stopping
    stop alive_before signal files =
        stop_by signal files (running_pid signal_numbered signal_named uppercase alive_before files)
