-- ===== src/Supervisor/Sent.antt =====
-- crates/newgit-core/src/supervisor.rs: what one `stop` sends.
use newgit.Prelude.{
  refl, inl, ℕ, zero, suc, Bool, true, false, not, Option, none, some, ◌++◌, if◌then◌else◌, nat_eq,
  list_eq,
}
use newgit.Text.{Text, bytes}
use newgit.Error.{Result, ok, err}
use newgit.Supervisor.{Files, running_pid, parse_signal}
use newgit.Supervisor.Sweeps.{Listing, Signalled, nothing_signalled, signal_group}
use newgit.Supervisor.Once.{IsRecorded, Once, signal_group-IsRecorded}
use newgit.Supervisor.Means.{
  Means, MeansSoFar, first_sweep-MeansSoFar, signal_group-MeansSoFar, MeansSoFar-Means,
}
use newgit.Supervisor.Stop.{Stopping, gone, swept, poll, first_sweep, signalling, stop_by, stop}

module _ (signal_numbered : ℕ → Option Text) (signal_named : Text → Option Text)
    (uppercase : Text → Text) where
  module _ (alive : ℕ → ℕ → Bool) (listing : ℕ → Listing) (answer : ℕ → Result (Unit {0})) where
    -- What holds of the signals after each sweep.
    abbrev Orderly : Signalled → Type 0
    Orderly s = IsRecorded s × MeansSoFar listing s

    swept-Orderly :
        (files : Files) (next : Signalled → Stopping) (result : Signalled × Result (Unit {0}))
        → Orderly result.0
        → ((s : Signalled) → Orderly s → Orderly ((next s).signalled))
        → Orderly (
            (swept signal_numbered signal_named uppercase alive listing answer files next
              result).signalled)
    swept-Orderly files next (s, err refusal) v k = v
    swept-Orderly files next (s, ok u) v k = k s v

    poll-Orderly :
        (rounds time : ℕ) (signal : Text) (pid : ℕ) (files : Files) (s : Signalled)
        → Orderly s
        → Orderly (
            (poll signal_numbered signal_named uppercase alive listing answer rounds time signal pid
              files s).signalled)
    unfolding poll
    poll-Orderly zero time signal pid files s v = v
    poll-Orderly (suc rounds) time signal pid files s v = split (alive time pid) _ (
        swept-Orderly files
          (λ s.
            poll signal_numbered signal_named uppercase alive listing answer rounds (suc time)
              signal pid files s)
          (signal_group (listing (suc time)) (answer (suc time)) s)
          (
            signal_group-IsRecorded (listing (suc time)) (answer (suc time)) s v.0,
            signal_group-MeansSoFar listing (answer (suc time)) time s v.1,
          )
          (λ s v. poll-Orderly rounds (suc time) signal pid files s v))
      where
        split :
            (b : Bool) (later : Stopping)
            → Orderly later.signalled
            → Orderly (
                (if not b
                  then gone signal_numbered signal_named uppercase alive listing answer signal pid
                      files s
                  else later).signalled)
        split true later w = w
        split false later w = v

    nothing-IsRecorded : IsRecorded nothing_signalled
    nothing-IsRecorded = record {
      once = tt;
      known = λ pid m. absurd m;
      told = λ pid h. cc;
      whole = λ m. absurd m;
    }

    first_sweep-Orderly :
        (signal : Text) (pid : ℕ) (files : Files)
        → Orderly (
            (first_sweep signal_numbered signal_named uppercase alive listing answer signal pid
              files).signalled)
    first_sweep-Orderly signal pid files =
        swept-Orderly files
          (λ s.
            poll signal_numbered signal_named uppercase alive listing answer 50 0 signal pid files
              s)
          (signal_group (listing 0) (answer 0) nothing_signalled)
          (
            signal_group-IsRecorded (listing 0) (answer 0) nothing_signalled nothing-IsRecorded,
            first_sweep-MeansSoFar listing (answer 0),
          )
          (λ s v. poll-Orderly 50 0 signal pid files s v)

    -- Whatever the group, its listings and the signals answer at each poll, `stop` sends its signal to no process
    -- by itself more than once and to the group as a whole at most once; and it sends it to processes alone, or to
    -- the group alone, so that no process gets it twice, except where the group was listed at the first sweep and
    -- was not at a later one.
    pub sent-stop :
        (alive_before : ℕ → Bool) (signal : Text) (files : Files)
        → Once (
            (stop signal_numbered signal_named uppercase alive listing answer alive_before signal
              files).signalled.sent)
          × Means listing (
              (stop signal_numbered signal_named uppercase alive listing answer alive_before signal
                files).signalled.sent)
    unfolding stop
    sent-stop alive_before signal files =
        split (running_pid signal_numbered signal_named uppercase alive_before files)
      where
        by_signal :
            (pid : ℕ) (parsed : Result Text)
            → Once (
                (signalling signal_numbered signal_named uppercase alive listing answer signal pid
                  files parsed).signalled.sent)
              × Means listing (
                  (signalling signal_numbered signal_named uppercase alive listing answer signal pid
                    files parsed).signalled.sent)
        by_signal pid (err refusal) = (tt, inl refl)
        by_signal pid (ok parsed) =
            let (recorded, means) =
              first_sweep-Orderly signal pid
                (record files { stopping_file = some (signal ++ bytes "\n") }) in
            (
              recorded.once,
              MeansSoFar-Means listing
                  (signalling signal_numbered signal_named uppercase alive listing answer signal pid
                    files (ok parsed)).signalled
                  means,
            )

        split :
            (found : Option ℕ)
            → Once (
                (stop_by signal_numbered signal_named uppercase alive listing answer signal files
                  found).signalled.sent)
              × Means listing (
                  (stop_by signal_numbered signal_named uppercase alive listing answer signal files
                    found).signalled.sent)
        split none = (tt, inl refl)
        split (some pid) =
            by_signal pid (parse_signal signal_numbered signal_named uppercase signal)
