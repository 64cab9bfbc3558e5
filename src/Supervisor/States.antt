-- ===== src/Supervisor/States.antt =====
-- crates/newgit-core/src/supervisor.rs: what `state` says after `stop`, and after a dead process's number was
-- retired.
use newgit.Prelude.{
  ℕ, zero, suc, ◌≡◌, refl, sym, ap, subst, ◌∙◌, Bool, true, false, not, Option, none, some, ◌++◌,
  if◌then◌else◌, nat_eq, list_eq, arith, Bool-cases, inl, inr,
}
use newgit.Text.{Text, bytes, trim, trim_blank_end, trim_blank_start, parse_u32}
use newgit.Error.{Result, ok, err, ok-injective}
use newgit.Supervisor.{
  Files, running, state_by, retired, if_alive, running_pid, parse_signal, mark_stopped, log_stopped,
  state, pid_in, retire_dead_pid, ending,
}
use newgit.Supervisor.Sweeps.{Listing, Signalled, nothing_signalled, signal_group}
use newgit.Supervisor.Stop.{Stopping, StopOutcome, gone, swept, poll, signalling, stop_by, stop}
use newgit.Supervisor.Marked.{StateAfter, state-gone, state_by-number, state-marked}

module _ (signal_numbered : ℕ → Option Text) (signal_named : Text → Option Text)
    (uppercase : Text → Text) where
  -- A dead process whose number was retired reads as it did when it was dead, even when another process gets its
  -- number.
  pub state-retire_dead_pid :
      (alive later : ℕ → Bool) (files : Files)
      → (retire_dead_pid signal_numbered signal_named uppercase alive false files).1 ≡ true
      → state signal_numbered signal_named uppercase later
          (retire_dead_pid signal_numbered signal_named uppercase alive false files).0
        ≡ state signal_numbered signal_named uppercase alive files
  unfolding retire_dead_pid state parse_u32 trim_blank_end trim_blank_start list_eq nat_eq
  state-retire_dead_pid alive later files h = split files.pid_file refl h
    where
      split :
          (p : Option Text)
          → files.pid_file ≡ p
          → (retired signal_numbered signal_named uppercase alive (pid_in p) files).1 ≡ true
          → state signal_numbered signal_named uppercase later
              (retired signal_numbered signal_named uppercase alive (pid_in p) files).0
            ≡ state_by signal_numbered signal_named uppercase alive p files
      split none e k = cc
      split (some text) e k = by_number (parse_u32 (trim text)) refl k
        where
          by_number :
              (number : Option ℕ)
              → parse_u32 (trim text) ≡ number
              → (retired signal_numbered signal_named uppercase alive number files).1 ≡ true
              → state signal_numbered signal_named uppercase later
                  (retired signal_numbered signal_named uppercase alive number files).0
                ≡ state_by signal_numbered signal_named uppercase alive (some text) files
          by_number none f l = cc
          by_number (some pid) f l = elim (Bool-cases (alive pid)) [
            | inl a ↦ absurd (ground (arith, a, l))
            | inr a ↦
                rw a refl
                ∙ sym (
                    state_by-number signal_numbered signal_named uppercase alive text files pid f
                    ∙ ap
                        (λ b.
                          if b
                          then running pid
                          else ending signal_numbered signal_named uppercase alive files)
                        a)
          ]

  module _ (alive : ℕ → ℕ → Bool) (listing : ℕ → Listing) (answer : ℕ → Result (Unit {0}))
      (later : ℕ → Bool) where
    -- If a `stop` succeeds, the state is as its answer says.
    abbrev Told : Files → Stopping → Type 0
    Told before s =
        (outcome : StopOutcome)
        → s.outcome ≡ ok outcome
        → StateAfter signal_numbered signal_named uppercase later before outcome s.files

    Told-swept :
        (before files : Files) (next : Signalled → Stopping)
        (result : Signalled × Result (Unit {0}))
        → ((s : Signalled) → Told before (next s))
        → Told before
            (swept signal_numbered signal_named uppercase alive listing answer files next result)
    Told-swept before files next (s, err refusal) k outcome h = cc
    Told-swept before files next (s, ok u) k outcome h = k s outcome h

    Told-poll :
        (rounds time : ℕ) (signal : Text) (pid : ℕ) (before files : Files) (s : Signalled)
        (marker : Text)
        → pid_in files.pid_file ≡ some pid
        → files.stopping_file ≡ some marker
        → Told before (
            poll signal_numbered signal_named uppercase alive listing answer rounds time signal pid
              files s)
    unfolding poll
    Told-poll zero time signal pid before files s marker e m outcome h =
        subst (λ o. StateAfter signal_numbered signal_named uppercase later before o files)
          (ok-injective h)
          (state-marked signal_numbered signal_named uppercase later files pid marker e m)
    Told-poll (suc rounds) time signal pid before files s marker e m outcome h =
        split (alive time pid) _
          (Told-swept before files
            (λ s.
              poll signal_numbered signal_named uppercase alive listing answer rounds (suc time)
                signal pid files s)
            (signal_group (listing (suc time)) (answer (suc time)) s)
            (λ s. Told-poll rounds (suc time) signal pid before files s marker e m))
          outcome h
      where
        split :
            (b : Bool) (next : Stopping)
            → Told before next
            → Told before (
                if not b
                then gone signal_numbered signal_named uppercase alive listing answer signal pid
                    files s
                else next)
        split true next told outcome h = told outcome h
        split false next told outcome h =
            subst
              (λ o.
                StateAfter signal_numbered signal_named uppercase later before o
                  (log_stopped signal_numbered signal_named uppercase signal (mark_stopped files)))
              (ok-injective h)
              (state-gone signal_numbered signal_named uppercase later signal files)

    -- After a `stop` that gave no error, the resource reads as stopped if its group had gone; if the group had not,
    -- it reads as running while the group lives and as stopped, not as crashed, once it is gone; and if nothing ran,
    -- no file changed.
    pub state-stop :
        (alive_before : ℕ → Bool) (signal : Text) (files : Files) (outcome : StopOutcome)
        → (stop signal_numbered signal_named uppercase alive listing answer alive_before signal
            files).outcome
          ≡ ok outcome
        → StateAfter signal_numbered signal_named uppercase later files outcome
            (stop signal_numbered signal_named uppercase alive listing answer alive_before signal
              files).files
    unfolding stop running_pid
    state-stop alive_before signal files outcome h =
        split (running_pid signal_numbered signal_named uppercase alive_before files)
          (λ pid e. if_alive-number (pid_in files.pid_file) pid e) outcome h
      where
        if_alive-number :
            (found : Option ℕ) (pid : ℕ)
            → if_alive signal_numbered signal_named uppercase alive_before found ≡ some pid
            → found ≡ some pid
        if_alive-number none pid e = cc
        if_alive-number (some p) pid e = ground (arith, e)

        by_signal :
            (pid : ℕ)
            → pid_in files.pid_file ≡ some pid
            → (parsed : Result Text)
            → Told files (
                signalling signal_numbered signal_named uppercase alive listing answer signal pid
                  files parsed)
        by_signal pid e (err refusal) outcome h = cc
        by_signal pid e (ok parsed) outcome h =
            let marked : Files = record files { stopping_file = some (signal ++ bytes "\n") } in
            Told-swept files marked
              (λ s.
                poll signal_numbered signal_named uppercase alive listing answer 50 0 signal pid
                  marked s)
              (signal_group (listing 0) (answer 0) nothing_signalled)
              (λ s. Told-poll 50 0 signal pid files marked s (signal ++ bytes "\n") e refl) outcome
              h

        split :
            (found : Option ℕ)
            → ((pid : ℕ) → found ≡ some pid → pid_in files.pid_file ≡ some pid)
            → Told files (
                stop_by signal_numbered signal_named uppercase alive listing answer signal files
                  found)
        split none read outcome h =
            subst (λ o. StateAfter signal_numbered signal_named uppercase later files o files)
              (ok-injective h) refl
        split (some pid) read outcome h =
            by_signal pid (read pid refl)
              (parse_signal signal_numbered signal_named uppercase signal) outcome h
