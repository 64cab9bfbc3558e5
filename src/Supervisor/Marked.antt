-- ===== src/Supervisor/Marked.antt =====
-- crates/newgit-core/src/supervisor.rs: what `state` says of the files that `stop` leaves.
use newgit.Prelude.{
  ℕ, ◌≡◌, refl, sym, ap, ◌∙◌, Bool, true, false, Option, none, some, List, if◌then◌else◌, ◌==◌,
  nat_eq, list_eq, arith, Bool-cases, inl, inr,
}
use native.Mathlib.Decide.{ℕ_discrete}
use newgit.Text.{Text, bytes, trim, trim_blank_end, trim_blank_start, parse_u32}
use newgit.Resource.Accessors.{get, is_some}
use newgit.Supervisor.{
  Files, stopped, running, died, death_of, stop_line, state_by, running_or, mark_stopped,
  log_stopped, state, append_line, appended, pid_in, ending,
}
use newgit.Supervisor.Stop.{StopOutcome, group_stopped, not_running, still_running}

none-some : {n : ℕ} → none ≡ some n → ⊥
none-some h = cc

module _ (signal_numbered : ℕ → Option Text) (signal_named : Text → Option Text)
    (uppercase : Text → Text) where
  pub pid_file-append_line :
      (line : Text) (path : Option Text) (files : Files)
      → ((append_line signal_numbered signal_named uppercase line path files).pid_file)
        ≡ files.pid_file
  pid_file-append_line line none files = refl
  pid_file-append_line line (some path) files = split (get (trim path) files.logs)
    where
      split :
          (log : Option (List Text))
          → ((appended signal_numbered signal_named uppercase (trim path) line log files).pid_file)
            ≡ files.pid_file
      split none = refl
      split (some lines) = refl

  -- What `state` says of a resource after a `stop`, whichever groups are alive by then.
  abbrev pub StateAfter : (ℕ → Bool) → Files → StopOutcome → Files → Type 0
  StateAfter later before (group_stopped pid) after =
      state signal_numbered signal_named uppercase later after ≡ stopped
  StateAfter later before (still_running pid) after =
      state signal_numbered signal_named uppercase later after
      ≡ (if later pid then running pid else stopped)
  StateAfter later before not_running after = after ≡ before

  pub state-gone :
      (later : ℕ → Bool) (signal : Text) (files : Files)
      → state signal_numbered signal_named uppercase later
          (log_stopped signal_numbered signal_named uppercase signal (mark_stopped files))
        ≡ stopped
  unfolding state log_stopped mark_stopped trim_blank_end trim_blank_start list_eq nat_eq
  state-gone later signal files =
      ap
        (λ p.
          state_by signal_numbered signal_named uppercase later p
            (log_stopped signal_numbered signal_named uppercase signal (mark_stopped files)))
        (pid_file-append_line (stop_line signal_numbered signal_named uppercase signal)
          files.log_record (mark_stopped files))

  pub parse_u32-stopped : parse_u32 (bytes "stopped") ≡ none
  unfolding parse_u32 nat_eq ℕ_discrete
  parse_u32-stopped = refl

  pub number-not_stopped :
      (text : Text) (pid : ℕ) → parse_u32 text ≡ some pid → (text == bytes "stopped") ≡ false
  number-not_stopped text pid h = elim (Bool-cases (text == bytes "stopped")) [
    | inl e ↦
        let same : text ≡ bytes "stopped" = ground (arith, e) in
        absurd (none-some (sym parse_u32-stopped ∙ ap parse_u32 (sym same) ∙ h))
    | inr e ↦ e
  ]

  pub state_by-number :
      (later : ℕ → Bool) (text : Text) (files : Files) (pid : ℕ)
      → parse_u32 (trim text) ≡ some pid
      → state_by signal_numbered signal_named uppercase later (some text) files ≡ (
          if later pid
          then running pid
          else ending signal_numbered signal_named uppercase later files)
  state_by-number later text files pid e =
      rw (number-not_stopped (trim text) pid e, e) (split (later pid))
    where
      split :
          (b : Bool)
          → running_or signal_numbered signal_named uppercase later
              (if b then some pid else none)
              (ending signal_numbered signal_named uppercase later files)
            ≡ (if b then running pid else ending signal_numbered signal_named uppercase later files)
      split true = refl
      split false = refl

  pub state-marked :
      (later : ℕ → Bool) (files : Files) (pid : ℕ) (marker : Text)
      → pid_in files.pid_file ≡ some pid
      → files.stopping_file ≡ some marker
      → state signal_numbered signal_named uppercase later files
        ≡ (if later pid then running pid else stopped)
  unfolding state parse_u32
  state-marked later files pid marker e m =
      split files.pid_file e
      ∙ ap
          (λ b.
            if later pid
            then running pid
            else (if b
                then stopped
                else died (death_of signal_numbered signal_named uppercase files.exit_file)))
          (ap is_some m)
    where
      split :
          (p : Option Text)
          → pid_in p ≡ some pid
          → state_by signal_numbered signal_named uppercase later p files ≡ (
              if later pid
              then running pid
              else ending signal_numbered signal_named uppercase later files)
      split none e = cc
      split (some text) e = state_by-number later text files pid e
