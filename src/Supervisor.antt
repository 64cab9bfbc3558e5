-- ===== src/Supervisor.antt =====
-- crates/newgit-core/src/supervisor.rs: what the files of a resource say of its process. The files are a
-- resource's own: `<resource>.pid`, `.exit`, `.stopping`, `.logpath`, and the logs by their paths. Which groups are
-- alive and what a signal's number and name are, are parameters. Writing a file is taken to succeed.
pub mod Sweeps
pub mod Once
pub mod Means
pub mod Orphans
pub mod Stop
pub mod Sent
pub mod Marked
pub mod States
use newgit.Prelude.{
  ℕ, zero, suc, ◌-◌, ◌≡◌, Bool, true, false, ◌&&◌, Option, none, some, List, [], ◌∷◌, ◌++◌, ◌==◌,
  nat_eq, list_eq, if◌then◌else◌, ltb,
}
use newgit.Prelude.Int.{ℤ, pos, negsuc}
use newgit.Text.{
  Text, bytes, trim, trim_start_matches, starts_with, parse_u32, parse_i32, decimal, decimal_int,
}
use newgit.Error.{NewgitError, already_running, unsupported, Result, ok, err}
use newgit.Resource.Accessors.{get, and_then, or_else, is_some}

pub data Death : Type 0 where
  exited : ℤ → Death
  killed : Text → Death
  unknown : Death

pub data ProcessState : Type 0 where
  never_started : ProcessState
  running : ℕ → ProcessState
  stopped : ProcessState
  died : Death → ProcessState

-- What the state directory holds for a resource.
pub record Files : Type 0 where
  pub pid_file : Option Text
  pub exit_file : Option Text
  pub stopping_file : Option Text
  pub log_record : Option Text
  -- The logs, by their paths.
  pub logs : List (Text × List Text)

unfoldable pub label : Death → Text
label (exited code) = bytes "exited(" ++ (decimal_int code ++ bytes ")")
label (killed signal) = bytes "killed(" ++ (signal ++ bytes ")")
label unknown = bytes "crashed"

unfoldable pub describe : Death → Text
describe (exited code) = bytes "exited " ++ decimal_int code
describe (killed signal) = bytes "was killed by " ++ signal
describe unknown = bytes "crashed"

-- A pid file's number, if it holds one.
abbrev pub pid_in : Option Text → Option ℕ
pid_in none = none
pid_in (some text) = parse_u32 (trim text)

-- A log gets the lines.
unfoldable pub put_log : Text → List Text → List (Text × List Text) → List (Text × List Text)
put_log path lines [] = (path, lines) ∷ []
put_log path lines ((p, old) ∷ logs) =
    let rest = put_log path lines logs in
    if p == path then (path, lines) ∷ logs else (p, old) ∷ rest

-- `Signal::try_from` and `Signal::from_str`, of the signals' crate, and `str::to_uppercase`.
module _ (signal_numbered : ℕ → Option Text) (signal_named : Text → Option Text)
    (uppercase : Text → Text) where
  abbrev pub killed_by : ℤ → Option Text → Death
  killed_by status none = exited status
  killed_by status (some signal) = killed signal

  unfoldable pub from_shell_status : ℤ → Death
  from_shell_status (pos status) =
      if ltb 128 status
      then killed_by (pos status) (signal_numbered (status - 128))
      else exited (pos status)
  from_shell_status (negsuc n) = exited (negsuc n)

  abbrev pub death_by : Option ℤ → Death
  death_by none = unknown
  death_by (some status) = from_shell_status status

  -- What the wrapper wrote of the ending.
  abbrev pub death_of : Option Text → Death
  death_of none = unknown
  death_of (some text) = death_by (parse_i32 (trim text))

  abbrev pub signal_or : Text → Option Text → Result Text
  signal_or signal none = err (unsupported signal)
  signal_or signal (some parsed) = ok parsed

  abbrev pub with_sig : Text → Text
  with_sig name = if starts_with name (bytes "SIG") then name else bytes "SIG" ++ name

  unfoldable pub parse_signal : Text → Result Text
  parse_signal signal =
      signal_or signal (signal_named (with_sig (uppercase (trim_start_matches b'-' (trim signal)))))

  abbrev pub signal_shown : Text → Result Text → Text
  signal_shown signal (ok parsed) = parsed
  signal_shown signal (err refusal) = signal

  abbrev pub stop_line : Text → Text
  stop_line signal =
      bytes "[newgit] stopped by newgit ("
      ++ (signal_shown signal (parse_signal signal) ++ bytes ")")

  abbrev pub appended : Text → Text → Option (List Text) → Files → Files
  appended path line none files = files
  appended path line (some lines) files = record files {
    logs = put_log path (lines ++ line ∷ []) files.logs;
  }

  abbrev pub append_line : Text → Option Text → Files → Files
  append_line line none files = files
  append_line line (some path) files = appended (trim path) line (get (trim path) files.logs) files

  -- The log of the run says that newgit stopped it. A log that is gone is left so.
  unfoldable pub log_stopped : Text → Files → Files
  log_stopped signal files = append_line (stop_line signal) files.log_record files

  module _ (alive : ℕ → Bool) where
    abbrev pub if_alive : Option ℕ → Option ℕ
    if_alive none = none
    if_alive (some pid) = if alive pid then some pid else none

    unfoldable pub running_pid : Files → Option ℕ
    running_pid files = if_alive (pid_in files.pid_file)

    -- How a process that is gone ended.
    abbrev pub ending : Files → ProcessState
    ending files = if is_some files.stopping_file then stopped else died (death_of files.exit_file)

    abbrev pub running_or : Option ℕ → ProcessState → ProcessState
    running_or none otherwise = otherwise
    running_or (some pid) otherwise = running pid

    abbrev pub state_by : Option Text → Files → ProcessState
    state_by none files = never_started
    state_by (some text) files =
        if trim text == bytes "stopped"
        then stopped
        else running_or (if_alive (parse_u32 (trim text))) (ending files)

    unfoldable pub state : Files → ProcessState
    state files = state_by files.pid_file files

    abbrev pub spawned_files : Text → Result ℕ → Files → Files × Result ℕ
    spawned_files log_path (err refusal) files = (files, err refusal)
    spawned_files log_path (ok pid) files = (
      record files {
        log_record = some (log_path ++ b'\n' ∷ []);
        pid_file = some (decimal pid ++ b'\n' ∷ []);
      },
      ok pid,
    )

    abbrev pub start_by : Option ℕ → Text → Text → Text → Result ℕ → Files → Files × Result ℕ
    start_by (some pid) resource command log_path spawned files =
        (files, err (already_running resource pid))
    start_by none resource command log_path spawned files =
        spawned_files log_path spawned (record files {
          logs = put_log log_path ((bytes "[newgit] $ " ++ command) ∷ []) files.logs;
          exit_file = none;
          stopping_file = none;
        })

    -- `start`, with what spawning the command gives.
    unfoldable pub start : Text → Text → Text → Result ℕ → Files → Files × Result ℕ
    start resource command log_path spawned files =
        start_by (running_pid files) resource command log_path spawned files

    abbrev pub retired : Option ℕ → Files → Files × Bool
    retired none files = (files, false)
    retired (some pid) files =
        if alive pid
        then (files, false)
        else (record files { pid_file = some (bytes "exited\n") }, true)

    abbrev pub dry : Bool → Files → Files × Bool → Files × Bool
    dry dry_run before (after, found) = (if dry_run then before else after, found)

    -- `retire_dead_pids` at one pid file: the files it leaves, and whether the path is among those returned.
    unfoldable pub retire_dead_pid : Bool → Files → Files × Bool
    retire_dead_pid dry_run files = dry dry_run files (retired (pid_in files.pid_file) files)

unfoldable pub has_ever_started : Files → Bool
has_ever_started files = is_some files.pid_file

unfoldable pub mark_stopped : Files → Files
mark_stopped files = record files { pid_file = some (bytes "stopped\n") }
