-- ===== src/Runner/Shell/Life.antt =====
-- runner/shell.go: the process of a shell and its pipes, from newBashShellFromCommander to Close.
pub mod Releases
use bunshin.Prelude.{ℕ, Bool, true, false, Option, none, some}
use bunshin.Outcome.{Outcome, Act, ok, err, diverged, ◌>>=◌}

-- What a shell holds: the ends of the pipes that are open, the process, and the goroutine of
-- readStderr.
pub record Held : Type 0 where
  pub stdin : Bool
  pub stdout : Bool
  pub stderr : Bool
  pub process : Bool
  pub reader : Bool

-- What the calls of commander return: an error or none. cmd.Wait may also never return, and leaves of
-- what the shell holds what package os/exec leaves of it. `write_exit` is what writing "exit\n" to the
-- shell's input returns.
pub record Commander : Type 0 where
  pub stdin_pipe : Option ℕ
  pub stdout_pipe : Option ℕ
  pub stderr_pipe : Option ℕ
  pub start : Option ℕ
  pub write_exit : Option ℕ
  pub wait : Held → Option (Option ℕ × Held)

pub data LifeError : Type 0 where
  stdin_pipe_failed stdout_pipe_failed stderr_pipe_failed start_failed : ℕ → LifeError
  write_failed wait_failed : ℕ → LifeError
  write_and_wait_failed : ℕ → ℕ → LifeError

abbrev pub nothing_held : Held
nothing_held = record {
  stdin = false;
  stdout = false;
  stderr = false;
  process = false;
  reader = false;
}

module _ (cmd : Commander) where
  abbrev pub open_stdin : Act Held LifeError (Unit {0})
  open_stdin h = elim cmd.stdin_pipe [
    | some e ↦ err (stdin_pipe_failed e) h
    | none ↦ ok tt (record h { stdin = true })
  ]

  -- Each step closes what the steps before it have opened when it fails.
  abbrev pub open_stdout : Act Held LifeError (Unit {0})
  open_stdout h = elim cmd.stdout_pipe [
    | some e ↦ err (stdout_pipe_failed e) (record h { stdin = false })
    | none ↦ ok tt (record h { stdout = true })
  ]

  abbrev pub open_stderr : Act Held LifeError (Unit {0})
  open_stderr h = elim cmd.stderr_pipe [
    | some e ↦ err (stderr_pipe_failed e) (record h { stdin = false; stdout = false })
    | none ↦ ok tt (record h { stderr = true })
  ]

  abbrev pub start_process : Act Held LifeError (Unit {0})
  start_process h = elim cmd.start [
    | some e ↦ err (start_failed e) (record h { stdin = false; stdout = false; stderr = false })
    | none ↦ ok tt (record h { process = true })
  ]

  abbrev pub start_reader : Act Held LifeError (Unit {0})
  start_reader h = ok tt (record h { reader = true })

  unfoldable pub new_bash_shell_from_commander : Act Held LifeError (Unit {0})
  new_bash_shell_from_commander = do
    _ ← open_stdin
    _ ← open_stdout
    _ ← open_stderr
    _ ← start_process
    start_reader

  -- The errors of Close.
  abbrev pub close_error : Option ℕ → Option ℕ → Option LifeError
  close_error none none = none
  close_error none (some e) = some (wait_failed e)
  close_error (some e) none = some (write_failed e)
  close_error (some e) (some e') = some (write_and_wait_failed e e')

  abbrev pub closed_result : Option LifeError → Act Held LifeError (Unit {0})
  closed_result none h = ok tt h
  closed_result (some e) h = err e h

  -- The rest of Close behind cmd.Wait.
  abbrev pub waited : Option (Option ℕ × Held) → Outcome Held LifeError (Unit {0})
  waited none = diverged
  waited (some (wait_err, h)) = closed_result (close_error cmd.write_exit wait_err) h

  -- Close, where an ExecuteStream may hold the lock for ever.
  unfoldable pub close : Bool → Act Held LifeError (Unit {0})
  close true h = diverged
  close false h = waited (cmd.wait h)
