-- ===== src/Runner/Shell/Life/Releases.antt =====
-- A shell that is started holds all of its resources, and one that is not holds none.
use bunshin.Prelude.{ℕ, true, Option, none, some, ◌≡◌, refl}
use bunshin.Outcome.{Outcome, ok, err, diverged}
use bunshin.Runner.Shell.Life.{
  Commander, Held, nothing_held, LifeError, stdin_pipe_failed, stdout_pipe_failed,
  stderr_pipe_failed, start_failed, write_failed, wait_failed, write_and_wait_failed,
  new_bash_shell_from_commander,
}

abbrev pub all_held : Held
all_held = record { stdin = true; stdout = true; stderr = true; process = true; reader = true }

-- The error is that of the first call that fails.
abbrev pub IsFirstError : Commander → LifeError → Type 0
IsFirstError cmd (stdin_pipe_failed e) = cmd.stdin_pipe ≡ some e
IsFirstError cmd (stdout_pipe_failed e) = (cmd.stdin_pipe ≡ none) × (cmd.stdout_pipe ≡ some e)
IsFirstError cmd (stderr_pipe_failed e) =
    (cmd.stdin_pipe ≡ none) × (cmd.stdout_pipe ≡ none) × (cmd.stderr_pipe ≡ some e)
IsFirstError cmd (start_failed e) =
    (cmd.stdin_pipe ≡ none)
    × (cmd.stdout_pipe ≡ none)
    × (cmd.stderr_pipe ≡ none)
    × (cmd.start ≡ some e)
IsFirstError cmd (write_failed e) = ⊥
IsFirstError cmd (wait_failed e) = ⊥
IsFirstError cmd (write_and_wait_failed e d) = ⊥

abbrev pub Releases : Commander → Outcome Held LifeError (Unit {0}) → Type 0
Releases cmd (ok _ h) =
    (h ≡ all_held)
    × (cmd.stdin_pipe ≡ none)
    × (cmd.stdout_pipe ≡ none)
    × (cmd.stderr_pipe ≡ none)
    × (cmd.start ≡ none)
Releases cmd (err e h) = (h ≡ nothing_held) × IsFirstError cmd e
Releases cmd diverged = ⊥

abbrev commander_of :
    Option ℕ
    → Option ℕ
    → Option ℕ
    → Option ℕ
    → Option ℕ
    → (Held → Option (Option ℕ × Held))
    → Commander
commander_of a b c d e f = record {
  stdin_pipe = a;
  stdout_pipe = b;
  stderr_pipe = c;
  start = d;
  write_exit = e;
  wait = f;
}

started-Releases :
    (a b c d e : Option ℕ) (f : Held → Option (Option ℕ × Held))
    → Releases
        (commander_of a b c d e f)
        (new_bash_shell_from_commander (commander_of a b c d e f) nothing_held)
unfolding new_bash_shell_from_commander
started-Releases (some x) b c d e f = (refl, refl)
started-Releases none (some x) c d e f = (refl, (refl, refl))
started-Releases none none (some x) d e f = (refl, (refl, refl, refl))
started-Releases none none none (some x) e f = (refl, (refl, refl, refl, refl))
started-Releases none none none none e f = (refl, refl, refl, refl, refl)

-- Starting a shell returns. When one of its calls fails, the error is that of the first one that
-- does, no pipe is open, no process runs and no goroutine reads. Otherwise the shell holds its three
-- pipes, the process and the goroutine.
pub new_bash_shell-Releases :
    (cmd : Commander) → Releases cmd (new_bash_shell_from_commander cmd nothing_held)
new_bash_shell-Releases cmd =
    started-Releases cmd.stdin_pipe cmd.stdout_pipe cmd.stderr_pipe cmd.start cmd.write_exit
      cmd.wait
