-- ===== src/Tests/Commands.antt =====
-- The runner, on small commands.
use bunshin.Prelude.{
  length, List, ℕ, ◌<◌, true, false, [], ◌∷◌, ◌++◌, Option, none, some, ◌≡◌, ◌≢◌, refl, arith, All,
}
use bunshin.Text.{Text, lit, split, has_prefix}
use bunshin.Text.Laws.{Lacks}
use bunshin.Text.Numbers.{pos, atoi, digits}
use bunshin.Runner.Shell.{
  max_token_size, stderr_of, Returns, Process, Execution, scan_lines, execute_stream,
}
use bunshin.Runner.Shell.Output.{cr, complete, concat, Finishes}
use bunshin.Runner.Shell.Stdout.{newline, execute_stream_forwards}
use bunshin.Runner.Shell.Marker.{StderrState, cut_text, check_stderr_marker, read_stderr}
use bunshin.Runner.Shell.Stderr.{read_stderr_strips}
use bunshin.Runner.Manager.{
  Closing, closes, never_closes, after, ShellManager, given, create, new_shell_manager,
}
use bunshin.Runner.Manager.Accounts.{
  Reachable, start, create_call, IsAccounted, Reachable-IsAccounted,
}
use bunshin.Runner.Shell.Life.{Commander, nothing_held, new_bash_shell_from_commander}
use bunshin.Runner.Shell.Life.Releases.{Releases, new_bash_shell-Releases}
use bunshin.Runner.Api.{NetIp, ApiState, ApiRequest, handle_create_shell, handle_execute}
use bunshin.Runner.Api.Audit.{IsAudited, begins, create_request, execute_request, Serves-IsAudited}

abbrev bash : Process
bash = record {
  ctx_err = none;
  write_err = none;
  send_err = λ sent. none;
  scan_err = none;
  stderr_reads = lit "oops" ∷ lit "MRK\n" ∷ [];
}

abbrev marker : Text
marker = lit "MRK"

-- A line, and a text without a newline at its end.
abbrev output : Text
output = lit "hi\nyo"

output_clean : All (λ line. has_prefix marker line ≡ false) (split newline output)
unfolding split has_prefix
output_clean = (refl, (refl, tt))

zero_parses : atoi (lit "0") ≡ some (pos 0)
unfolding atoi digits
zero_parses = refl

output-Lacks : Lacks cr output
output-Lacks = (
  λ e. omega (arith, e),
  (
    λ e. omega (arith, e),
    (λ e. omega (arith, e), (λ e. omega (arith, e), (λ e. omega (arith, e), tt))),
  ),
)

marker_line-Lacks : (c : ℕ) → c < 40 → Lacks c (marker ++ lit "0")
marker_line-Lacks c h = (
  λ e. omega (arith, e),
  (λ e. omega (arith, e), (λ e. omega (arith, e), (λ e. omega (arith, e), tt))),
)

output_short : All (λ line. length line < max_token_size) (split newline output)
unfolding split
output_short = (omega arith, (omega arith, tt))

marker_short : length (marker ++ lit "0") < max_token_size
marker_short = omega arith

oops_read : stderr_of bash marker ≡ record { buffer = lit "oops"; marker = []; done = true }
unfolding read_stderr check_stderr_marker cut_text has_prefix
oops_read = refl

execute_stream_forwards_example :
    Returns (Finishes (complete output) (lit "oops") (pos 0) (scan_lines [])) (
      execute_stream bash none marker
        (scan_lines (output ++ (newline ∷ ((marker ++ lit "0") ++ (newline ∷ []))))))
execute_stream_forwards_example =
    execute_stream_forwards bash marker (lit "0") output (lit "oops") [] (pos 0) refl refl
      (λ sent. refl) oops_read output-Lacks (marker_line-Lacks 13 (omega arith))
      (marker_line-Lacks 10 (omega arith)) output_clean output_short marker_short zero_parses

abbrev hi_lines : List Text
hi_lines = lit "hi" ∷ lit "MRK0" ∷ lit "next" ∷ []

abbrev hi : Execution
hi = record {
  exit_code = pos 0;
  stderr = lit "oops";
  error = none;
  sent = lit "hi\n" ∷ [];
  broken = none;
  unread = lit "next" ∷ [];
}

abbrev marked : StderrState
marked = record { buffer = []; marker = lit "MRK"; done = false }

no_marker : cut_text (lit "MRK") (lit "oops\n" ++ []) ≡ none
unfolding cut_text has_prefix
no_marker = refl

finds_marker : cut_text (lit "MRK") ((lit "oops\n" ++ []) ++ lit "MRK") ≡ some (lit "oops\n", [])
unfolding cut_text has_prefix
finds_marker = refl

-- The marker's newline arrives in a chunk of its own, and stays in the buffer.
read_stderr_strips_example :
    read_stderr (lit "oops\n" ∷ lit "MRK" ∷ lit "\n" ∷ []) marked
    ≡ record { buffer = lit "oops\n\n"; marker = []; done = true }
unfolding concat
read_stderr_strips_example =
    read_stderr_strips (lit "oops\n" ∷ []) (lit "\n" ∷ []) (lit "MRK") (lit "oops\n") [] marked refl
      (λ e. cc) no_marker finds_marker

abbrev always_closes : ℕ → Closing
always_closes n = closes

abbrev one_shell : ShellManager
one_shell =
    after new_shell_manager (create always_closes (given (lit "f0")) (given tt) new_shell_manager)

one_shell-Reachable : Reachable always_closes one_shell
one_shell-Reachable = create_call (given (lit "f0")) (given tt) start

Reachable-IsAccounted_example :
    IsAccounted one_shell × (((k : ℕ) → always_closes k ≢ never_closes) → one_shell.stranded ≡ [])
Reachable-IsAccounted_example = Reachable-IsAccounted always_closes one_shell-Reachable

abbrev net : NetIp
net = record {
  parse_addr_port = λ value. some (value, 80);
  parse_addr = λ value. some value;
  addr_port_string = λ addr port. addr;
}

abbrev echo : ℕ → Text → Option Execution
echo shell command = some (record {
  exit_code = pos 0;
  stderr = [];
  error = none;
  sent = command ∷ [];
  broken = none;
  unread = [];
})

abbrev asks : ApiRequest
asks = record { shell_id = lit "f0"; client_header = lit "10.0.0.1:80"; command = some (lit "ls") }

abbrev first_state : ApiState
first_state = record { manager = new_shell_manager; trace = [] }

abbrev one_state : ApiState
one_state = record { manager = one_shell; trace = [] }

-- A shell is created and given a command.
Serves-IsAudited_example :
    IsAudited none
      (handle_execute net echo asks
        (handle_create_shell always_closes (given (lit "f0")) (given tt) first_state).1).1.trace
Serves-IsAudited_example =
    Serves-IsAudited net always_closes
      (execute_request echo asks (create_request (given (lit "f0")) (given tt) begins))

-- A bash that does not start.
abbrev fails_to_start : Commander
fails_to_start = record {
  stdin_pipe = none;
  stdout_pipe = none;
  stderr_pipe = none;
  start = some 1;
  write_exit = none;
  wait = λ h. none;
}

new_bash_shell-Releases_example :
    Releases fails_to_start (new_bash_shell_from_commander fails_to_start nothing_held)
new_bash_shell-Releases_example = new_bash_shell-Releases fails_to_start
