-- ===== src/Runner/Shell.antt =====
-- runner/shell.go: the persistent bash session and its marker protocol. The process is a parameter:
-- the lines that its stdout yields to the scanner, what its stderr yields to readStderr, and the errors
-- of writing, sending and reading. The characters of its output are bytes.
pub mod Marker
pub mod Output
pub mod Stdout
pub mod Sync
pub mod Stderr
pub mod Life
use bunshin.Prelude.{
  ℕ, zero, suc, Bool, true, false, List, [], ◌∷◌, ◌++◌, Option, none, some, is_empty, drop, length,
  ◌==◌, ltb, if◌then◌else◌,
}
use bunshin.Text.{Text, lit, split, has_prefix}
use bunshin.Text.Numbers.{ℤ, pos, negsuc, atoi}
use bunshin.Runner.Shell.Marker.{StderrState, read_stderr}

-- Why scanning stops: the pipe's error, or bufio.ErrTooLong.
pub data ScanError : Type 0 where
  pipe_error : ℕ → ScanError
  too_long : ScanError

-- The errors of ExecuteStream and of the session.
pub data ShellError : Type 0 where
  context desync_write desync_send : ℕ → ShellError
  scan_stdout desync_scan : ScanError → ShellError
  parse_exit_code : Text → ShellError
  unexpected_end desync_end : ShellError

-- dropCR of bufio.
unfoldable pub drop_cr : Text → Text
drop_cr [] = []
drop_cr (c ∷ []) = if c == 13 then [] else c ∷ []
drop_cr (c ∷ d ∷ s) = c ∷ drop_cr (d ∷ s)

-- The lines that bufio.ScanLines finds, with their carriage returns: the parts of a text that '\n'
-- parts, without an empty one at the end.
unfoldable pub tokens : List Text → List Text
tokens [] = []
tokens ([] ∷ []) = []
tokens ((c ∷ part) ∷ []) = (c ∷ part) ∷ []
tokens (part ∷ next ∷ parts) = part ∷ tokens (next ∷ parts)

unfoldable pub scan_lines : Text → List Text
unfolding tokens
scan_lines s = tokens (split b'\n' s)

-- The size of the scanner's buffer, which a line has to be shorter than.
abbrev pub max_token_size : ℕ
max_token_size = 1048576

-- What ExecuteStream meets: ctx.Err() before it writes, the error of the write, whether the next
-- line can be sent after those that have been, the pipe's error at the end of stdout, and what
-- readStderr reads: up to the moment of getStderr, or for ever if stderrDone stays open.
pub record Process : Type 0 where
  pub ctx_err : Option ℕ
  pub write_err : Option ℕ
  pub send_err : List Text → Option ℕ
  pub scan_err : Option ℕ
  pub stderr_reads : List Text

-- The return values, the lines that were sent, the field `broken`, and the tokens not scanned yet.
pub record Execution : Type 0 where
  pub exit_code : ℤ
  pub stderr : Text
  pub error : Option ShellError
  pub sent : List Text
  pub broken : Option ShellError
  pub unread : List Text

-- The variables of the scan loop.
pub record Scan : Type 0 where
  pub pending_empty : Bool
  pub send_failed : Option ShellError
  pub sent : List Text
  pub broken : Option ShellError

abbrev pub failed : ShellError → Scan → Option ShellError → List Text → Execution
failed e v broken rest = record {
  exit_code = negsuc 0;
  stderr = [];
  error = some e;
  sent = v.sent;
  broken = broken;
  unread = rest;
}

-- sendLine.
unfoldable pub send_line : Process → Text → Scan → Scan
send_line p line v = elim (p.send_err v.sent) [
  | none ↦ record v { sent = v.sent ++ ((line ++ (b'\n' ∷ [])) ∷ []) }
  | some e ↦ record v { send_failed = some (desync_send e); broken = some (desync_send e) }
]

-- The end of the loop body, where the line itself is sent or held back.
unfoldable pub take_line : Process → Text → Scan → Scan
unfolding send_line
take_line p [] v = record v { pending_empty = true }
take_line p (c ∷ line) v = send_line p (c ∷ line) v

abbrev pub after_pending : Process → Text → Scan → Option ShellError → Scan
after_pending p line v (some e) = v
after_pending p line v none = take_line p line (record v { pending_empty = false })

-- The loop body behind the test for the marker.
unfoldable pub forward_line : Process → Text → Scan → Scan
forward_line p line v = elim v.send_failed [
  | some e ↦ v
  | none ↦ elim v.pending_empty [
    | false ↦ take_line p line v
    | true ↦ let flushed = send_line p [] v in after_pending p line flushed flushed.send_failed
  ]
]

-- The stderr of a command, from an empty buffer with the marker set.
abbrev pub stderr_of : Process → Text → StderrState
stderr_of p marker =
    read_stderr p.stderr_reads (record { buffer = []; marker = marker; done = false })

-- The result behind the marker.
unfoldable pub marked_result : ℤ → Scan → List Text → Text → Execution
marked_result exit_code v rest stderr = elim v.send_failed [
  | some e ↦ failed e v none rest
  | none ↦ record {
    exit_code = exit_code;
    stderr = stderr;
    error = none;
    sent = v.sent;
    broken = v.broken;
    unread = rest;
  }
]

-- The branch of the loop that has met the marker; none if it waits for stderrDone for ever.
unfoldable pub finish : Process → Text → Text → Scan → List Text → Option Execution
unfolding marked_result
finish p marker code v rest = elim (atoi code) [
  | none ↦ some (failed (parse_exit_code code) v v.broken rest)
  | some exit_code ↦
      let stderr = stderr_of p marker in
      elim stderr.done [ false ↦ none | true ↦ some (marked_result exit_code v rest stderr.buffer) ]
]

abbrev pub scan_failed : ScanError → Scan → List Text → Execution
scan_failed e v rest = failed (scan_stdout e) v (some (desync_scan e)) rest

-- What is returned when stdout ends before the marker.
unfoldable pub scan_ended : Process → Scan → Execution
scan_ended p v = elim p.scan_err [
  | some e ↦ scan_failed (pipe_error e) v []
  | none ↦ failed unexpected_end v (some desync_end) []
]

-- The loop `for s.stdout.Scan()`; Text of the scanner drops a carriage return at the end.
unfoldable pub scan_loop : Process → Text → List Text → Scan → Option Execution
unfolding forward_line finish scan_ended drop_cr
scan_loop p marker [] v = some (scan_ended p v)
scan_loop p marker (line ∷ lines) v =
    let rest = scan_loop p marker lines (forward_line p (drop_cr line) v) in
    if ltb (length line) max_token_size
    then if has_prefix marker (drop_cr line)
      then finish p marker (drop (length marker) (drop_cr line)) v lines
      else rest
    else some (scan_failed too_long v (line ∷ lines))

abbrev pub scan_start : Scan
scan_start = record { pending_empty = false; send_failed = none; sent = []; broken = none }

-- ExecuteStream of a session with the field `broken`, for a marker; none if it never returns.
unfoldable pub execute_stream : Process → Option ShellError → Text → List Text → Option Execution
unfolding scan_loop
execute_stream p (some e) marker lines = some (failed e scan_start (some e) lines)
execute_stream p none marker lines = elim p.ctx_err [
  | some e ↦ some (failed (context e) scan_start none lines)
  | none ↦ elim p.write_err [
    | some e ↦ some (failed (desync_write e) scan_start (some (desync_write e)) lines)
    | none ↦ scan_loop p marker lines scan_start
  ]
]

-- An execution that returns, with a result of this kind.
abbrev pub Returns : (Execution → Type 0) → Option Execution → Type 0
Returns P none = ⊥
Returns P (some e) = P e

-- A result of this kind, if the execution returns.
abbrev pub IfReturns : (Execution → Type 0) → Option Execution → Type 0
IfReturns P none = Unit
IfReturns P (some e) = P e
