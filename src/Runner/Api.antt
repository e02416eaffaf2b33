-- ===== src/Runner/Api.antt =====
-- runner/handler.go: the handlers of shells and commands. What they read of package netip is the
-- record NetIp; the shell that executes is a function from its number and the command.
pub mod Audit
use bunshin.Prelude.{
  ℕ, suc, Bool, true, false, ◌&&◌, ◌||◌, List, [], ◌∷◌, ◌++◌, Option, none, some, is_empty, ◌==◌,
  ltb, if◌then◌else◌,
}
use bunshin.Text.{Text, lit}
use bunshin.Text.Numbers.{ℤ, digits}
use bunshin.Outcome.{Outcome, ok, err, diverged}
use bunshin.Runner.Shell.{ShellError, Execution}
use bunshin.Runner.Manager.{
  Closing, ManagerError, ShellManager, Given, shell_not_found, find_shell, create, delete_shell,
}
use bunshin.Runner.Validate.{is_whitelisted}

-- netip.ParseAddrPort, ParseAddr and AddrPort.String, on addresses in their printed form.
pub record NetIp : Type 0 where
  pub parse_addr_port : Text → Option (Text × ℕ)
  pub parse_addr : Text → Option Text
  pub addr_port_string : Text → ℕ → Text

-- value[:i] and value[i+1:] at the last ':'.
unfoldable pub cut_last : ℕ → Text → Option (Text × Text)
cut_last sep [] = none
cut_last sep (c ∷ s) = elim (cut_last sep s) [
  | some (before, after) ↦ some (c ∷ before, after)
  | none ↦ if c == sep then some ([], s) else none
]

-- strconv.ParseUint(s, 10, 16) that is not 0.
abbrev pub port_16 : Option ℕ → Option ℕ
port_16 none = none
port_16 (some n) = if ltb n 65536 && ltb 0 n then some n else none

abbrev pub join_parts : NetIp → Option Text → Option ℕ → Option Text
join_parts net (some ip) (some port) = some (net.addr_port_string ip port)
join_parts net _ _ = none

abbrev pub parse_parts : NetIp → Option (Text × Text) → Option Text
parse_parts net none = none
parse_parts net (some (host, port)) =
    if is_empty host || is_empty port
    then none
    else join_parts net (net.parse_addr host) (port_16 (digits port))

abbrev pub parse_or_parts : NetIp → Text → Option (Text × ℕ) → Option Text
parse_or_parts net value none = parse_parts net (cut_last b':' value)
parse_or_parts net value (some (addr, port)) =
    if port == 0
    then parse_parts net (cut_last b':' value)
    else some (net.addr_port_string addr port)

-- parseClientAddress; `none` is its error.
unfoldable pub parse_client_address : NetIp → Text → Option Text
parse_client_address net value = parse_or_parts net value (net.parse_addr_port value)

-- clientAddress, from the header's value.
unfoldable pub client_address : NetIp → Text → Option Text
client_address net value = if is_empty value then none else parse_client_address net value

-- A line of auditLog.
pub record AuditEntry : Type 0 where
  pub shell : Text
  pub remote : Text
  pub whitelisted : Bool
  pub command : Text
  pub exit_code : Option ℤ
  pub error : Option ShellError

-- sseEvent.
pub data Event : Type 0 where
  stdout_event stderr_event : Text → Event
  complete_event : ℤ → Event

-- The session cookie that a reply sets: a shell id, or its removal.
pub data ShellCookie : Type 0 where
  shell_cookie : Text → ShellCookie
  removed_cookie : ShellCookie

pub record ApiReply : Type 0 where
  pub status : ℕ
  pub cookie : Option ShellCookie
  pub events : List Event

-- A line of the audit log, or a command that a shell is given.
pub data Traced : Type 0 where
  audited : AuditEntry → Traced
  gave : ℕ → Text → Traced

-- The shells, and what has happened, in its order.
pub record ApiState : Type 0 where
  pub manager : ShellManager
  pub trace : List Traced

-- The cookie with "" for a missing one, the client address header, and the body as it is bound.
pub record ApiRequest : Type 0 where
  pub shell_id : Text
  pub client_header : Text
  pub command : Option Text

abbrev pub plain_reply : ℕ → ApiReply
plain_reply status = record { status = status; cookie = none; events = [] }

-- The replies; none if the request never ends.
abbrev pub created_reply :
    ApiState → Outcome ShellManager ManagerError (Option (Text × ℕ)) → Option ApiReply × ApiState
created_reply st (ok (some (id, shell)) m) = (
  some (record { status = 204; cookie = some (shell_cookie id); events = [] }),
  record st { manager = m },
)
created_reply st (ok none m) = (none, record st { manager = m })
created_reply st (err e m) = (some (plain_reply 500), record st { manager = m })
created_reply st diverged = (none, st)

-- handleCreateShell.
unfoldable pub handle_create_shell :
    (ℕ → Closing) → Given Text → Given (Unit {0}) → ApiState → Option ApiReply × ApiState
handle_create_shell close id started st = created_reply st (create close id started st.manager)

abbrev pub deleted_reply :
    ApiState → Outcome ShellManager ManagerError (Option (Unit {0})) → Option ApiReply × ApiState
deleted_reply st (ok (some _) m) = (
  some (record { status = 204; cookie = some removed_cookie; events = [] }),
  record st { manager = m },
)
deleted_reply st (ok none m) = (none, record st { manager = m })
deleted_reply st (err shell_not_found m) = (some (plain_reply 404), record st { manager = m })
deleted_reply st (err _ m) = (some (plain_reply 500), record st { manager = m })
deleted_reply st diverged = (none, st)

-- handleDeleteShell.
unfoldable pub handle_delete_shell :
    (ℕ → Closing) → ApiRequest → ApiState → Option ApiReply × ApiState
handle_delete_shell close q st =
    if is_empty q.shell_id
    then (some (plain_reply 400), st)
    else deleted_reply st (delete_shell close q.shell_id st.manager)

abbrev pub stdout_events : List Text → List Event
stdout_events [] = []
stdout_events (line ∷ lines) = stdout_event line ∷ stdout_events lines

-- The events of a command: its stdout, its stderr if there is any, and its end.
abbrev pub command_events : Execution → List Event
command_events e =
    stdout_events e.sent
    ++ ((if is_empty e.stderr then [] else stderr_event e.stderr ∷ [])
        ++ (complete_event e.exit_code ∷ []))

abbrev pub audit_entry : ApiRequest → Text → Text → Option ℤ → Option ShellError → AuditEntry
audit_entry q remote command exit_code error = record {
  shell = q.shell_id;
  remote = remote;
  whitelisted = is_whitelisted command;
  command = command;
  exit_code = exit_code;
  error = error;
}

-- auditLog.
abbrev pub audit_log : AuditEntry → ApiState → ApiState
audit_log entry st = record st { trace = st.trace ++ (audited entry ∷ []) }

-- The call of ExecuteStream.
abbrev pub give_command : ℕ → Text → ApiState → ApiState
give_command shell command st = record st { trace = st.trace ++ (gave shell command ∷ []) }

-- handleExecute behind the call of ExecuteStream, which may never return.
abbrev pub executed_reply :
    ApiRequest → Text → Text → Option Execution → ApiState → Option ApiReply × ApiState
executed_reply q remote command none st = (none, st)
executed_reply q remote command (some e) st = (
  some (record { status = 200; cookie = none; events = command_events e }),
  audit_log (audit_entry q remote command (some e.exit_code) e.error) st,
)

-- handleExecute behind its checks.
abbrev pub execute_audited :
    (ℕ → Text → Option Execution)
    → ApiRequest
    → ApiState
    → ℕ
    → Text
    → Text
    → Option ApiReply × ApiState
execute_audited execute q st shell command remote =
    let logged = audit_log (audit_entry q remote command none none) st in
    let given_to = give_command shell command logged in
    executed_reply q remote command (execute shell command) given_to

-- handleExecute.
unfoldable pub handle_execute :
    NetIp → (ℕ → Text → Option Execution) → ApiRequest → ApiState → Option ApiReply × ApiState
handle_execute net execute q st = elim (is_empty q.shell_id) [
  | true ↦ (some (plain_reply 400), st)
  | false ↦ elim (find_shell q.shell_id st.manager.shells) [
    | none ↦ (some (plain_reply 404), st)
    | some shell ↦ elim q.command [
      | none ↦ (some (plain_reply 400), st)
      | some command ↦ elim (client_address net q.client_header) [
        | none ↦ (some (plain_reply 400), st)
        | some remote ↦ execute_audited execute q st shell command remote
      ]
    ]
  ]
]
