-- ===== src/Runner/Api/Audit.antt =====
-- No command reaches a shell without an entry in the audit log before it.
use bunshin.Prelude.{
  ℕ, List, [], ◌∷◌, ◌++◌, Option, none, some, ◌≡◌, ◌⊎◌, inl, inr, refl, sym, ap, subst, ◌∙◌,
  is_empty, Bool-cases, Option-cases, append_assoc,
}
use bunshin.Text.{Text}
use bunshin.Outcome.{Outcome, ok, err, diverged}
use bunshin.Runner.Shell.{Execution}
use bunshin.Runner.Manager.{
  ManagerError, id_failed, start_failed, close_failed, duplicate_id, shell_not_found, ShellManager,
  Given, Closing, new_shell_manager, find_shell, create, delete_shell,
}
use bunshin.Runner.Validate.{is_whitelisted}
use bunshin.Runner.Api.{
  NetIp, client_address, AuditEntry, Traced, audited, gave, ApiReply, ApiState, ApiRequest,
  audit_entry, command_events, created_reply, deleted_reply, executed_reply, execute_audited,
  audit_log, give_command, plain_reply, handle_create_shell, handle_delete_shell, handle_execute,
}

-- A refusal: the state is as it was.
abbrev pub Refuses : ApiState → Option ApiReply × ApiState → Type 0
Refuses st (none, st') = ⊥
Refuses st (some reply, st') =
    ((reply.status ≡ 400) ⊎ (reply.status ≡ 404)) × (st' ≡ st) × (reply.events ≡ [])

-- The entry is about a command that is to be executed.
abbrev pub Announces : AuditEntry → Text → Type 0
Announces entry command =
    (entry.command ≡ command)
    × (entry.whitelisted ≡ is_whitelisted command)
    × (entry.exit_code ≡ none)

-- What follows a command: nothing while its execution does not return, and its entry and its events
-- when it does.
abbrev pub Follows : Text → Option Execution → List Traced → Option ApiReply → Type 0
Follows command none later reply = (later ≡ []) × (reply ≡ none)
Follows command (some e) later none = ⊥
Follows command (some e) later (some reply) =
    (entry : AuditEntry) × (later ≡ audited entry ∷ [])
    × (entry.command ≡ command)
    × (entry.exit_code ≡ some e.exit_code)
    × (entry.error ≡ e.error)
    × (reply.status ≡ 200)
    × (reply.events ≡ command_events e)

-- One command in one shell, behind its entry in the log.
pub record Executes (net : NetIp) (execute : ℕ → Text → Option Execution) (q : ApiRequest)
    (st : ApiState) (r : Option ApiReply × ApiState) : Type 0 where
  pub shell : ℕ
  pub command : Text
  pub entry : AuditEntry
  pub later : List Traced
  pub held : find_shell q.shell_id st.manager.shells ≡ some shell
  pub bound : q.command ≡ some command
  pub addressed : client_address net q.client_header ≡ some entry.remote
  pub of_shell : entry.shell ≡ q.shell_id
  pub announced : Announces entry command
  pub ordered : r.1.trace ≡ st.trace ++ (audited entry ∷ gave shell command ∷ later)
  pub follows : Follows command (execute shell command) later r.0
  pub same_shells : r.1.manager ≡ st.manager

refuses :
    (st : ApiState) (r : Option ApiReply × ApiState) (status : ℕ)
    → r ≡ (some (plain_reply status), st)
    → (status ≡ 400) ⊎ (status ≡ 404)
    → Refuses st r
refuses st r status e h = subst (Refuses st) (sym e) (h, refl, refl)

-- The trace of a command, from its three steps.
module _ (net : NetIp) (execute : ℕ → Text → Option Execution) (q : ApiRequest) (st : ApiState)
    (shell : ℕ) (command remote : Text)
    (held : find_shell q.shell_id st.manager.shells ≡ some shell) (bound : q.command ≡ some command)
    (addressed : client_address net q.client_header ≡ some remote) where
  executed-Executes :
      (o : Option Execution)
      → execute shell command ≡ o
      → Executes net execute q st (
          executed_reply q remote command o
            (give_command shell command (audit_log (audit_entry q remote command none none) st)))
  executed-Executes none e = record {
    shell = shell;
    command = command;
    entry = audit_entry q remote command none none;
    later = [];
    held = held;
    bound = bound;
    addressed = addressed;
    of_shell = refl;
    announced = (refl, refl, refl);
    ordered =
        append_assoc st.trace (audited (audit_entry q remote command none none) ∷ [])
          (gave shell command ∷ []);
    follows = subst (λ o. Follows command o [] none) (sym e) (refl, refl);
    same_shells = refl;
  }
  executed-Executes (some x) e =
      let before = audited (audit_entry q remote command none none) in
      let behind = audit_entry q remote command (some x.exit_code) x.error in
      record {
        shell = shell;
        command = command;
        entry = audit_entry q remote command none none;
        later = audited behind ∷ [];
        held = held;
        bound = bound;
        addressed = addressed;
        of_shell = refl;
        announced = (refl, refl, refl);
        ordered =
            ap (λ t. t ++ (audited behind ∷ []))
              (append_assoc st.trace (before ∷ []) (gave shell command ∷ []))
            ∙ append_assoc st.trace (before ∷ gave shell command ∷ []) (audited behind ∷ []);
        follows =
            subst
              (λ o.
                Follows command o (audited behind ∷ [])
                  (some (record { status = 200; cookie = none; events = command_events x })))
              (sym e) (behind, refl, refl, refl, refl, refl, refl);
        same_shells = refl;
      }

pub handle_execute-Executes :
    (net : NetIp) (execute : ℕ → Text → Option Execution) (q : ApiRequest) (st : ApiState)
    → Refuses st (handle_execute net execute q st)
      ⊎ Executes net execute q st (handle_execute net execute q st)
unfolding handle_execute
handle_execute-Executes net execute q st = elim (Bool-cases (is_empty q.shell_id)) [
  | inl missing ↦
      inl (
        refuses st (handle_execute net execute q st) 400 (simp (missing, handle_execute))
          (inl refl))
  | inr given ↦ elim (Option-cases (find_shell q.shell_id st.manager.shells)) [
    | inl unknown ↦ inl (
        refuses st (handle_execute net execute q st) 404 (simp (given, unknown, handle_execute))
          (inr refl))
    | inr (shell, held) ↦ elim (Option-cases q.command) [
      | inl unbound ↦ inl (
          refuses st (handle_execute net execute q st) 400
            (simp (given, held, unbound, handle_execute)) (inl refl))
      | inr (command, bound) ↦ elim (Option-cases (client_address net q.client_header)) [
        | inl nowhere ↦ inl (
            refuses st (handle_execute net execute q st) 400
              (simp (given, held, bound, nowhere, handle_execute)) (inl refl))
        | inr (remote, addressed) ↦
            let e : handle_execute net execute q st
                ≡ execute_audited execute q st shell command remote =
              simp (given, held, bound, addressed, handle_execute) in
            inr (
              subst (Executes net execute q st) (sym e) (
                executed-Executes net execute q st shell command remote held bound addressed
                  (execute shell command) refl))
      ]
    ]
  ]
]

-- The entry before a command, if there is one, announces it.
abbrev pub IsAnnounced : Option AuditEntry → Text → Type 0
IsAnnounced none command = ⊥
IsAnnounced (some entry) command = Announces entry command

-- Each command comes directly behind an entry that announces it; `last` is the entry before the trace.
abbrev pub IsAudited : Option AuditEntry → List Traced → Type 0
IsAudited last [] = Unit
IsAudited last (audited entry ∷ trace) = IsAudited (some entry) trace
IsAudited last (gave shell command ∷ trace) = IsAnnounced last command × IsAudited none trace

IsAudited-append :
    (last : Option AuditEntry) (trace more : List Traced)
    → IsAudited last trace
    → ((entry : Option AuditEntry) → IsAudited entry more)
    → IsAudited last (trace ++ more)
IsAudited-append last [] more h k = k last
IsAudited-append last (audited entry ∷ trace) more h k =
    IsAudited-append (some entry) trace more h k
IsAudited-append last (gave shell command ∷ trace) more h k =
    (h.0, IsAudited-append none trace more h.1 k)

Follows-IsAudited :
    (command : Text) (o : Option Execution) (later : List Traced) (reply : Option ApiReply)
    → Follows command o later reply
    → IsAudited none later
Follows-IsAudited command none later reply (empty, never) = subst (IsAudited none) (sym empty) tt
Follows-IsAudited command (some e) later none h = absurd h
Follows-IsAudited command (some e) later (some reply) (entry, one, _, _, _, _, _) =
    subst (IsAudited none) (sym one) tt

Refuses-IsAudited :
    (st : ApiState) (r : Option ApiReply × ApiState)
    → Refuses st r
    → IsAudited none st.trace
    → IsAudited none r.1.trace
Refuses-IsAudited st (none, st') h a = absurd h
Refuses-IsAudited st (some reply, st') (status, same, _) a =
    subst (λ (x : ApiState). IsAudited none x.trace) (sym same) a

handle_execute-IsAudited :
    (net : NetIp) (execute : ℕ → Text → Option Execution) (q : ApiRequest) (st : ApiState)
    → IsAudited none st.trace
    → IsAudited none (handle_execute net execute q st).1.trace
handle_execute-IsAudited net execute q st a = elim (handle_execute-Executes net execute q st) [
  | inl refused ↦ Refuses-IsAudited st (handle_execute net execute q st) refused a
  | inr x ↦ subst (IsAudited none) (sym x.ordered) (
      IsAudited-append none st.trace (audited x.entry ∷ gave x.shell x.command ∷ x.later) a
        (λ entry. (
          x.announced,
          Follows-IsAudited x.command (execute x.shell x.command) x.later _ x.follows,
        )))
]

created_reply-trace :
    (st : ApiState) (o : Outcome ShellManager ManagerError (Option (Text × ℕ)))
    → (created_reply st o).1.trace ≡ st.trace
created_reply-trace st (ok (some (id, shell)) m) = refl
created_reply-trace st (ok none m) = refl
created_reply-trace st (err e m) = refl
created_reply-trace st diverged = refl

deleted_reply-trace :
    (st : ApiState) (o : Outcome ShellManager ManagerError (Option (Unit {0})))
    → (deleted_reply st o).1.trace ≡ st.trace
deleted_reply-trace st (ok (some _) m) = refl
deleted_reply-trace st (ok none m) = refl
deleted_reply-trace st (err (id_failed n) m) = refl
deleted_reply-trace st (err (start_failed n) m) = refl
deleted_reply-trace st (err (close_failed n) m) = refl
deleted_reply-trace st (err (duplicate_id id) m) = refl
deleted_reply-trace st (err shell_not_found m) = refl
deleted_reply-trace st diverged = refl

module _ (net : NetIp) (close : ℕ → Closing) where
  -- The states that requests lead to, one after the other.
  pub data Serves : ApiState → Type 0 where
    begins : Serves (record { manager = new_shell_manager; trace = [] })
    create_request :
        {st : ApiState} (id : Given Text) (started : Given (Unit {0}))
        → Serves st
        → Serves (handle_create_shell close id started st).1
    delete_request :
        {st : ApiState} (q : ApiRequest) → Serves st → Serves (handle_delete_shell close q st).1
    execute_request :
        {st : ApiState} (execute : ℕ → Text → Option Execution) (q : ApiRequest)
        → Serves st
        → Serves (handle_execute net execute q st).1

  handle_delete_shell-trace :
      (q : ApiRequest) (st : ApiState) → (handle_delete_shell close q st).1.trace ≡ st.trace
  unfolding handle_delete_shell
  handle_delete_shell-trace q st = elim (Bool-cases (is_empty q.shell_id)) [
    | inl missing ↦ rw (missing, handle_delete_shell) refl
    | inr named ↦
        rw (named, handle_delete_shell)
          (deleted_reply-trace st (delete_shell close q.shell_id st.manager))
  ]

  -- Whatever requests come one after the other, and whatever their executions return: each command
  -- that a shell was given stands in the trace directly behind an entry of the audit log with that
  -- command, its classification and no exit code.
  pub Serves-IsAudited : {st : ApiState} → Serves st → IsAudited none st.trace
  unfolding handle_create_shell
  Serves-IsAudited begins = tt
  Serves-IsAudited (create_request {st} id started s) =
      subst (IsAudited none) (sym (created_reply-trace st (create close id started st.manager)))
        (Serves-IsAudited s)
  Serves-IsAudited (delete_request {st} q s) =
      subst (IsAudited none) (sym (handle_delete_shell-trace q st)) (Serves-IsAudited s)
  Serves-IsAudited (execute_request {st} execute q s) =
      handle_execute-IsAudited net execute q st (Serves-IsAudited s)
