-- ===== src/Broker/Handler.antt =====
-- broker/handler: the HTTP handlers over the Service interface, and the middleware before them.
pub mod Fallback
pub mod Ring
pub mod Replies
pub mod Requests
pub mod Sessions
use bunshin.Prelude.{
  ℕ, Bool, true, false, ◌&&◌, ◌||◌, not, List, [], ◌∷◌, ◌++◌, Option, none, some, is_empty, all,
  leb, ◌==◌, length, if◌then◌else◌,
}
use bunshin.Text.{Text, lit, cut, join}
use bunshin.Outcome.{Outcome, Act, ok, err, diverged}
use bunshin.Broker.Model.{Runner}
use bunshin.Broker.Store.{StoreError, conflict, is_hex}
use bunshin.Broker.Stacklist.{split_names}
use bunshin.Broker.Http.{
  Body, Cookie, ErrorResponse, Reply, Request, busy_body, code_internal_error, code_invalid_request,
  code_no_idle_runner, code_runner_conflict, code_session_not_found, error_body,
  fallback_remaining_header, fallback_stack_header, just_status, no_body, reassigned_header,
  runner_host_header, session_hex_header, stack_name_header, write_error,
}
use bunshin.Broker.Service.{
  ResolveResult, LookupResult, ServiceError, store, delete_unhealthy, wraps_not_found,
  wraps_no_idle_runner,
}

-- service.Service.
pub record Service (W : Type 0) : Type 0 where
  pub close_session : Text → Act W ServiceError (Unit {0})
  pub resolve_session : Text → Act W ServiceError ResolveResult
  pub lookup_session : Text → Act W ServiceError LookupResult
  pub register_runner : Text → Text → Act W ServiceError (Unit {0})
  pub deregister_runner : Text → Act W ServiceError (Unit {0})
  pub list_busy_runners : Act W ServiceError (List Runner)

-- Handler without its service.
pub record Handler : Type 0 where
  pub fallback_stacks : List Text
  pub stack_self : Text

-- NewHandler; `none` is its panic.
abbrev pub new_handler : List Text → Text → Option Handler
new_handler stacks [] = none
new_handler stacks (c ∷ self) = some (record { fallback_stacks = stacks; stack_self = c ∷ self })

-- The result of a handler that always replies, unless the service does not end.
abbrev pub Handles : Type 0 → Type 0
Handles W = Act W ⊥ Reply

-- The host regexp ^[A-Za-z0-9.-]+$.
abbrev pub is_host_char : ℕ → Bool
is_host_char c =
    (leb b'A' c && leb c b'Z')
    || (leb b'a' c && leb c b'z')
    || (leb b'0' c && leb c b'9')
    || c == b'.'
    || c == b'-'

-- validateRunnerHost; `some` is its error.
unfoldable pub validate_runner_host : Text → Option Text
validate_runner_host host =
    if is_empty host
    then some (lit "host is required")
    else if not (not (is_empty host) && all is_host_char host)
    then some (lit "host must be hostname-style")
    else none

-- The regexp ^[0-9a-f]{32}$ of session hexes.
abbrev pub is_session_hex : Text → Bool
is_session_hex label = length label == 32 && all is_hex label

abbrev pub hex_label : Option (Text × Text) → Option Text
hex_label none = none
hex_label (some (label, rest)) = if is_session_hex label then some label else none

-- extractSessionHex.
unfoldable pub extract_session_hex : Text → Option Text
extract_session_hex host = hex_label (cut b'.' host)

-- The pool from which signalFallback takes the next stack.
unfoldable pub fallback_pool : Handler → Request → List Text
fallback_pool h q =
    if is_empty q.fallback_stack then h.fallback_stacks else split_names q.fallback_remaining

-- The headers that signalFallback sets for a pool.
unfoldable pub fallback_headers : List Text → List (Text × Text)
fallback_headers [] = []
fallback_headers (first ∷ []) = (fallback_stack_header, first) ∷ []
fallback_headers (first ∷ second ∷ pool) =
    (fallback_stack_header, first) ∷ (fallback_remaining_header, join b',' (second ∷ pool)) ∷ []

-- signalFallback.
unfoldable pub signal_fallback : Handler → Request → List (Text × Text)
unfolding fallback_pool fallback_headers
signal_fallback h q = fallback_headers (fallback_pool h q)

-- The headers and the cookie that GetResolveSession writes for a result.
abbrev pub resolved_headers : Handler → ResolveResult → List (Text × Text)
resolved_headers h r =
    (if r.reassigned then (reassigned_header, lit "true") ∷ [] else [])
    ++ ((session_hex_header, r.session_hex)
        ∷ (stack_name_header, h.stack_self)
        ∷ (runner_host_header, r.runner_host)
        ∷ [])

abbrev pub session_cookie_of : ResolveResult → Option Cookie
session_cookie_of r =
    if r.created
    then some
        (record { value = r.session_id; secure = true; http_only = true; same_site_strict = true })
    else none

-- What GetResolveSession replies to a result and to an error.
abbrev pub resolved_reply : Handler → ResolveResult → Reply
resolved_reply h r = record {
  status = 200;
  headers = resolved_headers h r;
  cookie = session_cookie_of r;
  body = no_body;
}

abbrev pub resolve_failed : Handler → Request → ServiceError → Reply
resolve_failed h q e =
    if wraps_no_idle_runner e
    then write_error q (signal_fallback h q) 503 code_no_idle_runner
        (lit "no idle runner available")
    else write_error q [] 500 code_internal_error (lit "failed to resolve session")

-- What DeleteSession and GetResolveApp reply to errors, and GetResolveApp to a result.
abbrev pub close_failed : Request → ServiceError → Reply
close_failed q e =
    if wraps_not_found e
    then write_error q [] 404 code_session_not_found (lit "session not found")
    else write_error q [] 500 code_internal_error (lit "failed to close session")

abbrev pub lookup_failed : Request → ServiceError → Reply
lookup_failed q e =
    if wraps_not_found e
    then write_error q [] 404 code_session_not_found (lit "session not found")
    else write_error q [] 500 code_internal_error (lit "failed to look up session")

abbrev pub found_app : LookupResult → Reply
found_app r = record {
  status = 200;
  headers = (runner_host_header, r.runner_host) ∷ [];
  cookie = none;
  body = no_body;
}

-- errors.Is(err, ErrConflict).
abbrev pub wraps_conflict : ServiceError → Bool
wraps_conflict (store conflict) = true
wraps_conflict (delete_unhealthy id conflict) = true
wraps_conflict _ = false

-- What PostRegister replies to an error of the service.
abbrev pub register_failed : Request → ServiceError → Reply
register_failed q e =
    if wraps_conflict e
    then write_error q [] 409 code_runner_conflict
        (lit "runner already registered with different attributes")
    else write_error q [] 500 code_internal_error (lit "failed to register runner")

abbrev pub runner_ids : List Runner → List Text
runner_ids [] = []
runner_ids (r ∷ runners) = r.runner_id ∷ runner_ids runners

module _ {W : Type 0} (h : Handler) (svc : Service W) where
  -- DeleteSession.
  unfoldable pub delete_session : Request → Handles W
  delete_session q w = elim (svc.close_session q.param w) [
    | ok _ w' ↦ ok (just_status 204) w'
    | diverged ↦ diverged
    | err e w' ↦ ok (close_failed q e) w'
  ]

  -- GetResolveSession.
  unfoldable pub get_resolve_session : Request → Handles W
  get_resolve_session q w = elim (svc.resolve_session q.session_cookie w) [
    | diverged ↦ diverged
    | err e w' ↦ ok (resolve_failed h q e) w'
    | ok r w' ↦ ok (resolved_reply h r) w'
  ]

  -- The part of GetResolveApp behind the check of the host.
  unfoldable pub look_up_app : Request → Option Text → Handles W
  look_up_app q none w =
      ok
        (write_error q [] 400 code_invalid_request
          (lit "Host must start with 32 lowercase hex characters followed by a dot"))
        w
  look_up_app q (some hex) w = elim (svc.lookup_session hex w) [
    | diverged ↦ diverged
    | ok r w' ↦ ok (found_app r) w'
    | err e w' ↦ ok (lookup_failed q e) w'
  ]

  -- GetResolveApp.
  unfoldable pub get_resolve_app : Request → Handles W
  get_resolve_app q = look_up_app q (extract_session_hex q.host)

  -- The call of RegisterRunner with its errors.
  unfoldable pub register_checked : Request → Text → Text → Option Text → Handles W
  register_checked q runner_id private_host (some why) w =
      ok (write_error q [] 400 code_invalid_request (lit "invalid privateHost: " ++ why)) w
  register_checked q runner_id private_host none w =
      elim (svc.register_runner runner_id private_host w) [
        | ok _ w' ↦ ok (just_status 201) w'
        | diverged ↦ diverged
        | err e w' ↦ ok (register_failed q e) w'
      ]

  unfoldable pub register_bound : Request → Option (Text × Text) → Handles W
  register_bound q none w =
      ok (write_error q [] 400 code_invalid_request (lit "invalid request body")) w
  register_bound q (some (runner_id, private_host)) w =
      register_checked q runner_id private_host (validate_runner_host private_host) w

  -- PostRegister.
  unfoldable pub post_register : Request → Handles W
  post_register q = register_bound q q.register_body

  -- DeleteRunner.
  unfoldable pub delete_runner : Request → Handles W
  delete_runner q w = elim (svc.deregister_runner q.param w) [
    | ok _ w' ↦ ok (just_status 204) w'
    | diverged ↦ diverged
    | err e w' ↦
        ok (write_error q [] 500 code_internal_error (lit "failed to deregister runner")) w'
  ]

  -- GetListBusyRunners.
  unfoldable pub get_list_busy_runners : Request → Handles W
  get_list_busy_runners q w = elim (svc.list_busy_runners w) [
    | ok runners w' ↦
        ok
          (record {
            status = 200;
            headers = [];
            cookie = none;
            body = busy_body (runner_ids runners);
          })
          w'
    | diverged ↦ diverged
    | err e w' ↦
        ok (write_error q [] 500 code_internal_error (lit "failed to list busy runners")) w'
  ]

-- The handler that RequestIDMiddleware returns, before the handlers behind it.
unfoldable pub request_id_middleware :
    {W : Type 0} → Act W ℕ Text → (Request → Handles W) → Request → Handles W
request_id_middleware id_fn next q w = elim (id_fn w) [
  | err e w' ↦ ok (just_status 500) w'
  | diverged ↦ diverged
  | ok id w' ↦ elim (next (record q { request_id = id }) w') [
    | ok r w'' ↦ ok (record r { headers = (lit "X-Request-Id", id) ∷ r.headers }) w''
    | err e w'' ↦ absurd e
    | diverged ↦ diverged
  ]
]
