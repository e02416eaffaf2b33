-- ===== src/Broker/Main.antt =====
-- broker/main.go: the routes, the parts of the broker from its environment, and its life.
pub mod Starts
use bunshin.Prelude.{ℕ, Bool, true, false, List, [], ◌∷◌, ◌++◌, Option, none, some, if◌then◌else◌}
use bunshin.Text.{Text, lit}
use bunshin.Text.Numbers.{ℤ, pos}
use bunshin.Outcome.{Act, Outcome, ok, err, diverged}
use bunshin.Broker.Config.{
  StackConfig, ConfigError, Setting, configured, refused, new_stack_from_env,
  new_runner_api_port_from_env,
}
use bunshin.Broker.Config.Backends.{
  Backend, dynamo_backend, firestore_backend, new_repository_from_env,
}
use bunshin.Broker.HealthCheck.{NewChecker, http_checker, panics, new_http_checker}
use bunshin.Broker.Http.{Request, Reply, just_status}
use bunshin.Broker.Handler.{
  Handler, Handles, Service, delete_session, get_resolve_session, get_resolve_app, post_register,
  delete_runner, get_list_busy_runners, request_id_middleware,
}

pub data Endpoint : Type 0 where
  health sessions_delete resolve_session resolve_app runners_register runners_delete runners_busy :
      Endpoint

pub record Route : Type 0 where
  pub method : Text
  pub path : Text
  pub endpoint : Endpoint

abbrev route : Text → Text → Endpoint → Route
route method path endpoint = record { method = method; path = path; endpoint = endpoint }

-- The routes of newRouter, for a handler that is nil or not.
unfoldable pub new_router : Bool → List Route
new_router has_handler =
    route (lit "GET") (lit "/health") health
    ∷ (if has_handler
        then route (lit "DELETE") (lit "/sessions/:sessionId") sessions_delete
          ∷ route (lit "GET") (lit "/resolve/session") resolve_session
          ∷ route (lit "GET") (lit "/resolve/app") resolve_app
          ∷ route (lit "POST") (lit "/internal/runners/register") runners_register
          ∷ route (lit "DELETE") (lit "/internal/runners/:runnerId") runners_delete
          ∷ route (lit "GET") (lit "/runners/busy") runners_busy
          ∷ []
        else [])

-- The handler of an endpoint, behind the middleware that r.Use has put before all but the first.
unfoldable pub serve_endpoint :
    {W : Type 0} → Handler → Service W → Act W ℕ Text → Endpoint → Request → Handles W
serve_endpoint h svc id_fn health q w = ok (just_status 200) w
serve_endpoint h svc id_fn sessions_delete q w =
    request_id_middleware id_fn (delete_session h svc) q w
serve_endpoint h svc id_fn resolve_session q w =
    request_id_middleware id_fn (get_resolve_session h svc) q w
serve_endpoint h svc id_fn resolve_app q w = request_id_middleware id_fn (get_resolve_app h svc) q w
serve_endpoint h svc id_fn runners_register q w =
    request_id_middleware id_fn (post_register h svc) q w
serve_endpoint h svc id_fn runners_delete q w =
    request_id_middleware id_fn (delete_runner h svc) q w
serve_endpoint h svc id_fn runners_busy q w =
    request_id_middleware id_fn (get_list_busy_runners h svc) q w

-- What defaultInitHandler puts together: the handler's settings, the backend, the health checker, and
-- whether the repository is an io.Closer.
pub record Parts : Type 0 where
  pub stack : StackConfig
  pub backend : Backend
  pub checker : ℕ
  pub has_closer : Bool

pub data Init : Type 0 where
  ready : Parts → Init
  failed : ConfigError → Init
  panicked : Text → Init

-- repoCloser: the repository of Firestore is an io.Closer, that of DynamoDB is not.
abbrev pub repo_closer : Backend → Bool
repo_closer (dynamo_backend cfg) = false
repo_closer (firestore_backend project database) = true

with_checker : StackConfig → Backend → NewChecker → Init
with_checker stack backend (panics why) = panicked why
with_checker stack backend (http_checker port) =
    ready (record {
      stack = stack;
      backend = backend;
      checker = port;
      has_closer = repo_closer backend;
    })

with_repository : StackConfig → ℕ → Setting Backend → Init
unfolding with_checker
with_repository stack port (refused e) = failed e
with_repository stack port (configured backend) =
    with_checker stack backend (new_http_checker true (pos port))

with_port : (Text → Text) → StackConfig → Setting ℕ → Init
unfolding with_repository
with_port env stack (refused e) = failed e
with_port env stack (configured port) = with_repository stack port (new_repository_from_env env)

with_stack : (Text → Text) → Setting StackConfig → Init
unfolding with_port
with_stack env (refused e) = failed e
with_stack env (configured stack) =
    with_port env stack (new_runner_api_port_from_env (env (lit "RUNNER_API_PORT")))

-- defaultInitHandler, from the environment.
unfoldable pub default_init_handler : (Text → Text) → Init
unfolding with_stack
default_init_handler env =
    with_stack env (new_stack_from_env (env (lit "STACK_NAME")) (env (lit "BUNSHIN_STACKS")))

-- What the select of run sees.
pub data Seen : Type 0 where
  listen_error : ℕ → Seen
  signalled : Seen

pub data RunError : Type 0 where
  init_failed : ConfigError → RunError
  serve_failed shutdown_failed : ℕ → RunError

-- What run returns, with the resources that it leaves open.
pub record Ran : Type 0 where
  pub error : Option RunError
  pub serving : Bool
  pub repository_open : Bool

abbrev pub shutdown_error : Option ℕ → Option RunError
shutdown_error none = none
shutdown_error (some n) = some (shutdown_failed n)

-- The select of run; ListenAndServe and Shutdown close the listener.
abbrev pub select_seen : Seen → Option ℕ → Ran
select_seen (listen_error e) shutdown = record {
  error = some (serve_failed e);
  serving = false;
  repository_open = true;
}
select_seen signalled shutdown = record {
  error = shutdown_error shutdown;
  serving = false;
  repository_open = true;
}

-- The deferred Close of the repository, whose error is only printed.
abbrev pub close_repository : Ran → Ran
close_repository r = record r { repository_open = false }

-- run; none is a panic.
unfoldable pub run : Init → Seen → Option ℕ → Option Ran
run (failed e) seen shutdown =
    some (record { error = some (init_failed e); serving = false; repository_open = false })
run (panicked why) seen shutdown = none
run (ready parts) seen shutdown = some (close_repository (select_seen seen shutdown))
