-- ===== src/Runner/Main.antt =====
-- runner/main.go: the life of the process, from its listener to its shutdown.
pub mod Stops
use bunshin.Prelude.{
  ℕ, List, Bool, true, false, not, ◌&&◌, [], ◌∷◌, ◌++◌, Option, none, some, is_empty, if◌then◌else◌,
}
use bunshin.Text.{Text, lit}
use bunshin.Outcome.{Outcome, Act, ok, err, diverged}
use bunshin.Runner.Manager.{
  ManagerError, ShellManager, Closing, ShellRequest, new_shell_manager, close_all, serve_requests,
}
use bunshin.Runner.Identity.{
  Identity, IdentityDeps, IdentityError, value, failure, Result, resolve_identity,
}
use bunshin.Runner.Registration.{
  PostRequest, RegisterDeps, Cancelled, register, DeregisterDeps, DeregisterError, deregister,
}

-- The goroutine of the supervisor: not started, running, told to stop, or waited for.
pub data Goroutine : Type 0 where
  not_started going told finished : Goroutine

-- The process, with the world outside as `W`.
pub record Process (W : Type 0) : Type 0 where
  pub world : W
  pub listening : Bool
  pub supervisor : Goroutine
  pub manager : ShellManager

pub data MainError : Type 0 where
  listen_failed serve_failed shutdown_failed : ℕ → MainError
  identity_failed : IdentityError → MainError
  missing_broker_url : MainError
  register_failed : Cancelled → MainError
  cleanup_failed : ManagerError → MainError

-- What the select of run sees: an error of Serve, or a signal.
pub data Seen : Type 0 where
  serve_error : ℕ → Seen
  signalled : Seen

-- The time in which run serves: what its select sees, with the world by then and the shells when
-- CloseAll takes the map.
pub record Served (W : Type 0) : Type 0 where
  pub seen : Seen
  pub world : W
  pub manager : ShellManager

-- serverConfig, and what the calls of run return: deregistration of the broker on `W`, Shutdown, the
-- closing of a shell, and whether the supervisor ends once it was told. `late` are the requests that a
-- Shutdown that failed has not waited for, with what they do behind CloseAll.
pub record ServerConfig (W : Type 0) : Type 0 where
  pub broker_url : Text
  pub runner_id : Text
  pub can_request : Text → Bool
  pub http_do : Text → W → Option ℕ × W
  pub shutdown : Option ℕ
  pub close : ℕ → Closing
  pub supervisor_ends : Bool
  pub late : List ShellRequest

abbrev pub outcome_state : {W E A : Type 0} → W → Outcome W E A → W
outcome_state w (ok a w') = w'
outcome_state w (err e w') = w'
outcome_state w diverged = w

-- `<-supDone`: it waits for ever for a goroutine that was not told to stop, or does not end.
unfoldable pub wait_supervisor :
    {W : Type 0}
    → Bool
    → Goroutine
    → Option MainError
    → Process W
    → Outcome (Process W) MainError (Unit {0})
wait_supervisor true told none p = ok tt (record p { supervisor = finished })
wait_supervisor true told (some e) p = err e (record p { supervisor = finished })
wait_supervisor _ _ result p = diverged

abbrev pub first_of : Option MainError → Option MainError → Option MainError
first_of none second = second
first_of (some e) second = some e

abbrev pub shutdown_error : Option ℕ → Option MainError
shutdown_error none = none
shutdown_error (some n) = some (shutdown_failed n)

module _ {W : Type 0} (cfg : ServerConfig W) where
  -- The deregistration, whose error is only logged.
  unfoldable pub take_off : W → W
  take_off w =
      if not (is_empty cfg.broker_url) && not (is_empty cfg.runner_id)
      then outcome_state w (
          deregister
            (record {
              broker_url = cfg.broker_url;
              runner_id = cfg.runner_id;
              can_request = cfg.can_request;
              http_do = cfg.http_do;
            })
            w)
      else w

  -- The shells when run returns.
  abbrev pub with_late : Option ℕ → ShellManager → ShellManager
  with_late none m = m
  with_late (some e) m = serve_requests cfg.close cfg.late m

  -- The process after the shutdown behind a signal, from the shells that CloseAll has left; Shutdown
  -- closes the listener.
  abbrev pub stopped_process : Process W → ShellManager → Process W
  stopped_process p m = record {
    world = take_off p.world;
    listening = false;
    supervisor = told;
    manager = with_late cfg.shutdown m;
  }

  -- The end of run, from what CloseAll does.
  abbrev pub closed_all :
      Process W
      → Outcome ShellManager ManagerError (Option (Unit {0}))
      → Outcome (Process W) MainError (Unit {0})
  closed_all p (ok none m) = diverged
  closed_all p (ok (some _) m) =
      wait_supervisor cfg.supervisor_ends told (shutdown_error cfg.shutdown) (stopped_process p m)
  closed_all p (err e m) =
      wait_supervisor cfg.supervisor_ends told
        (first_of (shutdown_error cfg.shutdown) (some (cleanup_failed e))) (stopped_process p m)
  closed_all p diverged = diverged

  unfoldable pub shut_down : Process W → Outcome (Process W) MainError (Unit {0})
  unfolding wait_supervisor
  shut_down p = closed_all p (close_all cfg.close p.manager)

  -- The branches of the select; Serve closes the listener when it returns.
  unfoldable pub select_seen : Seen → Process W → Outcome (Process W) MainError (Unit {0})
  unfolding shut_down wait_supervisor
  select_seen (serve_error e) p =
      wait_supervisor cfg.supervisor_ends told (some (serve_failed e))
        (record p { listening = false; supervisor = told })
  select_seen signalled p = shut_down p

  abbrev pub serving_process : Served W → Process W
  serving_process served = record {
    world = served.world;
    listening = true;
    supervisor = going;
    manager = served.manager;
  }

  -- run, with the time in which it serves.
  unfoldable pub run : Served W → Outcome (Process W) MainError (Unit {0})
  unfolding select_seen
  run served = select_seen served.seen (serving_process served)

-- What start calls: net.Listen, the identity's dependencies, the environment and the registration.
pub record StartDeps (W : Type 0) : Type 0 where
  pub listen_error : Option ℕ
  pub identity_deps : IdentityDeps
  pub broker_url : Text
  pub http_post : PostRequest → W → Option ℕ × W
  pub wait : W → Bool × W
  pub can_request : Text → Bool
  pub http_do : Text → W → Option ℕ × W
  pub shutdown : Option ℕ
  pub close : ℕ → Closing
  pub supervisor_ends : Bool
  pub late : List ShellRequest

module _ {W : Type 0} (deps : StartDeps W) where
  abbrev pub register_deps : Identity → RegisterDeps W
  register_deps identity = record {
    broker_url = deps.broker_url;
    identity = identity;
    http_post = deps.http_post;
    wait = deps.wait;
  }

  abbrev pub server_config : Identity → ServerConfig W
  server_config identity = record {
    broker_url = deps.broker_url;
    runner_id = identity.runner_id;
    can_request = deps.can_request;
    http_do = deps.http_do;
    shutdown = deps.shutdown;
    close = deps.close;
    supervisor_ends = deps.supervisor_ends;
    late = deps.late;
  }

  -- The process before and after net.Listen, and ln.Close().
  abbrev pub not_opened : W → Process W
  not_opened w = record {
    world = w;
    listening = false;
    supervisor = not_started;
    manager = new_shell_manager;
  }

  abbrev pub opened : W → Process W
  opened w = record (not_opened w) { listening = true }

  abbrev pub close_listener : Process W → Process W
  close_listener p = record p { listening = false }

  -- start behind the registration.
  unfoldable pub registered :
      (W → Served W)
      → Identity
      → Outcome W Cancelled (Unit {0})
      → Outcome (Process W) MainError (Unit {0})
  registered serve identity diverged = diverged
  registered serve identity (err e w) = err (register_failed e) (close_listener (opened w))
  registered serve identity (ok _ w) = run (server_config identity) (serve w)

  -- start behind the identity, with fuel for the rounds of the registration.
  unfoldable pub identified :
      ℕ → (W → Served W) → Result Identity → W → Outcome (Process W) MainError (Unit {0})
  unfolding registered
  identified fuel serve (failure e) w = err (identity_failed e) (close_listener (opened w))
  identified fuel serve (value identity) w =
      if is_empty deps.broker_url
      then err missing_broker_url (close_listener (opened w))
      else registered serve identity (register (register_deps identity) fuel w)

  unfoldable pub start : ℕ → (W → Served W) → W → Outcome (Process W) MainError (Unit {0})
  unfolding identified
  start fuel serve w = elim deps.listen_error [
    | some e ↦ err (listen_failed e) (not_opened w)
    | none ↦ identified fuel serve (resolve_identity deps.identity_deps) w
  ]

-- main: whether it ends in fatalf, with the address for start.
pub data MainExit : Type 0 where
  missing_port : MainExit
  started : Text → MainExit

unfoldable pub main : Text → MainExit
main port = if is_empty port then missing_port else started (b':' ∷ port)
