-- ===== src/Runner/Main/Stops.antt =====
-- What a process leaves behind when start returns, and when a signal stops it.
use bunshin.Prelude.{
  ℕ, ◌⊎◌, Bool, true, false, [], Option, none, some, ◌≡◌, refl, inl, inr, Bool-cases, Option-cases,
  is_empty,
}
use bunshin.Outcome.{Outcome, ok, err, diverged}
use bunshin.Runner.Manager.{ShellManager, ManagerError, never_closes, close_all}
use bunshin.Runner.Manager.Counts.{times_in}
use bunshin.Runner.Identity.{Identity, Result, value, failure, resolve_identity}
use bunshin.Runner.Registration.{Cancelled, register}
use bunshin.Runner.Main.{
  Goroutine, not_started, going, told, finished, Process, MainError, Seen, serve_error, signalled,
  Served, ServerConfig, serve_failed, cleanup_failed, first_of, shutdown_error, closed_all,
  wait_supervisor, take_off, stopped_process, serving_process, shut_down, select_seen, run,
  StartDeps, register_deps, server_config, registered, identified, start,
}

-- The supervisor does not run.
abbrev pub IsIdle : Goroutine → Type 0
IsIdle not_started = Unit
IsIdle going = ⊥
IsIdle told = ⊥
IsIdle finished = Unit

-- No listener is open and no supervisor runs, if the call returns.
abbrev pub LeavesNone : {W : Type 0} → Outcome (Process W) MainError (Unit {0}) → Type 0
LeavesNone (ok _ p) = (p.listening ≡ false) × IsIdle p.supervisor
LeavesNone (err e p) = (p.listening ≡ false) × IsIdle p.supervisor
LeavesNone diverged = Unit

wait-LeavesNone :
    {W : Type 0} (ends : Bool) (g : Goroutine) (result : Option MainError) (p : Process W)
    → p.listening ≡ false
    → LeavesNone (wait_supervisor ends g result p)
unfolding wait_supervisor
wait-LeavesNone true told none p closed = (closed, tt)
wait-LeavesNone true told (some e) p closed = (closed, tt)
wait-LeavesNone _ _ result p closed = tt

module _ {W : Type 0} (cfg : ServerConfig W) where
  closed_all-LeavesNone :
      (p : Process W) (o : Outcome ShellManager ManagerError (Option (Unit {0})))
      → LeavesNone (closed_all cfg p o)
  closed_all-LeavesNone p (ok none m) = tt
  closed_all-LeavesNone p (ok (some _) m) =
      wait-LeavesNone cfg.supervisor_ends told (shutdown_error cfg.shutdown)
        (stopped_process cfg p m) refl
  closed_all-LeavesNone p (err e m) =
      wait-LeavesNone cfg.supervisor_ends told
        (first_of (shutdown_error cfg.shutdown) (some (cleanup_failed e))) (stopped_process cfg p m)
        refl
  closed_all-LeavesNone p diverged = tt

  select-LeavesNone : (seen : Seen) (p : Process W) → LeavesNone (select_seen cfg seen p)
  unfolding select_seen shut_down
  select-LeavesNone (serve_error e) p =
      wait-LeavesNone cfg.supervisor_ends told (some (serve_failed e))
        (record p { listening = false; supervisor = told }) refl
  select-LeavesNone signalled p = closed_all-LeavesNone p (close_all cfg.close p.manager)

  -- The process that a run behind a signal leaves: the shell `n` is closed, the broker was told, and
  -- the map is empty unless Shutdown has left requests.
  abbrev pub IsStopped : ℕ → Served W → Process W → Type 0
  IsStopped n served p =
      (times_in n p.manager.closed ≡ 1)
      × (p.world ≡ take_off cfg served.world)
      × (cfg.shutdown ≡ none → p.manager.shells ≡ [])

  -- What a run that a signal stopped comes to: it returns, or it has a reason not to.
  abbrev pub Closes : ℕ → Served W → Outcome (Process W) MainError (Unit {0}) → Type 0
  Closes n served (ok _ p) = IsStopped n served p
  Closes n served (err e p) = IsStopped n served p
  Closes n served diverged =
      (cfg.supervisor_ends ≡ false) ⊎ ((k : ℕ) × (cfg.close k ≡ never_closes))

module _ {W : Type 0} (deps : StartDeps W) where
  registered-LeavesNone :
      (serve : W → Served W) (identity : Identity) (o : Outcome W Cancelled (Unit {0}))
      → LeavesNone (registered deps serve identity o)
  unfolding registered run
  registered-LeavesNone serve identity diverged = tt
  registered-LeavesNone serve identity (err e w) = (refl, tt)
  registered-LeavesNone serve identity (ok a w) =
      select-LeavesNone (server_config deps identity) (serve w).seen
        (serving_process (server_config deps identity) (serve w))

  identified-LeavesNone :
      (fuel : ℕ) (serve : W → Served W) (r : Result Identity) (w : W)
      → LeavesNone (identified deps fuel serve r w)
  unfolding identified
  identified-LeavesNone fuel serve (failure e) w = (refl, tt)
  identified-LeavesNone fuel serve (value identity) w =
      elim (Bool-cases (is_empty deps.broker_url)) [
        | inl missing ↦ simp missing (refl, tt)
        | inr named ↦
            simp named
              (registered-LeavesNone serve identity (register (register_deps deps identity) fuel w))
      ]

  -- On every way out of start, its errors included, no listener is open and no supervisor runs.
  pub start-LeavesNone :
      (fuel : ℕ) (serve : W → Served W) (w : W) → LeavesNone (start deps fuel serve w)
  unfolding start
  start-LeavesNone fuel serve w = elim (Option-cases deps.listen_error) [
    | inl none_ ↦
        simp (none_, start)
          (identified-LeavesNone fuel serve (resolve_identity deps.identity_deps) w)
    | inr (e, failed) ↦ simp (failed, start) (refl, tt)
  ]
