-- ===== src/Broker/Main/Starts.antt =====
-- What the broker starts with, from its environment.
use bunshin.Prelude.{ℕ, ◌≤◌, true, some, ◌≡◌, refl, arith}
use bunshin.Text.{Text, lit, trim_space}
use bunshin.Text.Numbers.{pos, atoi}
use bunshin.Broker.Config.{
  StackConfig, Setting, configured, refused, new_stack_from_env, new_runner_api_port_from_env,
}
use bunshin.Broker.Config.Ports.{new_runner_api_port_from_env_iff}
use bunshin.Broker.Config.Backends.{
  Backend, new_repository_from_env, IsChosen, new_repository_from_env-IsChosen,
}
use bunshin.Broker.HealthCheck.{http_checker, new_http_checker}
use bunshin.Broker.Main.{
  Init, ready, failed, panicked, with_checker, with_repository, with_port, with_stack,
  default_init_handler,
}

module _ (env : Text → Text) where
  -- The parts are those that the variables ask for, the health checker's port among them.
  abbrev pub AsAsked : Init → Type 0
  AsAsked (ready parts) =
      (new_stack_from_env (env (lit "STACK_NAME")) (env (lit "BUNSHIN_STACKS"))
        ≡ configured parts.stack)
      × (atoi (trim_space (env (lit "RUNNER_API_PORT"))) ≡ some (pos parts.checker))
      × (1 ≤ parts.checker)
      × (parts.checker ≤ 65535)
      × IsChosen (trim_space (env (lit "BUNSHIN_STORE"))) parts.backend
  AsAsked (failed e) = Unit
  AsAsked (panicked why) = ⊥

  new_checker_lem : (n : ℕ) → 1 ≤ n → n ≤ 65535 → new_http_checker true (pos n) ≡ http_checker n
  unfolding new_http_checker
  new_checker_lem n low high = ground arith

  with_repository-AsAsked :
      (stack : StackConfig) (n : ℕ) (s : Setting Backend)
      → new_stack_from_env (env (lit "STACK_NAME")) (env (lit "BUNSHIN_STACKS")) ≡ configured stack
      → new_runner_api_port_from_env (env (lit "RUNNER_API_PORT")) ≡ configured n
      → new_repository_from_env env ≡ s
      → AsAsked (with_repository stack n s)
  unfolding with_repository with_checker
  with_repository-AsAsked stack n (refused e) own port repository = tt
  with_repository-AsAsked stack n (configured backend) own port repository =
      let (number, low, high) =
        (new_runner_api_port_from_env_iff (env (lit "RUNNER_API_PORT")) n).0 port in
      rw (new_checker_lem n low high)
        (own, number, low, high, new_repository_from_env-IsChosen env backend repository)

  with_port-AsAsked :
      (stack : StackConfig) (s : Setting ℕ)
      → new_stack_from_env (env (lit "STACK_NAME")) (env (lit "BUNSHIN_STACKS")) ≡ configured stack
      → new_runner_api_port_from_env (env (lit "RUNNER_API_PORT")) ≡ s
      → AsAsked (with_port env stack s)
  unfolding with_port
  with_port-AsAsked stack (refused e) own port = tt
  with_port-AsAsked stack (configured n) own port =
      with_repository-AsAsked stack n (new_repository_from_env env) own port refl

  with_stack-AsAsked :
      (s : Setting StackConfig)
      → new_stack_from_env (env (lit "STACK_NAME")) (env (lit "BUNSHIN_STACKS")) ≡ s
      → AsAsked (with_stack env s)
  unfolding with_stack
  with_stack-AsAsked (refused e) own = tt
  with_stack-AsAsked (configured stack) own =
      with_port-AsAsked stack (new_runner_api_port_from_env (env (lit "RUNNER_API_PORT"))) own refl

  -- Whatever the environment, defaultInitHandler does not panic in NewHTTPChecker, and when it
  -- succeeds, the stacks are those of STACK_NAME and BUNSHIN_STACKS, the health checker's port is the
  -- number of RUNNER_API_PORT, from 1 to 65535, and the backend is the one that BUNSHIN_STORE names,
  -- with all that it needs.
  pub default_init_handler-AsAsked : AsAsked (default_init_handler env)
  unfolding default_init_handler
  default_init_handler-AsAsked =
      with_stack-AsAsked (new_stack_from_env (env (lit "STACK_NAME")) (env (lit "BUNSHIN_STACKS")))
        refl
