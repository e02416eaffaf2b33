-- ===== src/Broker/Service.antt =====
-- broker/service/service.go: sessions and their runners, over a Repository and a health checker.
pub mod Create
pub mod Table
pub mod Sessions
pub mod Outcomes
pub mod Resolve
pub mod Guarantees
pub mod Names
use bunshin.Prelude.{
  ℕ, zero, suc, Bool, true, false, List, [], ◌∷◌, ◌++◌, Option, none, some, is_empty,
}
use bunshin.Text.{Text, lit, cut}
use bunshin.Outcome.{Outcome, Act, ok, err, diverged, ◌>>=◌}
use bunshin.Broker.Model.{Runner}
use bunshin.Broker.Store.{StoreError, not_found, no_idle_runner, Repository}

pub record ResolveResult : Type 0 where
  pub session_id : Text
  pub session_hex : Text
  pub runner_host : Text
  pub created : Bool
  pub reassigned : Bool

pub record LookupResult : Type 0 where
  pub runner_host : Text

pub record CreateSessionResult : Type 0 where
  pub session_id : Text
  pub session_hex : Text
  pub runner : Runner

-- The errors of the service, with what each wraps.
pub data ServiceError : Type 0 where
  store : StoreError → ServiceError
  session_fn_failed : ℕ → ServiceError
  context : ℕ → ServiceError
  delete_unhealthy : Text → StoreError → ServiceError
  missing_prefix : Text → ServiceError

-- errors.Is(err, ErrNotFound) and errors.Is(err, ErrNoIdleRunner) through the wrapping.
abbrev pub is_not_found : StoreError → Bool
is_not_found not_found = true
is_not_found _ = false

abbrev pub is_no_idle_runner : StoreError → Bool
is_no_idle_runner no_idle_runner = true
is_no_idle_runner _ = false

abbrev pub wraps_not_found : ServiceError → Bool
wraps_not_found (store e) = is_not_found e
wraps_not_found (delete_unhealthy id e) = is_not_found e
wraps_not_found _ = false

abbrev pub wraps_no_idle_runner : ServiceError → Bool
wraps_no_idle_runner (store e) = is_no_idle_runner e
wraps_no_idle_runner (delete_unhealthy id e) = is_no_idle_runner e
wraps_no_idle_runner _ = false

-- BrokerService without its repository: the stack prefix, the health checker, ctx.Err() and the
-- source of session ids.
pub record BrokerService (W : Type 0) : Type 0 where
  pub stack_prefix : Text
  pub check : Text → Act W ℕ (Unit {0})
  pub ctx_err : W → Option ℕ
  pub session_fn : Act W ℕ Text

abbrev pub session_id_separator : ℕ
session_id_separator = b'_'

abbrev lift_store : {W A : Type 0} → Outcome W StoreError A → Outcome W ServiceError A
lift_store (ok a w) = ok a w
lift_store (err e w) = err (store e) w
lift_store diverged = diverged

-- What ResolveSession returns for an outcome of createSession.
abbrev pub resolved :
    {W : Type 0}
    → Bool
    → Outcome W ServiceError CreateSessionResult
    → Outcome W ServiceError ResolveResult
resolved reassigned (ok result w) =
    ok
      (record {
        session_id = result.session_id;
        session_hex = result.session_hex;
        runner_host = result.runner.private_host;
        created = true;
        reassigned = reassigned;
      })
      w
resolved reassigned (err e w) = err e w
resolved reassigned diverged = diverged

-- splitNamespacedSessionID.
abbrev pub split_namespaced_session_id : Text → Option (Text × Text)
split_namespaced_session_id = cut session_id_separator

module _ {W : Type 0} (repo : Repository W) (s : BrokerService W) where
  abbrev pub namespaced_session_id : Text → Text
  namespaced_session_id hex = s.stack_prefix ++ (session_id_separator ∷ hex)

  -- The loop of createSession.
  unfoldable pub create_loop : ℕ → Text → Text → Act W ServiceError CreateSessionResult
  create_loop zero session_id hex w = diverged
  create_loop (suc fuel) session_id hex w = elim (repo.acquire_idle session_id w) [
    | err e w₁ ↦ err (store e) w₁
    | diverged ↦ diverged
    | ok runner w₁ ↦ elim (s.check runner.private_host w₁) [
      | ok _ w₂ ↦ ok (record { session_id = session_id; session_hex = hex; runner = runner }) w₂
      | diverged ↦ diverged
      | err e w₂ ↦ elim (s.ctx_err w₂) [
        | some c ↦ err (context c) w₂
        | none ↦ elim (repo.delete runner.runner_id w₂) [
          | err e' w₃ ↦ err (delete_unhealthy runner.runner_id e') w₃
          | diverged ↦ diverged
          | ok _ w₃ ↦ create_loop fuel session_id hex w₃
        ]
      ]
    ]
  ]

  unfoldable pub create_session : ℕ → Act W ServiceError CreateSessionResult
  create_session fuel w = elim (s.session_fn w) [
    | err e w₁ ↦ err (session_fn_failed e) w₁
    | diverged ↦ diverged
    | ok hex w₁ ↦ create_loop fuel (namespaced_session_id hex) hex w₁
  ]

  unfoldable pub close_session : Text → Act W ServiceError (Unit {0})
  close_session session_id w = elim (repo.find_by_session_id session_id w) [
    | err e w₁ ↦ err (store e) w₁
    | diverged ↦ diverged
    | ok runner w₁ ↦ lift_store (repo.delete runner.runner_id w₁)
  ]

  -- The end of ResolveSession, which makes a new session.
  unfoldable pub resolve_new : ℕ → Bool → Act W ServiceError ResolveResult
  resolve_new fuel reassigned w = resolved reassigned (create_session fuel w)

  -- The branch in which the session's runner is healthy.
  unfoldable pub resolve_found : Text → Runner → Act W ServiceError ResolveResult
  resolve_found session_id runner w = elim (split_namespaced_session_id session_id) [
    | none ↦ err (missing_prefix session_id) w
    | some (prefix, hex) ↦
        ok
          (record {
            session_id = session_id;
            session_hex = hex;
            runner_host = runner.private_host;
            created = false;
            reassigned = false;
          })
          w
  ]

  unfoldable pub resolve_existing : ℕ → Text → Act W ServiceError ResolveResult
  resolve_existing fuel session_id w = elim (repo.find_by_session_id session_id w) [
    | diverged ↦ diverged
    | err e w₁ ↦ elim (is_not_found e) [
      | true ↦ resolve_new fuel false w₁
      | false ↦ err (store e) w₁
    ]
    | ok runner w₁ ↦ elim (s.check runner.private_host w₁) [
      | ok _ w₂ ↦ resolve_found session_id runner w₂
      | diverged ↦ diverged
      | err e w₂ ↦ elim (s.ctx_err w₂) [
        | some c ↦ err (context c) w₂
        | none ↦ elim (repo.delete runner.runner_id w₂) [
          | err e' w₃ ↦ err (delete_unhealthy runner.runner_id e') w₃
          | diverged ↦ diverged
          | ok _ w₃ ↦ resolve_new fuel true w₃
        ]
      ]
    ]
  ]

  unfoldable pub resolve_session : ℕ → Text → Act W ServiceError ResolveResult
  resolve_session fuel session_id w = elim (is_empty session_id) [
    | true ↦ resolve_new fuel false w
    | false ↦ resolve_existing fuel session_id w
  ]

  unfoldable pub lookup_session : Text → Act W ServiceError LookupResult
  lookup_session hex w = elim (repo.find_by_session_id (namespaced_session_id hex) w) [
    | err e w₁ ↦ err (store e) w₁
    | diverged ↦ diverged
    | ok runner w₁ ↦ ok (record { runner_host = runner.private_host }) w₁
  ]

  unfoldable pub register_runner : Text → Text → Act W ServiceError (Unit {0})
  register_runner runner_id private_host w = lift_store (repo.register runner_id private_host w)

  unfoldable pub deregister_runner : Text → Act W ServiceError (Unit {0})
  deregister_runner runner_id w = lift_store (repo.delete runner_id w)

  unfoldable pub list_busy_runners : Act W ServiceError (List Runner)
  list_busy_runners w = lift_store (repo.list_busy_runners w)
