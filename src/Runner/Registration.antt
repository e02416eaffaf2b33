-- ===== src/Runner/Registration.antt =====
-- runner/register.go: the runner registers with the broker, and takes itself off again.
pub mod Retry
pub mod Channel
pub mod Pool
pub mod Leaves
use bunshin.Prelude.{ℕ, zero, suc, Bool, true, false, ◌++◌, Option, none, some, ◌==◌, if◌then◌else◌}
use bunshin.Text.{Text, lit}
use bunshin.Outcome.{Outcome, Act, ok, err, diverged}
use bunshin.Runner.Identity.{Identity}

pub record RegisterRequest : Type 0 where
  pub runner_id : Text
  pub private_host : Text

-- The arguments of httpPost, with the body before it is made JSON.
pub record PostRequest : Type 0 where
  pub url : Text
  pub content_type : Text
  pub body : RegisterRequest

-- The error of a context that is done.
pub data Cancelled : Type 0 where
  cancelled : Cancelled

-- registerDeps on the world `W`. `http_post` gives the status, or none for an error; `wait` is the
-- select after it, and gives true if the timer fired and false if the context was done.
pub record RegisterDeps (W : Type 0) : Type 0 where
  pub broker_url : Text
  pub identity : Identity
  pub http_post : PostRequest → W → Option ℕ × W
  pub wait : W → Bool × W

abbrev pub is_created : Option ℕ → Bool
is_created none = false
is_created (some status) = status == 201

module _ {W : Type 0} (deps : RegisterDeps W) where
  abbrev pub register_post : PostRequest
  register_post = record {
    url = deps.broker_url ++ lit "/internal/runners/register";
    content_type = lit "application/json";
    body = record {
      runner_id = deps.identity.runner_id;
      private_host = deps.identity.private_host;
    };
  }

  -- register, with fuel for the rounds of its loop.
  unfoldable pub register : ℕ → Act W Cancelled (Unit {0})
  register zero w = diverged
  register (suc fuel) w =
      let (status, w₁) = deps.http_post register_post w in
      elim (is_created status) [
        | true ↦ ok tt w₁
        | false ↦
            let (fired, w₂) = deps.wait w₁ in
            elim fired [ true ↦ register fuel w₂ | false ↦ err cancelled w₂ ]
      ]

-- What deregister returns as an error.
pub data DeregisterError : Type 0 where
  create_failed request_failed : DeregisterError
  unexpected_status : ℕ → DeregisterError

-- deregisterDeps on the world `W`; `can_request` is whether NewRequestWithContext takes the URL, and
-- `http_do` sends a DELETE to it.
pub record DeregisterDeps (W : Type 0) : Type 0 where
  pub broker_url : Text
  pub runner_id : Text
  pub can_request : Text → Bool
  pub http_do : Text → W → Option ℕ × W

unfoldable pub status_result : {W : Type 0} → Option ℕ → Act W DeregisterError (Unit {0})
status_result none w = err request_failed w
status_result (some status) w = if status == 204 then ok tt w else err (unexpected_status status) w

send_delete : {W : Type 0} → DeregisterDeps W → Text → Act W DeregisterError (Unit {0})
unfolding status_result
send_delete deps url w = let (status, w') = deps.http_do url w in status_result status w'

unfoldable pub deregister : {W : Type 0} → DeregisterDeps W → Act W DeregisterError (Unit {0})
unfolding send_delete
deregister deps w =
    let url = deps.broker_url ++ (lit "/internal/runners/" ++ deps.runner_id) in
    if deps.can_request url then send_delete deps url w else err create_failed w
