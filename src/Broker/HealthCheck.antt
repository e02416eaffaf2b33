-- ===== src/Broker/HealthCheck.antt =====
-- broker/healthcheck/checker.go: the health check of a runner.
pub mod Port
use bunshin.Prelude.{
  ℕ, zero, suc, ◌+◌, ◌/◌, ◌%◌, Bool, true, false, [], ◌∷◌, ◌++◌, Option, none, some, ltb, ◌==◌,
  ◌||◌, not, if◌then◌else◌,
}
use bunshin.Text.{Text, lit}
use bunshin.Text.Numbers.{ℤ, pos, negsuc}
use bunshin.Outcome.{Act, Outcome, ok, err, diverged}

-- What NewHTTPChecker does: a checker with its port, or a panic.
pub data NewChecker : Type 0 where
  http_checker : ℕ → NewChecker
  panics : Text → NewChecker

abbrev pub checker_of_port : ℤ → NewChecker
checker_of_port (negsuc n) = panics (lit "healthcheck: port must be between 1 and 65535")
checker_of_port (pos n) =
    if n == 0 || ltb 65535 n
    then panics (lit "healthcheck: port must be between 1 and 65535")
    else http_checker n

-- NewHTTPChecker, for a client that is nil or not.
unfoldable pub new_http_checker : Bool → ℤ → NewChecker
new_http_checker has_client port =
    if has_client then checker_of_port port else panics (lit "healthcheck: client must not be nil")

-- The decimal digits of a number before those of `s`, with fuel for the digits.
unfoldable pub decimal_before : ℕ → ℕ → Text → Text
decimal_before zero n s = s
decimal_before (suc fuel) n s =
    let more = decimal_before fuel (n / 10) ((n % 10 + 48) ∷ s) in
    if ltb n 10 then (n % 10 + 48) ∷ s else more

-- %d of fmt.
unfoldable pub decimal : ℕ → Text
unfolding decimal_before
decimal n = decimal_before (suc n) n []

abbrev pub health_url : ℕ → Text → Text
health_url port private_host =
    lit "http://" ++ (private_host ++ (b':' ∷ (decimal port ++ lit "/health")))

pub data CheckError : Type 0 where
  create_request request_failed : CheckError
  unexpected_status : ℕ → CheckError

-- The client on the world `W`: whether NewRequestWithContext takes a URL, and the status of a GET to
-- it, or none for an error.
pub record Client (W : Type 0) : Type 0 where
  pub can_request : Text → Bool
  pub http_get : Text → W → Option ℕ × W

unfoldable pub status_checked : {W : Type 0} → Option ℕ × W → Outcome W CheckError (Unit {0})
status_checked (none, w) = err request_failed w
status_checked (some status, w) =
    if not (status == 200) then err (unexpected_status status) w else ok tt w

-- HTTPChecker.Check.
unfoldable pub check : {W : Type 0} → Client W → ℕ → Text → Act W CheckError (Unit {0})
unfolding status_checked decimal
check client port private_host w =
    if client.can_request (health_url port private_host)
    then status_checked (client.http_get (health_url port private_host) w)
    else err create_request w
