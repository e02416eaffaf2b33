-- ===== src/Broker/Config.antt =====
-- broker/config: the settings that the broker reads from its environment.
pub mod Ports
pub mod Backends
use bunshin.Prelude.{
  ℕ, Bool, true, false, List, [], ◌∷◌, Option, none, some, is_empty, ltb, ◌==◌, ◌||◌, if◌then◌else◌,
}
use bunshin.Text.{Text, lit, trim_space}
use bunshin.Text.Numbers.{ℤ, pos, negsuc, atoi}
use bunshin.Broker.Stacklist.{parse}

pub record StackConfig : Type 0 where
  pub self : Text
  pub fallbacks : List Text

-- An error of the settings: a variable that is missing, not a number or out of range, or the own
-- stack name and the list that does not have it.
pub data ConfigError : Type 0 where
  missing not_integer out_of_range unsupported : Text → ConfigError
  unpaired_keys : ConfigError
  unlisted : Text → Text → ConfigError

pub data Setting (A : Type 0) : Type 0 where
  configured : A → Setting A
  refused : ConfigError → Setting A

abbrev pub listed_config : Text → Text → List Text × Bool → Setting StackConfig
listed_config self raw (fallbacks, false) = refused (unlisted self raw)
listed_config self raw (fallbacks, true) =
    configured (record { self = self; fallbacks = fallbacks })

abbrev pub named_config : Text → Text → Setting StackConfig
named_config self raw =
    if is_empty self
    then refused (missing (lit "STACK_NAME"))
    else if is_empty (trim_space raw)
    then refused (missing (lit "BUNSHIN_STACKS"))
    else listed_config self raw (parse raw self)

-- NewStackFromEnv, from the values of STACK_NAME and BUNSHIN_STACKS.
unfoldable pub new_stack_from_env : Text → Text → Setting StackConfig
new_stack_from_env name raw = named_config (trim_space name) raw

abbrev pub port_in_range : Text → ℤ → Setting ℕ
port_in_range var (negsuc n) = refused (out_of_range var)
port_in_range var (pos n) =
    if n == 0 || ltb 65535 n then refused (out_of_range var) else configured n

abbrev pub port_number : Text → Option ℤ → Setting ℕ
port_number var none = refused (not_integer var)
port_number var (some n) = port_in_range var n

abbrev pub port_of : Text → Text → Setting ℕ
port_of var raw = if is_empty raw then refused (missing var) else port_number var (atoi raw)

-- NewRunnerAPIPortFromEnv, from the value of RUNNER_API_PORT.
unfoldable pub new_runner_api_port_from_env : Text → Setting ℕ
new_runner_api_port_from_env raw = port_of (lit "RUNNER_API_PORT") (trim_space raw)
