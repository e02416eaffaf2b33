-- ===== src/Broker/Config/Ports.antt =====
-- The ports that the settings accept.
use bunshin.Prelude.{ℕ, ◌≤◌, Option, none, some, ◌≡◌, ◌↔◌, ap, ◌∙◌, arith, [], ◌∷◌}
use bunshin.Text.{Text, lit, trim_space}
use bunshin.Text.Numbers.{ℤ, pos, negsuc, atoi}
use bunshin.Broker.Config.{
  configured, port_in_range, port_number, port_of, new_runner_api_port_from_env,
}

port_in_range-eq :
    (var : Text) (i : ℤ) (n : ℕ)
    → port_in_range var i ≡ configured n
    → (i ≡ pos n) × (1 ≤ n) × (n ≤ 65535)
port_in_range-eq var (negsuc m) n h = cc
port_in_range-eq var (pos m) n h = ground arith

port_number-eq :
    (var : Text) (o : Option ℤ) (n : ℕ)
    → port_number var o ≡ configured n
    → (o ≡ some (pos n)) × (1 ≤ n) × (n ≤ 65535)
port_number-eq var none n h = cc
port_number-eq var (some i) n h =
    let (e, low, high) = port_in_range-eq var i n h in (ap some e, low, high)

port_of-eq :
    (var raw : Text) (n : ℕ)
    → port_of var raw ≡ configured n
    → (atoi raw ≡ some (pos n)) × (1 ≤ n) × (n ≤ 65535)
port_of-eq var [] n h = cc
port_of-eq var (c ∷ raw) n h = port_number-eq var (atoi (c ∷ raw)) n h

eq-port_of :
    (var raw : Text) (n : ℕ)
    → atoi raw ≡ some (pos n)
    → 1 ≤ n
    → n ≤ 65535
    → port_of var raw ≡ configured n
unfolding atoi
eq-port_of var [] n e low high = cc
eq-port_of var (c ∷ raw) n e low high = ap (port_number var) e ∙ ground arith

-- RUNNER_API_PORT is accepted as the port `n` if and only if, without the space around it, it is an
-- integer of 64 bits for strconv.Atoi, and that integer is `n`, between 1 and 65535.
pub new_runner_api_port_from_env_iff :
    (raw : Text) (n : ℕ)
    → (new_runner_api_port_from_env raw ≡ configured n)
      ↔ ((atoi (trim_space raw) ≡ some (pos n)) × (1 ≤ n) × (n ≤ 65535))
unfolding new_runner_api_port_from_env
new_runner_api_port_from_env_iff raw n = (
  port_of-eq (lit "RUNNER_API_PORT") (trim_space raw) n,
  λ (e, low, high). eq-port_of (lit "RUNNER_API_PORT") (trim_space raw) n e low high,
)
