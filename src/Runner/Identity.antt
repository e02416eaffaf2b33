-- ===== src/Runner/Identity.antt =====
-- runner/identity.go: the id and the host under which a runner registers.
pub mod Hex
pub mod PodIp
pub mod Accepted
use bunshin.Prelude.{
  ℕ, ◌+◌, ◌/◌, ◌%◌, Bool, true, false, ◌&&◌, ◌||◌, not, List, [], ◌∷◌, ◌++◌, Option, none, some,
  length, take, drop, is_empty, ltb, ◌==◌, if◌then◌else◌,
}
use bunshin.Text.{Text, lit, text_eq}

abbrev pub stack_ap_northeast1 : Text
stack_ap_northeast1 = lit "ap-northeast-1"

abbrev pub stack_ap_northeast3 : Text
stack_ap_northeast3 = lit "ap-northeast-3"

abbrev pub stack_asia_northeast1 : Text
stack_asia_northeast1 = lit "asia-northeast1"

abbrev pub stack_asia_northeast2 : Text
stack_asia_northeast2 = lit "asia-northeast2"

abbrev pub stack_local : Text
stack_local = lit "local"

pub record Identity : Type 0 where
  pub runner_id : Text
  pub private_host : Text

pub data IdentityError : Type 0 where
  generate_failed hostname_failed fetch_failed parse_failed interfaces_failed : IdentityError
  missing_uri no_address no_pod_address : IdentityError
  short_read : ℕ → IdentityError
  unsupported_stack : Text → IdentityError

-- (A, error).
pub data Result (A : Type 0) : Type 0 where
  value : A → Result A
  failure : IdentityError → Result A

infixl 5 ◌>>=◌
abbrev pub ◌>>=◌ : {A B : Type 0} → Result A → (A → Result B) → Result B
value a >>= f = f a
failure e >>= f = failure e

-- ecsNetwork and ecsContainerMeta.
pub record EcsNetwork : Type 0 where
  pub ipv4_addresses : List Text

pub record EcsContainerMeta : Type 0 where
  pub networks : List EcsNetwork

-- net.IP, as its bytes.
abbrev pub Ip : Type 0
Ip = List ℕ

-- net.Addr: *net.IPNet, or another.
pub data Addr : Type 0 where
  ip_net : Ip → Addr
  other_addr : ℕ → Addr

-- What randRead did: the buffer, the count, and whether there was an error.
pub record RandRead : Type 0 where
  pub buf : List ℕ
  pub count : ℕ
  pub failed : Bool

-- identityDeps, and json.Unmarshal into an ecsContainerMeta; `none` is an error.
pub record IdentityDeps : Type 0 where
  pub getenv : Text → Text
  pub hostname : Option Text
  pub http_get : Text → Option Text
  pub parse_container : Text → Option EcsContainerMeta
  pub interface_addrs : Option (List Addr)
  pub rand_read : RandRead

-- hex.EncodeToString.
abbrev pub hex_digit : ℕ → ℕ
hex_digit n = if ltb n 10 then n + 48 else n + 87

unfoldable pub encode_hex : List ℕ → Text
encode_hex [] = []
encode_hex (b ∷ bytes) = hex_digit (b / 16) ∷ hex_digit (b % 16) ∷ encode_hex bytes

unfoldable pub generate_runner_id : RandRead → Result Text
unfolding encode_hex
generate_runner_id r =
    if r.failed
    then failure generate_failed
    else if not (r.count == 16)
    then failure (short_read r.count)
    else value (encode_hex r.buf)

-- The prefix ::ffff:0:0/96, and ::1.
abbrev pub v4_in_v6_prefix : Ip
v4_in_v6_prefix = 0 ∷ 0 ∷ 0 ∷ 0 ∷ 0 ∷ 0 ∷ 0 ∷ 0 ∷ 0 ∷ 0 ∷ 255 ∷ 255 ∷ []

abbrev pub ipv6_loopback : Ip
ipv6_loopback = 0 ∷ 0 ∷ 0 ∷ 0 ∷ 0 ∷ 0 ∷ 0 ∷ 0 ∷ 0 ∷ 0 ∷ 0 ∷ 0 ∷ 0 ∷ 0 ∷ 0 ∷ 1 ∷ []

-- IP.To4; `none` is nil.
unfoldable pub to4 : Ip → Option Ip
to4 ip =
    if length ip == 4
    then some ip
    else if length ip == 16 && text_eq (take 12 ip) v4_in_v6_prefix
    then some (drop 12 ip)
    else none

abbrev pub first_byte : Ip → ℕ
first_byte [] = 0
first_byte (b ∷ ip) = b

-- IP.IsLoopback.
unfoldable pub is_loopback : Ip → Bool
unfolding to4
is_loopback ip = elim (to4 ip) [
  | some ip4 ↦ first_byte ip4 == 127
  | none ↦ text_eq ip ipv6_loopback
]

-- A byte in decimal.
unfoldable pub decimal : ℕ → Text
decimal b =
    if ltb b 10
    then (b + 48) ∷ []
    else if ltb b 100
    then (b / 10 + 48) ∷ (b % 10 + 48) ∷ []
    else (b / 100 + 48) ∷ (b / 10 % 10 + 48) ∷ (b % 10 + 48) ∷ []

-- IP.String of four bytes.
unfoldable pub dotted : Ip → Text
unfolding decimal
dotted [] = []
dotted (b ∷ []) = decimal b
dotted (b ∷ (c ∷ ip)) = decimal b ++ (b'.' ∷ dotted (c ∷ ip))

-- The loop of privateHostFromPodIP.
unfoldable pub first_ipv4 : List Addr → Result Text
unfolding is_loopback to4 dotted
first_ipv4 [] = failure no_pod_address
first_ipv4 (other_addr n ∷ addrs) = first_ipv4 addrs
first_ipv4 (ip_net ip ∷ addrs) = elim (is_loopback ip) [
  | true ↦ first_ipv4 addrs
  | false ↦ elim (to4 ip) [ none ↦ first_ipv4 addrs | some ip4 ↦ value (dotted ip4) ]
]

-- len(container.Networks) == 0 || len(container.Networks[0].IPv4Addresses) == 0.
first_address : List Text → Result Text
first_address [] = failure no_address
first_address (address ∷ addresses) = value address

first_network : List EcsNetwork → Result Text
unfolding first_address
first_network [] = failure no_address
first_network (network ∷ networks) = first_address network.ipv4_addresses

-- A result of the dependencies.
abbrev pub or_failure : {A : Type 0} → IdentityError → Option A → Result A
or_failure e none = failure e
or_failure e (some a) = value a

module _ (deps : IdentityDeps) where
  unfoldable pub private_host_from_ecs : Result Text
  unfolding first_network
  private_host_from_ecs =
      let uri = deps.getenv (lit "ECS_CONTAINER_METADATA_URI_V4") in
      if is_empty uri then failure missing_uri else do
        body ← or_failure fetch_failed (deps.http_get uri)
        container ← or_failure parse_failed (deps.parse_container body)
        first_network container.networks

  unfoldable pub private_host_from_pod_ip : Result Text
  unfolding first_ipv4
  private_host_from_pod_ip = or_failure interfaces_failed deps.interface_addrs >>= first_ipv4

  unfoldable pub private_host_from_hostname : Result Text
  private_host_from_hostname = or_failure hostname_failed deps.hostname

  unfoldable pub resolve_private_host : Result Text
  unfolding private_host_from_ecs private_host_from_pod_ip private_host_from_hostname
  resolve_private_host =
      let stack_name = deps.getenv (lit "STACK_NAME") in
      if text_eq stack_name stack_ap_northeast1 || text_eq stack_name stack_ap_northeast3
      then private_host_from_ecs
      else if text_eq stack_name stack_asia_northeast1 || text_eq stack_name stack_asia_northeast2
      then private_host_from_pod_ip
      else if text_eq stack_name stack_local
      then private_host_from_hostname
      else failure (unsupported_stack stack_name)

  unfoldable pub resolve_identity : Result Identity
  unfolding generate_runner_id resolve_private_host
  resolve_identity = do
    runner_id ← generate_runner_id deps.rand_read
    private_host ← resolve_private_host
    value (record { runner_id = runner_id; private_host = private_host })
