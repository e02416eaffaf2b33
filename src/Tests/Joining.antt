-- ===== src/Tests/Joining.antt =====
-- Examples for the identity of a runner, its registration and its supervisor.
use bunshin.Prelude.{
  drop, Bool, true, false, List, [], ◌∷◌, none, some, ◌≡◌, refl, ◌≢◌, inr, arith, if◌then◌else◌,
}
use bunshin.Text.{Text, lit, text_eq}
use bunshin.Outcome.{ok}
use bunshin.Broker.Store.Dynamo.Api.{Item, member_s}
use bunshin.Broker.Store.Dynamo.View.{decoded_item}
use bunshin.Broker.Store.Dynamo.{dynamo_repository}
use bunshin.Broker.Store.Dynamo
use bunshin.Broker.Http.{Request}
use bunshin.Broker.Handler.{
  Handler, delete_runner, post_register, validate_runner_host, register_bound, register_checked,
}
use bunshin.Broker.Service.{BrokerService, register_runner, deregister_runner}
use bunshin.Runner.Identity.{Identity, IdentityDeps, ip_net, other_addr, value, resolve_identity}
use bunshin.Runner.Identity.Accepted.{IsPodIdentity, resolve_identity-IsPodIdentity}
use bunshin.Runner.Registration.{RegisterDeps, PostRequest, register, register_post, deregister}
use bunshin.Runner.Registration.Channel.{Fate, delivered, post_to_broker}
use bunshin.Runner.Registration.Pool.{broker_deps, register_in_pool, register_again}
use bunshin.Runner.Registration.Leaves.{leaving_deps, deregister_leaves}
use bunshin.Runner.Supervisor.{
  Move, cancel, exit, start, not_cancelled, wait_done, see_cancelled, grace_over, State, starting,
  returned, run, supervise,
}
use bunshin.Runner.Supervisor.Single.{IsSupervised, supervise-IsSupervised}
use bunshin.Tests.Slot.{Slot, put, is_text, item_in}
use bunshin.Tests.Slot.Items.{item_marshaller, item_laws, marshal}
use bunshin.Tests.Slot.Laws.{table_laws}

-- A pod with a loopback and an address.
abbrev pub pod : IdentityDeps
pod = record {
  getenv = λ name. if text_eq name (lit "STACK_NAME") then lit "asia-northeast2" else [];
  hostname = none;
  http_get = λ url. none;
  parse_container = λ body. none;
  interface_addrs =
      some (ip_net (127 ∷ 0 ∷ 0 ∷ 1 ∷ []) ∷ other_addr 0 ∷ ip_net (10 ∷ 4 ∷ 0 ∷ 129 ∷ []) ∷ []);
  rand_read = record {
    buf =
        0 ∷ 17 ∷ 34 ∷ 51 ∷ 68 ∷ 85 ∷ 102 ∷ 119 ∷ 136 ∷ 153 ∷ 170 ∷ 187 ∷ 204 ∷ 221 ∷ 238 ∷ 255 ∷ [];
    count = 16;
    failed = false;
  };
}

abbrev pod_identity : Identity
pod_identity = record {
  runner_id = lit "00112233445566778899aabbccddeeff";
  private_host = lit "10.4.0.129";
}

pod_resolved : resolve_identity pod ≡ value pod_identity
unfolding resolve_identity
pod_resolved = refl

resolve_identity-IsPodIdentity_example : IsPodIdentity pod pod_identity
resolve_identity-IsPodIdentity_example =
    resolve_identity-IsPodIdentity pod pod_identity refl (omega arith) (inr refl) pod_resolved

abbrev table : Text
table = lit "bunshin-runners"

abbrev handler : Handler
handler = record { fallback_stacks = []; stack_self = lit "ap-northeast-1" }

abbrev service : BrokerService Slot
service = record {
  stack_prefix = lit "ap-northeast-1";
  check = λ host w. ok tt w;
  ctx_err = λ w. none;
  session_fn = λ w. ok (lit "ab") w;
}

abbrev receive : PostRequest → Request
receive p = record {
  param = [];
  session_cookie = [];
  fallback_stack = [];
  fallback_remaining = [];
  host = [];
  request_id = [];
  register_body = some (p.body.runner_id, p.body.private_host);
}

abbrev item : Item
item =
    (lit "runnerId", member_s pod_identity.runner_id)
    ∷ (lit "state", member_s (lit "idle"))
    ∷ (lit "currentSessionId", member_s [])
    ∷ (lit "privateHost", member_s pod_identity.private_host)
    ∷ []

-- A network that loses the reply or not.
abbrev deps : Fate → RegisterDeps Slot
deps fate =
    broker_deps (table_laws table) item_laws 1 (λ w. []) handler service 1 receive (λ p. refl)
      (λ w. fate) (lit "http://broker:8080") pod_identity (λ w. (true, w))

joined : register (deps delivered) 1 none ≡ ok tt (some item)
unfolding register post_to_broker post_register register_runner dynamo_repository Dynamo.register
    put marshal validate_runner_host register_bound register_checked
joined = refl

register_in_pool_example :
    decoded_item item_marshaller (item_in (some item) pod_identity.runner_id)
    ≡ some (record {
      runner_id = pod_identity.runner_id;
      state = lit "idle";
      current_session_id = [];
      private_host = pod_identity.private_host;
    })
register_in_pool_example =
    register_in_pool (table_laws table) item_laws 1 (λ w. []) handler service 1 receive (λ p. refl)
      (λ w. delivered) (lit "http://broker:8080") pod_identity (λ w. (true, w)) 1 none (some item)
      joined

held : item_in (some item) pod_identity.runner_id ≢ none
unfolding item_in is_text
held e = cc

register_again_example : (register (deps delivered) 7 (some item) ≢ ok tt (some item))
register_again_example =
    register_again (table_laws table) item_laws 1 (λ w. []) handler service 1 receive (λ p. refl)
      (λ w. delivered) (lit "http://broker:8080") pod_identity (λ w. (true, w)) (λ w h. h) 7
      (some item) (some item) held

-- The last segment of the URL.
abbrev receive_delete : Text → Request
receive_delete url = record (receive (register_post (deps delivered))) { param = drop 36 url }

abbrev can_request : Text → Bool
can_request url = true

-- The runner leaves the broker that it has joined.
left_broker :
    deregister
      (leaving_deps item_marshaller
        (table_laws table)
        1
        (λ w. [])
        service
        handler
        1
        receive_delete
        (λ w. delivered)
        (lit "http://broker:8080")
        pod_identity.runner_id
        refl
        can_request)
      (some item)
    ≡ ok tt none
unfolding deregister delete_runner deregister_runner dynamo_repository Dynamo.delete
    bunshin.Runner.Registration.Channel.after_fate bunshin.Runner.Registration.Leaves.deleted
    bunshin.Tests.Slot.remove is_text
left_broker = refl

deregister_leaves_example : item_in none pod_identity.runner_id ≡ (
    if text_eq pod_identity.runner_id pod_identity.runner_id
    then none
    else item_in (some item) pod_identity.runner_id)
deregister_leaves_example =
    deregister_leaves item_marshaller (table_laws table) 1 (λ w. []) service handler 1
      receive_delete (λ w. delivered) (lit "http://broker:8080") pod_identity.runner_id refl
      can_request (some item) none left_broker pod_identity.runner_id

-- The context ends behind its test; a child starts, ignores SIGTERM and is killed.
abbrev before : List Move
before = not_cancelled ∷ cancel ∷ []

abbrev moves : List Move
moves = start 7 ∷ see_cancelled ∷ grace_over ∷ exit 7 ∷ wait_done ∷ see_cancelled ∷ []

abbrev cancelled_state : State
cancelled_state = record { phase = starting; done = true; children = [] }

abbrev end_state : State
end_state = record { phase = returned; done = true; children = [] }

begins : run before supervise ≡ some cancelled_state
unfolding run
begins = refl

supervise-IsSupervised_example : IsSupervised cancelled_state
supervise-IsSupervised_example = supervise-IsSupervised before cancelled_state begins
