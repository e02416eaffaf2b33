-- ===== src/Tests/Requests.antt =====
-- The handlers of the broker, on the small stack.
use bunshin.Prelude.{◌≢◌, if◌then◌else◌, ◌≤◌, [], ◌∷◌, ◌++◌, none, some, ◌≡◌, ◌↔◌, refl, arith}
use bunshin.Text.{Text, lit, text_eq, split, trim_space, trim_left, trim_right, is_space}
use bunshin.Text.Laws.{text_eq-ne, Lacks}
use bunshin.Text.Numbers.{pos, atoi}
use bunshin.Outcome.{ok}
use bunshin.Broker.Model.{Runner}
use bunshin.Broker.Store.{no_idle_runner, valid_runner_id}
use bunshin.Broker.Store.Firestore.{
  null, text, field_private_host, field_current_session_id, firestore_repository, register,
}
use bunshin.Broker.Store.Firestore.Documents.{find_doc}
use bunshin.Broker.Stacklist.{split_names, parse}
use bunshin.Broker.Config.{configured, new_stack_from_env, new_runner_api_port_from_env}
use bunshin.Broker.Config.Backends.{
  firestore_backend, new_firestore_from_env, new_repository_from_env,
}
use bunshin.Broker.Config.Ports.{new_runner_api_port_from_env_iff}
use bunshin.Broker.Service.{
  store, register_runner, session_id_separator, namespaced_session_id, split_namespaced_session_id,
}
use bunshin.Broker.Service.Names.{split_namespaced_session_id_iff}
use bunshin.Broker.Service.Outcomes.{NoneIdle}
use bunshin.Broker.Handler.{
  Handler, register_bound, register_checked, validate_runner_host, get_resolve_session,
  post_register, resolved_reply, resolve_failed, extract_session_hex,
}
use bunshin.Broker.Http.{Request, just_status, runner_host_header}
use bunshin.Broker.Handler.Fallback.{header_of, visits}
use bunshin.Broker.Handler.Ring.{visits_ring}
use bunshin.Broker.Handler.Replies.{
  broker_service, Carries, get_resolve_session_unavailable, get_resolve_session_found,
}
use bunshin.Broker.Service.Table.{IsFresh}
use bunshin.Broker.Handler.Sessions.{delete_session_frees, get_resolve_app_resolved}
use bunshin.Broker.Handler.Requests.{
  IsHostOf, extract_session_hex_iff, Registers, post_register-Registers,
}
use bunshin.Tests.Memory.{Docs}
use bunshin.Tests.Rotation.{stacks, splits}
use bunshin.Tests.Scene.{
  two_docs, taken_docs, repo, broker, contract, broker-IsPassive, resolved_one, resolves_one, hex,
  two_docs-IsUnique, two_docs-IssuesFresh, two_docs-IsSound, two_docs-size, two_docs-bound,
}
use bunshin.Broker.Handler.{delete_session, get_resolve_app, found_app}
use bunshin.Tests.Sessions.{idle_only, finds_taken, taken_runner, closes_busy}
use bunshin.Tests.Scene.{hex, two_docs-IsUnique, two_docs-IssuesFresh}
use bunshin.Tests.Sessions.{
  busy_only, busy_only-IsSound, busy_only-size, busy_only-bound, none_left,
}

abbrev gcp : Handler
gcp = record { fallback_stacks = lit "local" ∷ lit "aws" ∷ []; stack_self = lit "gcp" }

abbrev asks : Request
asks = record {
  param = [];
  session_cookie = [];
  fallback_stack = [];
  fallback_remaining = [];
  host = [];
  request_id = [];
  register_body = none;
}

abbrev bare : Text → Handler
bare self = record { fallback_stacks = lit "else" ∷ []; stack_self = self }

visits_ring_example : visits bare 2 gcp asks ≡ lit "local" ∷ lit "aws" ∷ []
unfolding new_stack_from_env parse split_names split trim_space trim_left trim_right is_space
visits_ring_example =
    visits_ring bare (lit " gcp") stacks
      (record { self = lit "gcp"; fallbacks = lit "local" ∷ lit "aws" ∷ [] }) (lit "aws" ∷ [])
      (lit "local" ∷ []) 2 gcp asks refl splits (text_eq-ne (lit "aws") (lit "gcp") refl, tt)
      (text_eq-ne (lit "local") (lit "gcp") refl, tt) refl refl (omega arith)

replies_found :
    get_resolve_session gcp (broker_service repo broker 3) asks two_docs
    ≡ ok (resolved_reply gcp resolved_one) taken_docs
unfolding get_resolve_session
replies_found = simp (resolves_one, get_resolve_session)

get_resolve_session_found_example :
    (r : Runner) × (contract.runner_at taken_docs r.runner_id ≡ some r)
    × (header_of runner_host_header (resolved_reply gcp resolved_one).headers ≡ r.private_host)
    × Carries [] r.current_session_id (resolved_reply gcp resolved_one).cookie
get_resolve_session_found_example =
    get_resolve_session_found contract broker-IsPassive 3 gcp asks two_docs taken_docs
      (resolved_reply gcp resolved_one) two_docs-IsSound two_docs-size two_docs-bound replies_found
      refl

replies_unavailable :
    get_resolve_session gcp (broker_service repo broker 3) asks busy_only
    ≡ ok (resolve_failed gcp asks (store no_idle_runner)) busy_only
unfolding get_resolve_session
replies_unavailable = simp (none_left, get_resolve_session)

get_resolve_session_unavailable_example : NoneIdle contract broker busy_only
get_resolve_session_unavailable_example =
    get_resolve_session_unavailable contract broker-IsPassive 3 gcp asks busy_only busy_only
      (resolve_failed gcp asks (store no_idle_runner)) busy_only-IsSound busy_only-size
      busy_only-bound replies_unavailable refl

extract_session_hex_iff_example :
    (extract_session_hex (hex ++ lit ".example.com") ≡ some hex)
    ↔ IsHostOf hex (hex ++ lit ".example.com")
extract_session_hex_iff_example = extract_session_hex_iff (hex ++ lit ".example.com") hex

abbrev registering : Request
registering = record asks { register_body = some (hex, lit "host-c") }

abbrev three_docs : Docs
three_docs =
    record {
      id = hex;
      fields = (field_private_host, text (lit "host-c")) ∷ (field_current_session_id, null) ∷ [];
    }
    ∷ two_docs

registers :
    post_register gcp (broker_service repo broker 3) registering two_docs
    ≡ ok (just_status 201) three_docs
unfolding post_register register_bound register_checked validate_runner_host register_runner
    firestore_repository register valid_runner_id find_doc
registers = refl

post_register-Registers_example :
    Registers (broker_service repo broker 3) registering two_docs three_docs (just_status 201)
post_register-Registers_example =
    post_register-Registers gcp (broker_service repo broker 3) registering two_docs three_docs
      (just_status 201) registers

split_namespaced_session_id_iff_example :
    (split_namespaced_session_id (namespaced_session_id repo broker hex) ≡ some (lit "s", hex))
    ↔ Lacks session_id_separator (lit "s")
split_namespaced_session_id_iff_example = split_namespaced_session_id_iff repo broker hex

new_runner_api_port_from_env_iff_example :
    (new_runner_api_port_from_env (lit " 8080") ≡ configured 8080)
    ↔ ((atoi (trim_space (lit " 8080")) ≡ some (pos 8080)) × (1 ≤ 8080) × (8080 ≤ 65535))
new_runner_api_port_from_env_iff_example = new_runner_api_port_from_env_iff (lit " 8080") 8080

abbrev settings : Text → Text
settings name = if text_eq name (lit "BUNSHIN_STORE") then lit "firestore" else lit "x"

chooses_firestore :
    new_repository_from_env settings ≡ configured (firestore_backend (lit "x") (lit "x"))
unfolding new_repository_from_env new_firestore_from_env trim_space trim_left trim_right is_space
chooses_firestore = refl

deletes_session :
    delete_session gcp (broker_service repo broker 3) (record asks { param = lit "s_00" }) two_docs
    ≡ ok (just_status 204) idle_only
unfolding delete_session
deletes_session = simp (closes_busy, delete_session)

delete_session_frees_example :
    IsFresh contract (lit "s_00") idle_only
    × ((j : Text) (r : Runner)
        → contract.runner_at two_docs j ≡ some r
        → r.current_session_id ≢ lit "s_00"
        → contract.runner_at idle_only j ≡ some r)
delete_session_frees_example =
    delete_session_frees contract broker 3 gcp (record asks { param = lit "s_00" }) two_docs
      idle_only (just_status 204) two_docs-IsSound two_docs-IsUnique (λ e. cc) deletes_session refl

get_resolve_app_resolved_example :
    get_resolve_app gcp
      (broker_service repo broker 3)
      (record asks { host = hex ++ lit ".example.com" })
      taken_docs
    ≡ ok (found_app (record { runner_host = lit "host-a" })) taken_docs
get_resolve_app_resolved_example =
    get_resolve_app_resolved contract broker 3 gcp broker-IsPassive [] two_docs two_docs-IsSound
      two_docs-size two_docs-bound resolved_one taken_docs resolves_one two_docs-IsUnique
      two_docs-IssuesFresh (record asks { host = hex ++ lit ".example.com" }) taken_runner
      taken_docs refl (refl, (lit "example.com", refl)) finds_taken
