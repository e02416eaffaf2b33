-- ===== src/Tests/Sessions.antt =====
-- The promises of the service and of the Firestore repository, on the small stack.
use bunshin.Broker.Store.Firestore.Taken.{AllWellFormed-without}
use bunshin.Broker.Store.Firestore.Refines.{firestore_contract}
use bunshin.Prelude.{◌<◌, false, [], some, ◌≡◌, ◌≢◌, refl, arith, if◌then◌else◌}
use bunshin.Text.{Text, lit, text_eq}
use bunshin.Text.Laws.{Lacks}
use bunshin.Text.Order.{text_ltb}
use bunshin.Outcome.{ok, err, diverged}
use bunshin.Broker.Model.{Runner, state_idle}
use bunshin.Broker.Store.{not_found, no_idle_runner}
use bunshin.Broker.Store.Contract.{SameTable, assigned}
use bunshin.Broker.Store.Firestore.{
  acquire_from, to_model, snapshot_to_doc, get_field, set_field, has_tried, firestore_repository,
  find_by_session_id,
}
use bunshin.Broker.Store.Firestore.Documents.{find_doc, update_doc, without_doc, in_range}
use bunshin.Broker.Store.Firestore.Acquire.{AfterAcquire, acquire_from_lem}
use bunshin.Broker.Store.Firestore.Refines.{
  runner_at, size, IsSound, acquire_idle_assigns, acquire_idle_exhausted,
}
use bunshin.Broker.Service.{
  store, session_id_separator, resolve_session, resolve_new, create_session, create_loop,
  close_session,
}
use bunshin.Broker.Service.Table.{IsUnique}
use bunshin.Broker.Service.Outcomes.{KeepsOthers, NoneIdle}
use bunshin.Broker.Service.Guarantees.{
  resolve_session_ends, resolve_session-owner, resolve_session-KeepsOthers,
  resolve_session-IsUnique, resolve_session_sticky, resolve_session_no_idle,
}
use bunshin.Tests.Memory.{Docs, memory, next_idle, page_of, by_session}
use bunshin.Tests.Memory.Behaves.{memory_laws}
use bunshin.Tests.Scene.{
  session, idle_id, busy_id, two_docs, taken_docs, start_of, repo, broker, contract,
  broker-IsPassive, resolved_one, resolves_one, two_docs-IsSound, two_docs-size, two_docs-bound,
  two_docs-IsUnique, two_docs-IssuesFresh, two_docs-AllWellFormed, idle_runner,
}

resolve_session_ends_example : resolve_session repo broker 3 [] two_docs ≢ diverged
resolve_session_ends_example =
    resolve_session_ends contract broker-IsPassive 3 [] two_docs two_docs-IsSound two_docs-size
      two_docs-bound

resolve_session-owner_example :
    (r : Runner) × (contract.runner_at taken_docs r.runner_id ≡ some r)
    × (r.current_session_id ≡ session)
    × (r.private_host ≡ lit "host-a")
    × ((u : Docs) × (broker.check (lit "host-a") u ≡ ok tt taken_docs))
resolve_session-owner_example =
    resolve_session-owner contract broker-IsPassive 3 [] two_docs two_docs-IsSound two_docs-size
      two_docs-bound resolved_one taken_docs resolves_one

resolve_session-KeepsOthers_example : KeepsOthers contract broker [] two_docs taken_docs
resolve_session-KeepsOthers_example =
    resolve_session-KeepsOthers contract broker-IsPassive 3 [] two_docs two_docs-IsSound
      two_docs-size two_docs-bound resolved_one taken_docs resolves_one

resolve_session-IsUnique_example : IsUnique contract taken_docs
resolve_session-IsUnique_example =
    resolve_session-IsUnique contract broker-IsPassive 3 [] two_docs two_docs-IsSound two_docs-size
      two_docs-bound resolved_one taken_docs resolves_one two_docs-IsUnique two_docs-IssuesFresh

abbrev pub taken_runner : Runner
taken_runner = assigned idle_runner session

pub finds_taken : repo.find_by_session_id session taken_docs ≡ ok taken_runner taken_docs
unfolding firestore_repository find_by_session_id by_session find_doc snapshot_to_doc get_field
    to_model
finds_taken = refl

s-Lacks : Lacks session_id_separator (lit "s")
s-Lacks = (λ e. omega (arith, e), tt)

resolve_session_sticky_example :
    resolve_session repo broker 0 session taken_docs
    ≡ ok (record resolved_one { created = false; reassigned = false }) taken_docs
resolve_session_sticky_example =
    resolve_session_sticky contract broker-IsPassive 3 [] two_docs two_docs-IsSound two_docs-size
      two_docs-bound resolved_one taken_docs resolves_one two_docs-IsUnique two_docs-IssuesFresh 0
      taken_runner taken_docs taken_docs s-Lacks finds_taken refl

-- The stack without its idle runner.
abbrev pub busy_only : Docs
busy_only = without_doc idle_id two_docs

pub busy_only-IsSound : contract.IsSound busy_only
unfolding firestore_contract memory_laws without_doc
busy_only-IsSound = (omega arith, AllWellFormed-without idle_id two_docs two_docs-AllWellFormed)

pub busy_only-size : contract.size busy_only < 3
unfolding firestore_contract memory_laws without_doc
busy_only-size = omega arith

pub busy_only-bound : contract.size busy_only < contract.bound
unfolding firestore_contract memory_laws without_doc
busy_only-bound = omega arith

pub none_left : resolve_session repo broker 3 [] busy_only ≡ err (store no_idle_runner) busy_only
unfolding resolve_session resolve_new create_session create_loop firestore_repository acquire_from
    next_idle page_of find_doc without_doc in_range snapshot_to_doc get_field text_ltb
none_left = refl

resolve_session_no_idle_example : NoneIdle contract broker busy_only
resolve_session_no_idle_example =
    resolve_session_no_idle contract broker-IsPassive 3 [] busy_only busy_only-IsSound
      busy_only-size busy_only-bound (store no_idle_runner) busy_only none_left refl

abbrev pub idle_only : Docs
idle_only = without_doc busy_id two_docs

pub closes_busy : close_session repo broker (lit "s_00") two_docs ≡ ok tt idle_only
unfolding close_session firestore_repository find_by_session_id by_session find_doc snapshot_to_doc
    get_field to_model
closes_busy = refl

two_docs-IsSound' : IsSound memory_laws 4 start_of two_docs
unfolding memory_laws
two_docs-IsSound' = (omega arith, two_docs-AllWellFormed)

acquire_from_lem_example :
    AfterAcquire memory_laws session two_docs (acquire_from memory 4 (lit "b") session two_docs)
acquire_from_lem_example =
    acquire_from_lem memory_laws 4 (lit "b") session two_docs two_docs-IsSound'.0

acquires_idle : repo.acquire_idle session two_docs ≡ ok taken_runner taken_docs
unfolding firestore_repository acquire_from next_idle page_of find_doc update_doc in_range
    snapshot_to_doc get_field set_field has_tried text_ltb
acquires_idle = refl

acquire_idle_assigns_example :
    (q : Runner) × (taken_runner ≡ assigned q session)
    × (runner_at memory_laws 4 start_of two_docs q.runner_id ≡ some q)
    × (q.state ≡ state_idle)
    × ((j : Text)
        → runner_at memory_laws 4 start_of taken_docs j ≡ (
            if text_eq j q.runner_id
            then some taken_runner
            else runner_at memory_laws 4 start_of two_docs j))
    × (size memory_laws 4 start_of taken_docs ≡ size memory_laws 4 start_of two_docs)
    × IsSound memory_laws 4 start_of taken_docs
acquire_idle_assigns_example =
    acquire_idle_assigns memory_laws 4 start_of session two_docs taken_docs taken_runner (λ e. cc)
      two_docs-IsSound' acquires_idle

busy_only-IsSound' : IsSound memory_laws 4 start_of busy_only
unfolding memory_laws without_doc
busy_only-IsSound' = (omega arith, AllWellFormed-without idle_id two_docs two_docs-AllWellFormed)

acquires_none : repo.acquire_idle session busy_only ≡ err no_idle_runner busy_only
unfolding firestore_repository acquire_from next_idle page_of find_doc without_doc in_range
    snapshot_to_doc get_field text_ltb
acquires_none = refl

acquire_idle_exhausted_example :
    ((j : Text) (r : Runner)
      → runner_at memory_laws 4 start_of busy_only j ≡ some r
      → r.state ≢ state_idle)
    × SameTable
        (runner_at memory_laws 4 start_of)
        (size memory_laws 4 start_of)
        (IsSound memory_laws 4 start_of)
        busy_only
        busy_only
acquire_idle_exhausted_example =
    acquire_idle_exhausted memory_laws 4 start_of session busy_only busy_only busy_only-IsSound'
      acquires_none

deletes_idle : repo.delete idle_id two_docs ≡ ok tt busy_only
unfolding firestore_repository
deletes_idle = refl

misses_f1 : repo.find_by_session_id session two_docs ≡ err not_found two_docs
unfolding firestore_repository find_by_session_id by_session find_doc get_field
misses_f1 = refl
