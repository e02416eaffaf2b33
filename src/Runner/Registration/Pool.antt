-- ===== src/Runner/Registration/Pool.antt =====
-- The runner's register against the broker over the DynamoDB repository.
use bunshin.Prelude.{
  ℕ, Bool, true, false, [], none, some, ◌≡◌, ap, subst, ◌∙◌, ◌≢◌, inl, inr, arith, Bool-cases,
}
use bunshin.Text.{Text, lit}
use bunshin.Outcome.{Outcome, ok, err, ended, with_ok, with_err, never}
use bunshin.Broker.Store.{StoreError}
use bunshin.Broker.Store.Dynamo.Api.{DynamoApi, Marshaller}
use bunshin.Broker.Store.Dynamo
use bunshin.Broker.Store.Dynamo.{dynamo_repository}
use bunshin.Broker.Store.Dynamo.Laws.{MarshallerLaws, TableLaws}
use bunshin.Broker.Store.Dynamo.View.{decoded_item}
use bunshin.Broker.Store.Dynamo.Register.{AfterRegister, register_lem, register_keeps}
use bunshin.Broker.Service.{BrokerService, ServiceError, register_runner}
use bunshin.Broker.Http.{Request}
use bunshin.Broker.Handler.{Handler, Service}
use bunshin.Broker.Handler.Replies.{broker_service}
use bunshin.Runner.Identity.{Identity}
use bunshin.Runner.Registration.{PostRequest, RegisterDeps, register_post, register}
use bunshin.Runner.Registration.Retry.{posted, answer_is_created, register-LastPost, register_stuck}
use bunshin.Runner.Registration.Channel.{Fate, post_to_broker, fate-registered, fate-leads}

module _ {W : Type 0} {api : DynamoApi W} {table_name : Text} {marshaller : Marshaller}
    (base : TableLaws api table_name) (m : MarshallerLaws marshaller) (fuel : ℕ)
    (rand_hex : W → Text) (h : Handler) (s : BrokerService W) (rounds : ℕ)
    (receive : PostRequest → Request)
    (received : (p : PostRequest)
      → (receive p).register_body ≡ some (p.body.runner_id, p.body.private_host))
    (fate : W → Fate) (url : Text) (identity : Identity) (wait : W → Bool × W) where
  open base use {table, item_at}

  abbrev service : Service W
  service = broker_service (dynamo_repository api marshaller table_name fuel rand_hex) s rounds

  -- The runner's dependencies, with the broker behind the network.
  abbrev pub broker_deps : RegisterDeps W
  broker_deps = record {
    broker_url = url;
    identity = identity;
    http_post = post_to_broker h service receive fate;
    wait = wait;
  }

  abbrev repo_register : W → Outcome W StoreError (Unit {0})
  repo_register = Dynamo.register api marshaller table_name identity.runner_id identity.private_host

  service_register :
      (w w' : W)
      → service.register_runner identity.runner_id identity.private_host w ≡ ok tt w'
      → repo_register w ≡ ok tt w'
  unfolding register_runner dynamo_repository
  service_register w w' e = elim (ended (repo_register w)) [
    | never p ↦ absurd (ground arith)
    | with_ok a u p ↦ ground arith
    | with_err x u p ↦ absurd (ground arith)
  ]

  -- An answer 201 is that of a request that was registered.
  answer-registered :
      (w : W)
      → answer_is_created broker_deps w ≡ true
      → repo_register w ≡ ok tt (posted broker_deps w)
  unfolding post_to_broker
  answer-registered w made = service_register w _ (
      fate-registered h service receive (register_post broker_deps) identity.runner_id
        identity.private_host (received (register_post broker_deps)) w (fate w) made)

  registered-fresh :
      (w w' : W) → repo_register w ≡ ok tt w' → item_at (table w) identity.runner_id ≡ none
  registered-fresh w w' e =
      let (valid, named, fresh, reads, others) =
        subst (AfterRegister base m identity.runner_id identity.private_host w) e
          (register_lem base m identity.runner_id identity.private_host w) in
      fresh

  refused :
      (w : W)
      → item_at (table w) identity.runner_id ≢ none
      → answer_is_created broker_deps w ≡ false
  refused w held = elim (Bool-cases (answer_is_created broker_deps w)) [
    | inl made ↦ absurd (held (registered-fresh w _ (answer-registered w made)))
    | inr other ↦ other
  ]

  service_failed :
      (e : ServiceError) (w w' : W)
      → service.register_runner identity.runner_id identity.private_host w ≡ err e w'
      → (x : StoreError) × (repo_register w ≡ err x w')
  unfolding register_runner dynamo_repository
  service_failed e w w' p = elim (ended (repo_register w)) [
    | never q ↦ absurd (ground arith)
    | with_ok a u q ↦ absurd (ground arith)
    | with_err x u q ↦ (x, ground arith)
  ]

  kept :
      (w : W)
      → item_at (table w) identity.runner_id ≢ none
      → item_at (table (posted broker_deps w)) identity.runner_id ≢ none
  unfolding post_to_broker
  kept w held =
      fate-leads h service receive (register_post broker_deps) identity.runner_id
        identity.private_host (received (register_post broker_deps)) w
        (λ u. item_at (table u) identity.runner_id ≢ none) held
        (λ e u q.
          let (x, failed) = service_failed e w u q in
          register_keeps base m identity.runner_id identity.private_host w u x failed held)
        (λ u q. absurd (held (registered-fresh w u (service_register w u q)))) (fate w)

  -- Over a network that may lose posts or their replies: if the runner's register succeeds, the last
  -- step put the runner's id into the table, as an idle runner at its host with no session.
  pub register_in_pool :
      (tries : ℕ) (w w' : W)
      → register broker_deps tries w ≡ ok tt w'
      → decoded_item marshaller (item_at (table w') identity.runner_id)
        ≡ some (record {
          runner_id = identity.runner_id;
          state = lit "idle";
          current_session_id = [];
          private_host = identity.private_host;
        })
  register_in_pool tries w w' e =
      let last = register-LastPost broker_deps tries w w' e in
      let done : repo_register last.before ≡ ok tt w' =
        answer-registered last.before last.made ∙ ap (λ u. ok tt u) last.ended in
      let (valid, named, fresh, reads, others) =
        subst (AfterRegister base m identity.runner_id identity.private_host last.before) done
          (register_lem base m identity.runner_id identity.private_host last.before) in
      reads

  -- Once the table has the runner's id, as after a post whose reply was lost, and while no wait of
  -- the runner lets it go, register does not succeed, however often it tries.
  pub register_again :
      ((w : W)
        → item_at (table w) identity.runner_id ≢ none
        → item_at (table (wait w).1) identity.runner_id ≢ none)
      → (tries : ℕ) (w w' : W) → item_at (table w) identity.runner_id ≢ none
      → register broker_deps tries w ≢ ok tt w'
  register_again stays =
      register_stuck broker_deps (λ u. item_at (table u) identity.runner_id ≢ none) refused
        (λ u held. stays (posted broker_deps u) (kept u held))
