-- ===== src/Runner/Registration/Leaves.antt =====
-- The runner's deregister against the broker's DELETE /internal/runners/:runnerId over the DynamoDB
-- repository.
use bunshin.Prelude.{
  ℕ, Bool, Option, none, some, ◌≡◌, ◌++◌, refl, sym, ap, subst, ◌∙◌, inl, inr, arith, Bool-cases,
  ◌==◌, ==_iff, if◌then◌else◌,
}
use bunshin.Text.{Text, lit, text_eq}
use bunshin.Outcome.{ok_injective, ok, err, diverged, ended, with_ok, with_err, never}
use bunshin.Broker.Store.Dynamo.Api.{DynamoApi, Marshaller, delete_input}
use bunshin.Broker.Store.Dynamo
use bunshin.Broker.Store.Dynamo.{dynamo_repository}
use bunshin.Broker.Store.Dynamo.Laws.{TableLaws}
use bunshin.Broker.Service.{BrokerService, deregister_runner}
use bunshin.Broker.Http.{Request}
use bunshin.Broker.Handler.{Handler, Service, delete_runner}
use bunshin.Broker.Handler.Replies.{broker_service}
use bunshin.Runner.Registration.{
  DeregisterDeps, DeregisterError, deregister, send_delete, status_result,
}
use bunshin.Runner.Registration.Channel.{Fate, request_lost, reply_lost, delivered, after_fate}

module _ {W : Type 0} {api : DynamoApi W} {table_name : Text} (marshaller : Marshaller)
    (base : TableLaws api table_name) (fuel : ℕ) (rand_hex : W → Text) (s : BrokerService W)
    (h : Handler) (rounds : ℕ) (receive : Text → Request) (fate : W → Fate)
    (broker_url runner_id : Text)
    (received : (receive (broker_url ++ (lit "/internal/runners/" ++ runner_id))).param ≡ runner_id)
    (can_request : Text → Bool) where
  open base use {table, item_at}

  abbrev service : Service W
  service = broker_service (dynamo_repository api marshaller table_name fuel rand_hex) s rounds

  -- The broker's answer to a DELETE.
  unfoldable pub deleted : Text → W → Option ℕ × W
  deleted url w = elim (delete_runner h service (receive url) w) [
    | ok reply w' ↦ (some reply.status, w')
    | err e w' ↦ absurd e
    | diverged ↦ (none, w)
  ]

  abbrev pub leaving_deps : DeregisterDeps W
  leaving_deps = record {
    broker_url = broker_url;
    runner_id = runner_id;
    can_request = can_request;
    http_do = λ url w. after_fate (fate w) (deleted url w) w;
  }

  -- The runner is out of the table, and nobody else.
  abbrev pub IsOut : W → W → Type 0
  IsOut w w' =
      (j : Text)
      → item_at (table w') j ≡ (if text_eq j runner_id then none else item_at (table w) j)

  service_deletes : (w w' : W) → service.deregister_runner runner_id w ≡ ok tt w' → IsOut w w'
  unfolding deregister_runner dynamo_repository Dynamo.delete
  service_deletes w w' e = elim (ended (api.delete_item (delete_input table_name runner_id) w)) [
    | never p ↦ absurd (ground arith)
    | with_ok a u p ↦ (base.delete_ok runner_id w w' (ground arith)).0
    | with_err x u p ↦ absurd (ground arith)
  ]

  deleted_leaves :
      (url : Text) (w : W)
      → (receive url).param ≡ runner_id
      → (deleted url w).0 ≡ some 204
      → IsOut w (deleted url w).1
  unfolding deleted delete_runner
  deleted_leaves url w at made = elim (ended (service.deregister_runner runner_id w)) [
    | never p ↦ absurd (ground arith)
    | with_ok a u p ↦ rw (at, p, deleted, delete_runner) (service_deletes w u p)
    | with_err x u p ↦ absurd (ground arith)
  ]

  fate_leaves :
      (f : Fate) (url : Text) (w : W)
      → (receive url).param ≡ runner_id
      → (after_fate f (deleted url w) w).0 ≡ some 204
      → IsOut w (after_fate f (deleted url w) w).1
  unfolding after_fate
  fate_leaves request_lost url w at made = absurd (ground arith)
  fate_leaves reply_lost url w at made = absurd (ground arith)
  fate_leaves delivered url w at made = deleted_leaves url w at made

  result_leaves :
      (w w' : W) (answer : Option ℕ × W)
      → (answer.0 ≡ some 204 → IsOut w answer.1)
      → status_result answer.0 answer.1 ≡ ok tt w'
      → IsOut w w'
  unfolding status_result
  result_leaves w w' (none, u) h e = absurd (ground arith)
  result_leaves w w' (some status, u) h e = elim (Bool-cases (status == 204)) [
    | inl same ↦
        subst (IsOut w) (ok_injective (sym (rw same refl) ∙ e)).1
          (h (ap some ((==_iff status 204).0 same)))
    | inr other ↦ absurd (ground arith)
  ]

  -- Over a network that may lose the request or its reply: if the runner's deregister succeeds, the
  -- table has no item with the runner's id any more, and all others as before.
  pub deregister_leaves : (w w' : W) → deregister leaving_deps w ≡ ok tt w' → IsOut w w'
  unfolding deregister send_delete
  deregister_leaves w w' e =
      let url = broker_url ++ (lit "/internal/runners/" ++ runner_id) in
      elim (Bool-cases (can_request url)) [
        | inl can ↦
            result_leaves w w' (leaving_deps.http_do url w) (fate_leaves (fate w) url w received) (
              subst
                (λ b.
                  (if b
                    then send_delete leaving_deps url w
                    else err DeregisterError.create_failed w)
                  ≡ ok tt w')
                can e)
        | inr cannot ↦ absurd (ground arith)
      ]
