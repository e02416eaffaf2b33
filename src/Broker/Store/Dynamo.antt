-- ===== src/Broker/Store/Dynamo.antt =====
-- broker/store/dynamo.go: the repository over the subset dynamoDBAPI of the DynamoDB SDK.
pub mod Api
pub mod Laws
pub mod Assign
pub mod Acquire
pub mod Indexed
pub mod Segments
pub mod View
pub mod Found
pub mod Refines
pub mod Listing
pub mod Busy
pub mod Register
use bunshin.Prelude.{
  ℕ, zero, suc, Bool, true, false, ◌||◌, List, [], ◌∷◌, ◌++◌, Option, none, some, is_empty, not,
  if◌then◌else◌,
}
use bunshin.Text.{Text, text_eq}
use bunshin.Outcome.{Outcome, Act, ok, err, diverged}
use bunshin.Broker.Model.{Runner, state_idle, state_busy}
use bunshin.Broker.Store.{
  StoreError, not_found, no_idle_runner, condition_failed, conflict, invalid_runner_id,
  invalid_private_host, backend, valid_runner_id, Repository,
}
use bunshin.Broker.Store.Dynamo.Api.{
  Item, DynamoError, conditional_check_failed, aws_error, DynamoApi, Marshaller, seg_first_cond,
  seg_second_cond, idle_query, busy_query, session_query, assign_input, put_input, get_input,
  delete_input,
}

unfoldable pub is_conditional_check_failed : DynamoError → Bool
is_conditional_check_failed conditional_check_failed = true
is_conditional_check_failed (aws_error n) = false

-- fmt.Errorf with %w: none of the sentinel errors.
unfoldable pub wrapped : DynamoError → StoreError
wrapped conditional_check_failed = backend 1
wrapped (aws_error n) = backend (suc (suc n))

-- The error of a failed marshalling.
abbrev pub malformed : StoreError
malformed = backend 0

-- errors.Is(err, ErrConditionFailed).
unfoldable pub is_condition_failed : StoreError → Bool
is_condition_failed condition_failed = true
is_condition_failed _ = false

-- `_, done := tried[runner.RunnerID]`.
unfoldable pub was_tried : Text → List Text → Bool
was_tried id [] = false
was_tried id (t ∷ tried) = text_eq t id || was_tried id tried

module _ {W : Type 0} (api : DynamoApi W) (marshaller : Marshaller) (table_name : Text) where
  unfoldable pub register : Text → Text → Act W StoreError (Unit {0})
  unfolding valid_runner_id is_conditional_check_failed wrapped
  register runner_id private_host w =
      if not (valid_runner_id runner_id)
      then err invalid_runner_id w
      else if is_empty private_host
      then err invalid_private_host w
      else elim (marshaller.marshal (record {
        runner_id = runner_id;
        state = state_idle;
        current_session_id = [];
        private_host = private_host;
      })) [
        | none ↦ err malformed w
        | some item ↦ elim (api.put_item (put_input table_name item) w) [
          | ok _ w' ↦ ok tt w'
          | err e w' ↦ if is_conditional_check_failed e then err conflict w' else err (wrapped e) w'
          | diverged ↦ diverged
        ]
      ]

  pub assign_session : Text → Text → Act W StoreError (Unit {0})
  unfolding is_conditional_check_failed wrapped
  assign_session runner_id session w =
      elim (api.update_item (assign_input table_name runner_id session) w) [
        | ok _ w' ↦ ok tt w'
        | err e w' ↦
            if is_conditional_check_failed e then err condition_failed w' else err (wrapped e) w'
        | diverged ↦ diverged
      ]

  -- The loop of assignFirst; the set of tried ids is part of the result.
  pub assign_first : Text → List Runner → List Text → Act W StoreError (Option Runner × List Text)
  unfolding assign_session is_condition_failed was_tried
  assign_first session [] tried w = ok (none, tried) w
  assign_first session (runner ∷ candidates) tried w = elim (was_tried runner.runner_id tried) [
    | true ↦ assign_first session candidates tried w
    | false ↦ elim (assign_session runner.runner_id session w) [
      | ok _ w' ↦
          ok (some (record runner { state = state_busy; current_session_id = session }), tried) w'
      | err e w' ↦ elim (is_condition_failed e) [
        | true ↦ assign_first session candidates (runner.runner_id ∷ tried) w'
        | false ↦ err e w'
      ]
      | diverged ↦ diverged
    ]
  ]

  pub query_idle_page : Text → Text → Item → Act W StoreError (List Runner × Item)
  unfolding wrapped
  query_idle_page cond value exclusive_start w =
      elim (api.query (idle_query table_name cond value exclusive_start) w) [
        | err e w' ↦ err (wrapped e) w'
        | diverged ↦ diverged
        | ok out w' ↦ elim (marshaller.unmarshal_list out.items) [
          | none ↦ err malformed w'
          | some runners ↦ ok (runners, out.last_evaluated_key) w'
        ]
      ]

  -- The inner loop of AcquireIdle, over the pages of one segment.
  pub scan_segment :
      ℕ → Text → Text → Text → Item → List Text → Act W StoreError (Option Runner × List Text)
  unfolding query_idle_page assign_first
  scan_segment zero session cond start exclusive_start tried w = diverged
  scan_segment (suc fuel) session cond start exclusive_start tried w =
      elim (query_idle_page cond start exclusive_start w) [
        | err e w₁ ↦ err e w₁
        | diverged ↦ diverged
        | ok (runners, next) w₁ ↦ elim (assign_first session runners tried w₁) [
          | err e w₂ ↦ err e w₂
          | diverged ↦ diverged
          | ok (some runner, tried') w₂ ↦ ok (some runner, tried') w₂
          | ok (none, tried') w₂ ↦ elim (is_empty next) [
            | true ↦ ok (none, tried') w₂
            | false ↦ scan_segment fuel session cond start next tried' w₂
          ]
        ]
      ]

  -- The outer loop of AcquireIdle, over the conditions of the segments.
  pub scan_segments : ℕ → Text → Text → List Text → List Text → Act W StoreError Runner
  unfolding scan_segment
  scan_segments fuel session start [] tried w = err no_idle_runner w
  scan_segments fuel session start (cond ∷ conds) tried w =
      elim (scan_segment fuel session cond start [] tried w) [
        | err e w' ↦ err e w'
        | diverged ↦ diverged
        | ok (some runner, tried') w' ↦ ok runner w'
        | ok (none, tried') w' ↦ scan_segments fuel session start conds tried' w'
      ]

  -- AcquireIdle, from the random start.
  unfoldable pub acquire_from : ℕ → Text → Text → Act W StoreError Runner
  unfolding scan_segments
  acquire_from fuel start session =
      scan_segments fuel session start (seg_first_cond ∷ seg_second_cond ∷ []) []

  -- The loop of ListBusyRunners, over its pages.
  pub list_busy : ℕ → Item → List Runner → Act W StoreError (List Runner)
  unfolding wrapped
  list_busy zero exclusive_start all w = diverged
  list_busy (suc fuel) exclusive_start all w =
      elim (api.query (busy_query table_name exclusive_start) w) [
        | err e w' ↦ err (wrapped e) w'
        | diverged ↦ diverged
        | ok out w' ↦ elim (marshaller.unmarshal_list out.items) [
          | none ↦ err malformed w'
          | some page ↦ elim (is_empty out.last_evaluated_key) [
            | true ↦ ok (all ++ page) w'
            | false ↦ list_busy fuel out.last_evaluated_key (all ++ page) w'
          ]
        ]
      ]

  unfoldable pub list_busy_runners : ℕ → Act W StoreError (List Runner)
  unfolding list_busy
  list_busy_runners fuel = list_busy fuel [] []

  pub runner_or_error : Option Runner → Act W StoreError Runner
  runner_or_error none = err malformed
  runner_or_error (some runner) = ok runner

  pub first_item : List Item → Act W StoreError Runner
  unfolding runner_or_error
  first_item [] = err not_found
  first_item (item ∷ items) = runner_or_error (marshaller.unmarshal item)

  unfoldable pub find_by_session_id : Text → Act W StoreError Runner
  unfolding wrapped first_item
  find_by_session_id session w = elim (api.query (session_query table_name session) w) [
    | err e w' ↦ err (wrapped e) w'
    | diverged ↦ diverged
    | ok out w' ↦ first_item out.items w'
  ]

  pub found_item : Option Item → Act W StoreError Runner
  unfolding runner_or_error
  found_item none = err not_found
  found_item (some item) = runner_or_error (marshaller.unmarshal item)

  unfoldable pub find_by_id : Text → Act W StoreError Runner
  unfolding wrapped found_item
  find_by_id runner_id w = elim (api.get_item (get_input table_name runner_id) w) [
    | err e w' ↦ err (wrapped e) w'
    | diverged ↦ diverged
    | ok found w' ↦ found_item found w'
  ]

  unfoldable pub delete : Text → Act W StoreError (Unit {0})
  unfolding wrapped
  delete runner_id w = elim (api.delete_item (delete_input table_name runner_id) w) [
    | ok _ w' ↦ ok tt w'
    | err e w' ↦ err (wrapped e) w'
    | diverged ↦ diverged
  ]

  -- NewDynamoRepository, with the fuel for the pages of a query and the source of the start.
  unfoldable pub dynamo_repository : ℕ → (W → Text) → Repository W
  dynamo_repository fuel rand_hex = record {
    register = register;
    acquire_idle = λ session w. acquire_from fuel (rand_hex w) session w;
    list_busy_runners = list_busy_runners fuel;
    find_by_session_id = find_by_session_id;
    find_by_id = find_by_id;
    delete = delete;
  }
