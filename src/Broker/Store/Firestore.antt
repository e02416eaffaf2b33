-- ===== src/Broker/Store/Firestore.antt =====
-- broker/store/firestore.go: the repository over FirestoreClientAPI.
pub mod Documents
pub mod Laws
pub mod Assign
pub mod Candidates
pub mod Scan
pub mod Acquire
pub mod Readable
pub mod Taken
pub mod Found
pub mod Refines
use bunshin.Prelude.{
  ℕ, zero, suc, Bool, true, false, ◌||◌, List, [], ◌∷◌, ◌++◌, Option, none, some, length, is_empty,
  ltb, not, if◌then◌else◌,
}
use bunshin.Text.{Text, lit, text_eq}
use bunshin.Outcome.{Outcome, Act, ok, err, diverged, ◌>>=◌}
use bunshin.Broker.Model.{Runner, state_idle, state_busy}
use bunshin.Broker.Store.{
  StoreError, not_found, no_idle_runner, condition_failed, invalid_runner_id, invalid_private_host,
  backend, acquire_query_limit, valid_runner_id, Repository,
}

-- A field's value, an `any`: nil, a string, or anything else.
pub data Value : Type 0 where
  null : Value
  text : Text → Value
  other : ℕ → Value

-- map[string]any.
abbrev pub Fields : Type 0
Fields = List (Text × Value)

abbrev pub field_private_host : Text
field_private_host = lit "privateHost"

abbrev pub field_current_session_id : Text
field_current_session_id = lit "currentSessionId"

unfoldable pub get_field : Text → Fields → Option Value
get_field name [] = none
get_field name ((key, value) ∷ fields) =
    if text_eq key name then some value else get_field name fields

unfoldable pub set_field : Text → Value → Fields → Fields
set_field name value [] = (name, value) ∷ []
set_field name value ((key, old) ∷ fields) =
    if text_eq key name then (key, value) ∷ fields else (key, old) ∷ set_field name value fields

pub record RunnerDoc : Type 0 where
  pub runner_id : Text
  pub private_host : Text
  pub current_session_id : Text

-- runnerDoc.toModel.
unfoldable pub to_model : RunnerDoc → Runner
to_model d = record {
  runner_id = d.runner_id;
  state = if is_empty d.current_session_id then state_idle else state_busy;
  current_session_id = d.current_session_id;
  private_host = d.private_host;
}

pub record DocSnapshot : Type 0 where
  pub id : Text
  pub fields : Fields

-- FirestoreTx, over the state `T` of a transaction.
pub record FirestoreTx (T : Type 0) : Type 0 where
  pub get : Text → Act T StoreError (Option Fields)
  pub update : Text → Text → Value → Act T StoreError (Unit {0})

-- What an iterator still yields: the results of its calls of Next.
pub data DocIter : Type 0 where
  done : DocIter
  fail : StoreError → DocIter
  next : DocSnapshot → DocIter → DocIter

-- FirestoreClientAPI, over the state `W` of the database.
pub record FirestoreClientApi (W T : Type 0) : Type 0 where
  pub tx : FirestoreTx T
  pub create : Text → Fields → Act W StoreError (Unit {0})
  pub get : Text → Act W StoreError (Option Fields)
  pub delete : Text → Act W StoreError (Unit {0})
  pub query_idle_range : Text → Text → ℕ → Act W StoreError (List DocSnapshot)
  pub iter_busy : W → DocIter
  pub query_by_session : Text → Act W StoreError (Option DocSnapshot)
  pub run_tx : Act T StoreError (Unit {0}) → Act W StoreError (Unit {0})

-- The errors of snapshotToDoc.
abbrev pub malformed : StoreError
malformed = backend 0

-- snapshotToDoc; `none` is an error.
with_session : Text → Text → Option Value → Option RunnerDoc
with_session id host none = none
with_session id host (some null) =
    some (record { runner_id = id; private_host = host; current_session_id = [] })
with_session id host (some (text s)) =
    some (record { runner_id = id; private_host = host; current_session_id = s })
with_session id host (some (other n)) = none

with_host : Text → Fields → Option Value → Option RunnerDoc
unfolding with_session
with_host id fields (some (text host)) =
    with_session id host (get_field field_current_session_id fields)
with_host id fields _ = none

unfoldable pub snapshot_to_doc : Text → Fields → Option RunnerDoc
unfolding with_host
snapshot_to_doc id fields = with_host id fields (get_field field_private_host fields)

-- `_, done := tried[id]`.
unfoldable pub has_tried : Text → List Text → Bool
has_tried id [] = false
has_tried id (t ∷ tried) = text_eq t id || has_tried id tried

-- errors.Is(err, ErrConditionFailed).
abbrev is_condition_failed : StoreError → Bool
is_condition_failed condition_failed = true
is_condition_failed _ = false

-- snaps[len(snaps)-1].ID, with a default.
abbrev pub last_id : Text → List DocSnapshot → Text
last_id id [] = id
last_id id (s ∷ snaps) = last_id s.id snaps

module _ {W T : Type 0} (api : FirestoreClientApi W T) where
  unfoldable pub register : Text → Text → Act W StoreError (Unit {0})
  unfolding valid_runner_id
  register runner_id private_host w =
      if not (valid_runner_id runner_id)
      then err invalid_runner_id w
      else if is_empty private_host
      then err invalid_private_host w
      else api.create runner_id
          ((field_private_host, text private_host) ∷ (field_current_session_id, null) ∷ []) w

  -- The end of the transaction of assignSession, from the field that was read.
  assign_if_null : Text → Text → Option Value → Act T StoreError (Unit {0})
  assign_if_null runner_id session (some null) =
      api.tx.update runner_id field_current_session_id (text session)
  assign_if_null runner_id session _ = err condition_failed

  assign_body : Text → Text → Option Fields → Act T StoreError (Unit {0})
  unfolding assign_if_null
  assign_body runner_id session none = err condition_failed
  assign_body runner_id session (some fields) =
      assign_if_null runner_id session (get_field field_current_session_id fields)

  pub assign_session : Text → Text → Act W StoreError (Unit {0})
  unfolding assign_body
  assign_session runner_id session =
      api.run_tx (api.tx.get runner_id >>= assign_body runner_id session)

  -- The loop of assignFirstIdle; the set of tried ids is part of the result.
  pub assign_first_idle :
      Text → List DocSnapshot → List Text → Act W StoreError (Option Runner × List Text)
  unfolding assign_session
  assign_first_idle session [] tried w = ok (none, tried) w
  assign_first_idle session (s ∷ candidates) tried w = elim (has_tried s.id tried) [
    | true ↦ assign_first_idle session candidates tried w
    | false ↦ elim (snapshot_to_doc s.id s.fields) [
      | none ↦ assign_first_idle session candidates (s.id ∷ tried) w
      | some doc ↦ elim (assign_session s.id session w) [
        | ok _ w' ↦
            ok
              (
                some (record {
                  runner_id = s.id;
                  state = state_busy;
                  current_session_id = session;
                  private_host = doc.private_host;
                }),
                tried,
              )
              w'
        | err e w' ↦ elim (is_condition_failed e) [
          | true ↦ assign_first_idle session candidates (s.id ∷ tried) w'
          | false ↦ err e w'
        ]
        | diverged ↦ diverged
      ]
    ]
  ]

  -- The loop over the pages of one segment.
  pub scan_segment :
      ℕ → Text → Text → Text → List Text → Act W StoreError (Option Runner × List Text)
  unfolding assign_first_idle
  scan_segment zero session after up_to tried w = diverged
  scan_segment (suc fuel) session after up_to tried w =
      elim (api.query_idle_range after up_to acquire_query_limit w) [
        | err e w' ↦ err e w'
        | diverged ↦ diverged
        | ok [] w' ↦ ok (none, tried) w'
        | ok (s ∷ snaps) w' ↦ elim (assign_first_idle session (s ∷ snaps) tried w') [
          | err e w'' ↦ err e w''
          | diverged ↦ diverged
          | ok (some runner, tried') w'' ↦ ok (some runner, tried') w''
          | ok (none, tried') w'' ↦ elim (ltb (length (s ∷ snaps)) acquire_query_limit) [
            | true ↦ ok (none, tried') w''
            | false ↦ scan_segment fuel session (last_id s.id snaps) up_to tried' w''
          ]
        ]
      ]

  -- AcquireIdle, from the random start.
  unfoldable pub acquire_from : ℕ → Text → Text → Act W StoreError Runner
  unfolding scan_segment
  acquire_from fuel start session w = elim (scan_segment fuel session start [] [] w) [
    | err e w' ↦ err e w'
    | diverged ↦ diverged
    | ok (some runner, tried) w' ↦ ok runner w'
    | ok (none, tried) w' ↦ elim (scan_segment fuel session [] start tried w') [
      | err e w'' ↦ err e w''
      | diverged ↦ diverged
      | ok (some runner, tried') w'' ↦ ok runner w''
      | ok (none, tried') w'' ↦ err no_idle_runner w''
    ]
  ]

  -- The loop of ListBusyRunners.
  collect_busy : DocIter → List Runner → Act W StoreError (List Runner)
  unfolding snapshot_to_doc to_model
  collect_busy done runners w = ok runners w
  collect_busy (fail e) runners w = err e w
  collect_busy (next s iter) runners w = elim (snapshot_to_doc s.id s.fields) [
    | none ↦ collect_busy iter runners w
    | some doc ↦ collect_busy iter (runners ++ (to_model doc ∷ [])) w
  ]

  unfoldable pub list_busy_runners : Act W StoreError (List Runner)
  unfolding collect_busy
  list_busy_runners w = collect_busy (api.iter_busy w) [] w

  pub model_or_error : Option RunnerDoc → Act W StoreError Runner
  unfolding to_model
  model_or_error none = err malformed
  model_or_error (some doc) = ok (to_model doc)

  pub found_snapshot : Option DocSnapshot → Act W StoreError Runner
  unfolding model_or_error
  found_snapshot none = err not_found
  found_snapshot (some s) = model_or_error (snapshot_to_doc s.id s.fields)

  unfoldable pub find_by_session_id : Text → Act W StoreError Runner
  unfolding found_snapshot
  find_by_session_id session = api.query_by_session session >>= found_snapshot

  found_fields : Text → Option Fields → Act W StoreError Runner
  unfolding model_or_error
  found_fields runner_id none = err not_found
  found_fields runner_id (some fields) = model_or_error (snapshot_to_doc runner_id fields)

  unfoldable pub find_by_id : Text → Act W StoreError Runner
  unfolding found_fields
  find_by_id runner_id = api.get runner_id >>= found_fields runner_id

  -- The repository, with the fuel for the pages of one segment and the source of the start.
  unfoldable pub firestore_repository : ℕ → (W → Text) → Repository W
  firestore_repository fuel rand_hex = record {
    register = register;
    acquire_idle = λ session w. acquire_from fuel (rand_hex w) session w;
    list_busy_runners = list_busy_runners;
    find_by_session_id = find_by_session_id;
    find_by_id = find_by_id;
    delete = api.delete;
  }
