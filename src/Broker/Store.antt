-- ===== src/Broker/Store.antt =====
-- broker/store/repository.go: the errors, the form of a runner id, and the Repository interface.
pub mod Contract
pub mod Dynamo
pub mod Firestore
use bunshin.Prelude.{ℕ, Bool, true, false, ◌&&◌, ◌||◌, List, length, all, leb, ◌==◌}
use bunshin.Text.{Text}
use bunshin.Outcome.{Act}
use bunshin.Broker.Model.{Runner}

-- The sentinel errors; `backend` is any other error, told apart by a number.
pub data StoreError : Type 0 where
  not_found no_idle_runner condition_failed conflict invalid_runner_id invalid_private_host :
      StoreError
  backend : ℕ → StoreError

abbrev pub acquire_query_limit : ℕ
acquire_query_limit = 5

abbrev pub is_hex : ℕ → Bool
is_hex c = (leb b'0' c && leb c b'9') || (leb b'a' c && leb c b'f')

-- The expression ^[0-9a-f]{32}$.
unfoldable pub valid_runner_id : Text → Bool
valid_runner_id s = length s == 32 && all is_hex s

-- Repository.
pub record Repository (W : Type 0) : Type 0 where
  pub register : Text → Text → Act W StoreError (Unit {0})
  pub acquire_idle : Text → Act W StoreError Runner
  pub list_busy_runners : Act W StoreError (List Runner)
  pub find_by_session_id : Text → Act W StoreError Runner
  pub find_by_id : Text → Act W StoreError Runner
  pub delete : Text → Act W StoreError (Unit {0})
