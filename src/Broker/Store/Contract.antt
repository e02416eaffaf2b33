-- ===== src/Broker/Store/Contract.antt =====
-- What the service relies on of a Repository, whichever database is behind it.
use bunshin.Prelude.{ℕ, ◌<◌, ◌≤◌, [], Option, none, some, ◌≡◌, ◌≢◌, if◌then◌else◌}
use bunshin.Text.{Text, text_eq}
use bunshin.Outcome.{ok, err, diverged}
use bunshin.Broker.Model.{Runner, state_idle, state_busy}
use bunshin.Broker.Store.{not_found, no_idle_runner, Repository}

-- The runner as AcquireIdle returns it.
abbrev pub assigned : Runner → Text → Runner
assigned r session = record r { state = state_busy; current_session_id = session }

-- A step that leaves the table alone.
pub record SameTable {W : Type 0} (runner_at : W → Text → Option Runner) (size : W → ℕ)
    (IsSound : W → Type 0) (w w' : W) : Type 0 where
  pub same_runners : (j : Text) → runner_at w' j ≡ runner_at w j
  pub same_size : size w' ≡ size w
  pub still_sound : IsSound w → IsSound w'

-- The table of runners as a finite map from ids, with the number of its records.
pub record Contract {W : Type 0} (repo : Repository W) : Type 1 where
  pub runner_at : W → Text → Option Runner
  pub size : W → ℕ
  pub bound : ℕ
  -- What every record in the table satisfies.
  pub IsSound : W → Type 0
  pub named : (w : W) (id : Text) (r : Runner) → runner_at w id ≡ some r → r.runner_id ≡ id
  -- AcquireIdle takes an idle runner and makes it busy with the session; nothing else changes.
  pub acquire_ok :
      (session : Text) (w w' : W) (r : Runner)
      → session ≢ []
      → IsSound w
      → repo.acquire_idle session w ≡ ok r w'
      → (q : Runner) × (r ≡ assigned q session)
        × (runner_at w q.runner_id ≡ some q)
        × (q.state ≡ state_idle)
        × ((j : Text) → runner_at w' j ≡ (if text_eq j q.runner_id then some r else runner_at w j))
        × (size w' ≡ size w)
        × IsSound w'
  -- It reports that no runner is idle only if none is.
  pub acquire_none :
      (session : Text) (w w' : W)
      → IsSound w
      → repo.acquire_idle session w ≡ err no_idle_runner w'
      → ((j : Text) (r : Runner) → runner_at w j ≡ some r → r.state ≢ state_idle)
        × SameTable runner_at size IsSound w w'
  -- It ends when the table has no more records than the bound.
  pub acquire_ends :
      (session : Text) (w : W) → IsSound w → size w < bound → repo.acquire_idle session w ≢ diverged
  pub delete_ok :
      (id : Text) (w w' : W)
      → IsSound w
      → repo.delete id w ≡ ok tt w'
      → ((j : Text) → runner_at w' j ≡ (if text_eq j id then none else runner_at w j))
        × ((r : Runner) → runner_at w id ≡ some r → size w' < size w)
        × (size w' ≤ size w)
        × IsSound w'
  pub delete_ends : (id : Text) (w : W) → repo.delete id w ≢ diverged
  pub delete_errors :
      (id : Text) (w w' : W)
      → (repo.delete id w ≢ err not_found w') × (repo.delete id w ≢ err no_idle_runner w')
  pub find_ok :
      (session : Text) (w w' : W) (r : Runner)
      → repo.find_by_session_id session w ≡ ok r w'
      → (runner_at w r.runner_id ≡ some r)
        × (r.current_session_id ≡ session)
        × SameTable runner_at size IsSound w w'
  pub find_none :
      (session : Text) (w w' : W)
      → session ≢ []
      → repo.find_by_session_id session w ≡ err not_found w'
      → ((j : Text) (r : Runner) → runner_at w j ≡ some r → r.current_session_id ≢ session)
        × SameTable runner_at size IsSound w w'
  pub find_ends : (session : Text) (w : W) → repo.find_by_session_id session w ≢ diverged
  pub find_errors :
      (session : Text) (w w' : W) → repo.find_by_session_id session w ≢ err no_idle_runner w'
