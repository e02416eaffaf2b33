-- ===== src/Broker/Store/Firestore/Refines.antt =====
-- The Firestore repository keeps the contract of Repository.
use bunshin.Prelude.{
  ℕ, ◌<◌, ◌≤◌, [], Option, none, some, ◌≡◌, sym, ap, subst, ◌∙◌, ◌≢◌, inl, inr, if◌then◌else◌,
  arith, length,
}
use bunshin.Prelude.{some_inj}
use bunshin.Text.{Text, text_eq}
use bunshin.Outcome.{Outcome, ok, err, diverged, bind-eq-ok, bind-eq-err, bind-ends}
use bunshin.Broker.Model.{Runner, state_idle}
use bunshin.Broker.Store.{StoreError, not_found, no_idle_runner, Repository}
use bunshin.Broker.Store.Contract.{Contract, SameTable, assigned}
use bunshin.Broker.Store.Firestore.{
  FirestoreClientApi, to_model, found_snapshot, find_by_session_id, firestore_repository,
}
use bunshin.Broker.Store.Firestore.Documents.{
  find_doc, length-update_doc, length-without_doc-le, length-without_doc-lt,
}
use bunshin.Broker.Store.Firestore.Laws.{FirestoreLaws}
use bunshin.Broker.Store.Firestore.Acquire.{AfterAcquire, acquire_from_lem}
use bunshin.Broker.Store.Firestore.Readable.{model_of, model_of-eq-some, to_model-state}
use bunshin.Broker.Store.Firestore.Taken.{
  AllWellFormed, model_at, model_at-named, AllWellFormed-without, model_at-without, taken,
  taken-idle, taken-assigned, taken-at, updated-at, updated-AllWellFormed,
}
use bunshin.Broker.Store.Firestore.Found.{
  found_snapshot-eq-ok, found_snapshot-eq-not_found, found_snapshot_errors, found_snapshot_ends,
  has_session, session_in_doc, to_model-named,
}

model_of_none : (id : Text) (r : Runner) → model_of id none ≢ some r
model_of_none id r e = cc

module _ {W T : Type 0} {api : FirestoreClientApi W T} (laws : FirestoreLaws api) (fuel : ℕ)
    (rand_hex : W → Text) where
  open laws use {docs}

  abbrev pub repo : Repository W
  repo = firestore_repository api fuel rand_hex

  abbrev pub runner_at : W → Text → Option Runner
  runner_at w = model_at (docs w)

  abbrev pub size : W → ℕ
  size w = length (docs w)

  abbrev pub IsSound : W → Type 0
  IsSound w = (length (docs w) < fuel) × AllWellFormed (docs w)

  same-SameTable : (w w' : W) → docs w' ≡ docs w → SameTable runner_at size IsSound w w'
  same-SameTable w w' e = record {
    same_runners = λ j. ap (λ d. model_at d j) e;
    same_size = ap length e;
    still_sound = subst (λ d. (length d < fuel) × AllWellFormed d) (sym e);
  }

  acquired :
      (session : Text) (w : W) (o : Outcome W StoreError Runner)
      → length (docs w) < fuel
      → repo.acquire_idle session w ≡ o
      → AfterAcquire laws session w o
  unfolding firestore_repository
  acquired session w o h e =
      subst (AfterAcquire laws session w) e (acquire_from_lem laws fuel (rand_hex w) session w h)

  -- Over a sound Firestore collection, a successful AcquireIdle for a session that is not empty
  -- returns a runner that was idle, now busy with the session; that record alone is rewritten, and
  -- the collection stays sound.
  pub acquire_idle_assigns :
      (session : Text) (w w' : W) (r : Runner)
      → session ≢ []
      → IsSound w
      → repo.acquire_idle session w ≡ ok r w'
      → (q : Runner) × (r ≡ assigned q session)
        × (runner_at w q.runner_id ≡ some q)
        × (q.state ≡ state_idle)
        × ((j : Text) → runner_at w' j ≡ (if text_eq j q.runner_id then some r else runner_at w j))
        × (size w' ≡ size w)
        × IsSound w'
  acquire_idle_assigns session w w' r filled sound e =
      let a = acquired session w (ok r w') sound.0 e in
      let size : length (docs w') ≡ length (docs w) =
        ap length a.written ∙ length-update_doc r.runner_id _ _ (docs w) in
      (
        taken session filled (docs w) (docs w') r a,
        taken-assigned session filled (docs w) (docs w') r a,
        taken-at session filled (docs w) (docs w') r a,
        taken-idle session filled (docs w) (docs w') r a,
        updated-at session filled (docs w) (docs w') r a,
        size,
        (
          omega (arith, size, sound.0),
          updated-AllWellFormed session filled (docs w) (docs w') r a sound.1,
        ),
      )

  -- Over a sound Firestore collection, AcquireIdle answers ErrNoIdleRunner only if no runner is
  -- idle, and then changes nothing.
  pub acquire_idle_exhausted :
      (session : Text) (w w' : W)
      → IsSound w
      → repo.acquire_idle session w ≡ err no_idle_runner w'
      → ((j : Text) (r : Runner) → runner_at w j ≡ some r → r.state ≢ state_idle)
        × SameTable runner_at size IsSound w w'
  acquire_idle_exhausted session w w' sound e =
      let a = acquired session w (err no_idle_runner w') sound.0 e in
      (
        λ j r at idle.
            let (fields, doc, found, readable, same) =
              model_of-eq-some j (find_doc j (docs w)) r at in
            let (doc', readable', how, named) = sound.1 j fields found in
            let doc_idle = to_model-state j fields doc' readable' how (
              ap (λ d. (to_model d).state) (some_inj (sym readable' ∙ readable))
              ∙ ap (λ (x : Runner). x.state) (sym same)
              ∙ idle) in
            let unreadable : none ≡ some doc = sym (a.1 j fields found doc_idle named) ∙ readable in
            cc,
        same-SameTable w w' a.0,
      )

  -- Over a sound Firestore collection of fewer documents than the fuel, AcquireIdle ends.
  pub acquire_idle_ends :
      (session : Text) (w : W) → IsSound w → size w < fuel → repo.acquire_idle session w ≢ diverged
  acquire_idle_ends session w sound h e = acquired session w diverged h e

  -- Over a sound Firestore collection, a successful Delete removes the one runner, leaves every
  -- other record as it was, makes the collection smaller if the runner was there, and keeps it sound.
  pub delete_removes :
      (id : Text) (w w' : W)
      → IsSound w
      → repo.delete id w ≡ ok tt w'
      → ((j : Text) → runner_at w' j ≡ (if text_eq j id then none else runner_at w j))
        × ((r : Runner) → runner_at w id ≡ some r → size w' < size w)
        × (size w' ≤ size w)
        × IsSound w'
  unfolding firestore_repository
  delete_removes id w w' sound e =
      let gone = laws.delete_ok id w w' e in
      let shorter = length-without_doc-le id (docs w) in
      (
        λ j. ap (λ d. model_at d j) gone ∙ model_at-without j id (docs w),
        λ r at. omega (
          arith,
          ap length gone,
          length-without_doc-lt id (docs w)
              (λ missing. model_of_none id r (ap (model_of id) (sym missing) ∙ at)),
        ),
        omega (arith, ap length gone, shorter),
        (
          omega (arith, ap length gone, shorter, sound.0),
          subst AllWellFormed (sym gone) (AllWellFormed-without id (docs w) sound.1),
        ),
      )

  delete_ends : (id : Text) (w : W) → repo.delete id w ≢ diverged
  unfolding firestore_repository
  delete_ends id w = laws.delete_ends id w

  delete_errors :
      (id : Text) (w w' : W)
      → (repo.delete id w ≢ err not_found w') × (repo.delete id w ≢ err no_idle_runner w')
  unfolding firestore_repository
  delete_errors id w w' = laws.delete_err id w w'

  -- Over Firestore, the runner that FindBySessionID returns is in the table under its id and has
  -- the session, and the table is unchanged.
  pub find_by_session_id_finds :
      (session : Text) (w w' : W) (r : Runner)
      → repo.find_by_session_id session w ≡ ok r w'
      → (runner_at w r.runner_id ≡ some r)
        × (r.current_session_id ≡ session)
        × SameTable runner_at size IsSound w w'
  unfolding firestore_repository find_by_session_id
  find_by_session_id_finds session w w' r e =
      let (found, w₁, queried, rest) =
        bind-eq-ok (api.query_by_session session) (found_snapshot api) w e in
      let (s, doc, is_some, readable, same, same_w) = found_snapshot-eq-ok api found r w₁ w' rest in
      let (at, has, unchanged) =
        laws.session_some session w w₁ s (queried ∙ ap (λ x. ok x w₁) is_some) in
      let id : r.runner_id ≡ s.id =
        ap (λ (x : Runner). x.runner_id) same ∙ to_model-named s.id s.fields doc readable in
      (
        ap (runner_at w) id ∙ rw (at, readable) (ap some (sym same)),
        ap (λ (x : Runner). x.current_session_id) same
            ∙ has_session s.id session s.fields doc readable has,
        same-SameTable w w' (ap docs (sym same_w) ∙ unchanged),
      )

  -- Over Firestore, FindBySessionID of a session that is not empty answers ErrNotFound only if no
  -- runner has the session, and the table is unchanged.
  pub find_by_session_id_misses :
      (session : Text) (w w' : W)
      → session ≢ []
      → repo.find_by_session_id session w ≡ err not_found w'
      → ((j : Text) (r : Runner) → runner_at w j ≡ some r → r.current_session_id ≢ session)
        × SameTable runner_at size IsSound w w'
  unfolding firestore_repository find_by_session_id
  find_by_session_id_misses session w w' filled e =
      elim (bind-eq-err (api.query_by_session session) (found_snapshot api) w e) [
        | inl failed ↦ absurd ((laws.session_err session w w').0 failed)
        | inr (found, w₁, queried, rest) ↦
            let (missing, same_w) = found_snapshot-eq-not_found api found w₁ w' rest in
            let (nobody, unchanged) =
              laws.session_none session w w₁ (queried ∙ ap (λ x. ok x w₁) missing) in
            (
              λ j r at e'.
                  let (fields, doc, held, readable, same) =
                    model_of-eq-some j (find_doc j (docs w)) r at in
                  nobody j fields held (
                    session_in_doc j session fields doc filled readable
                      (ap (λ (x : Runner). x.current_session_id) (sym same) ∙ e')),
              same-SameTable w w' (ap docs (sym same_w) ∙ unchanged),
            )
      ]

  find_ends : (session : Text) (w : W) → repo.find_by_session_id session w ≢ diverged
  unfolding firestore_repository find_by_session_id
  find_ends session w =
      bind-ends (api.query_by_session session) (found_snapshot api) w (laws.session_ends session w)
        (found_snapshot_ends api)

  find_errors :
      (session : Text) (w w' : W) → repo.find_by_session_id session w ≢ err no_idle_runner w'
  unfolding firestore_repository find_by_session_id
  find_errors session w w' e =
      elim (bind-eq-err (api.query_by_session session) (found_snapshot api) w e) [
        | inl failed ↦ (laws.session_err session w w').1 failed
        | inr (found, w₁, queried, rest) ↦ found_snapshot_errors api found w₁ w' rest
      ]

  -- So all that the service promises holds over Firestore, with fuel for every table that the
  -- fuel exceeds.
  unfoldable pub firestore_contract : Contract (firestore_repository api fuel rand_hex)
  unfolding delete_ends delete_errors find_ends find_errors acquired same-SameTable model_of_none
  firestore_contract = record {
    runner_at = runner_at;
    size = size;
    bound = fuel;
    IsSound = IsSound;
    named = λ w id r at. model_at-named (docs w) id r at;
    acquire_ok = acquire_idle_assigns;
    acquire_none = acquire_idle_exhausted;
    acquire_ends = acquire_idle_ends;
    delete_ok = delete_removes;
    delete_ends = delete_ends;
    delete_errors = delete_errors;
    find_ok = find_by_session_id_finds;
    find_none = find_by_session_id_misses;
    find_ends = find_ends;
    find_errors = find_errors;
  }
