-- ===== src/Broker/Store/Dynamo/Refines.antt =====
-- The DynamoDB repository keeps the contract of Repository, with indexes that have caught up.
use bunshin.Prelude.{
  ℕ, suc, ◌<◌, ◌≤◌, [], none, some, ◌≡◌, refl, sym, ap, subst, ◌∙◌, ◌≢◌, inl, inr, arith,
  Bool-cases, if◌then◌else◌,
}
use bunshin.Text.{Text, text_eq}
use bunshin.Outcome.{ok, err, diverged}
use bunshin.Broker.Model.{Runner, state_idle}
use bunshin.Broker.Store.{not_found, no_idle_runner}
use bunshin.Broker.Store.Contract.{Contract}
use bunshin.Broker.Store.Dynamo.Api.{member_s, DynamoApi, Marshaller}
use bunshin.Broker.Store.Dynamo.{wrapped, delete, dynamo_repository}
use bunshin.Broker.Store.Dynamo.Laws.{MarshallerLaws, TableLaws, CallsEnd, PageLaws, IndexLaws}
use bunshin.Broker.Store.Dynamo.Segments.{NoIdleItem, AfterAcquire, acquire_from-AfterAcquire}
use bunshin.Text.Laws.{text_eq-ne}
use bunshin.Broker.Store.Dynamo.View.{
  runner_in-item, runner_in-named, Acquired-runner_in, IsSound, runner_at, size_of, SameTable-of,
}
use bunshin.Broker.Store.Dynamo.Found.{find_ok_lem, find_none_lem, find_errors_lem, find_ends_lem}

module _ {W : Type 0} {api : DynamoApi W} {table_name : Text} {base : TableLaws api table_name}
    {marshaller : Marshaller} (m : MarshallerLaws marshaller) (ends : CallsEnd api table_name)
    (pages : PageLaws base) (index : IndexLaws base pages) where
  open base use {Table, table, item_at, size}

  delete_ok_lem :
      (id : Text) (w w' : W)
      → delete api marshaller table_name id w ≡ ok tt w'
      → ((j : Text)
          → runner_at m ends pages index w' j
            ≡ (if text_eq j id then none else runner_at m ends pages index w j))
        × ((r : Runner)
            → runner_at m ends pages index w id ≡ some r
            → size_of m ends pages index w' < size_of m ends pages index w)
        × (size_of m ends pages index w' ≤ size_of m ends pages index w)
        × IsSound m ends pages index w'
  unfolding delete wrapped
  delete_ok_lem id w w' e =
      let (written, fewer, bounded) = base.delete_ok id w w' (ground arith) in
      (
        λ j. elim (Bool-cases (text_eq j id)) [
          | inl here ↦ rw (written j, here)
          | inr away ↦ rw (written j, away)
        ],
        λ r at.
            let (item, held, _) = runner_in-item m ends pages index (table w) id r at in
            fewer item held,
        bounded,
        tt,
      )

  NoIdleItem-view :
      (w : W)
      → NoIdleItem m ends pages index (table w)
      → (j : Text) (r : Runner) → runner_at m ends pages index w j ≡ some r
      → r.state ≢ state_idle
  NoIdleItem-view w no_idle j r held idle =
      let (item, stored, decoded) = runner_in-item m ends pages index (table w) j r held in
      let (_, state_reads, _) = m.reads item r decoded in
      no_idle j item stored (
        state_reads.attribute (λ x. text_eq-ne state_idle [] refl (sym idle ∙ x))
        ∙ ap (λ s. some (member_s s)) idle)

  delete_ends_lem : (id : Text) (w : W) → delete api marshaller table_name id w ≢ diverged
  unfolding delete
  delete_ends_lem id w e = ground (arith, ends.delete_ends id w)

  delete_errors_lem :
      (id : Text) (w w' : W)
      → (delete api marshaller table_name id w ≢ err not_found w')
        × (delete api marshaller table_name id w ≢ err no_idle_runner w')
  unfolding delete wrapped
  delete_errors_lem id w w' = ((λ e. ground arith), (λ e. ground arith))

  -- The repository refines the contract, for tables of any size and with fuel for one page.
  pub dynamo_contract :
      (fuel : ℕ) (rand_hex : W → Text)
      → Contract (dynamo_repository api marshaller table_name (suc fuel) rand_hex)
  unfolding dynamo_repository
  dynamo_contract fuel rand_hex = record {
    runner_at = runner_at m ends pages index;
    size = size_of m ends pages index;
    bound = fuel;
    IsSound = IsSound m ends pages index;
    named = λ w. runner_in-named m ends pages index (table w);
    acquire_ok = λ session w w' r _ sound e.
        let a =
          subst (AfterAcquire m ends pages index session (table w)) e
            (acquire_from-AfterAcquire m ends pages index fuel (rand_hex w) session w) in
        let (q, result, held, idle, written, sized) =
          Acquired-runner_in m ends pages index session (table w) (table w') r a in
        (q, result, held, idle, written, sized, tt);
    acquire_none = λ session w w' sound e.
        let (same, no_idle) =
          subst (AfterAcquire m ends pages index session (table w)) e
            (acquire_from-AfterAcquire m ends pages index fuel (rand_hex w) session w) in
        (NoIdleItem-view w no_idle, SameTable-of m ends pages index w w' same);
    acquire_ends = λ session w sound small e.
        subst (AfterAcquire m ends pages index session (table w)) e
          (acquire_from-AfterAcquire m ends pages index fuel (rand_hex w) session w);
    delete_ok = λ id w w' sound e. delete_ok_lem id w w' e;
    delete_ends = delete_ends_lem;
    delete_errors = delete_errors_lem;
    find_ok = find_ok_lem m ends pages index;
    find_none = find_none_lem m ends pages index;
    find_ends = find_ends_lem m ends pages index;
    find_errors = find_errors_lem m ends pages index;
  }
