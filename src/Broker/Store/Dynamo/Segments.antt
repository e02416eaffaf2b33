-- ===== src/Broker/Store/Dynamo/Segments.antt =====
-- AcquireIdle over both segments, where the state-index has caught up with the table.
use bunshin.Prelude.{
  ℕ, suc, true, false, List, [], Option, none, some, ◌≡◌, refl, sym, ap, subst, ◌∙◌, ◌≢◌,
}
use bunshin.Text.{Text, lit}
use bunshin.Outcome.{Outcome, ok, err, diverged}
use bunshin.Broker.Model.{Runner}
use bunshin.Broker.Store.{StoreError, no_idle_runner}
use bunshin.Broker.Store.Dynamo.Api.{
  Item, member_s, DynamoApi, Marshaller, seg_first_cond, seg_second_cond,
}
use bunshin.Broker.Store.Dynamo.{scan_segment, scan_segments, acquire_from}
use bunshin.Broker.Store.Dynamo.Laws.{
  MarshallerLaws, TableLaws, CallsEnd, PageLaws, IndexLaws, get_attribute,
}
use bunshin.Broker.Store.Dynamo.Indexed.{
  Acquired, AfterIndexed, NonePending, scan_segment-AfterIndexed,
}

module _ {W : Type 0} {api : DynamoApi W} {table_name : Text} {base : TableLaws api table_name}
    {marshaller : Marshaller} (m : MarshallerLaws marshaller) (ends : CallsEnd api table_name)
    (pages : PageLaws base) (index : IndexLaws base pages) where
  open base use {Table, table, item_at, size}

  abbrev pub NoIdleItem : Table → Type 0
  NoIdleItem t =
      (id : Text) (item : Item)
      → item_at t id ≡ some item
      → get_attribute (lit "state") item ≢ some (member_s (lit "idle"))

  abbrev pub AfterAcquire : Text → Table → Outcome W StoreError Runner → Type 0
  AfterAcquire session t (ok r w') = Acquired m ends pages index session t (table w') r
  AfterAcquire session t (err no_idle_runner w') = (table w' ≡ t) × NoIdleItem t
  AfterAcquire session t (err e w') = Unit
  AfterAcquire session t diverged = ⊥

  AfterAcquire-err :
      (session : Text) (t : Table) (w' : W) (e : StoreError)
      → e ≢ no_idle_runner
      → AfterAcquire session t (err e w')
  AfterAcquire-err session t w' no_idle_runner h = absurd (h refl)
  AfterAcquire-err session t w' _ h = tt

  -- Between them the segments hold every id.
  segments_NoIdleItem :
      (start : Text) (t : Table)
      → NonePending m ends pages index seg_first_cond start t
      → NonePending m ends pages index seg_second_cond start t
      → NoIdleItem t
  segments_NoIdleItem start t first second id item held idle =
      let behind = index.idle_none t start first id item held idle in
      let up_to = index.idle_none_up_to t start second id item held idle in
      let same : false ≡ true = sym behind ∙ up_to in cc

  after_second :
      (fuel : ℕ) (start session : Text) (w w₁ : W)
      → scan_segment api marshaller table_name (suc fuel) session seg_first_cond start [] [] w
        ≡ ok (none, []) w₁
      → table w₁ ≡ table w
      → NonePending m ends pages index seg_first_cond start (table w)
      → (o : Outcome W StoreError (Option Runner × List Text))
      → scan_segment api marshaller table_name (suc fuel) session seg_second_cond start [] [] w₁ ≡ o
      → AfterIndexed m ends pages index session
          (table w)
          (NonePending m ends pages index seg_second_cond start (table w))
          o
      → AfterAcquire session
          (table w)
          (acquire_from api marshaller table_name (suc fuel) start session w)
  unfolding acquire_from scan_segments
  after_second fuel start session w w₁ p same first diverged q a = absurd a
  after_second fuel start session w w₁ p same first (err e w₂) q a =
      rw (p, q, scan_segments) (AfterAcquire-err session (table w) w₂ e a)
  after_second fuel start session w w₁ p same first (ok (some r, tried) w₂) q a =
      rw (p, q, scan_segments) a
  after_second fuel start session w w₁ p same first (ok (none, tried) w₂) q a =
      rw (p, q, scan_segments) (a.1, segments_NoIdleItem start (table w) first a.2)

  after_first :
      (fuel : ℕ) (start session : Text) (w : W)
      → (o : Outcome W StoreError (Option Runner × List Text))
      → scan_segment api marshaller table_name (suc fuel) session seg_first_cond start [] [] w ≡ o
      → AfterIndexed m ends pages index session
          (table w)
          (NonePending m ends pages index seg_first_cond start (table w))
          o
      → AfterAcquire session
          (table w)
          (acquire_from api marshaller table_name (suc fuel) start session w)
  unfolding acquire_from scan_segments
  after_first fuel start session w diverged p a = absurd a
  after_first fuel start session w (err e w₁) p a =
      rw (p, scan_segments) (AfterAcquire-err session (table w) w₁ e a)
  after_first fuel start session w (ok (some r, tried) w₁) p a = rw (p, scan_segments) a
  after_first fuel start session w (ok (none, tried) w₁) p a =
      after_second fuel start session w w₁ (p ∙ ap (λ x. ok (none, x) w₁) a.0) a.1 a.2 _ refl (
        subst
          (λ t.
            AfterIndexed m ends pages index session t
              (NonePending m ends pages index seg_second_cond start t)
              (scan_segment api marshaller table_name (suc fuel) session seg_second_cond start [] []
                w₁))
          a.1 (scan_segment-AfterIndexed m ends pages index fuel session seg_second_cond start w₁))

  -- Where the indexes have caught up with the table, the calls return and there is fuel for one page,
  -- AcquireIdle ends, from any start. A runner that it returns was idle in the table and is taken
  -- there with the session, and no other item changes; the answer that no runner is idle leaves the
  -- table as it is and comes only if no item is idle.
  pub acquire_from-AfterAcquire :
      (fuel : ℕ) (start session : Text) (w : W)
      → AfterAcquire session
          (table w)
          (acquire_from api marshaller table_name (suc fuel) start session w)
  acquire_from-AfterAcquire fuel start session w =
      after_first fuel start session w _ refl
        (scan_segment-AfterIndexed m ends pages index fuel session seg_first_cond start w)
