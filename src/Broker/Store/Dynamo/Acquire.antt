-- ===== src/Broker/Store/Dynamo/Acquire.antt =====
-- AcquireIdle on the base table alone: an index that lags behind cannot give a runner away twice.
use bunshin.Prelude.{
  ℕ, zero, suc, List, [], ◌∷◌, none, some, ◌≡◌, subst, arith, inl, inr, Bool-cases, is_empty,
}
use bunshin.Text.{Text}
use bunshin.Outcome.{Outcome, ok, err, diverged, ended, with_ok, with_err, never}
use bunshin.Broker.Model.{Runner}
use bunshin.Broker.Store.{StoreError}
use bunshin.Broker.Store.Dynamo.Api.{
  idle_query, Item, DynamoApi, Marshaller, seg_first_cond, seg_second_cond,
}
use bunshin.Broker.Store.Dynamo.{
  wrapped, assign_first, query_idle_page, scan_segment, scan_segments, acquire_from,
}
use bunshin.Broker.Store.Dynamo.Laws.{TableLaws}
use bunshin.Broker.Store.Dynamo.Assign.{
  Searches, here, query_call, IsAcquired, IsAcquired-later, AfterSearch, AfterSearch-later,
  assign_first-AfterSearch,
}

module _ {W : Type 0} {api : DynamoApi W} {table_name : Text} (base : TableLaws api table_name)
    (marshaller : Marshaller) where
  -- A page that was read.
  query_idle_page-Searches :
      (session cond start : Text) (key : Item) (runners : List Runner) (next : Item) (w w' : W)
      → query_idle_page api marshaller table_name cond start key w ≡ ok (runners, next) w'
      → Searches base marshaller session w w'
  unfolding query_idle_page wrapped
  query_idle_page-Searches session cond start key runners next w w' e =
      elim (ended (api.query (idle_query table_name cond start key) w)) [
        | never p ↦ absurd (ground arith)
        | with_err x u p ↦ absurd (ground arith)
        | with_ok out u p ↦
            query_call (idle_query table_name cond start key) (rw p (ground arith)) here
      ]

  scan_segment-AfterSearch :
      (fuel : ℕ) (session cond start : Text) (key : Item) (tried : List Text) (w : W)
      → AfterSearch base marshaller session w
          (scan_segment api marshaller table_name fuel session cond start key tried w)
  unfolding scan_segment
  scan_segment-AfterSearch zero session cond start key tried w = tt
  scan_segment-AfterSearch (suc fuel) session cond start key tried w =
      elim (ended (query_idle_page api marshaller table_name cond start key w)) [
        | never p ↦ rw (p, scan_segment) tt
        | with_err e w₁ p ↦ rw (p, scan_segment) tt
        | with_ok (runners, next) w₁ p ↦
            let page = query_idle_page-Searches session cond start key runners next w w₁ p in
            let first =
              AfterSearch-later base marshaller session w w₁ _ page
                (assign_first-AfterSearch base marshaller session runners tried w₁) in
            elim (ended (assign_first api marshaller table_name session runners tried w₁)) [
              | never q ↦ rw (p, q, scan_segment) tt
              | with_err e w₂ q ↦ rw (p, q, scan_segment) tt
              | with_ok (some r, tried') w₂ q ↦
                  rw (p, q, scan_segment) (subst (AfterSearch base marshaller session w) q first)
              | with_ok (none, tried') w₂ q ↦
                  let so_far = subst (AfterSearch base marshaller session w) q first in
                  elim (Bool-cases (is_empty next)) [
                    | inl last ↦ rw (p, q, last, scan_segment) so_far
                    | inr more ↦
                        rw (p, q, more, scan_segment)
                          (AfterSearch-later base marshaller session w w₂ _ so_far
                            (scan_segment-AfterSearch fuel session cond start next tried' w₂))
                  ]
            ]
      ]

  abbrev AfterAcquire : Text → W → Outcome W StoreError Runner → Type 0
  AfterAcquire session w (ok r w') = IsAcquired base marshaller session w w' r
  AfterAcquire session w (err e w') = Unit
  AfterAcquire session w diverged = Unit

  AfterAcquire-later :
      (session : Text) (w u : W) (o : Outcome W StoreError Runner)
      → Searches base marshaller session w u
      → AfterAcquire session u o
      → AfterAcquire session w o
  AfterAcquire-later session w u (ok r w') s a =
      IsAcquired-later base marshaller session w u w' r s a
  AfterAcquire-later session w u (err e w') s a = tt
  AfterAcquire-later session w u diverged s a = tt

  scan_segments-AfterAcquire :
      (fuel : ℕ) (session start : Text) (conds tried : List Text) (w : W)
      → AfterAcquire session w
          (scan_segments api marshaller table_name fuel session start conds tried w)
  unfolding scan_segments
  scan_segments-AfterAcquire fuel session start [] tried w = tt
  scan_segments-AfterAcquire fuel session start (cond ∷ conds) tried w =
      let one = scan_segment-AfterSearch fuel session cond start [] tried w in
      elim (ended (scan_segment api marshaller table_name fuel session cond start [] tried w)) [
        | never p ↦ rw (p, scan_segments) tt
        | with_err e w₁ p ↦ rw (p, scan_segments) tt
        | with_ok (some r, tried') w₁ p ↦
            rw (p, scan_segments) (subst (AfterSearch base marshaller session w) p one)
        | with_ok (none, tried') w₁ p ↦
            rw (p, scan_segments)
              (AfterAcquire-later session w w₁ _
                (subst (AfterSearch base marshaller session w) p one)
                (scan_segments-AfterAcquire fuel session start conds tried' w₁))
      ]

  -- Where the conditional update of the base table is atomic, and whatever the queries answer or
  -- other clients do during the calls: if AcquireIdle returns a runner, the calls of the run are
  -- queries and updates that the table refused, up to a world in which the runner was idle in the
  -- table, and from there its conditional update of this runner succeeded, which made it busy with
  -- the session, changed no other item and led to the world that AcquireIdle returns in.
  pub acquire_from-IsAcquired :
      (fuel : ℕ) (start session : Text) (w w' : W) (r : Runner)
      → acquire_from api marshaller table_name fuel start session w ≡ ok r w'
      → IsAcquired base marshaller session w w' r
  unfolding acquire_from
  acquire_from-IsAcquired fuel start session w w' r e =
      subst (AfterAcquire session w) e
        (scan_segments-AfterAcquire fuel session start (seg_first_cond ∷ seg_second_cond ∷ []) [] w)
