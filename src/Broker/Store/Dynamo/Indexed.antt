-- ===== src/Broker/Store/Dynamo/Indexed.antt =====
-- AcquireIdle where the state-index has caught up with the table: the first page decides.
use bunshin.Prelude.{
  ℕ, suc, false, List, [], ◌∷◌, ◌++◌, Option, none, some, ◌≡◌, refl, sym, ap, subst, ◌∙◌, ◌≢◌, inl,
  inr, arith, Option-cases, some_inj,
}
use bunshin.Text.{Text, lit}
use bunshin.Outcome.{Outcome, ok, err, diverged, ended, with_ok, with_err, never}
use bunshin.Broker.Model.{Runner}
use bunshin.Broker.Store.{StoreError, no_idle_runner, condition_failed}
use bunshin.Broker.Store.Contract.{assigned}
use bunshin.Broker.Store.Dynamo.Api.{Item, member_s, DynamoApi, Marshaller, idle_query}
use bunshin.Broker.Store.Dynamo.{
  is_condition_failed, wrapped, was_tried, assign_session, assign_first, query_idle_page,
  scan_segment,
}
use bunshin.Broker.Store.Dynamo.Laws.{
  MarshallerLaws, TableLaws, CallsEnd, PageLaws, IndexLaws, IsStored, get_attribute,
}
use bunshin.Broker.Store.Dynamo.Assign.{
  IsTaken, assign_session-ok, assign_session-eq-failed, assign_session_errors, assign_session_ends,
}

module _ {W : Type 0} {api : DynamoApi W} {table_name : Text} {base : TableLaws api table_name}
    {marshaller : Marshaller} (m : MarshallerLaws marshaller) (ends : CallsEnd api table_name)
    (pages : PageLaws base) (index : IndexLaws base pages) where
  open base use {Table, table, item_at}

  -- An idle item of the table, with the runner that it reads as.
  pub record IsIdleItem (t : Table) (r : Runner) : Type 0 where
    pub item : Item
    pub held : item_at t r.runner_id ≡ some item
    pub idle : get_attribute (lit "state") item ≡ some (member_s (lit "idle"))
    pub decoded : marshaller.unmarshal item ≡ some r

  IsIdleItem-of :
      (t : Table) (item : Item) (r : Runner)
      → IsStored item_at t item
      → get_attribute (lit "state") item ≡ some (member_s (lit "idle"))
      → marshaller.unmarshal item ≡ some r
      → IsIdleItem t r
  IsIdleItem-of t item r (id, held) idle decoded =
      let id_reads = (m.reads item r decoded).0 in
      let same : r.runner_id ≡ id = id_reads.field_of id (base.keyed t id item held) in
      record {
        item = item;
        held = subst (λ i. item_at t i ≡ some item) (sym same) held;
        idle = idle;
        decoded = decoded;
      }

  -- The runners of a first page: none, where the query yields none, or an idle one first.
  abbrev FirstPage : Text → Text → Table → List Runner → Item → Type 0
  FirstPage cond start t [] next =
      (next ≡ []) × (pages.pending t (idle_query table_name cond start []) ≡ [])
  FirstPage cond start t (r ∷ runners) next = IsIdleItem t r

  FirstPage-cons :
      (cond start : Text) (t : Table) (item : Item) (items others : List Item) (next : Item)
      (runners : List Runner)
      → marshaller.unmarshal_list (item ∷ items) ≡ some runners
      → pages.pending t (idle_query table_name cond start []) ≡ item ∷ others
      → FirstPage cond start t runners next
  FirstPage-cons cond start t item items others next runners e x =
      let (r, rest, decoded, _, all) = m.list_cons item items runners e in
      let (stored, idle) = index.idle_head t cond start item others x in
      subst (λ rs. FirstPage cond start t rs next) (sym all)
        (IsIdleItem-of t item r stored idle decoded)

  FirstPage-of :
      (cond start : Text) (t : Table) (items : List Item) (next : Item) (runners : List Runner)
      → marshaller.unmarshal_list items ≡ some runners
      → (next ≡ [] → pages.pending t (idle_query table_name cond start []) ≡ items)
      → (next ≢ []
          → (items ≢ [])
            × (rest : List Item) × (pages.pending t (idle_query table_name cond start [])
                ≡ items ++ rest))
      → FirstPage cond start t runners next
  FirstPage-of cond start t [] [] runners e last more =
      subst (λ rs. FirstPage cond start t rs []) (some_inj (sym m.list_nil ∙ e)) (refl, last refl)
  FirstPage-of cond start t [] (a ∷ next) runners e last more = absurd ((more (λ x. cc)).0 refl)
  FirstPage-of cond start t (item ∷ items) [] runners e last more =
      FirstPage-cons cond start t item items items [] runners e (last refl)
  FirstPage-of cond start t (item ∷ items) (a ∷ next) runners e last more =
      let (_, rest, x) = more (λ y. cc) in
      FirstPage-cons cond start t item items (items ++ rest) (a ∷ next) runners e x

  FirstPage_lem :
      (cond start : Text) (w w' : W) (next : Item) (runners : List Runner)
      → query_idle_page api marshaller table_name cond start [] w ≡ ok (runners, next) w'
      → (table w' ≡ table w) × FirstPage cond start (table w) runners next
  unfolding query_idle_page wrapped
  FirstPage_lem cond start w w' next runners e =
      elim (ended (api.query (idle_query table_name cond start []) w)) [
        | never p ↦ absurd (ground arith)
        | with_err x u p ↦ absurd (ground arith)
        | with_ok out u p ↦ elim (Option-cases (marshaller.unmarshal_list out.items)) [
          | inl bad ↦ absurd (ground arith)
          | inr (rs, good) ↦
              let (same, last, more) = pages.page_lem _ out w u p in
              let at : u ≡ w' = ground arith in
              let these : rs ≡ runners = ground arith in
              let key : out.last_evaluated_key ≡ next = ground arith in
              (
                ap table (sym at) ∙ same,
                FirstPage-of cond start (table w) out.items next runners (good ∙ ap some these)
                    (λ x. last (key ∙ x))
                    (λ x. let (full, rest) = more (λ y. x (sym key ∙ y)) in (full, _, rest)),
              )
        ]
      ]

  -- A runner that was idle in the table and is taken by the next step, as the caller gets it.
  pub record Acquired (session : Text) (t t' : Table) (r : Runner) : Type 0 where
    pub found : Runner
    pub result : r ≡ assigned found session
    pub idle : IsIdleItem t found
    pub taken : IsTaken base session found.runner_id t t'

  abbrev pub AfterIndexed :
      Text → Table → Type 0 → Outcome W StoreError (Option Runner × List Text) → Type 0
  AfterIndexed session t Empty (ok (some r, tried) w') = Acquired session t (table w') r
  AfterIndexed session t Empty (ok (none, tried) w') = (tried ≡ []) × (table w' ≡ t) × Empty
  AfterIndexed session t Empty (err e w') = e ≢ no_idle_runner
  AfterIndexed session t Empty diverged = ⊥

  -- The update of an idle item of the table does not fail its condition.
  not_failed :
      (session : Text) (w w' : W) (r : Runner) (e : StoreError)
      → IsIdleItem (table w) r
      → assign_session api marshaller table_name r.runner_id session w ≡ err e w'
      → is_condition_failed e ≡ false
  unfolding is_condition_failed
  not_failed session w w' r condition_failed idle p = absurd (
      (base.update_failed r.runner_id session w w'
          (assign_session-eq-failed api marshaller table_name r.runner_id session w w' p)).0
        idle.item idle.held idle.idle)
  not_failed session w w' r _ idle p = refl

  not_idle_error :
      (session : Text) (w w' : W) (id : Text) (e : StoreError)
      → assign_session api marshaller table_name id session w ≡ err e w'
      → e ≢ no_idle_runner
  not_idle_error session w w' id e p x =
      assign_session_errors api marshaller table_name id session w w'
        (subst (λ y. assign_session api marshaller table_name id session w ≡ err y w') x p)

  assign_first-AfterIndexed :
      (session : Text) (r : Runner) (runners : List Runner) (w : W)
      → IsIdleItem (table w) r
      → AfterIndexed session
          (table w)
          ⊥
          (assign_first api marshaller table_name session (r ∷ runners) [] w)
  unfolding assign_first was_tried
  assign_first-AfterIndexed session r runners w idle =
      elim (ended (assign_session api marshaller table_name r.runner_id session w)) [
        | never p ↦
            absurd (assign_session_ends api marshaller table_name ends r.runner_id session w p)
        | with_err e w' p ↦
            rw (p, not_failed session w w' r e idle p, assign_first)
              (not_idle_error session w w' r.runner_id e p)
        | with_ok a w' p ↦
            rw (p, assign_first)
              (record {
                found = r;
                result = refl;
                idle = idle;
                taken = assign_session-ok base marshaller r.runner_id session w w' p;
              })
      ]

  -- What the query of a segment yields from its first page on.
  abbrev pub NonePending : Text → Text → Table → Type 0
  NonePending cond start t = pages.pending t (idle_query table_name cond start []) ≡ []

  after_candidates :
      (fuel : ℕ) (session cond start : Text) (w w₁ : W) (r : Runner) (runners : List Runner)
      (next : Item)
      → query_idle_page api marshaller table_name cond start [] w ≡ ok (r ∷ runners, next) w₁
      → (o : Outcome W StoreError (Option Runner × List Text))
      → assign_first api marshaller table_name session (r ∷ runners) [] w₁ ≡ o
      → AfterIndexed session (table w) ⊥ o
      → AfterIndexed session
          (table w)
          (NonePending cond start (table w))
          (scan_segment api marshaller table_name (suc fuel) session cond start [] [] w)
  unfolding scan_segment
  after_candidates fuel session cond start w w₁ r runners next p (ok (some q, tried) w₂) e a =
      rw (p, e, scan_segment) a
  after_candidates fuel session cond start w w₁ r runners next p (ok (none, tried) w₂) e a =
      absurd a.2
  after_candidates fuel session cond start w w₁ r runners next p (err x w₂) e a =
      rw (p, e, scan_segment) a
  after_candidates fuel session cond start w w₁ r runners next p diverged e a = absurd a

  after_page :
      (fuel : ℕ) (session cond start : Text) (w w₁ : W) (runners : List Runner) (next : Item)
      → query_idle_page api marshaller table_name cond start [] w ≡ ok (runners, next) w₁
      → (table w₁ ≡ table w)
      → FirstPage cond start (table w) runners next
      → AfterIndexed session
          (table w)
          (NonePending cond start (table w))
          (scan_segment api marshaller table_name (suc fuel) session cond start [] [] w)
  unfolding scan_segment assign_first
  after_page fuel session cond start w w₁ [] next p same (last, pending) =
      rw (p, last, scan_segment) (refl, same, pending)
  after_page fuel session cond start w w₁ (r ∷ runners) next p same idle =
      let o = assign_first api marshaller table_name session (r ∷ runners) [] w₁ in
      let a =
        subst (λ t. AfterIndexed session t ⊥ o) same
          (assign_first-AfterIndexed session r runners w₁
            (subst (λ t. IsIdleItem t r) (sym same) idle)) in
      after_candidates fuel session cond start w w₁ r runners next p _ refl a

  not_idle_query :
      (cond start : Text) (w w' : W) (e : StoreError)
      → query_idle_page api marshaller table_name cond start [] w ≡ err e w'
      → e ≢ no_idle_runner
  unfolding query_idle_page wrapped
  not_idle_query cond start w w' e p x = ground arith

  query_idle_page_ends :
      (cond start : Text) (w : W)
      → query_idle_page api marshaller table_name cond start [] w ≢ diverged
  unfolding query_idle_page wrapped
  query_idle_page_ends cond start w p =
      ground (arith, ends.query_ends (idle_query table_name cond start []) w)

  -- A segment is decided by its first page.
  pub scan_segment-AfterIndexed :
      (fuel : ℕ) (session cond start : Text) (w : W)
      → AfterIndexed session
          (table w)
          (NonePending cond start (table w))
          (scan_segment api marshaller table_name (suc fuel) session cond start [] [] w)
  unfolding scan_segment
  scan_segment-AfterIndexed fuel session cond start w =
      elim (ended (query_idle_page api marshaller table_name cond start [] w)) [
        | never p ↦ absurd (query_idle_page_ends cond start w p)
        | with_err e w₁ p ↦ rw (p, scan_segment) (not_idle_query cond start w w₁ e p)
        | with_ok (runners, next) w₁ p ↦
            let (same, first) = FirstPage_lem cond start w w₁ next runners p in
            after_page fuel session cond start w w₁ runners next p same first
      ]
