-- ===== src/Broker/Store/Dynamo/View.antt =====
-- The table of items as the contract of Repository sees it: a map from ids to runners.
use bunshin.Prelude.{
  ℕ, Option, none, some, ◌≡◌, sym, ap, ◌∙◌, inl, inr, arith, Bool-cases, Option-cases, some_inj,
  if◌then◌else◌,
}
use bunshin.Text.{Text, lit, text_eq}
use bunshin.Broker.Model.{Runner, state_idle}
use bunshin.Broker.Store.Contract.{assigned, SameTable}
use bunshin.Broker.Store.Dynamo.Api.{Item, DynamoApi, Marshaller}
use bunshin.Broker.Store.Dynamo.Laws.{
  MarshallerLaws, TableLaws, CallsEnd, PageLaws, IndexLaws, taken_item,
}
use bunshin.Broker.Store.Dynamo.Assign.{IsTaken}
use bunshin.Broker.Store.Dynamo.Indexed.{IsIdleItem, Acquired}

-- The runner that an item reads as.
abbrev pub decoded_item : Marshaller → Option Item → Option Runner
decoded_item marshaller none = none
decoded_item marshaller (some item) = marshaller.unmarshal item

module _ {W : Type 0} {api : DynamoApi W} {table_name : Text} {base : TableLaws api table_name}
    {marshaller : Marshaller} (m : MarshallerLaws marshaller) (ends : CallsEnd api table_name)
    (pages : PageLaws base) (index : IndexLaws base pages) where
  open base use {Table, table, item_at, size}

  abbrev pub runner_in : Table → Text → Option Runner
  runner_in t id = decoded_item marshaller (item_at t id)

  pub runner_in-item :
      (t : Table) (id : Text) (r : Runner)
      → runner_in t id ≡ some r
      → (item : Item) × (item_at t id ≡ some item) × (marshaller.unmarshal item ≡ some r)
  runner_in-item t id r e = elim (Option-cases (item_at t id)) [
    | inl missing ↦ absurd (ground arith)
    | inr (item, held) ↦ (item, held, ground arith)
  ]

  pub runner_in-named :
      (t : Table) (id : Text) (r : Runner) → runner_in t id ≡ some r → r.runner_id ≡ id
  runner_in-named t id r e =
      let (item, held, decoded) = runner_in-item t id r e in
      let id_reads = (m.reads item r decoded).0 in id_reads.field_of id (base.keyed t id item held)

  -- An item that is taken reads as the runner with the session.
  taken_item-decoded :
      (session : Text) (t t' : Table) (q : Runner) (idle : IsIdleItem m ends pages index t q)
      (taken : IsTaken base session q.runner_id t t')
      → marshaller.unmarshal (taken_item session taken.item) ≡ some (assigned q session)
  taken_item-decoded session t t' q idle taken =
      let same : idle.item ≡ taken.item = some_inj (sym idle.held ∙ taken.held) in
      let decoded = sym (ap marshaller.unmarshal same) ∙ idle.decoded in
      m.reads_session _ _ session (m.reads_state taken.item q (lit "busy") decoded)

  pub Acquired-runner_in :
      (session : Text) (t t' : Table) (r : Runner) (a : Acquired m ends pages index session t t' r)
      → (q : Runner) × (r ≡ assigned q session)
        × (runner_in t q.runner_id ≡ some q)
        × (q.state ≡ state_idle)
        × ((j : Text) → runner_in t' j ≡ (if text_eq j q.runner_id then some r else runner_in t j))
        × (size t' ≡ size t)
  Acquired-runner_in session t t' r a =
      let q = a.found in
      let now = taken_item-decoded session t t' q a.idle a.taken in
      let (_, state_reads, _) = m.reads a.idle.item q a.idle.decoded in
      (
        q,
        a.result,
        ap (decoded_item marshaller) a.idle.held ∙ a.idle.decoded,
        state_reads.field_of state_idle a.idle.idle,
        λ j. elim (Bool-cases (text_eq j q.runner_id)) [
          | inl here ↦ rw (a.taken.written j, here, now, a.result)
          | inr away ↦ rw (a.taken.written j, away)
        ],
        a.taken.same_size,
      )

  abbrev pub IsSound : W → Type 0
  IsSound w = Unit

  abbrev pub runner_at : W → Text → Option Runner
  runner_at w = runner_in (table w)

  abbrev pub size_of : W → ℕ
  size_of w = size (table w)

  pub SameTable-of : (w w' : W) → table w' ≡ table w → SameTable runner_at size_of IsSound w w'
  SameTable-of w w' same = record {
    same_runners = λ j. ap (λ t. runner_in t j) same;
    same_size = ap size same;
    still_sound = λ s. s;
  }
