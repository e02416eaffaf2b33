-- ===== src/Broker/Store/Dynamo/Found.antt =====
-- FindBySessionID: the query of the session-index.
use bunshin.Prelude.{
  List, [], ◌∷◌, ◌++◌, some, ◌≡◌, refl, sym, ap, ap₂, ◌∙◌, ◌≢◌, arith, append-nil,
}
use bunshin.Text.{Text}
use bunshin.Outcome.{ok, err, diverged, ended, with_ok, with_err, never}
use bunshin.Broker.Model.{Runner}
use bunshin.Broker.Store.{not_found, no_idle_runner}
use bunshin.Broker.Store.Contract.{SameTable}
use bunshin.Broker.Store.Dynamo.Api.{
  Item, member_s, DynamoApi, QueryInput, QueryOutput, Marshaller, session_query,
}
use bunshin.Broker.Store.Dynamo.{wrapped, first_item, runner_or_error, find_by_session_id}
use bunshin.Broker.Store.Dynamo.Laws.{MarshallerLaws, TableLaws, CallsEnd, PageLaws, IndexLaws}
use bunshin.Broker.Store.Dynamo.View.{
  decoded_item, runner_in-item, IsSound, runner_at, size_of, SameTable-of,
}

-- A page and what is left behind it.
page_split :
    (key : Item) (items pending : List Item)
    → (key ≡ [] → pending ≡ items)
    → (key ≢ [] → (items ≢ []) × (rest : List Item) × (pending ≡ items ++ rest))
    → (rest : List Item) × (pending ≡ items ++ rest) × (items ≡ [] → rest ≡ [])
page_split [] items pending last more = ([], last refl ∙ sym (append-nil items), λ e. refl)
page_split (a ∷ key) items pending last more =
    let (full, rest, e) = more (λ x. cc) in (rest, e, λ x. absurd (full x))

page_rest :
    {W : Type 0} {api : DynamoApi W} {table_name : Text} {base : TableLaws api table_name}
    (pages : PageLaws base) (input : QueryInput) (out : QueryOutput) (w w' : W)
    → api.query input w ≡ ok out w'
    → (base.table w' ≡ base.table w)
      × (rest : List Item) × (pages.pending (base.table w) input ≡ out.items ++ rest)
      × (out.items ≡ [] → rest ≡ [])
page_rest pages input out w w' e =
    let (same, last, more) = pages.page_lem input out w w' e in
    let (rest, pending, closed) =
      page_split out.last_evaluated_key out.items _ last
        (λ x. let (full, split) = more x in (full, _, split)) in
    (same, rest, pending, closed)

module _ {W : Type 0} {api : DynamoApi W} {table_name : Text} {base : TableLaws api table_name}
    {marshaller : Marshaller} (m : MarshallerLaws marshaller) (ends : CallsEnd api table_name)
    (pages : PageLaws base) (index : IndexLaws base pages) where
  open base use {Table, table, item_at, size}

  first_item-eq-ok :
      (items : List Item) (u w' : W) (r : Runner)
      → first_item api marshaller table_name items u ≡ ok r w'
      → (item : Item) × (rest : List Item) × (items ≡ item ∷ rest)
        × (marshaller.unmarshal item ≡ some r)
        × (u ≡ w')
  unfolding first_item runner_or_error
  first_item-eq-ok [] u w' r e = cc
  first_item-eq-ok (item ∷ items) u w' r e = (item, items, refl, ground arith, ground arith)

  first_item-eq-err :
      (items : List Item) (u w' : W)
      → first_item api marshaller table_name items u ≡ err not_found w'
      → (items ≡ []) × (u ≡ w')
  unfolding first_item runner_or_error
  first_item-eq-err [] u w' e = (refl, cc)
  first_item-eq-err (item ∷ items) u w' e = absurd (ground arith)

  first_item_errors :
      (items : List Item) (u w' : W)
      → first_item api marshaller table_name items u ≢ err no_idle_runner w'
  unfolding first_item runner_or_error
  first_item_errors [] u w' e = cc
  first_item_errors (item ∷ items) u w' e = ground arith

  first_item_ends :
      (items : List Item) (u : W) → first_item api marshaller table_name items u ≢ diverged
  unfolding first_item runner_or_error
  first_item_ends [] u e = cc
  first_item_ends (item ∷ items) u e = ground arith

  pub find_ok_lem :
      (session : Text) (w w' : W) (r : Runner)
      → find_by_session_id api marshaller table_name session w ≡ ok r w'
      → (runner_at m ends pages index w r.runner_id ≡ some r)
        × (r.current_session_id ≡ session)
        × SameTable
            (runner_at m ends pages index)
            (size_of m ends pages index)
            (IsSound m ends pages index)
            w
            w'
  unfolding find_by_session_id wrapped
  find_ok_lem session w w' r e = elim (ended (api.query (session_query table_name session) w)) [
    | never p ↦ absurd (ground arith)
    | with_err x u p ↦ absurd (ground arith)
    | with_ok out u p ↦
        let (item, items, is, decoded, at) = first_item-eq-ok out.items u w' r (ground arith) in
        let (same, rest, pending, _) = page_rest pages _ out w u p in
        let ((id, held), in_session) =
          index.session_head (table w) session item (items ++ rest)
            (pending ∙ ap (λ xs. xs ++ rest) is) in
        let (id_reads, _, session_reads) = m.reads item r decoded in
        let name : r.runner_id ≡ id = id_reads.field_of id (base.keyed (table w) id item held) in
        (
          ap (runner_at m ends pages index w) name ∙ ap (decoded_item marshaller) held ∙ decoded,
          session_reads.field_of session in_session,
          SameTable-of m ends pages index w w' (ap table (sym at) ∙ same),
        )
  ]

  pub find_none_lem :
      (session : Text) (w w' : W)
      → session ≢ []
      → find_by_session_id api marshaller table_name session w ≡ err not_found w'
      → ((j : Text) (r : Runner)
          → runner_at m ends pages index w j ≡ some r
          → r.current_session_id ≢ session)
        × SameTable
            (runner_at m ends pages index)
            (size_of m ends pages index)
            (IsSound m ends pages index)
            w
            w'
  unfolding find_by_session_id wrapped
  find_none_lem session w w' named e =
      elim (ended (api.query (session_query table_name session) w)) [
        | never p ↦ absurd (ground arith)
        | with_err x u p ↦ absurd (ground arith)
        | with_ok out u p ↦
            let (is, at) = first_item-eq-err out.items u w' (ground arith) in
            let (same, rest, pending, closed) = page_rest pages _ out w u p in
            let none_left : pages.pending (table w) (session_query table_name session) ≡ [] =
              pending ∙ ap₂ (λ xs ys. xs ++ ys) is (closed is) in
            (
              λ j r held in_session.
                  let (item, stored, decoded) =
                    runner_in-item m ends pages index (table w) j r held in
                  let (_, _, session_reads) = m.reads item r decoded in
                  index.session_nil (table w) session none_left j item stored (
                    session_reads.attribute (λ x. named (sym in_session ∙ x))
                    ∙ ap (λ s. some (member_s s)) in_session),
              SameTable-of m ends pages index w w' (ap table (sym at) ∙ same),
            )
      ]

  pub find_errors_lem :
      (session : Text) (w w' : W)
      → find_by_session_id api marshaller table_name session w ≢ err no_idle_runner w'
  unfolding find_by_session_id wrapped
  find_errors_lem session w w' e = elim (ended (api.query (session_query table_name session) w)) [
    | never p ↦ ground arith
    | with_err x u p ↦ ground arith
    | with_ok out u p ↦ first_item_errors out.items u w' (ground arith)
  ]

  pub find_ends_lem :
      (session : Text) (w : W) → find_by_session_id api marshaller table_name session w ≢ diverged
  unfolding find_by_session_id
  find_ends_lem session w e = elim (ended (api.query (session_query table_name session) w)) [
    | never p ↦ ends.query_ends _ w p
    | with_err x u p ↦ ground arith
    | with_ok out u p ↦ first_item_ends out.items u (ground arith)
  ]
