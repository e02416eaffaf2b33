-- ===== src/Broker/Store/Dynamo/Busy.antt =====
-- ListBusyRunners against the table: it ends, and lists the busy runners and no other.
use bunshin.Prelude.{
  ℕ, zero, suc, ◌<◌, List, [], ◌∷◌, ◌++◌, some, ◌≡◌, refl, sym, ap, subst, ◌∙◌, ◌≢◌, ◌↔◌, inl, inr,
  arith, Bool-cases, Option-cases, is_empty, is_empty-false, length, length-append, Any,
}
use bunshin.Text.{Text}
use bunshin.Text.Laws.{text_eq-ne}
use bunshin.Outcome.{Outcome, ok, err, diverged, ended, with_ok, with_err, never}
use bunshin.Broker.Model.{Runner, state_busy}
use bunshin.Broker.Store.{StoreError}
use bunshin.Broker.Store.Dynamo.Api.{Item, member_s, DynamoApi, Marshaller, busy_query}
use bunshin.Broker.Store.Dynamo.{list_busy, list_busy_runners}
use bunshin.Broker.Store.Dynamo.Laws.{MarshallerLaws, TableLaws, CallsEnd, PageLaws, IndexLaws}
use bunshin.Broker.Store.Dynamo.View.{decoded_item, runner_in, runner_in-item}
use bunshin.Broker.Store.Dynamo.Listing.{
  AreDecoded, runner-Any, item-Any, AfterList, list_busy-AfterList,
}

length_pos : (xs : List Item) → xs ≢ [] → 0 < length xs
length_pos [] h = absurd (h refl)
length_pos (x ∷ xs) h = omega arith

module _ {W : Type 0} {api : DynamoApi W} {table_name : Text} {base : TableLaws api table_name}
    {marshaller : Marshaller} (m : MarshallerLaws marshaller) (ends : CallsEnd api table_name)
    (pages : PageLaws base) (index : IndexLaws base pages) where
  open base use {Table, table, item_at}

  list_busy_ends :
      (fuel : ℕ) (key : Item) (all : List Runner) (w : W)
      → length (pages.pending (table w) (busy_query table_name key)) < fuel
      → list_busy api marshaller table_name fuel key all w ≢ diverged
  unfolding list_busy
  list_busy_ends zero key all w enough e = elim enough [ ]
  list_busy_ends (suc fuel) key all w enough e =
      elim (ended (api.query (busy_query table_name key) w)) [
        | never p ↦ ends.query_ends _ w p
        | with_err x u p ↦ ground arith
        | with_ok out u p ↦ elim (Option-cases (marshaller.unmarshal_list out.items)) [
          | inl bad ↦ ground arith
          | inr (page, good) ↦ elim (Bool-cases (is_empty out.last_evaluated_key)) [
            | inl closed ↦ ground arith
            | inr further ↦
                let (same, _, more) = pages.page_lem _ out w u p in
                let (full, rest) = more (is_empty-false _ further) in
                list_busy_ends fuel out.last_evaluated_key (all ++ page) u
                  (omega (
                    arith,
                    length_pos out.items full,
                    ap length rest,
                    length-append {0} out.items
                        (pages.pending (table w) (busy_query table_name out.last_evaluated_key)),
                    ap
                        (λ t.
                          length (pages.pending t (busy_query table_name out.last_evaluated_key)))
                        same,
                  ))
                  (ground arith)
          ]
        ]
      ]

  list_busy_sound :
      (t : Table) (rs : List Runner) (r : Runner)
      → AreDecoded marshaller (pages.pending t (busy_query table_name [])) rs
      → Any (λ (x : Runner). r ≡ x) rs
      → (runner_in m ends pages index t r.runner_id ≡ some r) × (r.state ≡ state_busy)
  list_busy_sound t rs r a among =
      let (item, listed, decoded) = runner-Any marshaller _ rs r a among in
      let ((id, held), busy) = index.busy_sound t item listed in
      let (id_reads, state_reads, _) = m.reads item r decoded in
      let name : r.runner_id ≡ id = id_reads.field_of id (base.keyed t id item held) in
      (
        ap (runner_in m ends pages index t) name ∙ ap (decoded_item marshaller) held ∙ decoded,
        state_reads.field_of state_busy busy,
      )

  list_busy_complete :
      (t : Table) (rs : List Runner) (id : Text) (r : Runner)
      → AreDecoded marshaller (pages.pending t (busy_query table_name [])) rs
      → runner_in m ends pages index t id ≡ some r
      → r.state ≡ state_busy
      → Any (λ (x : Runner). r ≡ x) rs
  list_busy_complete t rs id r a held busy =
      let (item, stored, decoded) = runner_in-item m ends pages index t id r held in
      let (_, state_reads, _) = m.reads item r decoded in
      item-Any marshaller _ rs item r a
        (index.busy_complete t id item stored (
          state_reads.attribute (λ x. text_eq-ne state_busy [] refl (sym busy ∙ x))
          ∙ ap (λ s. some (member_s s)) busy))
        decoded

  -- What an outcome of ListBusyRunners says of the table before it.
  abbrev pub AfterBusy : Table → Outcome W StoreError (List Runner) → Type 0
  AfterBusy t (ok rs w') =
      (table w' ≡ t)
      × ((r : Runner)
          → Any (λ (x : Runner). r ≡ x) rs
            ↔ ((runner_in m ends pages index t r.runner_id ≡ some r) × (r.state ≡ state_busy)))
  AfterBusy t (err e w') = Unit
  AfterBusy t diverged = ⊥

  -- Where the indexes have caught up and the fuel exceeds the number of items that the query for
  -- busy items yields, ListBusyRunners ends. If it returns a list, the table is unchanged, and a
  -- runner is on the list exactly when the table holds it under its id with the state busy.
  pub list_busy_runners-AfterBusy :
      (fuel : ℕ) (w : W)
      → length (pages.pending (table w) (busy_query table_name [])) < fuel
      → AfterBusy (table w) (list_busy_runners api marshaller table_name fuel w)
  unfolding list_busy_runners
  list_busy_runners-AfterBusy fuel w enough =
      elim (ended (list_busy api marshaller table_name fuel [] [] w)) [
        | never p ↦ absurd (list_busy_ends fuel [] [] w enough p)
        | with_err e w' p ↦ rw p tt
        | with_ok rs w' p ↦
            let (same, rest, is, a) =
              subst (AfterList m pages (table w) [] []) p
                (list_busy-AfterList m pages fuel [] [] w) in
            let whole =
              subst (AreDecoded marshaller (pages.pending (table w) (busy_query table_name [])))
                (sym is) a in
            rw p (
              same,
              λ r. (
                list_busy_sound (table w) rs r whole,
                λ h. list_busy_complete (table w) rs r.runner_id r whole h.0 h.1,
              ),
            )
      ]
