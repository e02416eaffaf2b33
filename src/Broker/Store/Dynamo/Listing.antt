-- ===== src/Broker/Store/Dynamo/Listing.antt =====
-- ListBusyRunners: the pages of the busy partition of the state-index, to the end.
use bunshin.Prelude.{
  ℕ, zero, suc, List, [], ◌∷◌, ◌++◌, append_assoc, some, ◌≡◌, refl, sym, ap, subst, ◌∙◌, inl, inr,
  Bool-cases, Option-cases, some_inj, is_empty, is_empty-true, is_empty-false, Any,
}
use bunshin.Text.{Text}
use bunshin.Outcome.{Outcome, ok, err, diverged, ended, with_ok, with_err, never}
use bunshin.Broker.Model.{Runner}
use bunshin.Broker.Store.{StoreError}
use bunshin.Broker.Store.Dynamo.Api.{Item, DynamoApi, Marshaller, busy_query}
use bunshin.Broker.Store.Dynamo.{list_busy}
use bunshin.Broker.Store.Dynamo.Laws.{MarshallerLaws, TableLaws, PageLaws}

-- The runners that the items read as, one for each.
abbrev pub AreDecoded : Marshaller → List Item → List Runner → Type 0
AreDecoded m [] [] = Unit
AreDecoded m [] (r ∷ rs) = ⊥
AreDecoded m (item ∷ items) [] = ⊥
AreDecoded m (item ∷ items) (r ∷ rs) = (m.unmarshal item ≡ some r) × AreDecoded m items rs

module _ {marshaller : Marshaller} (m : MarshallerLaws marshaller) where
  AreDecoded-of :
      (items : List Item) (rs : List Runner)
      → marshaller.unmarshal_list items ≡ some rs
      → AreDecoded marshaller items rs
  AreDecoded-of [] rs e = subst (AreDecoded marshaller []) (some_inj (sym m.list_nil ∙ e)) tt
  AreDecoded-of (item ∷ items) rs e =
      let (r, rest, decoded, others, all) = m.list_cons item items rs e in
      subst (AreDecoded marshaller (item ∷ items)) (sym all)
        (decoded, AreDecoded-of items rest others)

AreDecoded-append :
    (m : Marshaller) (xs ys : List Item) (rs qs : List Runner)
    → AreDecoded m xs rs
    → AreDecoded m ys qs
    → AreDecoded m (xs ++ ys) (rs ++ qs)
AreDecoded-append m [] ys [] qs h k = k
AreDecoded-append m [] ys (r ∷ rs) qs h k = absurd h
AreDecoded-append m (x ∷ xs) ys [] qs h k = absurd h
AreDecoded-append m (x ∷ xs) ys (r ∷ rs) qs h k = (h.0, AreDecoded-append m xs ys rs qs h.1 k)

pub runner-Any :
    (m : Marshaller) (items : List Item) (rs : List Runner) (r : Runner)
    → AreDecoded m items rs
    → Any (λ (x : Runner). r ≡ x) rs
    → (item : Item) × Any (λ (x : Item). item ≡ x) items × (m.unmarshal item ≡ some r)
runner-Any m [] [] r h k = absurd k
runner-Any m [] (q ∷ rs) r h k = absurd h
runner-Any m (item ∷ items) [] r h k = absurd h
runner-Any m (item ∷ items) (q ∷ rs) r h (inl e) = (item, inl refl, h.0 ∙ ap some (sym e))
runner-Any m (item ∷ items) (q ∷ rs) r h (inr k) =
    let (found, among, decoded) = runner-Any m items rs r h.1 k in (found, inr among, decoded)

pub item-Any :
    (m : Marshaller) (items : List Item) (rs : List Runner) (item : Item) (r : Runner)
    → AreDecoded m items rs
    → Any (λ (x : Item). item ≡ x) items
    → m.unmarshal item ≡ some r
    → Any (λ (x : Runner). r ≡ x) rs
item-Any m [] rs item r h k e = absurd k
item-Any m (x ∷ items) [] item r h k e = absurd h
item-Any m (x ∷ items) (q ∷ rs) item r h (inl same) e =
    inl (some_inj (sym e ∙ ap m.unmarshal same ∙ h.0))
item-Any m (x ∷ items) (q ∷ rs) item r h (inr k) e = inr (item-Any m items rs item r h.1 k e)

module _ {W : Type 0} {api : DynamoApi W} {table_name : Text} {base : TableLaws api table_name}
    {marshaller : Marshaller} (m : MarshallerLaws marshaller) (pages : PageLaws base) where
  open base use {Table, table, item_at}

  abbrev pub AfterList : Table → Item → List Runner → Outcome W StoreError (List Runner) → Type 0
  AfterList t key all (ok rs w') =
      (table w' ≡ t)
      × (rest : List Runner) × (rs ≡ all ++ rest)
      × AreDecoded marshaller (pages.pending t (busy_query table_name key)) rest
  AfterList t key all (err e w') = Unit
  AfterList t key all diverged = Unit

  AfterList-more :
      (t : Table) (key next : Item) (items : List Item) (all page : List Runner)
      (o : Outcome W StoreError (List Runner))
      → AreDecoded marshaller items page
      → pages.pending t (busy_query table_name key)
        ≡ items ++ pages.pending t (busy_query table_name next)
      → AfterList t next (all ++ page) o
      → AfterList t key all o
  AfterList-more t key next items all page (ok rs w') h e (same, rest, is, a) = (
    same,
    page ++ rest,
    is ∙ append_assoc all page rest,
    subst (λ xs. AreDecoded marshaller xs (page ++ rest)) (sym e)
        (AreDecoded-append marshaller items _ page rest h a),
  )
  AfterList-more t key next items all page (err e w') h x a = tt
  AfterList-more t key next items all page diverged h x a = tt

  pub list_busy-AfterList :
      (fuel : ℕ) (key : Item) (all : List Runner) (w : W)
      → AfterList (table w) key all (list_busy api marshaller table_name fuel key all w)
  unfolding list_busy
  list_busy-AfterList zero key all w = tt
  list_busy-AfterList (suc fuel) key all w =
      elim (ended (api.query (busy_query table_name key) w)) [
        | never p ↦ rw (p, list_busy) tt
        | with_err e u p ↦ rw (p, list_busy) tt
        | with_ok out u p ↦ elim (Option-cases (marshaller.unmarshal_list out.items)) [
          | inl bad ↦ rw (p, bad, list_busy) tt
          | inr (page, good) ↦
              let (same, last, more) = pages.page_lem _ out w u p in
              let decoded = AreDecoded-of m out.items page good in
              elim (Bool-cases (is_empty out.last_evaluated_key)) [
                | inl closed ↦
                    simp (p, good, closed, list_busy)
                      (
                        same,
                        page,
                        refl,
                        subst (λ xs. AreDecoded marshaller xs page)
                            (sym (last (is_empty-true _ closed))) decoded,
                      )
                | inr further ↦
                    simp (p, good, further, list_busy)
                      (AfterList-more (table w) key out.last_evaluated_key out.items all page _
                        decoded (more (is_empty-false _ further)).1
                        (subst
                          (λ t. AfterList t out.last_evaluated_key (all ++ page) (
                            list_busy api marshaller table_name fuel out.last_evaluated_key
                              (all ++ page) u))
                          same (list_busy-AfterList fuel out.last_evaluated_key (all ++ page) u)))
              ]
        ]
      ]
