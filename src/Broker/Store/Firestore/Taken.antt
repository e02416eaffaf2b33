-- ===== src/Broker/Store/Firestore/Taken.antt =====
-- The table of runners after a document was given to a session or deleted.
use bunshin.Prelude.{
  true, false, List, [], Option, none, some, ◌≡◌, sym, ap, ◌∙◌, ◌≢◌, inl, inr, if◌then◌else◌, arith,
  Bool-cases,
}
use bunshin.Prelude.{some_inj}
use bunshin.Text.{Text, text_eq}
use bunshin.Text.Laws.{text_eq_iff}
use bunshin.Broker.Model.{Runner, state_idle}
use bunshin.Broker.Store.Contract.{assigned}
use bunshin.Broker.Store.Firestore.{
  text, Fields, field_current_session_id, set_field, DocSnapshot, to_model, snapshot_to_doc,
}
use bunshin.Broker.Store.Firestore.Documents.{
  find_doc, without_doc, find_doc-update_doc, find_doc-without_doc,
}
use bunshin.Broker.Store.Firestore.Candidates.{IsAssigned}
use bunshin.Broker.Store.Firestore.Readable.{
  snapshot_to_doc-IsReadable, snapshot_to_doc-set_field, model_of, model_of-eq-some, IsWellFormed,
  to_model_busy, to_model_idle,
}

abbrev pub AllWellFormed : List DocSnapshot → Type 0
AllWellFormed docs =
    (id : Text) (fields : Fields) → find_doc id docs ≡ some fields → IsWellFormed id fields

abbrev pub model_at : List DocSnapshot → Text → Option Runner
model_at docs id = model_of id (find_doc id docs)

pub model_at-named :
    (docs : List DocSnapshot) (id : Text) (r : Runner)
    → model_at docs id ≡ some r
    → r.runner_id ≡ id
unfolding to_model
model_at-named docs id r h =
    let (fields, doc, at, readable, e) = model_of-eq-some id (find_doc id docs) r h in
    ap (λ (x : Runner). x.runner_id) e ∙ (snapshot_to_doc-IsReadable id fields doc readable).named

pub AllWellFormed-without :
    (id : Text) (docs : List DocSnapshot) → AllWellFormed docs → AllWellFormed (without_doc id docs)
AllWellFormed-without id docs h j fields at =
    h j fields (ground (arith, find_doc-without_doc j id docs))

pub model_at-without :
    (j id : Text) (docs : List DocSnapshot)
    → model_at (without_doc id docs) j ≡ (if text_eq j id then none else model_at docs j)
model_at-without j id docs = rw (find_doc-without_doc j id docs) (ground arith)

module _ (session : Text) (filled : session ≢ []) (docs docs' : List DocSnapshot) (r : Runner)
    (a : IsAssigned session docs docs' r) where
  -- The idle runner that was taken.
  pub taken : Runner
  taken = to_model a.doc

  is_free : a.doc.current_session_id ≡ []
  is_free = elim (snapshot_to_doc-IsReadable r.runner_id a.fields a.doc a.readable).session [
    | inl (idle, free) ↦ free
    | inr busy ↦ cc (a.idle)
  ]

  pub taken-idle : taken.state ≡ state_idle
  unfolding taken
  taken-idle = to_model_idle a.doc is_free

  pub taken-assigned : r ≡ assigned taken session
  unfolding taken to_model
  taken-assigned =
      let read = snapshot_to_doc-IsReadable r.runner_id a.fields a.doc a.readable in
      ground (arith, read.named, a.busy, a.owns, a.host)

  same_id : r.runner_id ≡ taken.runner_id
  unfolding taken to_model
  same_id = sym (snapshot_to_doc-IsReadable r.runner_id a.fields a.doc a.readable).named

  pub taken-at : model_at docs taken.runner_id ≡ some taken
  unfolding taken
  taken-at = ap (model_at docs) (sym same_id) ∙ rw (a.at, a.readable)

  busy_model : r ≡ to_model (record a.doc { current_session_id = session })
  unfolding to_model
  busy_model =
      let read = snapshot_to_doc-IsReadable r.runner_id a.fields a.doc a.readable in
      let state = to_model_busy (record a.doc { current_session_id = session }) filled in
      ground (arith, read.named, a.busy, a.owns, a.host, state)

  rewritten :
      (j : Text)
      → text_eq j r.runner_id ≡ true
      → find_doc j docs' ≡ some (set_field field_current_session_id (text session) a.fields)
  rewritten j same =
      let e : j ≡ r.runner_id = (text_eq_iff j r.runner_id).0 same in
      ap (find_doc j) a.written
      ∙ find_doc-update_doc j r.runner_id field_current_session_id (text session) docs
      ∙ rw (same, ap (λ x. find_doc x docs) e ∙ a.at)

  untouched : (j : Text) → text_eq j r.runner_id ≡ false → find_doc j docs' ≡ find_doc j docs
  untouched j differs =
      ap (find_doc j) a.written
      ∙ find_doc-update_doc j r.runner_id field_current_session_id (text session) docs
      ∙ rw differs

  readable_after :
      (j : Text)
      → text_eq j r.runner_id ≡ true
      → snapshot_to_doc j (set_field field_current_session_id (text session) a.fields)
        ≡ some (record a.doc { current_session_id = session })
  readable_after j same =
      ap (λ x. snapshot_to_doc x (set_field field_current_session_id (text session) a.fields))
        ((text_eq_iff j r.runner_id).0 same)
      ∙ snapshot_to_doc-set_field r.runner_id session a.fields a.doc a.readable

  pub updated-at :
      (j : Text)
      → model_at docs' j ≡ (if text_eq j taken.runner_id then some r else model_at docs j)
  updated-at j = elim (Bool-cases (text_eq j r.runner_id)) [
    | inl same ↦
        rw (← same_id, same, rewritten j same, readable_after j same) (ap some (sym busy_model))
    | inr differs ↦ rw (← same_id, differs, untouched j differs)
  ]

  pub updated-AllWellFormed : AllWellFormed docs → AllWellFormed docs'
  updated-AllWellFormed h j fields at = elim (Bool-cases (text_eq j r.runner_id)) [
    | inr differs ↦ h j fields (sym (untouched j differs) ∙ at)
    | inl same ↦
        let e : set_field field_current_session_id (text session) a.fields ≡ fields =
          some_inj (sym (rewritten j same) ∙ at) in
        (
          record a.doc { current_session_id = session },
          ap (snapshot_to_doc j) (sym e) ∙ readable_after j same,
          inr filled,
          (h j a.fields (ap (λ x. find_doc x docs) ((text_eq_iff j r.runner_id).0 same) ∙ a.at)).3,
        )
  ]
