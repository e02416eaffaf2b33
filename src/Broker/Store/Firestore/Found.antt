-- ===== src/Broker/Store/Firestore/Found.antt =====
-- FindBySessionID: the outcomes of reading the snapshot that a query found.
use bunshin.Prelude.{
  [], Option, none, some, ◌≡◌, refl, sym, ap, ◌∙◌, ◌≢◌, inl, inr, arith, Option-cases,
}
use bunshin.Text.{Text}
use bunshin.Outcome.{ok, err, diverged}
use bunshin.Broker.Model.{Runner}
use bunshin.Broker.Store.{not_found, no_idle_runner}
use bunshin.Broker.Store.Firestore.{
  text, Fields, field_current_session_id, get_field, RunnerDoc, DocSnapshot, FirestoreClientApi,
  to_model, snapshot_to_doc, found_snapshot, model_or_error,
}
use bunshin.Broker.Store.Firestore.Readable.{snapshot_to_doc-IsReadable}

module _ {W T : Type 0} (api : FirestoreClientApi W T) where
  model_or_error-eq-ok :
      (d : Option RunnerDoc) (r : Runner) (w w' : W)
      → model_or_error api d w ≡ ok r w'
      → (doc : RunnerDoc) × (d ≡ some doc) × (r ≡ to_model doc) × (w ≡ w')
  unfolding model_or_error
  model_or_error-eq-ok none r w w' e = cc
  model_or_error-eq-ok (some doc) r w w' e = (doc, refl, cc, cc)

  -- A snapshot that is found and read.
  pub found_snapshot-eq-ok :
      (found : Option DocSnapshot) (r : Runner) (w w' : W)
      → found_snapshot api found w ≡ ok r w'
      → (s : DocSnapshot) × (doc : RunnerDoc) × (found ≡ some s)
        × (snapshot_to_doc s.id s.fields ≡ some doc)
        × (r ≡ to_model doc)
        × (w ≡ w')
  unfolding found_snapshot
  found_snapshot-eq-ok none r w w' e = cc
  found_snapshot-eq-ok (some s) r w w' e =
      let (doc, readable, same, same_w) = model_or_error-eq-ok _ r w w' e in
      (s, doc, refl, readable, same, same_w)

  pub found_snapshot-eq-not_found :
      (found : Option DocSnapshot) (w w' : W)
      → found_snapshot api found w ≡ err not_found w'
      → (found ≡ none) × (w ≡ w')
  unfolding found_snapshot model_or_error
  found_snapshot-eq-not_found none w w' e = (refl, cc)
  found_snapshot-eq-not_found (some s) w w' e =
      elim (Option-cases (snapshot_to_doc s.id s.fields)) [
        | inl unreadable ↦ ground arith
        | inr (doc, readable) ↦ ground arith
      ]

  pub found_snapshot_errors :
      (found : Option DocSnapshot) (w w' : W) → found_snapshot api found w ≢ err no_idle_runner w'
  unfolding found_snapshot model_or_error
  found_snapshot_errors none w w' e = cc
  found_snapshot_errors (some s) w w' e = elim (Option-cases (snapshot_to_doc s.id s.fields)) [
    | inl unreadable ↦ ground arith
    | inr (doc, readable) ↦ ground arith
  ]

  pub found_snapshot_ends :
      (found : Option DocSnapshot) (w : W) → found_snapshot api found w ≢ diverged
  unfolding found_snapshot model_or_error
  found_snapshot_ends none w e = cc
  found_snapshot_ends (some s) w e = elim (Option-cases (snapshot_to_doc s.id s.fields)) [
    | inl unreadable ↦ ground arith
    | inr (doc, readable) ↦ ground arith
  ]

-- The session of a runner is the one in its document.
pub has_session :
    (id session : Text) (fields : Fields) (doc : RunnerDoc)
    → snapshot_to_doc id fields ≡ some doc
    → get_field field_current_session_id fields ≡ some (text session)
    → (to_model doc).current_session_id ≡ session
unfolding to_model
has_session id session fields doc readable h =
    elim (snapshot_to_doc-IsReadable id fields doc readable).session [
      | inl (idle, free) ↦ cc
      | inr busy ↦ cc
    ]

pub session_in_doc :
    (id session : Text) (fields : Fields) (doc : RunnerDoc)
    → session ≢ []
    → snapshot_to_doc id fields ≡ some doc
    → (to_model doc).current_session_id ≡ session
    → get_field field_current_session_id fields ≡ some (text session)
unfolding to_model
session_in_doc id session fields doc filled readable e =
    elim (snapshot_to_doc-IsReadable id fields doc readable).session [
      | inl (idle, free) ↦ absurd (filled (sym e ∙ free))
      | inr busy ↦ busy ∙ ap (λ x. some (text x)) e
    ]

pub to_model-named :
    (id : Text) (fields : Fields) (doc : RunnerDoc)
    → snapshot_to_doc id fields ≡ some doc
    → (to_model doc).runner_id ≡ id
unfolding to_model
to_model-named id fields doc readable = (snapshot_to_doc-IsReadable id fields doc readable).named
