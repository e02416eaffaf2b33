-- ===== src/Broker/Store/Firestore/Assign.antt =====
-- assignSession: a runner is given to a session in one transaction.
use bunshin.Prelude.{
  Option, none, some, ◌≡◌, refl, sym, ap, ◌∙◌, ◌≢◌, inl, inr, arith, Option-cases,
}
use bunshin.Text.{Text}
use bunshin.Outcome.{bind-eq-ok, bind-eq-err, bind-ends, ok, err, diverged}
use bunshin.Broker.Store.{no_idle_runner, condition_failed}
use bunshin.Broker.Store.Firestore.{
  null, text, other, Fields, field_current_session_id, get_field, FirestoreClientApi,
  assign_if_null, assign_body, assign_session,
}
use bunshin.Broker.Store.Firestore.Documents.{find_doc, update_doc}
use bunshin.Broker.Store.Firestore.Laws.{IsIdleDoc, FirestoreLaws}

module _ {W T : Type 0} (api : FirestoreClientApi W T) where
  assign_body-ok :
      (id session : Text) (found : Option Fields) (t t' : T)
      → assign_body api id session found t ≡ ok tt t'
      → (fields : Fields) × (found ≡ some fields)
        × IsIdleDoc fields
        × (api.tx.update id field_current_session_id (text session) t ≡ ok tt t')
  unfolding assign_body assign_if_null
  assign_body-ok id session none t t' e = cc
  assign_body-ok id session (some fields) t t' e = (fields, refl, ground arith, ground arith)

  -- The body on an idle document.
  assign_body_idle :
      (id session : Text) (fields : Fields) (t : T)
      → IsIdleDoc fields
      → assign_body api id session (some fields) t
        ≡ api.tx.update id field_current_session_id (text session) t
  unfolding assign_body assign_if_null
  assign_body_idle id session fields t idle = rw (idle, assign_if_null)

module _ {W T : Type 0} {api : FirestoreClientApi W T} (laws : FirestoreLaws api) where
  open laws use {docs, seen}

  -- The transaction: it takes an idle document and writes the session into it.
  pub assign_session-ok :
      (id session : Text) (w w' : W)
      → assign_session api id session w ≡ ok tt w'
      → (fields : Fields) × (find_doc id (docs w) ≡ some fields)
        × IsIdleDoc fields
        × (docs w' ≡ update_doc id field_current_session_id (text session) (docs w))
  unfolding assign_session
  assign_session-ok id session w w' e =
      let (t, t', opened, body, closed) = laws.run_tx_ok _ w w' e in
      let (found, t₁, got, rest) = bind-eq-ok (api.tx.get id) (assign_body api id session) t body in
      let (is_found, same) = laws.tx_get_ok id t t₁ found got in
      let (fields, e₁, idle, updated) = assign_body-ok api id session found t₁ t' rest in
      (
        fields,
        ap (find_doc id) (sym opened) ∙ sym is_found ∙ e₁,
        idle,
        closed
            ∙ laws.tx_update_ok id _ _ t₁ t' updated
            ∙ ap (update_doc id field_current_session_id (text session)) (same ∙ opened),
      )

  pub assign_session-failed :
      (id session : Text) (fields : Fields) (w w' : W)
      → find_doc id (docs w) ≡ some fields
      → IsIdleDoc fields
      → assign_session api id session w ≢ err condition_failed w'
  unfolding assign_session
  assign_session-failed id session fields w w' at idle e =
      let (t, t', opened, body, closed) = laws.run_tx_failed _ w w' e in
      elim (bind-eq-err (api.tx.get id) (assign_body api id session) t body) [
        | inl x ↦ laws.tx_get_err id t t' x
        | inr (found, t₁, got, rest) ↦
            let (is_found, same) = laws.tx_get_ok id t t₁ found got in
            let e₁ : found ≡ some fields = is_found ∙ ap (find_doc id) opened ∙ at in
            laws.tx_update_err id field_current_session_id (text session) t₁ t' (
              sym (assign_body_idle api id session fields t₁ idle)
              ∙ ap (λ x. assign_body api id session x t₁) (sym e₁)
              ∙ rest)
      ]

  pub assign_session_err :
      (id session : Text) (w w' : W) → assign_session api id session w ≢ err no_idle_runner w'
  unfolding assign_session
  assign_session_err id session w w' = laws.run_tx_err _ w w'

  assign_body_ends :
      (id session : Text) (found : Option Fields) (t : T)
      → assign_body api id session found t ≢ diverged
  unfolding assign_body assign_if_null
  assign_body_ends id session none t e = cc
  assign_body_ends id session (some fields) t e =
      elim (Option-cases (get_field field_current_session_id fields)) [
        | inl missing ↦ ground arith
        | inr (null, found) ↦
            laws.tx_update_ends id field_current_session_id (text session) t (ground arith)
        | inr (text x, found) ↦ ground arith
        | inr (other x, found) ↦ ground arith
      ]

  pub assign_session_ends : (id session : Text) (w : W) → assign_session api id session w ≢ diverged
  unfolding assign_session
  assign_session_ends id session w = laws.run_tx_ends _ w λ t.
      bind-ends (api.tx.get id) (assign_body api id session) t (laws.tx_get_ends id t)
        (assign_body_ends id session)
