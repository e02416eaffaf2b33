-- ===== src/Broker/Store/Dynamo/Register.antt =====
-- Register: a conditional put, and what it leaves in the table.
use bunshin.Prelude.{
  true, false, [], ◌∷◌, none, some, ◌≡◌, refl, sym, ap, ◌∙◌, ◌≢◌, ◌⊎◌, inl, inr, arith, Bool-cases,
  Option-cases,
}
use bunshin.Text.{Text, lit, text_eq}
use bunshin.Text.Laws.{text_eq_refl}
use bunshin.Outcome.{Outcome, ok, err, diverged, ended, with_ok, with_err, never}
use bunshin.Broker.Model.{Runner, state_idle}
use bunshin.Broker.Store.{
  StoreError, not_found, no_idle_runner, condition_failed, conflict, invalid_runner_id,
  invalid_private_host, backend, valid_runner_id,
}
use bunshin.Broker.Store.Dynamo.Api.{
  Item, DynamoError, conditional_check_failed, aws_error, DynamoApi, Marshaller, put_input,
}
use bunshin.Broker.Store.Dynamo.{is_conditional_check_failed, wrapped, register}
use bunshin.Broker.Store.Dynamo.Laws.{MarshallerLaws, TableLaws}
use bunshin.Broker.Store.Dynamo.View.{decoded_item}

-- The runner that Register writes.
abbrev new_runner : Text → Text → Runner
new_runner id host = record {
  runner_id = id;
  state = state_idle;
  current_session_id = [];
  private_host = host;
}

module _ {W : Type 0} (api : DynamoApi W) (marshaller : Marshaller) (table_name : Text) where
  -- The put behind an outcome that is neither a refused argument nor an error of the SDK.
  register-put :
      (id host : Text) (w w' : W)
      → register api marshaller table_name id host w ≡ ok tt w'
      → (valid_runner_id id ≡ true)
        × (host ≢ [])
        × (item : Item) × (marshaller.marshal (new_runner id host) ≡ some item)
        × (api.put_item (put_input table_name item) w ≡ ok tt w')
  unfolding register is_conditional_check_failed wrapped
  register-put id [] w w' e = absurd (ground arith)
  register-put id (c ∷ host) w w' e =
      elim (Option-cases (marshaller.marshal (new_runner id (c ∷ host)))) [
        | inl bad ↦ absurd (ground arith)
        | inr (item, good) ↦ (ground arith, (λ x. cc), item, good, ground arith)
      ]

  register-conflict :
      (id host : Text) (w w' : W)
      → register api marshaller table_name id host w ≡ err conflict w'
      → (item : Item) × (marshaller.marshal (new_runner id host) ≡ some item)
        × (api.put_item (put_input table_name item) w ≡ err conditional_check_failed w')
  unfolding register is_conditional_check_failed wrapped
  register-conflict id [] w w' e = absurd (ground arith)
  register-conflict id (c ∷ host) w w' e =
      elim (Option-cases (marshaller.marshal (new_runner id (c ∷ host)))) [
        | inl bad ↦ absurd (ground arith)
        | inr (item, good) ↦ (item, good, ground arith)
      ]

  register-invalid_id :
      (id host : Text) (w w' : W)
      → register api marshaller table_name id host w ≡ err invalid_runner_id w'
      → (valid_runner_id id ≡ false) × (w' ≡ w)
  unfolding register is_conditional_check_failed wrapped
  register-invalid_id id host w w' e = (ground arith, ground arith)

  register-invalid_host :
      (id host : Text) (w w' : W)
      → register api marshaller table_name id host w ≡ err invalid_private_host w'
      → (host ≡ []) × (w' ≡ w)
  unfolding register is_conditional_check_failed wrapped
  register-invalid_host id [] w w' e = (refl, ground arith)
  register-invalid_host id (c ∷ host) w w' e = absurd (ground arith)

  -- A failed Register made no call, or its put failed.
  register-failed_put :
      (id host : Text) (w w' : W) (e : StoreError)
      → register api marshaller table_name id host w ≡ err e w'
      → (w' ≡ w)
        ⊎ ((item : Item) × (x : DynamoError) × (marshaller.marshal (new_runner id host) ≡ some item)
            × (api.put_item (put_input table_name item) w ≡ err x w'))
  unfolding register is_conditional_check_failed wrapped
  register-failed_put id [] w w' e p = inl (ground arith)
  register-failed_put id (c ∷ host) w w' e p = elim (Bool-cases (valid_runner_id id)) [
    | inr bad ↦ inl (ground arith)
    | inl valid ↦ elim (Option-cases (marshaller.marshal (new_runner id (c ∷ host)))) [
      | inl bad ↦ inl (ground arith)
      | inr (item, good) ↦ elim (ended (api.put_item (put_input table_name item) w)) [
        | never q ↦ absurd (ground arith)
        | with_ok a u q ↦ absurd (ground arith)
        | with_err x u q ↦ inr (item, x, good, ground arith)
      ]
    ]
  ]

module _ {W : Type 0} {api : DynamoApi W} {table_name : Text} {marshaller : Marshaller}
    (base : TableLaws api table_name) (m : MarshallerLaws marshaller) where
  open base use {table, item_at}

  -- What an outcome of Register says of its arguments and of the table.
  abbrev pub AfterRegister : Text → Text → W → Outcome W StoreError (Unit {0}) → Type 0
  AfterRegister id host w (ok _ w') =
      (valid_runner_id id ≡ true)
      × (host ≢ [])
      × (item_at (table w) id ≡ none)
      × (decoded_item marshaller (item_at (table w') id)
          ≡ some (record {
            runner_id = id;
            state = lit "idle";
            current_session_id = [];
            private_host = host;
          }))
      × ((j : Text) → text_eq j id ≡ false → item_at (table w') j ≡ item_at (table w) j)
  AfterRegister id host w (err invalid_runner_id w') = (valid_runner_id id ≡ false) × (w' ≡ w)
  AfterRegister id host w (err invalid_private_host w') = (host ≡ []) × (w' ≡ w)
  AfterRegister id host w (err conflict w') = (item_at (table w) id ≢ none) × (table w' ≡ table w)
  AfterRegister id host w (err e w') = Unit
  AfterRegister id host w diverged = Unit

  -- If Register succeeds, the id is valid, the host is not empty and the table did not have the id;
  -- now the id reads as an idle runner at that host with no session, and all other items are as
  -- they were. The errors for a bad id and for a bad host come only for such, before any call. A
  -- conflict means that the table has the id, and leaves the table unchanged.
  pub register_lem :
      (id host : Text) (w : W)
      → AfterRegister id host w (register api marshaller table_name id host w)
  register_lem id host w = elim (ended (register api marshaller table_name id host w)) [
    | never p ↦ rw p tt
    | with_ok a w' p ↦
        let (valid, named, item, good, put) =
          register-put api marshaller table_name id host w w' p in
        let (fresh, written) = base.put_ok id item w w' (m.id_attribute _ item good) put in
        rw p (
          valid,
          named,
          fresh,
          rw (written id, text_eq_refl id) (m.round_trip _ item good),
          λ j away. rw (written j, away),
        )
    | with_err conflict w' p ↦
        let (item, good, put) = register-conflict api marshaller table_name id host w w' p in
        rw p (base.put_failed id item w w' (m.id_attribute _ item good) put)
    | with_err invalid_runner_id w' p ↦
        rw p (register-invalid_id api marshaller table_name id host w w' p)
    | with_err invalid_private_host w' p ↦
        rw p (register-invalid_host api marshaller table_name id host w w' p)
    | with_err not_found w' p ↦ rw p tt
    | with_err no_idle_runner w' p ↦ rw p tt
    | with_err condition_failed w' p ↦ rw p tt
    | with_err (backend n) w' p ↦ rw p tt
  ]

  -- A stored id stays stored, whatever Register returns.
  pub register_keeps :
      (id host : Text) (w w' : W) (e : StoreError)
      → register api marshaller table_name id host w ≡ err e w'
      → item_at (table w) id ≢ none
      → item_at (table w') id ≢ none
  register_keeps id host w w' e p held =
      elim (register-failed_put api marshaller table_name id host w w' e p) [
        | inl same ↦ λ x. held (ap (λ u. item_at (table u) id) (sym same) ∙ x)
        | inr (item, conditional_check_failed, good, put) ↦
            let (_, same) = base.put_failed id item w w' (m.id_attribute _ item good) put in
            λ x. held (ap (λ u. item_at u id) (sym same) ∙ x)
        | inr (item, aws_error n, good, put) ↦ base.put_error item n w w' put id held
      ]
