-- ===== src/Broker/Store/Firestore/Laws.antt =====
-- What Firestore documents of the operations behind FirestoreClientAPI, for one client at a time.
use bunshin.Prelude.{ℕ, ◌≤◌, true, List, [], Option, none, some, ◌≡◌, ◌≢◌, ◌⊎◌, length, All, Any}
use bunshin.Text.{Text}
use bunshin.Text.Order.{text_ltb}
use bunshin.Outcome.{Act, ok, err, diverged}
use bunshin.Broker.Store.{StoreError, not_found, no_idle_runner, condition_failed}
use bunshin.Broker.Store.Firestore.{
  Value, null, text, Fields, field_current_session_id, get_field, DocSnapshot, FirestoreClientApi,
  last_id,
}
use bunshin.Broker.Store.Firestore.Documents.{find_doc, update_doc, without_doc, in_range}

abbrev pub IsIdleDoc : Fields → Type 0
IsIdleDoc fields = get_field field_current_session_id fields ≡ some null

-- A page of the idle documents of a range, in the order of their ids.
pub record IsPage (docs : List DocSnapshot) (after up_to : Text) (limit : ℕ)
    (page : List DocSnapshot) : Type 0 where
  pub listed :
      All
        (λ (s : DocSnapshot).
          (find_doc s.id docs ≡ some s.fields)
          × IsIdleDoc s.fields
          × (in_range after up_to s.id ≡ true)
          × (s.id ≢ []))
        page
  pub sized : length page ≤ limit
  -- What the page leaves out stands behind its last document, and the page is full.
  pub complete :
      (id : Text) (fields : Fields)
      → find_doc id docs ≡ some fields
      → IsIdleDoc fields
      → in_range after up_to id ≡ true
      → id ≢ []
      → Any (λ (s : DocSnapshot). id ≡ s.id) page
        ⊎ ((length page ≡ limit) × (text_ltb (last_id after page) id ≡ true))

-- `docs` is the collection, `seen` what a transaction would leave of it if it ended now.
pub record FirestoreLaws {W T : Type 0} (api : FirestoreClientApi W T) : Type 0 where
  pub docs : W → List DocSnapshot
  pub seen : T → List DocSnapshot
  pub tx_get_ok :
      (id : Text) (t t' : T) (found : Option Fields)
      → api.tx.get id t ≡ ok found t'
      → (found ≡ find_doc id (seen t)) × (seen t' ≡ seen t)
  pub tx_get_err : (id : Text) (t t' : T) → api.tx.get id t ≢ err condition_failed t'
  pub tx_get_ends : (id : Text) (t : T) → api.tx.get id t ≢ diverged
  pub tx_update_ok :
      (id field : Text) (value : Value) (t t' : T)
      → api.tx.update id field value t ≡ ok tt t'
      → seen t' ≡ update_doc id field value (seen t)
  pub tx_update_err :
      (id field : Text) (value : Value) (t t' : T)
      → api.tx.update id field value t ≢ err condition_failed t'
  pub tx_update_ends :
      (id field : Text) (value : Value) (t : T) → api.tx.update id field value t ≢ diverged
  -- A transaction runs on the collection as it is, and takes effect as a whole or not at all.
  pub run_tx_ok :
      (body : Act T StoreError (Unit {0})) (w w' : W)
      → api.run_tx body w ≡ ok tt w'
      → (t : T) × (t' : T) × (seen t ≡ docs w) × (body t ≡ ok tt t') × (docs w' ≡ seen t')
  pub run_tx_failed :
      (body : Act T StoreError (Unit {0})) (w w' : W)
      → api.run_tx body w ≡ err condition_failed w'
      → (t : T) × (t' : T) × (seen t ≡ docs w)
        × (body t ≡ err condition_failed t')
        × (docs w' ≡ docs w)
  pub run_tx_err :
      (body : Act T StoreError (Unit {0})) (w w' : W) → api.run_tx body w ≢ err no_idle_runner w'
  pub run_tx_ends :
      (body : Act T StoreError (Unit {0})) (w : W)
      → ((t : T) → body t ≢ diverged)
      → api.run_tx body w ≢ diverged
  pub query_ok :
      (after up_to : Text) (limit : ℕ) (w w' : W) (page : List DocSnapshot)
      → api.query_idle_range after up_to limit w ≡ ok page w'
      → IsPage (docs w) after up_to limit page × (docs w' ≡ docs w)
  pub query_err :
      (after up_to : Text) (limit : ℕ) (w w' : W)
      → api.query_idle_range after up_to limit w ≢ err no_idle_runner w'
  pub query_ends :
      (after up_to : Text) (limit : ℕ) (w : W) → api.query_idle_range after up_to limit w ≢ diverged
  pub delete_ok :
      (id : Text) (w w' : W) → api.delete id w ≡ ok tt w' → docs w' ≡ without_doc id (docs w)
  pub delete_err :
      (id : Text) (w w' : W)
      → (api.delete id w ≢ err not_found w') × (api.delete id w ≢ err no_idle_runner w')
  pub delete_ends : (id : Text) (w : W) → api.delete id w ≢ diverged
  -- A query for a session finds one of the documents that have it.
  pub session_some :
      (session : Text) (w w' : W) (s : DocSnapshot)
      → api.query_by_session session w ≡ ok (some s) w'
      → (find_doc s.id (docs w) ≡ some s.fields)
        × (get_field field_current_session_id s.fields ≡ some (text session))
        × (docs w' ≡ docs w)
  pub session_none :
      (session : Text) (w w' : W)
      → api.query_by_session session w ≡ ok none w'
      → ((id : Text) (fields : Fields)
          → find_doc id (docs w) ≡ some fields
          → get_field field_current_session_id fields ≢ some (text session))
        × (docs w' ≡ docs w)
  pub session_err :
      (session : Text) (w w' : W)
      → (api.query_by_session session w ≢ err not_found w')
        × (api.query_by_session session w ≢ err no_idle_runner w')
  pub session_ends : (session : Text) (w : W) → api.query_by_session session w ≢ diverged
