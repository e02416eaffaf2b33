-- ===== src/Tests/Memory.antt =====
-- An in-memory database that behaves as Firestore is documented to, for tests and examples.
pub mod Query
pub mod Behaves
use bunshin.Prelude.{
  ℕ, zero, suc, Bool, true, false, ◌&&◌, not, List, [], ◌∷◌, Option, none, some, is_empty,
  if◌then◌else◌,
}
use bunshin.Text.{Text, text_eq}
use bunshin.Text.Order.{text_ltb}
use bunshin.Outcome.{Outcome, Act, ok, err, diverged}
use bunshin.Broker.Store.{StoreError, condition_failed, conflict, backend}
use bunshin.Broker.Store.Firestore.{
  Value, null, text, other, Fields, field_current_session_id, get_field, DocSnapshot, DocIter, done,
  next, FirestoreTx, FirestoreClientApi,
}
use bunshin.Broker.Store.Firestore.Documents.{find_doc, update_doc, without_doc, in_range}

abbrev pub Docs : Type 0
Docs = List DocSnapshot

abbrev pub is_null : Option Value → Bool
is_null (some null) = true
is_null _ = false

abbrev pub passes : Text → Text → Text → Fields → Bool
passes after up_to id fields =
    in_range after up_to id
    && (is_null (get_field field_current_session_id fields) && not (is_empty id))

abbrev pub candidate : Text → Text → Text → Option Fields → Option DocSnapshot
candidate after up_to id none = none
candidate after up_to id (some fields) =
    if passes after up_to id fields then some (record { id = id; fields = fields }) else none

abbrev pub pick : Option DocSnapshot → Option DocSnapshot → Option DocSnapshot
pick none rest = rest
pick (some s) none = some s
pick (some s) (some t) = if text_ltb t.id s.id then some t else some s

-- The idle document of the range with the least id.
unfoldable pub next_idle : Text → Text → Docs → Docs → Option DocSnapshot
next_idle after up_to docs [] = none
next_idle after up_to docs (s ∷ rest) =
    pick (candidate after up_to s.id (find_doc s.id docs)) (next_idle after up_to docs rest)

unfoldable pub page_of : ℕ → Text → Text → Docs → Docs
unfolding next_idle
page_of zero after up_to docs = []
page_of (suc n) after up_to docs = elim (next_idle after up_to docs docs) [
  | none ↦ []
  | some s ↦ s ∷ page_of n s.id up_to docs
]

abbrev pub is_text : Text → Option Value → Bool
is_text session (some (text s)) = text_eq s session
is_text session _ = false

abbrev pub with_text : Text → Text → Option Fields → Option DocSnapshot
with_text session id none = none
with_text session id (some fields) =
    if is_text session (get_field field_current_session_id fields)
    then some (record { id = id; fields = fields })
    else none

abbrev pub or_else : Option DocSnapshot → Option DocSnapshot → Option DocSnapshot
or_else none rest = rest
or_else (some s) rest = some s

unfoldable pub by_session : Text → Docs → Docs → Option DocSnapshot
by_session session docs [] = none
by_session session docs (s ∷ rest) =
    or_else (with_text session s.id (find_doc s.id docs)) (by_session session docs rest)

unfoldable pub busy_iter : Docs → Docs → DocIter
busy_iter docs [] = done
busy_iter docs (s ∷ rest) =
    let later = busy_iter docs rest in
    if is_null (get_field field_current_session_id s.fields) then later else next s later

abbrev pub commit : Docs → Outcome Docs StoreError (Unit {0}) → Outcome Docs StoreError (Unit {0})
commit docs (ok _ docs') = ok tt docs'
commit docs (err condition_failed _) = err condition_failed docs
commit docs (err _ _) = err (backend 1) docs
commit docs diverged = diverged

abbrev pub create_doc : Text → Fields → Docs → Option Fields → Outcome Docs StoreError (Unit {0})
create_doc id fields docs none = ok tt (record { id = id; fields = fields } ∷ docs)
create_doc id fields docs (some old) = err conflict docs

abbrev pub memory : FirestoreClientApi Docs Docs
memory = record {
  tx = record {
    get = λ id docs. ok (find_doc id docs) docs;
    update = λ id field value docs. ok tt (update_doc id field value docs);
  };
  create = λ id fields docs. create_doc id fields docs (find_doc id docs);
  get = λ id docs. ok (find_doc id docs) docs;
  delete = λ id docs. ok tt (without_doc id docs);
  query_idle_range = λ after up_to limit docs. ok (page_of limit after up_to docs) docs;
  iter_busy = λ docs. busy_iter docs docs;
  query_by_session = λ session docs. ok (by_session session docs docs) docs;
  run_tx = λ body docs. commit docs (body docs);
}
