-- ===== src/Broker/Store/Firestore/Readable.antt =====
-- Documents and the runners that they stand for: fields, snapshotToDoc and toModel.
use bunshin.Prelude.{
  [], ◌∷◌, Option, none, some, ◌≡◌, refl, sym, ap, ◌∙◌, ◌≢◌, ◌⊎◌, inl, inr, if◌then◌else◌, arith,
  Option-cases, is_empty,
}
use bunshin.Text.{Text, text_eq}
use bunshin.Text.Laws.{text_eq_iff}
use bunshin.Broker.Model.{Runner, busy-ne-idle, state_idle, state_busy}
use bunshin.Broker.Store.Firestore.{
  Value, null, text, other, Fields, field_private_host, field_current_session_id, get_field,
  set_field, RunnerDoc, to_model, with_session, with_host, snapshot_to_doc,
}
use bunshin.Broker.Store.Firestore.Laws.{IsIdleDoc}

pub get_field-set_field :
    (name field : Text) (value : Value) (fields : Fields)
    → get_field name (set_field field value fields)
      ≡ (if text_eq field name then some value else get_field name fields)
unfolding get_field set_field
get_field-set_field name field value [] = refl
get_field-set_field name field value ((key, old) ∷ fields) = ground (
  arith,
  get_field-set_field name field value fields,
  text_eq_iff key field,
  text_eq_iff field name,
  text_eq_iff key name,
)

-- A document that is read, field by field.
pub record IsReadable (id : Text) (fields : Fields) (doc : RunnerDoc) : Type 0 where
  pub named : doc.runner_id ≡ id
  pub host : get_field field_private_host fields ≡ some (text doc.private_host)
  pub session :
      ((get_field field_current_session_id fields ≡ some null) × (doc.current_session_id ≡ []))
      ⊎ (get_field field_current_session_id fields ≡ some (text doc.current_session_id))

with_session-IsReadable :
    (id host : Text) (fields : Fields) (found : Option Value) (doc : RunnerDoc)
    → get_field field_private_host fields ≡ some (text host)
    → get_field field_current_session_id fields ≡ found
    → with_session id host found ≡ some doc
    → IsReadable id fields doc
unfolding with_session
with_session-IsReadable id host fields none doc g e h = cc
with_session-IsReadable id host fields (some null) doc g e h = record {
  named = cc;
  host = g ∙ cc;
  session = inl (e, cc);
}
with_session-IsReadable id host fields (some (text s)) doc g e h = record {
  named = cc;
  host = g ∙ cc;
  session = inr (e ∙ cc);
}
with_session-IsReadable id host fields (some (other n)) doc g e h = cc

with_host-IsReadable :
    (id : Text) (fields : Fields) (found : Option Value) (doc : RunnerDoc)
    → get_field field_private_host fields ≡ found
    → with_host id fields found ≡ some doc
    → IsReadable id fields doc
unfolding with_host
with_host-IsReadable id fields (some (text host)) doc g h =
    with_session-IsReadable id host fields _ doc g refl h
with_host-IsReadable id fields _ doc g h = cc

pub snapshot_to_doc-IsReadable :
    (id : Text) (fields : Fields) (doc : RunnerDoc)
    → snapshot_to_doc id fields ≡ some doc
    → IsReadable id fields doc
unfolding snapshot_to_doc
snapshot_to_doc-IsReadable id fields doc h = with_host-IsReadable id fields _ doc refl h

-- Writing a session into a document that is read.
pub snapshot_to_doc-set_field :
    (id session : Text) (fields : Fields) (doc : RunnerDoc)
    → snapshot_to_doc id fields ≡ some doc
    → snapshot_to_doc id (set_field field_current_session_id (text session) fields)
      ≡ some (record doc { current_session_id = session })
unfolding snapshot_to_doc with_host with_session
snapshot_to_doc-set_field id session fields doc h =
    let r = snapshot_to_doc-IsReadable id fields doc h in
    let host : get_field field_private_host
          (set_field field_current_session_id (text session) fields)
        ≡ some (text doc.private_host) =
      get_field-set_field field_private_host field_current_session_id (text session) fields
      ∙ r.host in
    let current : get_field field_current_session_id
          (set_field field_current_session_id (text session) fields)
        ≡ some (text session) =
      get_field-set_field field_current_session_id field_current_session_id (text session) fields in
    rw (host, current, with_host, with_session)
      (ap
        (λ (x : Text).
          some (record {
            runner_id = x;
            private_host = doc.private_host;
            current_session_id = session;
          }))
        (sym r.named))

abbrev model_of_doc : Option RunnerDoc → Option Runner
model_of_doc none = none
model_of_doc (some doc) = some (to_model doc)

-- The runner that a lookup finds, if it can be read.
abbrev pub model_of : Text → Option Fields → Option Runner
model_of id none = none
model_of id (some fields) = model_of_doc (snapshot_to_doc id fields)

pub model_of-eq-some :
    (id : Text) (found : Option Fields) (r : Runner)
    → model_of id found ≡ some r
    → (fields : Fields) × (doc : RunnerDoc) × (found ≡ some fields)
      × (snapshot_to_doc id fields ≡ some doc)
      × (r ≡ to_model doc)
model_of-eq-some id none r h = cc
model_of-eq-some id (some fields) r h = elim (Option-cases (snapshot_to_doc id fields)) [
  | inl e ↦ ground arith
  | inr (doc, e) ↦ (fields, doc, refl, e, ground arith)
]

-- What every document of the program's own writing satisfies: it can be read, and its session is
-- null or not empty, and neither is its id.
abbrev pub IsWellFormed : Text → Fields → Type 0
IsWellFormed id fields =
    (doc : RunnerDoc) × (snapshot_to_doc id fields ≡ some doc)
    × (IsIdleDoc fields ⊎ (doc.current_session_id ≢ []))
    × (id ≢ [])

pub to_model_busy :
    (doc : RunnerDoc) → doc.current_session_id ≢ [] → (to_model doc).state ≡ state_busy
unfolding to_model
to_model_busy doc h = state_of doc.current_session_id h
  where
    state_of : (x : Text) → x ≢ [] → (if is_empty x then state_idle else state_busy) ≡ state_busy
    state_of [] h = absurd (h refl)
    state_of (c ∷ x) h = refl

pub to_model_idle :
    (doc : RunnerDoc) → doc.current_session_id ≡ [] → (to_model doc).state ≡ state_idle
unfolding to_model
to_model_idle doc h = rw h

pub to_model-state :
    (id : Text) (fields : Fields) (doc : RunnerDoc)
    → snapshot_to_doc id fields ≡ some doc
    → IsIdleDoc fields ⊎ (doc.current_session_id ≢ [])
    → (to_model doc).state ≡ state_idle
    → IsIdleDoc fields
unfolding to_model
to_model-state id fields doc h (inl idle) e = idle
to_model-state id fields doc h (inr busy) e =
    absurd (busy-ne-idle (sym (to_model_busy doc busy) ∙ e))
