-- ===== src/Tests/Memory/Behaves.antt =====
-- The in-memory database keeps to what Firestore documents.
use bunshin.Prelude.{
  true, [], ◌∷◌, Option, none, some, ◌≡◌, refl, sym, ap, ◌∙◌, ◌≢◌, ◌⊎◌, inl, inr, Any, Bool-cases,
  some_inj, subst,
}
use bunshin.Text.{Text}
use bunshin.Text.Laws.{text_eq_iff, text_eq_refl}
use bunshin.Outcome.{Outcome, ok, err, diverged}
use bunshin.Broker.Store.{StoreError, no_idle_runner, condition_failed}
use bunshin.Broker.Store.Firestore.{
  Value, text, Fields, field_current_session_id, get_field, DocSnapshot,
}
use bunshin.Broker.Store.Firestore.Documents.{find_doc}
use bunshin.Broker.Store.Firestore.Laws.{FirestoreLaws, IsPage}
use bunshin.Tests.Memory.{Docs, is_text, with_text, or_else, by_session, commit, memory}
use bunshin.Tests.Memory.Query.{page_of-IsPage, find_doc-listed}

-- A document that has the session.
abbrev HasSession : Text → Docs → DocSnapshot → Type 0
HasSession session docs s =
    (find_doc s.id docs ≡ some s.fields)
    × (get_field field_current_session_id s.fields ≡ some (text session))

is_text-eq :
    (session : Text) (v : Option Value) → is_text session v ≡ true → v ≡ some (text session)
is_text-eq session (some (text s)) h = ap (λ x. some (text x)) ((text_eq_iff s session).0 h)
is_text-eq session _ h = cc

with_text-HasSession :
    (session : Text) (docs : Docs) (id : Text) (found : Option Fields) (s : DocSnapshot)
    → find_doc id docs ≡ found
    → with_text session id found ≡ some s
    → HasSession session docs s
with_text-HasSession session docs id none s e h = cc
with_text-HasSession session docs id (some fields) s e h =
    elim (Bool-cases (is_text session (get_field field_current_session_id fields))) [
      | inr fails ↦ cc
      | inl same ↦
          let same_doc : record { id = id; fields = fields } ≡ s =
            some_inj (sym (rw same refl) ∙ h) in
          subst (HasSession session docs) same_doc (e, is_text-eq session _ same)
    ]

or_else-cases :
    (a b : Option DocSnapshot) (s : DocSnapshot)
    → or_else a b ≡ some s
    → (a ≡ some s) ⊎ (b ≡ some s)
or_else-cases none b s h = inr h
or_else-cases (some t) b s h = inl h

or_else-none : (a b : Option DocSnapshot) → or_else a b ≡ none → (a ≡ none) × (b ≡ none)
or_else-none none b h = (refl, h)
or_else-none (some t) b h = cc

pub by_session-HasSession :
    (session : Text) (docs rest : Docs) (s : DocSnapshot)
    → by_session session docs rest ≡ some s
    → HasSession session docs s
unfolding by_session
by_session-HasSession session docs [] s h = cc
by_session-HasSession session docs (d ∷ rest) s h = elim (or_else-cases _ _ s h) [
  | inl first ↦ with_text-HasSession session docs d.id (find_doc d.id docs) s refl first
  | inr later ↦ by_session-HasSession session docs rest s later
]

with_text-some :
    (session id : Text) (fields : Fields)
    → get_field field_current_session_id fields ≡ some (text session)
    → with_text session id (some fields) ≡ some (record { id = id; fields = fields })
with_text-some session id fields h = rw (h, text_eq_refl session, with_text) refl

pub by_session-none :
    (session : Text) (docs rest : Docs) (id : Text) (fields : Fields)
    → by_session session docs rest ≡ none
    → find_doc id docs ≡ some fields
    → Any (λ (s : DocSnapshot). id ≡ s.id) rest
    → get_field field_current_session_id fields ≢ some (text session)
unfolding by_session
by_session-none session docs [] id fields h at listed e = elim listed [ ]
by_session-none session docs (d ∷ rest) id fields h at (inl here) e =
    let (first, later) = or_else-none _ _ h in
    let first' : with_text session id (find_doc id docs) ≡ none =
      subst (λ x. with_text session x (find_doc x docs) ≡ none) (sym here) first in
    cc (ap (with_text session id) at, with_text-some session id fields e)
by_session-none session docs (d ∷ rest) id fields h at (inr listed) e =
    by_session-none session docs rest id fields (or_else-none _ _ h).1 at listed e

pub commit_ok :
    (docs docs' : Docs) (o : Outcome Docs StoreError (Unit {0}))
    → commit docs o ≡ ok tt docs'
    → o ≡ ok tt docs'
commit_ok docs docs' (ok _ w) h = h
commit_ok docs docs' (err condition_failed w) h = cc
commit_ok docs docs' (err _ w) h = cc
commit_ok docs docs' diverged h = cc

pub commit_failed :
    (docs docs' : Docs) (o : Outcome Docs StoreError (Unit {0}))
    → commit docs o ≡ err condition_failed docs'
    → ((t : Docs) × (o ≡ err condition_failed t)) × (docs' ≡ docs)
commit_failed docs docs' (ok _ w) h = cc
commit_failed docs docs' (err condition_failed w) h = ((w, refl), cc)
commit_failed docs docs' (err _ w) h = cc
commit_failed docs docs' diverged h = cc

pub commit_err :
    (docs docs' : Docs) (o : Outcome Docs StoreError (Unit {0}))
    → commit docs o ≢ err no_idle_runner docs'
commit_err docs docs' (ok _ w) h = cc
commit_err docs docs' (err condition_failed w) h = cc
commit_err docs docs' (err _ w) h = cc
commit_err docs docs' diverged h = cc

pub commit_ends :
    (docs : Docs) (o : Outcome Docs StoreError (Unit {0})) → o ≢ diverged → commit docs o ≢ diverged
commit_ends docs (ok _ w) h e = cc
commit_ends docs (err condition_failed w) h e = cc
commit_ends docs (err _ w) h e = cc
commit_ends docs diverged h e = h refl

pub ok_inj :
    {E A : Type 0} {a b : A} {w w' : Docs}
    → ◌≡◌ {A = Outcome Docs E A} (ok a w) (ok b w')
    → (a ≡ b) × (w ≡ w')
ok_inj e = (cc, cc)

unfoldable pub memory_laws : FirestoreLaws memory
memory_laws = record {
  docs = λ w. w;
  seen = λ t. t;
  tx_get_ok = λ id t t' found e. let (a, b) = ok_inj e in (sym a, sym b);
  tx_get_err = λ id t t' e. cc;
  tx_get_ends = λ id t e. cc;
  tx_update_ok = λ id field value t t' e. sym (ok_inj e).1;
  tx_update_err = λ id field value t t' e. cc;
  tx_update_ends = λ id field value t e. cc;
  run_tx_ok = λ body w w' e. (w, w', refl, commit_ok w w' (body w) e, refl);
  run_tx_failed =
      λ body w w' e. let ((t, f), same) = commit_failed w w' (body w) e in (w, t, refl, f, same);
  run_tx_err = λ body w w' e. commit_err w w' (body w) e;
  run_tx_ends = λ body w h e. commit_ends w (body w) (h w) e;
  query_ok = λ after up_to limit w w' page e.
      let (a, b) = ok_inj e in
      (subst (IsPage w after up_to limit) a (page_of-IsPage limit after up_to w), sym b);
  query_err = λ after up_to limit w w' e. cc;
  query_ends = λ after up_to limit w e. cc;
  delete_ok = λ id w w' e. sym (ok_inj e).1;
  delete_err = λ id w w'. (λ e. cc, λ e. cc);
  delete_ends = λ id w e. cc;
  session_some = λ session w w' s e.
      let (a, b) = ok_inj e in
      let (at, has) = by_session-HasSession session w w s a in (at, has, sym b);
  session_none = λ session w w' e.
      let (a, b) = ok_inj e in
      (
        λ id fields at. by_session-none session w w id fields a at (find_doc-listed id w fields at),
        sym b,
      );
  session_err = λ session w w'. (λ e. cc, λ e. cc);
  session_ends = λ session w e. cc;
}
