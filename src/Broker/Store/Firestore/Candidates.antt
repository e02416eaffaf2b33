-- ===== src/Broker/Store/Firestore/Candidates.antt =====
-- assignFirstIdle: the candidates of a page, one after the other.
use bunshin.Prelude.{
  true, false, List, [], ◌∷◌, Option, none, some, ◌≡◌, refl, sym, ap, ap₂, ◌∙◌, ◌≢◌, inl, inr,
  arith, All, Bool-cases, Option-cases,
}
use bunshin.Text.{Text, text_eq}
use bunshin.Text.Laws.{text_eq_iff, text_eq_refl}
use bunshin.Outcome.{Outcome, ok, err, diverged, ended, with_ok, with_err, never}
use bunshin.Broker.Model.{Runner, state_busy}
use bunshin.Broker.Store.{StoreError, no_idle_runner, condition_failed}
use bunshin.Broker.Store.Firestore.{
  text, Fields, field_current_session_id, RunnerDoc, DocSnapshot, FirestoreClientApi,
  snapshot_to_doc, has_tried, assign_session, assign_first_idle,
}
use bunshin.Broker.Store.Firestore.Documents.{find_doc, update_doc}
use bunshin.Broker.Store.Firestore.Laws.{IsIdleDoc, FirestoreLaws}
use bunshin.Broker.Store.Firestore.Assign.{
  assign_session-ok, assign_session-failed, assign_session_err, assign_session_ends,
}

-- The ids that were tried belong to documents that cannot be read.
abbrev pub AreMalformed : List DocSnapshot → List Text → Type 0
AreMalformed docs tried =
    (id : Text) (fields : Fields)
    → has_tried id tried ≡ true
    → find_doc id docs ≡ some fields
    → snapshot_to_doc id fields ≡ none

abbrev pub Grows : List Text → List Text → Type 0
Grows tried tried' = (id : Text) → has_tried id tried ≡ true → has_tried id tried' ≡ true

has_tried_self : (id : Text) (tried : List Text) → has_tried id (id ∷ tried) ≡ true
unfolding has_tried
has_tried_self id tried = rw (text_eq_refl id)

has_tried-cons : (id : Text) (tried : List Text) → Grows tried (id ∷ tried)
unfolding has_tried
has_tried-cons id tried j h = ground arith

AreMalformed-cons :
    (docs : List DocSnapshot) (tried : List Text) (s : DocSnapshot)
    → find_doc s.id docs ≡ some s.fields
    → snapshot_to_doc s.id s.fields ≡ none
    → AreMalformed docs tried
    → AreMalformed docs (s.id ∷ tried)
unfolding has_tried
AreMalformed-cons docs tried s at unreadable bad id fields h found =
    elim (Bool-cases (text_eq s.id id)) [
      | inr differs ↦ bad id fields (ground arith) found
      | inl same ↦
          let e : s.id ≡ id = (text_eq_iff s.id id).0 same in
          let e' : s.fields ≡ fields = cc (ap (λ x. find_doc x docs) e, at, found) in
          ap₂ snapshot_to_doc (sym e) (sym e') ∙ unreadable
    ]

-- The runner `r` took an idle document for the session.
pub record IsAssigned (session : Text) (docs docs' : List DocSnapshot) (r : Runner) : Type 0 where
  pub fields : Fields
  pub doc : RunnerDoc
  pub at : find_doc r.runner_id docs ≡ some fields
  pub idle : IsIdleDoc fields
  pub readable : snapshot_to_doc r.runner_id fields ≡ some doc
  pub busy : r.state ≡ state_busy
  pub owns : r.current_session_id ≡ session
  pub host : r.private_host ≡ doc.private_host
  pub written : docs' ≡ update_doc r.runner_id field_current_session_id (text session) docs

abbrev pub Candidates : List DocSnapshot → List DocSnapshot → Type 0
Candidates docs =
    All (λ (s : DocSnapshot). (find_doc s.id docs ≡ some s.fields) × IsIdleDoc s.fields)

module _ {W T : Type 0} {api : FirestoreClientApi W T} (laws : FirestoreLaws api) where
  open laws use {docs}

  abbrev pub AfterCandidates :
      Text
      → List Text
      → W
      → List DocSnapshot
      → Outcome W StoreError (Option Runner × List Text)
      → Type 0
  AfterCandidates session tried w candidates (ok (some r, tried') w') =
      IsAssigned session (docs w) (docs w') r
  AfterCandidates session tried w candidates (ok (none, tried') w') =
      (docs w' ≡ docs w)
      × AreMalformed (docs w) tried'
      × Grows tried tried'
      × All (λ (s : DocSnapshot). has_tried s.id tried' ≡ true) candidates
  AfterCandidates session tried w candidates (err e w') = e ≢ no_idle_runner
  AfterCandidates session tried w candidates diverged = ⊥

  -- A candidate that is passed over has been tried.
  AfterCandidates-cons :
      (session : Text) (tried tried₁ : List Text) (w : W) (s : DocSnapshot)
      (candidates : List DocSnapshot) (o : Outcome W StoreError (Option Runner × List Text))
      → has_tried s.id tried₁ ≡ true
      → Grows tried tried₁
      → AfterCandidates session tried₁ w candidates o
      → AfterCandidates session tried w (s ∷ candidates) o
  AfterCandidates-cons session tried tried₁ w s candidates (ok (some r, tried') w') done more a = a
  AfterCandidates-cons session tried tried₁ w s candidates (ok (none, tried') w') done more a =
      let (same, bad, grows, rest) = a in
      (same, bad, (λ id h. grows id (more id h)), (grows s.id done, rest))
  AfterCandidates-cons session tried tried₁ w s candidates (err e w') done more a = a
  AfterCandidates-cons session tried tried₁ w s candidates diverged done more a = a

  assign_first_err :
      (session : Text) (s : DocSnapshot) (doc : RunnerDoc) (candidates : List DocSnapshot)
      (tried : List Text) (w w₁ : W) (e : StoreError)
      → has_tried s.id tried ≡ false
      → snapshot_to_doc s.id s.fields ≡ some doc
      → (find_doc s.id (docs w) ≡ some s.fields) × IsIdleDoc s.fields
      → assign_session api s.id session w ≡ err e w₁
      → AfterCandidates session tried w
          (s ∷ candidates)
          (assign_first_idle api session (s ∷ candidates) tried w)
  unfolding assign_first_idle
  assign_first_err session s doc candidates tried w w₁ condition_failed new readable listed p =
      absurd (assign_session-failed laws s.id session s.fields w w₁ listed.0 listed.1 p)
  assign_first_err session s doc candidates tried w w₁ no_idle_runner new readable listed p =
      absurd (assign_session_err laws s.id session w w₁ p)
  assign_first_err session s doc candidates tried w w₁ _ new readable listed p =
      rw (new, readable, p, assign_first_idle) (λ x. cc)

  pub assign_first_idle_lem :
      (session : Text) (candidates : List DocSnapshot) (tried : List Text) (w : W)
      → AreMalformed (docs w) tried
      → Candidates (docs w) candidates
      → AfterCandidates session tried w candidates
          (assign_first_idle api session candidates tried w)
  unfolding assign_first_idle
  assign_first_idle_lem session [] tried w bad listed = (refl, bad, (λ id h. h), tt)
  assign_first_idle_lem session (s ∷ candidates) tried w bad listed =
      elim (Bool-cases (has_tried s.id tried)) [
        | inl done ↦
            rw (done, assign_first_idle)
              (AfterCandidates-cons session tried tried w s candidates _ done (λ id h. h)
                (assign_first_idle_lem session candidates tried w bad listed.1))
        | inr new ↦ elim (Option-cases (snapshot_to_doc s.id s.fields)) [
          | inl unreadable ↦
              rw (new, unreadable, assign_first_idle)
                (AfterCandidates-cons session tried (s.id ∷ tried) w s candidates _
                  (has_tried_self s.id tried) (has_tried-cons s.id tried)
                  (assign_first_idle_lem session candidates (s.id ∷ tried) w
                    (AreMalformed-cons (docs w) tried s listed.0.0 unreadable bad) listed.1))
          | inr (doc, readable) ↦ elim (ended (assign_session api s.id session w)) [
            | never x ↦ absurd (assign_session_ends laws s.id session w x)
            | with_err e w₁ p ↦
                assign_first_err session s doc candidates tried w w₁ e new readable listed.0 p
            | with_ok _ w₁ p ↦
                let (_, _, _, written) = assign_session-ok laws s.id session w w₁ p in
                rw (new, readable, p, assign_first_idle)
                  (record {
                    fields = s.fields;
                    doc = doc;
                    at = listed.0.0;
                    idle = listed.0.1;
                    readable = readable;
                    busy = refl;
                    owns = refl;
                    host = refl;
                    written = written;
                  })
          ]
        ]
      ]
