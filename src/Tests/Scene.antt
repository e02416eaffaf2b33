-- ===== src/Tests/Scene.antt =====
-- A small stack for the examples: one idle runner, one busy runner, and a broker over them.
use bunshin.Prelude.{
  ap₂, ◌⊎◌, inl, inr, Bool-cases, Option-cases, some_inj, ℕ, ◌<◌, [], ◌∷◌, Option, none, some, ◌≡◌,
  refl, sym, ap, ◌∙◌, arith, true, false, subst,
}
use bunshin.Text.{Text, lit, text_eq}
use bunshin.Outcome.{ok}
use bunshin.Text.Laws.{text_eq_iff}
use bunshin.Broker.Model.{Runner, state_idle, state_busy}
use bunshin.Broker.Store.Firestore.Readable.{model_of, IsWellFormed}
use bunshin.Broker.Store.Firestore.Taken.{AllWellFormed}
use bunshin.Broker.Service.Table.{IsUnique}
use bunshin.Broker.Service.Outcomes.{IssuesFresh}
use bunshin.Broker.Store.{Repository}
use bunshin.Broker.Store.Contract.{Contract, SameTable}
use bunshin.Broker.Store.Firestore.{
  null, text, acquire_from, to_model, snapshot_to_doc, get_field, set_field, has_tried, Fields,
  field_private_host, field_current_session_id, firestore_repository,
}
use bunshin.Broker.Store.Firestore.Documents.{find_doc, update_doc, in_range}
use bunshin.Text.Order.{text_ltb}
use bunshin.Broker.Store.Firestore.Refines.{firestore_contract}
use bunshin.Broker.Service.{
  BrokerService, ResolveResult, resolve_session, create_session, create_loop, resolve_new,
  namespaced_session_id,
}
use bunshin.Broker.Service.Create.{IsPassive}
use bunshin.Tests.Memory.{Docs, memory, next_idle, page_of}
use bunshin.Tests.Memory.Behaves.{memory_laws, ok_inj}

abbrev pub hex : Text
hex = lit "0123456789abcdef0123456789abcdef"

abbrev pub session : Text
session = lit "s_0123456789abcdef0123456789abcdef"

abbrev pub idle_id : Text
idle_id = lit "a1"

abbrev pub busy_id : Text
busy_id = lit "b2"

abbrev pub idle_fields : Fields
idle_fields = (field_private_host, text (lit "host-a")) ∷ (field_current_session_id, null) ∷ []

abbrev pub busy_fields : Fields
busy_fields =
    (field_private_host, text (lit "host-b")) ∷ (field_current_session_id, text (lit "s_00")) ∷ []

abbrev pub two_docs : Docs
two_docs =
    record { id = idle_id; fields = idle_fields }
    ∷ record { id = busy_id; fields = busy_fields }
    ∷ []

abbrev pub start_of : Docs → Text
start_of docs = lit "b"

abbrev pub repo : Repository Docs
repo = firestore_repository memory 4 start_of

abbrev pub broker : BrokerService Docs
broker = record {
  stack_prefix = lit "s";
  check = λ host docs. ok tt docs;
  ctx_err = λ docs. none;
  session_fn = λ docs. ok hex docs;
}

abbrev pub contract : Contract repo
contract = firestore_contract memory_laws 4 start_of

pub same_table :
    (w w' : Docs) → w ≡ w' → SameTable contract.runner_at contract.size contract.IsSound w w'
same_table w w' e = record {
  same_runners = λ j. ap (λ d. contract.runner_at d j) (sym e);
  same_size = ap contract.size (sym e);
  still_sound = subst contract.IsSound e;
}

pub broker-IsPassive : IsPassive contract broker
broker-IsPassive = record {
  check_ok = λ host w w' e. same_table w w' (ok_inj e).1;
  check_err = λ host x w w' e. cc;
  check_ends = λ host w e. cc;
  session_ok = λ hex w w' e. same_table w w' (ok_inj e).1;
  session_ends = λ w e. cc;
}

abbrev pub resolved_one : ResolveResult
resolved_one = record {
  session_id = session;
  session_hex = hex;
  runner_host = lit "host-a";
  created = true;
  reassigned = false;
}

abbrev pub taken_fields : Fields
taken_fields =
    (field_private_host, text (lit "host-a")) ∷ (field_current_session_id, text session) ∷ []

abbrev pub taken_docs : Docs
taken_docs =
    record { id = idle_id; fields = taken_fields }
    ∷ record { id = busy_id; fields = busy_fields }
    ∷ []

pub resolves_one : resolve_session repo broker 3 [] two_docs ≡ ok resolved_one taken_docs
unfolding resolve_session resolve_new create_session create_loop firestore_repository acquire_from
    next_idle page_of find_doc update_doc in_range snapshot_to_doc get_field set_field has_tried
    text_ltb
resolves_one = refl

abbrev pub idle_runner : Runner
idle_runner = record {
  runner_id = idle_id;
  state = state_idle;
  current_session_id = [];
  private_host = lit "host-a";
}

abbrev pub busy_runner : Runner
busy_runner = record {
  runner_id = busy_id;
  state = state_busy;
  current_session_id = lit "s_00";
  private_host = lit "host-b";
}

none-ne-some : {A : Type 0} {a : A} → ◌≡◌ {A = Option A} none (some a) → ⊥
none-ne-some e = cc

two_docs-cases :
    (id : Text) (fields : Fields)
    → find_doc id two_docs ≡ some fields
    → ((id ≡ idle_id) × (fields ≡ idle_fields)) ⊎ ((id ≡ busy_id) × (fields ≡ busy_fields))
unfolding find_doc
two_docs-cases id fields e = elim (Bool-cases (text_eq idle_id id)) [
  | inl same ↦ inl (sym ((text_eq_iff idle_id id).0 same), sym (some_inj (sym (rw same refl) ∙ e)))
  | inr differs ↦ elim (Bool-cases (text_eq busy_id id)) [
    | inl same ↦
        inr (
          sym ((text_eq_iff busy_id id).0 same),
          sym (some_inj (sym (rw (differs, same) refl) ∙ e)),
        )
    | inr neither ↦ absurd (none-ne-some (sym (rw (differs, neither) refl) ∙ e))
  ]
]

two_docs-runners :
    (id : Text) (r : Runner)
    → contract.runner_at two_docs id ≡ some r
    → ((id ≡ idle_id) × (r ≡ idle_runner)) ⊎ ((id ≡ busy_id) × (r ≡ busy_runner))
unfolding snapshot_to_doc get_field to_model firestore_contract find_doc memory_laws
two_docs-runners id r e = elim (Option-cases (find_doc id two_docs)) [
  | inl missing ↦ absurd (none-ne-some (sym (ap (model_of id) missing) ∙ e))
  | inr (fields, at) ↦
      let held : model_of id (some fields) ≡ some r = sym (ap (model_of id) at) ∙ e in
      elim (two_docs-cases id fields at) [
        | inl (i, f) ↦ inl (i, sym (some_inj (sym (ap₂ (λ x y. model_of x (some y)) i f) ∙ held)))
        | inr (i, f) ↦ inr (i, sym (some_inj (sym (ap₂ (λ x y. model_of x (some y)) i f) ∙ held)))
      ]
]

nil-ne-cons : {c : ℕ} {s : Text} → ◌≡◌ {A = Text} [] (c ∷ s) → ⊥
nil-ne-cons e = cc

true-ne-false : true ≡ false → ⊥
true-ne-false e = cc

idle-IsWellFormed : IsWellFormed idle_id idle_fields
unfolding snapshot_to_doc get_field
idle-IsWellFormed = (
  record { runner_id = idle_id; private_host = lit "host-a"; current_session_id = [] },
  refl,
  inl refl,
  λ e. cc,
)

busy-IsWellFormed : IsWellFormed busy_id busy_fields
unfolding snapshot_to_doc get_field
busy-IsWellFormed = (
  record { runner_id = busy_id; private_host = lit "host-b"; current_session_id = lit "s_00" },
  refl,
  inr (λ e. cc),
  λ e. cc,
)

pub two_docs-AllWellFormed : AllWellFormed two_docs
two_docs-AllWellFormed id fields e = elim (two_docs-cases id fields e) [
  | inl (i, f) ↦
      subst (λ x. IsWellFormed x fields) (sym i)
        (subst (IsWellFormed idle_id) (sym f) idle-IsWellFormed)
  | inr (i, f) ↦
      subst (λ x. IsWellFormed x fields) (sym i)
        (subst (IsWellFormed busy_id) (sym f) busy-IsWellFormed)
]

pub two_docs-IsSound : contract.IsSound two_docs
unfolding firestore_contract memory_laws
two_docs-IsSound = (omega arith, two_docs-AllWellFormed)

pub two_docs-size : contract.size two_docs < 3
unfolding firestore_contract memory_laws
two_docs-size = omega arith

pub two_docs-bound : contract.size two_docs < contract.bound
unfolding firestore_contract memory_laws
two_docs-bound = omega arith

pub two_docs-IsUnique : IsUnique contract two_docs
two_docs-IsUnique j k r q at at' same filled = elim (two_docs-runners j r at) [
  | inl (i, e) ↦ absurd (filled (ap (λ (x : Runner). x.current_session_id) e))
  | inr (i, e) ↦ elim (two_docs-runners k q at') [
    | inl (i', e') ↦ absurd (filled (same ∙ ap (λ (x : Runner). x.current_session_id) e'))
    | inr (i', e') ↦ i ∙ sym i'
  ]
]

pub two_docs-IssuesFresh : IssuesFresh contract broker two_docs
two_docs-IssuesFresh u u' x issued j r at same =
    let hex_of : hex ≡ x = (ok_inj issued).0 in
    let owned : r.current_session_id ≡ session =
      same ∙ ap (namespaced_session_id repo broker) (sym hex_of) in
    elim (two_docs-runners j r at) [
      | inl (i, e) ↦ nil-ne-cons (sym (ap (λ (x : Runner). x.current_session_id) e) ∙ owned)
      | inr (i, e) ↦ true-ne-false (
          sym (
            (text_eq_iff (lit "s_00") session).1
              (sym (ap (λ (x : Runner). x.current_session_id) e) ∙ owned)))
    ]
