-- ===== src/Tests/Slot/Items.antt =====
-- Reading and writing runners as items, the way the tags of model.Runner say.
use bunshin.Prelude.{
  List, [], ◌∷◌, Option, none, some, ◌≡◌, refl, sym, ap, ◌∙◌, inl, inr, arith, Bool-cases,
  Option-cases, some_inj, subst, if◌then◌else◌,
}
use bunshin.Text.{Text, lit, text_eq}
use bunshin.Text.Laws.{text_eq_iff}
use bunshin.Broker.Model.{Runner}
use bunshin.Broker.Store.Dynamo.Api.{AttributeValue, member_s, member, Item, Marshaller}
use bunshin.Broker.Store.Dynamo.Laws.{get_attribute, set_attribute, Reads, MarshallerLaws}

-- A string field of a struct, from an attribute; `none` is an error.
pub as_field : Option AttributeValue → Option Text
as_field none = some []
as_field (some (member_s v)) = some v
as_field (some (member n)) = none

pub build : Option Text → Option Text → Option Text → Option Text → Option Runner
build (some id) (some st) (some sid) (some host) =
    some (record { runner_id = id; state = st; current_session_id = sid; private_host = host })
build (some id) (some st) (some sid) none = none
build (some id) (some st) none host = none
build (some id) none sid host = none
build none st sid host = none

pub field : Text → Item → Option Text
field name item = as_field (get_attribute name item)

unfoldable pub unmarshal : Item → Option Runner
unfolding build field as_field
unmarshal item =
    build (field (lit "runnerId") item) (field (lit "state") item)
      (field (lit "currentSessionId") item) (field (lit "privateHost") item)

pub push : Option Runner → Option (List Runner) → Option (List Runner)
push (some r) (some rs) = some (r ∷ rs)
push (some r) none = none
push none rs = none

unfoldable pub unmarshal_list : List Item → Option (List Runner)
unfolding push unmarshal
unmarshal_list [] = some []
unmarshal_list (item ∷ items) = push (unmarshal item) (unmarshal_list items)

unfoldable pub marshal : Runner → Option Item
marshal r = some (
    (lit "runnerId", member_s r.runner_id)
    ∷ (lit "state", member_s r.state)
    ∷ (lit "currentSessionId", member_s r.current_session_id)
    ∷ (lit "privateHost", member_s r.private_host)
    ∷ [])

abbrev pub item_marshaller : Marshaller
item_marshaller = record {
  marshal = marshal;
  unmarshal = unmarshal;
  unmarshal_list = unmarshal_list;
}

build-eq-some :
    (id st sid host : Option Text) (r : Runner)
    → build id st sid host ≡ some r
    → (id ≡ some r.runner_id)
      × (st ≡ some r.state)
      × (sid ≡ some r.current_session_id)
      × (host ≡ some r.private_host)
unfolding build
build-eq-some (some id) (some st) (some sid) (some host) r e = ground arith
build-eq-some (some id) (some st) (some sid) none r e = cc
build-eq-some (some id) (some st) none host r e = cc
build-eq-some (some id) none sid host r e = cc
build-eq-some none st sid host r e = cc

Reads-of : (name v : Text) (item : Item) → field name item ≡ some v → Reads item name v
unfolding field as_field
Reads-of name v item e = elim (Option-cases (get_attribute name item)) [
  | inl missing ↦ record { attribute = λ h. absurd (h (ground arith)); field_of = λ u x. cc }
  | inr (member_s u, found) ↦
      let same : u ≡ v = ground arith in
      record {
        attribute = λ h. found ∙ ap (λ x. some (member_s x)) same;
        field_of = λ x y. ground arith;
      }
  | inr (member n, found) ↦ absurd (ground arith)
]

pub get_attribute-set :
    (name other : Text) (v : AttributeValue) (item : Item)
    → get_attribute other (set_attribute name v item)
      ≡ (if text_eq name other then some v else get_attribute other item)
get_attribute-set name other v [] = refl
get_attribute-set name other v ((key, old) ∷ item) = ground (
  arith,
  text_eq_iff key name,
  text_eq_iff key other,
  text_eq_iff name other,
  get_attribute-set name other v item,
)

field-set :
    (name other v : Text) (item : Item)
    → field other (set_attribute name (member_s v) item)
      ≡ (if text_eq name other then some v else field other item)
unfolding field as_field
field-set name other v item = elim (Bool-cases (text_eq name other)) [
  | inl same ↦ rw (get_attribute-set name other (member_s v) item, same)
  | inr apart ↦ rw (get_attribute-set name other (member_s v) item, apart)
]

-- What an item that reads as a runner holds.
fields_of :
    (item : Item) (r : Runner)
    → unmarshal item ≡ some r
    → (field (lit "runnerId") item ≡ some r.runner_id)
      × (field (lit "state") item ≡ some r.state)
      × (field (lit "currentSessionId") item ≡ some r.current_session_id)
      × (field (lit "privateHost") item ≡ some r.private_host)
unfolding unmarshal
fields_of item r e = build-eq-some _ _ _ _ r e

build_of :
    (item : Item) (r : Runner)
    → field (lit "runnerId") item ≡ some r.runner_id
    → field (lit "state") item ≡ some r.state
    → field (lit "currentSessionId") item ≡ some r.current_session_id
    → field (lit "privateHost") item ≡ some r.private_host
    → unmarshal item ≡ some r
unfolding unmarshal build
build_of item r e f g h = rw (e, f, g, h)

push-eq-some :
    (r : Option Runner) (rest : Option (List Runner)) (rs : List Runner)
    → push r rest ≡ some rs
    → (q : Runner) × (qs : List Runner) × (r ≡ some q) × (rest ≡ some qs) × (rs ≡ q ∷ qs)
unfolding push
push-eq-some (some r) (some rest) rs e = (r, rest, refl, refl, sym (some_inj e))
push-eq-some (some r) none rs e = cc
push-eq-some none rest rs e = cc

list_cons_lem :
    (item : Item) (items : List Item) (rs : List Runner)
    → unmarshal_list (item ∷ items) ≡ some rs
    → (r : Runner) × (rest : List Runner) × (unmarshal item ≡ some r)
      × (unmarshal_list items ≡ some rest)
      × (rs ≡ r ∷ rest)
unfolding unmarshal_list
list_cons_lem item items rs e = push-eq-some _ _ rs e

list_nil_lem : unmarshal_list [] ≡ some []
unfolding unmarshal_list
list_nil_lem = refl

marshal_some :
    (r : Runner) (item : Item)
    → marshal r ≡ some item
    → (unmarshal item ≡ some r)
      × (get_attribute (lit "runnerId") item ≡ some (member_s r.runner_id))
unfolding marshal unmarshal build field as_field
marshal_some r item e =
    subst
      (λ x.
        (unmarshal x ≡ some r) × (get_attribute (lit "runnerId") x ≡ some (member_s r.runner_id)))
      (some_inj e) (refl, refl)

pub item_laws : MarshallerLaws item_marshaller
item_laws = record {
  round_trip = λ r item e. (marshal_some r item e).0;
  id_attribute = λ r item e. (marshal_some r item e).1;
  reads = λ item r e.
      let (id, st, sid, host) = fields_of item r e in
      (Reads-of _ _ item id, Reads-of _ _ item st, Reads-of _ _ item sid);
  reads_state = λ item r v e.
      let (id, st, sid, host) = fields_of item r e in
      build_of (set_attribute (lit "state") (member_s v) item) (record r { state = v })
        (field-set (lit "state") (lit "runnerId") v item ∙ id)
        (field-set (lit "state") (lit "state") v item)
        (field-set (lit "state") (lit "currentSessionId") v item ∙ sid)
        (field-set (lit "state") (lit "privateHost") v item ∙ host);
  reads_session = λ item r v e.
      let (id, st, sid, host) = fields_of item r e in
      build_of (set_attribute (lit "currentSessionId") (member_s v) item)
        (record r { current_session_id = v })
        (field-set (lit "currentSessionId") (lit "runnerId") v item ∙ id)
        (field-set (lit "currentSessionId") (lit "state") v item ∙ st)
        (field-set (lit "currentSessionId") (lit "currentSessionId") v item)
        (field-set (lit "currentSessionId") (lit "privateHost") v item ∙ host);
  list_nil = list_nil_lem;
  list_cons = list_cons_lem;
}
