-- ===== src/Tests/Slot/Laws.antt =====
-- The table with one item behaves as DynamoDB is documented to.
use bunshin.Prelude.{
  ◌<◌, ◌≤◌, Bool, true, false, ◌&&◌, none, some, ◌≡◌, refl, sym, subst, ap, ◌∙◌, ◌≢◌, inl, inr,
  arith, Bool-cases, if◌then◌else◌,
}
use bunshin.Text.{Text, lit, text_eq}
use bunshin.Text.Laws.{text_eq_iff}
use bunshin.Outcome.{Outcome, ok, err, ok_injective}
use bunshin.Broker.Store.Dynamo.Api.{member_s, Item, DynamoError, conditional_check_failed, key_of}
use bunshin.Broker.Store.Dynamo.Laws.{
  TableLaws, get_attribute, set_attribute, taken_item, take_if_idle,
}
use bunshin.Tests.Slot.{Slot, holds, item_in, size_of, update, remove, slot_api}
use bunshin.Tests.Slot.Items.{get_attribute-set}
use bunshin.Tests.Slot.Puts.{
  and_left, and_right, ok_state, err_ne_ok, is_text_iff, holds_of, keyed_lem, item_in-own,
  put_ok_lem, put_failed_lem, put_error_lem,
}

-- The test of the conditional update.
can_take : Text → Item → Bool
can_take id item = holds (lit "runnerId") id item && holds (lit "state") (lit "idle") item

update_eq :
    (name id session : Text) (item : Item)
    → update (take_if_idle name id session) (some item) ≡ (
        if can_take id item
        then ok tt (some (taken_item session item))
        else err conditional_check_failed (some item))
unfolding update can_take
update_eq name id session item = refl

update_when_free :
    (name id session : Text) (item : Item)
    → can_take id item ≡ true
    → update (take_if_idle name id session) (some item) ≡ ok tt (some (taken_item session item))
update_when_free name id session item h = rw (update_eq name id session item, h)

update_when_held :
    (name id session : Text) (item : Item)
    → can_take id item ≡ false
    → update (take_if_idle name id session) (some item) ≡ err conditional_check_failed (some item)
update_when_held name id session item h = rw (update_eq name id session item, h)

can_take_id :
    (id : Text) (item : Item) → can_take id item ≡ true → holds (lit "runnerId") id item ≡ true
unfolding can_take
can_take_id id item h = and_left _ _ h

can_take_idle :
    (id : Text) (item : Item)
    → can_take id item ≡ true
    → holds (lit "state") (lit "idle") item ≡ true
unfolding can_take
can_take_idle id item h = and_right _ _ h

-- A write of the other attributes keeps the id.
taken_own :
    (session id : Text) (item : Item)
    → get_attribute (lit "runnerId") item ≡ some (member_s id)
    → get_attribute (lit "runnerId") (taken_item session item) ≡ some (member_s id)
taken_own session id item own =
    get_attribute-set (lit "currentSessionId") (lit "runnerId") (member_s session)
      (set_attribute (lit "state") (member_s (lit "busy")) item)
    ∙ get_attribute-set (lit "state") (lit "runnerId") (member_s (lit "busy")) item
    ∙ own

-- Beside the one item there is none.
with_else :
    (j id : Text) (item other : Item)
    → get_attribute (lit "runnerId") item ≡ some (member_s id)
    → (if text_eq j id then some other else item_in (some item) j)
      ≡ (if text_eq j id then some other else none)
with_else j id item other own = elim (Bool-cases (text_eq j id)) [
  | inl here ↦ rw here
  | inr away ↦ rw away (item_in-own item id j own ∙ rw away)
]

pub update_ok_lem :
    (name id session : Text) (w w' : Slot)
    → update (take_if_idle name id session) w ≡ ok tt w'
    → (item : Item) × (item_in w id ≡ some item)
      × (get_attribute (lit "state") item ≡ some (member_s (lit "idle")))
      × ((j : Text)
          → item_in w' j ≡ (if text_eq j id then some (taken_item session item) else item_in w j))
      × (size_of w' ≡ size_of w)
unfolding update item_in size_of
update_ok_lem name id session none w' e = cc
update_ok_lem name id session (some item) w' e = elim (Bool-cases (can_take id item)) [
  | inl free ↦
      let own = is_text_iff id _ (can_take_id id item free) in
      let made : some (taken_item session item) ≡ w' =
        ok_state (sym (update_when_free name id session item free) ∙ e) in
      let own' = taken_own session id item own in
      (
        item,
        rw (holds_of (lit "runnerId") id item own),
        is_text_iff (lit "idle") _ (can_take_idle id item free),
        λ j.
            subst
              (λ s.
                item_in s j
                ≡ (if text_eq j id then some (taken_item session item) else item_in (some item) j))
              made
              (item_in-own (taken_item session item) id j own' ∙ sym (with_else j id item _ own)),
        ap size_of (sym made),
      )
  | inr held ↦ absurd (err_ne_ok (sym (update_when_held name id session item held) ∙ e))
]

pub not_in_none : (id : Text) (item : Item) → item_in none id ≢ some item
unfolding item_in
not_in_none id item e = cc

failed_none :
    (name id session : Text) (w' : Slot)
    → update (take_if_idle name id session) none ≡ err conditional_check_failed w'
    → w' ≡ none
unfolding update
failed_none name id session w' e = cc

err_state :
    {x y : DynamoError} {w w' : Slot}
    → ◌≡◌ {A = Outcome Slot DynamoError (Unit {0})} (err x w) (err y w')
    → w ≡ w'
err_state e = cc

no_both : (a b : Bool) → (a && b) ≡ false → a ≡ true → b ≡ true → ⊥
no_both true b h k l = cc
no_both false b h k l = cc

pub item_in-eq-some :
    (item found : Item) (id : Text)
    → item_in (some item) id ≡ some found
    → (holds (lit "runnerId") id item ≡ true) × (item ≡ found)
unfolding item_in
item_in-eq-some item found id e = elim (Bool-cases (holds (lit "runnerId") id item)) [
  | inl here ↦ (here, ground arith)
  | inr away ↦ absurd (ground arith)
]

item_in-away :
    (item : Item) (id : Text)
    → holds (lit "runnerId") id item ≡ false
    → item_in (some item) id ≡ none
unfolding item_in
item_in-away item id away = rw away

pub update_failed_lem :
    (name id session : Text) (w w' : Slot)
    → update (take_if_idle name id session) w ≡ err conditional_check_failed w'
    → ((item : Item)
        → item_in w id ≡ some item
        → get_attribute (lit "state") item ≢ some (member_s (lit "idle")))
      × (w' ≡ w)
unfolding can_take
update_failed_lem name id session none w' e =
    (λ item x y. not_in_none id item x, failed_none name id session w' e)
update_failed_lem name id session (some item) w' e = elim (Bool-cases (can_take id item)) [
  | inl free ↦ absurd (err_ne_ok (sym e ∙ update_when_free name id session item free))
  | inr held ↦ (
    λ found at idle.
        let (here, same) = item_in-eq-some item found id at in
        no_both _ _ held here
          (holds_of (lit "state") (lit "idle") item (ap (get_attribute (lit "state")) same ∙ idle)),
    err_state (sym e ∙ update_when_held name id session item held),
  )
]

removed :
    (name id : Text) (item : Item)
    → remove (record { table_name = name; key = key_of id }) (some item)
      ≡ (if holds (lit "runnerId") id item then ok tt none else ok tt (some item))
unfolding remove
removed name id item = refl

delete_here :
    (id : Text) (item : Item) (w' : Slot)
    → holds (lit "runnerId") id item ≡ true
    → none ≡ w'
    → ((j : Text) → item_in w' j ≡ (if text_eq j id then none else item_in (some item) j))
      × ((found : Item) → item_in (some item) id ≡ some found → size_of w' < size_of (some item))
      × (size_of w' ≤ size_of (some item))
unfolding item_in size_of
delete_here id item none here e =
    let own = is_text_iff id _ here in
    (
      λ j. elim (Bool-cases (text_eq j id)) [
        | inl same ↦ rw same
        | inr apart ↦ rw apart (sym (item_in-own item id j own ∙ rw apart))
      ],
      λ found at. omega arith,
      omega arith,
    )
delete_here id item (some x) here e = cc

delete_away :
    (id : Text) (item : Item) (w' : Slot)
    → holds (lit "runnerId") id item ≡ false
    → some item ≡ w'
    → ((j : Text) → item_in w' j ≡ (if text_eq j id then none else item_in (some item) j))
      × ((found : Item) → item_in (some item) id ≡ some found → size_of w' < size_of (some item))
      × (size_of w' ≤ size_of (some item))
delete_away id item w' away e = (
  λ j. ap (λ s. item_in s j) (sym e) ∙ elim (Bool-cases (text_eq j id)) [
    | inl same ↦ rw same (
        item_in-away item j
          (ap (λ x. holds (lit "runnerId") x item) ((text_eq_iff j id).0 same) ∙ away))
    | inr apart ↦ rw apart
  ],
  λ found at.
      let (here, _) = item_in-eq-some item found id at in
      let clash : true ≡ false = sym here ∙ away in cc,
  omega (arith, ap size_of e),
)

pub delete_ok_lem :
    (name id : Text) (w w' : Slot)
    → remove (record { table_name = name; key = key_of id }) w ≡ ok tt w'
    → ((j : Text) → item_in w' j ≡ (if text_eq j id then none else item_in w j))
      × ((item : Item) → item_in w id ≡ some item → size_of w' < size_of w)
      × (size_of w' ≤ size_of w)
unfolding remove item_in
delete_ok_lem name id none w' e =
    let same : none ≡ w' = ok_state e in
    (
      λ j.
          ap (λ s. item_in s j) (sym same)
          ∙ elim (Bool-cases (text_eq j id)) [ inl here ↦ rw here | inr away ↦ rw away ],
      λ item x. cc,
      omega (arith, ap size_of same),
    )
delete_ok_lem name id (some item) w' e = elim (Bool-cases (holds (lit "runnerId") id item)) [
  | inl here ↦ delete_here id item w' here (ok_state (sym (removed name id item ∙ rw here) ∙ e))
  | inr away ↦ delete_away id item w' away (ok_state (sym (removed name id item ∙ rw away) ∙ e))
]

abbrev pub table_laws : (name : Text) → TableLaws slot_api name
table_laws name = record {
  Table = Slot;
  table = λ w. w;
  item_at = item_in;
  size = size_of;
  keyed = keyed_lem;
  put_ok = put_ok_lem name;
  put_failed = put_failed_lem name;
  put_error = put_error_lem name;
  update_ok = update_ok_lem name;
  update_failed = update_failed_lem name;
  delete_ok = delete_ok_lem name;
  get_ok = λ id w w' found e. (sym (ok_injective e).0, sym (ok_injective e).1);
}
