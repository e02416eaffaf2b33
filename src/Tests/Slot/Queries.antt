-- ===== src/Tests/Slot/Queries.antt =====
-- The queries of the table with one item: one page, up to date.
use bunshin.Prelude.{
  Bool, true, false, not, ◌&&◌, List, [], ◌∷◌, ◌++◌, Option, none, some, ◌≡◌, refl, sym, subst, ap,
  ◌∙◌, ◌≢◌, inl, inr, arith, Any, Bool-cases,
}
use bunshin.Text.{Text, lit}
use bunshin.Outcome.{ok_injective, diverged}
use bunshin.Broker.Store.Dynamo.Api.{
  AttributeValue, member_s, member, Item, QueryInput, QueryOutput, idle_query, busy_query,
  session_query, key_of,
}
use bunshin.Broker.Store.Dynamo.Laws.{
  CallsEnd, PageLaws, IndexLaws, IsStored, get_attribute, take_if_idle,
}
use bunshin.Tests.Slot.{
  Slot, holds, item_in, in_segment, in_index, listed, update, remove, slot_api,
}
use bunshin.Tests.Slot.Laws.{item_in-eq-some, not_in_none, table_laws}
use bunshin.Tests.Slot.Puts.{is_text_iff, holds_of, keyed_lem, and_left}

listed-eq-cons :
    (t : Slot) (input : QueryInput) (item : Item) (items : List Item)
    → listed t input ≡ item ∷ items
    → (t ≡ some item) × (in_index input item (get_attribute (lit "runnerId") item) ≡ true)
unfolding listed
listed-eq-cons none input item items e = cc
listed-eq-cons (some x) input item items e =
    elim (Bool-cases (in_index input x (get_attribute (lit "runnerId") x))) [
      | inl here ↦
          let same : x ≡ item = ground arith in
          (
            ap some same,
            subst (λ y. in_index input y (get_attribute (lit "runnerId") y) ≡ true) same here,
          )
      | inr away ↦ absurd (ground arith)
    ]

listed-eq-nil :
    (item : Item) (input : QueryInput)
    → listed (some item) input ≡ []
    → in_index input item (get_attribute (lit "runnerId") item) ≡ false
unfolding listed
listed-eq-nil item input e =
    elim (Bool-cases (in_index input item (get_attribute (lit "runnerId") item))) [
      | inl here ↦ absurd (ground arith)
      | inr away ↦ away
    ]

not_two :
    (t : Slot) (input : QueryInput) (x y : Item) (items : List Item)
    → listed t input ≢ x ∷ (y ∷ items)
unfolding listed
not_two none input x y items e = cc
not_two (some z) input x y items e = ground arith

not_both : (a b : Bool) → (a && b) ≡ false → a ≡ true → b ≡ false
not_both true b e h = e
not_both false b e h = cc

and_both : (a b : Bool) → a ≡ true → b ≡ true → (a && b) ≡ true
and_both true b e h = h
and_both false b e h = e

not-false : (b : Bool) → not b ≡ false → b ≡ true
not-false true e = refl
not-false false e = cc

listed_of :
    (item : Item) (input : QueryInput)
    → in_index input item (get_attribute (lit "runnerId") item) ≡ true
    → listed (some item) input ≡ item ∷ []
unfolding listed
listed_of item input e = rw e

-- An entry of an index has an id.
in_index-id :
    (input : QueryInput) (item : Item) (a : Option AttributeValue)
    → in_index input item a ≡ true
    → (id : Text) × (a ≡ some (member_s id))
unfolding in_index
in_index-id input item (some (member_s id)) e = (id, refl)
in_index-id input item (some (member n)) e = cc
in_index-id input item none e = cc

IsStored-of :
    (t : Slot) (item : Item) (id : Text)
    → t ≡ some item
    → get_attribute (lit "runnerId") item ≡ some (member_s id)
    → IsStored item_in t item
unfolding item_in
IsStored-of t item id e own =
    subst (λ s. IsStored item_in s item) (sym e) (id, rw (holds_of (lit "runnerId") id item own))

in_index_idle :
    (name cond start id : Text) (item : Item)
    → in_index (idle_query name cond start []) item (some (member_s id))
      ≡ (holds (lit "state") (lit "idle") item && in_segment (lit "#s = :s AND " ++ cond) start id)
unfolding in_index
in_index_idle name cond start id item = refl

in_index_busy :
    (name id : Text) (item : Item)
    → in_index (busy_query name []) item (some (member_s id))
      ≡ (holds (lit "state") (lit "busy") item && true)
unfolding in_index in_segment
in_index_busy name id item = refl

in_index_session :
    (name session id : Text) (item : Item)
    → in_index (session_query name session) item (some (member_s id))
      ≡ holds (lit "currentSessionId") session item
unfolding in_index
in_index_session name session id item = refl

module _ (t : Slot) (input : QueryInput) (item : Item) (items : List Item)
    (e : listed t input ≡ item ∷ items) where
  -- The head of a query is the stored item, with its test.
  head_stored :
      (id : Text) × (t ≡ some item)
      × (get_attribute (lit "runnerId") item ≡ some (member_s id))
      × (in_index input item (some (member_s id)) ≡ true)
  head_stored =
      let (at, within) = listed-eq-cons t input item items e in
      let (id, own) = in_index-id input item _ within in
      (id, at, own, sym (ap (in_index input item) own) ∙ within)

idle_head_lem :
    (name : Text) (t : Slot) (cond start : Text) (item : Item) (items : List Item)
    → listed t (idle_query name cond start []) ≡ item ∷ items
    → IsStored item_in t item × (get_attribute (lit "state") item ≡ some (member_s (lit "idle")))
idle_head_lem name t cond start item items e =
    let (id, at, own, within) = head_stored t _ item items e in
    (
      IsStored-of t item id at own,
      is_text_iff (lit "idle") _
          (and_left _ _ (sym (in_index_idle name cond start id item) ∙ within)),
    )

-- What a query that yields nothing says of the stored item.
nil_stored :
    (t : Slot) (input : QueryInput) (id : Text) (item : Item)
    → listed t input ≡ []
    → item_in t id ≡ some item
    → in_index input item (some (member_s id)) ≡ false
nil_stored none input id item e at = absurd (not_in_none id item at)
nil_stored (some x) input id item e at =
    let (_, same) = item_in-eq-some x item id at in
    let own = keyed_lem (some x) id item at in
    sym (ap (in_index input item) own)
    ∙ listed-eq-nil item input (ap (λ y. listed (some y) input) (sym same) ∙ e)

idle_none_of :
    (name : Text) (t : Slot) (cond start id : Text) (item : Item)
    → listed t (idle_query name cond start []) ≡ []
    → item_in t id ≡ some item
    → get_attribute (lit "state") item ≡ some (member_s (lit "idle"))
    → in_segment (lit "#s = :s AND " ++ cond) start id ≡ false
idle_none_of name t cond start id item e at idle =
    not_both _ _
      (sym (in_index_idle name cond start id item)
        ∙ nil_stored t (idle_query name cond start []) id item e at)
      (holds_of (lit "state") (lit "idle") item idle)

-- A busy item is the one that the query for busy items yields.
busy_any :
    (name : Text) (t : Slot) (id : Text) (item : Item)
    → item_in t id ≡ some item
    → get_attribute (lit "state") item ≡ some (member_s (lit "busy"))
    → Any (λ (x : Item). item ≡ x) (listed t (busy_query name []))
busy_any name none id item at busy = absurd (not_in_none id item at)
busy_any name (some x) id item at busy =
    let (_, same) = item_in-eq-some x item id at in
    let own = keyed_lem (some x) id item at in
    let within : in_index (busy_query name []) item (some (member_s id)) ≡ true =
      in_index_busy name id item
      ∙ and_both _ _ (holds_of (lit "state") (lit "busy") item busy) refl in
    subst (λ y. Any (λ (z : Item). item ≡ z) (listed (some y) (busy_query name []))) (sym same)
      (subst (λ xs. Any (λ (z : Item). item ≡ z) xs)
        (sym (
          listed_of item (busy_query name [])
            (ap (in_index (busy_query name []) item) own ∙ within)))
        (inl refl))

any_head :
    (name : Text) (t : Slot) (item : Item) (items : List Item)
    → listed t (busy_query name []) ≡ items
    → Any (λ (x : Item). item ≡ x) items
    → IsStored item_in t item × (get_attribute (lit "state") item ≡ some (member_s (lit "busy")))
any_head name t item [] e among = absurd among
any_head name t item (x ∷ items) e (inl same) =
    let (id, at, own, within) = head_stored t (busy_query name []) x items e in
    (
      IsStored-of t item id (at ∙ ap some (sym same))
          (ap (get_attribute (lit "runnerId")) same ∙ own),
      ap (get_attribute (lit "state")) same
          ∙ is_text_iff (lit "busy") _ (and_left _ _ (sym (in_index_busy name id x) ∙ within)),
    )
any_head name t item (x ∷ []) e (inr more) = absurd more
any_head name none item (x ∷ (y ∷ items)) e (inr more) = absurd (not_two none _ x y items e)
any_head name (some z) item (x ∷ (y ∷ items)) e (inr more) = absurd (not_two (some z) _ x y items e)

busy_sound_lem :
    (name : Text) (t : Slot) (item : Item)
    → Any (λ (x : Item). item ≡ x) (listed t (busy_query name []))
    → IsStored item_in t item × (get_attribute (lit "state") item ≡ some (member_s (lit "busy")))
busy_sound_lem name t item among = any_head name t item (listed t (busy_query name [])) refl among

update_ends_lem :
    (name id session : Text) (w : Slot) → update (take_if_idle name id session) w ≢ diverged
unfolding update
update_ends_lem name id session none e = cc
update_ends_lem name id session (some item) e = ground arith

delete_ends_lem :
    (name id : Text) (w : Slot)
    → remove (record { table_name = name; key = key_of id }) w ≢ diverged
unfolding remove
delete_ends_lem name id none e = cc
delete_ends_lem name id (some item) e = ground arith

abbrev pub page_laws : (name : Text) → PageLaws (table_laws name)
page_laws name = record {
  pending = listed;
  page_lem = λ input out w w' e.
      let (same, state) = ok_injective e in
      (
        sym state,
        λ last. ap (λ (o : QueryOutput). o.items) same,
        λ more. absurd (more (sym (ap (λ (o : QueryOutput). o.last_evaluated_key) same))),
      );
}

pub index_laws : (name : Text) → IndexLaws (table_laws name) (page_laws name)
unfolding in_segment
index_laws name = record {
  idle_head = idle_head_lem name;
  idle_none = λ t start e id item at idle.
      idle_none_of name t (lit "runnerId > :v") start id item e at idle;
  idle_none_up_to = λ t start e id item at idle.
      not-false _ (idle_none_of name t (lit "runnerId <= :v") start id item e at idle);
  busy_sound = busy_sound_lem name;
  busy_complete = busy_any name;
  session_head = λ t session item items e.
      let (id, at, own, within) = head_stored t _ item items e in
      (
        IsStored-of t item id at own,
        is_text_iff session _ (sym (in_index_session name session id item) ∙ within),
      );
  session_nil = λ t session e id item at in_session.
      let outside : false ≡ true =
        sym (
          sym (in_index_session name session id item)
          ∙ nil_stored t (session_query name session) id item e at)
        ∙ holds_of (lit "currentSessionId") session item in_session in
      cc;
}

pub calls_end : (name : Text) → CallsEnd slot_api name
calls_end name = record {
  update_ends = update_ends_lem name;
  delete_ends = delete_ends_lem name;
  query_ends = λ input w e. cc;
}
