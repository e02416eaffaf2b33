-- ===== src/Broker/Store/Dynamo/Laws.antt =====
-- What DynamoDB and package attributevalue document of the calls that the repository makes.
use bunshin.Prelude.{
  ℕ, ◌<◌, ◌≤◌, true, false, List, [], ◌∷◌, ◌++◌, Option, none, some, ◌≡◌, ◌≢◌, Any, if◌then◌else◌,
}
use bunshin.Text.{Text, lit, text_eq}
use bunshin.Text.Order.{text_ltb}
use bunshin.Outcome.{ok, err, diverged}
use bunshin.Broker.Model.{Runner, state_busy}
use bunshin.Broker.Store.Dynamo.Api.{
  AttributeValue, member_s, Item, conditional_check_failed, aws_error, DynamoApi, QueryInput,
  QueryOutput, Marshaller, UpdateItemInput, PutItemInput, idle_query, busy_query, session_query,
  key_of,
}

abbrev pub get_attribute : Text → Item → Option AttributeValue
get_attribute name [] = none
get_attribute name ((key, value) ∷ item) =
    if text_eq key name then some value else get_attribute name item

abbrev pub set_attribute : Text → AttributeValue → Item → Item
set_attribute name value [] = (name, value) ∷ []
set_attribute name value ((key, old) ∷ item) =
    if text_eq key name then (key, value) ∷ item else (key, old) ∷ set_attribute name value item

-- A string field reads the attribute of its tag; an attribute that is missing reads as "".
pub record Reads (item : Item) (name field : Text) : Type 0 where
  pub attribute : field ≢ [] → get_attribute name item ≡ some (member_s field)
  pub field_of : (v : Text) → get_attribute name item ≡ some (member_s v) → field ≡ v

pub record MarshallerLaws (m : Marshaller) : Type 0 where
  pub round_trip : (r : Runner) (item : Item) → m.marshal r ≡ some item → m.unmarshal item ≡ some r
  pub id_attribute :
      (r : Runner) (item : Item)
      → m.marshal r ≡ some item
      → get_attribute (lit "runnerId") item ≡ some (member_s r.runner_id)
  pub reads :
      (item : Item) (r : Runner)
      → m.unmarshal item ≡ some r
      → Reads item (lit "runnerId") r.runner_id
        × Reads item (lit "state") r.state
        × Reads item (lit "currentSessionId") r.current_session_id
  pub reads_state :
      (item : Item) (r : Runner) (v : Text)
      → m.unmarshal item ≡ some r
      → m.unmarshal (set_attribute (lit "state") (member_s v) item) ≡ some (record r { state = v })
  pub reads_session :
      (item : Item) (r : Runner) (v : Text)
      → m.unmarshal item ≡ some r
      → m.unmarshal (set_attribute (lit "currentSessionId") (member_s v) item)
        ≡ some (record r { current_session_id = v })
  -- A list is read item by item, and one error is an error of the whole.
  pub list_nil : m.unmarshal_list [] ≡ some []
  pub list_cons :
      (item : Item) (items : List Item) (rs : List Runner)
      → m.unmarshal_list (item ∷ items) ≡ some rs
      → (r : Runner) × (rest : List Runner) × (m.unmarshal item ≡ some r)
        × (m.unmarshal_list items ≡ some rest)
        × (rs ≡ r ∷ rest)

-- The item after the update expression SET #s = :busy, currentSessionId = :sid.
abbrev pub taken_item : Text → Item → Item
taken_item session item =
    set_attribute (lit "currentSessionId") (member_s session)
      (set_attribute (lit "state") (member_s state_busy) item)

-- The conditional writes that the laws are about.
abbrev pub take_if_idle : Text → Text → Text → UpdateItemInput
take_if_idle table_name id session = record {
  table_name = table_name;
  key = (lit "runnerId", member_s id) ∷ [];
  update_expression = lit "SET #s = :busy, currentSessionId = :sid";
  condition_expression = lit "#s = :idle";
  expression_attribute_names = (lit "#s", lit "state") ∷ [];
  expression_attribute_values =
      (lit ":sid", member_s session)
      ∷ (lit ":idle", member_s (lit "idle"))
      ∷ (lit ":busy", member_s (lit "busy"))
      ∷ [];
}

abbrev pub put_if_absent : Text → Item → PutItemInput
put_if_absent table_name item = record {
  table_name = table_name;
  item = item;
  condition_expression = lit "attribute_not_exists(runnerId)";
}

-- The base table, which is strongly consistent: writes with their conditions, and consistent reads.
-- `item_at` and `size` are the table that the service keeps.
pub record TableLaws {W : Type 0} (api : DynamoApi W) (table_name : Text) : Type 1 where
  pub Table : Type 0
  pub table : W → Table
  pub item_at : Table → Text → Option Item
  pub size : Table → ℕ
  pub keyed :
      (t : Table) (id : Text) (item : Item)
      → item_at t id ≡ some item
      → get_attribute (lit "runnerId") item ≡ some (member_s id)
  pub put_ok :
      (id : Text) (item : Item) (w w' : W)
      → get_attribute (lit "runnerId") item ≡ some (member_s id)
      → api.put_item (put_if_absent table_name item) w ≡ ok tt w'
      → (item_at (table w) id ≡ none)
        × ((j : Text)
            → item_at (table w') j ≡ (if text_eq j id then some item else item_at (table w) j))
  pub put_failed :
      (id : Text) (item : Item) (w w' : W)
      → get_attribute (lit "runnerId") item ≡ some (member_s id)
      → api.put_item (put_if_absent table_name item) w ≡ err conditional_check_failed w'
      → (item_at (table w) id ≢ none) × (table w' ≡ table w)
  -- A put that fails otherwise takes no item away.
  pub put_error :
      (item : Item) (n : ℕ) (w w' : W)
      → api.put_item (put_if_absent table_name item) w ≡ err (aws_error n) w'
      → (j : Text) → item_at (table w) j ≢ none
      → item_at (table w') j ≢ none
  pub update_ok :
      (id session : Text) (w w' : W)
      → api.update_item (take_if_idle table_name id session) w ≡ ok tt w'
      → (item : Item) × (item_at (table w) id ≡ some item)
        × (get_attribute (lit "state") item ≡ some (member_s (lit "idle")))
        × ((j : Text)
            → item_at (table w') j
              ≡ (if text_eq j id then some (taken_item session item) else item_at (table w) j))
        × (size (table w') ≡ size (table w))
  pub update_failed :
      (id session : Text) (w w' : W)
      → api.update_item (take_if_idle table_name id session) w ≡ err conditional_check_failed w'
      → ((item : Item)
          → item_at (table w) id ≡ some item
          → get_attribute (lit "state") item ≢ some (member_s (lit "idle")))
        × (table w' ≡ table w)
  pub delete_ok :
      (id : Text) (w w' : W)
      → api.delete_item (record { table_name = table_name; key = key_of id }) w ≡ ok tt w'
      → ((j : Text) → item_at (table w') j ≡ (if text_eq j id then none else item_at (table w) j))
        × ((item : Item) → item_at (table w) id ≡ some item → size (table w') < size (table w))
        × (size (table w') ≤ size (table w))
  pub get_ok :
      (id : Text) (w w' : W) (found : Option Item)
      → api.get_item (record { table_name = table_name; key = key_of id; consistent_read = true }) w
        ≡ ok found w'
      → (found ≡ item_at (table w) id) × (table w' ≡ table w)

-- The calls return: none of them goes on without end.
pub record CallsEnd {W : Type 0} (api : DynamoApi W) (table_name : Text) : Type 0 where
  pub update_ends :
      (id session : Text) (w : W)
      → api.update_item (take_if_idle table_name id session) w ≢ diverged
  pub delete_ends :
      (id : Text) (w : W)
      → api.delete_item (record { table_name = table_name; key = key_of id }) w ≢ diverged
  pub query_ends : (input : QueryInput) (w : W) → api.query input w ≢ diverged

-- The items that the pages of a query yield from its start key on. A page that leaves some out
-- names the key to go on at, and holds at least one item.
pub record PageLaws {W : Type 0} {api : DynamoApi W} {table_name : Text}
    (base : TableLaws api table_name) : Type 0 where
  pub pending : base.Table → QueryInput → List Item
  pub page_lem :
      (input : QueryInput) (out : QueryOutput) (w w' : W)
      → api.query input w ≡ ok out w'
      → (base.table w' ≡ base.table w)
        × (out.last_evaluated_key ≡ [] → pending (base.table w) input ≡ out.items)
        × (out.last_evaluated_key ≢ []
            → (out.items ≢ [])
              × (pending (base.table w) input
                  ≡ out.items
                    ++ pending
                        (base.table w)
                        (record input { exclusive_start_key = out.last_evaluated_key })))

-- Item `item` is an item of the table.
abbrev pub IsStored : {Table : Type 0} → (Table → Text → Option Item) → Table → Item → Type 0
IsStored item_at t item = (id : Text) × (item_at t id ≡ some item)

-- The secondary indexes, where they have caught up with the table: each lists the items of the
-- table that have its key, and no other.
pub record IndexLaws {W : Type 0} {api : DynamoApi W} {table_name : Text}
    (base : TableLaws api table_name) (pages : PageLaws base) : Type 0 where
  pub idle_head :
      (t : base.Table) (cond start : Text) (item : Item) (items : List Item)
      → pages.pending t (idle_query table_name cond start []) ≡ item ∷ items
      → IsStored base.item_at t item
        × (get_attribute (lit "state") item ≡ some (member_s (lit "idle")))
  pub idle_none :
      (t : base.Table) (start : Text)
      → pages.pending t (idle_query table_name (lit "runnerId > :v") start []) ≡ []
      → (id : Text) (item : Item) → base.item_at t id ≡ some item
      → get_attribute (lit "state") item ≡ some (member_s (lit "idle"))
      → text_ltb start id ≡ false
  pub idle_none_up_to :
      (t : base.Table) (start : Text)
      → pages.pending t (idle_query table_name (lit "runnerId <= :v") start []) ≡ []
      → (id : Text) (item : Item) → base.item_at t id ≡ some item
      → get_attribute (lit "state") item ≡ some (member_s (lit "idle"))
      → text_ltb start id ≡ true
  pub busy_sound :
      (t : base.Table) (item : Item)
      → Any (λ (x : Item). item ≡ x) (pages.pending t (busy_query table_name []))
      → IsStored base.item_at t item
        × (get_attribute (lit "state") item ≡ some (member_s (lit "busy")))
  pub busy_complete :
      (t : base.Table) (id : Text) (item : Item)
      → base.item_at t id ≡ some item
      → get_attribute (lit "state") item ≡ some (member_s (lit "busy"))
      → Any (λ (x : Item). item ≡ x) (pages.pending t (busy_query table_name []))
  pub session_head :
      (t : base.Table) (session : Text) (item : Item) (items : List Item)
      → pages.pending t (session_query table_name session) ≡ item ∷ items
      → IsStored base.item_at t item
        × (get_attribute (lit "currentSessionId") item ≡ some (member_s session))
  pub session_nil :
      (t : base.Table) (session : Text)
      → pages.pending t (session_query table_name session) ≡ []
      → (id : Text) (item : Item) → base.item_at t id ≡ some item
      → get_attribute (lit "currentSessionId") item ≢ some (member_s session)
