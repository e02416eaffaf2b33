-- ===== src/Tests/Slot.antt =====
-- A table of DynamoDB with room for one item, whose indexes are always up to date.
pub mod Items
pub mod Puts
pub mod Laws
pub mod Queries
use bunshin.Prelude.{
  ℕ, Bool, true, false, ◌&&◌, List, [], ◌∷◌, Option, none, some, not, if◌then◌else◌,
}
use bunshin.Text.{Text, lit, text_eq}
use bunshin.Text.Order.{text_ltb}
use bunshin.Outcome.{Outcome, ok, err}
use bunshin.Broker.Store.Dynamo.Api.{
  AttributeValue, member_s, member, Item, DynamoError, conditional_check_failed, aws_error,
  PutItemInput, GetItemInput, UpdateItemInput, DeleteItemInput, QueryInput, QueryOutput, DynamoApi,
}
use bunshin.Broker.Store.Dynamo.Laws.{get_attribute, set_attribute}

abbrev pub Slot : Type 0
Slot = Option Item

unfoldable pub is_text : Text → Option AttributeValue → Bool
is_text v (some (member_s u)) = text_eq u v
is_text v (some (member n)) = false
is_text v none = false

abbrev pub holds : Text → Text → Item → Bool
holds name v item = is_text v (get_attribute name item)

abbrev pub text_of : Option AttributeValue → Text
text_of (some (member_s v)) = v
text_of (some (member n)) = []
text_of none = []

abbrev pub value_of : Text → Item → Text
value_of name item = text_of (get_attribute name item)

unfoldable pub item_in : Slot → Text → Option Item
item_in none id = none
item_in (some item) id = if holds (lit "runnerId") id item then some item else none

unfoldable pub size_of : Slot → ℕ
size_of none = 0
size_of (some item) = 1

unfoldable pub put : PutItemInput → Slot → Outcome Slot DynamoError (Unit {0})
put input none = ok tt (some input.item)
put input (some old) =
    if holds (lit "runnerId") (value_of (lit "runnerId") input.item) old
    then err conditional_check_failed (some old)
    else err (aws_error 0) (some old)

unfoldable pub update : UpdateItemInput → Slot → Outcome Slot DynamoError (Unit {0})
update input none = err conditional_check_failed none
update input (some item) =
    if holds (lit "runnerId") (value_of (lit "runnerId") input.key) item
      && holds (lit "state") (value_of (lit ":idle") input.expression_attribute_values) item
    then ok tt (
        some (
          set_attribute (lit "currentSessionId")
            (member_s (value_of (lit ":sid") input.expression_attribute_values))
            (set_attribute (lit "state")
              (member_s (value_of (lit ":busy") input.expression_attribute_values)) item)))
    else err conditional_check_failed (some item)

unfoldable pub remove : DeleteItemInput → Slot → Outcome Slot DynamoError (Unit {0})
remove input none = ok tt none
remove input (some item) =
    if holds (lit "runnerId") (value_of (lit "runnerId") input.key) item
    then ok tt none
    else ok tt (some item)

unfoldable pub in_segment : Text → Text → Text → Bool
in_segment expression v id =
    if text_eq expression (lit "#s = :s AND runnerId > :v")
    then text_ltb v id
    else if text_eq expression (lit "#s = :s AND runnerId <= :v")
    then not (text_ltb v id)
    else true

unfoldable pub in_index : QueryInput → Item → Option AttributeValue → Bool
in_index input item (some (member_s id)) =
    if text_eq input.index_name (lit "state-index")
    then holds (lit "state") (value_of (lit ":s") input.expression_attribute_values) item
      && in_segment input.key_condition_expression
          (value_of (lit ":v") input.expression_attribute_values) id
    else holds (lit "currentSessionId") (value_of (lit ":sid") input.expression_attribute_values)
        item
in_index input item (some (member n)) = false
in_index input item none = false

unfoldable pub listed : Slot → QueryInput → List Item
listed none input = []
listed (some item) input =
    if in_index input item (get_attribute (lit "runnerId") item) then item ∷ [] else []

abbrev pub slot_api : DynamoApi Slot
slot_api = record {
  put_item = put;
  get_item = λ input w. ok (item_in w (value_of (lit "runnerId") input.key)) w;
  update_item = update;
  delete_item = remove;
  query = λ input w. ok (record { items = listed w input; last_evaluated_key = [] }) w;
}
