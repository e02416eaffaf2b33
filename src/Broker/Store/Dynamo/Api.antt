-- ===== src/Broker/Store/Dynamo/Api.antt =====
-- broker/store/dynamo.go: dynamoDBAPI, and the inputs with which the repository calls it.
use bunshin.Prelude.{ℕ, Bool, true, List, [], ◌∷◌, ◌++◌, Option, none, some}
use bunshin.Text.{Text, lit}
use bunshin.Outcome.{Act}
use bunshin.Broker.Model.{Runner, state_idle, state_busy}
use bunshin.Broker.Store.{acquire_query_limit}

-- types.AttributeValue: a string member, or another.
pub data AttributeValue : Type 0 where
  member_s : Text → AttributeValue
  member : ℕ → AttributeValue

-- map[string]types.AttributeValue.
abbrev pub Item : Type 0
Item = List (Text × AttributeValue)

-- An error of the SDK: ConditionalCheckFailedException, or another.
pub data DynamoError : Type 0 where
  conditional_check_failed : DynamoError
  aws_error : ℕ → DynamoError

pub record PutItemInput : Type 0 where
  pub table_name : Text
  pub item : Item
  pub condition_expression : Text

pub record GetItemInput : Type 0 where
  pub table_name : Text
  pub key : Item
  pub consistent_read : Bool

pub record UpdateItemInput : Type 0 where
  pub table_name : Text
  pub key : Item
  pub update_expression : Text
  pub condition_expression : Text
  pub expression_attribute_names : List (Text × Text)
  pub expression_attribute_values : Item

pub record DeleteItemInput : Type 0 where
  pub table_name : Text
  pub key : Item

-- `exclusive_start_key` is empty on the first page.
pub record QueryInput : Type 0 where
  pub table_name : Text
  pub index_name : Text
  pub key_condition_expression : Text
  pub expression_attribute_names : List (Text × Text)
  pub expression_attribute_values : Item
  pub limit : Option ℕ
  pub exclusive_start_key : Item

pub record QueryOutput : Type 0 where
  pub items : List Item
  pub last_evaluated_key : Item

-- dynamoDBAPI, over the state `W` of the service.
pub record DynamoApi (W : Type 0) : Type 0 where
  pub put_item : PutItemInput → Act W DynamoError (Unit {0})
  pub get_item : GetItemInput → Act W DynamoError (Option Item)
  pub update_item : UpdateItemInput → Act W DynamoError (Unit {0})
  pub delete_item : DeleteItemInput → Act W DynamoError (Unit {0})
  pub query : QueryInput → Act W DynamoError QueryOutput

-- MarshalMap, UnmarshalMap and UnmarshalListOfMaps of package attributevalue; `none` is an error.
pub record Marshaller : Type 0 where
  pub marshal : Runner → Option Item
  pub unmarshal : Item → Option Runner
  pub unmarshal_list : List Item → Option (List Runner)

abbrev pub seg_first_cond : Text
seg_first_cond = lit "runnerId > :v"

abbrev pub seg_second_cond : Text
seg_second_cond = lit "runnerId <= :v"

-- The key of an item of the table.
abbrev pub key_of : Text → Item
key_of runner_id = (lit "runnerId", member_s runner_id) ∷ []

abbrev pub state_name : List (Text × Text)
state_name = (lit "#s", lit "state") ∷ []

-- The queries of AcquireIdle, of ListBusyRunners and of FindBySessionID, and the write of assignSession.
abbrev pub idle_query : Text → Text → Text → Item → QueryInput
idle_query table_name cond value exclusive_start = record {
  table_name = table_name;
  index_name = lit "state-index";
  key_condition_expression = lit "#s = :s AND " ++ cond;
  expression_attribute_names = state_name;
  expression_attribute_values = (lit ":s", member_s state_idle) ∷ (lit ":v", member_s value) ∷ [];
  limit = some acquire_query_limit;
  exclusive_start_key = exclusive_start;
}

abbrev pub busy_query : Text → Item → QueryInput
busy_query table_name exclusive_start = record {
  table_name = table_name;
  index_name = lit "state-index";
  key_condition_expression = lit "#s = :s";
  expression_attribute_names = state_name;
  expression_attribute_values = (lit ":s", member_s state_busy) ∷ [];
  limit = none;
  exclusive_start_key = exclusive_start;
}

abbrev pub session_query : Text → Text → QueryInput
session_query table_name session = record {
  table_name = table_name;
  index_name = lit "session-index";
  key_condition_expression = lit "currentSessionId = :sid";
  expression_attribute_names = [];
  expression_attribute_values = (lit ":sid", member_s session) ∷ [];
  limit = some 1;
  exclusive_start_key = [];
}

abbrev pub assign_input : Text → Text → Text → UpdateItemInput
assign_input table_name runner_id session = record {
  table_name = table_name;
  key = key_of runner_id;
  update_expression = lit "SET #s = :busy, currentSessionId = :sid";
  condition_expression = lit "#s = :idle";
  expression_attribute_names = state_name;
  expression_attribute_values =
      (lit ":sid", member_s session)
      ∷ (lit ":idle", member_s state_idle)
      ∷ (lit ":busy", member_s state_busy)
      ∷ [];
}

abbrev pub put_input : Text → Item → PutItemInput
put_input table_name item = record {
  table_name = table_name;
  item = item;
  condition_expression = lit "attribute_not_exists(runnerId)";
}

abbrev pub get_input : Text → Text → GetItemInput
get_input table_name runner_id = record {
  table_name = table_name;
  key = key_of runner_id;
  consistent_read = true;
}

abbrev pub delete_input : Text → Text → DeleteItemInput
delete_input table_name runner_id = record { table_name = table_name; key = key_of runner_id }
