-- ===== src/Tests/Table.antt =====
-- Examples for the DynamoDB repository, over the table with one item.
use bunshin.Prelude.{[], ◌∷◌, some, none, ◌≡◌, refl, arith, length, ◌<◌}
use bunshin.Text.{Text, lit}
use bunshin.Text.Order.{text_ltb}
use bunshin.Outcome.{ok, err}
use bunshin.Broker.Model.{Runner}
use bunshin.Broker.Store.{conflict, no_idle_runner}
use bunshin.Broker.Store.Contract.{Contract}
use bunshin.Broker.Store.Dynamo.Api.{Item, member_s, busy_query}
use bunshin.Broker.Store.Dynamo.{
  register, acquire_from, list_busy_runners, find_by_session_id, dynamo_repository,
}
use bunshin.Broker.Store.Dynamo.Assign.{IsAcquired}
use bunshin.Broker.Store.Dynamo.Acquire.{acquire_from-IsAcquired}
use bunshin.Broker.Store.Dynamo.Segments.{AfterAcquire, acquire_from-AfterAcquire}
use bunshin.Broker.Store.Dynamo.Refines.{dynamo_contract}
use bunshin.Broker.Store.Dynamo.Busy.{AfterBusy, list_busy_runners-AfterBusy}
use bunshin.Broker.Store.Dynamo.Register.{AfterRegister, register_lem}
use bunshin.Tests.Slot.{Slot, put, update, listed, is_text, in_index, in_segment, slot_api}
use bunshin.Tests.Slot.Items.{item_marshaller, item_laws, unmarshal, unmarshal_list, marshal}
use bunshin.Tests.Slot.Laws.{table_laws}
use bunshin.Tests.Slot.Queries.{page_laws, index_laws, calls_end}

abbrev table : Text
table = lit "bunshin-runners"

abbrev id : Text
id = lit "00112233445566778899aabbccddeeff"

abbrev host : Text
host = lit "10.0.0.1"

abbrev session : Text
session = lit "ab12/default"

abbrev start : Text
start = lit "80000000000000000000000000000000"

abbrev item : Text → Text → Item
item state session =
    (lit "runnerId", member_s id)
    ∷ (lit "state", member_s state)
    ∷ (lit "currentSessionId", member_s session)
    ∷ (lit "privateHost", member_s host)
    ∷ []

abbrev idle : Slot
idle = some (item (lit "idle") [])

abbrev busy : Slot
busy = some (item (lit "busy") session)

abbrev runner : Runner
runner = record {
  runner_id = id;
  state = lit "busy";
  current_session_id = session;
  private_host = host;
}

-- The idle runner stands before the start, so the second segment finds it.
acquired : acquire_from slot_api item_marshaller table 1 start session idle ≡ ok runner busy
unfolding acquire_from update listed in_index in_segment is_text text_ltb unmarshal unmarshal_list
acquired = refl

exhausted :
    acquire_from slot_api item_marshaller table 1 start session busy ≡ err no_idle_runner busy
unfolding acquire_from update listed in_index in_segment is_text text_ltb unmarshal unmarshal_list
exhausted = refl

registered : register slot_api item_marshaller table id host none ≡ ok tt idle
unfolding register put marshal
registered = refl

conflicting : register slot_api item_marshaller table id host busy ≡ err conflict busy
unfolding register put marshal is_text
conflicting = refl

listed_busy : list_busy_runners slot_api item_marshaller table 2 busy ≡ ok (runner ∷ []) busy
unfolding list_busy_runners listed in_index in_segment is_text text_ltb unmarshal unmarshal_list
listed_busy = refl

found : find_by_session_id slot_api item_marshaller table session busy ≡ ok runner busy
unfolding find_by_session_id listed in_index is_text unmarshal
found = refl

acquire_from-IsAcquired_example :
    IsAcquired (table_laws table) item_marshaller session idle busy runner
acquire_from-IsAcquired_example =
    acquire_from-IsAcquired (table_laws table) item_marshaller 1 start session idle busy runner
      acquired

acquire_from-AfterAcquire_example :
    AfterAcquire item_laws
      (calls_end table)
      (page_laws table)
      (index_laws table)
      session
      idle
      (acquire_from slot_api item_marshaller table 1 start session idle)
acquire_from-AfterAcquire_example =
    acquire_from-AfterAcquire item_laws (calls_end table) (page_laws table) (index_laws table) 0
      start session idle

contract : Contract (dynamo_repository slot_api item_marshaller table 1 (λ w. start))
contract =
    dynamo_contract item_laws (calls_end table) (page_laws table) (index_laws table) 0 (λ w. start)

one_listed : length (listed busy (busy_query table [])) < 2
unfolding listed in_index in_segment is_text
one_listed = omega arith

list_busy_runners-AfterBusy_example :
    AfterBusy item_laws
      (calls_end table)
      (page_laws table)
      (index_laws table)
      busy
      (list_busy_runners slot_api item_marshaller table 2 busy)
list_busy_runners-AfterBusy_example =
    list_busy_runners-AfterBusy item_laws (calls_end table) (page_laws table) (index_laws table) 2
      busy one_listed

register_lem_example :
    AfterRegister
      (table_laws table)
      item_laws
      id
      host
      none
      (register slot_api item_marshaller table id host none)
register_lem_example = register_lem (table_laws table) item_laws id host none
