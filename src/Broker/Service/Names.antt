-- ===== src/Broker/Service/Names.antt =====
-- The session ids of the service and the stack prefix in them.
use bunshin.Prelude.{some, ◌≡◌, ◌↔◌}
use bunshin.Text.{Text}
use bunshin.Text.Laws.{Lacks, cut-append, cut-eq-some}
use bunshin.Broker.Store.{Repository}
use bunshin.Broker.Service.{
  BrokerService, session_id_separator, namespaced_session_id, split_namespaced_session_id,
}

-- A session id splits into the prefix and the hex that it was made of if and only if the prefix has
-- no '_'.
pub split_namespaced_session_id_iff :
    {W : Type 0} (repo : Repository W) (s : BrokerService W) (hex : Text)
    → (split_namespaced_session_id (namespaced_session_id repo s hex) ≡ some (s.stack_prefix, hex))
      ↔ Lacks session_id_separator s.stack_prefix
split_namespaced_session_id_iff repo s hex = (
  λ e. (cut-eq-some session_id_separator (namespaced_session_id repo s hex) s.stack_prefix hex e).1,
  λ lacks. cut-append session_id_separator s.stack_prefix hex lacks,
)
