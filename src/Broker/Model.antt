-- ===== src/Broker/Model.antt =====
-- broker/model: the runner and the error codes of the API.
use bunshin.Prelude.{Bool, true, false, ◌≡◌, ◌≢◌}
use bunshin.Text.Laws.{text_eq_iff}
use bunshin.Text.{Text, lit, text_eq}

abbrev pub state_idle : Text
state_idle = lit "idle"

abbrev pub state_busy : Text
state_busy = lit "busy"

pub record Runner : Type 0 where
  pub runner_id : Text
  pub state : Text
  pub current_session_id : Text
  pub private_host : Text

abbrev pub is_idle : Runner → Bool
is_idle r = text_eq r.state state_idle

abbrev pub is_busy : Runner → Bool
is_busy r = text_eq r.state state_busy

pub busy-ne-idle : state_busy ≢ state_idle
busy-ne-idle e = let same : false ≡ true = (text_eq_iff state_busy state_idle).1 e in cc
