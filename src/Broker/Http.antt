-- ===== src/Broker/Http.antt =====
-- What the handlers of broker/handler read and write over HTTP, and broker/model/error.go.
use bunshin.Prelude.{ℕ, Bool, List, [], Option, none}
use bunshin.Text.{Text, lit}

abbrev pub fallback_stack_header : Text
fallback_stack_header = lit "X-Fallback-Stack"

abbrev pub fallback_remaining_header : Text
fallback_remaining_header = lit "X-Fallback-Remaining"

abbrev pub runner_host_header : Text
runner_host_header = lit "X-Runner-Host"

abbrev pub reassigned_header : Text
reassigned_header = lit "X-Session-Reassigned"

abbrev pub session_hex_header : Text
session_hex_header = lit "X-Session-Hex"

abbrev pub stack_name_header : Text
stack_name_header = lit "X-Stack-Name"

abbrev pub code_no_idle_runner : Text
code_no_idle_runner = lit "NO_IDLE_RUNNER"

abbrev pub code_session_not_found : Text
code_session_not_found = lit "SESSION_NOT_FOUND"

abbrev pub code_invalid_request : Text
code_invalid_request = lit "INVALID_REQUEST"

abbrev pub code_runner_conflict : Text
code_runner_conflict = lit "RUNNER_CONFLICT"

abbrev pub code_internal_error : Text
code_internal_error = lit "INTERNAL_ERROR"

-- model.ErrorResponse.
pub record ErrorResponse : Type 0 where
  pub code : Text
  pub message : Text
  pub request_id : Text

-- What is written as the body: nothing, an error, or the ids of the busy runners.
pub data Body : Type 0 where
  no_body : Body
  error_body : ErrorResponse → Body
  busy_body : List Text → Body

-- The session cookie of a reply: its value, and that it is Secure, HttpOnly and SameSite=Strict.
pub record Cookie : Type 0 where
  pub value : Text
  pub secure : Bool
  pub http_only : Bool
  pub same_site_strict : Bool

pub record Reply : Type 0 where
  pub status : ℕ
  pub headers : List (Text × Text)
  pub cookie : Option Cookie
  pub body : Body

-- What a handler reads of a request: c.Param, c.Cookie and c.GetHeader with their "" for a missing
-- value, c.Request.Host, the id of the middleware, and the body as ShouldBindJSON binds it.
pub record Request : Type 0 where
  pub param : Text
  pub session_cookie : Text
  pub fallback_stack : Text
  pub fallback_remaining : Text
  pub host : Text
  pub request_id : Text
  pub register_body : Option (Text × Text)

-- writeError, on the headers that are set before it.
abbrev pub write_error : Request → List (Text × Text) → ℕ → Text → Text → Reply
write_error q headers status code message = record {
  status = status;
  headers = headers;
  cookie = none;
  body = error_body (record { code = code; message = message; request_id = q.request_id });
}

-- c.Status.
abbrev pub just_status : ℕ → Reply
just_status status = record { status = status; headers = []; cookie = none; body = no_body }
