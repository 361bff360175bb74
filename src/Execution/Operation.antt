-- ===== src/Execution/Operation.antt =====
-- The requests about an operation: `GetOperationStatus`, `FetchResults`, `CancelOperation` and
-- `CloseOperation`.
use flink_sql_go.Prelude.{
  ℕ, Bool, true, false, not, ◌||◌, [], ◌++◌, Option, none, some, Bytes, if◌then◌else◌, codes, ℤ,
  pos, negsuc, Result, ok, err, guard, ◌>>◌,
}
use flink_sql_go.Session.Handle.{HandleError, validate_opaque_handle}
use flink_sql_go.Transport.Response.{operation_not_found}
use flink_sql_go.Transport.Request.{
  Client, Body, no_body, encoded, Call, Exchange, RequestError, api_error, do_json,
}
use flink_sql_go.Results.Stream.{Answer, answered, request_failed, operation_not_found as not_found}

-- An empty format stands for the one of the configuration.
pub data RowFormat : Type 0 where
  default_format json_format plain_text : RowFormat
  other_format : Bytes → RowFormat

pub record Operation : Type 0 where
  pub session : Bytes
  pub handle : Bytes

pub data OperationError : Type 0 where
  bad_session bad_operation : HandleError → OperationError
  bad_token not_compatible bad_format unsupported_format : OperationError
  request_error : RequestError → OperationError

-- What the client knows of the server, and how it writes a route: the escaped path and the plain one.
pub record Api : Type 0 where
  pub is_compatible : Bool
  pub has_row_format : Bool
  pub default_format : RowFormat
  pub base : Bytes
  pub escape : Bytes → Bytes
  pub decodes : Bytes → Bool

abbrev pub check_operation : Operation → Result OperationError (Unit {0})
check_operation o = elim (validate_opaque_handle o.session) [
  | err e ↦ err (bad_session e)
  | ok u ↦ elim (validate_opaque_handle o.handle) [ err e ↦ err (bad_operation e) | ok v ↦ ok tt ]
]

unfoldable pub operation_route : (Bytes → Bytes) → Operation → Bytes
operation_route escape o =
    codes "/sessions/" ++ escape o.session ++ codes "/operations/" ++ escape o.handle

abbrev pub operation_call :
    Api → Operation → Bytes → Bytes → Body → Option (Bytes → Bool) → Bool → Call
operation_call api o method suffix body decodes safe = record {
  http_method = method;
  url = api.base ++ operation_route api.escape o ++ suffix;
  raw_query = [];
  path = api.base ++ operation_route api.escape o ++ suffix;
  plain_path = api.base ++ operation_route (λ handle. handle) o ++ suffix;
  is_valid = true;
  body = body;
  decodes = decodes;
  redaction = record { fragments = []; redact_all = false };
  is_cleanup = false;
  is_safe = safe;
}

abbrev pub requested : Result RequestError Bytes → Result OperationError Bytes
requested (ok response) = ok response
requested (err e) = err (request_error e)

-- The response from which the status is read.
unfoldable pub get_operation_status :
    Client → Api → Operation → (ℕ → Exchange) → (ℕ → Bool) → Result OperationError Bytes
unfolding validate_opaque_handle operation_route
get_operation_status client api o exchanges wait_over = do
  check_operation o
  guard api.is_compatible not_compatible
  requested
      (do_json client
        (operation_call api o (codes "GET") (codes "/status") no_body (some api.decodes) true)
        exchanges wait_over).result

abbrev pub is_negative : ℤ → Bool
is_negative (pos n) = false
is_negative (negsuc n) = true

abbrev pub chosen_format : RowFormat → RowFormat → RowFormat
chosen_format default_format other = other
chosen_format format other = format

abbrev pub is_valid_format : RowFormat → Bool
is_valid_format json_format = true
is_valid_format plain_text = true
is_valid_format _ = false

abbrev pub is_json : RowFormat → Bool
is_json json_format = true
is_json _ = false

-- The checks before a page is fetched by its token, and the format that is asked for.
unfoldable pub check_fetch : Api → Operation → ℤ → RowFormat → Result OperationError RowFormat
unfolding validate_opaque_handle
check_fetch api o token format = do
  check_operation o
  guard (not (is_negative token)) bad_token
  guard api.is_compatible not_compatible
  guard (is_valid_format (chosen_format format api.default_format)) bad_format
  guard (api.has_row_format || is_json (chosen_format format api.default_format)) unsupported_format
  ok (chosen_format format api.default_format)

unfoldable pub cancel_operation :
    Client → Api → Operation → Bool → (ℕ → Exchange) → (ℕ → Bool) → Result OperationError Bytes
unfolding validate_opaque_handle operation_route
cancel_operation client api o cleanup exchanges wait_over = do
  check_operation o
  guard api.is_compatible not_compatible
  requested
      (do_json client
        (record (operation_call api o (codes "POST") (codes "/cancel") (encoded (codes "{}")) none
          false) { is_cleanup = cleanup })
        exchanges wait_over).result

abbrev pub is_not_found : OperationError → Bool
is_not_found (request_error (api_error e)) = elim e.cause [ operation_not_found ↦ true | _ ↦ false ]
is_not_found _ = false

-- An operation that the server does not have is closed.
abbrev pub or_closed : Result OperationError Bytes → Result OperationError Bytes
or_closed (ok response) = ok response
or_closed (err e) = if is_not_found e then ok [] else err e

unfoldable pub close_operation :
    Client → Api → Operation → Bool → (ℕ → Exchange) → (ℕ → Bool) → Result OperationError Bytes
unfolding validate_opaque_handle operation_route
close_operation client api o cleanup exchanges wait_over = do
  check_operation o
  guard api.is_compatible not_compatible
  or_closed (
      requested
        (do_json client
          (record (operation_call api o (codes "DELETE") (codes "/close") no_body none false) {
            is_cleanup = cleanup;
          })
          exchanges wait_over).result)

-- The outcome of a cancel or of a close, as the cleanups read it.
abbrev pub answer_of : Result OperationError Bytes → Answer
answer_of (ok response) = answered
answer_of (err e) = if is_not_found e then not_found else request_failed
