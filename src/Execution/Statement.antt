-- ===== src/Execution/Statement.antt =====
-- `ExecuteStatement`: a statement is sent once, and what a failure says of it. How encoding/json writes the
-- request and reads the operation's handle, the validator of the configuration and the check of the
-- version are arguments.
use flink_sql_go.Prelude.{
  ℕ, ◌/◌, Bool, true, false, not, ◌&&◌, ◌||◌, List, [], Option, none, some, Bytes, ltb, leb, ◌==◌,
  if◌then◌else◌, codes, Result, ok, err, guard, ◌>>◌,
}
use flink_sql_go.Go.Space.{is_empty, trim_space}
use flink_sql_go.Session.Handle.{HandleError, validate_opaque_handle}
use flink_sql_go.Transport.Response.{Phase, no_phase, not_sent, possibly_sent, ApiError}
use flink_sql_go.Transport.Request.{Client, Body, Call, Exchange, RequestError, api_error, do_json}

-- A nanosecond is the unit of a time, and a time that is not positive is none.
pub record Statement : Type 0 where
  pub session : Bytes
  pub text : Bytes
  pub config : List (Bytes × Bytes)
  pub timeout : ℕ

pub record StatementBody : Type 0 where
  pub text : Bytes
  pub config : List (Bytes × Bytes)
  pub timeout_ms : Option ℕ

pub record Submission : Type 0 where
  pub encode : StatementBody → Body
  pub operation_handle : Bytes → Bytes
  pub decodes : Bytes → Bool
  pub has_wire_timeout : Bool
  pub validates : Bytes → Bool
  pub is_compatible : Bool
  pub url : Bytes
  pub path : Bytes
  pub plain_path : Bytes

pub data StatementError : Type 0 where
  bad_session : HandleError → StatementError
  no_statement not_validated not_compatible : StatementError
  failed : RequestError → StatementError
  outcome_unknown : Phase → StatementError

-- Milliseconds, at least one of them.
abbrev pub wire_timeout : Bool → ℕ → Option ℕ
wire_timeout supported timeout =
    if supported && ltb 0 timeout
    then some (if timeout / 1000000 == 0 then 1 else timeout / 1000000)
    else none

-- `nonIdempotentOutcomeIsUnknown`: whether the server may have acted on a request that failed.
abbrev pub was_not_sent : Phase → Bool
was_not_sent no_phase = true
was_not_sent not_sent = true
was_not_sent _ = false

unfoldable pub outcome_is_unknown : ApiError → Bool
outcome_is_unknown e =
    not (was_not_sent e.phase)
    && (e.status == 0
        || leb 200 e.status && ltb e.status 300
        || e.status == 408
        || e.status == 429
        || leb 500 e.status)

unfoldable pub statement_call : Submission → Statement → Call
statement_call sub s = record {
  http_method = codes "POST";
  url = sub.url;
  raw_query = [];
  path = sub.path;
  plain_path = sub.plain_path;
  is_valid = true;
  body = sub.encode (record {
    text = s.text;
    config = s.config;
    timeout_ms = wire_timeout sub.has_wire_timeout s.timeout;
  });
  decodes = some sub.decodes;
  redaction = record { fragments = []; redact_all = true };
  is_cleanup = false;
  is_safe = false;
}

abbrev pub submission_failure : RequestError → StatementError
submission_failure (api_error e) =
    if outcome_is_unknown e then outcome_unknown e.phase else failed (api_error e)
submission_failure e = failed e

-- The handle of the operation. A response whose handle is not one leaves the outcome open.
unfoldable pub read_handle : Submission → Bytes → Result StatementError Bytes
unfolding validate_opaque_handle
read_handle sub response = elim (validate_opaque_handle (sub.operation_handle response)) [
  | err e ↦ err (outcome_unknown possibly_sent)
  | ok u ↦ ok (sub.operation_handle response)
]

unfoldable pub submit : Submission → Result RequestError Bytes → Result StatementError Bytes
unfolding outcome_is_unknown read_handle
submit sub (err e) = err (submission_failure e)
submit sub (ok response) = read_handle sub response

abbrev pub check_session : Bytes → Result StatementError (Unit {0})
check_session handle = elim (validate_opaque_handle handle) [
  | err e ↦ err (bad_session e)
  | ok u ↦ ok tt
]

-- What is checked before anything is sent.
unfoldable pub check_statement : Submission → Statement → Result StatementError (Unit {0})
unfolding validate_opaque_handle trim_space
check_statement sub s = do
  check_session s.session
  guard (not (is_empty (trim_space s.text))) no_statement
  guard (sub.validates s.text) not_validated
  guard sub.is_compatible not_compatible

unfoldable pub execute_statement :
    Client → Submission → Statement → (ℕ → Exchange) → (ℕ → Bool) → Result StatementError Bytes
execute_statement client sub s exchanges wait_over = do
  check_statement sub s
  submit sub (do_json client (statement_call sub s) exchanges wait_over).result
