-- ===== src/Errors/Text.antt =====
-- The texts that `Error` returns. Numbers in them are not negative.
use flink_sql_go.Prelude.{
  ℕ, Bool, ◌&&◌, not, [], ◌++◌, Option, none, some, Bytes, ◌==◌, if◌then◌else◌, codes, ok, err,
}
use flink_sql_go.Go.Space.{is_empty}
use flink_sql_go.Go.Text.{join}
use flink_sql_go.Go.Decimal.{itoa}
use flink_sql_go.Session.Handle.{mask_handle}
use flink_sql_go.Setup.Plan.{
  Identifier, Kind, catalog_step, database_step, table_step, use_catalog_step, use_database_step,
}
use flink_sql_go.Transport.Response.{
  Phase, no_phase, not_sent, possibly_sent, header_missing, body_incomplete, response_received,
}
use flink_sql_go.Transport.Message.{sanitize_server_message}
use flink_sql_go.Metadata.Name.{parts_of, quote_given}
use flink_sql_go.Errors.Tree.{
  Sentinel, session_not_found, session_expired, operation_not_found, operation_failed, result_limit,
  unsupported_api, invalid_version, unsupported_version, no_compatible_version,
  unsupported_by_server, unsupported_by_profile, unsupported_capability, compatibility_detection,
  response_too_large, unsafe_next_uri, execution_unknown, configuration_unknown, refresh_unknown,
  deployment_unknown, setup_verification, client_closed, session_closed, CompatibilityContext,
  Request, RequestContext, ConfigurationContext, SetupContext, ApiContext, GatewayError, no_error,
  sentinel, compatibility_error, request_unknown, configure_unknown, setup_error, replay_error,
  execution_error, limit_error, api_error, other_error, sentinel_of, is_nil_error,
}

unfoldable pub sentinel_text : Sentinel → Bytes
sentinel_text session_not_found = codes "flink sql session not found"
sentinel_text session_expired = codes "flink sql session expired"
sentinel_text operation_not_found = codes "flink sql operation not found"
sentinel_text operation_failed = codes "flink sql operation failed"
sentinel_text result_limit = codes "flink sql result limit exceeded"
sentinel_text unsupported_api = codes "unsupported sql gateway api version"
sentinel_text invalid_version = codes "invalid Flink version"
sentinel_text unsupported_version = codes "unsupported Flink version"
sentinel_text no_compatible_version =
    codes "unsupported sql gateway api version: no compatible SQL Gateway API version"
sentinel_text unsupported_by_server =
    codes "unsupported sql gateway api version: explicit version is not advertised by server"
sentinel_text unsupported_by_profile =
    codes "unsupported sql gateway api version: explicit version is not supported by profile"
sentinel_text unsupported_capability =
    codes "unsupported sql gateway api version: unsupported capability"
sentinel_text compatibility_detection = codes "Flink compatibility detection failed"
sentinel_text response_too_large = codes "flink sql gateway response too large"
sentinel_text unsafe_next_uri = codes "unsafe flink sql next result URI"
sentinel_text execution_unknown = codes "statement execution outcome is unknown"
sentinel_text configuration_unknown = codes "session configuration outcome is unknown"
sentinel_text refresh_unknown = codes "materialized table refresh outcome is unknown"
sentinel_text deployment_unknown = codes "script deployment outcome is unknown"
sentinel_text setup_verification = codes "session setup metadata verification failed"
sentinel_text client_closed = codes "flink sql gateway client is closed"
sentinel_text session_closed = codes "flink sql session is closed"

abbrev pub phase_text : Phase → Bytes
phase_text no_phase = []
phase_text not_sent = codes "NOT_SENT"
phase_text possibly_sent = codes "POSSIBLY_SENT"
phase_text header_missing = codes "RESPONSE_HEADER_MISSING"
phase_text body_incomplete = codes "RESPONSE_BODY_INCOMPLETE"
phase_text response_received = codes "RESPONSE_RECEIVED"

abbrev pub kind_text : Kind → Bytes
kind_text catalog_step = codes "CATALOG"
kind_text database_step = codes "DATABASE"
kind_text table_step = codes "TABLE"
kind_text use_catalog_step = codes "USE_CATALOG"
kind_text use_database_step = codes "USE_DATABASE"

abbrev labelled : Bytes → Bytes → Bytes
labelled label text = if is_empty text then [] else label ++ text

unfoldable pub compatibility_text : CompatibilityContext → Bytes
unfolding sanitize_server_message
compatibility_text c =
    codes "flink sql gateway compatibility failed"
    ++ labelled (codes ": ") c.operation
    ++ (if is_empty c.flink_version
        then []
        else codes " flink=" ++ sanitize_server_message c.flink_version)
    ++ labelled (codes " release=") c.release_line
    ++ labelled (codes " api=") c.api_version

unfoldable pub request_text : Request → RequestContext → Bytes
unfolding sentinel_text mask_handle
request_text r c =
    sentinel_text (sentinel_of r)
    ++ codes ": "
    ++ c.http_method
    ++ codes " "
    ++ c.endpoint
    ++ codes " phase="
    ++ phase_text c.phase
    ++ codes " session="
    ++ mask_handle c.session_handle

abbrev step_text : Bytes → Bytes → Option (ℕ × Kind) → Bytes
step_text before between none = []
step_text before between (some (index, kind)) = before ++ itoa index ++ between ++ kind_text kind

unfoldable pub configuration_text : ConfigurationContext → Bytes
unfolding sentinel_text mask_handle itoa
configuration_text c =
    sentinel_text configuration_unknown
    ++ codes ":"
    ++ step_text (codes " step=") (codes " kind=") c.step
    ++ codes " phase="
    ++ phase_text c.phase
    ++ codes " session="
    ++ mask_handle c.session_handle

-- `formatSessionSetupTarget`
unfoldable pub format_target : Identifier → Bytes
unfolding quote_given
format_target target = elim (quote_given (parts_of target)) [
  | err e ↦ []
  | ok parts ↦ join (codes ".") parts
]

unfoldable pub setup_text : SetupContext → Bool → Bytes
unfolding format_target itoa
setup_text c closes =
    codes "flink sql session setup failed"
    ++ step_text (codes " at step ") (codes " kind=") c.failed_step
    ++ labelled (codes " target=") (format_target c.target)
    ++ (if c.is_unknown then codes ": outcome unknown" else [])
    ++ (if closes then [] else codes "; session cleanup failed")

abbrev api_message : Bytes → Bool → Bytes → Bytes
api_message message has_cause cause_text =
    let chosen = if is_empty message && has_cause then cause_text else message in
    if is_empty chosen then codes "request failed" else chosen

abbrev status_text : ℕ → Bytes
status_text status = if status == 0 then [] else codes " status=" ++ itoa status

-- A text behind its label, unless the error is nil.
abbrev error_text : Bytes → GatewayError → Bytes → Bytes
error_text label e text = if is_nil_error e then [] else label ++ text

unfoldable pub limit_text : Bytes → ℕ → ℕ → Bytes
unfolding sentinel_text itoa
limit_text kind limit received =
    sentinel_text result_limit
    ++ codes ": "
    ++ kind
    ++ codes " limit="
    ++ itoa limit
    ++ codes " received="
    ++ itoa received

-- The flag says whether there is a cause.
unfoldable pub api_text : ApiContext → Bool → Bytes → Bytes
unfolding itoa
api_text c has_cause cause_text =
    codes "flink sql gateway "
    ++ c.http_method
    ++ codes " "
    ++ c.endpoint
    ++ status_text c.status
    ++ codes ": "
    ++ api_message c.message has_cause cause_text

-- Given the texts of the errors, each behind its label.
abbrev pub execution_text : Bytes → Bytes → Bytes → Bytes
execution_text cause cancel close = codes "flink sql execution failed" ++ cause ++ cancel ++ close

unfoldable pub replay_text : ℕ → Bytes → Bytes → Bytes
unfolding itoa
replay_text index cause close =
    codes "flink sql session recipe failed at index " ++ itoa index ++ cause ++ close

unfoldable pub message : GatewayError → Bytes
unfolding sentinel_text compatibility_text request_text configuration_text setup_text limit_text
    api_text replay_text is_nil_error
message no_error = codes "<nil>"
message (sentinel s) = sentinel_text s
message (compatibility_error c kind cause) =
    compatibility_text c
    ++ error_text (codes ": ") kind (message kind)
    ++ error_text (codes ": ") cause (message cause)
message (request_unknown r c cause) = request_text r c
message (configure_unknown c cause) = configuration_text c
message (setup_error c cause close) = setup_text c (is_nil_error close)
message (replay_error index cause close) =
    replay_text index (error_text (codes ": setup execution failed") cause [])
      (error_text (codes "; session cleanup: ") close (message close))
message (execution_error cause cancel close) =
    execution_text (error_text (codes ": ") cause (message cause))
      (error_text (codes "; cancel cleanup: ") cancel (message cancel))
      (error_text (codes "; close cleanup: ") close (message close))
message (limit_error kind limit received) = limit_text kind limit received
message (api_error c cause) = api_text c (not (is_nil_error cause)) (message cause)
message (other_error text) = text
