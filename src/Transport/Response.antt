-- ===== src/Transport/Response.antt =====
-- What one exchange comes to: the progress of its request, `readLimited`, `sanitizeTransportError` and
-- `decodeAPIErrorWithRedaction`. How encoding/json reads a body, and net/url the path of a URL, are arguments.
use flink_sql_go.Prelude.{
  ℕ, Bool, ◌&&◌, ◌||◌, List, [], ◌∷◌, Option, none, some, Bytes, ltb, leb, ◌==◌, length, take,
  if◌then◌else◌, codes,
}
use flink_sql_go.Go.Space.{is_empty}
use flink_sql_go.Go.Text.{to_lower}
use flink_sql_go.Transport.Replace.{contains, stars}
use flink_sql_go.Transport.Message.{Redaction, redact_server_message, sanitize_server_message}
use flink_sql_go.Transport.Path.{sanitize_endpoint_path}

-- `RequestPhase`; the first is that of an error without a phase.
pub data Phase : Type 0 where
  no_phase not_sent possibly_sent header_missing body_incomplete response_received : Phase

-- Why a request failed. A network error shows the operation and the path of its URL, if it has one.
pub data Cause : Type 0 where
  no_cause context_cause too_large bad_json read_cause : Cause
  session_expired operation_not_found session_not_found : Cause
  network_cause : Option (Bytes × Bytes) → Bytes → Cause

pub record ApiError : Type 0 where
  pub http_method : Bytes
  pub endpoint : Bytes
  pub status : ℕ
  pub code : Bytes
  pub message : Bytes
  pub retryable : Bool
  pub phase : Phase
  pub cause : Cause

-- What httptrace reports of a request.
pub data TraceEvent : Type 0 where
  wrote_headers got_first_byte : TraceEvent
  wrote_request : Bool → TraceEvent

pub data Progress : Type 0 where
  at_rest at_headers at_request at_response : Progress

abbrev pub rank : Progress → ℕ
rank at_rest = 0
rank at_headers = 1
rank at_request = 2
rank at_response = 3

-- `advanceRequestProgress`: concurrent callbacks only ever raise it.
abbrev pub advance : Progress → Progress → Progress
advance current next = if leb (rank next) (rank current) then current else next

abbrev pub reached_by : TraceEvent → Progress
reached_by wrote_headers = at_headers
reached_by (wrote_request written) = if written then at_request else at_headers
reached_by got_first_byte = at_response

unfoldable pub progress_after : Progress → List TraceEvent → Progress
progress_after p [] = p
progress_after p (e ∷ es) = progress_after (advance p (reached_by e)) es

abbrev pub phase_of : Progress → Phase
phase_of at_rest = not_sent
phase_of at_headers = possibly_sent
phase_of at_request = header_missing
phase_of at_response = body_incomplete

unfoldable pub request_phase : List TraceEvent → Phase
unfolding progress_after
request_phase trace = phase_of (progress_after at_rest trace)

-- An error of the HTTP client: of a context, with the operation and the URL of its request, or another.
pub data Thrown : Type 0 where
  context_thrown : Thrown
  url_thrown : Bytes → Bytes → Option Bytes → Thrown
  other_thrown : Bytes → Thrown

abbrev or_failed : Bytes → Bytes
or_failed text = if is_empty text then codes "request failed" else text

abbrev or_root : Bytes → Bytes
or_root path = if is_empty path then codes "/" else path

unfoldable pub sanitize_transport_url : (Bytes → Option Bytes) → Bytes → Bytes
unfolding sanitize_endpoint_path
sanitize_transport_url escaped_path url = elim (escaped_path url) [
  | none ↦ stars
  | some path ↦ or_root (sanitize_endpoint_path path)
]

unfoldable pub sanitize_transport_error : (Bytes → Option Bytes) → Redaction → Thrown → Cause
unfolding sanitize_transport_url sanitize_server_message redact_server_message
sanitize_transport_error escaped_path r context_thrown = context_cause
sanitize_transport_error escaped_path r (url_thrown op url inner) =
    network_cause (some (sanitize_server_message op, sanitize_transport_url escaped_path url))
      (elim inner [
        | none ↦ codes "request failed"
        | some text ↦ or_failed (sanitize_server_message (redact_server_message text r))
      ])
sanitize_transport_error escaped_path r (other_thrown text) =
    network_cause none (or_failed (sanitize_server_message (redact_server_message text r)))

-- The body up to the limit, and whether it is whole: a reader that breaks behind the limit does not matter.
unfoldable pub read_limited : ℕ → Bytes → Bool → Bytes × Option Cause
read_limited limit body broken =
    if ltb limit (length body)
    then (take limit body, some too_large)
    else (body, if broken then some read_cause else none)

-- The fields of an error response, as far as its JSON has them.
pub record ErrorPayload : Type 0 where
  pub code : Bytes
  pub message : Bytes
  pub error : Bytes
  pub errors : List Bytes

abbrev pub first_error : List Bytes → Bytes
first_error [] = []
first_error (e ∷ es) = e

abbrev pub or_else : Bytes → Bytes → Bytes
or_else text other = if is_empty text then other else text

abbrev pub is_retryable : ℕ → Bool
is_retryable status =
    status == 408 || status == 429 || status == 502 || status == 503 || status == 504

-- What kind of error a status, a path and a message stand for.
unfoldable pub error_kind : ℕ → Bytes → Bytes → Bool → Cause
unfolding to_lower contains
error_kind status path message known =
    if status == 410
      || contains (codes "session") (to_lower message)
        && contains (codes "expired") (to_lower message)
    then session_expired
    else if status == 404 && contains (codes "/operations/") (to_lower path)
    then operation_not_found
    else if status == 404 && contains (codes "/sessions/") (to_lower path)
    then (if known then session_expired else session_not_found)
    else no_cause

unfoldable pub decode_api_error :
    Bytes → Bytes → Bool → ℕ → Bytes → ErrorPayload → Redaction → ApiError
unfolding error_kind sanitize_server_message redact_server_message sanitize_endpoint_path
decode_api_error method path known status data_ payload r =
    let text =
      or_else payload.message
        (or_else payload.error (or_else (first_error payload.errors) data_)) in
    record {
      http_method = method;
      endpoint = sanitize_endpoint_path path;
      status = status;
      code = sanitize_server_message (redact_server_message payload.code r);
      message = sanitize_server_message (redact_server_message text r);
      retryable = is_retryable status;
      phase = no_phase;
      cause = error_kind status path (sanitize_server_message text) known;
    }
