-- ===== src/Transport/Request.antt =====
-- `doJSONOnce` and `doJSON`: a request, and its only retry.
use flink_sql_go.Prelude.{
  ℕ, zero, suc, ◌+◌, Bool, false, not, ◌&&◌, ◌||◌, List, [], ◌∷◌, ◌++◌, Option, none, some, Bytes,
  ltb, leb, length, if◌then◌else◌, codes, Result, ok, err,
}
use flink_sql_go.Go.Space.{is_empty, trim_space}
use flink_sql_go.Transport.Message.{Redaction}
use flink_sql_go.Transport.Path.{sanitize_endpoint_path, known_session_in_path}
use flink_sql_go.Transport.Response.{
  Phase, body_incomplete, response_received, Cause, bad_json, ApiError, TraceEvent, request_phase,
  Thrown, context_thrown, sanitize_transport_error, read_limited, ErrorPayload, decode_api_error,
}

-- What the client and the libraries give a request: the values of its headers, the sessions that it holds.
pub record Client : Type 0 where
  pub closed : Bool
  pub max_response_bytes : ℕ
  pub header_values : List Bytes
  pub has_session : Bytes → Bool
  pub escaped_path : Bytes → Option Bytes
  pub error_payload : Bytes → ErrorPayload

pub data Body : Type 0 where
  no_body not_encodable : Body
  encoded : Bytes → Body

-- `decodes` says whether the destination takes the JSON of a response; without a destination it is not asked.
pub record Call : Type 0 where
  pub http_method : Bytes
  pub url : Bytes
  pub raw_query : Bytes
  pub path : Bytes
  pub plain_path : Bytes
  pub is_valid : Bool
  pub body : Body
  pub decodes : Option (Bytes → Bool)
  pub redaction : Redaction
  pub is_cleanup : Bool
  pub is_safe : Bool

pub data Reply : Type 0 where
  no_reply : Thrown → Reply
  replied : ℕ → Bytes → Bool → Reply

-- One exchange with the server. `call_over` and `request_over` say that the context of the call, and that with
-- the timeout of the request, are over once there was no reply.
pub record Exchange : Type 0 where
  pub trace : List TraceEvent
  pub reply : Reply
  pub call_over : Bool
  pub request_over : Bool

pub data RequestError : Type 0 where
  client_closed encode_failed body_too_large create_failed wait_cancelled : RequestError
  api_error : ApiError → RequestError

abbrev not_blank : List Bytes → List Bytes
not_blank [] = []
not_blank (v ∷ vs) = if is_empty v then not_blank vs else v ∷ not_blank vs

unfoldable pub message_redaction : Client → Call → Redaction
message_redaction client call = record {
  fragments =
      call.redaction.fragments
      ++ not_blank client.header_values
      ++ (if is_empty call.raw_query then [] else call.url ∷ call.raw_query ∷ []);
  redact_all = call.redaction.redact_all;
}

abbrev pub failure : Call → ℕ → Bool → Phase → Cause → ApiError
failure call status retryable phase cause = record {
  http_method = call.http_method;
  endpoint = sanitize_endpoint_path call.path;
  status = status;
  code = [];
  message = [];
  retryable = retryable;
  phase = phase;
  cause = cause;
}

-- The number of bytes that were read, whether to try again, and what came of it.
abbrev pub Outcome : Type 0
Outcome = ℕ × Bool × Result RequestError Bytes

abbrev pub is_success : ℕ → Bool
is_success status = leb 200 status && ltb status 300

abbrev pub decode_body : Call → ℕ → Bytes → Outcome
decode_body call status body = elim call.decodes [
  | none ↦ (length body, false, ok body)
  | some decodes ↦
      if is_empty (trim_space body) || decodes body then (length body, false, ok body) else (
        length body,
        false,
        err (
            api_error (record (failure call status false body_incomplete bad_json) {
              message = codes "invalid JSON response";
            })),
      )
]

abbrev pub refusal : Client → Call → ℕ → Bytes → ApiError
refusal client call status body =
    let known = known_session_in_path client.has_session call.plain_path in
    record (decode_api_error call.http_method call.path known status body
      (client.error_payload body) (message_redaction client call)) { phase = response_received }

-- A reply whose body was read.
unfoldable pub on_body : Client → Call → ℕ → Bytes → Outcome
on_body client call status body =
    let refused = refusal client call status body in
    if is_success status
    then decode_body call status body
    else (length body, refused.retryable, err (api_error refused))

unfoldable pub on_reply : Client → Call → Exchange → Reply → Outcome
unfolding message_redaction on_body
on_reply client call x (no_reply thrown) =
    let cause =
      sanitize_transport_error client.escaped_path (message_redaction client call)
        (if x.request_over then context_thrown else thrown) in
    (
      0,
      not x.call_over,
      err (api_error (failure call 0 (not x.call_over) (request_phase x.trace) cause)),
    )
on_reply client call x (replied status body broken) =
    let (data_, problem) = read_limited client.max_response_bytes body broken in
    elim problem [
      | some cause ↦
          (length data_, false, err (api_error (failure call status false body_incomplete cause)))
      | none ↦ on_body client call status data_
    ]

unfoldable pub do_json_once : Client → Call → Exchange → Outcome
unfolding on_reply
do_json_once client call x =
    if call.is_valid then on_reply client call x x.reply else (0, false, err create_failed)

-- How many exchanges there were, the number of bytes, and the result.
pub record Sent : Type 0 where
  pub attempts : ℕ
  pub bytes : ℕ
  pub result : Result RequestError Bytes

-- A request that is not safe is not said to be worth a retry.
abbrev pub settle : Bool → RequestError → RequestError
settle safe (api_error e) = if safe then api_error e else api_error (record e { retryable = false })
settle safe e = e

-- What follows an exchange: its result, or what is done in place of a retry.
abbrev pub after_exchange : Bool → ℕ → Outcome → (RequestError → Sent) → Sent
after_exchange safe n (bytes, retry, ok data_) again = record {
  attempts = n;
  bytes = bytes;
  result = ok data_;
}
after_exchange safe n (bytes, retry, err e) again =
    if retry && safe
    then again (settle safe e)
    else record { attempts = n; bytes = bytes; result = err (settle safe e) }

abbrev pub gives_up : ℕ → RequestError → Sent
gives_up n e = record { attempts = n; bytes = 0; result = err e }

-- The attempts, of which so many may follow the one that is next, where so many were made. The wait behind
-- an attempt may be cut short by the context.
unfoldable pub send_from : ℕ → ℕ → Client → Call → (ℕ → Exchange) → (ℕ → Bool) → Sent
unfolding do_json_once
send_from zero n client call exchanges wait_over =
    after_exchange call.is_safe (n + 1) (do_json_once client call (exchanges n))
      (λ e. gives_up (n + 1) e)
send_from (suc left) n client call exchanges wait_over =
    let later = send_from left (n + 1) client call exchanges wait_over in
    after_exchange call.is_safe (n + 1) (do_json_once client call (exchanges n))
      (λ e. if wait_over n then gives_up (n + 1) wait_cancelled else later)

abbrev pub check_body : ℕ → Body → Result RequestError (Unit {0})
check_body limit no_body = ok tt
check_body limit not_encodable = err encode_failed
check_body limit (encoded text) = if ltb limit (length text) then err body_too_large else ok tt

-- `ensureOpen`: a closed client sends only what its own cleanup asks for.
abbrev pub is_refused : Client → Call → Bool
is_refused client call = client.closed && not call.is_cleanup

unfoldable pub do_json : Client → Call → (ℕ → Exchange) → (ℕ → Bool) → Sent
do_json client call exchanges wait_over =
    if is_refused client call
    then gives_up 0 client_closed
    else elim (check_body client.max_response_bytes call.body) [
      | err e ↦ gives_up 0 e
      | ok u ↦ send_from (if call.is_safe then 1 else 0) 0 client call exchanges wait_over
    ]
