-- ===== src/Transport/Examples.antt =====
-- Tests of the transport, and its theorems on small exchanges.
use flink_sql_go.Prelude.{
  ◌≡◌, refl, ◌==◌, true, false, [], ◌∷◌, some, none, err, Bool, Bytes, codes, bytes_eq, bytes_beq,
  ℕ, if◌then◌else◌,
}
use flink_sql_go.Prelude.Members.{member}
use flink_sql_go.Go.Space.{trim_front, trim_left, trim_right, trim_space}
use flink_sql_go.Go.Text.{to_lower}
use flink_sql_go.Go.Utf8.{valid_from, valid_string}
use flink_sql_go.Session.Handle.{mask_handle}
use flink_sql_go.Transport.Replace.{has_prefix, contains, replace_from, replace_all}
use flink_sql_go.Transport.Message.{
  Redaction, distinct_fragments, insert_longest, sort_longest, replace_each, redact_server_message,
  to_valid_from, to_valid_utf8, first_line, valid_limit, limit_message, sanitize_server_message,
}
use flink_sql_go.Transport.Path.{
  path_unescape, split_slashes, join_slashes, mask_parts, sanitize_endpoint_path, trim_slashes,
  session_in_parts, known_session_in_path,
}
use flink_sql_go.Transport.Redaction.{
  contains-redact_server_message, is_one_line, IsShown, sanitize_server_message-bounds,
}
use flink_sql_go.Transport.Response.{
  context_thrown, wrote_headers, wrote_request, progress_after, request_phase,
  sanitize_transport_url, sanitize_transport_error, read_limited, error_kind, decode_api_error,
}
use flink_sql_go.Transport.Request.{
  Client, Call, Exchange, Sent, no_body, no_reply, replied, api_error, message_redaction, on_body,
  on_reply, do_json_once, send_from, do_json,
}
use flink_sql_go.Transport.Attempts.{IsSent, do_json-IsSent}

program : Unit {0}
unfolding member trim_front trim_left trim_right trim_space to_lower valid_from valid_string
    mask_handle has_prefix contains replace_from replace_all distinct_fragments insert_longest
    sort_longest replace_each redact_server_message to_valid_from to_valid_utf8 first_line
    valid_limit limit_message sanitize_server_message path_unescape split_slashes join_slashes
    mask_parts sanitize_endpoint_path trim_slashes session_in_parts known_session_in_path
    is_one_line progress_after request_phase sanitize_transport_url sanitize_transport_error
    read_limited error_kind decode_api_error message_redaction on_body on_reply do_json_once
    send_from do_json
program = tt

abbrev redaction : Redaction
redaction = record { fragments = codes "key" ∷ codes "key=abc" ∷ []; redact_all = false }

redact_example :
    redact_server_message (codes "bad key=abc, key") redaction ≡ codes "bad ********, ********"
unfolding program
redact_example = refl

sanitize_example :
    sanitize_server_message (b' ' ∷ b'a' ∷ 0xFF ∷ 0xFE ∷ b'b' ∷ 10 ∷ b'c' ∷ [])
    ≡ b'a' ∷ 0xEF ∷ 0xBF ∷ 0xBD ∷ b'b' ∷ []
unfolding program
sanitize_example = refl

path_example :
    sanitize_endpoint_path (codes "/v1/sessions/ab%2Dcdefghijk/operations/x/close")
    ≡ codes "/v1/sessions/ab-c...hijk/operations/********/close"
unfolding program
path_example = refl

known_example :
    known_session_in_path (λ h. bytes_beq h (codes "a-b")) (codes "/v1/sessions/a%2Db/x/") ≡ true
unfolding program
known_example = refl

abbrev client : Client
client = record {
  closed = false;
  max_response_bytes = 100;
  header_values = codes "token" ∷ [];
  has_session = λ h. false;
  escaped_path = λ u. some u;
  error_payload = λ b. record { code = []; message = b; error = []; errors = [] };
}

abbrev call : Call
call = record {
  http_method = codes "GET";
  url = codes "http://host/v1/sessions/s";
  raw_query = [];
  path = codes "/v1/sessions/s";
  plain_path = codes "/v1/sessions/s";
  is_valid = true;
  body = no_body;
  decodes = none;
  redaction = record { fragments = []; redact_all = false };
  is_cleanup = false;
  is_safe = true;
}

-- The first exchange breaks off, the second is answered.
abbrev exchanges : ℕ → Exchange
exchanges n =
    if n == 0
    then record {
      trace = wrote_headers ∷ wrote_request true ∷ [];
      reply = no_reply context_thrown;
      call_over = false;
      request_over = true;
    }
    else record {
      trace = [];
      reply = replied 404 (codes "no token") false;
      call_over = false;
      request_over = false;
    }

abbrev is_answer : Sent → Bytes → Bool
is_answer s message = elim s.result [ err (api_error e) ↦ bytes_beq e.message message | _ ↦ false ]

retried_example :
    is_answer (do_json client call exchanges (λ n. false)) (codes "no ********") ≡ true
unfolding program
retried_example = refl

attempts_example : (do_json client call exchanges (λ n. false)).attempts ≡ 2
unfolding program
attempts_example = refl

contains-redact_server_message_example :
    contains (codes "key") (redact_server_message (codes "bad key=abc, key") redaction) ≡ false
unfolding member
contains-redact_server_message_example =
    contains-redact_server_message (codes "key") (codes "bad key=abc, key") redaction refl refl

sanitize_server_message-bounds_example :
    (is_one_line (sanitize_server_message (codes "text")) ≡ true)
    × IsShown
        (first_line (trim_space (to_valid_utf8 (codes "text"))))
        (sanitize_server_message (codes "text"))
sanitize_server_message-bounds_example = sanitize_server_message-bounds (codes "text")

do_json-IsSent_example : IsSent 2 true (do_json client call exchanges (λ n. false))
do_json-IsSent_example = do_json-IsSent client call exchanges (λ n. false)
