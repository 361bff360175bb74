-- ===== src/Endpoints/SessionCalls.antt =====
-- `ConfigureSession`, `CompleteStatement`, `GetSessionConfig` and `Heartbeat`. The JSON of bodies and answers, the
-- validator of the configuration and the gate of the session's setup are arguments.
use flink_sql_go.Prelude.{
  ℕ, Bool, true, false, not, ◌&&◌, [], ◌∷◌, Option, none, some, Bytes, ◌==◌, if◌then◌else◌, codes,
  Result, ok, err, guard, ◌>>◌,
}
use flink_sql_go.Go.Space.{is_empty, trim_space}
use flink_sql_go.Session.Handle.{validate_opaque_handle}
use flink_sql_go.Compatibility.Profile.{Error}
use flink_sql_go.Compatibility.Check.{Checked, check_api_version}
use flink_sql_go.Transport.Message.{Redaction}
use flink_sql_go.Transport.Request.{Body, no_body, Call}
use flink_sql_go.Execution.Statement.{wire_timeout}
use flink_sql_go.Endpoints.Submit.{
  EndpointError, refused_statement, not_acquired, not_compatible, Routes, Context,
  check_session_handle, session_call, redact_all, submitted, requested, send, behind_check,
}

-- A time that is not positive is that of the configuration.
pub record Configure : Type 0 where
  pub statement : Bytes
  pub timeout : ℕ
  pub default_timeout : ℕ
  pub has_wire_timeout : Bool
  pub validates : Bytes → Bool
  pub json : Bytes → Option ℕ → Body

abbrev pub chosen_timeout : Configure → ℕ
chosen_timeout q = if q.timeout == 0 then q.default_timeout else q.timeout

unfoldable pub configure_call : Routes → Bytes → Configure → Redaction → Call
configure_call routes handle q redaction =
    session_call routes handle (codes "POST") (λ escape. codes "/configure-session") []
      (q.json q.statement (wire_timeout q.has_wire_timeout (chosen_timeout q))) none redaction false

-- `configureSessionRequest`
unfoldable pub configure_session_request :
    Context → Bytes → Configure → Redaction → Result EndpointError Bytes
unfolding configure_call submitted send
configure_session_request x handle q redaction =
    submitted (λ response. true) (send x (configure_call x.routes handle q redaction))

-- `validateStatement`
abbrev pub check_text_of : Configure → Result EndpointError (Unit {0})
check_text_of q =
    guard (not (is_empty (trim_space q.statement)) && q.validates q.statement) refused_statement

unfoldable pub configure_session :
    Context → Bool → Bytes → Configure → Checked → Checked × Result EndpointError Bytes
unfolding configure_session_request behind_check validate_opaque_handle trim_space
configure_session x acquired handle q c =
    behind_check x (do check_session_handle handle; check_text_of q) (λ k. k.configure_session) c
      (if acquired then configure_session_request x handle q redact_all else err not_acquired)

-- The query is what url.Values makes of the statement and the position.
unfoldable pub complete_statement :
    Context
    → (Bytes → Bool)
    → Bytes
    → Bytes
    → Bytes
    → Checked
    → Checked × Result EndpointError Bytes
unfolding send behind_check validate_opaque_handle
complete_statement x decodes handle statement query c =
    behind_check x (check_session_handle handle) (λ k. k.complete_statement) c
      (requested (
        send x (
          session_call x.routes handle (codes "GET") (λ escape. codes "/complete-statement") query
            no_body (some decodes) (record { fragments = statement ∷ []; redact_all = false })
            true)))

abbrev after_version :
    Checked × Result Error (Unit {0})
    → Result EndpointError Bytes
    → Checked × Result EndpointError Bytes
after_version (c, err e) answer = (c, err (not_compatible e))
after_version (c, ok u) answer = (c, answer)

-- A request behind the check of the version alone.
unfoldable pub versioned :
    Context
    → Result EndpointError (Unit {0})
    → Checked
    → Result EndpointError Bytes
    → Checked × Result EndpointError Bytes
unfolding check_api_version
versioned x (err e) c answer = (c, err e)
versioned x (ok u) c answer = after_version (check_api_version x.settings x.answers c) answer

abbrev no_redaction : Redaction
no_redaction = record { fragments = []; redact_all = false }

unfoldable pub get_session_config :
    Context → (Bytes → Bool) → Bytes → Checked → Checked × Result EndpointError Bytes
unfolding send versioned validate_opaque_handle
get_session_config x decodes handle c = versioned x (check_session_handle handle) c (
    requested (
      send x (
        session_call x.routes handle (codes "GET") (λ escape. []) [] no_body (some decodes)
          no_redaction true)))

-- Given the JSON of an empty record.
unfoldable pub heartbeat : Context → Body → Bytes → Checked → Checked × Result EndpointError Bytes
unfolding send versioned validate_opaque_handle
heartbeat x empty handle c = versioned x (check_session_handle handle) c (
    requested (
      send x (
        session_call x.routes handle (codes "POST") (λ escape. codes "/heartbeat") [] empty none
          no_redaction true)))
