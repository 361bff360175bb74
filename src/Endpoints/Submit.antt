-- ===== src/Endpoints/Submit.antt =====
-- What the requests about a session have in common: the call, and what a failure of one that may not be repeated says.
use flink_sql_go.Prelude.{
  ℕ, Bool, true, false, [], ◌∷◌, ◌++◌, Option, Bytes, if◌then◌else◌, codes, Result, ok, err,
}
use flink_sql_go.Go.Space.{is_empty}
use flink_sql_go.Session.Handle.{HandleError, validate_opaque_handle}
use flink_sql_go.Compatibility.Profile.{Error, Capabilities}
use flink_sql_go.Compatibility.Check.{
  Settings, Answers, Checked, Info, compatibility_for_capability,
}
use flink_sql_go.Transport.Message.{Redaction}
use flink_sql_go.Transport.Response.{Phase, body_incomplete}
use flink_sql_go.Transport.Request.{Client, Body, Call, Exchange, RequestError, api_error, do_json}
use flink_sql_go.Execution.Statement.{outcome_is_unknown}

pub data EndpointError : Type 0 where
  bad_session bad_identifier : HandleError → EndpointError
  not_one_script blank_script script_not_utf8 : EndpointError
  bad_uri : HandleError → EndpointError
  refused_statement not_acquired : EndpointError
  not_compatible : Error → EndpointError
  request_failed : RequestError → EndpointError
  outcome_unknown : Phase → EndpointError

-- How the client writes the URL of a session's resource.
pub record Routes : Type 0 where
  pub base : Bytes
  pub escape : Bytes → Bytes

-- What the client and its environment give to a request.
pub record Context : Type 0 where
  pub client : Client
  pub routes : Routes
  pub settings : Settings
  pub answers : Answers
  pub exchanges : ℕ → Exchange
  pub wait_over : ℕ → Bool

abbrev pub check_session_handle : Bytes → Result EndpointError (Unit {0})
check_session_handle handle = elim (validate_opaque_handle handle) [
  | err e ↦ err (bad_session e)
  | ok u ↦ ok tt
]

abbrev pub session_path : (Bytes → Bytes) → Bytes → Bytes
session_path escape handle = codes "/sessions/" ++ escape handle

abbrev pub with_query : Bytes → Bytes
with_query query = if is_empty query then [] else b'?' ∷ query

-- `suffix` is written with the given way to escape.
abbrev pub session_call :
    Routes
    → Bytes
    → Bytes
    → ((Bytes → Bytes) → Bytes)
    → Bytes
    → Body
    → Option (Bytes → Bool)
    → Redaction
    → Bool
    → Call
session_call routes handle method suffix query body decodes redaction safe = record {
  http_method = method;
  url =
      routes.base
      ++ (session_path routes.escape handle ++ (suffix routes.escape ++ with_query query));
  raw_query = query;
  path = routes.base ++ (session_path routes.escape handle ++ suffix routes.escape);
  plain_path = routes.base ++ (session_path (λ part. part) handle ++ suffix (λ part. part));
  is_valid = true;
  body = body;
  decodes = decodes;
  redaction = redaction;
  is_cleanup = false;
  is_safe = safe;
}

abbrev pub redact_all : Redaction
redact_all = record { fragments = []; redact_all = true }

-- A failed request that may not be repeated: an error of its own kind if the server may have acted on it.
abbrev pub unsafe_failure : RequestError → EndpointError
unsafe_failure (api_error e) =
    if outcome_is_unknown e then outcome_unknown e.phase else request_failed (api_error e)
unsafe_failure e = request_failed e

-- The answer of such a request; one that cannot be read leaves the outcome open.
unfoldable pub submitted : (Bytes → Bool) → Result RequestError Bytes → Result EndpointError Bytes
unfolding outcome_is_unknown
submitted readable (err e) = err (unsafe_failure e)
submitted readable (ok response) =
    if readable response then ok response else err (outcome_unknown body_incomplete)

abbrev pub requested : Result RequestError Bytes → Result EndpointError Bytes
requested (ok response) = ok response
requested (err e) = err (request_failed e)

unfoldable pub send : Context → Call → Result RequestError Bytes
unfolding do_json
send x call = (do_json x.client call x.exchanges x.wait_over).result

-- A request behind the check of what the server offers.
abbrev pub after_check :
    Checked × Result Error Info → Result EndpointError Bytes → Checked × Result EndpointError Bytes
after_check (c, err e) answer = (c, err (not_compatible e))
after_check (c, ok info) answer = (c, answer)

unfoldable pub behind_check :
    Context
    → Result EndpointError (Unit {0})
    → (Capabilities → Bool)
    → Checked
    → Result EndpointError Bytes
    → Checked × Result EndpointError Bytes
unfolding compatibility_for_capability
behind_check x (err e) supported c answer = (c, err e)
behind_check x (ok u) supported c answer =
    after_check (compatibility_for_capability x.settings x.answers supported c) answer
