-- ===== src/Endpoints/Outcome.antt =====
-- What a failed deployment, refresh or configuration says.
use flink_sql_go.Prelude.{◌≡◌, Bool, true, false, [], Bytes, Result, ok, err}
use flink_sql_go.Transport.Request.{no_body}
use flink_sql_go.Execution.Statement.{Submission}
use flink_sql_go.Execution.Outcome.{cannot_have_run}
use flink_sql_go.Endpoints.Submit.{EndpointError, request_failed, outcome_unknown, Context}

abbrev pub is_plain : Result EndpointError Bytes → Bool
is_plain (err (request_failed e)) = true
is_plain _ = false

-- What is reported of a request that was sent: the answer, a plain failure, or an unknown outcome.
abbrev pub is_told : Result EndpointError Bytes → Bool
is_told (ok response) = true
is_told (err (request_failed e)) = true
is_told (err (outcome_unknown phase)) = true
is_told _ = false

-- Any will do: what a failure says does not depend on it.
abbrev some_submission : Submission
some_submission = record {
  encode = λ b. no_body;
  operation_handle = λ response. response;
  decodes = λ response. true;
  has_wire_timeout = false;
  validates = λ s. true;
  is_compatible = true;
  url = [];
  path = [];
  plain_path = [];
}

-- The answer is a plain failure exactly if the server cannot have acted, and otherwise an answer or unknown.
abbrev pub IsTold : Context → Result EndpointError Bytes → Type 0
IsTold x answer =
    (is_plain answer ≡ cannot_have_run (x.exchanges 0).trace (x.exchanges 0).reply)
    × (is_told answer ≡ true)
