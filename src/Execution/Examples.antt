-- ===== src/Execution/Examples.antt =====
-- Tests of the execution of statements, and its theorems on a small server.
use flink_sql_go.Prelude.{◌≡◌, refl, true, false, [], ◌∷◌, some, ok, err, codes, ℕ, pos}
use flink_sql_go.Go.Space.{trim_front, trim_left, trim_right, trim_space}
use flink_sql_go.Go.Utf8.{valid_from, valid_string, has_control}
use flink_sql_go.Changelog.Row.{Json}
use flink_sql_go.Serialized.Activity.{new_group}
use flink_sql_go.Session.Handle.{check_text, validate_opaque_handle}
use flink_sql_go.Transport.Response.{context_thrown, wrote_request}
use flink_sql_go.Transport.Request.{Client, Exchange, encoded, no_reply}
use flink_sql_go.Results.Consume.{Server, Limits, new_state, other_error}
use flink_sql_go.Results.Stream.{Cleanup, answered}
use flink_sql_go.Execution.Statement.{Statement, Submission, check_statement, statement_call}
use flink_sql_go.Execution.Operation.{json_format, default_format}
use flink_sql_go.Execution.Run.{Options, Defaults, after_consume, execute}
use flink_sql_go.Execution.Cleaning.{IsRan, execute-IsRan}

program : Unit {0}
unfolding trim_front trim_left trim_right trim_space valid_from valid_string has_control check_text
    validate_opaque_handle check_statement statement_call new_group
program = tt

abbrev client : Client
client = record {
  closed = false;
  max_response_bytes = 100;
  header_values = [];
  has_session = λ h. false;
  escaped_path = λ u. some u;
  error_payload = λ b. record { code = []; message = b; error = []; errors = [] };
}

abbrev submission : Submission
submission = record {
  encode = λ b. encoded b.text;
  operation_handle = λ response. response;
  decodes = λ response. true;
  has_wire_timeout = true;
  validates = λ s. true;
  is_compatible = true;
  url = codes "http://host/v1/sessions/s/statements";
  path = codes "/v1/sessions/s/statements";
  plain_path = codes "/v1/sessions/s/statements";
}

abbrev statement : Statement
statement = record { session = codes "s"; text = codes "SELECT 1"; config = []; timeout = 5 }

-- The request was written, and no response came.
abbrev exchanges : ℕ → Exchange
exchanges n = record {
  trace = wrote_request true ∷ [];
  reply = no_reply context_thrown;
  call_over = false;
  request_over = true;
}

abbrev json : Json
json = record { valid = λ s. true; canonical = λ s. some s }

abbrev server : Server
server = record {
  fetch = λ n uri. err other_error;
  failed_status = λ n. false;
  valid_uri = λ u. true;
  done = λ n. false;
  wait_done = λ n. false;
  takes = λ es. true;
}

abbrev limits : Limits
limits = record {
  max_rows = 2;
  max_polls = 5;
  collect = true;
  emits = false;
  poll_interval = 100;
  max_interval = 1000;
}

abbrev cleanup : Cleanup
cleanup = record {
  client_closed = false;
  cancel_on_context_done = true;
  cancel_answer = answered;
  close_answer = answered;
}

abbrev options : Options
options = record { format = default_format; max_rows = pos 0; max_polls = pos 3; timeout = 0 }

abbrev defaults : Defaults
defaults = record {
  format = json_format;
  max_result_rows = 10;
  max_polls = 10;
  execution_timeout = 0;
}

-- Behind a result that was read to its end a closed client sends nothing.
left_open :
    (after_consume (record cleanup { client_closed = true }) (new_state limits, ok tt)).requests
    ≡ []
unfolding after_consume
left_open = refl

execute-IsRan_example :
    IsRan cleanup
      (execute json server limits cleanup true (ok (codes "o")) options defaults new_group).1
execute-IsRan_example =
    execute-IsRan json server limits cleanup true (ok (codes "o")) options defaults new_group
