-- ===== src/Results/StreamExamples.antt =====
-- Tests of the stream on a small answer, and its theorems there.
use flink_sql_go.Prelude.{
  ◌≡◌, refl, true, false, [], ◌∷◌, ◌==◌, some, none, ok, codes, if◌then◌else◌, Option, ℕ, List,
}
use flink_sql_go.Go.Space.{trim_space}
use flink_sql_go.Changelog.Row.{Row, Json, insert_row, validate_raw_json_field}
use flink_sql_go.Results.Consume.{
  Page, row_limit, Server, Limits, not_ready, payload, eos, valid_rows, next_poll_interval,
  operation_failure,
}
use flink_sql_go.Results.Stream.{
  Request, cancel_request, close_request, Cleanup, answered, request_failed, Stream, StreamError,
  plain, execution_error, new_stream, finish, on_page, fetch_round, pending_round, open_round,
  round, next_from, next, close,
}
use flink_sql_go.Results.Draining.{drain, Ends, new_stream-Ends}

program : Unit {0}
unfolding trim_space validate_raw_json_field valid_rows next_poll_interval operation_failure
    new_stream finish on_page fetch_round pending_round open_round round next_from next close drain
program = tt

abbrev pub json : Json
json = record { valid = λ s. true; canonical = λ s. some s }

abbrev pub row : Row
row = record { kind = insert_row; fields = codes "1" ∷ [] }

abbrev full_page : Page
full_page = record {
  result_type = payload;
  result_kind = [];
  query_result = none;
  job_id = codes "job";
  results = some (record { columns = record { name = codes "id" } ∷ []; rows = row ∷ row ∷ [] });
  next_uri = codes "/result/1";
}

abbrev last_page : Page
last_page = record full_page { result_type = eos; results = none; next_uri = [] }

abbrev pub server : Server
server = record {
  fetch = λ n uri. ok (
      if n == 0
      then record last_page { result_type = not_ready }
      else if n == 1
      then full_page
      else last_page);
  failed_status = λ n. false;
  valid_uri = λ u. true;
  done = λ n. false;
  wait_done = λ n. false;
  takes = λ es. true;
}

abbrev pub limits : Limits
limits = record {
  max_rows = 2;
  max_polls = 5;
  collect = true;
  emits = true;
  poll_interval = 100;
  max_interval = 1000;
}

abbrev pub cleanup : Cleanup
cleanup = record {
  client_closed = false;
  cancel_on_context_done = true;
  cancel_answer = answered;
  close_answer = answered;
}

abbrev sent : Option Stream → Option (ℕ × ℕ × StreamError × List Request)
sent none = none
sent (some s) = some (s.polls, s.rows_yielded, s.stream_err, s.requests)

drained_example :
    sent (drain 3 json server limits cleanup (new_stream limits))
    ≡ some (3, 2, plain none, close_request ∷ [])
unfolding program
drained_example = refl

limited_example :
    sent (
      drain 3 json server
        (record limits { max_rows = 1 })
        (record cleanup { close_answer = request_failed })
        (new_stream limits))
    ≡ some (2, 1, execution_error (some row_limit) false true, cancel_request ∷ close_request ∷ [])
unfolding program
limited_example = refl

new_stream-Ends_example : Ends (drain 3 json server limits cleanup (new_stream limits))
new_stream-Ends_example = new_stream-Ends json server limits cleanup
