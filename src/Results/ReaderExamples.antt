-- ===== src/Results/ReaderExamples.antt =====
-- Tests of the caller's loop over a stream, and the agreement of the two readers on a small answer.
use flink_sql_go.Prelude.{◌≡◌, refl, true, [], ◌∷◌, some, none, ok, codes}
use flink_sql_go.Go.Space.{trim_space}
use flink_sql_go.Changelog.Row.{validate_raw_json_field}
use flink_sql_go.Results.Consume.{
  State, valid_rows, next_poll_interval, operation_failure, new_state, emit, take_rows, read_page,
  consume, consume_results,
}
use flink_sql_go.Results.Consume
use flink_sql_go.Results.Stream.{
  close_request, Stream, plain, new_stream, finish, on_page, fetch_round, pending_round, open_round,
  round, next_from, next,
}
use flink_sql_go.Results.Reading.{read_all}
use flink_sql_go.Results.PageRows.{collecting}
use flink_sql_go.Results.StreamExamples.{row, json, server, limits, cleanup}
use flink_sql_go.Results.Agreement.{consume_results-read_all}

program : Unit {0}
unfolding trim_space validate_raw_json_field valid_rows next_poll_interval operation_failure
    new_state emit take_rows read_page Consume.round consume consume_results new_stream finish
    on_page fetch_round pending_round open_round round next_from next read_all
program = tt

-- What the loop returns.
abbrev both_rows : State
both_rows = record {
  polls = 3;
  pages = 2;
  result_kind = [];
  query_result = none;
  job_id = codes "job";
  columns = record { name = codes "id" } ∷ [];
  rows = row ∷ row ∷ [];
  rows_received = 2;
  finished = true;
  interval = 100;
  next = some (codes "/result/1");
  events = [];
}

consumed : consume_results json server (collecting limits) ≡ some (both_rows, ok tt)
unfolding program
consumed = refl

consume_results-read_all_example :
    (u : Stream) × (read_all 3 json server
        (collecting limits)
        cleanup
        (new_stream (collecting limits))
      ≡ some (row ∷ row ∷ [], u))
    × (u.stream_err ≡ plain none)
    × (u.requests ≡ close_request ∷ [])
    × (u.closed ≡ true)
    × (u.rows_yielded ≡ 2)
    × (u.columns ≡ record { name = codes "id" } ∷ [])
consume_results-read_all_example =
    consume_results-read_all json server limits cleanup both_rows (λ n. refl) consumed
