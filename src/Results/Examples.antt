-- ===== src/Results/Examples.antt =====
-- Tests of the result loop on a small answer, and its theorem there.
use flink_sql_go.Prelude.{
  ◌≡◌, refl, ◌+◌, ◌^◌, true, false, [], ◌∷◌, ◌==◌, some, none, err, ok, codes, if◌then◌else◌,
  Option, Result, ℕ,
}
use flink_sql_go.Go.Space.{trim_space}
use flink_sql_go.Changelog.Row.{Row, Json, insert_row, validate_raw_json_field}
use flink_sql_go.Results.Consume.{
  Page, Failure, row_limit, Server, Limits, Out, not_ready, payload, eos, new_state, emit,
  valid_rows, next_poll_interval, take_rows, read_page, round, consume, consume_results,
}
use flink_sql_go.Results.Bounds.{IsBounded, consume_results-IsBounded}

program : Unit {0}
unfolding trim_space validate_raw_json_field new_state emit valid_rows next_poll_interval take_rows
    read_page round consume consume_results
program = tt

abbrev plain : Json
plain = record { valid = λ s. true; canonical = λ s. some s }

abbrev row : Row
row = record { kind = insert_row; fields = codes "1" ∷ [] }

abbrev full_page : Page
full_page = record {
  result_type = payload;
  result_kind = [];
  query_result = none;
  job_id = codes "job";
  results = some (record { columns = record { name = codes "id" } ∷ []; rows = row ∷ row ∷ [] });
  next_uri = codes "/result/1";
}

abbrev last_page : Page
last_page = record full_page { result_type = eos; results = none; next_uri = [] }

abbrev pending_page : Page
pending_page = record last_page { result_type = not_ready }

abbrev server : Server
server = record {
  fetch = λ n uri. ok (if n == 0 then pending_page else if n == 1 then full_page else last_page);
  failed_status = λ n. false;
  valid_uri = λ u. true;
  done = λ n. false;
  wait_done = λ n. false;
  takes = λ es. true;
}

abbrev limits : Limits
limits = record {
  max_rows = 2;
  max_polls = 5;
  collect = true;
  emits = true;
  poll_interval = 100;
  max_interval = 1000;
}

abbrev summary : Option Out → Option (ℕ × ℕ × Result Failure (Unit {0}))
summary none = none
summary (some (st, r)) = some (st.polls, st.rows_received, r)

finished_example : summary (consume_results plain server limits) ≡ some (3, 2, ok tt)
unfolding program
finished_example = refl

limited_example :
    summary (consume_results plain server (record limits { max_rows = 1 }))
    ≡ some (2, 1, err row_limit)
unfolding program
limited_example = refl

interval_example : next_poll_interval (2 ^ 62) (2 ^ 62 + 1) ≡ 2 ^ 62 + 1
unfolding program
interval_example = refl

consume_results-IsBounded_example : IsBounded server limits (consume_results plain server limits)
consume_results-IsBounded_example = consume_results-IsBounded plain server limits
