-- ===== src/Execution/Run.antt =====
-- `executionSettings`, `cleanupOperationContext`, `runExecution`, `ExecuteAndWait` and `StreamResults`.
use flink_sql_go.Prelude.{
  ℕ, Bool, true, false, not, ◌&&◌, ◌||◌, List, [], ◌∷◌, Option, none, some, Bytes, ◌==◌,
  if◌then◌else◌, ℤ, pos, negsuc, Result, ok, err,
}
use flink_sql_go.Changelog.Row.{Json}
use flink_sql_go.Serialized.Activity.{ActivityGroup, begin_activity, end_activity}
use flink_sql_go.Results.Consume.{
  Failure, cancelled, not_emitted, Server, Limits, State, Out, consume_results,
}
use flink_sql_go.Results.Stream.{
  Request, cancel_request, close_request, Cleanup, is_failed, StreamError, execution_error,
  is_limit, with_cleanup,
}
use flink_sql_go.Execution.Statement.{StatementError}
use flink_sql_go.Execution.Operation.{RowFormat, chosen_format, is_valid_format}

pub record Options : Type 0 where
  pub format : RowFormat
  pub max_rows : ℤ
  pub max_polls : ℤ
  pub timeout : ℕ

pub record Defaults : Type 0 where
  pub format : RowFormat
  pub max_result_rows : ℕ
  pub max_polls : ℕ
  pub execution_timeout : ℕ

pub record Settings : Type 0 where
  pub format : RowFormat
  pub max_rows : ℕ
  pub max_polls : ℕ

pub data SettingsError : Type 0 where
  bad_format bad_limits : SettingsError

-- A limit of 0 stands for that of the configuration; one below 0 is none.
abbrev pub chosen_limit : ℤ → ℕ → ℕ
chosen_limit (pos n) default = if n == 0 then default else n
chosen_limit (negsuc n) default = 0

unfoldable pub execution_settings : Options → Defaults → Result SettingsError Settings
execution_settings o d =
    let format = chosen_format o.format d.format in
    let rows = chosen_limit o.max_rows d.max_result_rows in
    let polls = chosen_limit o.max_polls d.max_polls in
    if not (is_valid_format format)
    then err bad_format
    else if rows == 0 || polls == 0
    then err bad_limits
    else ok (record { format = format; max_rows = rows; max_polls = polls })

-- The errors that are a context's. That of an event that is not taken is one, since nothing else ends the wait.
abbrev pub is_context : Failure → Bool
is_context cancelled = true
is_context not_emitted = true
is_context _ = false

abbrev pub cancels_for : Cleanup → Failure → Bool
cancels_for c cause = is_limit (some cause) || c.cancel_on_context_done && is_context cause

-- `cleanupOperationContext`: the requests, and the error that is returned.
unfoldable pub cleanup_operation : Cleanup → Failure → List Request × StreamError
cleanup_operation c cause =
    let cancels = cancels_for c cause in
    (
      if cancels then cancel_request ∷ close_request ∷ [] else close_request ∷ [],
      with_cleanup (some cause) (cancels && is_failed c.cancel_answer) (is_failed c.close_answer),
    )

pub data RunError : Type 0 where
  no_error group_closed : RunError
  settings_error : SettingsError → RunError
  not_submitted : StatementError → RunError
  run_error : StreamError → RunError

-- What a run has asked of the server about its operation, the pages that its result tells of, if it came to
-- any, and its error.
pub record Ran : Type 0 where
  pub submitted : Bool
  pub requests : List Request
  pub result : Option State
  pub error : RunError

abbrev pub failed_run : Cleanup → Option State → Failure → Ran
failed_run c result cause =
    let (requests, error) = cleanup_operation c cause in
    record { submitted = true; requests = requests; result = result; error = run_error error }

unfoldable pub after_consume : Cleanup → Out → Ran
unfolding cleanup_operation
after_consume c (st, err cause) = failed_run c (some st) cause
after_consume c (st, ok u) = record {
  submitted = true;
  requests = if c.client_closed then [] else close_request ∷ [];
  result = some st;
  error =
      if c.client_closed || is_failed c.close_answer
      then run_error (execution_error none false true)
      else no_error;
}

-- `runExecution` once the statement was submitted. `takes_operation` says whether the consumer takes the first
-- event; `none` if the fuel of the loop does not suffice.
unfoldable pub run_submitted : Json → Server → Limits → Cleanup → Bool → Option Ran
run_submitted j srv l c takes_operation =
    if l.emits && not takes_operation
    then some (failed_run c none not_emitted)
    else elim (consume_results j srv l) [ none ↦ none | some out ↦ some (after_consume c out) ]

unfoldable pub run_execution :
    Json → Server → Limits → Cleanup → Bool → Result StatementError Bytes → Option Ran
run_execution j srv l c takes_operation (ok handle) = run_submitted j srv l c takes_operation
run_execution j srv l c takes_operation (err e) =
    some (record { submitted = false; requests = []; result = none; error = not_submitted e })

abbrev pub refused_run : RunError → Ran
refused_run e = record { submitted = false; requests = []; result = none; error = e }

-- The limits of a call, with what its settings say.
abbrev pub limits_for : Settings → Limits → Limits
limits_for s l = record l { max_rows = s.max_rows; max_polls = s.max_polls }

abbrev pub run_with :
    Json
    → Server
    → Limits
    → Cleanup
    → Bool
    → Result StatementError Bytes
    → Result SettingsError Settings
    → Option Ran
run_with j srv l c takes_operation submission (err e) = some (refused_run (settings_error e))
run_with j srv l c takes_operation submission (ok s) =
    run_execution j srv (limits_for s l) c takes_operation submission

-- `ExecuteAndWait` and, with a consumer of events, the call and the producer of `StreamResults`: the run is an
-- activity of the group.
unfoldable pub execute :
    Json
    → Server
    → Limits
    → Cleanup
    → Bool
    → Result StatementError Bytes
    → Options
    → Defaults
    → ActivityGroup
    → ActivityGroup × Option Ran
execute j srv l c takes_operation submission o d group = elim (begin_activity group) [
  | err e ↦ (group, some (refused_run group_closed))
  | ok begun ↦
      (end_activity begun, run_with j srv l c takes_operation submission (execution_settings o d))
]
