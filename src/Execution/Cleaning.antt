-- ===== src/Execution/Cleaning.antt =====
-- poller.go: what a run asks of the server about its operation, and its activity.
use flink_sql_go.Prelude.{
  ◌≡◌, refl, ◌⊎◌, inl, inr, Bool, true, false, not, ◌&&◌, [], ◌∷◌, Option, none, some, if_both,
  Bool-cases, Result, ok, err, Bytes, arith, Result-cases,
}
use flink_sql_go.Changelog.Row.{Json}
use flink_sql_go.Serialized.Activity.{ActivityGroup, begin_activity}
use flink_sql_go.Results.Consume.{Failure, not_emitted, Server, Limits, State, Out}
use flink_sql_go.Results.Bounds.{consume_results-IsBounded}
use flink_sql_go.Results.Stream.{cancel_request, close_request, Cleanup, execution_error}
use flink_sql_go.Execution.Statement.{StatementError}
use flink_sql_go.Execution.Run.{
  Options, Defaults, Settings, SettingsError, execution_settings, cancels_for, cleanup_operation,
  no_error, not_submitted, group_closed, settings_error, run_error, Ran, failed_run, after_consume,
  run_submitted, run_execution, refused_run, run_with, execute, limits_for,
}

-- A run ends. Nothing was asked about an operation if none was submitted, and otherwise it was closed
-- exactly once, at the end, cancelled before that at most once, and not at all in a run without error. A client that is
-- closed when the result was read refuses to close the operation, and the run says so.
pub record IsRan (c : Cleanup) (o : Option Ran) : Type 0 where
  pub ran : Ran
  pub returned : o ≡ some ran
  pub unsent : ran.submitted ≡ false → ran.requests ≡ []
  pub cleaned :
      ran.submitted ≡ true
      → (ran.requests ≡ close_request ∷ [])
        ⊎ (ran.requests ≡ cancel_request ∷ close_request ∷ [])
        ⊎ ((c.client_closed ≡ true)
            × (ran.requests ≡ [])
            × (ran.error ≡ run_error (execution_error none false true)))
  pub uncancelled : ran.error ≡ no_error → ran.requests ≡ close_request ∷ []

refused-IsRan :
    (c : Cleanup) (r : Ran)
    → r.submitted ≡ false
    → r.requests ≡ []
    → ((r.error ≡ no_error) → r.requests ≡ close_request ∷ [])
    → IsRan c (some r)
refused-IsRan c r s e n = record {
  ran = r;
  returned = refl;
  unsent = λ h. e;
  cleaned = λ h. ground (arith, h, s);
  uncancelled = n;
}

failed-IsRan :
    (c : Cleanup) (result : Option State) (cause : Failure)
    → IsRan c (some (failed_run c result cause))
unfolding cleanup_operation
failed-IsRan c result cause = record {
  ran = failed_run c result cause;
  returned = refl;
  unsent = λ h. cc;
  cleaned = λ h. ground (arith, Bool-cases (cancels_for c cause));
  uncancelled = λ h. cc;
}

after_consume-IsRan : (c : Cleanup) (out : Out) → IsRan c (some (after_consume c out))
unfolding after_consume
after_consume-IsRan c (st, err cause) = failed-IsRan c (some st) cause
after_consume-IsRan c (st, ok u) = record {
  ran = after_consume c (st, ok u);
  returned = refl;
  unsent = λ h. cc;
  cleaned = λ h. elim (Bool-cases c.client_closed) [
    | inl closed ↦ inr (inr (closed, rw closed refl, rw closed refl))
    | inr open_ ↦ inl (rw open_ refl)
  ];
  uncancelled = λ h. ground (arith, h, Bool-cases c.client_closed);
}

run_submitted-IsRan :
    (j : Json) (srv : Server) (l : Limits) (c : Cleanup) (takes_operation : Bool)
    → IsRan c (run_submitted j srv l c takes_operation)
unfolding run_submitted
run_submitted-IsRan j srv l c takes_operation =
    if_both (IsRan c) (l.emits && not takes_operation) (λ gone. failed-IsRan c none not_emitted)
      (λ taken.
        let bounded = consume_results-IsBounded j srv l in
        rw bounded.returned (after_consume-IsRan c bounded.out))

run_with-IsRan :
    (j : Json) (srv : Server) (l : Limits) (c : Cleanup) (takes_operation : Bool)
    (submission : Result StatementError Bytes) (settings : Result SettingsError Settings)
    → IsRan c (run_with j srv l c takes_operation submission settings)
unfolding run_execution
run_with-IsRan j srv l c takes_operation submission (err e) =
    refused-IsRan c (refused_run (settings_error e)) refl refl (λ h. cc)
run_with-IsRan j srv l c takes_operation (err e) (ok s) =
    refused-IsRan c (refused_run (not_submitted e)) refl refl (λ h. cc)
run_with-IsRan j srv l c takes_operation (ok handle) (ok s) =
    run_submitted-IsRan j srv (limits_for s l) c takes_operation

-- Whatever the server answers, a run ends: its operation, if it has one, was closed exactly once, at the end,
-- and cancelled before that at most once, never in a run without error; without one nothing was sent. Only if the
-- client is closed when the result was read to its end is the operation left open, and the run returns that error.
pub execute-IsRan :
    (j : Json) (srv : Server) (l : Limits) (c : Cleanup) (takes_operation : Bool)
    (submission : Result StatementError Bytes) (o : Options) (d : Defaults) (group : ActivityGroup)
    → IsRan c (execute j srv l c takes_operation submission o d group).1
unfolding execute
execute-IsRan j srv l c takes_operation submission o d group =
    elim (Result-cases (begin_activity group)) [
      | inl (e, closed) ↦
          rw (closed, execute) (refused-IsRan c (refused_run group_closed) refl refl (λ h. cc))
      | inr (g, begun) ↦
          rw (begun, execute)
            (run_with-IsRan j srv l c takes_operation submission (execution_settings o d))
    ]
