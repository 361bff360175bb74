-- ===== src/Recipe/Replay.antt =====
-- `OpenSessionFromRecipeWithOptions` and `RecipeReplayError`. What opening the session, running a statement and closing
-- the session return is an argument; the time limit of the close is left to it.
use flink_sql_go.Prelude.{
  ℕ, suc, Bool, true, false, List, [], ◌∷◌, ◌++◌, Option, none, some, Bytes, if◌then◌else◌, Result,
  ok, err,
}

-- What the result of ExecuteAndWait says.
pub record Execution : Type 0 where
  pub status : Bytes
  pub result_kind : Bytes
  pub job_id : Bytes
  pub operation : Option Bytes

pub record StatementResult : Type 0 where
  pub index : ℕ
  pub operation_handle : Bytes
  pub status : Bytes
  pub result_kind : Bytes
  pub job_id : Bytes

-- `failed_index` is `none` where the source has -1.
pub record ReplayResult : Type 0 where
  pub session_handle : Bytes
  pub applied : List StatementResult
  pub failed_index : Option ℕ
  pub complete : Bool

pub record ReplayError (E : Type 0) : Type 0 where
  pub cause : E
  pub close_error : Option E
  pub session_handle : Bytes
  pub failed_index : ℕ

pub data RecipeError (E : Type 0) : Type 0 where
  not_opened : E → RecipeError E
  not_replayed : ReplayError E → RecipeError E

-- `run` has the position of the statement, since the same text may fail at one time only.
pub record Gateway (E : Type 0) : Type 0 where
  pub opens : Result E Bytes
  pub run : Bytes → ℕ → Bytes → Result E (Option Execution)
  pub close : Bytes → Option E

-- The calls that are made, and what is returned.
pub data Call : Type 0 where
  run_call : Bytes → Bytes → Call
  close_call : Bytes → Call

pub record Replay (E : Type 0) : Type 0 where
  pub calls : List Call
  pub result : Option ReplayResult
  pub error : Option (RecipeError E)

abbrev pub handle_of : Option Bytes → Bytes
handle_of none = []
handle_of (some handle) = handle

unfoldable pub statement_result : ℕ → Option Execution → StatementResult
statement_result index none = record {
  index = index;
  operation_handle = [];
  status = [];
  result_kind = [];
  job_id = [];
}
statement_result index (some e) = record {
  index = index;
  operation_handle = handle_of e.operation;
  status = e.status;
  result_kind = e.result_kind;
  job_id = e.job_id;
}

module _ {E : Type 0} (g : Gateway E) (keep_session : Bool) where
  -- The failure of a statement: the session is closed, unless it is to be kept.
  unfoldable pub fail_replay : ReplayResult → List Call → ℕ → E → Replay E
  fail_replay r calls index cause = record {
    calls = if keep_session then calls else calls ++ close_call r.session_handle ∷ [];
    result = some (record r { failed_index = some index });
    error = some (
        not_replayed (record {
          cause = cause;
          close_error = if keep_session then none else g.close r.session_handle;
          session_handle = r.session_handle;
          failed_index = index;
        }));
  }

  -- The loop, `index` statements in.
  unfoldable pub replay : ℕ → List Bytes → ReplayResult → List Call → Replay E
  unfolding statement_result fail_replay
  replay index [] r calls = record {
    calls = calls;
    result = some (record r { complete = true });
    error = none;
  }
  replay index (s ∷ statements) r calls = elim (g.run r.session_handle index s) [
    | err cause ↦ fail_replay r (calls ++ run_call r.session_handle s ∷ []) index cause
    | ok execution ↦
        replay (suc index) statements
          (record r { applied = r.applied ++ statement_result index execution ∷ [] })
          (calls ++ run_call r.session_handle s ∷ [])
  ]

  abbrev pub new_replay_result : Bytes → ReplayResult
  new_replay_result handle = record {
    session_handle = handle;
    applied = [];
    failed_index = none;
    complete = false;
  }

  unfoldable pub replay_opened : List Bytes → Result E Bytes → Replay E
  unfolding replay
  replay_opened statements (err e) = record {
    calls = [];
    result = none;
    error = some (not_opened e);
  }
  replay_opened statements (ok handle) = replay 0 statements (new_replay_result handle) []

  unfoldable pub open_session_from_recipe : List Bytes → Replay E
  unfolding replay_opened
  open_session_from_recipe statements = replay_opened statements g.opens

-- `Unwrap`: the errors that errors.Is and errors.As look through.
unfoldable pub unwrap : {E : Type 0} → ReplayError E → List E
unwrap e = elim e.close_error [ none ↦ e.cause ∷ [] | some c ↦ e.cause ∷ c ∷ [] ]
