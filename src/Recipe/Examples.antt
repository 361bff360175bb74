-- ===== src/Recipe/Examples.antt =====
-- Tests of a recipe, and its theorem at one whose second statement fails.
use flink_sql_go.Prelude.{
  ℕ, ◌≡◌, refl, true, false, List, [], ◌∷◌, none, some, Bytes, ◌=?◌, bytes_eq, if◌then◌else◌, codes,
  ok, err,
}
use flink_sql_go.Recipe.Replay.{
  Execution, Gateway, run_call, close_call, statement_result, fail_replay, replay, replay_opened,
  open_session_from_recipe, unwrap,
}
use flink_sql_go.Recipe.Contract.{IsReplayed, open_session_from_recipe-IsReplayed}

program : Unit {0}
unfolding statement_result fail_replay replay replay_opened open_session_from_recipe unwrap
program = tt

abbrev execution : Execution
execution = record { status = codes "FINISHED"; result_kind = []; job_id = []; operation = none }

abbrev handle : Bytes
handle = codes "h"

abbrev gateway : Gateway ℕ
gateway = record {
  opens = ok handle;
  run = λ h index s. if s =? codes "bad" then err 7 else ok (some execution);
  close = λ h. some 9;
}

abbrev statements : List Bytes
statements = codes "SET" ∷ codes "bad" ∷ codes "USE" ∷ []

calls_of_failure :
    (open_session_from_recipe gateway false statements).calls
    ≡ run_call handle (codes "SET") ∷ run_call handle (codes "bad") ∷ close_call handle ∷ []
unfolding program
calls_of_failure = refl

calls_of_kept :
    (open_session_from_recipe gateway true statements).calls
    ≡ run_call handle (codes "SET") ∷ run_call handle (codes "bad") ∷ []
unfolding program
calls_of_kept = refl

both_errors :
    unwrap {E = ℕ}
      (record { cause = 7; close_error = some 9; session_handle = handle; failed_index = 1 })
    ≡ 7 ∷ 9 ∷ []
unfolding program
both_errors = refl

open_session_from_recipe-IsReplayed_example :
    IsReplayed gateway false statements (open_session_from_recipe gateway false statements)
open_session_from_recipe-IsReplayed_example =
    open_session_from_recipe-IsReplayed gateway false statements
