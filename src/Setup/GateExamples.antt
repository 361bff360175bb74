-- ===== src/Setup/GateExamples.antt =====
-- The gate of a session's setup with two callers, one of which has the token.
use flink_sql_go.Prelude.{◌+◌, ◌≤◌, ◌≡◌, refl, false, not, ◌&&◌, none, some, is_some, ltb, ◌==◌}
use flink_sql_go.Setup.SetupGate.{
  GateWorld, no_callers, enter_gate, has_token, give_up, release_ref, take_token, put_token,
  leave_gate, enters, takes, GateReachable, at_start, one_step,
}
use flink_sql_go.Setup.SetupExclusion.{reachable-setup_exclusive}

program : Unit {0}
unfolding enter_gate release_ref give_up take_token put_token leave_gate
program = tt

abbrev busy : GateWorld
busy = record {
  client_closed = false;
  gate = some (record { token = false; refs = 2 });
  waiting = 1;
  holding = 1;
  leaving = 0;
}

busy-GateReachable : GateReachable busy
unfolding program
busy-GateReachable =
    one_step (one_step (one_step at_start (enters refl)) (enters refl)) (takes refl refl)

-- The last of them takes the gate away.
alone : (leave_gate (put_token (take_token (enter_gate no_callers)))).gate ≡ none
unfolding program
alone = refl

reachable-setup_exclusive_example :
    (1 ≤ 1)
    × ((ltb 0 1 && has_token busy.gate) ≡ false)
    × ((ltb 0 busy.waiting && busy.holding == 0 && not (has_token busy.gate)) ≡ false)
    × (is_some busy.gate ≡ ltb 0 (busy.waiting + busy.holding + busy.leaving))
reachable-setup_exclusive_example = reachable-setup_exclusive busy busy-GateReachable
