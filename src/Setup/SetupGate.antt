-- ===== src/Setup/SetupGate.antt =====
-- `acquireSessionSetup` and `releaseSessionSetupGateRef`, for the gate of one session and any number of callers, by the
-- parts of a call between which others may run.
use flink_sql_go.Prelude.{
  ℕ, ◌+◌, ◌-◌, ◌≡◌, Bool, true, false, Option, none, some, ltb, ◌==◌, if◌then◌else◌,
}

-- The channel of one place, with or without its token, and the counter.
pub record SetupGate : Type 0 where
  pub token : Bool
  pub refs : ℕ

-- How many callers wait for the token, hold it, and have put it back but not yet left. No caller has a gate
-- that was removed, since one is removed only with the last of them: the test of the source that the map
-- still has the caller's gate succeeds.
pub record GateWorld : Type 0 where
  pub client_closed : Bool
  pub gate : Option SetupGate
  pub waiting : ℕ
  pub holding : ℕ
  pub leaving : ℕ

abbrev pub no_callers : GateWorld
no_callers = record { client_closed = false; gate = none; waiting = 0; holding = 0; leaving = 0 }

abbrev pub entered : Option SetupGate → SetupGate
entered none = record { token = true; refs = 1 }
entered (some g) = record g { refs = g.refs + 1 }

-- The first critical section, of an open client.
unfoldable pub enter_gate : GateWorld → GateWorld
enter_gate w = record w { gate = some (entered w.gate); waiting = w.waiting + 1 }

abbrev pub has_token : Option SetupGate → Bool
has_token none = false
has_token (some g) = g.token

abbrev pub with_token : Bool → Option SetupGate → Option SetupGate
with_token b none = none
with_token b (some g) = some (record g { token = b })

-- `releaseSessionSetupGateRef`
unfoldable pub release_ref : Option SetupGate → Option SetupGate
release_ref none = none
release_ref (some g) = if g.refs - 1 == 0 then none else some (record g { refs = g.refs - 1 })

-- The context is over, or the client is closed, before there is a token.
unfoldable pub give_up : GateWorld → GateWorld
unfolding release_ref
give_up w = record w { gate = release_ref w.gate; waiting = w.waiting - 1 }

unfoldable pub take_token : GateWorld → GateWorld
take_token w = record w {
  gate = with_token false w.gate;
  waiting = w.waiting - 1;
  holding = w.holding + 1;
}

-- The release, or a context that is over once the token was taken: both put it back, and then leave.
unfoldable pub put_token : GateWorld → GateWorld
put_token w = record w {
  gate = with_token true w.gate;
  holding = w.holding - 1;
  leaving = w.leaving + 1;
}

unfoldable pub leave_gate : GateWorld → GateWorld
unfolding release_ref
leave_gate w = record w { gate = release_ref w.gate; leaving = w.leaving - 1 }

-- A caller that waits may go on only with a token; one that puts it back needs a free place, without which
-- it would wait.
pub data GateStep (w : GateWorld) : GateWorld → Type 0 where
  enters : w.client_closed ≡ false → GateStep w (enter_gate w)
  gives_up : ltb 0 w.waiting ≡ true → GateStep w (give_up w)
  takes : ltb 0 w.waiting ≡ true → has_token w.gate ≡ true → GateStep w (take_token w)
  puts : ltb 0 w.holding ≡ true → has_token w.gate ≡ false → GateStep w (put_token w)
  leaves : ltb 0 w.leaving ≡ true → GateStep w (leave_gate w)
  closes : GateStep w (record w { client_closed = true })

pub data GateReachable : GateWorld → Type 0 where
  at_start : GateReachable no_callers
  one_step : {w v : GateWorld} → GateReachable w → GateStep w v → GateReachable v
