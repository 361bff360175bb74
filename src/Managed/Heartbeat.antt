-- ===== src/Managed/Heartbeat.antt =====
-- heartbeat.go: `runHeartbeat` by the rounds of its loop, `publishHeartbeatEvent` and `heartbeatDelay`.
use flink_sql_go.Prelude.{
  ℕ, ◌+◌, ◌-◌, ◌*◌, ◌/◌, ◌%◌, Bool, true, false, not, Option, none, some, ltb, ◌==◌, if◌then◌else◌,
  ℤ, pos, negsuc, Result, ok, err,
}

-- Why a heartbeat failed: the session is not there or expired, or anything else.
pub data BeatError : Type 0 where
  session_gone other_error : BeatError

pub record Event : Type 0 where
  pub problem : Option BeatError
  pub failures : ℕ

-- `slot` is the channel of events, of one place, and `error_slot` that of errors. `running` says that the
-- goroutine has not returned, and then it deregisters itself and closes both.
pub record Runner : Type 0 where
  pub running : Bool
  pub failures : ℕ
  pub slot : Option Event
  pub error_slot : Option BeatError

unfoldable pub new_runner : Runner
new_runner = record { running = true; failures = 0; slot = none; error_slot = none }

-- A channel of one place takes a value if it is empty.
abbrev pub offer : Event → Option Event → Option Event × Bool
offer e none = (some e, true)
offer e (some old) = (some old, false)

abbrev pub emptied : Option Event → Option Event
emptied slot = none

-- `publishHeartbeatEvent`: a full channel is emptied first. Its reader may be faster, with the same outcome.
unfoldable pub publish_event : Event → Option Event → Option Event
publish_event e slot =
    let (full, sent) = offer e slot in if sent then full else (offer e (emptied full)).0

abbrev pub is_gone : BeatError → Bool
is_gone session_gone = true
is_gone other_error = false

abbrev pub keep_error : BeatError → Option BeatError → Option BeatError
keep_error e none = some e
keep_error e (some old) = some old

abbrev pub on_failure : BeatError → Runner → Runner
on_failure e r = record {
  running = not (is_gone e);
  failures = r.failures + 1;
  slot = publish_event (record { problem = some e; failures = r.failures + 1 }) r.slot;
  error_slot = keep_error e r.error_slot;
}

-- A heartbeat and its answer. The last flag says that the context is over by then, which ends the
-- runner if the heartbeat failed.
unfoldable pub beat : Result BeatError (Unit {0}) → Bool → Runner → Runner
unfolding publish_event
beat (ok u) over r = record r {
  failures = 0;
  slot = publish_event (record { problem = none; failures = 0 }) r.slot;
}
beat (err e) over r = if over then record r { running = false } else on_failure e r

-- The context is over during the wait before a heartbeat.
abbrev pub stop_runner : Runner → Runner
stop_runner r = record r { running = false }

-- `heartbeatDelay`, of a time in nanoseconds at the given clock.
unfoldable pub heartbeat_delay : ℕ → ℤ → ℕ → ℕ
heartbeat_delay interval (negsuc n) now = interval
heartbeat_delay interval (pos jitter) now =
    let bounded = if ltb (interval / 2) jitter then interval / 2 else jitter in
    let offset = now % (bounded * 2 + 1) in
    let delay = interval + offset - bounded in
    if jitter == 0 then interval else if delay == 0 then 1 else delay
