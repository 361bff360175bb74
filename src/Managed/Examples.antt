-- ===== src/Managed/Examples.antt =====
-- Tests of managed sessions, and their theorems on a short run.
use flink_sql_go.Prelude.{
  ◌≡◌, refl, ◌⊎◌, true, false, [], ◌∷◌, some, none, ok, err, codes, pos, negsuc, bytes_eq,
}
use flink_sql_go.Prelude.Members.{member, remove}
use flink_sql_go.Managed.Heartbeat.{
  session_gone, other_error, Event, new_runner, publish_event, beat, heartbeat_delay,
}
use flink_sql_go.Managed.Health.{
  expired, set_health, on_event, session_expired, session_closed, execution_allowed, Session,
  new_session, beats, receives, finishes, Reachable, opened, then_step,
}
use flink_sql_go.Managed.Expiry.{IsInformed, reachable-IsInformed, gone-execution_allowed}
use flink_sql_go.Managed.Lifecycle.{
  Wanted, no_heartbeat, choose_options, Owner, settle_session, open_managed_session,
}

program : Unit {0}
unfolding member remove new_runner publish_event beat heartbeat_delay set_health on_event
    execution_allowed new_session choose_options settle_session open_managed_session
program = tt

-- A delay of 10 with a jitter of 100, which counts as 5: at the clock 7 it is 12.
delay_example : heartbeat_delay 10 (pos 100) 7 ≡ 12
unfolding program
delay_example = refl

-- Two failed heartbeats, of which the monitor sees the second: the session is gone.
abbrev first : Session
unfolding program
first = record new_session {
  runner = beat (err other_error) false new_runner;
  beats = some other_error ∷ [];
}

abbrev second : Session
unfolding program
second = record first {
  runner = beat (err session_gone) false first.runner;
  beats = some session_gone ∷ some other_error ∷ [];
}

abbrev gone : Event
gone = record { problem = some session_gone; failures = 2 }

abbrev third : Session
unfolding program
third = record second {
  runner = record second.runner { slot = none };
  health = on_event 3 gone second.health;
}

abbrev last : Session
unfolding program
last = record third { monitored = false }

second-Reachable : Reachable 3 second
unfolding program
second-Reachable =
    then_step first second
      (then_step new_session first opened (beats false (err other_error) new_session refl))
      (beats false (err session_gone) first refl)

last-Reachable : Reachable 3 last
unfolding program
last-Reachable =
    then_step third last (then_step second third second-Reachable (receives gone second refl refl))
      (finishes third refl refl)

reachable-IsInformed_example : IsInformed 3 second
reachable-IsInformed_example = reachable-IsInformed 3 second second-Reachable

gone-execution_allowed_example :
    (execution_allowed expired ≡ err session_expired)
    ⊎ (execution_allowed expired ≡ err session_closed)
unfolding program
gone-execution_allowed_example = gone-execution_allowed 3 last last-Reachable refl refl

abbrev wanted : Wanted
wanted = record {
  heartbeat_interval = pos 0;
  heartbeat_jitter = pos 0;
  failure_threshold = negsuc 1;
  cleanup_timeout = pos 5;
}

abbrev owner : Owner
owner = record { closed = false; held = codes "a" ∷ []; managed = [] }

undone_example :
    (open_managed_session 10 10 wanted (ok (codes "b")) false true (err no_heartbeat) owner).0
    ≡ owner
unfolding program
undone_example = refl
