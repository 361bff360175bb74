-- ===== src/Managed/Health.antt =====
-- managed_session.go: `monitorHeartbeat`, `setHealth` and `executionAllowed`, with a runner as a step relation.
use flink_sql_go.Prelude.{
  ℕ, ◌≡◌, Bool, true, false, List, [], ◌∷◌, Option, none, some, leb, if◌then◌else◌, Result, ok, err,
}
use flink_sql_go.Managed.Heartbeat.{
  BeatError, Event, Runner, new_runner, is_gone, beat, stop_runner,
}

pub data Health : Type 0 where
  healthy degraded expired closed : Health

abbrev pub is_closed : Health → Bool
is_closed closed = true
is_closed _ = false

abbrev pub is_degraded : Health → Bool
is_degraded degraded = true
is_degraded _ = false

abbrev pub is_expired : Health → Bool
is_expired expired = true
is_expired _ = false

-- Setting the health that is already there changes nothing.
unfoldable pub set_health : Health → Health → Health
set_health next previous = if is_closed previous then previous else next

abbrev pub on_problem : ℕ → BeatError → ℕ → Health → Health
on_problem threshold e failures health =
    if is_gone e
    then set_health expired health
    else if leb threshold failures
    then set_health degraded health
    else health

-- What an event makes of the health.
unfoldable pub on_event : ℕ → Event → Health → Health
unfolding set_health
on_event threshold e health = elim e.problem [
  | none ↦ if is_degraded health then set_health healthy health else health
  | some problem ↦ on_problem threshold problem e.failures health
]

pub data NotAllowed : Type 0 where
  session_closed session_expired : NotAllowed

unfoldable pub execution_allowed : Health → Result NotAllowed (Unit {0})
execution_allowed closed = err session_closed
execution_allowed expired = err session_expired
execution_allowed _ = ok tt

-- A session with its runner and its monitor, which is done once the channel is closed and empty. `beats` are
-- the answers to the heartbeats so far that counted, the last of them first.
pub record Session : Type 0 where
  pub runner : Runner
  pub health : Health
  pub monitored : Bool
  pub beats : List (Option BeatError)

unfoldable pub new_session : Session
new_session = record { runner = new_runner; health = healthy; monitored = true; beats = [] }

abbrev pub counted :
    Result BeatError (Unit {0}) → Bool → List (Option BeatError) → List (Option BeatError)
counted (ok u) over beats = none ∷ beats
counted (err e) over beats = if over then beats else some e ∷ beats

-- The steps of the runner, of the monitor and of the end of the session, which waits for the monitor.
pub data Step (threshold : ℕ) : Session → Session → Type 0 where
  beats :
      (over : Bool) (answer : Result BeatError (Unit {0})) (s : Session)
      → s.runner.running ≡ true
      → Step threshold s
          (record s { runner = beat answer over s.runner; beats = counted answer over s.beats })
  stops : (s : Session) → Step threshold s (record s { runner = stop_runner s.runner })
  receives :
      (e : Event) (s : Session)
      → s.monitored ≡ true
      → s.runner.slot ≡ some e
      → Step threshold s (record s {
        runner = record s.runner { slot = none };
        health = on_event threshold e s.health;
      })
  finishes :
      (s : Session)
      → s.runner.running ≡ false
      → s.runner.slot ≡ none
      → Step threshold s (record s { monitored = false })
  closes : (s : Session) → s.monitored ≡ false → Step threshold s (record s { health = closed })

pub data Reachable (threshold : ℕ) : Session → Type 0 where
  opened : Reachable threshold new_session
  then_step : (s t : Session) → Reachable threshold s → Step threshold s t → Reachable threshold t
