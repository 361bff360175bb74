-- ===== src/Managed/Expiry.antt =====
-- managed_session.go: the health of a session in every reachable state.
use flink_sql_go.Prelude.{
  ℕ, ◌+◌, ◌≡◌, refl, sym, subst, Bool, true, false, not, ◌||◌, List, ◌∷◌, Option, none, some,
  Option-cases, ◌⊎◌, inl, inr, arith, Result, ok, err,
}
use flink_sql_go.Managed.Heartbeat.{BeatError, Event, Runner, new_runner, is_gone, beat}
use flink_sql_go.Managed.Health.{
  Health, healthy, degraded, expired, closed, is_closed, is_expired, on_event, Session, new_session,
  counted, Step, beats, stops, receives, finishes, closes, session_closed, session_expired,
  execution_allowed, Reachable, opened, then_step,
}
use flink_sql_go.Managed.Beats.{has_gone}
use flink_sql_go.Managed.Told.{
  IsTold, publish_event-latest, beat-IsTold, receive-IsTold, stop-IsTold, finish-IsTold,
  close-IsTold,
}

unfoldable pub IsInformed : ℕ → Session → Type 0
IsInformed threshold s =
    IsTold threshold s.runner.running s.runner.failures s.runner.slot s.health s.monitored s.beats

new-IsInformed : (threshold : ℕ) → IsInformed threshold new_session
unfolding IsInformed new_session new_runner
new-IsInformed threshold = record {
  counted_failures = λ h. refl;
  stopped = λ h. ground (arith, h);
  told = λ h. ground (arith, h);
  gone_slot = λ h. ground (arith, h);
  degrading_slot = λ h. ground (arith, h);
  expired_only = λ h. ground (arith, h);
  degraded_only = λ h. ground (arith, h);
  done = λ h. ground (arith, h);
  closed_only = λ h. ground (arith, h);
}

beat_runner-IsTold :
    (threshold : ℕ) (over : Bool) (answer : Result BeatError (Unit {0})) (r : Runner) (now : Health)
    (monitored : Bool) (bs : List (Option BeatError))
    → r.running ≡ true
    → IsTold threshold r.running r.failures r.slot now monitored bs
    → IsTold threshold
        (beat answer over r).running
        (beat answer over r).failures
        (beat answer over r).slot
        now
        monitored
        (counted answer over bs)
unfolding beat
beat_runner-IsTold threshold over (ok u) r now monitored bs on g =
    let on_g = subst (λ b. IsTold threshold b r.failures r.slot now monitored bs) on g in
    let event : Event = record { problem = none; failures = 0 } in
    subst (λ slot. IsTold threshold r.running 0 slot now monitored (none ∷ bs))
      (sym (publish_event-latest event r.slot))
      (subst (λ b. IsTold threshold b 0 (some event) now monitored (none ∷ bs)) (sym on)
        (beat-IsTold threshold r.failures r.slot now monitored bs none on_g))
beat_runner-IsTold threshold true (err e) r now monitored bs on g =
    stop-IsTold threshold r.running r.failures r.slot now monitored bs g
beat_runner-IsTold threshold false (err e) r now monitored bs on g =
    let on_g = subst (λ b. IsTold threshold b r.failures r.slot now monitored bs) on g in
    let event : Event = record { problem = some e; failures = r.failures + 1 } in
    subst
      (λ slot. IsTold threshold (not (is_gone e)) (r.failures + 1) slot now monitored (some e ∷ bs))
      (sym (publish_event-latest event r.slot))
      (subst
        (λ n.
          IsTold threshold (not (is_gone e)) (n + 1)
            (some (record { problem = some e; failures = n + 1 })) now monitored (some e ∷ bs))
        (sym (g.counted_failures on))
        (beat-IsTold threshold r.failures r.slot now monitored bs (some e) on_g))

step-IsInformed :
    (threshold : ℕ) (s t : Session)
    → Step threshold s t
    → IsInformed threshold s
    → IsInformed threshold t
unfolding IsInformed
step-IsInformed threshold s t (beats over answer s' on) g =
    beat_runner-IsTold threshold over answer s'.runner s'.health s'.monitored s'.beats on g
step-IsInformed threshold s t (stops s') g =
    stop-IsTold threshold s'.runner.running s'.runner.failures s'.runner.slot s'.health s'.monitored
      s'.beats g
step-IsInformed threshold s t (receives e s' m slot) g =
    subst
      (λ b.
        IsTold threshold s'.runner.running s'.runner.failures none (on_event threshold e s'.health)
          b s'.beats)
      (sym m)
      (receive-IsTold threshold s'.runner.running s'.runner.failures e s'.health s'.beats (
        subst
          (λ b. IsTold threshold s'.runner.running s'.runner.failures (some e) s'.health b s'.beats)
          m
          (subst
            (λ o.
              IsTold threshold s'.runner.running s'.runner.failures o s'.health s'.monitored
                s'.beats)
            slot g)))
step-IsInformed threshold s t (finishes s' r slot) g =
    finish-IsTold threshold s'.runner.running s'.runner.failures s'.runner.slot s'.health
      s'.monitored s'.beats r slot g
step-IsInformed threshold s t (closes s' m) g =
    close-IsTold threshold s'.runner.running s'.runner.failures s'.runner.slot s'.health
      s'.monitored s'.beats m g

-- In every reachable state: the runner counts the failures since the last success, and stops at an expiry; a
-- session is degraded only if the threshold was reached and expired only if a heartbeat said so; and an
-- expiry is in the channel still, or the session is expired or closed.
pub reachable-IsInformed :
    (threshold : ℕ) (s : Session) → Reachable threshold s → IsInformed threshold s
reachable-IsInformed threshold s opened = new-IsInformed threshold
reachable-IsInformed threshold s (then_step s' t r step) =
    step-IsInformed threshold s' s step (reachable-IsInformed threshold s' r)

ended-execution_allowed :
    (now : Health)
    → (is_expired now || is_closed now) ≡ true
    → (execution_allowed now ≡ err session_expired) ⊎ (execution_allowed now ≡ err session_closed)
unfolding execution_allowed
ended-execution_allowed healthy h = cc
ended-execution_allowed degraded h = cc
ended-execution_allowed expired h = inl refl
ended-execution_allowed closed h = inr refl

-- Once the monitor is done, a session of which a heartbeat said that it is gone takes no execution: the error
-- is that it expired, or that it is closed.
pub gone-execution_allowed :
    (threshold : ℕ) (s : Session)
    → Reachable threshold s
    → has_gone s.beats ≡ true
    → s.monitored ≡ false
    → (execution_allowed s.health ≡ err session_expired)
      ⊎ (execution_allowed s.health ≡ err session_closed)
unfolding IsInformed
gone-execution_allowed threshold s r gone m =
    let g = reachable-IsInformed threshold s r in
    ended-execution_allowed s.health
      (ground (arith, g.told gone, g.done m, Option-cases s.runner.slot))
