-- ===== src/Managed/Told.antt =====
-- managed_session.go: how the health of a session and its heartbeats are related, change by change.
use flink_sql_go.Prelude.{
  ℕ, ◌≡◌, refl, sym, subst, Bool, true, false, not, ◌&&◌, ◌||◌, List, ◌∷◌, Option, none, some,
  is_some, arith,
}
use flink_sql_go.Managed.Heartbeat.{BeatError, Event, publish_event}
use flink_sql_go.Managed.Health.{Health, closed, is_closed, is_degraded, is_expired, on_event}
use flink_sql_go.Managed.Beats.{
  is_gone_beat, has_gone, trailing, has_reached, is_gone_slot, is_degrading, on_event-IsRead,
}

-- The parts of a session, related.
pub record IsTold (threshold : ℕ) (running : Bool) (failures : ℕ) (slot : Option Event)
    (now : Health) (monitored : Bool) (bs : List (Option BeatError)) : Type 0 where
  pub counted_failures : running ≡ true → failures ≡ trailing bs
  pub stopped : has_gone bs ≡ true → running ≡ false
  pub told :
      has_gone bs ≡ true
      → (is_gone_slot slot || not (is_some slot) && (is_expired now || is_closed now)) ≡ true
  pub gone_slot : is_gone_slot slot ≡ true → has_gone bs ≡ true
  pub degrading_slot : is_degrading threshold slot ≡ true → has_reached threshold bs ≡ true
  pub expired_only : is_expired now ≡ true → has_gone bs ≡ true
  pub degraded_only : is_degraded now ≡ true → has_reached threshold bs ≡ true
  pub done : monitored ≡ false → (running || is_some slot) ≡ false
  pub closed_only : is_closed now ≡ true → monitored ≡ false

pub publish_event-latest : (e : Event) (slot : Option Event) → publish_event e slot ≡ some e
unfolding publish_event
publish_event-latest e none = refl
publish_event-latest e (some old) = refl

-- A heartbeat that counts, with the event that it leaves in the channel.
pub beat-IsTold :
    (threshold : ℕ) (failures : ℕ) (slot : Option Event) (now : Health) (monitored : Bool)
    (bs : List (Option BeatError)) (b : Option BeatError)
    → IsTold threshold true failures slot now monitored bs
    → IsTold threshold
        (not (is_gone_beat b))
        (trailing (b ∷ bs))
        (some (record { problem = b; failures = trailing (b ∷ bs) }))
        now
        monitored
        (b ∷ bs)
beat-IsTold threshold failures slot now monitored bs none g = record {
  counted_failures = λ h. refl;
  stopped = λ h. ground (arith, h, g.stopped);
  told = λ h. ground (arith, h, g.stopped);
  gone_slot = λ h. ground (arith, h);
  degrading_slot = λ h. ground (arith, h);
  expired_only = λ h. g.expired_only h;
  degraded_only = λ h. g.degraded_only h;
  done = λ h. ground (arith, h, g.done);
  closed_only = λ h. g.closed_only h;
}
beat-IsTold threshold failures slot now monitored bs (some e) g = record {
  counted_failures = λ h. refl;
  stopped = λ h. ground (arith, h, g.stopped);
  told = λ h. ground (arith, h, g.stopped);
  gone_slot = λ h. ground (arith, h);
  degrading_slot = λ h. ground (arith, h);
  expired_only = λ h. ground (arith, g.expired_only h);
  degraded_only = λ h. ground (arith, g.degraded_only h);
  done = λ h. ground (arith, h, g.done);
  closed_only = λ h. g.closed_only h;
}

pub receive-IsTold :
    (threshold : ℕ) (running : Bool) (failures : ℕ) (e : Event) (now : Health)
    (bs : List (Option BeatError))
    → IsTold threshold running failures (some e) now true bs
    → IsTold threshold running failures none (on_event threshold e now) true bs
receive-IsTold threshold running failures e now bs g =
    let read = on_event-IsRead threshold e.problem e.failures now in
    record {
      counted_failures = g.counted_failures;
      stopped = g.stopped;
      told = λ h. ground (arith, h, g.told, read.ends);
      gone_slot = λ h. ground (arith, h);
      degrading_slot = λ h. ground (arith, h);
      expired_only = λ h. ground (arith, read.expires h, g.gone_slot, g.expired_only);
      degraded_only = λ h. ground (arith, read.degrades h, g.degrading_slot, g.degraded_only);
      done = λ h. ground (arith, h);
      closed_only = λ h. ground (arith, h, read.closes_not, g.closed_only);
    }

pub stop-IsTold :
    (threshold : ℕ) (running : Bool) (failures : ℕ) (slot : Option Event) (now : Health)
    (monitored : Bool) (bs : List (Option BeatError))
    → IsTold threshold running failures slot now monitored bs
    → IsTold threshold false failures slot now monitored bs
stop-IsTold threshold running failures slot now monitored bs g = record {
  counted_failures = λ h. ground (arith, h);
  stopped = λ h. refl;
  told = g.told;
  gone_slot = g.gone_slot;
  degrading_slot = g.degrading_slot;
  expired_only = g.expired_only;
  degraded_only = g.degraded_only;
  done = λ h. ground (arith, g.done h);
  closed_only = g.closed_only;
}

pub finish-IsTold :
    (threshold : ℕ) (running : Bool) (failures : ℕ) (slot : Option Event) (now : Health)
    (monitored : Bool) (bs : List (Option BeatError))
    → running ≡ false
    → slot ≡ none
    → IsTold threshold running failures slot now monitored bs
    → IsTold threshold running failures slot now false bs
finish-IsTold threshold running failures slot now monitored bs r e g = record {
  counted_failures = g.counted_failures;
  stopped = g.stopped;
  told = g.told;
  gone_slot = g.gone_slot;
  degrading_slot = g.degrading_slot;
  expired_only = g.expired_only;
  degraded_only = g.degraded_only;
  done = λ h. subst (λ o. (running || is_some o) ≡ false) (sym e) (ground (arith, r));
  closed_only = λ h. refl;
}

pub close-IsTold :
    (threshold : ℕ) (running : Bool) (failures : ℕ) (slot : Option Event) (now : Health)
    (monitored : Bool) (bs : List (Option BeatError))
    → monitored ≡ false
    → IsTold threshold running failures slot now monitored bs
    → IsTold threshold running failures slot closed monitored bs
close-IsTold threshold running failures slot now monitored bs m g = record {
  counted_failures = g.counted_failures;
  stopped = g.stopped;
  told = λ h. ground (arith, g.done m);
  gone_slot = g.gone_slot;
  degrading_slot = g.degrading_slot;
  expired_only = λ h. cc;
  degraded_only = λ h. cc;
  done = g.done;
  closed_only = λ h. m;
}
