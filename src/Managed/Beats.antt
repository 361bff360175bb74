-- ===== src/Managed/Beats.antt =====
-- heartbeat.go and managed_session.go: what the beats of a session, and an event about them, say of its health.
use flink_sql_go.Prelude.{
  ℕ, ◌+◌, ◌≡◌, refl, Bool, true, false, ◌&&◌, ◌||◌, List, [], ◌∷◌, Option, none, some, is_some, leb,
  if◌then◌else◌, Bool-cases, inl, inr, arith,
}
use flink_sql_go.Managed.Heartbeat.{BeatError, session_gone, other_error, Event, is_gone}
use flink_sql_go.Managed.Health.{
  Health, healthy, degraded, expired, closed, is_closed, is_degraded, is_expired, set_health,
  on_event,
}

abbrev pub is_gone_beat : Option BeatError → Bool
is_gone_beat none = false
is_gone_beat (some e) = is_gone e

abbrev pub has_gone : List (Option BeatError) → Bool
has_gone [] = false
has_gone (b ∷ bs) = is_gone_beat b || has_gone bs

-- The failures since the last success.
abbrev pub trailing : List (Option BeatError) → ℕ
trailing [] = 0
trailing (none ∷ bs) = 0
trailing (some e ∷ bs) = trailing bs + 1

-- Whether that many failures in a row have ever come.
abbrev pub has_reached : ℕ → List (Option BeatError) → Bool
has_reached threshold [] = false
has_reached threshold (none ∷ bs) = has_reached threshold bs
has_reached threshold (some e ∷ bs) = leb threshold (trailing bs + 1) || has_reached threshold bs

abbrev pub is_gone_slot : Option Event → Bool
is_gone_slot none = false
is_gone_slot (some e) = is_gone_beat e.problem

abbrev pub is_degrading : ℕ → Option Event → Bool
is_degrading threshold none = false
is_degrading threshold (some e) = is_some e.problem && leb threshold e.failures

-- What an event makes of the health, as the monitor reads it.
pub record IsRead (is_end is_many : Bool) (before after : Health) : Type 0 where
  pub ends : is_end ≡ true → (is_expired after || is_closed after) ≡ true
  pub expires : is_expired after ≡ true → (is_end || is_expired before) ≡ true
  pub degrades : is_degraded after ≡ true → (is_many || is_degraded before) ≡ true
  pub closes_not : is_closed after ≡ is_closed before

same-IsRead : (is_many : Bool) (h : Health) → IsRead false is_many h h
same-IsRead is_many h = record {
  ends = λ e. cc;
  expires = λ e. e;
  degrades = λ e. ground (arith, e);
  closes_not = refl;
}

expired-IsRead : (is_many : Bool) (h : Health) → IsRead true is_many h (set_health expired h)
unfolding set_health
expired-IsRead is_many healthy = record {
  ends = λ e. refl;
  expires = λ e. refl;
  degrades = λ e. cc;
  closes_not = refl;
}
expired-IsRead is_many degraded = record {
  ends = λ e. refl;
  expires = λ e. refl;
  degrades = λ e. cc;
  closes_not = refl;
}
expired-IsRead is_many expired = record {
  ends = λ e. refl;
  expires = λ e. refl;
  degrades = λ e. cc;
  closes_not = refl;
}
expired-IsRead is_many closed = record {
  ends = λ e. refl;
  expires = λ e. refl;
  degrades = λ e. cc;
  closes_not = refl;
}

degraded-IsRead : (h : Health) → IsRead false true h (set_health degraded h)
unfolding set_health
degraded-IsRead healthy = record {
  ends = λ e. cc;
  expires = λ e. cc;
  degrades = λ e. refl;
  closes_not = refl;
}
degraded-IsRead degraded = record {
  ends = λ e. cc;
  expires = λ e. cc;
  degrades = λ e. refl;
  closes_not = refl;
}
degraded-IsRead expired = record {
  ends = λ e. cc;
  expires = λ e. cc;
  degrades = λ e. refl;
  closes_not = refl;
}
degraded-IsRead closed = record {
  ends = λ e. cc;
  expires = λ e. cc;
  degrades = λ e. cc;
  closes_not = refl;
}

success-IsRead :
    (h : Health) → IsRead false false h (if is_degraded h then set_health healthy h else h)
unfolding set_health
success-IsRead healthy = same-IsRead false healthy
success-IsRead degraded = record {
  ends = λ e. cc;
  expires = λ e. cc;
  degrades = λ e. cc;
  closes_not = refl;
}
success-IsRead expired = same-IsRead false expired
success-IsRead closed = same-IsRead false closed

pub on_event-IsRead :
    (threshold : ℕ) (p : Option BeatError) (n : ℕ) (h : Health)
    → IsRead
        (is_gone_beat p)
        (is_some p && leb threshold n)
        h
        (on_event threshold (record { problem = p; failures = n }) h)
unfolding on_event
on_event-IsRead threshold none n h = success-IsRead h
on_event-IsRead threshold (some session_gone) n h = expired-IsRead (leb threshold n) h
on_event-IsRead threshold (some other_error) n h = elim (Bool-cases (leb threshold n)) [
  | inl many ↦ rw many (degraded-IsRead h)
  | inr few ↦ rw few (same-IsRead false h)
]
