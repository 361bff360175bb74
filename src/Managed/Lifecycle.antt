-- ===== src/Managed/Lifecycle.antt =====
-- managed_session.go: `OpenManagedSession` with what a failure undoes, and the critical sections of
-- `closeWithContext`.
use flink_sql_go.Prelude.{
  ℕ, Bool, true, false, ◌||◌, List, [], ◌∷◌, ◌++◌, Option, none, some, Bytes, if◌then◌else◌, ℤ, pos,
  negsuc, Result, ok, err, bytes_eq, ◌==◌,
}
use flink_sql_go.Prelude.Members.{remove}

-- Times in nanoseconds.
pub record Wanted : Type 0 where
  pub heartbeat_interval : ℤ
  pub heartbeat_jitter : ℤ
  pub failure_threshold : ℤ
  pub cleanup_timeout : ℤ

pub record Chosen : Type 0 where
  pub heartbeat_interval : ℕ
  pub heartbeat_jitter : ℕ
  pub failure_threshold : ℕ
  pub cleanup_timeout : ℕ

pub data OpenError : Type 0 where
  client_closed bad_jitter not_opened no_heartbeat : OpenError

abbrev pub or_default : ℤ → ℕ → ℕ
or_default (pos n) default = if n == 0 then default else n
or_default (negsuc n) default = default

abbrev pub not_negative : ℤ → Option ℕ
not_negative (pos n) = some n
not_negative (negsuc n) = none

-- The options with their defaults: the interval and the timeout of the configuration, and three failures.
unfoldable pub choose_options : ℕ → ℕ → Wanted → Result OpenError Chosen
choose_options interval timeout w = elim (not_negative w.heartbeat_jitter) [
  | none ↦ err bad_jitter
  | some jitter ↦ ok (record {
    heartbeat_interval = or_default w.heartbeat_interval interval;
    heartbeat_jitter = jitter;
    failure_threshold = or_default w.failure_threshold 3;
    cleanup_timeout = or_default w.cleanup_timeout timeout;
  })
]

-- The part of the client that opening touches. `held` are the sessions that the server holds for it, `managed`
-- those that it has registered.
pub record Owner : Type 0 where
  pub closed : Bool
  pub held : List Bytes
  pub managed : List Bytes

-- A close that the server refuses leaves the session to expire there.
abbrev pub close_there : Bool → Bytes → Owner → Owner
close_there closes handle c = if closes then record c { held = remove handle c.held } else c

abbrev pub with_heartbeat :
    Bool → Bytes → Result OpenError (Unit {0}) → Owner → Owner × Result OpenError Bytes
with_heartbeat closes handle (ok u) c = (c, ok handle)
with_heartbeat closes handle (err e) c =
    (close_there closes handle (record c { managed = remove handle c.managed }), err e)

-- The registration and the start of the heartbeats. `closed_now` says that the client was closed since.
unfoldable pub settle_session :
    Bool → Bool → Bytes → Result OpenError (Unit {0}) → Owner → Owner × Result OpenError Bytes
unfolding remove
settle_session closed_now closes handle heartbeat c =
    if closed_now
    then (close_there closes handle (record c { closed = true }), err client_closed)
    else with_heartbeat closes handle heartbeat (record c { managed = c.managed ++ handle ∷ [] })

unfoldable pub open_managed_session :
    ℕ
    → ℕ
    → Wanted
    → Result OpenError Bytes
    → Bool
    → Bool
    → Result OpenError (Unit {0})
    → Owner
    → Owner × Result OpenError Bytes
unfolding choose_options settle_session
open_managed_session interval timeout w opened closed_now closes heartbeat c =
    if c.closed then (c, err client_closed) else elim (choose_options interval timeout w) [
      | err e ↦ (c, err e)
      | ok chosen ↦ elim opened [
        | err e ↦ (c, err e)
        | ok handle ↦
            settle_session closed_now closes handle heartbeat
              (record c { held = c.held ++ handle ∷ [] })
      ]
    ]

-- The state behind `closeMu`.
pub record Closing : Type 0 where
  pub calling : Bool
  pub complete : Bool

pub data CloseEntry : Type 0 where
  is_complete joins calls : CloseEntry

unfoldable pub begin_managed_close : Closing → Closing × CloseEntry
begin_managed_close c =
    if c.complete
    then (c, is_complete)
    else if c.calling
    then (c, joins)
    else (record c { calling = true }, calls)

-- What the request of the session's close came to.
unfoldable pub finish_managed_close : Bool → Closing → Closing
finish_managed_close succeeded c = record { calling = false; complete = c.complete || succeeded }
