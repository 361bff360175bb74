-- ===== src/Session/Examples.antt =====
-- Tests of the session functions on small inputs, and their theorems at concrete ones.
use flink_sql_go.Prelude.{◌≡◌, refl, true, false, [], ◌∷◌, ◌++◌, Bytes, bytes_eq, codes, ok, err}
use flink_sql_go.Prelude.Assoc.{insert, delete, lookup}
use flink_sql_go.Prelude.Members.{member, is_distinct}
use flink_sql_go.Go.Space.{trim_space}
use flink_sql_go.Session.Handle.{validate_opaque_handle, mask_handle, control_character}
use flink_sql_go.Session.State.{
  Sessions, SessionRecord, session_not_found, other_failure, remember_closed, forget_closed,
  store_session, open_session, begin_close, owner, finish_close, close_session, close_entered,
}
use flink_sql_go.Session.Cache.{IsValid}
use flink_sql_go.Session.Contract.{sessions-IsValid}
use flink_sql_go.Session.Flight.{
  World, Reachable, new_sessions, starts, steps, begins, Reachable-single_flight,
}

program : Unit {0}
unfolding trim_space lookup insert delete member is_distinct validate_opaque_handle mask_handle
    remember_closed forget_closed store_session open_session begin_close finish_close close_session
    close_entered
program = tt

handle : Bytes
handle = codes "session-12345"

validate_example : validate_opaque_handle (9 ∷ codes "a" ++ 0x7F ∷ []) ≡ err control_character
unfolding program
validate_example = refl

mask_example : mask_handle handle ≡ codes "sess...2345"
unfolding program handle
mask_example = refl

properties : SessionRecord
properties = record { name = codes "n"; properties = []; created_at = 5 }

opened : Sessions
opened = (open_session (ok handle) properties new_sessions).0

closed : Sessions
closed = (finish_close handle (err session_not_found) (begin_close handle opened).0).0

closed_example : closed.closed_order ≡ handle ∷ []
unfolding program closed opened handle properties
closed_example = refl

new-IsValid : IsValid new_sessions
new-IsValid = (Reachable-single_flight starts).0

sessions-IsValid_example :
    IsValid (open_session (ok handle) properties new_sessions).0
    × IsValid (begin_close handle new_sessions).0
    × IsValid (finish_close handle (err other_failure) new_sessions).0
    × IsValid (close_session handle (err other_failure) new_sessions).0
sessions-IsValid_example =
    sessions-IsValid new_sessions handle properties (ok handle) (err other_failure) new-IsValid

busy : World
busy = record { state = (begin_close handle new_sessions).0; owners = handle ∷ [] }

busy-Reachable : Reachable busy
unfolding program handle busy
busy-Reachable = steps starts (begins handle)

Reachable-single_flight_example :
    IsValid busy.state
    × (is_distinct busy.owners ≡ true)
    × ((h : Bytes) → (begin_close h busy.state).1 ≡ owner → member h busy.owners ≡ false)
Reachable-single_flight_example = Reachable-single_flight busy-Reachable
