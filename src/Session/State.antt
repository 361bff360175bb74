-- ===== src/Session/State.antt =====
-- The part of the client that stateMu guards for sessions. Each critical section is one function;
-- what runs between two sections of a call may be sections of other calls.
use flink_sql_go.Prelude.{
  ℕ, Bool, true, List, [], ◌∷◌, ◌++◌, Option, none, some, Bytes, bytes_eq, leb, length,
  if◌then◌else◌, Result, ok, err,
}
use flink_sql_go.Prelude.Assoc.{insert, delete, has, lookup}
use flink_sql_go.Prelude.Members.{remove}
use flink_sql_go.Session.Handle.{HandleError, validate_opaque_handle}

pub record SessionRecord : Type 0 where
  pub name : Bytes
  pub properties : List (Bytes × Bytes)
  pub created_at : ℕ

-- `closed` and `close_calls` have their handles as keys. A runner in `heartbeats` has a flag: it was told
-- to stop.
pub record Sessions : Type 0 where
  pub sessions : List (Bytes × SessionRecord)
  pub closed : List (Bytes × Unit {0})
  pub closed_order : List Bytes
  pub close_calls : List (Bytes × Unit {0})
  pub heartbeats : List (Bytes × Bool)

pub data Failure : Type 0 where
  session_not_found session_expired other_failure : Failure

pub data Error : Type 0 where
  bad_handle : HandleError → Error
  no_session_handle : Error
  bad_response : HandleError → Error
  failed : Failure → Error

abbrev pub max_remembered : ℕ
max_remembered = 1024

abbrev pub drop_oldest : List Bytes → Sessions → Sessions
drop_oldest [] c = c
drop_oldest (oldest ∷ rest) c = record c { closed_order = rest; closed = delete oldest c.closed }

abbrev pub trim_closed : Sessions → Sessions
trim_closed c =
    if leb (length c.closed_order) max_remembered then c else drop_oldest c.closed_order c

unfoldable pub remember_closed : Bytes → Sessions → Sessions
unfolding insert delete lookup
remember_closed handle c =
    if has handle c.closed
    then c
    else trim_closed (record c {
      closed = insert handle tt c.closed;
      closed_order = c.closed_order ++ handle ∷ [];
    })

unfoldable pub forget_closed : Bytes → Sessions → Sessions
unfolding delete lookup remove
forget_closed handle c =
    if has handle c.closed
    then record c { closed = delete handle c.closed; closed_order = remove handle c.closed_order }
    else c

-- The last section of `OpenSession`, for the handle of the response.
unfoldable pub store_session : Bytes → SessionRecord → Sessions → Sessions
unfolding forget_closed
store_session handle r c = forget_closed handle (record c { sessions = insert handle r c.sessions })

-- `OpenSession` behind the compatibility check and the POST request.
unfoldable pub open_session :
    Result Error Bytes → SessionRecord → Sessions → Sessions × Result Error Bytes
unfolding store_session
open_session (err e) r c = (c, err e)
open_session (ok []) r c = (c, err no_session_handle)
open_session (ok (b ∷ bs)) r c = elim (validate_opaque_handle (b ∷ bs)) [
  | err e ↦ (c, err (bad_response e))
  | ok u ↦ (store_session (b ∷ bs) r c, ok (b ∷ bs))
]

-- What a call of `CloseSession` finds: an answer at once, another call to wait for, or its own turn.
pub data Entry : Type 0 where
  refused : HandleError → Entry
  closed_before waits owner : Entry

abbrev pub stop_heartbeat : Bytes → Sessions → Sessions
stop_heartbeat handle c =
    if has handle c.heartbeats then record c { heartbeats = insert handle true c.heartbeats } else c

abbrev pub claim_close : Bytes → Sessions → Sessions × Entry
claim_close handle c =
    if has handle c.closed
    then (c, closed_before)
    else if has handle c.close_calls
    then (c, waits)
    else (record c { close_calls = insert handle tt c.close_calls }, owner)

unfoldable pub begin_close : Bytes → Sessions → Sessions × Entry
unfolding insert lookup
begin_close handle c = elim (validate_opaque_handle handle) [
  | err e ↦ (c, refused e)
  | ok u ↦ claim_close handle c
]

-- The result of the DELETE request: a session that the server does not have is closed.
abbrev pub settle_close : Result Failure (Unit {0}) → Result Failure (Unit {0})
settle_close (ok u) = ok u
settle_close (err session_not_found) = ok tt
settle_close (err session_expired) = ok tt
settle_close (err other_failure) = err other_failure

unfoldable pub finish_with : Bytes → Result Failure (Unit {0}) → Sessions → Sessions
unfolding remember_closed delete
finish_with handle (ok u) c =
    let kept = remember_closed handle (record c { close_calls = delete handle c.close_calls }) in
    record kept { sessions = delete handle kept.sessions }
finish_with handle (err e) c = record c { close_calls = delete handle c.close_calls }

-- The owner's last section, given what the request answered.
unfoldable pub finish_close :
    Bytes → Result Failure (Unit {0}) → Sessions → Sessions × Result Failure (Unit {0})
unfolding finish_with
finish_close handle answer c = (finish_with handle (settle_close answer) c, settle_close answer)

abbrev as_close_result : Result Failure (Unit {0}) → Result Error (Unit {0})
as_close_result (ok u) = ok tt
as_close_result (err e) = err (failed e)

unfoldable pub close_entered :
    Bytes
    → Result Failure (Unit {0})
    → Sessions × Entry
    → Sessions × Option (Result Error (Unit {0}))
unfolding finish_close insert lookup
close_entered handle answer (c, refused e) = (c, some (err (bad_handle e)))
close_entered handle answer (c, closed_before) = (c, some (ok tt))
close_entered handle answer (c, waits) = (c, none)
close_entered handle answer (c, owner) =
    let (c', r) = finish_close handle answer (stop_heartbeat handle c) in
    (c', some (as_close_result r))

-- A call of `CloseSession` that no other call interrupts: `none` if it has to wait. A failed
-- compatibility check counts as a failed answer.
unfoldable pub close_session :
    Bytes → Result Failure (Unit {0}) → Sessions → Sessions × Option (Result Error (Unit {0}))
unfolding begin_close close_entered
close_session handle answer c = close_entered handle answer (begin_close handle c)
