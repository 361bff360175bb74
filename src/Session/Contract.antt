-- ===== src/Session/Contract.antt =====
-- What closing and opening a session promise to later calls.
use flink_sql_go.Prelude.{
  ◌≡◌, refl, sym, ◌∙◌, subst, inl, inr, true, false, ◌&&◌, not, List, [], ◌∷◌, ◌++◌, Bytes,
  bytes_eq, bytes_beq_iff, ◌=?◌, Bool-cases, arith, Result, Result-cases, ok, err, some,
}
use flink_sql_go.Prelude.Assoc.{insert, delete, has}
use flink_sql_go.Prelude.Members.{member}
use flink_sql_go.Session.Handle.{validate_opaque_handle}
use flink_sql_go.Session.State.{
  Sessions, SessionRecord, Error, Failure, trim_closed, remember_closed, forget_closed,
  store_session, open_session, begin_close, closed_before, owner, waits, refused, Entry,
  claim_close, stop_heartbeat, settle_close, finish_with, finish_close, close_session,
  close_entered,
}
use flink_sql_go.Session.Cache.{
  IsValid, has-insert, has-delete, has-remember, remember_closed-IsValid, forget_closed-IsValid,
}

first_remembered :
    (h : Bytes) (c : Sessions)
    → c.closed_order ≡ []
    → has h c.closed ≡ false
    → has h (remember_closed h c).closed ≡ true
unfolding remember_closed
first_remembered h c e fresh = rw fresh (
    subst
      (λ order.
        has h
          (trim_closed
            (record c { closed = insert h tt c.closed; closed_order = order ++ h ∷ [] })).closed
        ≡ true)
      (sym e) (has-insert h h tt c.closed ∙ ground (arith, bytes_beq_iff h h)))

known_remembered :
    (h : Bytes) (c : Sessions) → has h c.closed ≡ true → has h (remember_closed h c).closed ≡ true
unfolding remember_closed
known_remembered h c known = rw known known

-- A handle that is remembered is in the memory, also when the oldest one has to go for it.
pub has-remember_self :
    (h : Bytes) (c : Sessions) → IsValid c → has h (remember_closed h c).closed ≡ true
unfolding IsValid member
has-remember_self h c v = elim (Bool-cases (has h c.closed)) [
  | inl known ↦ known_remembered h c known
  | inr fresh ↦ by_order c.closed_order refl fresh
]
  where
    absent :
        (oldest : Bytes) (rest : List Bytes)
        → c.closed_order ≡ oldest ∷ rest
        → has h c.closed ≡ false
        → member h (oldest ∷ rest) ≡ false
    absent oldest rest e fresh = subst (λ order. member h order ≡ false) e (sym (v.agree h) ∙ fresh)

    by_order :
        (order : List Bytes)
        → c.closed_order ≡ order
        → has h c.closed ≡ false
        → has h (remember_closed h c).closed ≡ true
    by_order [] e fresh = first_remembered h c e fresh
    by_order (oldest ∷ rest) e fresh = ground (
      arith,
      has-remember h h c oldest rest fresh e,
      absent oldest rest e fresh,
      bytes_beq_iff oldest h,
      bytes_beq_iff h h,
    )

not-has_forget :
    (h j : Bytes) (c : Sessions)
    → has j (forget_closed h c).closed ≡ (has j c.closed && not (h =? j))
unfolding forget_closed
not-has_forget h j c = elim (Bool-cases (has h c.closed)) [
  | inl known ↦ rw known (has-delete h j c.closed)
  | inr fresh ↦ rw fresh (ground (arith, bytes_beq_iff h j))
]

claim-IsValid : (h : Bytes) (c : Sessions) → IsValid c → IsValid (claim_close h c).0
unfolding IsValid
claim-IsValid h c v = ground arith

pub begin_close-IsValid : (h : Bytes) (c : Sessions) → IsValid c → IsValid (begin_close h c).0
unfolding begin_close
begin_close-IsValid h c v = elim (Result-cases (validate_opaque_handle h)) [
  | inl (e, bad) ↦ rw (bad, begin_close) v
  | inr (u, good) ↦ rw (good, begin_close) (claim-IsValid h c v)
]

pub finish_with-IsValid :
    (h : Bytes) (r : Result Failure (Unit {0})) (c : Sessions)
    → IsValid c
    → IsValid (finish_with h r c)
unfolding finish_with IsValid
finish_with-IsValid h (ok u) c v =
    remember_closed-IsValid h (record c { close_calls = delete h c.close_calls }) v
finish_with-IsValid h (err e) c v = v

pub stop_heartbeat-IsValid : (h : Bytes) (c : Sessions) → IsValid c → IsValid (stop_heartbeat h c)
unfolding IsValid
stop_heartbeat-IsValid h c v = ground arith

close_entered-IsValid :
    (h : Bytes) (answer : Result Failure (Unit {0})) (c : Sessions) (e : Entry)
    → IsValid c
    → IsValid (close_entered h answer (c, e)).0
unfolding close_entered
close_entered-IsValid h answer c (refused e) v = v
close_entered-IsValid h answer c closed_before v = v
close_entered-IsValid h answer c waits v = v
close_entered-IsValid h answer c owner v =
    finish_with-IsValid h (settle_close answer) (stop_heartbeat h c) (stop_heartbeat-IsValid h c v)

store_session-IsValid :
    (h : Bytes) (r : SessionRecord) (c : Sessions) → IsValid c → IsValid (store_session h r c)
unfolding store_session IsValid
store_session-IsValid h r c v =
    forget_closed-IsValid h (record c { sessions = insert h r c.sessions }) v

pub open_session-IsValid :
    (response : Result Error Bytes) (r : SessionRecord) (c : Sessions)
    → IsValid c
    → IsValid (open_session response r c).0
unfolding open_session
open_session-IsValid (err e) r c v = v
open_session-IsValid (ok []) r c v = v
open_session-IsValid (ok (b ∷ bs)) r c v = elim (Result-cases (validate_opaque_handle (b ∷ bs))) [
  | inl (e, bad) ↦ rw (bad, open_session) v
  | inr (u, good) ↦ rw (good, open_session) (store_session-IsValid (b ∷ bs) r c v)
]

-- Every operation keeps the memory of closed sessions valid: the set and the order agree, no handle
-- is twice in the order, and there are at most 1024.
pub sessions-IsValid :
    (c : Sessions) (h : Bytes) (r : SessionRecord) (response : Result Error Bytes)
    (answer : Result Failure (Unit {0}))
    → IsValid c
    → IsValid (open_session response r c).0
      × IsValid (begin_close h c).0
      × IsValid (finish_close h answer c).0
      × IsValid (close_session h answer c).0
unfolding close_session finish_close
sessions-IsValid c h r response answer v = (
  open_session-IsValid response r c v,
  begin_close-IsValid h c v,
  finish_with-IsValid h (settle_close answer) c v,
  close_entered-IsValid h answer (begin_close h c).0 (begin_close h c).1
      (begin_close-IsValid h c v),
)

finished_closed :
    (h : Bytes) (r : Result Failure (Unit {0})) (c : Sessions)
    → IsValid c
    → r ≡ ok tt
    → has h (finish_with h r c).closed ≡ true
unfolding finish_with IsValid
finished_closed h (ok u) c v e =
    has-remember_self h (record c { close_calls = delete h c.close_calls }) v
finished_closed h (err x) c v e = cc

begun_closed :
    (h : Bytes) (c : Sessions)
    → validate_opaque_handle h ≡ ok tt
    → has h c.closed ≡ true
    → begin_close h c ≡ (c, closed_before)
unfolding begin_close
begun_closed h c good known = rw (good, known, begin_close) refl

-- Once a close call has succeeded, which a server without the session counts as, every further call
-- for the handle returns success at once and changes nothing, whatever the server would answer.
close_session-again :
    (h : Bytes) (c : Sessions) (answer other : Result Failure (Unit {0}))
    → IsValid c
    → validate_opaque_handle h ≡ ok tt
    → settle_close answer ≡ ok tt
    → let after = (finish_close h answer c).0 in close_session h other after ≡ (after, some (ok tt))
unfolding close_session finish_close close_entered
close_session-again h c answer other v good e =
    rw
      (begun_closed h (finish_with h (settle_close answer) c) good
        (finished_closed h (settle_close answer) c v e))
      refl

-- A session that was opened is not remembered as closed, so the next call to close its handle asks
-- the server, where no call for it is under way; the memory of the other handles is as it was.
store_session-reopen :
    (h j : Bytes) (r : SessionRecord) (c : Sessions)
    → has j (store_session h r c).closed ≡ (has j c.closed && not (h =? j))
unfolding store_session
store_session-reopen h j r c = not-has_forget h j (record c { sessions = insert h r c.sessions })
