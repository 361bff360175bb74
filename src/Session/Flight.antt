-- ===== src/Session/Flight.antt =====
-- Concurrent calls of `CloseSession`, `OpenSession` and the heartbeat runner's stop, one critical
-- section a step: at most one close request for a handle is under way.
use flink_sql_go.Prelude.{
  ◌≡◌, refl, sym, subst, ◌∙◌, true, false, List, [], ◌∷◌, ◌++◌, Bytes, bytes_eq, arith, Bool-cases,
  inl, inr, Result, Result-cases, ok, err,
}
use flink_sql_go.Prelude.Assoc.{delete, has, lookup}
use flink_sql_go.Prelude.Members.{
  member, remove, is_distinct, member-append, distinct-append, member-remove, distinct-remove,
}
use flink_sql_go.Session.Handle.{validate_opaque_handle}
use flink_sql_go.Session.State.{
  Sessions, SessionRecord, Error, Failure, Entry, owner, open_session, store_session, forget_closed,
  remember_closed, begin_close, claim_close, stop_heartbeat, finish_close, finish_with,
  settle_close,
}
use flink_sql_go.Session.Cache.{IsValid, has-insert, has-delete}
use flink_sql_go.Session.Contract.{
  open_session-IsValid, begin_close-IsValid, finish_with-IsValid, stop_heartbeat-IsValid,
}

-- The client's sessions, and the handles whose owner has yet to run its last section.
pub record World : Type 0 where
  pub state : Sessions
  pub owners : List Bytes

abbrev pub add_owner : Bytes → List Bytes → Entry → List Bytes
add_owner h owners owner = owners ++ h ∷ []
add_owner h owners _ = owners

pub data Step : World → World → Type 0 where
  opens :
      {w : World} (response : Result Error Bytes) (r : SessionRecord)
      → Step w (record w { state = (open_session response r w.state).0 })
  begins :
      {w : World} (h : Bytes)
      → Step w (record {
        state = (begin_close h w.state).0;
        owners = add_owner h w.owners (begin_close h w.state).1;
      })
  stops : {w : World} (h : Bytes) → Step w (record w { state = stop_heartbeat h w.state })
  finishes :
      {w : World} (h : Bytes) (answer : Result Failure (Unit {0}))
      → member h w.owners ≡ true
      → Step w (record { state = (finish_close h answer w.state).0; owners = remove h w.owners })

abbrev pub new_sessions : Sessions
new_sessions = record {
  sessions = [];
  closed = [];
  closed_order = [];
  close_calls = [];
  heartbeats = [];
}

pub data Reachable : World → Type 0 where
  starts : Reachable (record { state = new_sessions; owners = [] })
  steps : {v w : World} → Reachable v → Step v w → Reachable w

-- The map of close calls has exactly the owners, none of them twice.
record IsSingle (calls : List (Bytes × Unit {0})) (owners : List Bytes) : Type 0 where
  matched : (h : Bytes) → has h calls ≡ member h owners
  distinct : is_distinct owners ≡ true

calls_open_session :
    (response : Result Error Bytes) (r : SessionRecord) (c : Sessions)
    → (open_session response r c).0.close_calls ≡ c.close_calls
unfolding open_session store_session forget_closed
calls_open_session (err e) r c = refl
calls_open_session (ok []) r c = refl
calls_open_session (ok (b ∷ bs)) r c =
    ground (arith, Result-cases (validate_opaque_handle (b ∷ bs)))

claim-IsSingle :
    (h : Bytes) (c : Sessions) (owners : List Bytes)
    → IsSingle c.close_calls owners
    → IsSingle (claim_close h c).0.close_calls (add_owner h owners (claim_close h c).1)
unfolding member
claim-IsSingle h c owners s = elim (Bool-cases (has h c.closed)) [
  | inl known ↦ rw known s
  | inr fresh ↦ elim (Bool-cases (has h c.close_calls)) [
    | inl busy ↦ rw (fresh, busy) s
    | inr idle ↦
        rw (fresh, idle)
          (record {
            matched = λ j.
                has-insert h j tt c.close_calls
                ∙ ground (arith, s.matched j, member-append j owners (h ∷ []));
            distinct = distinct-append owners h s.distinct (sym (s.matched h) ∙ idle);
          })
  ]
]

begin_close-IsSingle :
    (h : Bytes) (c : Sessions) (owners : List Bytes)
    → IsSingle c.close_calls owners
    → IsSingle (begin_close h c).0.close_calls (add_owner h owners (begin_close h c).1)
unfolding begin_close
begin_close-IsSingle h c owners s = elim (Result-cases (validate_opaque_handle h)) [
  | inl (e, bad) ↦ rw (bad, begin_close) s
  | inr (u, good) ↦ rw (good, begin_close) (claim-IsSingle h c owners s)
]

calls_finish :
    (h : Bytes) (r : Result Failure (Unit {0})) (c : Sessions)
    → (finish_with h r c).close_calls ≡ delete h c.close_calls
unfolding finish_with remember_closed
calls_finish h (ok u) c = ground arith
calls_finish h (err e) c = refl

finish-IsSingle :
    (h : Bytes) (r : Result Failure (Unit {0})) (c : Sessions) (owners : List Bytes)
    → IsSingle c.close_calls owners
    → IsSingle (finish_with h r c).close_calls (remove h owners)
finish-IsSingle h r c owners s =
    subst (λ calls. IsSingle calls (remove h owners)) (sym (calls_finish h r c))
      (record {
        matched = λ j.
            has-delete h j c.close_calls
            ∙ ground (arith, s.matched j, member-remove h j owners s.distinct);
        distinct = distinct-remove h owners s.distinct;
      })

stop-IsSingle :
    (h : Bytes) (c : Sessions) (owners : List Bytes)
    → IsSingle c.close_calls owners
    → IsSingle (stop_heartbeat h c).close_calls owners
stop-IsSingle h c owners s = elim (Bool-cases (has h c.heartbeats)) [
  | inl known ↦ rw known s
  | inr absent ↦ rw absent s
]

record IsGood (w : World) : Type 0 where
  valid : IsValid w.state
  single : IsSingle w.state.close_calls w.owners

Step-IsGood : {v w : World} → Step v w → IsGood v → IsGood w
unfolding finish_close
Step-IsGood {v = v} (opens response r) g = record {
  valid = open_session-IsValid response r v.state g.valid;
  single =
      subst (λ calls. IsSingle calls v.owners) (sym (calls_open_session response r v.state))
        g.single;
}
Step-IsGood {v = v} (begins h) g = record {
  valid = begin_close-IsValid h v.state g.valid;
  single = begin_close-IsSingle h v.state v.owners g.single;
}
Step-IsGood {v = v} (stops h) g = record {
  valid = stop_heartbeat-IsValid h v.state g.valid;
  single = stop-IsSingle h v.state v.owners g.single;
}
Step-IsGood {v = v} (finishes h answer there) g = record {
  valid = finish_with-IsValid h (settle_close answer) v.state g.valid;
  single = finish-IsSingle h (settle_close answer) v.state v.owners g.single;
}

Reachable-IsGood : {w : World} → Reachable w → IsGood w
unfolding IsValid member is_distinct lookup
Reachable-IsGood starts = record {
  valid = record { agree = λ h. refl; distinct = refl; bounded = omega arith };
  single = record { matched = λ h. refl; distinct = refl };
}
Reachable-IsGood (steps r s) = Step-IsGood s (Reachable-IsGood r)

owner_idle : (h : Bytes) (c : Sessions) → (begin_close h c).1 ≡ owner → has h c.close_calls ≡ false
unfolding begin_close
owner_idle h c e = ground (arith, Result-cases (validate_opaque_handle h))

-- Whatever the interleaving: the memory of closed sessions is valid, no handle has two calls that run
-- its close request, and a call gets its turn only when no other call for the handle has it.
pub Reachable-single_flight :
    {w : World}
    → Reachable w
    → IsValid w.state
      × (is_distinct w.owners ≡ true)
      × ((h : Bytes) → (begin_close h w.state).1 ≡ owner → member h w.owners ≡ false)
Reachable-single_flight {w = w} r =
    let g = Reachable-IsGood r in
    (g.valid, g.single.distinct, λ h e. sym (g.single.matched h) ∙ owner_idle h w.state e)
