-- ===== src/Results/StreamInvariant.antt =====
-- result_stream.go: what a stream has sent and read, round by round.
use flink_sql_go.Prelude.{
  ℕ, ◌+◌, ◌≤◌, ◌≡◌, refl, ◌⊎◌, inl, inr, Bool, true, false, ◌&&◌, List, [], ◌∷◌, Option, none, some,
  leb, length, Bool-cases, if_both, Result-cases, arith,
}
use flink_sql_go.Changelog.Row.{Row, Json}
use flink_sql_go.Results.Consume.{
  Page, ResultType, not_ready, payload, eos, unknown_type, Failure, poll_limit, row_limit,
  cancelled, Server, Limits, valid_rows, page_rows, operation_failure, wrong_row, bad_type,
}
use flink_sql_go.Results.Stream.{
  Request, cancel_request, close_request, Cleanup, Stream, new_stream, finish, stop, Turn, again,
  returns, set_next, follow_page, yield_row, wait_page, hold_page, take_page, is_cancelled,
  eos_event, on_page, note_job, polled, fetch_round, pending_round, open_round, round,
}

-- What a stream has sent: nothing while it is open, and one cleanup once it is closed.
pub record IsClean (l : Limits) (closed : Bool) (requests : List Request) (rows polls : ℕ)
    : Type 0 where
  pub unsent : closed ≡ false → requests ≡ []
  pub once :
      closed ≡ true
      → (requests ≡ close_request ∷ []) ⊎ (requests ≡ cancel_request ∷ close_request ∷ [])
  pub rows_bounded : rows ≤ l.max_rows
  pub polls_bounded : polls ≤ l.max_polls

unfoldable pub IsGood : Limits → Stream → Type 0
IsGood l s = IsClean l s.closed s.requests s.rows_yielded s.polls

pub finish-IsGood :
    (c : Cleanup) (l : Limits) (primary : Option Failure) (force : Bool) (s : Stream)
    → IsGood l s
    → IsGood l (finish c primary force s) × ((finish c primary force s).closed ≡ true)
unfolding finish IsGood
finish-IsGood c l primary force s g = (
  record {
    unsent = λ h. ground (arith, g.unsent);
    once = λ h. ground (arith, g.once, g.unsent, Bool-cases s.closed);
    rows_bounded = ground (arith, g.rows_bounded);
    polls_bounded = ground (arith, g.polls_bounded);
  },
  ground (arith, Bool-cases s.closed),
)

-- How a round that starts with so many rows and polls may end.
pub data IsTurn (l : Limits) (rows polls : ℕ) : Stream × Turn → Type 0 where
  goes_on :
      (t : Stream)
      → IsGood l t
      → t.rows_yielded ≡ rows
      → t.polls ≡ polls + 1
      → IsTurn l rows polls (t, again)
  has_row :
      (t : Stream) → IsGood l t → t.rows_yielded ≡ rows + 1 → IsTurn l rows polls (t, returns true)
  has_ended : (t : Stream) → IsGood l t → t.closed ≡ true → IsTurn l rows polls (t, returns false)

stop-IsTurn :
    (c : Cleanup) (l : Limits) (rows polls : ℕ) (primary : Option Failure) (force : Bool)
    (s : Stream)
    → IsGood l s
    → IsTurn l rows polls (stop c primary force s)
stop-IsTurn c l rows polls primary force s g =
    let (good, closed) = finish-IsGood c l primary force s g in
    has_ended (finish c primary force s) good closed

wait-IsTurn :
    (srv : Server) (l : Limits) (c : Cleanup) (rows polls : ℕ) (s : Stream)
    → IsGood l s
    → s.rows_yielded ≡ rows
    → s.polls ≡ polls + 1
    → IsTurn l rows polls (wait_page srv l c s)
unfolding IsGood
wait-IsTurn srv l c rows polls s g r p = elim (Bool-cases (srv.wait_done s.polls)) [
  | inl over ↦ rw over (stop-IsTurn c l rows polls (some cancelled) c.cancel_on_context_done s g)
  | inr free ↦ rw free (goes_on (record s { interval = _ }) g r p)
]

follow-IsTurn :
    (srv : Server) (l : Limits) (c : Cleanup) (p : Page) (last : Bool) (rows polls : ℕ) (s : Stream)
    → IsGood l s
    → s.rows_yielded ≡ rows
    → s.polls ≡ polls + 1
    → IsTurn l rows polls (follow_page srv c p last s)
unfolding IsGood
follow-IsTurn srv l c p true rows polls s g r e = goes_on s g r e
follow-IsTurn srv l c p false rows polls s g r e = elim (Result-cases (set_next srv true p)) [
  | inl (f, bad) ↦ rw (bad, follow_page) (stop-IsTurn c l rows polls (some f) false s g)
  | inr (n, found) ↦ rw (found, follow_page) (goes_on (record s { next = n }) g r e)
]

take-IsTurn :
    (j : Json) (srv : Server) (l : Limits) (c : Cleanup) (p : Page) (last : Bool) (rows polls : ℕ)
    (s : Stream)
    → IsGood l s
    → s.rows_yielded ≡ rows
    → s.polls ≡ polls + 1
    → IsTurn l rows polls (take_page j srv c p last s)
unfolding IsGood
take-IsTurn j srv l c p last rows polls s g r e =
    if_both (IsTurn l rows polls) (valid_rows j (length s.columns) (page_rows p))
      (λ good.
        follow-IsTurn srv l c p last rows polls
          (record s { pending_rows = page_rows p; pending_eos = last }) g r e)
      (λ bad. stop-IsTurn c l rows polls (some wrong_row) false s g)

on_page-IsTurn :
    (j : Json) (srv : Server) (l : Limits) (c : Cleanup) (p : Page) (t : ResultType)
    (rows polls : ℕ) (s : Stream)
    → IsGood l s
    → s.rows_yielded ≡ rows
    → s.polls ≡ polls + 1
    → IsTurn l rows polls (on_page j srv l c p t s)
unfolding on_page IsGood
on_page-IsTurn j srv l c p not_ready rows polls s g r e =
    elim (Result-cases (set_next srv false p)) [
      | inl (f, bad) ↦ rw (bad, on_page) (stop-IsTurn c l rows polls (some f) false s g)
      | inr (n, found) ↦
          rw (found, on_page) (wait-IsTurn srv l c rows polls (record s { next = n }) g r e)
    ]
on_page-IsTurn j srv l c p payload rows polls s g r e =
    take-IsTurn j srv l c p false rows polls (hold_page l p s) g r e
on_page-IsTurn j srv l c p eos rows polls s g r e =
    take-IsTurn j srv l c p true rows polls (hold_page l p s) g r e
on_page-IsTurn j srv l c p (unknown_type t) rows polls s g r e =
    stop-IsTurn c l rows polls (some bad_type) false s g

fetch-IsTurn :
    (j : Json) (srv : Server) (l : Limits) (c : Cleanup) (s : Stream)
    → IsGood l s
    → IsTurn l s.rows_yielded s.polls (fetch_round j srv l c s)
unfolding fetch_round IsGood
fetch-IsTurn j srv l c s g = elim (Bool-cases (leb l.max_polls s.polls)) [
  | inl full ↦
      rw (full, fetch_round) (stop-IsTurn c l s.rows_yielded s.polls (some poll_limit) true s g)
  | inr room ↦
      let counted : IsGood l (polled s) = record {
        unsent = g.unsent;
        once = g.once;
        rows_bounded = g.rows_bounded;
        polls_bounded = ground (arith, room);
      } in
      elim (Result-cases (srv.fetch s.polls s.next)) [
        | inl (f, bad) ↦
            rw (room, bad, fetch_round)
              (stop-IsTurn c l s.rows_yielded s.polls (some (operation_failure srv s.polls f))
                (c.cancel_on_context_done && is_cancelled (operation_failure srv s.polls f))
                (polled s) counted)
        | inr (p, found) ↦
            rw (room, found, fetch_round)
              (on_page-IsTurn j srv l c p p.result_type s.rows_yielded s.polls
                (note_job p (polled s)) counted refl refl)
      ]
]

pending-IsTurn :
    (j : Json) (srv : Server) (l : Limits) (c : Cleanup) (rs : List Row) (s : Stream)
    → IsGood l s
    → IsTurn l s.rows_yielded s.polls (pending_round j srv l c rs s)
unfolding pending_round IsGood
pending-IsTurn j srv l c (r ∷ rs) s g = elim (Bool-cases (leb l.max_rows s.rows_yielded)) [
  | inl full ↦
      rw (full, pending_round) (stop-IsTurn c l s.rows_yielded s.polls (some row_limit) true s g)
  | inr room ↦
      rw (room, pending_round)
        (has_row (yield_row r rs s)
          (record {
            unsent = g.unsent;
            once = g.once;
            polls_bounded = g.polls_bounded;
            rows_bounded = ground (arith, room);
          })
          refl)
]
pending-IsTurn j srv l c [] s g =
    if_both (IsTurn l s.rows_yielded s.polls) s.pending_eos
      (λ last.
        stop-IsTurn c l s.rows_yielded s.polls none false (record s { current_event = eos_event _ })
          g)
      (λ more. fetch-IsTurn j srv l c s g)

pub open-IsTurn :
    (j : Json) (srv : Server) (l : Limits) (c : Cleanup) (over : Bool) (s : Stream)
    → IsGood l s
    → IsTurn l s.rows_yielded s.polls (open_round j srv l c over s)
unfolding open_round
open-IsTurn j srv l c true s g =
    stop-IsTurn c l s.rows_yielded s.polls (some cancelled) c.cancel_on_context_done s g
open-IsTurn j srv l c false s g = pending-IsTurn j srv l c s.pending_rows s g

pub round-IsTurn :
    (j : Json) (srv : Server) (l : Limits) (c : Cleanup) (s : Stream)
    → IsGood l s
    → IsTurn l s.rows_yielded s.polls (round j srv l c s)
unfolding round
round-IsTurn j srv l c s g =
    if_both (IsTurn l s.rows_yielded s.polls) s.closed (λ closed. has_ended s g closed)
      (λ o. open-IsTurn j srv l c (srv.done (s.polls + s.rows_yielded)) s g)

pub new-IsGood : (l : Limits) → IsGood l (new_stream l)
unfolding new_stream IsGood
new-IsGood l = record {
  unsent = λ h. refl;
  once = λ h. ground (arith, h);
  rows_bounded = omega arith;
  polls_bounded = omega arith;
}
