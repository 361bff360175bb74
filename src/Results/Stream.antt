-- ===== src/Results/Stream.antt =====
-- result_stream.go: `Next` by the rounds of its loop, `Close`, and the cleanup that they share. What contexts and the
-- server answer is an argument, as in Consume.
use flink_sql_go.Prelude.{
  ℕ, zero, suc, ◌+◌, Bool, true, false, ◌&&◌, ◌||◌, List, [], ◌∷◌, ◌++◌, Option, none, some, Bytes,
  leb, length, if◌then◌else◌, Result, ok, err,
}
use flink_sql_go.Changelog.Row.{Row, ColumnInfo, Json}
use flink_sql_go.Results.Consume.{
  Page, ResultType, not_ready, payload, eos, unknown_type, Failure, cancelled, poll_limit,
  row_limit, unsafe_uri, wrong_row, missing_uri, bad_type, Server, Limits, is_nil, page_rows,
  page_columns, without_rows, valid_rows, next_poll_interval, operation_failure,
}

-- The requests that clean an operation up, and how one is answered.
pub data Request : Type 0 where
  cancel_request close_request : Request

pub data Answer : Type 0 where
  answered operation_not_found request_failed : Answer

-- `client_closed` says that the client is closed when a run without error comes to close its operation, which the client
-- then refuses.
pub record Cleanup : Type 0 where
  pub client_closed : Bool
  pub cancel_on_context_done : Bool
  pub cancel_answer : Answer
  pub close_answer : Answer

-- An operation that the server does not have counts as cancelled, and as closed.
abbrev pub is_failed : Answer → Bool
is_failed answered = false
is_failed operation_not_found = false
is_failed request_failed = true

-- The error that a stream ends with: the cause alone, or an `ExecutionError` of it and of what failed in
-- the cleanup.
pub data StreamError : Type 0 where
  plain : Option Failure → StreamError
  execution_error : Option Failure → Bool → Bool → StreamError

pub data StreamEvent : Type 0 where
  operation_event : StreamEvent
  row_event : Row → StreamEvent
  eos_event : Option Page → StreamEvent

-- `pending_rows` are those of the source from `pendingIndex` on. `closed` is set with the cleanup, which
-- runs once; `requests` are those it has sent.
pub record Stream : Type 0 where
  pub closed : Bool
  pub stream_err : StreamError
  pub cleanup_err : StreamError
  pub current_event : StreamEvent
  pub current_row : Option Row
  pub job_id : Bytes
  pub columns : List ColumnInfo
  pub rows_yielded : ℕ
  pub polls : ℕ
  pub interval : ℕ
  pub next : Option Bytes
  pub pending_rows : List Row
  pub pending_eos : Bool
  pub pending_page : Option Page
  pub requests : List Request

unfoldable pub new_stream : Limits → Stream
new_stream l = record {
  closed = false;
  stream_err = plain none;
  cleanup_err = plain none;
  current_event = operation_event;
  current_row = none;
  job_id = [];
  columns = [];
  rows_yielded = 0;
  polls = 0;
  interval = l.poll_interval;
  next = none;
  pending_rows = [];
  pending_eos = false;
  pending_page = none;
  requests = [];
}

abbrev pub is_limit : Option Failure → Bool
is_limit (some poll_limit) = true
is_limit (some row_limit) = true
is_limit _ = false

abbrev pub is_cancelled : Failure → Bool
is_cancelled cancelled = true
is_cancelled _ = false

abbrev pub with_cleanup : Option Failure → Bool → Bool → StreamError
with_cleanup cause false false = plain cause
with_cleanup cause false true = execution_error cause false true
with_cleanup cause true close_failed = execution_error cause true close_failed

-- `finish`: the cleanup, once.
unfoldable pub finish : Cleanup → Option Failure → Bool → Stream → Stream
finish c primary force s =
    let cancels = force || is_limit primary in
    let cancel_failed = cancels && is_failed c.cancel_answer in
    let close_failed = is_failed c.close_answer in
    if s.closed then s else record s {
      closed = true;
      requests =
          s.requests
          ++ (if cancels then cancel_request ∷ close_request ∷ [] else close_request ∷ []);
      stream_err = with_cleanup primary cancel_failed close_failed;
      cleanup_err = with_cleanup none cancel_failed close_failed;
    }

-- Whether a round of `Next` ends the call, and with what.
pub data Turn : Type 0 where
  again : Turn
  returns : Bool → Turn

abbrev pub stop : Cleanup → Option Failure → Bool → Stream → Stream × Turn
stop c primary force s = (finish c primary force s, returns false)

-- `setNextURL`: the URL of the next page, which only a page that is not ready may leave out.
abbrev pub set_next : Server → Bool → Page → Result Failure (Option Bytes)
set_next srv required p =
    if is_nil p.next_uri
    then (if required then err missing_uri else ok none)
    else if srv.valid_uri p.next_uri
    then ok (some p.next_uri)
    else err unsafe_uri

abbrev pub yield_row : Row → List Row → Stream → Stream
yield_row r rs s = record s {
  pending_rows = rs;
  rows_yielded = s.rows_yielded + 1;
  current_row = some r;
  current_event = row_event r;
}

abbrev pub wait_page : Server → Limits → Cleanup → Stream → Stream × Turn
wait_page srv l c s =
    if srv.wait_done s.polls
    then stop c (some cancelled) c.cancel_on_context_done s
    else (record s { interval = next_poll_interval s.interval l.max_interval }, again)

-- The fields that a page of rows sets before its rows are checked.
abbrev pub hold_page : Limits → Page → Stream → Stream
hold_page l p s = record s {
  interval = l.poll_interval;
  pending_page = some p;
  pending_rows = [];
  columns = page_columns s.columns p;
}

-- The last page has no next one.
abbrev pub follow_page : Server → Cleanup → Page → Bool → Stream → Stream × Turn
follow_page srv c p true s = (s, again)
follow_page srv c p false s = elim (set_next srv true p) [
  | err e ↦ stop c (some e) false s
  | ok next ↦ (record s { next = next }, again)
]

abbrev pub take_page : Json → Server → Cleanup → Page → Bool → Stream → Stream × Turn
take_page j srv c p last s =
    if valid_rows j (length s.columns) (page_rows p)
    then follow_page srv c p last (record s { pending_rows = page_rows p; pending_eos = last })
    else stop c (some wrong_row) false s

unfoldable pub on_page :
    Json → Server → Limits → Cleanup → Page → ResultType → Stream → Stream × Turn
on_page j srv l c p not_ready s = elim (set_next srv false p) [
  | err e ↦ stop c (some e) false s
  | ok next ↦ wait_page srv l c (record s { next = next })
]
on_page j srv l c p payload s = take_page j srv c p false (hold_page l p s)
on_page j srv l c p eos s = take_page j srv c p true (hold_page l p s)
on_page j srv l c p (unknown_type t) s = stop c (some bad_type) false s

abbrev pub note_job : Page → Stream → Stream
note_job p s = record s { job_id = if is_nil p.job_id then s.job_id else p.job_id }

abbrev pub polled : Stream → Stream
polled s = record s { polls = s.polls + 1 }

-- The part of a round that fetches a page.
unfoldable pub fetch_round : Json → Server → Limits → Cleanup → Stream → Stream × Turn
fetch_round j srv l c s =
    if leb l.max_polls s.polls
    then stop c (some poll_limit) true s
    else elim (srv.fetch s.polls s.next) [
      | err e ↦
          let cause = operation_failure srv s.polls e in
          stop c (some cause) (c.cancel_on_context_done && is_cancelled cause) (polled s)
      | ok p ↦ on_page j srv l c p p.result_type (note_job p (polled s))
    ]

-- What is pending, if anything, and otherwise a page.
unfoldable pub pending_round : Json → Server → Limits → Cleanup → List Row → Stream → Stream × Turn
pending_round j srv l c (r ∷ rs) s =
    if leb l.max_rows s.rows_yielded
    then stop c (some row_limit) true s
    else (yield_row r rs s, returns true)
pending_round j srv l c [] s =
    if s.pending_eos
    then stop c none false (record s {
      current_event =
          eos_event (elim s.pending_page [ none ↦ none | some p ↦ some (without_rows p) ]);
    })
    else fetch_round j srv l c s

-- A round behind its test of `closed`. The flag says whether the context is over.
unfoldable pub open_round : Json → Server → Limits → Cleanup → Bool → Stream → Stream × Turn
open_round j srv l c over s =
    if over
    then stop c (some cancelled) c.cancel_on_context_done s
    else pending_round j srv l c s.pending_rows s

-- The context is looked at in every round: `done` counts polls and rows here, one of which a round that goes
-- on has added.
unfoldable pub round : Json → Server → Limits → Cleanup → Stream → Stream × Turn
round j srv l c s =
    if s.closed
    then (s, returns false)
    else open_round j srv l c (srv.done (s.polls + s.rows_yielded)) s

-- `Next`, on fuel: `none` if it does not suffice.
unfoldable pub next_from : ℕ → Json → Server → Limits → Cleanup → Stream → Option (Stream × Bool)
next_from zero j srv l c s = none
next_from (suc fuel) j srv l c s =
    let (t, turn) = round j srv l c s in
    elim turn [ again ↦ next_from fuel j srv l c t | returns more ↦ some (t, more) ]

-- A round that goes on has polled.
unfoldable pub next : Json → Server → Limits → Cleanup → Stream → Option (Stream × Bool)
next j srv l c s = next_from (l.max_polls + 1) j srv l c s

-- `Close`: what is returned is `cleanup_err`.
unfoldable pub close : Cleanup → Stream → Stream
close c s = finish c none true s
