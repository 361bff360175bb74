-- ===== src/Results/Consume.antt =====
-- `consumeResults`, `validateResultRows` and `nextPollInterval`. What contexts and the server answer at each poll, and
-- whether the consumer takes an event, are arguments.
use flink_sql_go.Prelude.{
  ℕ, zero, suc, ◌+◌, ◌*◌, ◌^◌, Bool, true, false, ◌&&◌, ◌||◌, List, [], ◌∷◌, ◌++◌, Option, none,
  some, Bytes, ltb, leb, ◌==◌, length, if◌then◌else◌, Result, ok, err,
}
use flink_sql_go.Changelog.Row.{Row, ColumnInfo, Json, validate_raw_json_field}

pub data ResultType : Type 0 where
  not_ready payload eos : ResultType
  unknown_type : Bytes → ResultType

pub record PageData : Type 0 where
  pub columns : List ColumnInfo
  pub rows : List Row

-- `next_uri` without the white space around it.
pub record Page : Type 0 where
  pub result_type : ResultType
  pub result_kind : Bytes
  pub query_result : Option Bool
  pub job_id : Bytes
  pub results : Option PageData
  pub next_uri : Bytes

pub data Failure : Type 0 where
  cancelled poll_limit row_limit fetch_failed operation_failed unsafe_uri : Failure
  wrong_row not_emitted missing_uri bad_type : Failure

pub data Event : Type 0 where
  page_event : Page → Event
  row_event : Row → Event
  eos_event : Page → Event

-- Why a fetch failed: the context of the call is over, or anything else.
pub data FetchError : Type 0 where
  context_over other_error : FetchError

-- Poll `n` with the URL of the page before it, if there is one. `failed_status` says that the operation's status,
-- asked for behind a failed fetch, is terminal and not successful. `done` and `wait_done` say that the
-- context is over before poll `n` and during the wait behind it.
pub record Server : Type 0 where
  pub fetch : ℕ → Option Bytes → Result FetchError Page
  pub failed_status : ℕ → Bool
  pub valid_uri : Bytes → Bool
  pub done : ℕ → Bool
  pub wait_done : ℕ → Bool
  pub takes : List Event → Bool

pub record Limits : Type 0 where
  pub max_rows : ℕ
  pub max_polls : ℕ
  pub collect : Bool
  pub emits : Bool
  pub poll_interval : ℕ
  pub max_interval : ℕ

-- `ExecutionResult`, the variables of the loop and the events so far.
pub record State : Type 0 where
  pub polls : ℕ
  pub pages : ℕ
  pub result_kind : Bytes
  pub query_result : Option Bool
  pub job_id : Bytes
  pub columns : List ColumnInfo
  pub rows : List Row
  pub rows_received : ℕ
  pub finished : Bool
  pub interval : ℕ
  pub next : Option Bytes
  pub events : List Event

unfoldable pub new_state : Limits → State
new_state l = record {
  polls = 0;
  pages = 0;
  result_kind = [];
  query_result = none;
  job_id = [];
  columns = [];
  rows = [];
  rows_received = 0;
  finished = false;
  interval = l.poll_interval;
  next = none;
  events = [];
}

abbrev pub Out : Type 0
Out = State × Result Failure (Unit {0})

abbrev pub then_out :
    {A : Type 0} → Out → (State → State × Result Failure A) → State × Result Failure A
then_out (st, ok u) f = f st
then_out (st, err e) f = (st, err e)

unfoldable pub emit : Server → Limits → Event → State → Out
emit srv l e st =
    if l.emits
    then (if srv.takes st.events
        then (record st { events = st.events ++ e ∷ [] }, ok tt)
        else (st, err not_emitted))
    else (st, ok tt)

abbrev is_ok {ℓ κ} : {E : Type ℓ} {A : Type κ} → Result E A → Bool
is_ok (ok a) = true
is_ok (err e) = false

abbrev pub valid_fields : Json → List Bytes → Bool
valid_fields j [] = true
valid_fields j (f ∷ fs) = is_ok (validate_raw_json_field j f) && valid_fields j fs

unfoldable pub valid_rows : Json → ℕ → List Row → Bool
valid_rows j columns [] = true
valid_rows j columns (r ∷ rs) =
    length r.fields == columns && valid_fields j r.fields && valid_rows j columns rs

-- `current` and `maximum` are int64 and not negative: a doubled value of 2^63 or more has wrapped to a
-- negative one.
unfoldable pub next_poll_interval : ℕ → ℕ → ℕ
next_poll_interval current maximum =
    let next = current * 2 in if leb (2 ^ 63) next || ltb maximum next then maximum else next

-- The loop over the rows of a page.
unfoldable pub take_rows : Server → Limits → List Row → State → Out
unfolding emit
take_rows srv l [] st = (st, ok tt)
take_rows srv l (r ∷ rs) st = elim (leb l.max_rows st.rows_received) [
  | true ↦ (st, err row_limit)
  | false ↦
      then_out
        (emit srv l (row_event r) (record st {
          rows = if l.collect then st.rows ++ r ∷ [] else st.rows;
          rows_received = st.rows_received + 1;
        }))
        (λ st'. take_rows srv l rs st')
]

abbrev pub without_rows : Page → Page
without_rows p = record p {
  results = elim p.results [ none ↦ none | some d ↦ some (record d { rows = [] }) ];
}

abbrev pub page_rows : Page → List Row
page_rows p = elim p.results [ none ↦ [] | some d ↦ d.rows ]

abbrev pub is_nil {ℓ} : {A : Type ℓ} → List A → Bool
is_nil [] = true
is_nil (x ∷ xs) = false

-- The columns once a page was read: those of the first page that has some.
abbrev pub page_columns : List ColumnInfo → Page → List ColumnInfo
page_columns columns p = elim p.results [
  | none ↦ columns
  | some d ↦ if is_nil columns then d.columns else columns
]

-- The fields of the result that a page sets.
abbrev pub note_page : Limits → Page → State → State
note_page l p st = record st {
  interval = l.poll_interval;
  pages = st.pages + 1;
  result_kind = p.result_kind;
  query_result = p.query_result;
  job_id = if is_nil p.job_id then st.job_id else p.job_id;
  columns = page_columns st.columns p;
}

abbrev pub check_page : Json → Page → State → Out
check_page j p st =
    if valid_rows j (length st.columns) (page_rows p) then (st, ok tt) else (st, err wrong_row)

-- Whether the loop goes on.
abbrev pub follow : Server → Page → State → State × Result Failure Bool
follow srv p st =
    if is_nil p.next_uri
    then (st, err missing_uri)
    else if srv.valid_uri p.next_uri
    then (record st { next = some p.next_uri }, ok true)
    else (st, err unsafe_uri)

abbrev pub next_or_first : Server → Page → State → Out
next_or_first srv p st =
    if is_nil p.next_uri
    then (record st { next = none }, ok tt)
    else if srv.valid_uri p.next_uri
    then (record st { next = some p.next_uri }, ok tt)
    else (st, err unsafe_uri)

abbrev pub wait : Server → Limits → State → State × Result Failure Bool
wait srv l st =
    if srv.wait_done st.polls
    then (st, err cancelled)
    else (record st { interval = next_poll_interval st.interval l.max_interval }, ok true)

-- The part that PAYLOAD and EOS share.
unfoldable pub read_page : Json → Server → Limits → Page → State → Out
unfolding take_rows
read_page j srv l p st = then_out (check_page j p (note_page l p st)) (λ a.
    then_out (emit srv l (page_event (without_rows p)) a) (λ b. take_rows srv l (page_rows p) b))

abbrev pub finish : Server → Limits → Page → State → State × Result Failure Bool
finish srv l p st =
    then_out (emit srv l (eos_event (without_rows p)) (record st { finished = true }))
      (λ a. (a, ok false))

abbrev pub page_step :
    Json → Server → Limits → Page → ResultType → State → State × Result Failure Bool
page_step j srv l p not_ready st = then_out (next_or_first srv p st) (λ a. wait srv l a)
page_step j srv l p payload st = then_out (read_page j srv l p st) (λ a. follow srv p a)
page_step j srv l p eos st = then_out (read_page j srv l p st) (λ a. finish srv l p a)
page_step j srv l p (unknown_type t) st = (st, err bad_type)

abbrev pub polled : State → State
polled st = record st { polls = st.polls + 1 }

-- `operationFailure`: the status is asked for unless the context is over.
unfoldable pub operation_failure : Server → ℕ → FetchError → Failure
operation_failure srv n context_over = cancelled
operation_failure srv n other_error = if srv.failed_status n then operation_failed else fetch_failed

-- One round of the loop.
unfoldable pub round : Json → Server → Limits → State → State × Result Failure Bool
unfolding read_page
round j srv l st =
    if srv.done st.polls
    then (st, err cancelled)
    else if leb l.max_polls st.polls
    then (st, err poll_limit)
    else elim (srv.fetch st.polls st.next) [
      | err e ↦ (polled st, err (operation_failure srv st.polls e))
      | ok p ↦ page_step j srv l p p.result_type (polled st)
    ]

-- On fuel: `none` if it does not suffice.
unfoldable pub consume : ℕ → Json → Server → Limits → State → Option Out
consume zero j srv l st = none
consume (suc fuel) j srv l st =
    let (a, result) = round j srv l st in
    elim result [
      | err e ↦ some (a, err e)
      | ok again ↦ elim again [ true ↦ consume fuel j srv l a | false ↦ some (a, ok tt) ]
    ]

-- Each round that goes on has polled, so one more than the limit is enough.
unfoldable pub consume_results : Json → Server → Limits → Option Out
consume_results j srv l = consume (l.max_polls + 1) j srv l (new_state l)
