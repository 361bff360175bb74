-- ===== src/Results/Agreement.antt =====
-- result.go and result_stream.go: the two readers of one result.
use flink_sql_go.Prelude.{
  ℕ, zero, suc, ◌+◌, ◌≡◌, refl, sym, ap, subst, ◌∙◌, if_both, Bool, true, false, List, [], ◌∷◌,
  ◌++◌, Option, none, some, leb, Result, ok, err, arith,
}
use flink_sql_go.Changelog.Row.{Row, Json}
use flink_sql_go.Results.Consume.{
  Page, Failure, FetchError, operation_failure, Server, Limits, State, Out, page_step, polled,
  round, consume, consume_results, new_state,
}
use flink_sql_go.Results.Stream.{
  Cleanup, Stream, with_cleanup, is_failed, close_request, new_stream, operation_event,
}
use flink_sql_go.Results.Collected.{append_assoc}
use flink_sql_go.Results.PageRows.{collecting}
use flink_sql_go.Results.Pages.{fetch_alike, IsDone, Matches, page-Matches}
use flink_sql_go.Results.StreamInvariant.{new-IsGood}
use flink_sql_go.Results.Reading.{read_all, read_all-Reads, Reads, Rest, alike}

same_out : (st out : State) → ◌≡◌ {A = Option Out} (some (st, ok tt)) (some (out, ok tt)) → st ≡ out
same_out st out h = ground arith

module _ (j : Json) (srv : Server) (l : Limits) (c : Cleanup)
    (never_over : (n : ℕ) → srv.done n ≡ false) where
  round-Matches :
      (st : State) (x : Rest) → Matches j srv l c never_over st x (round j srv (collecting l) st)
  unfolding round
  round-Matches st x =
      if_both (Matches j srv l c never_over st x) (srv.done st.polls) (λ over. tt)
        (λ on.
          if_both (Matches j srv l c never_over st x) (leb l.max_polls st.polls) (λ full. tt)
            (λ room. answered room (srv.fetch st.polls st.next) refl))
    where
      answered :
          leb l.max_polls st.polls ≡ false
          → (r : Result FetchError Page) → srv.fetch st.polls st.next ≡ r
          → Matches j srv l c never_over st x (elim r [
            | err e ↦ (polled st, err (operation_failure srv st.polls e))
            | ok p ↦ page_step j srv (collecting l) p p.result_type (polled st)
          ])
      answered room (err e) h = tt
      answered room (ok p) h =
          page-Matches j srv l c never_over p.result_type p st x _
            (fetch_alike j srv l c never_over p st x room h)

  -- The rows that the loop adds to a state are those that the stream yields from there.
  abbrev IsRead : State → Rest → State → Type 0
  IsRead st x out =
      (rows : List Row) × (u : Stream) × (out.rows ≡ st.rows ++ rows)
      × Reads j srv (collecting l) c (alike st [] false st.next x) rows u
      × IsDone j srv l c never_over out u

  abbrev turned : ℕ → State × Result Failure Bool → Option Out
  turned fuel (st, err e) = some (st, err e)
  turned fuel (st, ok true) = consume fuel j srv (collecting l) st
  turned fuel (st, ok false) = some (st, ok tt)

  turn-IsRead :
      (fuel : ℕ) (st : State) (x : Rest) (out : State) (o : State × Result Failure Bool)
      → Matches j srv l c never_over st x o
      → ((st' : State) (x' : Rest)
          → consume fuel j srv (collecting l) st' ≡ some (out, ok tt)
          → IsRead st' x' out)
      → turned fuel o ≡ some (out, ok tt)
      → IsRead st x out
  turn-IsRead fuel st x out (st', err e) m k h = ground arith
  turn-IsRead fuel st x out (st', ok false) m k h = subst (IsRead st x) (same_out st' out h) m
  turn-IsRead fuel st x out (st', ok true) (rows, x', kept, goes) k h =
      let (more, u, e, read, done) = k st' x' h in
      (
        rows ++ more,
        u,
        e ∙ ap (λ rs. rs ++ more) kept ∙ append_assoc st.rows rows more,
        goes more u read,
        done,
      )

  consume-IsRead :
      (fuel : ℕ) (st : State) (x : Rest) (out : State)
      → consume fuel j srv (collecting l) st ≡ some (out, ok tt)
      → IsRead st x out
  unfolding consume
  consume-IsRead zero st x out h = ground arith
  consume-IsRead (suc fuel) st x out h =
      turn-IsRead fuel st x out (round j srv (collecting l) st) (round-Matches st x)
        (λ st' x' k. consume-IsRead fuel st' x' out k) h

  consume_results-Reads :
      (out : State)
      → consume_results j srv (collecting l) ≡ some (out, ok tt)
      → (u : Stream) × Reads j srv (collecting l) c (new_stream (collecting l)) out.rows u
        × IsDone j srv l c never_over out u
  unfolding consume_results new_state new_stream
  consume_results-Reads out h =
      let (rows, u, e, read, done) =
        consume-IsRead (l.max_polls + 1) (new_state (collecting l))
          record {
            job_id = [];
            current_event = operation_event;
            current_row = none;
            pending_page = none;
          }
          out h in
      (
        u,
        subst (λ rs. Reads j srv (collecting l) c (new_stream (collecting l)) rs u) (sym e) read,
        done,
      )

-- Where no context is ever over, the two readers agree: if the loop of ExecuteAndWait returns without error,
-- a caller that reads a stream of the same result to its end gets exactly the same rows in the same
-- order and the same columns, the stream is closed then, and its operation was closed once and never cancelled; its
-- error is at most that of the close.
pub consume_results-read_all :
    (j : Json) (srv : Server) (l : Limits) (c : Cleanup) (out : State)
    → ((n : ℕ) → srv.done n ≡ false)
    → consume_results j srv (collecting l) ≡ some (out, ok tt)
    → (u : Stream) × (read_all (l.max_rows + 1) j srv (collecting l) c (new_stream (collecting l))
        ≡ some (out.rows, u))
      × (u.stream_err ≡ with_cleanup none false (is_failed c.close_answer))
      × (u.requests ≡ close_request ∷ [])
      × (u.closed ≡ true)
      × (u.rows_yielded ≡ out.rows_received)
      × (u.columns ≡ out.columns)
consume_results-read_all j srv l c out never_over h =
    let (u, reads, (no_error, closed_once, closed, counted, columns)) =
      consume_results-Reads j srv l c never_over out h in
    (
      u,
      read_all-Reads j srv (collecting l) c (l.max_rows + 1) (new_stream (collecting l)) u out.rows
          reads (new-IsGood (collecting l)) (omega arith),
      no_error,
      closed_once,
      closed,
      counted,
      columns,
    )
