-- ===== src/Results/PageRows.antt =====
-- result.go and result_stream.go: the rows of one page, read by the loop and by a stream.
use flink_sql_go.Prelude.{
  ℕ, ◌+◌, ◌≡◌, refl, sym, ◌∙◌, ◌⊎◌, inl, inr, Bool-cases, Bool, true, false, List, [], ◌∷◌, ◌++◌,
  Option, some, Bytes, leb, ok, err,
}
use flink_sql_go.Changelog.Row.{Row, Json}
use flink_sql_go.Results.Consume.{Failure, Server, Limits, State, take_rows, row_limit}
use flink_sql_go.Results.Stream.{Cleanup, Stream, returns, open_round, pending_round, row_event}
use flink_sql_go.Results.Stream
use flink_sql_go.Results.Collected.{append_nil, append_assoc}
use flink_sql_go.Results.Reading.{Reads, next_row, Rest, alike}

-- Rows are kept and no event is sent, as for ExecuteAndWait.
abbrev pub collecting : Limits → Limits
collecting l = record l { collect = true; emits = false }

abbrev pub took : Row → State → State
took r st = record st { rows = st.rows ++ r ∷ []; rows_received = st.rows_received + 1 }

abbrev pub took_all : List Row → State → State
took_all [] st = st
took_all (r ∷ rs) st = took_all rs (took r st)

pub took_all-rows : (rs : List Row) (st : State) → (took_all rs st).rows ≡ st.rows ++ rs
took_all-rows [] st = sym (append_nil st.rows)
took_all-rows (r ∷ rs) st = took_all-rows rs (took r st) ∙ append_assoc st.rows (r ∷ []) rs

abbrev at_row : Row → Rest → Rest
at_row r x = record x { current_row = some r; current_event = row_event r }

module _ (j : Json) (srv : Server) (l : Limits) (c : Cleanup)
    (never_over : (n : ℕ) → srv.done n ≡ false) where
  row_round :
      (r : Row) (rs : List Row) (st : State) (last : Bool) (next : Option Bytes) (x : Rest)
      → leb l.max_rows st.rows_received ≡ false
      → Stream.round j srv (collecting l) c (alike st (r ∷ rs) last next x)
        ≡ (alike (took r st) rs last next (at_row r x), returns true)
  unfolding Stream.round open_round pending_round
  row_round r rs st last next x room = rw (never_over (st.polls + st.rows_received), room) refl

  -- The rows of a page.
  pub take_rows-Reads :
      (rs : List Row) (st : State) (last : Bool) (next : Option Bytes) (x : Rest)
      → ((st' : State) × (e : Failure) × (take_rows srv (collecting l) rs st ≡ (st', err e)))
        ⊎ ((take_rows srv (collecting l) rs st ≡ (took_all rs st, ok tt))
            × (x' : Rest) × ((rows : List Row) (u : Stream)
                → Reads j srv (collecting l) c (alike (took_all rs st) [] last next x') rows u
                → Reads j srv (collecting l) c (alike st rs last next x) (rs ++ rows) u))
  unfolding take_rows
  take_rows-Reads [] st last next x = inr (refl, x, λ rows u h. h)
  take_rows-Reads (r ∷ rs) st last next x = elim (Bool-cases (leb l.max_rows st.rows_received)) [
    | inl full ↦ inl (st, row_limit, rw (full, take_rows) refl)
    | inr room ↦ elim (take_rows-Reads rs (took r st) last next (at_row r x)) [
      | inl (st', e, h) ↦ inl (st', e, rw (room, take_rows) h)
      | inr (h, x', k) ↦ inr (
        rw (room, take_rows) h,
        x',
        λ rows u more. next_row (row_round r rs st last next x room) refl (k rows u more),
      )
    ]
  ]
