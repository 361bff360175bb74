-- ===== src/Results/Draining.antt =====
-- result_stream.go: a stream over any order of its calls, and the loop of a caller.
use flink_sql_go.Prelude.{
  ℕ, zero, suc, ◌+◌, ◌<◌, ◌≡◌, refl, ◌⊎◌, Bool, true, false, [], ◌∷◌, Option, none, some, arith,
}
use flink_sql_go.Changelog.Row.{Json}
use flink_sql_go.Results.Consume.{Server, Limits}
use flink_sql_go.Results.Stream.{
  cancel_request, close_request, Cleanup, Stream, new_stream, open_round, next, close,
}
use flink_sql_go.Results.StreamInvariant.{IsGood, new-IsGood}
use flink_sql_go.Results.StreamCalls.{IsCall, got_row, ended, next-IsCall}

-- The calls of `Close` may come between any two rounds of `Next`, also between the test of `closed` and the
-- rest of a round, for which a round may start behind that test on a stream that is closed.
pub data Reachable (j : Json) (l : Limits) (c : Cleanup) : Stream → Type 0 where
  opened : Reachable j l c (new_stream l)
  after_round :
      (srv : Server) (over : Bool) (s : Stream)
      → Reachable j l c s
      → Reachable j l c (open_round j srv l c over s).0
  after_close : (s : Stream) → Reachable j l c s → Reachable j l c (close c s)

-- The caller's loop `for stream.Next() {}`, at most so many calls: `none` if the stream has not ended by then.
unfoldable pub drain : ℕ → Json → Server → Limits → Cleanup → Stream → Option Stream
drain zero j srv l c s = none
drain (suc n) j srv l c s = elim (next j srv l c s) [
  | none ↦ none
  | some (t, true) ↦ drain n j srv l c t
  | some (t, false) ↦ some t
]

-- The stream that a loop ends with is closed, and has sent one cleanup.
unfoldable pub Ends : Option Stream → Type 0
Ends o =
    (t : Stream) × (o ≡ some t)
    × (t.closed ≡ true)
    × ((t.requests ≡ close_request ∷ []) ⊎ (t.requests ≡ cancel_request ∷ close_request ∷ []))

drain_call-Ends :
    (n : ℕ) (j : Json) (srv : Server) (l : Limits) (c : Cleanup) (rows : ℕ)
    (o : Option (Stream × Bool))
    → IsCall l rows o
    → ((t : Stream) → IsGood l t → t.rows_yielded ≡ rows + 1 → Ends (drain n j srv l c t))
    → Ends
        (elim o [ none ↦ none | some (t, true) ↦ drain n j srv l c t | some (t, false) ↦ some t ])
unfolding Ends IsGood
drain_call-Ends n j srv l c rows o (got_row t g r) k = k t g r
drain_call-Ends n j srv l c rows o (ended t g closed) k = (t, refl, closed, g.once closed)

drain-Ends :
    (n : ℕ) (j : Json) (srv : Server) (l : Limits) (c : Cleanup) (s : Stream)
    → IsGood l s
    → l.max_rows < n + s.rows_yielded
    → Ends (drain n j srv l c s)
unfolding drain IsGood
drain-Ends zero j srv l c s g enough = ground (arith, g.rows_bounded)
drain-Ends (suc n) j srv l c s g enough =
    drain_call-Ends n j srv l c s.rows_yielded (next j srv l c s) (next-IsCall j srv l c s g)
      (λ t h r. drain-Ends n j srv l c t h (omega (arith, enough, r)))

-- Whatever the server answers, a caller that calls `Next` on a new stream while it returns true is done within
-- one call more than the limit of the rows. The stream is closed then, and its operation was closed exactly
-- once, cancelled before it at most once.
pub new_stream-Ends :
    (j : Json) (srv : Server) (l : Limits) (c : Cleanup)
    → Ends (drain (l.max_rows + 1) j srv l c (new_stream l))
new_stream-Ends j srv l c =
    drain-Ends (l.max_rows + 1) j srv l c (new_stream l) (new-IsGood l) (omega arith)
