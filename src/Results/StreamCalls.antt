-- ===== src/Results/StreamCalls.antt =====
-- result_stream.go: how a call of `Next` may end.
use flink_sql_go.Prelude.{
  ℕ, zero, suc, ◌+◌, ◌<◌, ◌≡◌, subst, Bool, true, false, Option, some, arith,
}
use flink_sql_go.Changelog.Row.{Json}
use flink_sql_go.Results.Consume.{Server, Limits}
use flink_sql_go.Results.Stream.{Cleanup, Stream, Turn, again, returns, round, next_from, next}
use flink_sql_go.Results.StreamInvariant.{IsGood, IsTurn, goes_on, has_row, has_ended, round-IsTurn}

-- How a call of `Next` may end.
pub data IsCall (l : Limits) (rows : ℕ) : Option (Stream × Bool) → Type 0 where
  got_row : (t : Stream) → IsGood l t → t.rows_yielded ≡ rows + 1 → IsCall l rows (some (t, true))
  ended : (t : Stream) → IsGood l t → t.closed ≡ true → IsCall l rows (some (t, false))

after-IsCall :
    (fuel : ℕ) (j : Json) (srv : Server) (l : Limits) (c : Cleanup) (rows polls : ℕ)
    (out : Stream × Turn)
    → IsTurn l rows polls out
    → ((t : Stream)
        → IsGood l t
        → t.rows_yielded ≡ rows
        → t.polls ≡ polls + 1
        → IsCall l rows (next_from fuel j srv l c t))
    → IsCall l rows
        (elim out.1 [ again ↦ next_from fuel j srv l c out.0 | returns more ↦ some (out.0, more) ])
after-IsCall fuel j srv l c rows polls out (goes_on t g r e) k = k t g r e
after-IsCall fuel j srv l c rows polls out (has_row t g r) k = got_row t g r
after-IsCall fuel j srv l c rows polls out (has_ended t g e) k = ended t g e

next_from-IsCall :
    (fuel : ℕ) (j : Json) (srv : Server) (l : Limits) (c : Cleanup) (s : Stream)
    → IsGood l s
    → l.max_polls < fuel + s.polls
    → IsCall l s.rows_yielded (next_from fuel j srv l c s)
unfolding next_from IsGood
next_from-IsCall zero j srv l c s g enough = ground (arith, g.polls_bounded)
next_from-IsCall (suc fuel) j srv l c s g enough =
    after-IsCall fuel j srv l c s.rows_yielded s.polls (round j srv l c s)
      (round-IsTurn j srv l c s g)
      (λ t h r e.
        subst (λ n. IsCall l n (next_from fuel j srv l c t)) r
          (next_from-IsCall fuel j srv l c t h (omega (arith, enough, e))))

pub next-IsCall :
    (j : Json) (srv : Server) (l : Limits) (c : Cleanup) (s : Stream)
    → IsGood l s
    → IsCall l s.rows_yielded (next j srv l c s)
unfolding next
next-IsCall j srv l c s g = next_from-IsCall (l.max_polls + 1) j srv l c s g (omega arith)
