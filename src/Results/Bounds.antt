-- ===== src/Results/Bounds.antt =====
-- The loop ends, and keeps its limits.
use flink_sql_go.Prelude.{
  ℕ, zero, suc, ◌+◌, ◌≤◌, ◌<◌, ◌≡◌, refl, sym, ap, subst, ◌⊎◌, inl, inr, Bool, true, false, Option,
  some, length, arith, Result, ok, err,
}
use flink_sql_go.Changelog.Row.{Json}
use flink_sql_go.Results.Consume.{
  Failure, Server, Limits, State, Out, new_state, round, consume, consume_results,
}
use flink_sql_go.Results.Collected.{Collected, nothing, Kept, has_failed, whole_result}
use flink_sql_go.Results.Rounds.{IsGood, IsRound, round-IsRound}

module _ (fuel : ℕ) (j : Json) (srv : Server) (l : Limits) (st : State) where
  consume_stop :
      (e : Failure)
      → (round j srv l st).1 ≡ err e
      → consume (suc fuel) j srv l st ≡ some ((round j srv l st).0, err e)
  unfolding consume
  consume_stop e h = rw (h, consume) refl

  consume_end :
      (round j srv l st).1 ≡ ok false
      → consume (suc fuel) j srv l st ≡ some ((round j srv l st).0, ok tt)
  unfolding consume
  consume_end h = rw (h, consume) refl

  consume_again :
      (round j srv l st).1 ≡ ok true
      → consume (suc fuel) j srv l st ≡ consume fuel j srv l (round j srv l st).0
  unfolding consume
  consume_again h = rw (h, consume) refl

Round-cases :
    (r : Result Failure Bool) → ((e : Failure) × (r ≡ err e)) ⊎ (r ≡ ok false) ⊎ (r ≡ ok true)
Round-cases (err e) = inl (e, refl)
Round-cases (ok false) = inr (inl refl)
Round-cases (ok true) = inr (inr refl)

-- The loop gives an outcome, and it is within the limits.
pub record IsBounded (srv : Server) (l : Limits) (o : Option Out) : Type 0 where
  pub out : Out
  pub returned : o ≡ some out
  pub polls : out.0.polls ≤ l.max_polls
  pub rows : out.0.rows_received ≤ l.max_rows
  pub collected : l.collect ≡ true → length out.0.rows ≡ out.0.rows_received
  pub kept : l.collect ≡ true → Kept srv (has_failed out.1) out.0.polls out.0.rows

ended :
    (srv : Server) (l : Limits) (n : ℕ) (out : State × Result Failure Bool)
    (r : Result Failure (Unit {0})) (o : Option Out)
    → IsRound srv l n out
    → o ≡ some (out.0, r)
    → has_failed out.1 ≡ has_failed r
    → IsBounded srv l o
ended srv l n out r o i e same = record {
  out = (out.0, r);
  returned = e;
  polls = ground (arith, i.within, i.good.at_poll);
  rows = i.good.bounded;
  collected = i.good.collected;
  kept = λ c.
      subst (λ k. Kept srv (has_failed r) k out.0.rows) (sym i.good.at_poll)
        (subst (λ b. Kept srv b i.at out.0.rows) same (i.kept c));
}

consume-IsBounded :
    (fuel : ℕ) (j : Json) (srv : Server) (l : Limits) (n : ℕ) (st : State)
    → IsGood l n st
    → n ≤ l.max_polls
    → (l.collect ≡ true → Collected srv n st.rows)
    → l.max_polls < fuel + n
    → IsBounded srv l (consume fuel j srv l st)
consume-IsBounded zero j srv l n st g w kept f = absurd (omega arith)
consume-IsBounded (suc fuel) j srv l n st g w kept f =
    let i = round-IsRound j srv l n st g w kept in
    elim (Round-cases (round j srv l st).1) [
      | inl (e, h) ↦
          ended srv l n (round j srv l st) (err e) _ i (consume_stop fuel j srv l st e h)
            (ap (λ r. has_failed r) h)
      | inr (inl h) ↦
          ended srv l n (round j srv l st) (ok tt) _ i (consume_end fuel j srv l st h)
            (ap (λ r. has_failed r) h)
      | inr (inr h) ↦
          subst (λ o. IsBounded srv l o) (sym (consume_again fuel j srv l st h))
            (consume-IsBounded fuel j srv l (n + 1) (round j srv l st).0
              (subst (λ k. IsGood l k (round j srv l st).0) (i.counted true h) i.good)
              (subst (λ k. k ≤ l.max_polls) (i.counted true h) i.within)
              (λ c.
                subst (λ k. Collected srv k (round j srv l st).0.rows) (i.counted true h)
                  (whole_result srv _ i.at (round j srv l st).0.rows (ap (λ r. has_failed r) h)
                    (i.kept c)))
              (omega arith))
    ]

-- Whatever the server answers, the loop returns after at most the allowed polls and with at most the
-- allowed rows. If rows are collected, the result has as many as were counted, and they are, unchanged and in order,
-- all rows of the pages that the polls brought; if the loop failed, of the last page it may have only the first
-- rows, or the last poll may have brought none.
pub consume_results-IsBounded :
    (j : Json) (srv : Server) (l : Limits) → IsBounded srv l (consume_results j srv l)
unfolding consume_results new_state
consume_results-IsBounded j srv l =
    consume-IsBounded (l.max_polls + 1) j srv l 0 (new_state l)
      (record { bounded = omega arith; collected = λ c. refl; at_poll = refl }) (omega arith)
      (λ c. nothing) (omega arith)
