-- ===== src/Results/Rounds.antt =====
-- result.go: one round of the loop keeps the limits.
use flink_sql_go.Prelude.{
  ℕ, ◌+◌, ◌≤◌, ◌≡◌, refl, subst, ap, inl, inr, Bool, true, List, [], ◌∷◌, leb, length,
  length-append, Bool-cases, Result-cases, arith, Result, ok, err,
}
use flink_sql_go.Changelog.Row.{Row, Json}
use flink_sql_go.Results.Consume.{
  ResultType, not_ready, payload, eos, unknown_type, Page, Failure, Event, Server, Limits, State,
  Out, then_out, emit, take_rows, note_page, check_page, follow, next_or_first, wait, read_page,
  page_step, polled, round, valid_rows, page_rows, row_event, page_event, without_rows, eos_event,
}
use flink_sql_go.Results.Collected.{
  Collected, Kept, all_kept, unanswered, has_failed, page_step-Adds, page-Kept,
}

-- At poll `n` the state is within the limits.
pub record IsGood (l : Limits) (n : ℕ) (st : State) : Type 0 where
  pub bounded : st.rows_received ≤ l.max_rows
  pub collected : l.collect ≡ true → length st.rows ≡ st.rows_received
  pub at_poll : st.polls ≡ n

then_keeps :
    {A : Type 0} (l : Limits) (n : ℕ) (o : Out) (f : State → State × Result Failure A)
    → IsGood l n o.0
    → ((a : State) → IsGood l n a → IsGood l n (f a).0)
    → IsGood l n (then_out o f).0
then_keeps l n (st, ok u) f g h = h st g
then_keeps l n (st, err e) f g h = g

emit-IsGood :
    (srv : Server) (l : Limits) (e : Event) (n : ℕ) (st : State)
    → IsGood l n st
    → IsGood l n (emit srv l e st).0
unfolding emit
emit-IsGood srv l e n st g = record {
  bounded = ground (arith, g.bounded);
  collected = λ c. ground (arith, g.collected c);
  at_poll = ground (arith, g.at_poll);
}

take_rows-IsGood :
    (srv : Server) (l : Limits) (rs : List Row) (n : ℕ) (st : State)
    → IsGood l n st
    → IsGood l n (take_rows srv l rs st).0
unfolding take_rows
take_rows-IsGood srv l [] n st g = g
take_rows-IsGood srv l (r ∷ rs) n st g = elim (Bool-cases (leb l.max_rows st.rows_received)) [
  | inl full ↦ rw (full, take_rows) g
  | inr room ↦
      rw (room, take_rows)
        (then_keeps l n (emit srv l (row_event r) _) _
          (emit-IsGood srv l (row_event r) n _ (record {
            bounded = ground (arith, g.bounded);
            collected = λ c. ground (arith, g.collected c, length-append st.rows (r ∷ []));
            at_poll = g.at_poll;
          }))
          (λ a h. take_rows-IsGood srv l rs n a h))
]

note-IsGood :
    (l : Limits) (p : Page) (n : ℕ) (st : State) → IsGood l n st → IsGood l n (note_page l p st)
note-IsGood l p n st g = record {
  bounded = g.bounded;
  collected = g.collected;
  at_poll = g.at_poll;
}

check-IsGood :
    (j : Json) (l : Limits) (p : Page) (n : ℕ) (st : State)
    → IsGood l n st
    → IsGood l n (check_page j p st).0
check-IsGood j l p n st g = elim (Bool-cases (valid_rows j (length st.columns) (page_rows p))) [
  | inl good ↦ rw good g
  | inr bad ↦ rw bad g
]

read_page-IsGood :
    (j : Json) (srv : Server) (l : Limits) (p : Page) (n : ℕ) (st : State)
    → IsGood l n st
    → IsGood l n (read_page j srv l p st).0
unfolding read_page
read_page-IsGood j srv l p n st g =
    then_keeps l n (check_page j p (note_page l p st)) _
      (check-IsGood j l p n (note_page l p st) (note-IsGood l p n st g))
      (λ a h.
        then_keeps l n (emit srv l (page_event (without_rows p)) a) _
          (emit-IsGood srv l (page_event (without_rows p)) n a h)
          (λ b k. take_rows-IsGood srv l (page_rows p) n b k))

follow-IsGood :
    (srv : Server) (l : Limits) (p : Page) (n : ℕ) (st : State)
    → IsGood l n st
    → IsGood l n (follow srv p st).0
      × IsGood l n (next_or_first srv p st).0
      × IsGood l n (wait srv l st).0
follow-IsGood srv l p n st g = (
  record {
    bounded = ground (arith, g.bounded);
    collected = λ c. ground (arith, g.collected c);
    at_poll = ground (arith, g.at_poll);
  },
  record {
    bounded = ground (arith, g.bounded);
    collected = λ c. ground (arith, g.collected c);
    at_poll = ground (arith, g.at_poll);
  },
  record {
    bounded = ground (arith, g.bounded);
    collected = λ c. ground (arith, g.collected c);
    at_poll = ground (arith, g.at_poll);
  },
)

page_step-IsGood :
    (j : Json) (srv : Server) (l : Limits) (p : Page) (t : ResultType) (n : ℕ) (st : State)
    → IsGood l n st
    → IsGood l n (page_step j srv l p t st).0
page_step-IsGood j srv l p not_ready n st g =
    then_keeps l n (next_or_first srv p st) _ (follow-IsGood srv l p n st g).1
      (λ a h. (follow-IsGood srv l p n a h).2)
page_step-IsGood j srv l p payload n st g =
    then_keeps l n (read_page j srv l p st) _ (read_page-IsGood j srv l p n st g)
      (λ a h. (follow-IsGood srv l p n a h).0)
page_step-IsGood j srv l p eos n st g =
    then_keeps l n (read_page j srv l p st) _ (read_page-IsGood j srv l p n st g) (λ a h.
      then_keeps l n (emit srv l (eos_event (without_rows p)) _) _
        (emit-IsGood srv l (eos_event (without_rows p)) n _
          (record { bounded = h.bounded; collected = h.collected; at_poll = h.at_poll }))
        (λ b k. k))
page_step-IsGood j srv l p (unknown_type t) n st g = g

-- A round keeps the limits, takes its rows from the page it read, and polls exactly once if the loop goes on or is
-- finished.
pub record IsRound (srv : Server) (l : Limits) (n : ℕ) (out : State × Result Failure Bool)
    : Type 0 where
  pub at : ℕ
  pub good : IsGood l at out.0
  pub within : at ≤ l.max_polls
  pub kept : l.collect ≡ true → Kept srv (has_failed out.1) at out.0.rows
  pub counted : (b : Bool) → out.1 ≡ ok b → at ≡ n + 1

polled-IsGood : (l : Limits) (n : ℕ) (st : State) → IsGood l n st → IsGood l (n + 1) (polled st)
polled-IsGood l n st g = record {
  bounded = g.bounded;
  collected = g.collected;
  at_poll = ap (λ k. k + 1) g.at_poll;
}

pub round-IsRound :
    (j : Json) (srv : Server) (l : Limits) (n : ℕ) (st : State)
    → IsGood l n st
    → n ≤ l.max_polls
    → (l.collect ≡ true → Collected srv n st.rows)
    → IsRound srv l n (round j srv l st)
unfolding round
round-IsRound j srv l n st g w kept = elim (Bool-cases (srv.done st.polls)) [
  | inl over ↦
      rw (over, round)
        (record {
          at = n;
          good = g;
          within = w;
          kept = λ c. all_kept _ n st.rows (kept c);
          counted = λ b e. cc;
        })
  | inr live ↦ elim (Bool-cases (leb l.max_polls st.polls)) [
    | inl spent ↦
        rw (live, spent, round)
          (record {
            at = n;
            good = g;
            within = w;
            kept = λ c. all_kept _ n st.rows (kept c);
            counted = λ b e. cc;
          })
    | inr room ↦ elim (Result-cases (srv.fetch st.polls st.next)) [
      | inl (e, failed) ↦
          rw (live, room, failed, round)
            (record {
              at = n + 1;
              good = polled-IsGood l n st g;
              within = ground (arith, g.at_poll);
              kept = λ c. unanswered n st.rows (kept c);
              counted = λ b e. cc;
            })
      | inr (p, page) ↦
          rw (live, room, page, round)
            (record {
              at = n + 1;
              good =
                  page_step-IsGood j srv l p p.result_type (n + 1) (polled st)
                    (polled-IsGood l n st g);
              within = ground (arith, g.at_poll);
              kept = λ c.
                  page-Kept srv l c n (polled st) p st.next
                    (page_step j srv l p p.result_type (polled st)) (kept c)
                    (subst (λ i. srv.fetch i st.next ≡ ok p) g.at_poll page)
                    (page_step-Adds srv l c j p p.result_type (polled st));
              counted = λ b e. refl;
            })
    ]
  ]
]
