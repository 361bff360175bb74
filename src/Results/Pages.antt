-- ===== src/Results/Pages.antt =====
-- result.go and result_stream.go: a page, read by the loop and by a stream.
use flink_sql_go.Prelude.{
  ℕ, ◌+◌, ◌≡◌, refl, sym, ap, subst, ◌∙◌, ◌⊎◌, inl, inr, if_both, Bool, true, false, List, [], ◌∷◌,
  ◌++◌, Option, none, some, Bytes, leb, length, if◌then◌else◌, Result, ok, err,
}
use flink_sql_go.Changelog.Row.{Row, Json}
use flink_sql_go.Results.Consume.{
  Page, ResultType, not_ready, payload, eos, unknown_type, Failure, FetchError, operation_failure,
  Server, Limits, State, Out, then_out, emit, page_event, without_rows, take_rows, is_nil,
  page_rows, page_columns, note_page, follow, next_or_first, wait, read_page, page_step, polled,
  round, consume, consume_results, new_state, valid_rows, row_limit,
}
use flink_sql_go.Results.Stream.{
  Cleanup, Stream, Turn, again, returns, on_page, fetch_round, pending_round, open_round,
  with_cleanup, is_failed, close_request, row_event, finish, new_stream, operation_event,
}
use flink_sql_go.Results.Consume
use flink_sql_go.Results.Stream
use flink_sql_go.Results.Reading.{Reads, at_end, goes_on, Rest, alike}
use flink_sql_go.Results.Collected.{append_nil}
use flink_sql_go.Results.PageRows.{collecting, took_all, took_all-rows, take_rows-Reads}

module _ (j : Json) (srv : Server) (l : Limits) (c : Cleanup)
    (never_over : (n : ℕ) → srv.done n ≡ false) where
  abbrev pub ReadsHere : Stream → List Row → Stream → Type 0
  ReadsHere s rows u = Reads j srv (collecting l) c s rows u

  pub fetch_alike :
      (p : Page) (st : State) (x : Rest)
      → leb l.max_polls st.polls ≡ false
      → srv.fetch st.polls st.next ≡ ok p
      → Stream.round j srv (collecting l) c (alike st [] false st.next x)
        ≡ on_page j srv (collecting l) c p p.result_type (
            alike
              (polled st)
              []
              false
              st.next
              (record x { job_id = if is_nil p.job_id then x.job_id else p.job_id }))
  unfolding Stream.round open_round pending_round fetch_round
  fetch_alike p st x room fetched =
      rw (never_over (st.polls + st.rows_received), room, fetched) refl

  -- A stream that ended without error: it is closed, and so is its operation.
  abbrev pub IsDone : State → Stream → Type 0
  IsDone st u =
      (u.stream_err ≡ with_cleanup none false (is_failed c.close_answer))
      × (u.requests ≡ close_request ∷ [])
      × (u.closed ≡ true)
      × (u.rows_yielded ≡ st.rows_received)
      × (u.columns ≡ st.columns)

  -- What the stream does while the loop comes from one state to another.
  abbrev pub Matches : State → Rest → State × Result Failure Bool → Type 0
  Matches st x (st', err e) = Unit {0}
  Matches st x (st', ok true) =
      (rows : List Row) × (x' : Rest) × (st'.rows ≡ st.rows ++ rows)
      × ((rs : List Row) (u : Stream)
          → ReadsHere (alike st' [] false st'.next x') rs u
          → ReadsHere (alike st [] false st.next x) (rows ++ rs) u)
  Matches st x (st', ok false) =
      (rows : List Row) × (u : Stream) × (st'.rows ≡ st.rows ++ rows)
      × ReadsHere (alike st [] false st.next x) rows u
      × IsDone st' u

  module _ (p : Page) (st : State) (x y : Rest) where
    abbrev here : Stream
    here = alike st [] false st.next x

    abbrev fetched : Stream
    fetched = alike (polled st) [] false st.next y

    not_ready-Matches :
        Stream.round j srv (collecting l) c here
          ≡ on_page j srv (collecting l) c p not_ready fetched
        → Matches st x (page_step j srv (collecting l) p not_ready (polled st))
    unfolding on_page
    not_ready-Matches step =
        if_both (λ o. Matches st x (then_out o (λ a. wait srv (collecting l) a)))
          (is_nil p.next_uri)
          (λ nil.
            if_both (Matches st x) (srv.wait_done (st.polls + 1)) (λ over. tt)
              (λ waited. (
                [],
                y,
                sym (append_nil st.rows),
                λ rs u more. goes_on (step ∙ rw (nil, waited, on_page) refl) more,
              )))
          (λ given.
            if_both (λ o. Matches st x (then_out o (λ a. wait srv (collecting l) a)))
              (srv.valid_uri p.next_uri)
              (λ valid.
                if_both (Matches st x) (srv.wait_done (st.polls + 1)) (λ over. tt)
                  (λ waited. (
                    [],
                    y,
                    sym (append_nil st.rows),
                    λ rs u more. goes_on (step ∙ rw (given, valid, waited, on_page) refl) more,
                  )))
              (λ unsafe. tt))

    abbrev noted : State
    noted = note_page (collecting l) p (polled st)

    abbrev held : Rest
    held = record y { pending_page = some p }

    -- The rows of the page are taken once it has passed its check.
    payload-Matches :
        Stream.round j srv (collecting l) c here ≡ on_page j srv (collecting l) c p payload fetched
        → Matches st x (page_step j srv (collecting l) p payload (polled st))
    unfolding read_page emit on_page
    payload-Matches step =
        if_both
          (λ o. Matches st x (
            then_out
              (then_out o (λ a.
                then_out (emit srv (collecting l) (page_event (without_rows p)) a)
                  (λ b. take_rows srv (collecting l) (page_rows p) b)))
              (λ a. follow srv p a)))
          (valid_rows j (length (page_columns st.columns p)) (page_rows p))
          (λ good.
            after_rows good (
              take_rows-Reads j srv l c never_over (page_rows p) noted false (some p.next_uri)
                held))
          (λ bad. tt)
      where
        after_rows :
            valid_rows j (length (page_columns st.columns p)) (page_rows p) ≡ true
            → ((st' : State) × (e : Failure) × (take_rows srv (collecting l) (page_rows p) noted
                  ≡ (st', err e)))
              ⊎ ((take_rows srv (collecting l) (page_rows p) noted
                    ≡ (took_all (page_rows p) noted, ok tt))
                  × (x' : Rest) × ((rows : List Row) (u : Stream)
                      → ReadsHere
                          (alike (took_all (page_rows p) noted) [] false (some p.next_uri) x')
                          rows
                          u
                      → ReadsHere
                          (alike noted (page_rows p) false (some p.next_uri) held)
                          (page_rows p ++ rows)
                          u))
            → Matches st x
                (then_out (take_rows srv (collecting l) (page_rows p) noted) (λ a. follow srv p a))
        after_rows good (inl (st', e, h)) =
            subst (λ o. Matches st x (then_out o (λ a. follow srv p a))) (sym h) tt
        after_rows good (inr (h, x', k)) =
            subst (λ o. Matches st x (then_out o (λ a. follow srv p a))) (sym h)
              (if_both (Matches st x) (is_nil p.next_uri) (λ missing. tt)
                (λ given.
                  if_both (Matches st x) (srv.valid_uri p.next_uri)
                    (λ valid. (
                      page_rows p,
                      x',
                      took_all-rows (page_rows p) noted,
                      λ rs u more.
                          goes_on (step ∙ rw (good, given, valid, Stream.follow_page) refl)
                            (k rs u more),
                    ))
                    (λ unsafe. tt)))

    end_round :
        (st' : State) (next : Option Bytes) (x' : Rest)
        → (u : Stream) × (Stream.round j srv (collecting l) c (alike st' [] true next x')
            ≡ (u, returns false))
          × IsDone st' u
    unfolding Stream.round open_round pending_round finish
    end_round st' next x' = (
      finish c none false (record (alike st' [] true next x') {
        current_event =
            Stream.eos_event
              (elim x'.pending_page [ none ↦ none | some p ↦ some (without_rows p) ]);
      }),
      rw (never_over (st'.polls + st'.rows_received), open_round) refl,
      (refl, refl, refl, refl, refl),
    )

    eos-Matches :
        Stream.round j srv (collecting l) c here ≡ on_page j srv (collecting l) c p eos fetched
        → Matches st x (page_step j srv (collecting l) p eos (polled st))
    unfolding read_page emit on_page
    eos-Matches step =
        if_both
          (λ o. Matches st x (
            then_out
              (then_out o (λ a.
                then_out (emit srv (collecting l) (page_event (without_rows p)) a)
                  (λ b. take_rows srv (collecting l) (page_rows p) b)))
              (λ a. Consume.finish srv (collecting l) p a)))
          (valid_rows j (length (page_columns st.columns p)) (page_rows p))
          (λ good.
            after_rows good
              (take_rows-Reads j srv l c never_over (page_rows p) noted true st.next held))
          (λ bad. tt)
      where
        after_rows :
            valid_rows j (length (page_columns st.columns p)) (page_rows p) ≡ true
            → ((st' : State) × (e : Failure) × (take_rows srv (collecting l) (page_rows p) noted
                  ≡ (st', err e)))
              ⊎ ((take_rows srv (collecting l) (page_rows p) noted
                    ≡ (took_all (page_rows p) noted, ok tt))
                  × (x' : Rest) × ((rows : List Row) (u : Stream)
                      → ReadsHere (alike (took_all (page_rows p) noted) [] true st.next x') rows u
                      → ReadsHere
                          (alike noted (page_rows p) true st.next held)
                          (page_rows p ++ rows)
                          u))
            → Matches st x (
                then_out
                  (take_rows srv (collecting l) (page_rows p) noted)
                  (λ a. Consume.finish srv (collecting l) p a))
        after_rows good (inl (st', e, h)) =
            subst (λ o. Matches st x (then_out o (λ a. Consume.finish srv (collecting l) p a)))
              (sym h) tt
        after_rows good (inr (h, x', k)) =
            let (u, ends, done) = end_round (took_all (page_rows p) noted) st.next x' in
            subst (λ o. Matches st x (then_out o (λ a. Consume.finish srv (collecting l) p a)))
              (sym h)
              (
                page_rows p ++ [],
                u,
                took_all-rows (page_rows p) noted
                    ∙ ap (λ rs. st.rows ++ rs) (sym (append_nil (page_rows p))),
                goes_on (step ∙ rw (good, Stream.follow_page) refl) (k [] u (at_end ends)),
                done,
              )

  pub page-Matches :
      (k : ResultType) (p : Page) (st : State) (x y : Rest)
      → Stream.round j srv (collecting l) c (alike st [] false st.next x)
        ≡ on_page j srv (collecting l) c p k (alike (polled st) [] false st.next y)
      → Matches st x (page_step j srv (collecting l) p k (polled st))
  page-Matches not_ready p st x y step = not_ready-Matches p st x y step
  page-Matches payload p st x y step = payload-Matches p st x y step
  page-Matches eos p st x y step = eos-Matches p st x y step
  page-Matches (unknown_type t) p st x y step = tt
