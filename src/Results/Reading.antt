-- ===== src/Results/Reading.antt =====
-- result_stream.go: what a caller reads from a stream, and the loop of a caller that keeps the rows.
use flink_sql_go.Prelude.{
  ℕ, zero, suc, ◌+◌, ◌<◌, ◌≡◌, refl, sym, subst, ap, ◌∙◌, arith, Bool, true, false, List, [], ◌∷◌,
  Option, none, some, Bytes,
}
use flink_sql_go.Changelog.Row.{Row, Json}
use flink_sql_go.Results.Consume.{Page, Server, Limits, State}
use flink_sql_go.Results.Stream.{
  Cleanup, StreamEvent, Stream, plain, Turn, again, returns, round, next_from, next,
}
use flink_sql_go.Results.StreamInvariant.{IsGood}
use flink_sql_go.Results.StreamCalls.{IsCall, got_row, ended, next-IsCall}

-- The rows that rounds of `Next` yield from a stream until one ends, and the stream then.
pub data Reads (j : Json) (srv : Server) (l : Limits) (c : Cleanup)
    : Stream → List Row → Stream → Type 0 where
  at_end : {s u : Stream} → round j srv l c s ≡ (u, returns false) → Reads j srv l c s [] u
  goes_on :
      {s t u : Stream} {rows : List Row}
      → round j srv l c s ≡ (t, again)
      → Reads j srv l c t rows u
      → Reads j srv l c s rows u
  next_row :
      {s t u : Stream} {r : Row} {rows : List Row}
      → round j srv l c s ≡ (t, returns true)
      → t.current_row ≡ some r
      → Reads j srv l c t rows u
      → Reads j srv l c s (r ∷ rows) u

-- The loop over results and a stream at one place: a stream that is open and has what the state has. The
-- rest of its fields is what no round reads.
pub record Rest : Type 0 where
  pub job_id : Bytes
  pub current_event : StreamEvent
  pub current_row : Option Row
  pub pending_page : Option Page

abbrev pub alike : State → List Row → Bool → Option Bytes → Rest → Stream
alike st rows last next x = record {
  closed = false;
  stream_err = plain none;
  cleanup_err = plain none;
  current_event = x.current_event;
  current_row = x.current_row;
  job_id = x.job_id;
  columns = st.columns;
  rows_yielded = st.rows_received;
  polls = st.polls;
  interval = st.interval;
  next = next;
  pending_rows = rows;
  pending_eos = last;
  pending_page = x.pending_page;
  requests = [];
}

abbrev with_row : Option Row → Option (List Row × Stream) → Option (List Row × Stream)
with_row none rest = none
with_row (some r) none = none
with_row (some r) (some (rows, u)) = some (r ∷ rows, u)

-- The caller's loop `for stream.Next() { rows = append(rows, stream.Row()) }`, at most so many calls: `none` if the
-- stream has not ended by then.
unfoldable pub read_all : ℕ → Json → Server → Limits → Cleanup → Stream → Option (List Row × Stream)
read_all zero j srv l c s = none
read_all (suc n) j srv l c s = elim (next j srv l c s) [
  | none ↦ none
  | some (t, true) ↦ with_row t.current_row (read_all n j srv l c t)
  | some (t, false) ↦ some ([], t)
]

same_stream :
    (s t : Stream) (more : Bool)
    → ◌≡◌ {A = Option (Stream × Bool)} (some (s, more)) (some (t, more))
    → s ≡ t
same_stream s t more h = ground arith

with_row-some :
    (o : Option Row) (p : Option (List Row × Stream)) (r : Row) (rs : List Row) (u : Stream)
    → o ≡ some r
    → p ≡ some (rs, u)
    → with_row o p ≡ some (r ∷ rs, u)
with_row-some o p r rs u e f = rw (e, f) refl

module _ (j : Json) (srv : Server) (l : Limits) (c : Cleanup) where
  -- What a call of `Next` leaves to be read.
  abbrev Leaves : List Row → Stream → Stream → Bool → Type 0
  Leaves rows u t false = (rows ≡ []) × (t ≡ u)
  Leaves rows u t true =
      (r : Row) × (rs : List Row) × (rows ≡ r ∷ rs)
      × (t.current_row ≡ some r)
      × Reads j srv l c t rs u

  abbrev turned : ℕ → Stream × Turn → Option (Stream × Bool)
  turned fuel (t, again) = next_from fuel j srv l c t
  turned fuel (t, returns more) = some (t, more)

  turn-Leaves :
      (fuel : ℕ) (s u t : Stream) (rows : List Row) (more : Bool)
      → Reads j srv l c s rows u
      → ((v : Stream)
          → Reads j srv l c v rows u
          → next_from fuel j srv l c v ≡ some (t, more)
          → Leaves rows u t more)
      → turned fuel (round j srv l c s) ≡ some (t, more)
      → Leaves rows u t more
  turn-Leaves fuel s u t rows more (at_end e) k h =
      ended more (subst (λ o. turned fuel o ≡ some (t, more)) e h)
    where
      ended :
          (m : Bool)
          → ◌≡◌ {A = Option (Stream × Bool)} (some (u, false)) (some (t, m))
          → Leaves [] u t m
      ended true h = ground arith
      ended false h = (refl, ground arith)
  turn-Leaves fuel s u t rows more (goes_on {t = v} e reads) k h =
      k v reads (subst (λ o. turned fuel o ≡ some (t, more)) e h)
  turn-Leaves fuel s u t rows more (next_row {t = v} {r = r} {rows = rs} e now reads) k h =
      got more (subst (λ o. turned fuel o ≡ some (t, more)) e h)
    where
      got :
          (m : Bool)
          → ◌≡◌ {A = Option (Stream × Bool)} (some (v, true)) (some (t, m))
          → Leaves (r ∷ rs) u t m
      got true h =
          subst (λ w. Leaves (r ∷ rs) u w true) (same_stream v t true h) (r, rs, refl, now, reads)
      got false h = ground arith

  next_from-Leaves :
      (fuel : ℕ) (s u t : Stream) (rows : List Row) (more : Bool)
      → Reads j srv l c s rows u
      → next_from fuel j srv l c s ≡ some (t, more)
      → Leaves rows u t more
  unfolding next_from
  next_from-Leaves zero s u t rows more reads h = ground arith
  next_from-Leaves (suc fuel) s u t rows more reads h =
      turn-Leaves fuel s u t rows more reads (λ v. next_from-Leaves fuel v u t rows more) h

  next-Leaves :
      (s u t : Stream) (rows : List Row) (more : Bool)
      → Reads j srv l c s rows u
      → next j srv l c s ≡ some (t, more)
      → Leaves rows u t more
  unfolding next
  next-Leaves s u t rows more reads h = next_from-Leaves (l.max_polls + 1) s u t rows more reads h

  abbrev called : ℕ → Option (Stream × Bool) → Option (List Row × Stream)
  called n none = none
  called n (some (t, true)) = with_row t.current_row (read_all n j srv l c t)
  called n (some (t, false)) = some ([], t)

  call-read_all :
      (n : ℕ) (s u : Stream) (rows : List Row) (o : Option (Stream × Bool))
      → next j srv l c s ≡ o
      → Reads j srv l c s rows u
      → IsCall l s.rows_yielded o
      → ((t : Stream) (rs : List Row)
          → Reads j srv l c t rs u
          → IsGood l t
          → t.rows_yielded ≡ s.rows_yielded + 1
          → read_all n j srv l c t ≡ some (rs, u))
      → called n o ≡ some (rows, u)
  call-read_all n s u rows o e reads (got_row t g y) k =
      let (r, rs, f, now, more) = next-Leaves s u t rows true reads e in
      with_row-some t.current_row (read_all n j srv l c t) r rs u now (k t rs more g y)
      ∙ ap (λ all. some (all, u)) (sym f)
  call-read_all n s u rows o e reads (ended t g closed) k =
      let (f, same) = next-Leaves s u t rows false reads e in
      ap (λ v. some ([], v)) same ∙ ap (λ all. some (all, u)) (sym f)

  -- Enough calls read all of it.
  pub read_all-Reads :
      (n : ℕ) (s u : Stream) (rows : List Row)
      → Reads j srv l c s rows u
      → IsGood l s
      → l.max_rows < n + s.rows_yielded
      → read_all n j srv l c s ≡ some (rows, u)
  unfolding IsGood read_all
  read_all-Reads zero s u rows reads g enough = ground (arith, g.rows_bounded)
  read_all-Reads (suc n) s u rows reads g enough =
      call-read_all n s u rows (next j srv l c s) refl reads (next-IsCall j srv l c s g)
        (λ t rs more h y. read_all-Reads n t u rs more h (omega (arith, enough, y)))
