-- ===== src/Results/Collected.antt =====
-- result.go: the rows that the loop collects are those of the pages it read.
use flink_sql_go.Prelude.{
  ℕ, suc, ◌+◌, ◌≡◌, refl, sym, subst, ap, ◌∙◌, inl, inr, Bool, true, false, if_both, Bool-cases,
  List, [], ◌∷◌, ◌++◌, Option, Bytes, leb, take, Result, ok, err, arith, length,
}
use flink_sql_go.Changelog.Row.{Row, Json}
use flink_sql_go.Results.Consume.{
  ResultType, not_ready, payload, eos, unknown_type, Page, Failure, Event, Server, Limits, State,
  Out, then_out, emit, take_rows, note_page, follow, finish, next_or_first, wait, read_page,
  page_step, valid_rows, page_rows, row_event, page_event, without_rows, eos_event,
}

-- The rows that a page has for the result.
abbrev pub rows_of : ResultType → Page → List Row
rows_of payload p = page_rows p
rows_of eos p = page_rows p
rows_of not_ready p = []
rows_of (unknown_type t) p = []

-- All rows of the pages that so many polls have brought, unchanged and in order.
pub data Collected (srv : Server) : ℕ → List Row → Type 0 where
  nothing : Collected srv 0 []
  page_read :
      (n : ℕ) (rows : List Row) (next : Option Bytes) (p : Page)
      → Collected srv n rows
      → srv.fetch n next ≡ ok p
      → Collected srv (n + 1) (rows ++ rows_of p.result_type p)

-- What is collected behind so many polls. A loop that failed may have got no page by its last poll, or have taken only
-- the first rows of it.
pub data Kept (srv : Server) : Bool → ℕ → List Row → Type 0 where
  all_kept :
      (has_failed : Bool) (n : ℕ) (rows : List Row)
      → Collected srv n rows
      → Kept srv has_failed n rows
  unanswered : (n : ℕ) (rows : List Row) → Collected srv n rows → Kept srv true (n + 1) rows
  cut_short :
      (n : ℕ) (rows : List Row) (next : Option Bytes) (p : Page) (k : ℕ)
      → Collected srv n rows
      → srv.fetch n next ≡ ok p
      → Kept srv true (n + 1) (rows ++ take k (rows_of p.result_type p))

abbrev pub has_failed : {A : Type 0} → Result Failure A → Bool
has_failed (ok a) = false
has_failed (err e) = true

pub whole_result :
    (srv : Server) (b : Bool) (n : ℕ) (rows : List Row)
    → b ≡ false
    → Kept srv b n rows
    → Collected srv n rows
whole_result srv b n rows h (all_kept _ _ _ c) = c
whole_result srv b n rows h (unanswered _ _ c) = cc
whole_result srv b n rows h (cut_short _ _ _ _ _ c f) = cc

pub append_nil : (rows : List Row) → rows ++ [] ≡ rows
append_nil [] = refl
append_nil (r ∷ rows) = ap (λ rs. r ∷ rs) (append_nil rows)

pub append_assoc : (xs ys zs : List Row) → (xs ++ ys) ++ zs ≡ xs ++ (ys ++ zs)
append_assoc [] ys zs = refl
append_assoc (r ∷ xs) ys zs = ap (λ rs. r ∷ rs) (append_assoc xs ys zs)

take-length : (rs : List Row) → take (length rs) rs ≡ rs
take-length [] = refl
take-length (r ∷ rs) = ap (λ xs. r ∷ xs) (take-length rs)

-- The rows of a list were added to those of a state: all of them, or the first ones before a failure.
abbrev pub Adds : {A : Type 0} → List Row → State → State × Result Failure A → Type 0
Adds rs st (a, ok x) = a.rows ≡ st.rows ++ rs
Adds rs st (a, err e) = (k : ℕ) × (a.rows ≡ st.rows ++ take k rs)

then-Adds :
    {A : Type 0} (rs : List Row) (st : State) (o : Out) (f : State → State × Result Failure A)
    → Adds rs st o
    → ((a : State) → a.rows ≡ st.rows ++ rs → Adds rs st (f a))
    → Adds rs st (then_out o f)
then-Adds rs st (a, ok u) f g h = h a g
then-Adds rs st (a, err e) f g h = g

all-Adds :
    {A : Type 0} (rs : List Row) (st : State) (o : State × Result Failure A)
    → o.0.rows ≡ st.rows ++ rs
    → Adds rs st o
all-Adds rs st (a, ok x) h = h
all-Adds rs st (a, err e) h = (length rs, h ∙ ap (λ xs. st.rows ++ xs) (sym (take-length rs)))

emit-rows :
    (srv : Server) (l : Limits) (e : Event) (st : State) → (emit srv l e st).0.rows ≡ st.rows
unfolding emit
emit-rows srv l e st = ground arith

next_or_first-rows :
    (srv : Server) (p : Page) (st : State) → (next_or_first srv p st).0.rows ≡ st.rows
next_or_first-rows srv p st = ground arith

wait-rows : (srv : Server) (l : Limits) (st : State) → (wait srv l st).0.rows ≡ st.rows
wait-rows srv l st = ground arith

follow-rows : (srv : Server) (p : Page) (st : State) → (follow srv p st).0.rows ≡ st.rows
follow-rows srv p st = ground arith

finish-rows :
    (srv : Server) (l : Limits) (p : Page) (st : State) → (finish srv l p st).0.rows ≡ st.rows
finish-rows srv l p st =
    behind (emit srv l (eos_event (without_rows p)) (record st { finished = true }))
      (emit-rows srv l (eos_event (without_rows p)) (record st { finished = true }))
  where
    behind : (o : Out) → o.0.rows ≡ st.rows → (then_out o (λ a. (a, ok false))).0.rows ≡ st.rows
    behind (a, ok u) h = h
    behind (a, err e) h = h

-- One row is taken, and then some of the others.
one_more :
    (r : Row) (rs : List Row) (st a : State) (o : Out)
    → a.rows ≡ st.rows ++ r ∷ []
    → Adds rs a o
    → Adds (r ∷ rs) st o
one_more r rs st a (b, ok u) h i = i ∙ ap (λ xs. xs ++ rs) h ∙ append_assoc st.rows (r ∷ []) rs
one_more r rs st a (b, err e) h (k, i) =
    (suc k, i ∙ ap (λ xs. xs ++ take k rs) h ∙ append_assoc st.rows (r ∷ []) (take k rs))

-- A row, if its event is taken.
row_taken :
    (r : Row) (rs : List Row) (st : State) (o : Out) (f : State → Out)
    → o.0.rows ≡ st.rows ++ r ∷ []
    → ((a : State) → Adds rs a (f a))
    → Adds (r ∷ rs) st (then_out o f)
row_taken r rs st (a, err e) f h g = (1, h)
row_taken r rs st (a, ok u) f h g = one_more r rs st a (f a) h (g a)

same-Adds : (rs : List Row) (st a : State) (o : Out) → a.rows ≡ st.rows → Adds rs a o → Adds rs st o
same-Adds rs st a (b, ok u) h i = i ∙ ap (λ xs. xs ++ rs) h
same-Adds rs st a (b, err e) h (k, i) = (k, i ∙ ap (λ xs. xs ++ take k rs) h)

behind_event :
    (rs : List Row) (st : State) (o : Out) (f : State → Out)
    → o.0.rows ≡ st.rows
    → ((a : State) → Adds rs a (f a))
    → Adds rs st (then_out o f)
behind_event rs st (a, err e) f h g = (0, h ∙ sym (append_nil st.rows))
behind_event rs st (a, ok u) f h g = same-Adds rs st a (f a) h (g a)

module _ (srv : Server) (l : Limits) (c : l.collect ≡ true) where
  take_rows-Adds : (rs : List Row) (st : State) → Adds rs st (take_rows srv l rs st)
  unfolding take_rows
  take_rows-Adds [] st = sym (append_nil st.rows)
  take_rows-Adds (r ∷ rs) st = elim (Bool-cases (leb l.max_rows st.rows_received)) [
    | inl full ↦ rw (full, take_rows) (0, sym (append_nil st.rows))
    | inr room ↦
        rw (room, take_rows)
          (row_taken r rs st (emit srv l (row_event r) _) (λ a. take_rows srv l rs a)
            (emit-rows srv l (row_event r) _ ∙ rw c refl) (λ a. take_rows-Adds rs a))
  ]

  read_page-Adds :
      (j : Json) (p : Page) (st : State) → Adds (page_rows p) st (read_page j srv l p st)
  unfolding read_page
  read_page-Adds j p st =
      if_both
        (λ o. Adds (page_rows p) st (
          then_out o (λ a.
            then_out (emit srv l (page_event (without_rows p)) a)
              (λ b. take_rows srv l (page_rows p) b))))
        (valid_rows j (length (note_page l p st).columns) (page_rows p))
        (λ good.
          behind_event (page_rows p) st
            (emit srv l (page_event (without_rows p)) (note_page l p st)) _
            (emit-rows srv l (page_event (without_rows p)) (note_page l p st))
            (λ a. take_rows-Adds (page_rows p) a))
        (λ bad. (0, sym (append_nil st.rows)))

  pub page_step-Adds :
      (j : Json) (p : Page) (t : ResultType) (st : State)
      → Adds (rows_of t p) st (page_step j srv l p t st)
  page_step-Adds j p not_ready st =
      then-Adds [] st (next_or_first srv p st) (λ a. wait srv l a)
        (all-Adds [] st (next_or_first srv p st)
          (next_or_first-rows srv p st ∙ sym (append_nil st.rows)))
        (λ a h. all-Adds [] st (wait srv l a) (wait-rows srv l a ∙ h))
  page_step-Adds j p payload st =
      then-Adds (page_rows p) st (read_page j srv l p st) (λ a. follow srv p a)
        (read_page-Adds j p st)
        (λ a h. all-Adds (page_rows p) st (follow srv p a) (follow-rows srv p a ∙ h))
  page_step-Adds j p eos st =
      then-Adds (page_rows p) st (read_page j srv l p st) (λ a. finish srv l p a)
        (read_page-Adds j p st)
        (λ a h. all-Adds (page_rows p) st (finish srv l p a) (finish-rows srv l p a ∙ h))
  page_step-Adds j p (unknown_type t) st = (0, sym (append_nil st.rows))

  -- A page behind what was collected.
  pub page-Kept :
      (n : ℕ) (st : State) (p : Page) (next : Option Bytes) (o : State × Result Failure Bool)
      → Collected srv n st.rows
      → srv.fetch n next ≡ ok p
      → Adds (rows_of p.result_type p) st o
      → Kept srv (has_failed o.1) (n + 1) o.0.rows
  page-Kept n st p next (a, ok b) kept f h = subst (Kept srv false (n + 1)) (sym h) (
      all_kept false (n + 1) (st.rows ++ rows_of p.result_type p)
        (page_read n st.rows next p kept f))
  page-Kept n st p next (a, err e) kept f (k, h) =
      subst (Kept srv true (n + 1)) (sym h) (cut_short n st.rows next p k kept f)
