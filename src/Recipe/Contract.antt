-- ===== src/Recipe/Contract.antt =====
-- The outcome of a recipe against its statements.
use flink_sql_go.Prelude.{
  ℕ, suc, ◌+◌, ◌≡◌, refl, sym, ap, subst, ◌∙◌, Bool, true, false, List, [], ◌∷◌, ◌++◌, map, length,
  Option, none, some, Bytes, if◌then◌else◌, Result, ok, err, Result-cases, Bool-cases, inl, inr,
  arith,
}
use flink_sql_go.Recipe.Replay.{
  Execution, StatementResult, ReplayResult, not_opened, not_replayed, Gateway, Call, run_call,
  close_call, Replay, statement_result, replay, open_session_from_recipe, replay_opened,
}

module _ {E : Type 0} (g : Gateway E) (handle : Bytes) where
  -- The statements from this position on have all run, with these results.
  pub data AreApplied : ℕ → List Bytes → List StatementResult → Type 0 where
    none_applied : {index : ℕ} → AreApplied index [] []
    next_applied :
        {index : ℕ} {s : Bytes} {statements : List Bytes} {execution : Option Execution}
        {results : List StatementResult}
        → g.run handle index s ≡ ok execution
        → AreApplied (suc index) statements results
        → AreApplied index (s ∷ statements) (statement_result index execution ∷ results)

-- What a recipe comes to: all its statements run, in order; or those before the first that fails, the session is
-- closed then unless it is to be kept, and none behind it is run.
pub data IsReplayed {E : Type 0} (g : Gateway E) (keep_session : Bool) (statements : List Bytes)
    (out : Replay E) : Type 0 where
  nothing_opened :
      {e : E}
      → g.opens ≡ err e
      → out.calls ≡ []
      → out.result ≡ none
      → out.error ≡ some (not_opened e)
      → IsReplayed g keep_session statements out
  all_replayed :
      {handle : Bytes} {results : List StatementResult}
      → g.opens ≡ ok handle
      → AreApplied g handle 0 statements results
      → out.calls ≡ map (run_call handle) statements
      → out.result
        ≡ some (record {
          session_handle = handle;
          applied = results;
          failed_index = none;
          complete = true;
        })
      → out.error ≡ none
      → IsReplayed g keep_session statements out
  stopped :
      {handle : Bytes} {results : List StatementResult} {cause : E} (before : List Bytes)
      (s : Bytes) (behind : List Bytes)
      → g.opens ≡ ok handle
      → statements ≡ before ++ s ∷ behind
      → AreApplied g handle 0 before results
      → g.run handle (length before) s ≡ err cause
      → out.calls
        ≡ map (run_call handle) before
          ++ run_call handle s ∷ (if keep_session then [] else close_call handle ∷ [])
      → out.result
        ≡ some (record {
          session_handle = handle;
          applied = results;
          failed_index = some (length before);
          complete = false;
        })
      → out.error
        ≡ some (
            not_replayed (record {
              cause = cause;
              close_error = if keep_session then none else g.close handle;
              session_handle = handle;
              failed_index = length before;
            }))
      → IsReplayed g keep_session statements out

module _ {A : Type 0} where
  ++_nil : (xs : List A) → xs ++ [] ≡ xs
  ++_nil [] = refl
  ++_nil (x ∷ xs) = ap (λ ys. x ∷ ys) (++_nil xs)

  ++_assoc : (xs ys zs : List A) → (xs ++ ys) ++ zs ≡ xs ++ (ys ++ zs)
  ++_assoc [] ys zs = refl
  ++_assoc (x ∷ xs) ys zs = ap (λ rest. x ∷ rest) (++_assoc xs ys zs)

  length-snoc : (xs : List A) (x : A) → length (xs ++ x ∷ []) ≡ suc (length xs)
  length-snoc [] x = refl
  length-snoc (y ∷ xs) x = ap suc (length-snoc xs x)

  map-snoc :
      {B : Type 0} (f : A → B) (xs : List A) (x : A) → map f (xs ++ x ∷ []) ≡ map f xs ++ f x ∷ []
  map-snoc f [] x = refl
  map-snoc f (y ∷ xs) x = ap (λ ys. f y ∷ ys) (map-snoc f xs x)

module _ {E : Type 0} (g : Gateway E) (keep_session : Bool) (handle : Bytes) where
  snoc_applied :
      {index n : ℕ} {s : Bytes} {before : List Bytes} {results : List StatementResult}
      {execution : Option Execution}
      → AreApplied g handle index before results
      → n ≡ index + length before
      → g.run handle n s ≡ ok execution
      → AreApplied g handle index (before ++ s ∷ []) (results ++ statement_result n execution ∷ [])
  snoc_applied {index} {n} {s} {execution} none_applied e h =
      subst (λ i. AreApplied g handle i (s ∷ []) (statement_result n execution ∷ [])) (n-eq e)
        (next_applied h none_applied)
    where
      n-eq : n ≡ index + 0 → n ≡ index
      n-eq e = omega (arith, e)
  snoc_applied (next_applied k rest) e h = next_applied k (snoc_applied rest (omega (arith, e)) h)

  abbrev result_of : List StatementResult → ReplayResult
  result_of results = record {
    session_handle = handle;
    applied = results;
    failed_index = none;
    complete = false;
  }

  fail_calls :
      (calls : List Call) (before : List Bytes) (s : Bytes)
      → calls ≡ map (run_call handle) before
      → (if keep_session
          then calls ++ run_call handle s ∷ []
          else (calls ++ run_call handle s ∷ []) ++ close_call handle ∷ [])
        ≡ map (run_call handle) before
          ++ run_call handle s ∷ (if keep_session then [] else close_call handle ∷ [])
  fail_calls calls before s c = elim (Bool-cases keep_session) [
    | inl kept ↦ rw kept (ap (λ x. x ++ run_call handle s ∷ []) c)
    | inr closed ↦ rw closed (
        ++_assoc calls (run_call handle s ∷ []) (close_call handle ∷ [])
        ∙ ap (λ x. x ++ run_call handle s ∷ close_call handle ∷ []) c)
  ]

  replay-IsReplayed :
      (rest before statements : List Bytes) (index : ℕ) (results : List StatementResult)
      (calls : List Call)
      → g.opens ≡ ok handle
      → index ≡ length before
      → calls ≡ map (run_call handle) before
      → statements ≡ before ++ rest
      → AreApplied g handle 0 before results
      → IsReplayed g keep_session statements
          (replay g keep_session index rest (result_of results) calls)
  unfolding replay
  replay-IsReplayed [] before statements index results calls o i c e a =
      let e' = e ∙ ++_nil before in
      all_replayed o (subst (λ x. AreApplied g handle 0 x results) (sym e') a)
        (c ∙ ap (map (run_call handle)) (sym e')) refl refl
  replay-IsReplayed (s ∷ rest) before statements index results calls o i c e a =
      elim (Result-cases (g.run handle index s)) [
        | inl (cause, h) ↦
            rw (h, replay)
              (stopped before s rest o e a (subst (λ n. g.run handle n s ≡ err cause) i h)
                (fail_calls calls before s c)
                (ap
                  (λ n. some (record {
                    session_handle = handle;
                    applied = results;
                    failed_index = some n;
                    complete = false;
                  }))
                  i)
                (ap
                  (λ n. some (
                    not_replayed (record {
                      cause = cause;
                      close_error = if keep_session then none else g.close handle;
                      session_handle = handle;
                      failed_index = n;
                    })))
                  i))
        | inr (execution, h) ↦
            rw (h, replay)
              (replay-IsReplayed rest (before ++ s ∷ []) statements (suc index)
                (results ++ statement_result index execution ∷ []) (calls ++ run_call handle s ∷ [])
                o (ap suc i ∙ sym (length-snoc before s))
                (ap (λ x. x ++ run_call handle s ∷ []) c
                  ∙ sym (map-snoc (run_call handle) before s))
                (e ∙ sym (++_assoc before (s ∷ []) rest)) (snoc_applied a (omega (arith, i)) h))
      ]

replay_opened-IsReplayed :
    {E : Type 0} (g : Gateway E) (keep_session : Bool) (statements : List Bytes)
    (opened : Result E Bytes)
    → g.opens ≡ opened
    → IsReplayed g keep_session statements (replay_opened g keep_session statements opened)
unfolding replay_opened
replay_opened-IsReplayed g keep_session statements (err e) h = nothing_opened h refl refl refl
replay_opened-IsReplayed g keep_session statements (ok handle) h =
    replay-IsReplayed g keep_session handle statements [] statements 0 [] [] h refl refl refl
      none_applied

-- A recipe opens its session once and runs its statements in order, each once; it stops behind the first that
-- fails, runs none behind that, and closes the session then unless it is to be kept. The result has the outcome of each
-- statement that ran without failure, with its position.
pub open_session_from_recipe-IsReplayed :
    {E : Type 0} (g : Gateway E) (keep_session : Bool) (statements : List Bytes)
    → IsReplayed g keep_session statements (open_session_from_recipe g keep_session statements)
unfolding open_session_from_recipe
open_session_from_recipe-IsReplayed g keep_session statements =
    replay_opened-IsReplayed g keep_session statements g.opens refl
