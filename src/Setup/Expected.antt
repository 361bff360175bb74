-- ===== src/Setup/Expected.antt =====
-- What a setup is expected to report, said without a state; and the steps of the first loop.
use flink_sql_go.Prelude.{
  ℕ, suc, ◌≡◌, refl, sym, ap, ◌∙◌, Bool, true, false, ◌&&◌, ◌||◌, List, [], ◌∷◌, ◌++◌, map, Option,
  none, some, is_some, length, arith,
}
use flink_sql_go.Setup.Plan.{CompiledStep}
use flink_sql_go.Setup.Apply.{
  StepResult, SetupResult, SetupError, Answer, accepted, failed, unknown, Environment, fresh,
  update, mark_applied, mark_unknown, touched, any_touched, unknown_at, is_create, may_remain,
  fail_setup, apply_steps, Cause, refused_statement, failed_request, unknown_outcome,
}

-- How a step ends: refused or failed steps answer `failed`.
unfoldable pub step_answer : Environment → CompiledStep → Answer
step_answer env s = elim (env.validates s.statement) [ false ↦ failed | true ↦ env.configure s ]

-- The results, said without a state: applied up to the first step that is not accepted.
abbrev pub expected : Environment → List CompiledStep → List StepResult
expected env [] = []
expected env (s ∷ ss) = elim (step_answer env s) [
  | accepted ↦ mark_applied (fresh s) ∷ expected env ss
  | failed ↦ fresh s ∷ map fresh ss
  | unknown ↦ mark_unknown (fresh s) ∷ map fresh ss
]

-- The position of the first step that is not accepted, counted from `k`.
abbrev pub first_failure : ℕ → Environment → List CompiledStep → Option ℕ
first_failure k env [] = none
first_failure k env (s ∷ ss) = elim (step_answer env s) [
  | accepted ↦ first_failure (suc k) env ss
  | failed ↦ some k
  | unknown ↦ some k
]

abbrev pub IsNumbered : ℕ → List CompiledStep → Type 0
IsNumbered k [] = Unit {0}
IsNumbered k (s ∷ ss) = (s.index ≡ k) × IsNumbered (suc k) ss

pub update-append :
    (done : List StepResult) (f : StepResult → StepResult) (x : StepResult) (xs : List StepResult)
    → update (length done) f (done ++ x ∷ xs) ≡ done ++ f x ∷ xs
unfolding update
update-append [] f x xs = refl
update-append (y ∷ done) f x xs = ap (λ ys. y ∷ ys) (update-append done f x xs)

pub append_one :
    (done : List StepResult) (x : StepResult) (xs : List StepResult)
    → (done ++ x ∷ []) ++ xs ≡ done ++ x ∷ xs
append_one [] x xs = refl
append_one (y ∷ done) x xs = ap (λ ys. y ∷ ys) (append_one done x xs)

pub length-append_one :
    (done : List StepResult) (x : StepResult) → length (done ++ x ∷ []) ≡ suc (length done)
length-append_one [] x = refl
length-append_one (y ∷ done) x = ap suc (length-append_one done x)

pub touched_at :
    (done : List StepResult) (x : StepResult) (xs : List StepResult)
    → touched x ≡ true
    → any_touched (done ++ x ∷ xs) ≡ true
unfolding any_touched
touched_at [] x xs h = ground arith
touched_at (y ∷ done) x xs h = ground (arith, touched_at done x xs h)

-- The outcome of the loop where `done` is decided and the steps behind it are not.
pub record IsOutcome (env : Environment) (done : List StepResult) (steps : List CompiledStep)
    (out : SetupResult × Option SetupError) : Type 0 where
  pub results : out.0.steps ≡ done ++ expected env steps
  pub failure : out.0.failed_index ≡ first_failure (length done) env steps
  pub reported : is_some out.1 ≡ is_some (first_failure (length done) env steps)
  pub remains : out.0.changes_may_remain ≡ (
      is_some (first_failure (length done) env steps) && any_touched (done ++ expected env steps))

pub unknown_here :
    (done : List StepResult) (x : StepResult) (xs : List StepResult)
    → unknown_at (length done) (done ++ x ∷ xs) ≡ x.outcome_unknown
unknown_here [] x xs = refl
unknown_here (y ∷ done) x xs = unknown_here done x xs

pub absorb : (a b : Bool) → (b ≡ true → a ≡ true) → (a || b) ≡ a
absorb a b h = ground (arith, h)

pub may_remain_lem :
    (done : List StepResult) (x : StepResult) (xs : List StepResult) (s : CompiledStep)
    → s.index ≡ length done
    → s.kind ≡ x.kind
    → may_remain (done ++ x ∷ xs) s ≡ any_touched (done ++ x ∷ xs)
unfolding may_remain
may_remain_lem done x xs s i k =
    ap (λ n. any_touched (done ++ x ∷ xs) || (is_create s.kind && unknown_at n (done ++ x ∷ xs))) i
    ∙ ap (λ u. any_touched (done ++ x ∷ xs) || (is_create s.kind && u)) (unknown_here done x xs)
    ∙ ap (λ kind. any_touched (done ++ x ∷ xs) || (is_create kind && x.outcome_unknown)) k
    ∙ absorb (any_touched (done ++ x ∷ xs)) (is_create x.kind && x.outcome_unknown)
        (λ h. touched_at done x xs (ground arith))

pub failed-IsOutcome :
    (env : Environment) (done : List StepResult) (x : StepResult) (xs : List StepResult)
    (s : CompiledStep) (ss : List CompiledStep) (r : SetupResult) (cause : Cause)
    → s.index ≡ length done
    → s.kind ≡ x.kind
    → expected env (s ∷ ss) ≡ x ∷ xs
    → first_failure (length done) env (s ∷ ss) ≡ some (length done)
    → IsOutcome env done (s ∷ ss) (fail_setup (record r { steps = done ++ x ∷ xs }) s cause)
unfolding fail_setup
failed-IsOutcome env done x xs s ss r cause i k e f = record {
  results = ap (λ ys. done ++ ys) (sym e);
  failure = ap some i ∙ sym f;
  reported = ap is_some (sym f);
  remains =
      may_remain_lem done x xs s i k
      ∙ ap (λ ys. any_touched (done ++ ys)) (sym e)
      ∙ ap (λ o. is_some o && any_touched (done ++ expected env (s ∷ ss))) (sym f);
}

module _ (env : Environment) (s : CompiledStep) (ss : List CompiledStep) (r : SetupResult) where
  pub apply_refused :
      env.validates s.statement ≡ false
      → apply_steps env (s ∷ ss) r ≡ fail_setup r s refused_statement
  unfolding apply_steps
  apply_refused v = rw (v, apply_steps) refl

  pub apply_failed :
      env.validates s.statement ≡ true
      → env.configure s ≡ failed
      → apply_steps env (s ∷ ss) r ≡ fail_setup r s failed_request
  unfolding apply_steps
  apply_failed v a = rw (v, a, apply_steps) refl

  pub apply_unknown :
      env.validates s.statement ≡ true
      → env.configure s ≡ unknown
      → apply_steps env (s ∷ ss) r
        ≡ fail_setup (record r { steps = update s.index mark_unknown r.steps }) s unknown_outcome
  unfolding apply_steps
  apply_unknown v a = rw (v, a, apply_steps) refl

  pub apply_accepted :
      env.validates s.statement ≡ true
      → env.configure s ≡ accepted
      → apply_steps env (s ∷ ss) r
        ≡ apply_steps env ss (record r { steps = update s.index mark_applied r.steps })
  unfolding apply_steps
  apply_accepted v a = rw (v, a, apply_steps) refl

-- The step's own result is updated, wherever the loop is.
pub update_here :
    (s : CompiledStep) (done : List StepResult) (f : StepResult → StepResult) (xs : List StepResult)
    → s.index ≡ length done
    → update s.index f (done ++ fresh s ∷ xs) ≡ done ++ f (fresh s) ∷ xs
update_here s done f xs i =
    ap (λ n. update n f (done ++ fresh s ∷ xs)) i ∙ update-append done f (fresh s) xs

-- A decided step is the last of those that are done.
pub shift-IsOutcome :
    (env : Environment) (s : CompiledStep) (ss : List CompiledStep) (done : List StepResult)
    (out : SetupResult × Option SetupError)
    → step_answer env s ≡ accepted
    → IsOutcome env (done ++ mark_applied (fresh s) ∷ []) ss out
    → IsOutcome env done (s ∷ ss) out
shift-IsOutcome env s ss done out a o = record {
  results = o.results ∙ list;
  failure = o.failure ∙ position;
  reported = o.reported ∙ ap is_some position;
  remains =
      o.remains
      ∙ ap
          (λ p. is_some p && any_touched ((done ++ mark_applied (fresh s) ∷ []) ++ expected env ss))
          position
      ∙ ap (λ ys. is_some (first_failure (length done) env (s ∷ ss)) && any_touched ys) list;
}
  where
    list : (done ++ mark_applied (fresh s) ∷ []) ++ expected env ss ≡ done ++ expected env (s ∷ ss)
    list = append_one done (mark_applied (fresh s)) (expected env ss) ∙ rw (a, expected) refl

    position :
        first_failure (length (done ++ mark_applied (fresh s) ∷ [])) env ss
        ≡ first_failure (length done) env (s ∷ ss)
    position =
        ap (λ n. first_failure n env ss) (length-append_one done (mark_applied (fresh s)))
        ∙ rw (a, first_failure) refl
